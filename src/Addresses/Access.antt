-- ===== src/Addresses/Access.antt =====
-- Whose addresses an organizer's users may change.
use ticketing_system.Prelude.{
  ℕ, ◌≡◌, ◌⊎◌, refl, true, false, not, ◌&&◌, [], ◌∷◌, none, some, arith, ◌==◌, Bool-cases, inl, inr,
  subst, sym, ap, ==_iff,
}
use ticketing_system.Errors.{
  Ensures, Ensures-bind, Ensures-raise_if, Ensures_ok, returned, or_raise, or_raise_ok,
}
use ticketing_system.Table.{scalar, exists, update}
use ticketing_system.Table.Laws.{scalar_holds}
use ticketing_system.Table.Replace.{scalar-replace_other, scalar-replaced}
use ticketing_system.Schema.{Database, Address, User, Role}
use ticketing_system.Access.{has_role, is_member, require_roles}
use ticketing_system.Addresses.{
  AddressCreate, write_address, update_address, shares_organizer, has_venue,
  require_authorized_address, put_address,
}

-- An administrator, or a member of an organizer at the address, where there is no venue.
abbrev pub MayChange : Database → ℕ → User → Type 0
MayChange db address_id user =
    (has_role Role.admin user ≡ true)
    ⊎ ((exists (λ o. o.address_id == address_id && is_member o.id user) db.organizers ≡ true)
        × (exists (λ v. v.address_id == address_id) db.venues ≡ false))

require_authorized_address-MayChange :
    (db : Database) (address_id : ℕ) (user : User)
    → Ensures
        (λ (a : Address).
          (scalar (λ r. r.id == address_id) db.addresses ≡ some a) × MayChange db a.id user)
        (require_authorized_address db address_id user)
unfolding require_authorized_address
require_authorized_address-MayChange db address_id user =
    Ensures-bind (require_roles (Role.admin ∷ Role.organizer ∷ []) user) _ λ _ _.
      Ensures-bind (or_raise (scalar (λ r. r.id == address_id) db.addresses) _) _ λ a e.
        Ensures-raise_if (not (has_role Role.admin user) && not (shares_organizer db a user)) _ _
          λ shares. Ensures-raise_if (not (has_role Role.admin user) && has_venue db a) _ _ λ free.
            returned (
              or_raise_ok _ _ a e,
              elim (Bool-cases (has_role Role.admin user)) [
                | inl admin ↦ inl admin
                | inr other ↦ inr (ground (arith, shares, other), ground (arith, free, other))
              ],
            )

-- What a change of an address leaves: the other addresses, and a part of the address that is not given.
pub record Changed (db : Database) (user : User) (address_id : ℕ) (schema : AddressCreate)
    (r : Address × Database) : Type 0 where
  pub may : MayChange db address_id user
  pub written : scalar (λ a. a.id == address_id) r.1.addresses ≡ some r.0
  pub others :
      (j : ℕ)
      → (address_id == j) ≡ false
      → scalar (λ a. a.id == j) r.1.addresses ≡ scalar (λ a. a.id == j) db.addresses
  pub apartment :
      (a : Address)
      → scalar (λ r. r.id == address_id) db.addresses ≡ some a
      → schema.apartment_number ≡ none
      → r.0.apartment_number ≡ a.apartment_number

-- Who changes an address is an administrator or acts for an organizer at it, and then no venue is
-- there; the answer is what the table then holds, every other address stays, and so does the number of
-- the apartment where none is given.
pub put_address-Changed :
    (db : Database) (user : User) (address_id : ℕ) (schema : AddressCreate)
    → Ensures (Changed db user address_id schema) (put_address db user address_id schema)
unfolding put_address update_address
put_address-Changed db user address_id schema =
    Ensures-bind (require_authorized_address db address_id user) _ λ a e.
      let (found, may) = Ensures_ok _ (require_authorized_address-MayChange db address_id user) e in
      let named : a.id ≡ address_id =
        (==_iff a.id address_id).0 (scalar_holds (λ r. r.id == address_id) db.addresses a found) in
      let here = subst (λ k. scalar (λ r. r.id == k) db.addresses ≡ some a) (sym named) found in
      let a' = write_address schema a in
      returned (record {
        may = subst (λ k. MayChange db k user) named may;
        written =
            subst
              (λ k.
                scalar (λ r. r.id == k) (update (λ r. r.id == a.id) (λ _. a') db.addresses)
                ≡ some a')
              named (scalar-replaced (λ r. r.id) a.id a a' db.addresses here refl);
        others = λ j other.
            scalar-replace_other (λ r. r.id) a.id j a' db.addresses refl
              (subst (λ k. (k == j) ≡ false) (sym named) other);
        apartment = λ b row none_given.
            let same : a ≡ b = cc in rw none_given (ap (λ (x : Address). x.apartment_number) same);
      })
