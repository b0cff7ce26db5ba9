-- ===== src/Addresses.antt =====
-- app/services/address_service.py and who may change an address: core/dependencies/addresses.py.
pub mod Access
mod Tests
use ticketing_system.Prelude.{
  ℕ, suc, Bool, not, ◌&&◌, List, [], ◌∷◌, ◌++◌, Option, none, some, String, ◌==◌, if◌then◌else◌,
}
use ticketing_system.Errors.{Result, ok, ◌>>=◌, ◌>>◌, raise_if, or_raise, not_found, forbidden}
use ticketing_system.Table.{scalar, exists, update}
use ticketing_system.Schema.{Database, Address, User, Role}
use ticketing_system.Booking.Cart.{keep_old}
use ticketing_system.Access.{has_role, is_member, require_roles}

-- AddressCreateDTO and AddressPutDTO, after validation.
pub record AddressCreate : Type 0 where
  pub city : String
  pub street : String
  pub postal_code : String
  pub building_number : String
  pub apartment_number : Option String
  pub country_code : String

pub get_address : Database → ℕ → Result Address
get_address db address_id =
    or_raise (scalar (λ a. a.id == address_id) db.addresses) (not_found "Address not found")

abbrev pub new_address : ℕ → AddressCreate → Address
new_address id schema = record {
  id = id;
  city = schema.city;
  street = schema.street;
  postal_code = schema.postal_code;
  building_number = schema.building_number;
  apartment_number = schema.apartment_number;
  country_code = schema.country_code;
}

pub create_address : Database → AddressCreate → Address × Database
create_address db schema =
    let address = new_address db.next.address_id schema in
    (
      address,
      record db {
        addresses = db.addresses ++ address ∷ [];
        next = record (db.next) { address_id = suc db.next.address_id };
      },
    )

-- for k, v in data.items(): setattr(address, k, v); the keys that are None are left out.
abbrev pub write_address : AddressCreate → Address → Address
write_address schema address = record address {
  city = schema.city;
  street = schema.street;
  postal_code = schema.postal_code;
  building_number = schema.building_number;
  apartment_number = keep_old schema.apartment_number address.apartment_number;
  country_code = schema.country_code;
}

pub update_address : Database → AddressCreate → Address → Address × Database
update_address db schema address =
    let address' = write_address schema address in
    (
      address',
      record db { addresses = update (λ a. a.id == address.id) (λ _. address') db.addresses },
    )

-- org_ids.intersection(user_org_ids)
abbrev pub shares_organizer : Database → Address → User → Bool
shares_organizer db address user =
    exists (λ o. o.address_id == address.id && is_member o.id user) db.organizers

-- address.venue
abbrev pub has_venue : Database → Address → Bool
has_venue db address = exists (λ v. v.address_id == address.id) db.venues

pub require_authorized_address : Database → ℕ → User → Result Address
require_authorized_address db address_id user = do
  require_roles (Role.admin ∷ Role.organizer ∷ []) user
  address ← or_raise (scalar (λ a. a.id == address_id) db.addresses) (not_found "Address not found")
  raise_if (not (has_role Role.admin user) && not (shares_organizer db address user))
      (forbidden "Access denied")
  raise_if (not (has_role Role.admin user) && has_venue db address) (forbidden "Access denied")
  ok address

-- PUT /addresses/{address_id}
pub put_address : Database → User → ℕ → AddressCreate → Result (Address × Database)
put_address db user address_id schema = do
  address ← require_authorized_address db address_id user
  ok (update_address db schema address)
