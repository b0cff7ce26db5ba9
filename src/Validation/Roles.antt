-- ===== src/Validation/Roles.antt =====
-- The roles that an administrator may set.
use ticketing_system.Prelude.{
  ◌≡◌, ◌≤◌, refl, true, false, ◌||◌, List, [], ◌∷◌, ◌++◌, some, arith, length, if◌then◌else◌, All,
  Bool-cases, Option-cases, ap, inl, inr, sym, subst, ◌∙◌,
}
use ticketing_system.Prelude.Text.{
  Text, strip, upper, is_space, to_upper, same_text, same_text_eq, same_text_refl,
}
use ticketing_system.Table.{exists}
use ticketing_system.Table.Laws.{All-append}
use ticketing_system.Validation.{
  customer_name, organizer_name, is_allowed_role, contains, collect_roles, RolesBody, many_roles,
  entries, validate_roles,
}

abbrev pub AreAllowed : List Text → Type 0
AreAllowed out = All (λ n. is_allowed_role n ≡ true) out

-- No name stands twice in the list.
abbrev pub AreDistinct : List Text → Type 0
AreDistinct [] = Unit
AreDistinct (n ∷ out) = (contains n out ≡ false) × AreDistinct out

-- The name that the code makes of an entry.
abbrev pub normal_role : Text → Text
normal_role x = upper (strip x)

contains-append :
    (m n : Text) (out : List Text) → contains m (out ++ n ∷ []) ≡ (contains m out || same_text n m)
unfolding exists
contains-append m n [] = ground arith
contains-append m n (x ∷ out) = ground (arith, contains-append m n out)

same_text_sym : (s t : Text) → same_text s t ≡ false → same_text t s ≡ false
same_text_sym s t h = elim (Bool-cases (same_text t s)) [
  | inl same ↦ absurd (
      ground
        (arith, h, subst (λ x. same_text x t ≡ true) (same_text_eq t s same) (same_text_refl t)))
  | inr other ↦ other
]

AreDistinct-append :
    (n : Text) (out : List Text)
    → contains n out ≡ false
    → AreDistinct out
    → AreDistinct (out ++ n ∷ [])
unfolding exists
AreDistinct-append n [] new d = (refl, tt)
AreDistinct-append n (x ∷ out) new d = (
  rw (contains-append x n out, d.0) (same_text_sym x n (ground (arith, new))),
  AreDistinct-append n out (ground (arith, new)) d.1,
)

contains_allowed :
    (n m : Text) (out : List Text)
    → contains m out ≡ true
    → contains m (if contains n out then out else out ++ n ∷ []) ≡ true
contains_allowed n m out h = elim (Bool-cases (contains n out)) [
  | inl old ↦ rw old h
  | inr new ↦ rw (new, contains-append m n out, h) refl
]

-- One round of the loop keeps what holds of the list.
added-AreAllowed :
    (n : Text) (out : List Text)
    → is_allowed_role n ≡ true
    → AreAllowed out
    → AreAllowed (if contains n out then out else out ++ n ∷ [])
added-AreAllowed n out fine a = elim (Bool-cases (contains n out)) [
  | inl old ↦ rw old a
  | inr new ↦ rw new (All-append (λ m. is_allowed_role m ≡ true) out (n ∷ []) a (fine, tt))
]

added-AreDistinct :
    (n : Text) (out : List Text)
    → AreDistinct out
    → AreDistinct (if contains n out then out else out ++ n ∷ [])
added-AreDistinct n out d = elim (Bool-cases (contains n out)) [
  | inl old ↦ rw old d
  | inr new ↦ rw new (AreDistinct-append n out new d)
]

contains_added :
    (n : Text) (out : List Text) → contains n (if contains n out then out else out ++ n ∷ []) ≡ true
contains_added n out = elim (Bool-cases (contains n out)) [
  | inl old ↦ rw (old, old) refl
  | inr new ↦ rw (new, contains-append n n out, same_text_refl n) (ground arith)
]

-- What the loop does to the list that it builds.
pub record AreCollected (out xs r : List Text) : Type 0 where
  pub allowed : AreAllowed r
  pub distinct : AreDistinct r
  pub kept : (m : Text) → contains m out ≡ true → contains m r ≡ true
  pub taken : All (λ x. contains (normal_role x) r ≡ true) xs

collect_roles_lem :
    (out xs r : List Text)
    → AreAllowed out
    → AreDistinct out
    → collect_roles out xs ≡ some r
    → AreCollected out xs r
unfolding collect_roles
collect_roles_lem out [] r a d e =
    let same : out ≡ r = cc in
    record {
      allowed = subst AreAllowed same a;
      distinct = subst AreDistinct same d;
      kept = λ m h. subst (λ l. contains m l ≡ true) same h;
      taken = tt;
    }
collect_roles_lem out (x ∷ xs) r a d e = elim (Bool-cases (is_allowed_role (normal_role x))) [
  | inl fine ↦
      let n = normal_role x in
      let out' = if contains n out then out else out ++ n ∷ [] in
      let step =
        collect_roles_lem out' xs r (added-AreAllowed n out fine a) (added-AreDistinct n out d)
          (rw fine at e) in
      record {
        allowed = step.allowed;
        distinct = step.distinct;
        kept = λ m h. step.kept m (contains_allowed n m out h);
        taken = (step.kept n (contains_added n out), step.taken);
      }
  | inr bad ↦ absurd (ground (arith, e, bad))
]

-- Allowed names that agree on whether they are CUSTOMER are the same.
same_kind :
    (s t : Text)
    → is_allowed_role s ≡ true
    → is_allowed_role t ≡ true
    → same_text s customer_name ≡ same_text t customer_name
    → same_text t s ≡ true
unfolding is_allowed_role
same_kind s t hs ht same = elim (Bool-cases (same_text s customer_name)) [
  | inl customer ↦
      let at_s = same_text_eq s customer_name customer in
      let at_t = same_text_eq t customer_name (sym same ∙ customer) in
      subst (λ x. same_text t x ≡ true) (at_t ∙ sym at_s) (same_text_refl t)
  | inr other ↦
      let at_s = same_text_eq s organizer_name (ground (arith, hs, other)) in
      let at_t = same_text_eq t organizer_name (ground (arith, ht, other, same)) in
      subst (λ x. same_text t x ≡ true) (at_t ∙ sym at_s) (same_text_refl t)
]

-- Two names are all there are.
length_of_allowed : (r : List Text) → AreAllowed r → AreDistinct r → length r ≤ 2
unfolding exists
length_of_allowed [] a d = omega arith
length_of_allowed (x ∷ []) a d = omega arith
length_of_allowed (x ∷ y ∷ []) a d = omega arith
length_of_allowed (x ∷ y ∷ z ∷ r) a d =
    let xy = same_kind x y a.0 a.1.0 in
    let xz = same_kind x z a.0 a.1.1.0 in
    let yz = same_kind y z a.1.0 a.1.1.0 in absurd (ground (arith, d.0, d.1.0, xy, xz, yz))

collected :
    (names r : List Text)
    → collect_roles [] names ≡ some r
    → AreAllowed r
      × AreDistinct r
      × (length r ≤ 2)
      × All (λ x. contains (normal_role x) r ≡ true) names
collected names r e =
    let c = collect_roles_lem [] names r tt tt e in
    (c.allowed, c.distinct, length_of_allowed r c.allowed c.distinct, c.taken)

-- An allowed name is written as the code writes it.
normal_role-allowed : (n : Text) → is_allowed_role n ≡ true → normal_role n ≡ n
unfolding is_allowed_role strip is_space to_upper
normal_role-allowed n h = elim (Bool-cases (same_text n customer_name)) [
  | inl same ↦ rw (same_text_eq n customer_name same) refl
  | inr other ↦ rw (same_text_eq n organizer_name (ground (arith, h, other))) refl
]

-- What was collected is collected again.
collect_roles-again :
    (r : List Text) → AreAllowed r → AreDistinct r → length r ≤ 2 → collect_roles [] r ≡ some r
unfolding collect_roles exists
collect_roles-again [] a d short = refl
collect_roles-again (x ∷ []) a d short = rw (normal_role-allowed x a.0, a.0) refl
collect_roles-again (x ∷ y ∷ []) a d short =
    let other = same_text_sym y x (ground (arith, d.0)) in
    rw (normal_role-allowed x a.0, normal_role-allowed y a.1.0, a.0, a.1.0, other) refl
collect_roles-again (x ∷ y ∷ z ∷ r) a d short = absurd (omega (arith, short))

-- Roles that pass hold each name once, at most CUSTOMER and ORGANIZER, every entry's name among them in
-- capitals and without the white space around it, and passing them again as a list gives the same
-- list; the limit of two names refuses no body whose names are allowed. A body is left out, one string
-- or a list.
pub validate_roles_valid :
    (body : RolesBody) (r : List Text)
    → (collect_roles [] (entries body) ≡ some r → validate_roles body ≡ some r)
      × (validate_roles body ≡ some r
          → AreAllowed r
            × AreDistinct r
            × (length r ≤ 2)
            × All (λ x. contains (normal_role x) r ≡ true) (entries body)
            × (validate_roles (many_roles r) ≡ some r))
unfolding validate_roles
validate_roles_valid body r = (
  λ e. let short = (collected (entries body) r e).2 in rw e (ground (arith, short)),
  λ e. elim (Option-cases (collect_roles [] (entries body))) [
    | inl none_made ↦ absurd (ground (arith, e, none_made))
    | inr (out, made) ↦
        let short = (collected (entries body) out made).2 in
        let same : out ≡ r = ground (arith, e, made, short) in
        let (allowed, distinct, two, taken) = collected (entries body) r (made ∙ ap some same) in
        let again = collect_roles-again r allowed distinct two in
        (allowed, distinct, two, taken, rw again (ground (arith, two)))
  ],
)
