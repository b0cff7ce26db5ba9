-- ===== src/Listings/Invoices/Lines.antt =====
-- The groups of the invoice's query: one for each event, ticket type, rate and prices.
use ticketing_system.Prelude.{
  ℕ, ◌+◌, ◌*◌, ◌≤◌, ◌≡◌, refl, Bool, true, false, List, [], ◌∷◌, arith, if◌then◌else◌, All,
  Bool-cases, inl, inr, map, ap, sym, ◌∙◌,
}
use ticketing_system.Prelude.Strings.{same_string_iff}
use ticketing_system.Table.{count, sum}
use ticketing_system.Listings.Invoices.{
  LineKey, Group, same_key, one_of, one_more, add_to_groups, group_by,
}

pub same_key_iff : (k l : LineKey) → same_key k l ≡ true → k ≡ l
same_key_iff k l h =
    let n = (same_string_iff k.event_name l.event_name).0 (ground arith) in
    let t = (same_string_iff k.ticket_type_name l.ticket_type_name).0 (ground arith) in
    let v : k.vat_rate ≡ l.vat_rate = ground arith in
    let p : k.unit_price_net ≡ l.unit_price_net = ground arith in
    let g : k.unit_price_gross ≡ l.unit_price_gross = ground arith in cc (n, t, v, p, g)

pub sum-map {ℓ κ} :
    {A : Type ℓ} {B : Type κ} (p : B → Bool) (v : B → ℕ) (f : A → B) (rs : List A)
    → sum p v (map f rs) ≡ sum (λ r. p (f r)) (λ r. v (f r)) rs
unfolding sum
sum-map p v f [] = refl
sum-map p v f (r ∷ rs) = rw (sum-map p v f rs) refl

-- What the groups of `p` sum to is what their rows sum to.
module _ (p : LineKey → Bool) (v : Group → ℕ) (u : LineKey → ℕ)
    (one : (k : LineKey) → v (one_of k) ≡ u k)
    (more : (k : LineKey) (g : Group) → v (one_more k g) ≡ v g + u k) where
  sum-add_to_groups :
      (k : LineKey) (gs : List Group)
      → sum (λ g. p g.key) v (add_to_groups k gs)
        ≡ (if p k then u k else 0) + sum (λ g. p g.key) v gs
  unfolding sum add_to_groups
  sum-add_to_groups k [] = rw (one k) refl
  sum-add_to_groups k (g ∷ gs) = elim (Bool-cases (same_key g.key k)) [
    | inl same ↦
        let e : p g.key ≡ p k = ap p (same_key_iff g.key k same) in
        ground (arith, same, e, more k g)
    | inr other ↦ ground (arith, other, sum-add_to_groups k gs)
  ]

  pub sum-group_by : (ks : List LineKey) → sum (λ g. p g.key) v (group_by ks) ≡ sum p u ks
  unfolding sum group_by
  sum-group_by [] = refl
  sum-group_by (k ∷ ks) = rw (sum-add_to_groups k (group_by ks), sum-group_by ks) refl

-- A line charges its quantity times its unit prices.
abbrev pub IsLine : Group → Type 0
IsLine g =
    (g.line_net ≡ g.quantity * g.key.unit_price_net)
    × (g.line_gross ≡ g.quantity * g.key.unit_price_gross)

one_more-IsLine : (k : LineKey) (g : Group) → g.key ≡ k → IsLine g → IsLine (one_more k g)
one_more-IsLine k g e h =
    let n : g.key.unit_price_net ≡ k.unit_price_net = ap (λ (x : LineKey). x.unit_price_net) e in
    let s : g.key.unit_price_gross ≡ k.unit_price_gross =
      ap (λ (x : LineKey). x.unit_price_gross) e in
    (rw (← n) (grind (arith, h.0)), rw (← s) (grind (arith, h.1)))

add_to_groups-IsLine :
    (k : LineKey) (gs : List Group) → All IsLine gs → All IsLine (add_to_groups k gs)
unfolding add_to_groups
add_to_groups-IsLine k [] a = ((omega arith, omega arith), tt)
add_to_groups-IsLine k (g ∷ gs) a = elim (Bool-cases (same_key g.key k)) [
  | inl same ↦ rw same (one_more-IsLine k g (same_key_iff g.key k same) a.0, a.1)
  | inr other ↦ rw other (a.0, add_to_groups-IsLine k gs a.1)
]

pub group_by-IsLine : (ks : List LineKey) → All IsLine (group_by ks)
unfolding group_by
group_by-IsLine [] = tt
group_by-IsLine (k ∷ ks) = add_to_groups-IsLine k (group_by ks) (group_by-IsLine ks)

pub same_key_refl : (k : LineKey) → same_key k k ≡ true
same_key_refl k =
    let n = (same_string_iff k.event_name k.event_name).1 refl in
    let t = (same_string_iff k.ticket_type_name k.ticket_type_name).1 refl in ground (arith, n, t)

apart_lem : (g k q : LineKey) → same_key g k ≡ false → same_key g q ≡ true → same_key k q ≡ false
apart_lem g k q other hit = elim (Bool-cases (same_key k q)) [
  | inl same ↦
      let e : g ≡ k = same_key_iff g q hit ∙ sym (same_key_iff k q same) in
      absurd (cc (other, ap (same_key g) e, same_key_refl g))
  | inr apart ↦ apart
]

-- A ticket of another key changes no line of the key q.
count-add_other :
    (k q : LineKey) (gs : List Group)
    → same_key k q ≡ false
    → count (λ g. same_key g.key q) (add_to_groups k gs) ≡ count (λ g. same_key g.key q) gs
unfolding count add_to_groups
count-add_other k q [] h = rw h refl
count-add_other k q (g ∷ gs) h = elim (Bool-cases (same_key g.key k)) [
  | inl same ↦ rw same refl
  | inr other ↦ rw (other, count-add_other k q gs h) refl
]

count-add_to_groups :
    (k q : LineKey) (gs : List Group)
    → count (λ g. same_key g.key q) gs ≤ 1
    → count (λ g. same_key g.key q) (add_to_groups k gs) ≤ 1
unfolding count add_to_groups
count-add_to_groups k q [] h = ground arith
count-add_to_groups k q (g ∷ gs) h = elim (Bool-cases (same_key g.key k)) [
  | inl same ↦ rw same h
  | inr other ↦ elim (Bool-cases (same_key g.key q)) [
    | inl hit ↦
        let apart : same_key k q ≡ false = apart_lem g.key k q other hit in
        rw (other, count-add_other k q gs apart) h
    | inr miss ↦
        rw (other, miss) (omega (arith, count-add_to_groups k q gs (ground (arith, h, miss))))
  ]
]

-- No two lines have the same columns of GROUP BY.
pub group_by-AreDistinct :
    (q : LineKey) (ks : List LineKey) → count (λ g. same_key g.key q) (group_by ks) ≤ 1
unfolding group_by count
group_by-AreDistinct q [] = omega arith
group_by-AreDistinct q (k ∷ ks) = count-add_to_groups k q (group_by ks) (group_by-AreDistinct q ks)
