-- ===== src/Listings/Invoices/Totals.antt =====
-- The totals of an invoice's details are the sums of the order's tickets.
use ticketing_system.Prelude.{
  ℕ, ◌+◌, ◌≤◌, ◌≡◌, refl, Bool, true, List, [], ◌∷◌, Option, some, arith, ◌==◌, All, Bool-cases,
  inl, inr, map, ◌∙◌, ap, sym, String,
}
use ticketing_system.Prelude.Int.{sub_ℕ}
use ticketing_system.Table.{scalar, exists, select, count, sum}
use ticketing_system.Table.Search.{scalar_found}
use ticketing_system.Schema.{Database, TicketInstance, Invoice, Event}
use ticketing_system.Pagination.{order_by}
use ticketing_system.Pagination.Ordering.{sum-order_by, All-order_by}
use ticketing_system.Listings.Joins.{joined, ◌>>=◌}
use ticketing_system.Listings.Invoices.Lines.{
  sum-map, sum-group_by, IsLine, group_by-IsLine, group_by-AreDistinct,
}
use ticketing_system.Listings.Invoices.{
  LineKey, Group, InvoiceLine, InvoiceDetails, same_key, key_of, one_of, one_more, group_by,
  order_lines, line_of, line_before, total_lines, build_invoice_details, stands_in, net_of,
  gross_of,
}

abbrev any_key : LineKey → Bool
any_key k = true

abbrev pub net_total : List Group → ℕ
net_total gs = sum (λ g. any_key g.key) (λ g. g.line_net) gs

abbrev pub gross_total : List Group → ℕ
gross_total gs = sum (λ g. any_key g.key) (λ g. g.line_gross) gs

pub total_lines_lem :
    (net gross : ℕ) (gs : List Group)
    → total_lines net gross gs ≡ (net + net_total gs, gross + gross_total gs)
unfolding total_lines sum
total_lines_lem net gross [] =
    let n : net ≡ net + 0 = omega arith in
    let m : gross ≡ gross + 0 = omega arith in λ i. (n i, m i)
total_lines_lem net gross (g ∷ gs) =
    let n : net + g.line_net + net_total gs ≡ net + (g.line_net + net_total gs) = omega arith in
    let m : gross + g.line_gross + gross_total gs ≡ gross + (g.line_gross + gross_total gs) =
      omega arith in
    total_lines_lem (net + g.line_net) (gross + g.line_gross) gs ∙ (λ i. (n i, m i))

from_zero : (gs : List Group) → total_lines 0 0 gs ≡ (net_total gs, gross_total gs)
from_zero gs =
    let n : 0 + net_total gs ≡ net_total gs = omega arith in
    let m : 0 + gross_total gs ≡ gross_total gs = omega arith in
    total_lines_lem 0 0 gs ∙ (λ i. (n i, m i))

-- Every ticket of the order names an event.
abbrev pub HasEvents : Database → ℕ → Type 0
HasEvents db order_id =
    All
      (λ (t : TicketInstance).
        stands_in order_id t ≡ true → exists (λ (e : Event). e.id == t.event_id) db.events ≡ true)
      db.ticket_instances

-- What the joined tickets of an order sum to is what the order's tickets sum to.
module _ (es : List Event) (order_id : ℕ) where
  abbrev line_key : TicketInstance → Option LineKey
  line_key t = scalar (λ (e : Event). e.id == t.event_id) es >>= λ (e : Event). some (key_of t e)

  sum-joined :
      (u : LineKey → ℕ) (v : TicketInstance → ℕ)
      → ((t : TicketInstance) (e : Event) → u (key_of t e) ≡ v t)
      → (ts : List TicketInstance)
      → All
          (λ (t : TicketInstance).
            stands_in order_id t ≡ true → exists (λ (e : Event). e.id == t.event_id) es ≡ true)
          ts
      → sum any_key u (joined line_key (select (stands_in order_id) ts))
        ≡ sum (stands_in order_id) v ts
  unfolding sum joined select
  sum-joined u v h [] a = refl
  sum-joined u v h (t ∷ ts) a = elim (Bool-cases (stands_in order_id t)) [
    | inl hit ↦
        let found = scalar_found (λ (e : Event). e.id == t.event_id) es (a.0 hit) in
        rw (hit, found.1) (rw (h t found.0, sum-joined u v h ts a.1) refl)
    | inr miss ↦ rw miss (omega (arith, sum-joined u v h ts a.1))
  ]

abbrev pub quantity_of : LineKey → List InvoiceLine → ℕ
quantity_of k items = sum (λ l. same_key l.group.key k) (λ l. l.group.quantity) items

count-sum {ℓ} : {A : Type ℓ} (p : A → Bool) (rs : List A) → count p rs ≡ sum p (λ _. 1) rs
unfolding count sum
count-sum p [] = refl
count-sum p (r ∷ rs) = rw (count-sum p rs) refl

-- The lines carry no group twice and leave no ticket out.
quantity_lem :
    (before : Group → Group → Bool) (k : LineKey) (ks : List LineKey)
    → quantity_of k (map line_of (order_by before (group_by ks))) ≡ count (λ l. same_key l k) ks
quantity_lem before k ks =
    sum-map _ _ line_of (order_by before (group_by ks))
    ∙ sum-order_by _ _ before (group_by ks)
    ∙ sum-group_by (λ l. same_key l k) (λ g. g.quantity) (λ _. 1) (λ _. refl) (λ _ _. refl) ks
    ∙ sym (count-sum _ ks)

distinct_lem :
    (before : Group → Group → Bool) (k : LineKey) (ks : List LineKey)
    → count (λ l. same_key l.group.key k) (map line_of (order_by before (group_by ks))) ≤ 1
distinct_lem before k ks =
    let e =
      count-sum (λ (l : InvoiceLine). same_key l.group.key k)
        (map line_of (order_by before (group_by ks)))
      ∙ sum-map _ _ line_of (order_by before (group_by ks))
      ∙ sum-order_by _ _ before (group_by ks)
      ∙ sym (count-sum (λ (g : Group). same_key g.key k) (group_by ks)) in
    omega (arith, e, group_by-AreDistinct k ks)

All-lines :
    (gs : List Group)
    → All IsLine gs
    → All
        (λ l. IsLine l.group × (l.line_vat ≡ sub_ℕ l.group.line_gross l.group.line_net))
        (map line_of gs)
All-lines [] a = tt
All-lines (g ∷ gs) a = ((a.0, refl), All-lines gs a.1)

module _ (collated : String → String → Bool) (db : Database) (i : Invoice) (order_id : ℕ) where
  abbrev details : InvoiceDetails
  details = build_invoice_details collated db i order_id

  lines_total :
      (v : Group → ℕ) (u : LineKey → ℕ)
      → ((k : LineKey) → v (one_of k) ≡ u k)
      → ((k : LineKey) (g : Group) → v (one_more k g) ≡ v g + u k)
      → (w : TicketInstance → ℕ) → ((t : TicketInstance) (e : Event) → u (key_of t e) ≡ w t)
      → HasEvents db order_id
      → sum
          (λ g. any_key g.key)
          v
          (order_by (line_before collated) (group_by (order_lines db order_id)))
        ≡ sum (stands_in order_id) w db.ticket_instances
  unfolding order_lines
  lines_total v u one more w same h =
      sum-order_by _ v (line_before collated) (group_by (order_lines db order_id))
      ∙ sum-group_by any_key v u one more (order_lines db order_id)
      ∙ sum-joined db.events order_id u w same db.ticket_instances h

  -- The details of an invoice, for an order all of whose tickets name an existing event: the running
  -- totals of the loop over the grouped lines are the sums of the net and gross prices of the order's
  -- tickets, the total VAT is their difference, every line's amounts are its quantity times its unit
  -- prices and its VAT their difference, and the quantities of the lines of any event, ticket type, rate
  -- and prices add up to the number of the order's tickets with these, and
  -- no two lines have the same event, ticket type, rate and prices.
  pub build_invoice_details_lem :
      HasEvents db order_id
      → (details.total_net ≡ net_of db.ticket_instances order_id)
        × (details.total_gross ≡ gross_of db.ticket_instances order_id)
        × (details.total_vat
            ≡ sub_ℕ (gross_of db.ticket_instances order_id) (net_of db.ticket_instances order_id))
        × All
            (λ l. IsLine l.group × (l.line_vat ≡ sub_ℕ l.group.line_gross l.group.line_net))
            details.items
        × ((k : LineKey)
            → quantity_of k details.items ≡ count (λ l. same_key l k) (order_lines db order_id))
        × ((k : LineKey) → count (λ l. same_key l.group.key k) details.items ≤ 1)
  unfolding build_invoice_details
  build_invoice_details_lem h =
      let n =
        lines_total (λ g. g.line_net) (λ k. k.unit_price_net) (λ _. refl) (λ _ _. refl)
          (λ t. t.price_net_snapshot) (λ _ _. refl) h in
      let g =
        lines_total (λ g. g.line_gross) (λ k. k.unit_price_gross) (λ _. refl) (λ _ _. refl)
          (λ t. t.price_gross_snapshot) (λ _ _. refl) h in
      let t = from_zero (order_by (line_before collated) (group_by (order_lines db order_id))) in
      let net = ap (λ (x : ℕ × ℕ). x.0) t ∙ n in
      let gross = ap (λ (x : ℕ × ℕ). x.1) t ∙ g in
      (
        net,
        gross,
        (λ i. sub_ℕ (gross i) (net i)),
        All-lines _ (
            All-order_by IsLine (line_before collated) _
              (group_by-IsLine (order_lines db order_id))),
        (λ k. quantity_lem (line_before collated) k (order_lines db order_id)),
        (λ k. distinct_lem (line_before collated) k (order_lines db order_id)),
      )
