-- ===== src/Listings/Invoices/Agreement.antt =====
-- The rows that a user's list of invoices shows against the details of each of them.
use ticketing_system.Prelude.{
  ℕ, ◌≡◌, refl, Bool, true, false, ◌&&◌, List, [], ◌∷◌, Option, none, some, arith, ◌==◌,
  if◌then◌else◌, All, ap, sym, ◌∙◌, String, is_some, ==_iff,
}
use ticketing_system.Prelude.Int.{sub_ℕ}
use ticketing_system.Errors.{ok}
use ticketing_system.Table.{scalar, exists, Unique}
use ticketing_system.Table.Laws.{All-map, scalar_holds, scalar-exists}
use ticketing_system.Table.Search.{scalar_narrow}
use ticketing_system.Table.Replace.{Unique-scalar}
use ticketing_system.Schema.{Database, TicketInstance, Invoice, Event, Order}
use ticketing_system.Pagination.Ordering.{page-All}
use ticketing_system.Listings.Joins.{joined, joined-All, ◌>>=◌}
use ticketing_system.Listings.Invoices.{
  InvoiceRow, InvoiceDetails, invoice_row, row_of, stands_in, issued_before, is_issued,
  is_users_row, list_user_invoices, get_invoice_and_order_id, is_open_to, get_user_invoice_details,
  build_invoice_details, net_of, gross_of,
}
use ticketing_system.Listings.Invoices.Totals.{build_invoice_details_lem}

-- What a row shows of its invoice and order.
Shows : Database → Invoice → InvoiceRow → Type 0
Shows db i r =
    (o : Order) × (scalar (λ (x : Order). x.id == i.order_id) db.orders ≡ some o)
    × (r.id ≡ i.id)
    × (r.issued_at ≡ i.issued_at)
    × (r.user_id ≡ o.user_id)
    × (r.total_net ≡ net_of db.ticket_instances i.order_id)
    × (r.total_gross ≡ gross_of db.ticket_instances i.order_id)
    × (r.total_vat
        ≡ sub_ℕ (gross_of db.ticket_instances i.order_id) (net_of db.ticket_instances i.order_id))

if_some {ℓ} : {A : Type ℓ} (b : Bool) (x r : A) → (if b then some x else none) ≡ some r → x ≡ r
if_some true x r e = cc
if_some false x r e = cc

row_of-Shows :
    (db : Database) (i : Invoice) (r : InvoiceRow) (o : Option Order)
    → scalar (λ (x : Order). x.id == i.order_id) db.orders ≡ o
    → (o >>= row_of db i) ≡ some r
    → Shows db i r
unfolding Shows
row_of-Shows db i r none found e = cc
row_of-Shows db i r (some o) found e =
    let key : o.id ≡ i.order_id = (==_iff o.id i.order_id).0 (scalar_holds _ db.orders o found) in
    let row = if_some (exists (stands_in o.id) db.ticket_instances) _ r e in
    (
      o,
      found,
      ap (λ (x : InvoiceRow). x.id) (sym row),
      ap (λ (x : InvoiceRow). x.issued_at) (sym row),
      ap (λ (x : InvoiceRow). x.user_id) (sym row),
      rw (← key) (ap (λ (x : InvoiceRow). x.total_net) (sym row)),
      rw (← key) (ap (λ (x : InvoiceRow). x.total_gross) (sym row)),
      rw (← key) (ap (λ (x : InvoiceRow). x.total_vat) (sym row)),
    )

invoice_row-Shows :
    (db : Database) (i : Invoice) (r : InvoiceRow) → invoice_row db i ≡ some r → Shows db i r
unfolding invoice_row
invoice_row-Shows db i r e = row_of-Shows db i r _ refl e

-- Every ticket names an event.
abbrev pub AllHaveEvents : Database → Type 0
AllHaveEvents db =
    All (λ (t : TicketInstance). exists (λ (e : Event). e.id == t.event_id) db.events ≡ true)
      db.ticket_instances

module _ (collated : String → String → Bool) (db : Database) (user_id : ℕ) where
  -- The details that the user reads have the totals of the row.
  abbrev pub Agrees : InvoiceRow → Type 0
  Agrees r =
      (r.user_id ≡ user_id)
      × (is_some r.issued_at ≡ true)
      × ((d : InvoiceDetails) × (get_user_invoice_details collated db user_id r.id ≡ ok d)
          × (d.invoice.id ≡ r.id)
          × (d.total_net ≡ r.total_net)
          × (d.total_gross ≡ r.total_gross)
          × (d.total_vat ≡ r.total_vat))

  -- A row of the joined query with the invoice it is of.
  IsOf : InvoiceRow → Type 0
  IsOf r =
      (i : Invoice) × (scalar (λ (x : Invoice). x.id == i.id) db.invoices ≡ some i) × Shows db i r

  row-IsOf :
      (i : Invoice) (r : InvoiceRow)
      → scalar (λ (x : Invoice). x.id == i.id) db.invoices ≡ some i
      → invoice_row db i ≡ some r
      → IsOf r
  unfolding IsOf
  row-IsOf i r found e = (i, found, invoice_row-Shows db i r e)

  of_invoice :
      (i : Invoice) (order_id : ℕ) → (build_invoice_details collated db i order_id).invoice ≡ i
  unfolding build_invoice_details
  of_invoice i order_id = refl

  IsOf-Agrees :
      AllHaveEvents db
      → (r : InvoiceRow) → IsOf r
      → r.user_id ≡ user_id
      → is_some r.issued_at ≡ true
      → Agrees r
  unfolding IsOf Shows get_user_invoice_details get_invoice_and_order_id
  IsOf-Agrees events r (i, found, (o, ordered, id, issued, owner, net, gross, vat)) mine listed =
      let t =
        build_invoice_details_lem collated db i i.order_id
          (All-map _ _ db.ticket_instances (λ _ h _. h) events) in
      let filter : List (Order → Bool) = (λ (x : Order). x.user_id == user_id) ∷ [] in
      let ordered' = scalar-exists _ db.orders o (
        scalar_narrow (λ (x : Order). x.id == i.order_id) (is_open_to filter) db.orders o ordered
          (ground (arith, owner, mine))) in
      let issued' : is_some i.issued_at ≡ true = rw (← issued) listed in
      let row =
        scalar_narrow (λ (x : Invoice). x.id == r.id)
          (λ (x : Invoice).
            is_some x.issued_at
            && exists (λ y. y.id == x.order_id && is_open_to filter y) db.orders)
          db.invoices i (rw id found) (rw (issued', ordered') refl) in
      (
        mine,
        listed,
        (
          build_invoice_details collated db i i.order_id,
          rw row refl,
          ap (λ (x : Invoice). x.id) (of_invoice i i.order_id) ∙ sym id,
          t.0 ∙ sym net,
          t.1 ∙ sym gross,
          t.2 ∙ sym vat,
        ),
      )

  -- For a database whose invoices have different keys and whose tickets all name an event: every row of
  -- a page of a user's invoices is an issued invoice of this user, and the user can read the details of
  -- this invoice, with the net, gross and VAT totals that the row shows.
  pub list_user_invoices-Agrees :
      (page page_size : ℕ)
      → Unique (λ (x : Invoice). x.id) db.invoices
      → AllHaveEvents db
      → All Agrees (list_user_invoices db user_id page page_size).items
  unfolding list_user_invoices
  list_user_invoices-Agrees page page_size unique events =
      All-map _ _ _
        (λ r (h : IsOf r × (_ ≡ true)).
          IsOf-Agrees events r h.0 (ground (arith, h.1)) (ground (arith, h.1)))
        (page-All IsOf issued_before (λ r. r.id) (is_users_row user_id ∷ is_issued ∷ []) page
          page_size (joined (invoice_row db) db.invoices)
          (joined-All _ IsOf (invoice_row db) row-IsOf db.invoices
            (Unique-scalar (λ (x : Invoice). x.id) db.invoices unique)))
