-- ===== src/Listings/Invoices/Tests.antt =====
-- User 7 bought a ticket of the floor twice and one of the balcony, and has the invoice of them.
use ticketing_system.Prelude.{
  ◌≡◌, ◌≤◌, refl, Bool, true, [], ◌∷◌, none, some, String, All, map, ◌==◌,
}
use ticketing_system.Prelude.Int.{sub_ℕ}
use ticketing_system.Errors.{err, not_found}
use ticketing_system.Table.{exists, scalar, count, select}
use ticketing_system.Schema.{Database, Invoice, InvoiceType, OrderStatus}
use ticketing_system.Samples.{with_order_of, item}
use ticketing_system.Listings.Joins.{joined}
use ticketing_system.Listings.Invoices.{
  LineKey, build_invoice_details, list_user_invoices, same_key, order_lines, net_of, gross_of,
  get_invoice_and_order_id, group_by,
}
use ticketing_system.Listings.Invoices.Lines.{IsLine}
use ticketing_system.Listings.Invoices.Totals.{quantity_of, build_invoice_details_lem}
use ticketing_system.Listings.Invoices.Agreement.{Agrees, list_user_invoices-Agrees}

abbrev any_order : String → String → Bool
any_order s t = true

abbrev invoice : Invoice
invoice = record {
  id = 4;
  invoice_number = some (73 ∷ []);
  order_id = 1;
  invoice_type = InvoiceType.person;
  full_name = some "Jan Kowalski";
  company_name = none;
  tax_id = none;
  street = "Dluga 1";
  postal_code = "00-001";
  city = "Warszawa";
  country_code = "PL";
  issued_at = some 500;
}

abbrev sold : Database
sold = record (with_order_of OrderStatus.completed) {
  ticket_instances =
      item
      ∷ record item {
        id = 2;
        event_ticket_type_id = 9;
        seat_id = some 31;
        price_net_snapshot = 15050;
        vat_rate_snapshot = 108;
        price_gross_snapshot = 16254;
      }
      ∷ record item { id = 3 }
      ∷ [];
  invoices = invoice ∷ record invoice { id = 5; order_id = 2; issued_at = none } ∷ [];
}

two_lines : map (λ g. g.quantity) (group_by (order_lines sold 1)) ≡ 2 ∷ 1 ∷ []
unfolding group_by order_lines joined select scalar
two_lines = refl

not_hers :
    get_invoice_and_order_id sold 4 ((λ o. o.user_id == 8) ∷ [])
    ≡ err (not_found "Invoice not found")
unfolding get_invoice_and_order_id scalar exists
not_hers = refl

build_invoice_details_lem_example :
    ((build_invoice_details any_order sold invoice 1).total_net ≡ net_of sold.ticket_instances 1)
    × ((build_invoice_details any_order sold invoice 1).total_gross
        ≡ gross_of sold.ticket_instances 1)
    × ((build_invoice_details any_order sold invoice 1).total_vat
        ≡ sub_ℕ (gross_of sold.ticket_instances 1) (net_of sold.ticket_instances 1))
    × All
        (λ l. IsLine l.group × (l.line_vat ≡ sub_ℕ l.group.line_gross l.group.line_net))
        (build_invoice_details any_order sold invoice 1).items
    × ((k : LineKey)
        → quantity_of k (build_invoice_details any_order sold invoice 1).items
          ≡ count (λ l. same_key l k) (order_lines sold 1))
    × ((k : LineKey)
        → count (λ l. same_key l.group.key k) (build_invoice_details any_order sold invoice 1).items
          ≤ 1)
unfolding exists
build_invoice_details_lem_example =
    build_invoice_details_lem any_order sold invoice 1
      ((λ _. refl), ((λ _. refl), ((λ _. refl), tt)))

list_user_invoices-Agrees_example :
    All (Agrees any_order sold 7) (list_user_invoices sold 7 1 20).items
unfolding exists
list_user_invoices-Agrees_example =
    list_user_invoices-Agrees any_order sold 7 1 20 (refl, (refl, tt)) (refl, (refl, (refl, tt)))
