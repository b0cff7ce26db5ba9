-- ===== src/Invoices/Tests.antt =====
-- Invoice numbers of one year.
use ticketing_system.Prelude.{◌≡◌, ◌≢◌, [], ◌∷◌, All}
use ticketing_system.Invoices.{format_number, next_invoice_number}
use ticketing_system.Invoices.Numbers.{
  year_in, counter_in, format_number_roundtrip, draw_all, draw_all_fresh,
}
use ticketing_system.Samples.{start}

format_number_roundtrip_example :
    (year_in 0 (format_number 2025 42) ≡ 2025) × (counter_in (format_number 2025 42) ≡ 42)
format_number_roundtrip_example = format_number_roundtrip 2025 42

draw_all_fresh_example :
    All
      (λ n. n ≢ (next_invoice_number (λ _. 2025) start 300).0)
      (draw_all (λ _. 2025) (next_invoice_number (λ _. 2025) start 300).1 (310 ∷ 320 ∷ []))
draw_all_fresh_example = draw_all_fresh (λ _. 2025) start 300 (310 ∷ 320 ∷ [])
