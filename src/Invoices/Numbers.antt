-- ===== src/Invoices/Numbers.antt =====
-- Invoice numbers can be read back, and none is drawn twice.
use ticketing_system.Prelude.{
  ℕ, zero, suc, ◌+◌, ◌-◌, ◌*◌, ◌/◌, ◌≤◌, ◌<◌, ◌≡◌, ◌≢◌, refl, false, List, [], ◌∷◌, ◌++◌, ltb, ◌==◌,
  if◌then◌else◌, length, arith, Bool-cases, inl, inr, All, ap, sym, ◌∙◌, subst, ==_refl,
}
use ticketing_system.Schema.{Database}
use ticketing_system.Invoices.{format_number, counter_of, count_up, next_invoice_number}
use ticketing_system.Invoices.Digits.{digits_from, reverse_onto, decimal, zeros, padded}

-- The number that digits stand for, after those that gave acc.
value : ℕ → List ℕ → ℕ
value acc [] = acc
value acc (c ∷ cs) = value (acc * 10 + (c - b'0')) cs

-- The digits before the dash, and those after it.
pub year_in : ℕ → List ℕ → ℕ
year_in acc [] = acc
year_in acc (c ∷ cs) = if c == b'-' then acc else year_in (acc * 10 + (c - b'0')) cs

pub counter_in : List ℕ → ℕ
counter_in [] = 0
counter_in (c ∷ cs) = if c == b'-' then value 0 cs else counter_in cs

from_low : ℕ → List ℕ → ℕ
from_low acc [] = acc
from_low acc (x ∷ xs) = from_low acc xs * 10 + x

value-reverse_onto :
    (acc : ℕ) (xs ys : List ℕ) → value acc (reverse_onto xs ys) ≡ value (from_low acc xs) ys
unfolding value reverse_onto from_low
value-reverse_onto acc [] ys = refl
value-reverse_onto acc (x ∷ xs) ys =
    let digit : b'0' + x - b'0' ≡ x = omega arith in
    value-reverse_onto acc xs ((b'0' + x) ∷ ys) ∙ rw digit refl

no_dash : (x : ℕ) → (b'0' + x == b'-') ≡ false
no_dash x = ground arith

year_in-reverse_onto :
    (acc : ℕ) (xs ys : List ℕ) → year_in acc (reverse_onto xs ys) ≡ year_in (from_low acc xs) ys
unfolding year_in reverse_onto from_low
year_in-reverse_onto acc [] ys = refl
year_in-reverse_onto acc (x ∷ xs) ys =
    let digit : b'0' + x - b'0' ≡ x = omega arith in
    year_in-reverse_onto acc xs ((b'0' + x) ∷ ys) ∙ rw (no_dash x, digit) refl

counter_in-reverse_onto : (xs ys : List ℕ) → counter_in (reverse_onto xs ys) ≡ counter_in ys
unfolding counter_in reverse_onto
counter_in-reverse_onto [] ys = refl
counter_in-reverse_onto (x ∷ xs) ys =
    counter_in-reverse_onto xs ((b'0' + x) ∷ ys) ∙ rw (no_dash x) refl

reverse_onto-append : (xs ys zs : List ℕ) → reverse_onto xs ys ++ zs ≡ reverse_onto xs (ys ++ zs)
unfolding reverse_onto
reverse_onto-append [] ys zs = refl
reverse_onto-append (x ∷ xs) ys zs = reverse_onto-append xs ((b'0' + x) ∷ ys) zs

-- More fuel than the number is enough for all its digits.
from_low-digits_from : (fuel n : ℕ) → n < fuel → from_low 0 (digits_from fuel n) ≡ n
unfolding from_low digits_from
from_low-digits_from zero n h = absurd (omega (arith, h))
from_low-digits_from (suc fuel) n h = elim (Bool-cases (ltb n 10)) [
  | inl small ↦ rw small (omega arith)
  | inr large ↦
      let ten : 10 ≤ n = ground (arith, large) in
      rw (large, from_low-digits_from fuel (n / 10) (omega (arith, h, ten))) (omega arith)
]

value-zeros : (k : ℕ) (cs : List ℕ) → value 0 (zeros k ++ cs) ≡ value 0 cs
unfolding value zeros
value-zeros zero cs = refl
value-zeros (suc k) cs = value-zeros k cs

value-padded : (width n : ℕ) → value 0 (padded width n) ≡ n
unfolding padded decimal value
value-padded width n =
    value-zeros (width - length (decimal n)) (decimal n)
    ∙ value-reverse_onto 0 (digits_from (suc n) n) []
    ∙ from_low-digits_from (suc n) n (omega arith)

-- The year and the counter can be read back from an invoice number, whatever their size.
pub format_number_roundtrip :
    (year n : ℕ)
    → (year_in 0 (format_number year n) ≡ year) × (counter_in (format_number year n) ≡ n)
unfolding format_number decimal year_in counter_in
format_number_roundtrip year n =
    let digits = digits_from (suc year) year in
    let rest = b'-' ∷ padded 8 n in
    (
      rw (reverse_onto-append digits [] rest, year_in-reverse_onto 0 digits rest)
          (from_low-digits_from (suc year) year (omega arith)),
      rw (reverse_onto-append digits [] rest, counter_in-reverse_onto digits rest)
          (value-padded 8 n),
    )

counter_of-count_up :
    (year z : ℕ) (rows : List (ℕ × ℕ))
    → counter_of z (count_up year rows) ≡ counter_of z rows + (if z == year then 1 else 0)
unfolding counter_of count_up
counter_of-count_up year z [] = ground arith
counter_of-count_up year z ((y, c) ∷ rows) = elim (Bool-cases (y == year)) [
  | inl hit ↦ rw hit (ground (arith, hit))
  | inr miss ↦ rw miss (ground (arith, miss, counter_of-count_up year z rows))
]

module _ (fiscal_year : ℕ → ℕ) where
  -- The numbers drawn for payments at these times, one after the other.
  pub draw_all : Database → List ℕ → List (List ℕ)
  draw_all db [] = []
  draw_all db (t ∷ ts) =
      let drawn = next_invoice_number fiscal_year db t in drawn.0 ∷ draw_all drawn.1 ts

  draw_all_above :
      (db : Database) (ts : List ℕ) (year c : ℕ)
      → c ≤ counter_of year db.invoice_counters
      → All (λ n. n ≢ format_number year c) (draw_all db ts)
  unfolding draw_all next_invoice_number
  draw_all_above db [] year c h = tt
  draw_all_above db (t ∷ ts) year c h =
      let y = fiscal_year t in
      let up = counter_of-count_up y year db.invoice_counters in
      let drawn = counter_of y (count_up y db.invoice_counters) in
      let db1 = (next_invoice_number fiscal_year db t).1 in
      (
        (λ e.
            let same_year =
              sym (format_number_roundtrip y drawn).0
              ∙ ap (year_in 0) e
              ∙ (format_number_roundtrip year c).0 in
            let same_count =
              sym (format_number_roundtrip y drawn).1
              ∙ ap counter_in e
              ∙ (format_number_roundtrip year c).1 in
            let own = counter_of-count_up y y db.invoice_counters in
            let before = subst (λ z. c ≤ counter_of z db.invoice_counters) (sym same_year) h in
            ground (arith, same_count, own, ==_refl y, before)),
        draw_all_above db1 ts year c (omega (arith, h, up)),
      )

  -- No invoice number is drawn twice: a number differs from all that are drawn after it, in the same
  -- year and in others, however many there are.
  pub draw_all_fresh :
      (db : Database) (t : ℕ) (ts : List ℕ)
      → All
          (λ n. n ≢ (next_invoice_number fiscal_year db t).0)
          (draw_all (next_invoice_number fiscal_year db t).1 ts)
  unfolding next_invoice_number
  draw_all_fresh db t ts =
      draw_all_above (next_invoice_number fiscal_year db t).1 ts (fiscal_year t)
        (counter_of (fiscal_year t) (count_up (fiscal_year t) db.invoice_counters)) (omega arith)
