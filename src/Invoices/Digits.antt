-- ===== src/Invoices/Digits.antt =====
-- Decimal numerals as code points: Python's `str(n)` and the format `n:0wd`.
use ticketing_system.Prelude.{
  ℕ, zero, suc, ◌+◌, ◌-◌, ◌/◌, ◌%◌, List, [], ◌∷◌, ◌++◌, ltb, if◌then◌else◌, length,
}

-- The digits of n, lowest first, by at most `fuel` divisions.
unfoldable pub digits_from : ℕ → ℕ → List ℕ
digits_from zero n = []
digits_from (suc fuel) n =
    let rest = digits_from fuel (n / 10) in if ltb n 10 then n ∷ [] else n % 10 ∷ rest

unfoldable pub reverse_onto : List ℕ → List ℕ → List ℕ
reverse_onto [] ys = ys
reverse_onto (x ∷ xs) ys = reverse_onto xs ((b'0' + x) ∷ ys)

-- A number has at most as many digits as its value, and 0 has one.
unfoldable pub decimal : ℕ → List ℕ
decimal n = reverse_onto (digits_from (suc n) n) []

unfoldable pub zeros : ℕ → List ℕ
zeros zero = []
zeros (suc n) = b'0' ∷ zeros n

unfoldable pub padded : ℕ → ℕ → List ℕ
padded width n = zeros (width - length (decimal n)) ++ decimal n
