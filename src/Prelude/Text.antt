-- ===== src/Prelude/Text.antt =====
-- Texts as lists of code points, and the methods of Python's `str` that the program calls: strip,
-- lower and upper. White space is all of Unicode's, letters are those of ASCII.
use Prim.Native.Nat.{ℕ, ◌+◌, ◌-◌}
use mathlib.Core.Path.{◌≡◌, refl}
use mathlib.Core.Bool.{Bool, true, false, ◌&&◌, ◌||◌}
use mathlib.Core.List.{List, [], ◌∷◌, map}
use native.Mathlib.Omega.{arith}
use ticketing_system.Prelude.Tests.{leb, ◌==◌, if◌then◌else◌, Bool-cases}
use mathlib.Core.Logic.{inl, inr}

abbrev pub Text : Type 0
Text = List ℕ

-- str.isspace of one character
unfoldable pub is_space : ℕ → Bool
is_space c =
    leb 9 c && leb c 13
    || leb 28 c && leb c 32
    || (c == 0x85
        || c == 0xa0
        || (c == 0x1680
            || leb 0x2000 c && leb c 0x200a
            || (c == 0x2028 || c == 0x2029 || (c == 0x202f || c == 0x205f || c == 0x3000))))

abbrev pub is_lower : ℕ → Bool
is_lower c = leb b'a' c && leb c b'z'

abbrev pub is_upper : ℕ → Bool
is_upper c = leb b'A' c && leb c b'Z'

unfoldable pub to_upper : ℕ → ℕ
to_upper c = if is_lower c then c - 32 else c

unfoldable pub to_lower : ℕ → ℕ
to_lower c = if is_upper c then c + 32 else c

-- s.lower() and s.upper()
abbrev pub lower : Text → Text
lower s = map to_lower s

abbrev pub upper : Text → Text
upper s = map to_upper s

-- s.lstrip()
unfoldable pub lstrip : Text → Text
unfolding is_space
lstrip [] = []
lstrip (c ∷ s) = if is_space c then lstrip s else c ∷ s

abbrev keep_unless_blank : Bool → ℕ → Text → Text
keep_unless_blank true c [] = []
keep_unless_blank false c [] = c ∷ []
keep_unless_blank b c (d ∷ s) = c ∷ d ∷ s

-- s.rstrip()
unfoldable pub rstrip : Text → Text
unfolding is_space
rstrip [] = []
rstrip (c ∷ s) = keep_unless_blank (is_space c) c (rstrip s)

-- s.strip()
unfoldable pub strip : Text → Text
unfolding lstrip rstrip
strip s = lstrip (rstrip s)

-- s == t
unfoldable pub same_text : Text → Text → Bool
same_text [] [] = true
same_text (c ∷ s) (d ∷ t) = c == d && same_text s t
same_text _ _ = false

pub same_text_refl : (s : Text) → same_text s s ≡ true
unfolding same_text
same_text_refl [] = refl
same_text_refl (c ∷ s) = ground (arith, same_text_refl s)

pub same_text_eq : (s t : Text) → same_text s t ≡ true → s ≡ t
unfolding same_text
same_text_eq [] [] h = refl
same_text_eq (c ∷ s) (d ∷ t) h = ground (arith, same_text_eq s t)
same_text_eq (c ∷ s) [] h = ground (arith, h)
same_text_eq [] (d ∷ t) h = ground (arith, h)

pub to_lower_idem : (c : ℕ) → to_lower (to_lower c) ≡ to_lower c
unfolding to_lower
to_lower_idem c = ground arith

pub to_upper_idem : (c : ℕ) → to_upper (to_upper c) ≡ to_upper c
unfolding to_upper
to_upper_idem c = ground arith

pub lower_idem : (s : Text) → lower (lower s) ≡ lower s
lower_idem [] = refl
lower_idem (c ∷ s) = ground (arith, to_lower_idem c, lower_idem s)

pub upper_idem : (s : Text) → upper (upper s) ≡ upper s
upper_idem [] = refl
upper_idem (c ∷ s) = ground (arith, to_upper_idem c, upper_idem s)

rstrip-keep :
    (b : Bool) (c : ℕ) (t : Text)
    → is_space c ≡ b
    → rstrip t ≡ t
    → rstrip (keep_unless_blank b c t) ≡ keep_unless_blank b c t
unfolding rstrip
rstrip-keep true c [] e h = refl
rstrip-keep false c [] e h = rw e refl
rstrip-keep true c (d ∷ t) e h = rw h refl
rstrip-keep false c (d ∷ t) e h = rw h refl

rstrip_idem : (s : Text) → rstrip (rstrip s) ≡ rstrip s
unfolding rstrip
rstrip_idem [] = refl
rstrip_idem (c ∷ s) = rstrip-keep (is_space c) c (rstrip s) refl (rstrip_idem s)

keep_tail : (b : Bool) (c : ℕ) (t s : Text) → keep_unless_blank b c t ≡ c ∷ s → t ≡ s
keep_tail true c [] s e = cc
keep_tail false c [] s e = cc
keep_tail true c (d ∷ t) s e = cc
keep_tail false c (d ∷ t) s e = cc

rstrip_tail : (c : ℕ) (s : Text) → rstrip (c ∷ s) ≡ c ∷ s → rstrip s ≡ s
unfolding rstrip
rstrip_tail c s h = keep_tail (is_space c) c (rstrip s) s h

-- What is stripped on the right stays so when it is stripped on the left.
rstrip-lstrip : (s : Text) → rstrip s ≡ s → rstrip (lstrip s) ≡ lstrip s
unfolding lstrip
rstrip-lstrip [] h = h
rstrip-lstrip (c ∷ s) h = elim (Bool-cases (is_space c)) [
  | inl blank ↦ rw blank (rstrip-lstrip s (rstrip_tail c s h))
  | inr other ↦ rw other h
]

lstrip_idem : (s : Text) → lstrip (lstrip s) ≡ lstrip s
unfolding lstrip
lstrip_idem [] = refl
lstrip_idem (c ∷ s) = elim (Bool-cases (is_space c)) [
  | inl blank ↦ rw (blank) (lstrip_idem s)
  | inr other ↦ rw (other, other) refl
]

pub strip_idem : (s : Text) → strip (strip s) ≡ strip s
unfolding strip
strip_idem s = rw (rstrip-lstrip (rstrip s) (rstrip_idem s)) (lstrip_idem (rstrip s))

-- A change of letters that leaves white space alone commutes with stripping.
module _ (f : ℕ → ℕ) (spaces : (c : ℕ) → is_space (f c) ≡ is_space c) where
  lstrip-map : (s : Text) → lstrip (map f s) ≡ map f (lstrip s)
  unfolding lstrip
  lstrip-map [] = refl
  lstrip-map (c ∷ s) = elim (Bool-cases (is_space c)) [
    | inl blank ↦ rw (spaces c, blank) (lstrip-map s)
    | inr other ↦ rw (spaces c, other) refl
  ]

  keep-map :
      (b : Bool) (c : ℕ) (t : Text)
      → keep_unless_blank b (f c) (map f t) ≡ map f (keep_unless_blank b c t)
  keep-map true c [] = refl
  keep-map false c [] = refl
  keep-map true c (d ∷ t) = refl
  keep-map false c (d ∷ t) = refl

  rstrip-map : (s : Text) → rstrip (map f s) ≡ map f (rstrip s)
  unfolding rstrip
  rstrip-map [] = refl
  rstrip-map (c ∷ s) = rw (spaces c, rstrip-map s) (keep-map (is_space c) c (rstrip s))

  strip-map : (s : Text) → strip (map f s) ≡ map f (strip s)
  unfolding strip
  strip-map s = rw (rstrip-map s) (lstrip-map (rstrip s))

is_space-to_upper : (c : ℕ) → is_space (to_upper c) ≡ is_space c
unfolding is_space to_upper
is_space-to_upper c = ground arith

is_space-to_lower : (c : ℕ) → is_space (to_lower c) ≡ is_space c
unfolding is_space to_lower
is_space-to_lower c = ground arith

pub strip-upper : (s : Text) → strip (upper s) ≡ upper (strip s)
strip-upper s = strip-map to_upper is_space-to_upper s

pub strip-lower : (s : Text) → strip (lower s) ≡ lower (strip s)
strip-lower s = strip-map to_lower is_space-to_lower s
