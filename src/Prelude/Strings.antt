-- ===== src/Prelude/Strings.antt =====
-- Equality of the native texts that the program only compares.
use Prim.Native.String.{String}
use mathlib.Core.Path.{◌≡◌}
use mathlib.Core.Logic.{◌↔◌}
use mathlib.Core.Bool.{Bool, true}
use native.Mathlib.Omega.{arith}
use text.Mathlib.Text.{◌==◌}
use text.Mathlib.TextEquality.{eq_iff}

abbrev pub same_string : String → String → Bool
same_string s t = s == t

pub same_string_sym : (s t : String) → same_string s t ≡ same_string t s
same_string_sym s t = ground (arith, eq_iff s t, eq_iff t s)

pub same_string_iff : (s t : String) → (same_string s t ≡ true) ↔ (s ≡ t)
same_string_iff s t = eq_iff s t
