-- ===== src/Prelude/Texts.antt =====
-- A Python `str` is the list of its code points.
use Prim.Native.Nat.{ℕ, zero, suc, ◌+◌, ◌/◌, ◌%◌}
use Prim.Native.Char.{code}
use Prim.Native.String.{String}
use mathlib.Core.Path.{◌≡◌, refl}
use mathlib.Core.Logic.{◌↔◌, ◌⊎◌, inl, inr}
use mathlib.Core.Bool.{Bool, true, false, not, ◌&&◌, ◌||◌}
use mathlib.Core.List.{List, [], ◌∷◌}
use mathlib.Core.Option.{Option, none, some}
use native.Mathlib.Omega.{arith}
use sim_bridge.Prelude.Tests.{Comparable, nat_eq, ltb}

abbrev pub Text : Type 0
Text = List ℕ

-- The literal `"…"`.
abbrev pub codes : String → Text
codes String.[] = []
codes (String.◌∷◌ c s) = code c ∷ codes s

unfoldable pub text_eq : Text → Text → Bool
text_eq [] [] = true
text_eq [] (d ∷ t) = false
text_eq (c ∷ s) [] = false
text_eq (c ∷ s) (d ∷ t) = nat_eq c d && text_eq s t

pub text_eq_iff : (s t : Text) → (text_eq s t ≡ true) ↔ (s ≡ t)
unfolding text_eq
text_eq_iff [] [] = ground arith
text_eq_iff [] (d ∷ t) = ground arith
text_eq_iff (c ∷ s) [] = ground arith
text_eq_iff (c ∷ s) (d ∷ t) = ground (arith, text_eq_iff s t)

instance abbrev pub text_Comparable : Comparable Text
text_Comparable = record { equals = text_eq; equals_iff = text_eq_iff }

-- `s <= t`: the order of code points, left to right.
unfoldable pub text_le : Text → Text → Bool
text_le [] t = true
text_le (c ∷ s) [] = false
text_le (c ∷ s) (d ∷ t) = ltb c d || nat_eq c d && text_le s t

pub text_le_total : (s t : Text) → (text_le s t ≡ true) ⊎ (text_le t s ≡ true)
unfolding text_le
text_le_total [] t = inl refl
text_le_total (c ∷ s) [] = inr refl
text_le_total (c ∷ s) (d ∷ t) = ground (arith, text_le_total s t)

pub text_le_trans : (s t u : Text) → text_le s t ≡ true → text_le t u ≡ true → text_le s u ≡ true
unfolding text_le
text_le_trans [] t u h k = refl
text_le_trans (c ∷ s) [] u h k = ground arith
text_le_trans (c ∷ s) (d ∷ t) [] h k = ground arith
text_le_trans (c ∷ s) (d ∷ t) (f ∷ u) h k = ground (arith, text_le_trans s t u)

-- `not s`
abbrev pub is_empty : Text → Bool
is_empty [] = true
is_empty (c ∷ s) = false

-- The truth of an optional text: neither `None` nor `""`.
abbrev pub is_set : Option Text → Bool
is_set none = false
is_set (some t) = not (is_empty t)

-- `s.startswith(t)`
unfoldable pub starts_with : Text → Text → Bool
starts_with s [] = true
starts_with [] (d ∷ t) = false
starts_with (c ∷ s) (d ∷ t) = nat_eq c d && starts_with s t

-- `t in s`
unfoldable pub has_substring : Text → Text → Bool
unfolding starts_with
has_substring [] t = starts_with [] t
has_substring (c ∷ s) t = starts_with (c ∷ s) t || has_substring s t

-- The decimal digits of a number in front of a text. Each digit takes one unit of the fuel.
unfoldable pub digits_before : ℕ → ℕ → Text → Text
digits_before zero n t = t
digits_before (suc fuel) n t = elim (ltb n 10) [
  | true ↦ (48 + n) ∷ t
  | false ↦ digits_before fuel (n / 10) ((48 + n % 10) ∷ t)
]

-- `str(n)`: a number has fewer digits than its successor counts.
unfoldable pub show_nat : ℕ → Text
unfolding digits_before
show_nat n = digits_before (suc n) n []
