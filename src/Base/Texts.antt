-- ===== src/Base/Texts.antt =====
-- Python's `str` as the list of its code points, with the operations that the program calls.
pub mod Strip
use Prim.Native.Nat.{ℕ}
use Prim.Native.Char.{code}
use Prim.Native.String.{String}
use mathlib.Core.Path.{◌≡◌, refl}
use mathlib.Core.Logic.{◌↔◌, ◌≢◌, inl, inr}
use mathlib.Core.Bool.{Bool, true, false, ◌&&◌, ◌||◌}
use mathlib.Core.List.{List, [], ◌∷◌, ◌++◌, reverse}
use native.Mathlib.Omega.{arith}
use rewardpointsweb.Base.Tests.{leb, ◌==◌, if◌then◌else◌, Bool-cases}

abbrev pub Text : Type 0
Text = List ℕ

abbrev pub codes : String → Text
codes String.[] = []
codes (String.◌∷◌ c s) = code c ∷ codes s

-- The code points that `str.strip()` removes: those for which `str.isspace()` holds.
unfoldable pub is_space : ℕ → Bool
is_space c =
    (leb 9 c && leb c 13)
    || (leb 28 c && leb c 32)
    || c == 0x85
    || c == 0xa0
    || c == 0x1680
    || (leb 0x2000 c && leb c 0x200a)
    || c == 0x2028
    || c == 0x2029
    || c == 0x202f
    || c == 0x205f
    || c == 0x3000

unfoldable pub strip_left : Text → Text
strip_left [] = []
strip_left (c ∷ s) = if is_space c then strip_left s else c ∷ s

-- `s.strip()`
unfoldable pub strip : Text → Text
unfolding strip_left is_space
strip s = reverse (strip_left (reverse (strip_left s)))

abbrev pub is_empty : Text → Bool
is_empty [] = true
is_empty (c ∷ s) = false

-- `not s.strip()`
unfoldable pub is_blank : Text → Bool
unfolding strip
is_blank s = is_empty (strip s)

abbrev pub text_eq : Text → Text → Bool
text_eq [] [] = true
text_eq (c ∷ s) (d ∷ t) = (c == d) && text_eq s t
text_eq [] (d ∷ t) = false
text_eq (c ∷ s) [] = false

-- `c in s`, for one character.
abbrev pub contains : ℕ → Text → Bool
contains c [] = false
contains c (d ∷ s) = (c == d) || contains c s

pub text_eq-true : (s t : Text) → text_eq s t ≡ true → s ≡ t
text_eq-true [] [] h = refl
text_eq-true (c ∷ s) (d ∷ t) h = ground (arith, text_eq-true s t)
text_eq-true [] (d ∷ t) h = cc
text_eq-true (c ∷ s) [] h = cc

pub text_eq_refl : (s : Text) → text_eq s s ≡ true
text_eq_refl [] = refl
text_eq_refl (c ∷ s) = ground (arith, text_eq_refl s)

pub text_eq_iff : (s t : Text) → (text_eq s t ≡ true) ↔ (s ≡ t)
text_eq_iff s t = (text_eq-true s t, λ e. rw e (text_eq_refl t))

pub contains-append : (c : ℕ) (s t : Text) → contains c (s ++ t) ≡ (contains c s || contains c t)
contains-append c [] t = refl
contains-append c (d ∷ s) t = ground (arith, contains-append c s t)

-- A common beginning does not count.
pub text_eq-append : (k s t : Text) → text_eq (k ++ s) (k ++ t) ≡ text_eq s t
text_eq-append [] s t = refl
text_eq-append (c ∷ k) s t = ground (arith, text_eq-append k s t)

pub text_eq-ne : (s t : Text) → s ≢ t → text_eq s t ≡ false
text_eq-ne s t h = elim (Bool-cases (text_eq s t)) [
  | inl same ↦ absurd (h (text_eq-true s t same))
  | inr other ↦ other
]
