-- ===== src/Base/Texts/Strip.antt =====
-- `str.strip()` leaves nothing exactly of a text that is all white space.
use mathlib.Core.Path.{◌≡◌, refl, ◌∙◌}
use mathlib.Core.Bool.{Bool, true, false, ◌&&◌}
use mathlib.Core.List.{[], ◌∷◌, ◌++◌, reverse, reverse-cons}
use Prim.Native.Nat.{ℕ}
use native.Mathlib.Omega.{arith}
use rewardpointsweb.Base.Texts.{Text, is_space, strip_left, is_blank, is_empty}

unfoldable pub all_space : Text → Bool
all_space [] = true
all_space (c ∷ s) = is_space c && all_space s

all_space-append : (s t : Text) → all_space (s ++ t) ≡ (all_space s && all_space t)
unfolding all_space
all_space-append [] t = refl
all_space-append (c ∷ s) t = ground (arith, all_space-append s t)

all_space-reverse : (s : Text) → all_space (reverse s) ≡ all_space s
unfolding all_space
all_space-reverse [] = refl
all_space-reverse (c ∷ s) =
    rw (reverse-cons c s)
      (ground (arith, all_space-append (reverse s) (c ∷ []), all_space-reverse s))

is_empty-append : (s : Text) (c : ℕ) → is_empty (s ++ c ∷ []) ≡ false
is_empty-append [] c = refl
is_empty-append (d ∷ s) c = refl

is_empty-reverse : (s : Text) → is_empty (reverse s) ≡ is_empty s
is_empty-reverse [] = refl
is_empty-reverse (c ∷ s) = rw (reverse-cons c s) (is_empty-append (reverse s) c)

is_empty-strip_left : (s : Text) → is_empty (strip_left s) ≡ all_space s
unfolding all_space strip_left
is_empty-strip_left [] = refl
is_empty-strip_left (c ∷ s) = ground (arith, is_empty-strip_left s)

all_space-strip_left : (s : Text) → all_space (strip_left s) ≡ all_space s
unfolding all_space strip_left
all_space-strip_left [] = refl
all_space-strip_left (c ∷ s) = ground (arith, all_space-strip_left s)

pub is_blank-all_space : (s : Text) → is_blank s ≡ all_space s
unfolding is_blank
is_blank-all_space s =
    is_empty-reverse (strip_left (reverse (strip_left s)))
    ∙ is_empty-strip_left (reverse (strip_left s))
    ∙ all_space-reverse (strip_left s)
    ∙ all_space-strip_left s

-- A text with a character that is no white space is not blank.
pub is_blank-append_nonspace :
    (c : ℕ) (s t : Text) → is_space c ≡ false → is_blank (s ++ (c ∷ t)) ≡ false
unfolding all_space
is_blank-append_nonspace c s t h =
    rw is_blank-all_space (ground (arith, all_space-append s (c ∷ t)))
