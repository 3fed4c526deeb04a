-- ===== src/Displays/Code.antt =====
-- The code that a display shows, as a person types it.
use rewardpointsweb.Base.{
  ℕ, zero, suc, ◌-◌, ◌≡◌, refl, sym, ◌∙◌, ◌↔◌, Bool, true, false, ◌&&◌, ◌||◌, not, ◌==◌, ltb, leb,
  if◌then◌else◌, Option, none, some, [], ◌∷◌, ◌++◌, map, length, select, exists, Text, text_eq,
  text_eq-true, text_eq_refl, contains, Bool-cases, inl, inr, arith, ==_eq,
}
use rewardpointsweb.Displays.{
  Codes, user_code_alphabet, user_code_length, user_code_group, take, drop, format_user_code,
  has_foreign, normalize_user_code,
}

-- The ASCII letters and digits, and their capitals.
abbrev pub ascii_alnum : ℕ → Bool
ascii_alnum c = (leb 48 c && leb c 57) || (leb 65 c && leb c 90) || (leb 97 c && leb c 122)

abbrev pub ascii_upper : ℕ → ℕ
ascii_upper c = if leb 97 c && leb c 122 then c - 32 else c

abbrev pub is_ascii : Text → Bool
is_ascii [] = true
is_ascii (c ∷ s) = ltb c 128 && is_ascii s

-- What Python documents of `upper` and `isalnum` on ASCII.
pub record IsAsciiAware (lib : Codes) : Type 0 where
  pub upper : (s : Text) → is_ascii s ≡ true → lib.upper s ≡ map ascii_upper s
  pub isalnum : (c : ℕ) → ltb c 128 ≡ true → lib.isalnum c ≡ ascii_alnum c

-- A code: eight characters of the alphabet.
abbrev pub is_user_code : Text → Bool
is_user_code code = (length code == user_code_length) && not (has_foreign code)

-- The text spells the code: its letters and digits, capital or not, are those of the code, with any other
-- characters between them.
abbrev pub spells : Text → Text → Bool
spells [] [] = true
spells [] (d ∷ code) = false
spells (c ∷ s) [] = not (ascii_alnum c) && spells s []
spells (c ∷ s) (d ∷ code) =
    if ascii_alnum c then (ascii_upper c == d) && spells s code else spells s (d ∷ code)

ascii_alnum-upper : (c : ℕ) → ascii_alnum (ascii_upper c) ≡ ascii_alnum c
ascii_alnum-upper c = ground arith

ascii_upper-below : (c : ℕ) → ltb c 128 ≡ true → ltb (ascii_upper c) 128 ≡ true
ascii_upper-below c h = ground arith

spells-select :
    (lib : Codes) (aware : IsAsciiAware lib) (typed code : Text)
    → is_ascii typed ≡ true
    → spells typed code ≡ text_eq (select lib.isalnum (map ascii_upper typed)) code
spells-select lib aware [] [] h = refl
spells-select lib aware [] (d ∷ code) h = refl
spells-select lib aware (c ∷ s) [] h =
    let kept : lib.isalnum (ascii_upper c) ≡ ascii_alnum c =
      aware.isalnum (ascii_upper c) (ascii_upper-below c (ground arith)) ∙ ascii_alnum-upper c in
    let rest = spells-select lib aware s [] (ground arith) in
    rw kept (elim (Bool-cases (ascii_alnum c)) [
      | inl letter ↦ rw letter refl
      | inr other ↦ rw other rest
    ])
spells-select lib aware (c ∷ s) (d ∷ code) h =
    let kept : lib.isalnum (ascii_upper c) ≡ ascii_alnum c =
      aware.isalnum (ascii_upper c) (ascii_upper-below c (ground arith)) ∙ ascii_alnum-upper c in
    let rest = spells-select lib aware s in
    rw kept (elim (Bool-cases (ascii_alnum c)) [
      | inl letter ↦ rw letter (rw (rest code (ground arith)) refl)
      | inr other ↦ rw other (rest (d ∷ code) (ground arith))
    ])

-- The checks on the characters that are kept.
checked : Text → Option Text
checked kept = if not (length kept == user_code_length) || has_foreign kept then none else some kept

checked-some :
    (kept code : Text)
    → (checked kept ≡ some code) ↔ ((is_user_code code ≡ true) × (text_eq kept code ≡ true))
unfolding checked
checked-some kept code = (
  λ found. elim (Bool-cases (not (length kept == user_code_length) || has_foreign kept)) [
    | inl wrong ↦ absurd (ground arith)
    | inr right ↦
        let same : kept ≡ code = ground arith in
        (rw (sym same) (ground arith), rw same (text_eq_refl code))
  ],
  λ (fits, same). let eq : kept ≡ code = text_eq-true kept code same in rw eq (ground arith),
)

-- An ASCII text that is typed stands for a code exactly when it spells it.
pub normalize_user_code-spells :
    (lib : Codes)
    → IsAsciiAware lib
    → (typed code : Text) → is_ascii typed ≡ true
    → (normalize_user_code lib typed ≡ some code)
      ↔ ((is_user_code code ≡ true) × (spells typed code ≡ true))
unfolding normalize_user_code checked
normalize_user_code-spells lib aware typed code h =
    rw (aware.upper typed h, spells-select lib aware typed code h)
      (checked-some (select lib.isalnum (map ascii_upper typed)) code)

-- Characters of the alphabet.
contains-all :
    (P : ℕ → Bool) (c : ℕ) (s : Text)
    → contains c s ≡ true
    → exists (λ x. not (P x)) s ≡ false
    → P c ≡ true
contains-all P c [] h a = cc
contains-all P c (x ∷ s) h a = elim (Bool-cases (c == x)) [
  | inl same ↦ rw (==_eq c x same) (ground arith)
  | inr other ↦ contains-all P c s (ground arith) (ground arith)
]

-- It is its own capital, a letter or digit, and ASCII.
plain : ℕ → Bool
plain c = ltb c 128 && ascii_alnum c && ascii_upper c == c

plain-alphabet : (c : ℕ) → contains c user_code_alphabet ≡ true → plain c ≡ true
unfolding plain
plain-alphabet c h = contains-all plain c user_code_alphabet h refl

-- The code as it is shown spells itself.
spells-separator : (s code : Text) → spells (45 ∷ s) code ≡ spells s code
spells-separator s [] = refl
spells-separator s (d ∷ code) = refl

spells_self :
    (code : Text) → has_foreign code ≡ false → (spells code code ≡ true) × (is_ascii code ≡ true)
unfolding plain
spells_self [] h = (refl, refl)
spells_self (c ∷ code) h = ground (arith, plain-alphabet c, spells_self code)

spells-shown :
    (n : ℕ) (code : Text)
    → has_foreign code ≡ false
    → (spells (take n code ++ 45 ∷ drop n code) code ≡ true)
      × (is_ascii (take n code ++ 45 ∷ drop n code) ≡ true)
unfolding plain
spells-shown zero code h = rw (spells-separator code code) (spells_self code h)
spells-shown (suc n) [] h = (refl, refl)
spells-shown (suc n) (c ∷ code) h = ground (arith, plain-alphabet c, spells-shown n code)

-- A display's code, as it is shown, is read back.
pub normalize_user_code-format :
    (lib : Codes)
    → IsAsciiAware lib
    → (code : Text) → is_user_code code ≡ true
    → normalize_user_code lib (format_user_code code) ≡ some code
unfolding format_user_code
normalize_user_code-format lib aware code h =
    let (spelled, ascii) = spells-shown user_code_group code (ground arith) in
    (normalize_user_code-spells lib aware (format_user_code code) code ascii).1 (h, spelled)
