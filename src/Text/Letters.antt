-- ===== src/Text/Letters.antt =====
-- Changing the letters of a string in place: `holy_str2lower`, `holy_str2upper`,
-- `holy_replace_char` and `holy_str_append` of utils/string.c.
use holyhttp.Prelude.{
  ℕ, ◌+◌, ◌-◌, ◌≡◌, refl, ◌≢◌, [], ◌∷◌, ◌++◌, Option, none, some, arith, if◌then◌else◌, leb, ◌==◌,
  ◌&&◌, Bool, true, false, length, Bytes, All, IsText, Bool-cases, inl, inr, ◌⊎◌,
}

unfoldable pub is_upper : ℕ → Bool
is_upper c = leb b'A' c && leb c b'Z'

unfoldable pub is_lower : ℕ → Bool
is_lower c = leb b'a' c && leb c b'z'

unfoldable pub str2lower : Bytes → Bytes
unfolding is_upper
str2lower [] = []
str2lower (c ∷ s) = (if is_upper c then c + 0x20 else c) ∷ str2lower s

unfoldable pub str2upper : Bytes → Bytes
unfolding is_lower
str2upper [] = []
str2upper (c ∷ s) = (if is_lower c then c - 0x20 else c) ∷ str2upper s

unfoldable pub replace_char : Bytes → ℕ → ℕ → Bytes
replace_char [] old_char new_char = []
replace_char (c ∷ s) old_char new_char =
    (if c == old_char then new_char else c) ∷ replace_char s old_char new_char

-- `*s` after the call; `strdup` and `malloc` fail where `alloc` is false.
unfoldable pub str_append : Bool → Option Bytes → Option Bytes → Option Bytes
str_append alloc s none = s
str_append alloc none (some d) = if alloc then some d else none
str_append alloc (some s) (some d) = if alloc then some (s ++ d) else some s

-- Two strings agree up to the case of ASCII letters.
abbrev pub SameLetters : Bytes → Bytes → Type 0
SameLetters [] [] = Unit {0}
SameLetters [] (d ∷ t) = ⊥
SameLetters (c ∷ s) [] = ⊥
SameLetters (c ∷ s) (d ∷ t) =
    ((c ≡ d) ⊎ ((is_upper c ≡ true) × (d ≡ c + 32)) ⊎ ((is_upper d ≡ true) × (c ≡ d + 32)))
    × SameLetters s t

same_letter :
    (c d : ℕ)
    → (if is_upper c then c + 0x20 else c) ≡ (if is_upper d then d + 0x20 else d)
    → (c ≡ d) ⊎ ((is_upper c ≡ true) × (d ≡ c + 32)) ⊎ ((is_upper d ≡ true) × (c ≡ d + 32))
unfolding is_upper
same_letter c d h = elim (Bool-cases (is_upper c)) [
  | inl u ↦ elim (Bool-cases (is_upper d)) [
    | inl v ↦ inl (ground arith)
    | inr v ↦ inr (inl (u, ground arith))
  ]
  | inr u ↦ elim (Bool-cases (is_upper d)) [
    | inl v ↦ inr (inr (v, ground arith))
    | inr v ↦ inl (ground arith)
  ]
]

-- Lowering forgets the case of ASCII letters and nothing else: strings with the same lower-case
-- form have the same length, and agree byte by byte or in a letter and its other case.
pub str2lower-SameLetters : (s t : Bytes) → str2lower s ≡ str2lower t → SameLetters s t
unfolding str2lower
str2lower-SameLetters [] [] h = tt
str2lower-SameLetters [] (d ∷ t) h = cc
str2lower-SameLetters (c ∷ s) [] h = cc
str2lower-SameLetters (c ∷ s) (d ∷ t) h = (same_letter c d (cc), str2lower-SameLetters s t (cc))

-- Lowering what was raised, or raising what was lowered, is lowering or raising the original.
pub str2lower-str2upper :
    (s : Bytes)
    → (str2lower (str2upper s) ≡ str2lower s)
      × (str2upper (str2lower s) ≡ str2upper s)
      × (str2lower (str2lower s) ≡ str2lower s)
      × (length (str2lower s) ≡ length s)
      × (length (str2upper s) ≡ length s)
unfolding str2lower str2upper
str2lower-str2upper [] = (refl, refl, refl, refl, refl)
str2lower-str2upper (c ∷ s) =
    let ih = str2lower-str2upper s in
    (
      ground (arith, ih),
      ground (arith, ih),
      ground (arith, ih),
      ground (arith, ih),
      ground (arith, ih),
    )

-- Lowering never makes a NUL, so a C string stays a C string of the same length, and no upper-case letter is left.
pub str2lower-IsText :
    (s : Bytes) → IsText s → IsText (str2lower s) × All (λ c. is_upper c ≡ false) (str2lower s)
unfolding str2lower
str2lower-IsText [] h = (tt, tt)
str2lower-IsText (c ∷ s) h = ground (arith, str2lower-IsText s h.1)

-- After `holy_replace_char` the old character is gone (unless it is its own replacement).
pub replace_char_lem :
    (s : Bytes) (old_char new_char : ℕ)
    → old_char ≢ new_char
    → All (λ c. c ≢ old_char) (replace_char s old_char new_char)
unfolding replace_char
replace_char_lem [] o n h = tt
replace_char_lem (c ∷ s) o n h = ground (arith, replace_char_lem s o n h)
