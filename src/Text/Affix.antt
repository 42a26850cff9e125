-- ===== src/Text/Affix.antt =====
-- Tests of the ends of a string: `holy_str_starts_with` and `holy_str_ends_with` of utils/string.c.
use holyhttp.Prelude.{
  ℕ, zero, suc, ◌+◌, ◌-◌, ◌≤◌, ◌<◌, ◌≡◌, refl, [], ◌∷◌, ◌++◌, Option, none, some, arith,
  if◌then◌else◌, ltb, ◌==◌, Bool, true, false, length, Bytes, Bool-cases, inl, inr, ap, get_or,
  take, drop, sym, ◌∙◌, is_prefix, is_prefix_iff, ◌↔◌, take-append-drop, length-append, length-take,
  take-append, list_ext, get_or-append_right,
}
use mathlib.Core.Bool.{false≢true}

unfoldable pub str_starts_with : Option Bytes → Option Bytes → Bool
str_starts_with none prefix = false
str_starts_with (some s) none = false
str_starts_with (some s) (some prefix) = is_prefix prefix s

-- The byte that `s[i]` reads in a C string: the NUL at its end.
abbrev pub char_at : Bytes → ℕ → ℕ
char_at s i = get_or s i 0

-- The loop with `n` for `p - prefix`; `s` stands as far before the end. It stops at `n = 0`
-- without a comparison there.
unfoldable pub ends_with_loop : Bytes → Bytes → ℕ → Bool
ends_with_loop s p zero = true
ends_with_loop s p (suc n) =
    let i = length s + suc n - length p in
    if char_at s i == char_at p (suc n) then ends_with_loop s p n else false

unfoldable pub str_ends_with : Option Bytes → Option Bytes → Bool
unfolding ends_with_loop
str_ends_with none none = true
str_ends_with none (some p) = false
str_ends_with (some s) none = false
str_ends_with (some s) (some p) =
    if ltb (length s) (length p) then false else ends_with_loop s p (length p)

-- A string passes the prefix test exactly when it is the prefix followed by something.
str_starts_with_iff :
    (s p : Bytes) → (str_starts_with (some s) (some p) ≡ true) ↔ ((rest : Bytes) × (s ≡ p ++ rest))
unfolding str_starts_with
str_starts_with_iff s p = (
  λ h. (
    drop (length p) s,
    sym (take-append-drop (length p) s)
        ∙ ap (λ (l : Bytes). l ++ drop (length p) s) ((is_prefix_iff p s).0 h),
  ),
  λ r. (is_prefix_iff p s).1 (rw (r.1) (take-append p r.0)),
)

-- Positions from 1 to `n` of the suffix agree with the end of the string.
abbrev pub AgreeUpTo : Bytes → Bytes → ℕ → Type 0
AgreeUpTo s p n = (i : ℕ) → 0 < i → i ≤ n → char_at s (length s + i - length p) ≡ char_at p i

ends_with_loop_sound : (s p : Bytes) (n : ℕ) → ends_with_loop s p n ≡ true → AgreeUpTo s p n
unfolding ends_with_loop
ends_with_loop_sound s p zero h i lo hi = absurd (omega arith)
ends_with_loop_sound s p (suc n) h i lo hi =
    elim (Bool-cases (char_at s (length s + suc n - length p) == char_at p (suc n))) [
      | inl same ↦
          let rest : ends_with_loop s p n ≡ true = ground arith in
          elim (Bool-cases (i == suc n)) [
            | inl here ↦ let e : i ≡ suc n = ground arith in rw e (ground arith)
            | inr below ↦ ends_with_loop_sound s p n rest i lo (ground arith)
          ]
      | inr other ↦ absurd (false≢true (ground arith))
    ]

ends_with_loop_complete : (s p : Bytes) (n : ℕ) → AgreeUpTo s p n → ends_with_loop s p n ≡ true
unfolding ends_with_loop
ends_with_loop_complete s p zero a = refl
ends_with_loop_complete s p (suc n) a =
    let rest = ends_with_loop_complete s p n (λ i lo hi. a i lo (omega arith)) in
    ground (arith, a (suc n) (omega arith) (omega arith))

drop_cons :
    (s : Bytes) (k : ℕ) → k < length s → (d : ℕ) × (rest : Bytes) × (s ≡ take k s ++ d ∷ rest)
drop_cons [] k h = absurd (omega arith)
drop_cons (c ∷ s) zero h = (c, s, refl)
drop_cons (c ∷ s) (suc k) h =
    let (d, rest, e) = drop_cons s k (omega arith) in (d, rest, ap (◌∷◌ c) e)

agree_tail :
    (s stem q q' : Bytes) (c d : ℕ)
    → s ≡ stem ++ d ∷ q'
    → length q' ≡ length q
    → AgreeUpTo s (c ∷ q) (length (c ∷ q))
    → q' ≡ q
agree_tail s stem q q' c d e same a = list_ext 0 q' q same λ i lt.
    let pos : length s + suc i - suc (length q) ≡ length stem + suc i =
      omega (arith, ap length e, length-append stem (d ∷ q')) in
    sym (
      ap (λ (l : Bytes). get_or l (length stem + suc i) 0) e
      ∙ get_or-append_right stem (d ∷ q') (suc i) 0)
    ∙ ap (char_at s) (sym pos)
    ∙ a (suc i) (omega arith) (omega arith)

agree_of_tail :
    (s stem q : Bytes) (c d : ℕ) → s ≡ stem ++ d ∷ q → AgreeUpTo s (c ∷ q) (length (c ∷ q))
agree_of_tail s stem q c d e zero lo hi = absurd (omega arith)
agree_of_tail s stem q c d e (suc i) lo hi =
    let pos : length s + suc i - suc (length q) ≡ length stem + suc i =
      omega (arith, ap length e, length-append stem (d ∷ q)) in
    ap (char_at s) pos
    ∙ ap (λ (l : Bytes). get_or l (length stem + suc i) 0) e
    ∙ get_or-append_right stem (d ∷ q) (suc i) 0

-- The suffix test never compares the suffix's first character: a string passes it exactly when it
-- ends with some character followed by the rest of the suffix.
pub str_ends_with_iff :
    (s : Bytes) (c : ℕ) (q : Bytes)
    → (str_ends_with (some s) (some (c ∷ q)) ≡ true)
      ↔ ((stem : Bytes) × (d : ℕ) × (s ≡ stem ++ d ∷ q))
unfolding str_ends_with
str_ends_with_iff s c q = (there, back)
  where
    there :
        str_ends_with (some s) (some (c ∷ q)) ≡ true
        → (stem : Bytes) × (d : ℕ) × (s ≡ stem ++ d ∷ q)
    there h =
        let room : length (c ∷ q) ≤ length s = ground arith in
        let loop : ends_with_loop s (c ∷ q) (length (c ∷ q)) ≡ true = ground arith in
        let k = length s - length (c ∷ q) in
        let (d, q', e) = drop_cons s k (omega arith) in
        let same =
          agree_tail s (take k s) q q' c d e
            (omega (arith, ap length e, length-append (take k s) (d ∷ q'), length-take k s))
            (ends_with_loop_sound s (c ∷ q) (length (c ∷ q)) loop) in
        (take k s, d, e ∙ ap (λ (l : Bytes). take k s ++ d ∷ l) same)

    back :
        (stem : Bytes) × (d : ℕ) × (s ≡ stem ++ d ∷ q)
        → str_ends_with (some s) (some (c ∷ q)) ≡ true
    back (stem, d, e) =
        let len : length s ≡ length stem + suc (length q) =
          omega (arith, ap length e, length-append stem (d ∷ q)) in
        ground
          (arith, ends_with_loop_complete s (c ∷ q) (length (c ∷ q)) (agree_of_tail s stem q c d e))
