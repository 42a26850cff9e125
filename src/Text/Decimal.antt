-- ===== src/Text/Decimal.antt =====
-- The test for decimal numbers: `holy_str_isdecimal` of utils/string.c.
use holyhttp.Prelude.{
  ℕ, zero, suc, ◌+◌, ◌≤◌, ◌≡◌, refl, [], ◌∷◌, ◌++◌, Option, none, some, arith, if◌then◌else◌, leb,
  ◌==◌, ◌&&◌, Bool, true, false, not, length, Bytes, Bool-cases, inl, inr, ap, sym, ◌∙◌, ◌↔◌, ◌⊎◌,
}
use mathlib.Core.Bool.{false≢true}

-- `isdigit` of the C library.
unfoldable pub isdigit : ℕ → Bool
isdigit c = leb b'0' c && leb c b'9'

-- The loop with its flag `dot`. The branch that accepts a dot does not step to the next character,
-- so the loop is on fuel; `none` means that the fuel ran out.
unfoldable pub isdecimal_loop : ℕ → Bool → Bytes → Option Bool
unfolding isdigit
isdecimal_loop zero dot s = none
isdecimal_loop (suc fuel) dot [] = some true
isdecimal_loop (suc fuel) dot (c ∷ s) =
    let stay = isdecimal_loop fuel true (c ∷ s) in
    let next = isdecimal_loop fuel dot s in
    if not dot && c == b'.' then stay else if not (isdigit c) then some false else next

-- `if (*str == '-') ++str;`
unfoldable pub skip_minus : Bytes → Bytes
skip_minus [] = []
skip_minus (c ∷ s) = if c == b'-' then s else c ∷ s

unfoldable pub isdecimal_digits : Bytes → Option Bool
unfolding isdecimal_loop isdigit
isdecimal_digits [] = some false
isdecimal_digits (c ∷ s) =
    if not (isdigit c) then some false else isdecimal_loop (length (c ∷ s) + 2) false (c ∷ s)

unfoldable pub str_isdecimal : Option Bytes → Option Bool
unfolding skip_minus isdecimal_digits
str_isdecimal none = some false
str_isdecimal (some []) = some false
str_isdecimal (some (c ∷ s)) = isdecimal_digits (skip_minus (c ∷ s))

unfoldable pub all_digits : Bytes → Bool
all_digits [] = true
all_digits (c ∷ s) = isdigit c && all_digits s

stuck_on_dot :
    (fuel c : ℕ) (s : Bytes)
    → (c == b'.') ≡ true
    → isdecimal_loop (suc fuel) true (c ∷ s) ≡ some false
unfolding isdecimal_loop
stuck_on_dot fuel c s h = ground arith

isdecimal_loop-all_digits :
    (fuel : ℕ) (s : Bytes) → length s + 2 ≤ fuel → isdecimal_loop fuel false s ≡ some (all_digits s)
unfolding isdecimal_loop all_digits
isdecimal_loop-all_digits zero s h = absurd (omega arith)
isdecimal_loop-all_digits (suc zero) s h = absurd (omega arith)
isdecimal_loop-all_digits (suc (suc fuel)) [] h = refl
isdecimal_loop-all_digits (suc (suc fuel)) (c ∷ s) h =
    ground (arith, isdecimal_loop-all_digits (suc fuel) s, stuck_on_dot fuel c s)

-- An integer numeral: digits, at least one, after at most one minus sign.
abbrev pub IsInteger : Bytes → Type 0
IsInteger s =
    (d : ℕ) × (ds : Bytes) × ((s ≡ d ∷ ds) ⊎ (s ≡ b'-' ∷ d ∷ ds))
    × (isdigit d ≡ true)
    × (all_digits ds ≡ true)

isdecimal_digits-all_digits :
    (c : ℕ) (s : Bytes) → isdecimal_digits (c ∷ s) ≡ some (all_digits (c ∷ s))
unfolding isdecimal_digits all_digits
isdecimal_digits-all_digits c s =
    ground (arith, isdecimal_loop-all_digits (length (c ∷ s) + 2) (c ∷ s))

minus_not_digit : isdigit b'-' ≡ false
unfolding isdigit
minus_not_digit = refl

-- What stands behind an optional minus sign decides: not empty, and digits alone.
digits_behind : Bytes → Bool
digits_behind [] = false
digits_behind (c ∷ s) = all_digits (c ∷ s)

str_isdecimal-digits_behind :
    (s : Bytes) → str_isdecimal (some s) ≡ some (digits_behind (skip_minus s))
unfolding str_isdecimal digits_behind
str_isdecimal-digits_behind [] = refl
str_isdecimal-digits_behind (c ∷ s) = go (skip_minus (c ∷ s))
  where
    go : (r : Bytes) → isdecimal_digits r ≡ some (digits_behind r)
    go [] = refl
    go (d ∷ r) = isdecimal_digits-all_digits d r

to_integer : (s r : Bytes) → (s ≡ r) ⊎ (s ≡ b'-' ∷ r) → digits_behind r ≡ true → IsInteger s
unfolding digits_behind all_digits
to_integer s [] e h = absurd (false≢true h)
to_integer s (d ∷ ds) e h = (d, ds, e, ground arith, ground arith)

skip_minus_cases : (s : Bytes) → (s ≡ skip_minus s) ⊎ (s ≡ b'-' ∷ skip_minus s)
unfolding skip_minus
skip_minus_cases [] = inl refl
skip_minus_cases (c ∷ s) = elim (Bool-cases (c == b'-')) [
  | inl minus ↦ rw minus (inr (ground arith))
  | inr other ↦ rw other (inl refl)
]

of_integer : (s : Bytes) → IsInteger s → digits_behind (skip_minus s) ≡ true
unfolding digits_behind skip_minus all_digits
of_integer s (d, ds, inl e, hd, hds) = elim (Bool-cases (d == b'-')) [
  | inl minus ↦
      let q : d ≡ b'-' = ground arith in
      absurd (false≢true (sym minus_not_digit ∙ ap isdigit (sym q) ∙ hd))
  | inr other ↦ ground arith
]
of_integer s (d, ds, inr e, hd, hds) = ground arith

-- The test always ends with an answer, although one branch of its loop does not step forward, and
-- the answer is yes exactly for digits, at least one, after at most one minus sign.
pub str_isdecimal_iff :
    (s : Bytes) → (b : Bool) × (str_isdecimal (some s) ≡ some b) × ((b ≡ true) ↔ IsInteger s)
str_isdecimal_iff s = (
  digits_behind (skip_minus s),
  str_isdecimal-digits_behind s,
  (to_integer s (skip_minus s) (skip_minus_cases s), of_integer s),
)

all_digits_dot : (a b : Bytes) → all_digits (a ++ b'.' ∷ b) ≡ false
unfolding all_digits isdigit
all_digits_dot [] b = refl
all_digits_dot (c ∷ a) b = ground (arith, all_digits_dot a b)

digits_behind_dot : (a b : Bytes) → digits_behind (a ++ b'.' ∷ b) ≡ false
unfolding digits_behind
digits_behind_dot [] b = all_digits_dot [] b
digits_behind_dot (c ∷ a) b = all_digits_dot (c ∷ a) b

skipped_dot : (a b : Bytes) → digits_behind (skip_minus (a ++ b'.' ∷ b)) ≡ false
unfolding skip_minus
skipped_dot [] b = digits_behind_dot [] b
skipped_dot (c ∷ a) b = elim (Bool-cases (c == b'-')) [
  | inl minus ↦ rw minus (digits_behind_dot a b)
  | inr other ↦ rw other (digits_behind_dot (c ∷ a) b)
]

-- No text with a decimal point passes the test, not even a number such as "1.5".
pub str_isdecimal_dot : (a b : Bytes) → str_isdecimal (some (a ++ b'.' ∷ b)) ≡ some false
str_isdecimal_dot a b = str_isdecimal-digits_behind (a ++ b'.' ∷ b) ∙ ap some (skipped_dot a b)
