-- ===== src/Text/Base64.antt =====
-- Numbers in base 64, least digit first: `s64` and `holy_uint_to_s64` of utils/string.c.
use holyhttp.Prelude.{
  ℕ, zero, suc, ◌+◌, ◌*◌, ◌/◌, ◌%◌, ◌^◌, ◌≤◌, ◌<◌, ◌≡◌, refl, [], ◌∷◌, ◌&&◌, arith, if◌then◌else◌,
  ◌==◌, Bool, true, length, Bytes, get_or, codes, ==_iff, Bool-cases, inl, inr,
}
use native.Mathlib.Nat.{pow-suc}

abbrev pub s64 : Bytes
s64 = codes "qwertyuiopasdfghjklzxcvbnmQWERTYUIOPASDFGHJKLZXCVBNM1234567890+-"

-- The loop with the rounds that its bound leaves. `n & 0x3f` is the remainder by 64.
unfoldable pub s64_loop : ℕ → ℕ → Bytes
s64_loop zero n = []
s64_loop (suc rounds) n =
    let rest = s64_loop rounds (n / 0x40) in if n == 0 then [] else get_or s64 (n % 0x40) 0 ∷ rest

-- `result` has 32 bytes, one of them for the NUL.
unfoldable pub uint_to_s64 : ℕ → Bytes
unfolding s64_loop
uint_to_s64 n = s64_loop 31 n

-- Reading a digit and a number back.
pub digit_of : Bytes → ℕ → ℕ
digit_of [] c = 0
digit_of (d ∷ s) c = if d == c then 0 else suc (digit_of s c)

pub from_s64 : Bytes → ℕ
from_s64 [] = 0
from_s64 (c ∷ s) = digit_of s64 c + 64 * from_s64 s

digits_below : ℕ → Bool
digits_below zero = true
digits_below (suc n) = (digit_of s64 (get_or s64 n 0) == n) && digits_below n

digits_below_sound : (n d : ℕ) → digits_below n ≡ true → d < n → digit_of s64 (get_or s64 d 0) ≡ d
unfolding digits_below
digits_below_sound zero d h lt = absurd (omega arith)
digits_below_sound (suc n) d h lt = elim (Bool-cases (d == n)) [
  | inl here ↦ let e : d ≡ n = (==_iff d n).0 here in rw e ((==_iff _ n).0 (ground arith))
  | inr below ↦ digits_below_sound n d (ground arith) (ground arith)
]

all_digits_differ : digits_below 64 ≡ true
unfolding digits_below digit_of
all_digits_differ = refl

digit_of-s64 : (d : ℕ) → d < 64 → digit_of s64 (get_or s64 d 0) ≡ d
digit_of-s64 d h = digits_below_sound 64 d all_digits_differ h

s64_loop-from_s64 : (rounds n : ℕ) → n < 64 ^ rounds → from_s64 (s64_loop rounds n) ≡ n
unfolding s64_loop from_s64
s64_loop-from_s64 zero n h = omega arith
s64_loop-from_s64 (suc k) n h = elim (Bool-cases (n == 0)) [
  | inl zero_left ↦ rw zero_left (ground arith)
  | inr more ↦ rw more (
      omega (
        arith,
        digit_of-s64 (n % 64) (omega arith),
        s64_loop-from_s64 k (n / 64) (omega (arith, pow-suc 64 k)),
      ))
]

length-s64_loop : (rounds j n : ℕ) → n < 64 ^ j → length (s64_loop rounds n) ≤ j
unfolding s64_loop
length-s64_loop zero j n h = omega arith
length-s64_loop (suc k) zero n h = ground arith
length-s64_loop (suc k) (suc j) n h =
    ground (arith, length-s64_loop k j (n / 64) (omega (arith, pow-suc 64 j)))

-- Every 64-bit number can be read back from its text, so distinct numbers have distinct texts.
pub uint_to_s64-from_s64 : (n : ℕ) → n < 2 ^ 64 → from_s64 (uint_to_s64 n) ≡ n
unfolding uint_to_s64
uint_to_s64-from_s64 n h = s64_loop-from_s64 31 n (omega arith)

-- A 64-bit number takes at most eleven characters, so the text fits the static buffer with its NUL.
pub length-uint_to_s64 : (n : ℕ) → n < 2 ^ 64 → length (uint_to_s64 n) ≤ 11
unfolding uint_to_s64
length-uint_to_s64 n h = length-s64_loop 31 11 n (omega arith)
