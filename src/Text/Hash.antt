-- ===== src/Text/Hash.antt =====
-- The string hashes of utils/string.c: `holy_bkdr_hash` and `holy_bkdr_hash_bin`.
-- `char` is signed, as on the x86 targets of the build: a byte from 128 on is added as its
-- negative value, which in 32-bit arithmetic is the byte plus 2 ^ 32 - 256.
use holyhttp.Prelude.{
  ℕ, zero, suc, ◌+◌, ◌*◌, ◌-◌, ◌%◌, ◌^◌, ◌≡◌, refl, ◌∙◌, [], ◌∷◌, ◌++◌, Option, none, some, arith,
  if◌then◌else◌, ltb, ◌==◌, get_or, length, take, take_last, Bytes, ap, sym, ◌≤◌,
}
use mathlib.Core.List.{reverse, reverse-cons}

-- What one `char` adds to a `u32`.
unfoldable pub char_u32 : ℕ → ℕ
char_u32 c = if ltb c 128 then c else c + (2 ^ 32 - 256)

-- `hash * 131 + c` in 32 bits.
unfoldable pub hash_step : ℕ → ℕ → ℕ
unfolding char_u32
hash_step hash c = (hash * 131 + char_u32 c) % 2 ^ 32

unfoldable pub bkdr_loop : ℕ → Bytes → ℕ
bkdr_loop hash [] = hash
bkdr_loop hash (c ∷ s) = bkdr_loop (hash_step hash c) s

unfoldable pub bkdr_hash : Option Bytes → ℕ
bkdr_hash none = 0
bkdr_hash (some s) = bkdr_loop 0 s

-- `while (len--)`: the bytes are read from the last one down.
unfoldable pub bkdr_bin_loop : Bytes → ℕ → ℕ → ℕ
bkdr_bin_loop bin zero hash = hash
bkdr_bin_loop bin (suc len) hash = bkdr_bin_loop bin len (hash_step hash (get_or bin len 0))

unfoldable pub bkdr_hash_bin : Option Bytes → ℕ → ℕ
bkdr_hash_bin none len = 0
bkdr_hash_bin (some bin) len = if len == 0 then 0 else bkdr_bin_loop bin len 0

-- The same sum over unbounded numbers: each byte is weighed by a power of 131.
pub weigh : ℕ → Bytes → ℕ
weigh acc [] = acc
weigh acc (c ∷ s) = weigh (acc * 131 + char_u32 c) s

hash_step-mod : (acc c : ℕ) → hash_step (acc % 2 ^ 32) c ≡ (acc * 131 + char_u32 c) % 2 ^ 32
unfolding hash_step
hash_step-mod acc c = omega arith

bkdr_loop-weigh : (acc : ℕ) (s : Bytes) → bkdr_loop (acc % 2 ^ 32) s ≡ weigh acc s % 2 ^ 32
unfolding bkdr_loop weigh
bkdr_loop-weigh acc [] = refl
bkdr_loop-weigh acc (c ∷ s) = rw (hash_step-mod acc c) (bkdr_loop-weigh (acc * 131 + char_u32 c) s)

-- The hash of a string is the weighted sum of its characters, reduced once at the end: the
-- reduction in every round loses nothing.
pub bkdr_hash-weigh : (s : Bytes) → bkdr_hash (some s) ≡ weigh 0 s % 2 ^ 32
unfolding bkdr_hash
bkdr_hash-weigh s = bkdr_loop-weigh 0 s

bkdr_loop-append :
    (hash : ℕ) (a b : Bytes) → bkdr_loop hash (a ++ b) ≡ bkdr_loop (bkdr_loop hash a) b
unfolding bkdr_loop
bkdr_loop-append hash [] b = refl
bkdr_loop-append hash (c ∷ a) b = bkdr_loop-append (hash_step hash c) a b

reverse_last : (xs : Bytes) (x : ℕ) → reverse (xs ++ x ∷ []) ≡ x ∷ reverse xs
reverse_last [] x = refl
reverse_last (y ∷ xs) x =
    reverse-cons y (xs ++ x ∷ [])
    ∙ ap (λ (l : Bytes). l ++ y ∷ []) (reverse_last xs x)
    ∙ ap (◌∷◌ x) (sym (reverse-cons y xs))

bkdr_bin_loop-reverse :
    (bin : Bytes) (n hash : ℕ)
    → n ≤ length bin
    → bkdr_bin_loop bin n hash ≡ bkdr_loop hash (reverse (take n bin))
unfolding bkdr_bin_loop bkdr_loop
bkdr_bin_loop-reverse bin zero hash h = refl
bkdr_bin_loop-reverse bin (suc n) hash h =
    rw (take_last bin n 0 h, reverse_last (take n bin) (get_or bin n 0))
      (bkdr_bin_loop-reverse bin n (hash_step hash (get_or bin n 0)) (omega arith))

-- The hash of a block of memory is the string hash of its bytes read backwards, for every length
-- that the block has.
bkdr_hash_bin-reverse :
    (bin : Bytes) (len : ℕ)
    → len ≤ length bin
    → bkdr_hash_bin (some bin) len ≡ bkdr_hash (some (reverse (take len bin)))
unfolding bkdr_hash bkdr_hash_bin bkdr_loop
bkdr_hash_bin-reverse bin zero h = refl
bkdr_hash_bin-reverse bin (suc n) h = ground (arith, bkdr_bin_loop-reverse bin (suc n) 0 h)
