-- ===== src/Packet/Url.antt =====
-- Percent-encoded texts, which `url_decode` of server/packet.c decodes.
use holyhttp.Prelude.{
  ℕ, zero, suc, ◌+◌, ◌-◌, ◌*◌, ◌/◌, ◌%◌, ◌<◌, ◌≡◌, refl, [], ◌∷◌, if◌then◌else◌, leb, ◌==◌, ◌&&◌,
  ◌||◌, Bool, true, false, Bytes, All, ap, ◌∙◌, arith, Bool-cases, inl, inr, ==_iff,
}
use Prim.Native.Nat.{bit_or}
use holyhttp.Text.Letters.{is_upper, is_lower}
use holyhttp.Text.Decimal.{isdigit}
use holyhttp.Packet.{hex2char, hex_byte, plain_char, url_decode}

-- Letters and digits stand for themselves.
unfoldable pub is_safe : ℕ → Bool
unfolding is_upper is_lower isdigit
is_safe c = is_upper c || is_lower c || isdigit c

-- The digit of a number below 16.
unfoldable pub hex_digit : ℕ → ℕ
hex_digit n = if leb n 9 then n + b'0' else n - 10 + b'A'

-- Every other byte becomes a percent sign with its two digits.
unfoldable pub url_encode : Bytes → Bytes
unfolding is_safe hex_digit
url_encode [] = []
url_encode (c ∷ s) =
    if is_safe c
    then c ∷ url_encode s
    else b'%' ∷ hex_digit (c / 16) ∷ hex_digit (c % 16) ∷ url_encode s

hex2char-hex_digit : (n : ℕ) → n < 16 → hex2char (hex_digit n) ≡ n
unfolding hex2char hex_digit
hex2char-hex_digit n h = ground arith

all_below : ℕ → (ℕ → Bool) → Bool
all_below zero p = true
all_below (suc n) p = p n && all_below n p

all_below_lem : (n : ℕ) (p : ℕ → Bool) → all_below n p ≡ true → (i : ℕ) → i < n → p i ≡ true
unfolding all_below
all_below_lem zero p h i k = absurd (omega arith)
all_below_lem (suc n) p h i k = elim (Bool-cases (i == n)) [
  | inl e ↦ rw ((==_iff i n).0 e) (ground arith)
  | inr e ↦ all_below_lem n p (ground arith) i (ground arith)
]

nibbles_ok : all_below 16 (λ h. all_below 16 (λ l. bit_or (h * 16 % 256) l == h * 16 + l)) ≡ true
unfolding all_below
nibbles_ok = refl

or_nibbles : (h l : ℕ) → h < 16 → l < 16 → bit_or (h * 16 % 256) l ≡ h * 16 + l
or_nibbles h l p q = (==_iff (bit_or (h * 16 % 256) l) (h * 16 + l)).0 (
    all_below_lem 16 (λ l. bit_or (h * 16 % 256) l == h * 16 + l)
      (all_below_lem 16 (λ h. all_below 16 (λ l. bit_or (h * 16 % 256) l == h * 16 + l)) nibbles_ok
        h p)
      l q)

hex_byte-hex_digit : (c : ℕ) → c < 256 → hex_byte (hex_digit (c / 16)) (hex_digit (c % 16)) ≡ c
unfolding hex_byte
hex_byte-hex_digit c h =
    rw (hex2char-hex_digit (c / 16) (omega arith), hex2char-hex_digit (c % 16) (omega arith))
      (or_nibbles (c / 16) (c % 16) (omega arith) (omega arith) ∙ omega arith)

safe_plain : (c : ℕ) → is_safe c ≡ true → ((c == b'%') ≡ false) × (plain_char c ≡ c)
unfolding is_safe plain_char
safe_plain c h = (ground arith, ground arith)

url_decode-safe : (c : ℕ) (s : Bytes) → is_safe c ≡ true → url_decode (c ∷ s) ≡ c ∷ url_decode s
unfolding url_decode
url_decode-safe c [] h = rw ((safe_plain c h).1) refl
url_decode-safe c (a ∷ []) h = rw ((safe_plain c h).1) refl
url_decode-safe c (a ∷ b ∷ s) h = rw ((safe_plain c h).0, (safe_plain c h).1) refl

-- Decoding gives back every sequence of bytes that is encoded in the usual way: letters and digits
-- as they are, every other byte as a percent sign with its two hexadecimal digits.
pub url_decode-url_encode : (s : Bytes) → All (λ c. c < 256) s → url_decode (url_encode s) ≡ s
unfolding url_encode url_decode
url_decode-url_encode [] h = refl
url_decode-url_encode (c ∷ s) (h, hs) = elim (Bool-cases (is_safe c)) [
  | inl e ↦ rw e (url_decode-safe c (url_encode s) e ∙ ap (◌∷◌ c) (url_decode-url_encode s hs))
  | inr e ↦ rw (e, hex_byte-hex_digit c h) (ap (◌∷◌ c) (url_decode-url_encode s hs))
]
