-- ===== src/Packet/Query.antt =====
-- Query strings, which `parse_query` of server/packet.c takes apart.
use holyhttp.Prelude.{
  ℕ, ◌/◌, ◌%◌, ◌<◌, ◌≡◌, refl, ◌≢◌, List, [], ◌∷◌, ◌++◌, ◌==◌, true, false, Bytes, All, All-append,
  IsText, ap, ◌∙◌, arith, Bool-cases, inl, inr,
}
use mathlib.Core.Path.{ap₂}
use holyhttp.Text.Tokens.{tokens, char_is, IsItem, tokens-item, tokens-last}
use holyhttp.Tlv.{c_str}
use holyhttp.Packet.{url_decode, split_pair, decode_pair, decode_pairs, query_pairs}
use holyhttp.Packet.Url.{url_encode, is_safe, hex_digit, url_decode-url_encode}

-- `name=value`, encoded.
abbrev pub pair_text : Bytes × Bytes → Bytes
pair_text p = url_encode p.0 ++ b'=' ∷ url_encode p.1

-- The pairs with an ampersand between them.
unfoldable pub query_text : List (Bytes × Bytes) → Bytes
query_text [] = []
query_text (p ∷ []) = pair_text p
query_text (p ∷ q ∷ ps) = pair_text p ++ b'&' ∷ query_text (q ∷ ps)

-- Neither an ampersand nor an equals sign.
abbrev IsPlain : ℕ → Type 0
IsPlain c = ((c == b'&') ≡ false) × ((c == b'=') ≡ false)

safe-IsPlain : (c : ℕ) → is_safe c ≡ true → IsPlain c
unfolding is_safe
safe-IsPlain c h = (ground arith, ground arith)

digit-IsPlain : (n : ℕ) → n < 16 → IsPlain (hex_digit n)
unfolding hex_digit
digit-IsPlain n h = (ground arith, ground arith)

url_encode-IsPlain : (s : Bytes) → IsText s → All IsPlain (url_encode s)
unfolding url_encode
url_encode-IsPlain [] h = tt
url_encode-IsPlain (c ∷ s) (h, hs) = elim (Bool-cases (is_safe c)) [
  | inl e ↦ rw e (safe-IsPlain c e, url_encode-IsPlain s hs)
  | inr e ↦ rw e (
    (refl, refl),
    (
      digit-IsPlain (c / 16) (omega (arith, h.1)),
      (digit-IsPlain (c % 16) (omega arith), url_encode-IsPlain s hs),
    ),
  )
]

no_ampersand : (s : Bytes) → All IsPlain s → All (λ c. char_is b'&' c ≡ false) s
no_ampersand [] h = tt
no_ampersand (c ∷ s) h = (h.0.0, no_ampersand s h.1)

-- A name without an equals sign is split from its value.
pub split_pair-item :
    (a b : Bytes) → All (λ c. (c == b'=') ≡ false) a → split_pair (a ++ b'=' ∷ b) ≡ (a, b)
unfolding split_pair
split_pair-item [] b h = refl
split_pair-item (c ∷ a) b (h, hs) = rw (h, split_pair-item a b hs) refl

no_equals : (s : Bytes) → All IsPlain s → All (λ c. (c == b'=') ≡ false) s
no_equals [] h = tt
no_equals (c ∷ s) h = (h.0.1, no_equals s h.1)

split_pair-text : (a b : Bytes) → All IsPlain a → split_pair (a ++ b'=' ∷ b) ≡ (a, b)
split_pair-text a b h = split_pair-item a b (no_equals a h)

pub c_str_text : (s : Bytes) → IsText s → c_str s ≡ s
unfolding c_str
c_str_text [] h = refl
c_str_text (c ∷ s) h =
    let e : (c == 0) ≡ false = ground arith in rw e (ap (◌∷◌ c) (c_str_text s h.1))

below_256 : (s : Bytes) → IsText s → All (λ c. c < 256) s
below_256 [] h = tt
below_256 (c ∷ s) h = (h.0.1, below_256 s h.1)

decode-encode : (s : Bytes) → IsText s → c_str (url_decode (url_encode s)) ≡ s
decode-encode s h = ap c_str (url_decode-url_encode s (below_256 s h)) ∙ c_str_text s h

decode_pair-pair_text :
    (p : Bytes × Bytes) → IsText p.0 → IsText p.1 → decode_pair (pair_text p) ≡ p
unfolding decode_pair
decode_pair-pair_text p h k =
    rw (split_pair-text (url_encode p.0) (url_encode p.1) (url_encode-IsPlain p.0 h))
      (ap₂ (λ a b. (a, b)) (decode-encode p.0 h) (decode-encode p.1 k))

not_empty : (a b : Bytes) → a ++ b'=' ∷ b ≢ []
not_empty [] b e = cc
not_empty (c ∷ a) b e = cc

pair_text-IsItem :
    (p : Bytes × Bytes) → IsText p.0 → IsText p.1 → IsItem (char_is b'&') (pair_text p)
pair_text-IsItem p h k = (
  not_empty (url_encode p.0) (url_encode p.1),
  All-append (λ c. char_is b'&' c ≡ false) (url_encode p.0) (b'=' ∷ url_encode p.1)
      (no_ampersand (url_encode p.0) (url_encode-IsPlain p.0 h))
      (refl, no_ampersand (url_encode p.1) (url_encode-IsPlain p.1 k)),
)

-- Parsing the query string of a list of pairs gives the pairs back, in order, whatever characters
-- the names and values are made of, when each is encoded in the usual way.
pub query_pairs-query_text :
    (ps : List (Bytes × Bytes))
    → All (λ (p : Bytes × Bytes). IsText p.0 × IsText p.1) ps
    → query_pairs (query_text ps) ≡ ps
unfolding query_pairs query_text decode_pairs tokens
query_pairs-query_text [] h = refl
query_pairs-query_text (p ∷ []) h =
    rw (tokens-last (char_is b'&') (pair_text p) (pair_text-IsItem p h.0.0 h.0.1))
      (ap (λ r. r ∷ []) (decode_pair-pair_text p h.0.0 h.0.1))
query_pairs-query_text (p ∷ q ∷ ps) h =
    rw
      (tokens-item (char_is b'&') (pair_text p) b'&' (query_text (q ∷ ps))
        (pair_text-IsItem p h.0.0 h.0.1) refl)
      (ap₂ (λ a b. a ∷ b) (decode_pair-pair_text p h.0.0 h.0.1)
        (query_pairs-query_text (q ∷ ps) h.1))
