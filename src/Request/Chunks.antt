-- ===== src/Request/Chunks.antt =====
-- Chunked responses of server/request.c, and how a client puts the content together.
use holyhttp.Prelude.{
  ℕ, zero, suc, ◌+◌, ◌-◌, ◌*◌, ◌/◌, ◌%◌, ◌^◌, ◌≤◌, ◌<◌, ◌≡◌, refl, List, [], ◌∷◌, ◌++◌, Option,
  none, some, if◌then◌else◌, ltb, ◌==◌, not, Bool, Bool-cases, true, false, Bytes, length,
  length-append, take, drop, take_all, take-append, All, ap, sym, ◌∙◌, inl, inr, arith, append-nil,
  append_assoc, flat,
}
use holyhttp.Text.Path.{str_append_fmt}
use holyhttp.Request.{
  Context, Response, digit_char, hexadecimal, show_hex, crlf, max_header_len, is_head, sent_content,
  response_head, response,
}

-- The responses to a list of contents, with the flag of the request passed on.
unfoldable pub send_chunks : Context → Response → Bool → List Bytes → Option (Bytes × Bool)
send_chunks ctx r opened [] = some ([], opened)
send_chunks ctx r opened (c ∷ cs) =
    elim (response true ctx opened true (record r { content = some c })) [
      | none ↦ none
      | some (text, next) ↦ elim (send_chunks ctx r next cs) [
        | none ↦ none
        | some (rest, last) ↦ some (text ++ rest, last)
      ]
    ]

-- The value of a hexadecimal digit.
unfoldable pub digit_of : ℕ → ℕ
digit_of c = if ltb c b'a' then c - b'0' else c - b'a' + 10

-- The number in front of a line end, and the text behind the line end.
unfoldable pub read_size : ℕ → Bytes → ℕ × Bytes
read_size n [] = (n, [])
read_size n (c ∷ s) =
    let more = read_size (n * 16 + digit_of c) s in if c == 13 then (n, drop 1 s) else more

-- The content of a chunked body, up to the chunk of length 0.
unfoldable pub unchunk : ℕ → Bytes → Option Bytes
unchunk zero s = none
unchunk (suc fuel) s =
    let r = read_size 0 s in
    elim (unchunk fuel (drop (r.0 + 2) r.1)) [
      | none ↦ if r.0 == 0 then some [] else none
      | some rest ↦ if r.0 == 0 then some [] else some (take r.0 r.1 ++ rest)
    ]

-- The number has at most so many hexadecimal digits.
abbrev HasDigits : ℕ → ℕ → Type 0
HasDigits zero n = ⊥
HasDigits (suc fuel) n = ltb n 16 ≡ false → HasDigits fuel (n / 16)

digit_of-digit_char :
    (d : ℕ) → d < 16 → (digit_of (digit_char d) ≡ d) × ((digit_char d == 13) ≡ false)
unfolding digit_of digit_char
digit_of-digit_char d h = (ground arith, ground arith)

read_size-hexadecimal :
    (fuel n : ℕ) (s : Bytes)
    → HasDigits fuel n
    → read_size 0 (hexadecimal fuel n ++ s) ≡ read_size n s
unfolding hexadecimal read_size
read_size-hexadecimal zero n s h = absurd h
read_size-hexadecimal (suc fuel) n s h = elim (Bool-cases (ltb n 16)) [
  | inl e ↦
      let d = digit_of-digit_char n (ground arith) in
      let same : 0 * 16 + digit_of (digit_char n) ≡ n = omega (arith, d.0) in
      rw (e, d.1) (ap (λ k. read_size k s) same)
  | inr e ↦
      let d = digit_of-digit_char (n % 16) (omega arith) in
      let same : n / 16 * 16 + digit_of (digit_char (n % 16)) ≡ n = omega (arith, d.0) in
      let last = digit_char (n % 16) in
      rw e (
        ap (read_size 0) (append_assoc (hexadecimal fuel (n / 16)) (last ∷ []) s)
        ∙ read_size-hexadecimal fuel (n / 16) (last ∷ s) (h e)
        ∙ rw (d.1) (ap (λ k. read_size k s) same))
]

word_HasDigits : (n : ℕ) → n < 2 ^ 32 → HasDigits 8 n
word_HasDigits n h = λ a b c d e f g k. ground arith

length-hexadecimal : (fuel n : ℕ) → length (hexadecimal fuel n) ≤ fuel
unfolding hexadecimal
length-hexadecimal zero n = omega arith
length-hexadecimal (suc fuel) n = elim (Bool-cases (ltb n 16)) [
  | inl e ↦ rw e (omega arith)
  | inr e ↦ rw e (
      omega (
        arith,
        length-append (hexadecimal fuel (n / 16)) (digit_char (n % 16) ∷ []),
        length-hexadecimal fuel (n / 16),
      ))
]

-- One chunk.
abbrev pub chunk : Bytes → Bytes
chunk c = show_hex (length c) ++ (crlf ++ (c ++ crlf))

response-chunk :
    (ctx : Context) (r : Response) (c : Bytes)
    → is_head ctx.method ≡ false
    → length c < 2 ^ 32 - 1025
    → response true ctx true true (record r { content = some c })
      ≡ some (chunk c, not (length c == 0))
unfolding response response_head sent_content str_append_fmt
response-chunk ctx r c h fits =
    let size : (max_header_len + length c) % 2 ^ 32 ≡ max_header_len + length c =
      omega (arith, fits) in
    let s = show_hex (length c) ++ crlf in
    let short : length s ≤ max_header_len + length c - 0 - 1 =
      omega (arith, length-append (show_hex (length c)) crlf, length-hexadecimal 8 (length c)) in
    rw (h, size, take_all (max_header_len + length c - 0 - 1) s short)
      (ap (λ t. some (t, not (length c == 0)))
        (append_assoc (show_hex (length c)) crlf (c ++ crlf)))

-- A content that makes a chunk: it has bytes, and the size of its buffer is a 32-bit number.
abbrev pub IsChunk : Bytes → Type 0
IsChunk c = (0 < length c) × (length c < 2 ^ 32 - 1025)

abbrev chunks_text : List Bytes → Bytes
chunks_text [] = chunk []
chunks_text (c ∷ cs) = chunk c ++ chunks_text cs

send_chunks-text :
    (ctx : Context) (r : Response) (cs : List Bytes)
    → is_head ctx.method ≡ false
    → All IsChunk cs
    → send_chunks ctx r true (cs ++ [] ∷ []) ≡ some (chunks_text cs, false)
unfolding send_chunks
send_chunks-text ctx r [] h k =
    rw (response-chunk ctx r [] h (omega arith), append-nil (chunk []), send_chunks) refl
send_chunks-text ctx r (c ∷ cs) h k =
    let more : (length c == 0) ≡ false = ground (arith, k.0.0) in
    rw (response-chunk ctx r c h k.0.1, more, send_chunks-text ctx r cs h k.1, send_chunks) refl

read_size-chunk :
    (c s : Bytes) → length c < 2 ^ 32 → read_size 0 (chunk c ++ s) ≡ (length c, c ++ (crlf ++ s))
unfolding read_size
read_size-chunk c s h =
    ap (read_size 0) (
      append_assoc (show_hex (length c)) (crlf ++ (c ++ crlf)) s
      ∙ ap (λ t. show_hex (length c) ++ (crlf ++ t)) (append_assoc c crlf s))
    ∙ read_size-hexadecimal 8 (length c) (crlf ++ (c ++ (crlf ++ s))) (word_HasDigits (length c) h)

drop_past : (xs ys : Bytes) (k : ℕ) → drop (length xs + k) (xs ++ ys) ≡ drop k ys
drop_past [] ys k = ap (λ n. drop n ys) (omega arith)
drop_past (x ∷ xs) ys k =
    let e : suc (length xs) + k ≡ suc (length xs + k) = omega arith in
    ap (λ n. drop n (x ∷ (xs ++ ys))) e ∙ drop_past xs ys k

unchunk_more :
    (fuel n : ℕ) (s r w : Bytes)
    → read_size 0 s ≡ (n, r)
    → (n == 0) ≡ false
    → unchunk fuel (drop (n + 2) r) ≡ some w
    → unchunk (suc fuel) s ≡ some (take n r ++ w)
unfolding unchunk
unchunk_more fuel n s r w e f g = rw (e, g, e, f) refl

unchunk-chunks_text :
    (cs : List Bytes)
    → All IsChunk cs
    → unchunk (suc (length cs)) (chunks_text cs) ≡ some (flat (λ c. c) cs)
unfolding unchunk
unchunk-chunks_text [] h =
    let e : read_size 0 (chunk []) ≡ (0, crlf) =
      ap (read_size 0) (sym (append-nil (chunk []))) ∙ read_size-chunk [] [] (omega arith) in
    rw (e, unchunk) refl
unchunk-chunks_text (c ∷ cs) h =
    let more : (length c == 0) ≡ false = ground (arith, h.0.0) in
    let rest = drop_past c (crlf ++ chunks_text cs) 2 in
    unchunk_more (suc (length cs)) (length c) (chunks_text (c ∷ cs)) (c ++ (crlf ++ chunks_text cs))
      (flat (λ d. d) cs) (read_size-chunk c (chunks_text cs) (omega (arith, h.0.1))) more
      (ap (unchunk (suc (length cs))) rest ∙ unchunk-chunks_text cs h.1)
    ∙ ap (λ t. some (t ++ flat (λ d. d) cs)) (take-append c (crlf ++ chunks_text cs))

-- On an open chunked response to a request that is not `HEAD`, chunks of 1 to 2 ^ 32 - 1026 bytes
-- followed by an empty one close it, and the body that has been sent is put together by a client to
-- the contents in their order.
pub send_chunks-unchunk :
    (ctx : Context) (r : Response) (cs : List Bytes)
    → is_head ctx.method ≡ false
    → All IsChunk cs
    → (text : Bytes) × (send_chunks ctx r true (cs ++ [] ∷ []) ≡ some (text, false))
      × (unchunk (suc (length cs)) text ≡ some (flat (λ c. c) cs))
send_chunks-unchunk ctx r cs h k =
    (chunks_text cs, send_chunks-text ctx r cs h k, unchunk-chunks_text cs k)
