-- ===== src/Request/Fits.antt =====
-- The buffer of `response` in server/request.c: what is cut from a header, and whether the content
-- fits behind it.
use holyhttp.Prelude.{
  ◌%◌, ◌^◌, ℕ, zero, suc, ◌+◌, ◌-◌, ◌≤◌, ◌<◌, min, ◌≡◌, refl, List, [], ◌∷◌, ◌++◌, some, Bool,
  Bool-cases, leb, true, false, Bytes, codes, length, length-append, length-take, take, take_all,
  ap, sym, ◌∙◌, ◌↔◌, ◌⊎◌, inl, inr, arith, append-nil, append_assoc, flat,
}
use holyhttp.Text.Path.{str_append_fmt}
use holyhttp.Request.{
  Context, Response, append_all, head_pieces, sent_content, response_head, response, header,
  show_u32, crlf, max_header_len,
}

take-append_over :
    (n : ℕ) (xs ys : Bytes) → length xs ≤ n → take n (xs ++ ys) ≡ xs ++ take (n - length xs) ys
take-append_over n [] ys h = ap (λ k. take k ys) (omega arith)
take-append_over zero (x ∷ xs) ys h = absurd (omega arith)
take-append_over (suc n) (x ∷ xs) ys h =
    let e : n - length xs ≡ suc n - suc (length xs) = omega arith in
    ap (◌∷◌ x) (take-append_over n xs ys (omega arith) ∙ ap (λ k. xs ++ take k ys) e)

take-nil : (n : ℕ) → take {A = ℕ} n [] ≡ []
take-nil zero = refl
take-nil (suc n) = refl

take-take_append : (n : ℕ) (xs ys : Bytes) → take n (take n xs ++ ys) ≡ take n (xs ++ ys)
take-take_append zero xs ys = refl
take-take_append (suc n) [] ys = refl
take-take_append (suc n) (x ∷ xs) ys = ap (◌∷◌ x) (take-take_append n xs ys)

str_append_fmt-take :
    (size : ℕ) (buf s : Bytes)
    → length buf < size
    → str_append_fmt size buf s ≡ take (size - 1) (buf ++ s)
unfolding str_append_fmt
str_append_fmt-take size buf s h =
    let e : size - length buf - 1 ≡ size - 1 - length buf = omega arith in
    ap (λ k. buf ++ take k s) e ∙ sym (take-append_over (size - 1) buf s (omega arith))

-- The pieces one behind the other.
abbrev pub joined : List Bytes → Bytes
joined pieces = flat (λ s. s) pieces

append_all-take :
    (size : ℕ) (buf : Bytes) (pieces : List Bytes)
    → length buf < size
    → append_all size buf pieces ≡ take (size - 1) (buf ++ joined pieces)
unfolding append_all
append_all-take size buf [] h =
    sym (ap (take (size - 1)) (append-nil buf) ∙ take_all (size - 1) buf (omega arith))
append_all-take size buf (s ∷ pieces) h =
    let cut = take (size - 1) (buf ++ s) in
    let short : length cut < size = omega (arith, length-take (size - 1) (buf ++ s)) in
    ap (λ (b : Bytes). append_all size b pieces) (str_append_fmt-take size buf s h)
    ∙ append_all-take size cut pieces short
    ∙ take-take_append (size - 1) (buf ++ s) (joined pieces)
    ∙ ap (take (size - 1)) (append_assoc buf s (joined pieces))

-- The whole header, as it would be in a buffer without an end.
unfoldable pub head_text : Context → Response → Bytes
head_text ctx r =
    joined (head_pieces ctx r)
    ++ header (codes "Content-Length: ") (show_u32 (length (sent_content ctx r)) ++ crlf)

response_head-take :
    (ctx : Context) (opened : Bool) (r : Response)
    → length (sent_content ctx r) < 2 ^ 32 - 1025
    → response_head ctx opened false r
      ≡ (take (max_header_len + length (sent_content ctx r) - 1) (head_text ctx r), opened)
unfolding response_head head_text
response_head-take ctx opened r fits =
    let size = max_header_len + length (sent_content ctx r) in
    let all = joined (head_pieces ctx r) in
    let last = header (codes "Content-Length: ") (show_u32 (length (sent_content ctx r)) ++ crlf) in
    let short : length (take (size - 1) all) < size = omega (arith, length-take (size - 1) all) in
    let e : size % 2 ^ 32 ≡ size = omega (arith, fits) in
    rw e (
      ap (λ (b : Bytes). (b, opened))
        (ap (λ (b : Bytes). str_append_fmt size b last)
            (append_all-take size [] (head_pieces ctx r) (omega arith))
          ∙ str_append_fmt-take size (take (size - 1) all) last short
          ∙ take-take_append (size - 1) all last))

-- A response that is not chunked is its header followed by its content, and both fit in the buffer,
-- where the header is shorter than 1024 bytes and the size of the buffer does not wrap around.
pub response-head_text :
    (ctx : Context) (opened : Bool) (r : Response)
    → length (sent_content ctx r) < 2 ^ 32 - 1025
    → length (head_text ctx r) < 1024
    → (response true ctx opened false r ≡ some (head_text ctx r ++ sent_content ctx r, opened))
      × (length (head_text ctx r ++ sent_content ctx r) ≤ 1024 + length (sent_content ctx r))
unfolding response
response-head_text ctx opened r fits l =
    let all =
      take_all (max_header_len + length (sent_content ctx r) - 1) (head_text ctx r)
        (omega (arith, l)) in
    (
      rw (response_head-take ctx opened r fits, all, append-nil (sent_content ctx r)) refl,
      omega (arith, l, length-append (head_text ctx r) (sent_content ctx r)),
    )

long_or_short : (h n : ℕ) → min (1024 + n - 1) h + n ≤ 1024 + n + 1 → (h ≤ 1025) ⊎ (n ≤ 2)
long_or_short h n e = elim (Bool-cases (leb n 2)) [
  | inl a ↦ inr (ground arith)
  | inr b ↦ let many : 2 < n = ground arith in inl (omega (arith, many, e))
]

-- Without a limit on the header, the bytes of a response that is not chunked, with a content shorter
-- than 2 ^ 32 - 1025 bytes, stay within the allocated buffer exactly if the header is no longer than 1025 bytes or the content no longer than 2: a longer
-- header is cut only behind the room for the content, which is then written past the end.
pub response_overflow :
    (ctx : Context) (opened : Bool) (r : Response)
    → length (sent_content ctx r) < 2 ^ 32 - 1025
    → (text : Bytes) × (response true ctx opened false r ≡ some (text, opened))
      × ((length text ≤ 1024 + length (sent_content ctx r) + 1)
          ↔ ((length (head_text ctx r) ≤ 1025) ⊎ (length (sent_content ctx r) ≤ 2)))
unfolding response
response_overflow ctx opened r room =
    let content = sent_content ctx r in
    let n = max_header_len + length content - 1 in
    let head = take n (head_text ctx r) in
    let l = length-append head content in
    let k = length-take n (head_text ctx r) in
    (
      head ++ content,
      rw (response_head-take ctx opened r room, append-nil content) refl,
      (
        λ fits.
            long_or_short (length (head_text ctx r)) (length content) (omega (arith, fits, l, k)),
        λ e. elim e [ inl a ↦ omega (arith, a, l, k) | inr b ↦ omega (arith, b, l, k) ],
      ),
    )
