-- ===== src/Packet/Headers.antt =====
-- A header that is written out field by field, which `parse_headers` of server/packet.c reads.
use holyhttp.Prelude.{
  ℕ, ◌+◌, ◌-◌, ◌≤◌, ◌≡◌, refl, ◌≢◌, List, [], ◌∷◌, ◌++◌, some, ◌==◌, not, true, false, Bytes,
  length, length-append, take-append, is_prefix, take, All, All-append, ap, sym, ◌∙◌, arith,
  Bool-cases, inl, inr, append_assoc, map,
}
use holyhttp.Text.Letters.{str2lower}
use holyhttp.Text.Tokens.{tokens, tokens-item, tokens-delim, IsItem}
use holyhttp.Packet.{Method, parsed}
use holyhttp.Packet.Scan.{literal, scan_set-stop, scan_set-end}
use holyhttp.Packet.Fields.{
  strstr, crlf, crlf_twice, is_line_end, scan_field, scan_all, split_header, length_of, type_of,
  parse_headers,
}

-- A field that fits: the name has no colon, the value does not begin with a blank, and no line ends
-- in either.
abbrev pub IsField : Bytes × Bytes → Type 0
IsField p =
    (p.0 ≢ [])
    × (length p.0 ≤ 50)
    × All (λ c. (is_line_end c ≡ false) × (not (c == b':') ≡ true)) p.0
    × (p.1 ≢ [])
    × (length p.1 ≤ 250)
    × All (λ c. is_line_end c ≡ false) p.1
    × (take 1 p.1 ≢ b' ' ∷ [])

-- `name: value`.
abbrev pub field_text : Bytes × Bytes → Bytes
field_text p = p.0 ++ b':' ∷ b' ' ∷ p.1

-- Each field behind a line end, and what stands behind the last one.
unfoldable pub fields_text : List (Bytes × Bytes) → Bytes → Bytes
fields_text [] rest = rest
fields_text (p ∷ ps) rest = 13 ∷ 10 ∷ (field_text p ++ fields_text ps rest)

name_chars :
    (s : Bytes)
    → All (λ c. (is_line_end c ≡ false) × (not (c == b':') ≡ true)) s
    → All (λ c. not (c == b':') ≡ true) s
name_chars [] h = tt
name_chars (c ∷ s) (h, hs) = (h.1, name_chars s hs)

value_chars :
    (s : Bytes) → All (λ c. is_line_end c ≡ false) s → All (λ c. not (is_line_end c) ≡ true) s
value_chars [] h = tt
value_chars (c ∷ s) (h, hs) = (rw h refl, value_chars s hs)

no_blank : (c : ℕ) → c ∷ [] ≢ b' ' ∷ [] → (c == b' ') ≡ false
no_blank c h = elim (Bool-cases (c == b' ')) [
  | inl e ↦ let q : c ≡ b' ' = ground arith in absurd (h (rw q refl))
  | inr e ↦ e
]

scan_field-field_text :
    (p : Bytes × Bytes) → IsField p → scan_field (field_text p) ≡ some (str2lower p.0, p.1)
unfolding scan_field literal
scan_field-field_text (name, []) h = absurd (h.3 refl)
scan_field-field_text (name, c ∷ v) (some_name, short, chars, some_value, fits, ends, front) =
    rw
      (
        scan_set-stop 50 (λ c. not (c == b':')) name b':' (b' ' ∷ c ∷ v) some_name short
            (name_chars name chars) refl,
        scan_set-stop (length (b' ' ∷ c ∷ v)) (λ c. c == b' ') (b' ' ∷ []) c v (λ e. cc)
            (omega arith) (refl, tt) (no_blank c front),
        scan_set-end 250 (λ d. not (is_line_end d)) (c ∷ v) some_value fits
            (value_chars (c ∷ v) ends),
        scan_field,
      )
      refl

line_chars :
    (s : Bytes)
    → All (λ c. (is_line_end c ≡ false) × (not (c == b':') ≡ true)) s
    → All (λ c. is_line_end c ≡ false) s
line_chars [] h = tt
line_chars (c ∷ s) (h, hs) = (h.0, line_chars s hs)

field_chars : (p : Bytes × Bytes) → IsField p → All (λ c. is_line_end c ≡ false) (field_text p)
field_chars p h =
    All-append (λ c. is_line_end c ≡ false) p.0 (b':' ∷ b' ' ∷ p.1) (line_chars p.0 h.2)
      (refl, (refl, h.5))

not_empty : (a b : Bytes) → a ≢ [] → a ++ b ≢ []
not_empty [] b h = absurd (h refl)
not_empty (c ∷ a) b h = λ e. cc

line_IsItem : (p : Bytes × Bytes) → IsField p → IsItem is_line_end (field_text p)
line_IsItem p h = (not_empty p.0 (b':' ∷ b' ' ∷ p.1) h.0, field_chars p h)

-- `holy_str2lower (name)`.
unfoldable pub lower_names : List (Bytes × Bytes) → List (Bytes × Bytes)
lower_names [] = []
lower_names (p ∷ ps) = (str2lower p.0, p.1) ∷ lower_names ps

tokens_of_fields :
    (ps : List (Bytes × Bytes))
    → All IsField ps
    → tokens is_line_end (fields_text ps crlf_twice) ≡ map field_text ps
unfolding fields_text tokens
tokens_of_fields [] h = refl
tokens_of_fields (p ∷ []) h =
    tokens-delim is_line_end 13 (10 ∷ (field_text p ++ crlf_twice)) refl
    ∙ tokens-delim is_line_end 10 (field_text p ++ crlf_twice) refl
    ∙ tokens-item is_line_end (field_text p) 13 (10 ∷ crlf) (line_IsItem p h.0) refl
tokens_of_fields (p ∷ q ∷ ps) h =
    let rest = field_text q ++ fields_text ps crlf_twice in
    tokens-delim is_line_end 13 (10 ∷ (field_text p ++ 13 ∷ 10 ∷ rest)) refl
    ∙ tokens-delim is_line_end 10 (field_text p ++ 13 ∷ 10 ∷ rest) refl
    ∙ tokens-item is_line_end (field_text p) 13 (10 ∷ rest) (line_IsItem p h.0) refl
    ∙ ap (◌∷◌ (field_text p))
        (sym (tokens-delim is_line_end 13 (10 ∷ rest) refl) ∙ tokens_of_fields (q ∷ ps) h.1)

scan_all-fields :
    (ps : List (Bytes × Bytes))
    → All IsField ps
    → scan_all scan_field (map field_text ps) ≡ lower_names ps
unfolding scan_all lower_names
scan_all-fields [] h = refl
scan_all-fields (p ∷ ps) h = rw (scan_field-field_text p h.0, scan_all-fields ps h.1, scan_all) refl

strstr-skip :
    (w s : Bytes) (p : Bytes)
    → All (λ c. is_line_end c ≡ false) w
    → strstr (w ++ s) (13 ∷ p) ≡ strstr s (13 ∷ p)
unfolding strstr is_prefix
strstr-skip [] s p h = refl
strstr-skip (c ∷ w) s p h =
    let e : (13 == c) ≡ false = ground (arith, h.0) in rw (e, strstr-skip w s p h.1) refl

strstr-miss : (c : ℕ) (s p : Bytes) → is_prefix p (c ∷ s) ≡ false → strstr (c ∷ s) p ≡ strstr s p
unfolding strstr
strstr-miss c s p h = rw h refl

no_blank_line :
    (c : ℕ) (s : Bytes) → is_line_end c ≡ false → is_prefix crlf_twice (13 ∷ 10 ∷ c ∷ s) ≡ false
unfolding is_prefix
no_blank_line c s h = let e : (13 == c) ≡ false = ground (arith, h) in rw e refl

no_cr : (s : Bytes) → is_prefix crlf_twice (10 ∷ s) ≡ false
unfolding is_prefix
no_cr s = refl

strstr-fields :
    (ps : List (Bytes × Bytes)) (content : Bytes)
    → All IsField ps
    → strstr (fields_text ps (crlf_twice ++ content)) crlf_twice ≡ some (crlf_twice ++ content)
unfolding fields_text strstr is_prefix
strstr-fields [] content h = refl
strstr-fields (([], v) ∷ ps) content h = absurd (h.0.0 refl)
strstr-fields ((c ∷ n, v) ∷ ps) content h =
    let rest = fields_text ps (crlf_twice ++ content) in
    let line = n ++ b':' ∷ b' ' ∷ v in
    strstr-miss 13 (10 ∷ c ∷ (line ++ rest)) crlf_twice (no_blank_line c (line ++ rest) h.0.2.0.0)
    ∙ strstr-miss 10 (c ∷ (line ++ rest)) crlf_twice (no_cr (c ∷ (line ++ rest)))
    ∙ strstr-skip (c ∷ line) rest (10 ∷ crlf) (field_chars (c ∷ n, v) h.0)
    ∙ strstr-fields ps content h.1

fields_text-append :
    (ps : List (Bytes × Bytes)) (a b : Bytes) → fields_text ps (a ++ b) ≡ fields_text ps a ++ b
unfolding fields_text
fields_text-append [] a b = refl
fields_text-append (p ∷ ps) a b =
    ap (λ s. 13 ∷ 10 ∷ s)
      (ap (◌++◌ (field_text p)) (fields_text-append ps a b)
        ∙ sym (append_assoc (field_text p) (fields_text ps a) b))

length-fields_text : (ps : List (Bytes × Bytes)) (a : Bytes) → length a ≤ length (fields_text ps a)
unfolding fields_text
length-fields_text [] a = omega arith
length-fields_text (p ∷ ps) a =
    omega (arith, length-append (field_text p) (fields_text ps a), length-fields_text ps a)

strstr-crlf :
    (p : Bytes × Bytes) (ps : List (Bytes × Bytes)) (rest : Bytes)
    → strstr (fields_text (p ∷ ps) rest) crlf ≡ some (fields_text (p ∷ ps) rest)
unfolding strstr is_prefix fields_text
strstr-crlf p ps rest = refl

length-first_field :
    (p : Bytes × Bytes) (ps : List (Bytes × Bytes)) (a : Bytes)
    → length a + 2 ≤ length (fields_text (p ∷ ps) a)
unfolding fields_text
length-first_field p ps a =
    omega (arith, length-append (field_text p) (fields_text ps a), length-fields_text ps a)

-- The lengths around the blank line.
abbrev kept : Bytes → Bytes → ℕ
kept start content = length start - length (crlf_twice ++ content) + 4

kept_lem : (f content : Bytes) → 6 ≤ length f → kept (f ++ content) content ≡ length f
kept_lem f content h = omega (arith, length-append f content)

split_header-fields :
    (line : Bytes) (p : Bytes × Bytes) (ps : List (Bytes × Bytes)) (content : Bytes)
    → All (λ c. is_line_end c ≡ false) line
    → All IsField (p ∷ ps)
    → split_header (line ++ fields_text (p ∷ ps) (crlf_twice ++ content))
      ≡ parsed (fields_text (p ∷ ps) crlf_twice, content)
unfolding split_header
split_header-fields line p ps content h k =
    let start = fields_text (p ∷ ps) (crlf_twice ++ content) in
    let f = fields_text (p ∷ ps) crlf_twice in
    let e = fields_text-append (p ∷ ps) crlf_twice content in
    let big : 6 ≤ length f = length-first_field p ps crlf_twice in
    let l : length start ≡ length f + length content = ap length e ∙ length-append f content in
    let other : (length start == length (crlf_twice ++ content)) ≡ false = ground (arith, l, big) in
    let front : take (kept start content) start ≡ f =
      ap (λ (s : Bytes). take (kept s content) s) e
      ∙ ap (λ (n : ℕ). take n (f ++ content)) (kept_lem f content big)
      ∙ take-append f content in
    rw
      (
        strstr-skip line start (10 ∷ []) h,
        strstr-crlf p ps (crlf_twice ++ content),
        strstr-fields (p ∷ ps) content k,
        other,
        front,
      )
      refl

-- A header that is written out as a line and one or more fields, each a name of 1 to 50 characters, a
-- colon, a blank and a value of 1 to 250 characters, is read back: the fields are those that were
-- written, in order, with their names in lower case, and the content is what stands behind the blank
-- line. The line and the fields hold no line end, a name holds no colon, a value does not begin with a
-- blank, and the copy of the header can be allocated.
pub parse_headers-fields_text :
    (method : Method) (line : Bytes) (p : Bytes × Bytes) (ps : List (Bytes × Bytes))
    (content : Bytes)
    → All (λ c. is_line_end c ≡ false) line
    → All IsField (p ∷ ps)
    → parse_headers true method (line ++ fields_text (p ∷ ps) (crlf_twice ++ content))
      ≡ parsed (record {
        fields = lower_names (p ∷ ps);
        content_length = length_of method (lower_names (p ∷ ps));
        content_type = type_of (lower_names (p ∷ ps));
        content = content;
      })
unfolding parse_headers
parse_headers-fields_text method line p ps content h k =
    rw
      (
        split_header-fields line p ps content h k,
        tokens_of_fields (p ∷ ps) k,
        scan_all-fields (p ∷ ps) k,
      )
      refl
