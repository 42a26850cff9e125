-- ===== src/Packet/Fields.antt =====
-- The header fields: `parse_headers` and `parse_cookies` of server/packet.c. What they store in a
-- dictionary is the list of its stores, in order, of which the last one of a name counts.
use holyhttp.Prelude.{
  ℕ, ◌+◌, ◌-◌, ◌^◌, ◌%◌, List, [], ◌∷◌, Option, none, some, if◌then◌else◌, leb, ◌==◌, ◌||◌, not,
  Bool, Bytes, codes, length, bytes_eq, is_prefix, take, drop,
}
use holyhttp.Text.Decimal.{isdigit}
use holyhttp.Text.Letters.{str2lower}
use holyhttp.Text.Tokens.{tokens, char_is}
use holyhttp.Text.Trim.{trim}
use holyhttp.Packet.{
  Method, head_method, get_method, post_method, Parsed, refused, parsed, ◌>>=◌, required,
}
use holyhttp.Packet.Scan.{skip_space, span, scan_set, literal, digits_value, scan_sign}

-- `strstr`: the text from the first occurrence on.
unfoldable pub strstr : Bytes → Bytes → Option Bytes
strstr [] p = if is_prefix p [] then some [] else none
strstr (c ∷ s) p = let rest = strstr s p in if is_prefix p (c ∷ s) then some (c ∷ s) else rest

-- `get_ss` behind these stores.
unfoldable pub stored : List (Bytes × Bytes) → Bytes → Option Bytes
stored [] name = none
stored (p ∷ ps) name = elim (stored ps name) [
  | some value ↦ some value
  | none ↦ if bytes_eq p.0 name then some p.1 else none
]

abbrev pub max_field_name_len : ℕ
max_field_name_len = 50

abbrev pub max_field_value_len : ℕ
max_field_value_len = 250

abbrev pub crlf : Bytes
crlf = 13 ∷ 10 ∷ []

abbrev pub crlf_twice : Bytes
crlf_twice = 13 ∷ 10 ∷ 13 ∷ 10 ∷ []

-- A character of the set "\r\n".
abbrev pub is_line_end : ℕ → Bool
is_line_end c = c == 13 || c == 10

-- `sscanf (line, "%50[^:]:%*[ ]%250[^\r\n]", name, value)` where it converts both; the blanks are
-- needed.
unfoldable pub scan_field : Bytes → Option (Bytes × Bytes)
scan_field line = elim (scan_set max_field_name_len (λ c. not (c == b':')) line) [
  | none ↦ none
  | some (name, a) ↦ elim (literal (codes ":") a) [
    | none ↦ none
    | some b ↦ elim (scan_set (length b) (λ c. c == b' ') b) [
      | none ↦ none
      | some (blanks, c) ↦ elim (scan_set max_field_value_len (λ d. not (is_line_end d)) c) [
        | none ↦ none
        | some (value, d) ↦ some (str2lower name, value)
      ]
    ]
  ]
]

-- One entry for each line that has one.
unfoldable pub scan_all : (Bytes → Option (Bytes × Bytes)) → List Bytes → List (Bytes × Bytes)
scan_all scan [] = []
scan_all scan (line ∷ lines) = elim (scan line) [
  | none ↦ scan_all scan lines
  | some p ↦ p ∷ scan_all scan lines
]

-- The header from its first line end up to and with the blank line, and the content behind it.
unfoldable pub split_header : Bytes → Parsed (Bytes × Bytes)
split_header text = do
  start ← required 400 (strstr text crlf)
  end ← required 400 (strstr start crlf_twice)
  if length start == length end
      then refused 400
      else parsed (take (length start - length end + 4) start, drop 4 end)

-- `atoi` into a `u32`: a `long` that is cut to its low bits.
unfoldable pub atoi_u32 : Bytes → ℕ
unfolding skip_space scan_sign span digits_value
atoi_u32 s =
    let r = scan_sign (skip_space s) in
    let n = digits_value 0 (span (length r.1) isdigit r.1).0 in
    let clamped = if leb (2 ^ 63) n then (if r.0 then 2 ^ 63 else 2 ^ 63 - 1) else n in
    if r.0 then (2 ^ 64 - clamped) % 2 ^ 32 else clamped % 2 ^ 32

pub record ContentType : Type 0 where
  pub kind : Bytes
  pub subtype : Bytes
  pub param : Bytes

-- `sscanf (value, "%30[^/;]/%30[^;] %100[^\r\n]", ...)`; what is not converted stays empty.
unfoldable pub scan_content_type : Bytes → ContentType
scan_content_type value = elim (scan_set 30 (λ c. not (c == b'/' || c == b';')) value) [
  | none ↦ record { kind = []; subtype = []; param = [] }
  | some (kind, a) ↦ elim (literal (codes "/") a) [
    | none ↦ record { kind = kind; subtype = []; param = [] }
    | some b ↦ elim (scan_set 30 (λ c. not (c == b';')) b) [
      | none ↦ record { kind = kind; subtype = []; param = [] }
      | some (subtype, c) ↦ elim (scan_set 100 (λ d. not (is_line_end d)) (skip_space c)) [
        | none ↦ record { kind = kind; subtype = subtype; param = [] }
        | some (param, d) ↦ record { kind = kind; subtype = subtype; param = param }
      ]
    ]
  ]
]

pub record Headers : Type 0 where
  pub fields : List (Bytes × Bytes)
  pub content_length : ℕ
  pub content_type : ContentType
  pub content : Bytes

-- Only a POST request has a length.
unfoldable pub length_of : Method → List (Bytes × Bytes) → ℕ
length_of head_method fields = 0
length_of get_method fields = 0
length_of post_method fields = elim (stored fields (codes "content-length")) [
  | none ↦ 0
  | some value ↦ atoi_u32 value
]

unfoldable pub type_of : List (Bytes × Bytes) → ContentType
type_of fields = elim (stored fields (codes "content-type")) [
  | none ↦ record { kind = []; subtype = []; param = [] }
  | some value ↦ scan_content_type value
]

-- `room`: the copy of the header can be allocated.
unfoldable pub parse_headers : Bool → Method → Bytes → Parsed Headers
parse_headers room method text = do
  parts ← split_header text
  header ← if room then parsed parts.0 else refused 507
  let fields = scan_all scan_field (tokens is_line_end header)
  parsed (record {
    fields = fields;
    content_length = length_of method fields;
    content_type = type_of fields;
    content = parts.1;
  })

-- `sscanf (pair, "%50[^=]=%250[^;\r\n]", name, value)`; the value may be absent.
unfoldable pub scan_cookie : Bytes → Option (Bytes × Bytes)
scan_cookie pair = elim (scan_set max_field_name_len (λ c. not (c == b'=')) pair) [
  | none ↦ none
  | some (name, a) ↦ elim (literal (codes "=") a) [
    | none ↦ some (trim name b' ', [])
    | some b ↦ elim (scan_set max_field_value_len (λ c. not (c == b';' || is_line_end c)) b) [
      | none ↦ some (trim name b' ', [])
      | some (value, c) ↦ some (trim name b' ', value)
    ]
  ]
]

-- `room`: the copy of the field can be allocated; otherwise there are no cookies.
unfoldable pub parse_cookies : Bool → List (Bytes × Bytes) → List (Bytes × Bytes)
parse_cookies room fields = elim (stored fields (codes "cookie")) [
  | none ↦ []
  | some cookies ↦ if room then scan_all scan_cookie (tokens (char_is b';') cookies) else []
]
