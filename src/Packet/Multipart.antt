-- ===== src/Packet/Multipart.antt =====
-- Multipart content: the second half of `parse_content` of server/packet.c. Pointers are positions in
-- the text of the request; `next` and `end` are positions behind the last byte.
use holyhttp.Prelude.{
  ℕ, zero, suc, ◌+◌, ◌-◌, List, [], ◌∷◌, ◌++◌, Option, none, some, if◌then◌else◌, ltb, ◌==◌, ◌&&◌,
  ◌||◌, not, Bool, Bytes, codes, length, get_or, take, drop, bytes_eq,
}
use holyhttp.Text.Decimal.{isdigit}
use holyhttp.Text.Letters.{is_upper, is_lower}
use holyhttp.Text.Search.{strnstr}
use holyhttp.Text.Affix.{str_starts_with}
use holyhttp.Tlv.{c_str}
use holyhttp.Packet.{Parsed, refused, parsed}
use holyhttp.Packet.Scan.{scan_set, literal}
use holyhttp.Packet.Fields.{max_field_name_len, crlf, crlf_twice}

unfoldable pub isalnum : ℕ → Bool
isalnum c = isdigit c || is_upper c || is_lower c

-- `holy_strnstr (pos, pattern, next - pos)`.
unfoldable pub search : Bytes → ℕ → Bytes → ℕ → Option ℕ
search text pos pattern' next = elim (strnstr (some (drop pos text)) (some pattern') (next - pos)) [
  | none ↦ none
  | some k ↦ some (pos + k)
]

abbrev pub name_key : Bytes
name_key = codes "name=\""

-- The loop that looks for a name which no letter or digit precedes; it searches again from where it
-- is. `none` is fuel that ran out.
unfoldable pub find_name : ℕ → Bytes → ℕ → ℕ → Option (Option ℕ)
find_name zero text pos next = none
find_name (suc fuel) text pos next = elim (search text pos name_key next) [
  | none ↦ some none
  | some p ↦
      let again = find_name fuel text p next in
      if ltb p next && isalnum (get_or text (p - 1) 0) then again else some (some p)
]

-- `sscanf (pos, "name=\"%50[^\"]", name)`.
unfoldable pub scan_name : Bytes → Option Bytes
scan_name s = elim (literal name_key s) [
  | none ↦ none
  | some r ↦ elim (scan_set max_field_name_len (λ c. not (c == b'"')) r) [
    | none ↦ none
    | some (name, q) ↦ some name
  ]
]

-- `set_sb` refuses a value without bytes.
unfoldable pub store_bin : Bytes → Bytes → List (Bytes × Bytes)
store_bin name [] = []
store_bin name (c ∷ data') = (name, c ∷ data') ∷ []

-- What one part from `pos` to `next` stores; a part without a name or without data is passed over.
unfoldable pub read_part : ℕ → Bytes → ℕ → ℕ → Option (List (Bytes × Bytes))
read_part fuel text pos next = elim (find_name fuel text pos next) [
  | none ↦ none
  | some none ↦ some []
  | some (some p) ↦ elim (scan_name (c_str (drop p text))) [
    | none ↦ some []
    | some name ↦ elim (search text p crlf_twice next) [
      | none ↦ some []
      | some q ↦ some (store_bin name (take (next - (q + 4)) (drop (q + 4) text)))
    ]
  ]
]

abbrev joined_parts :
    List (Bytes × Bytes) → Option (List (Bytes × Bytes)) → Option (List (Bytes × Bytes))
joined_parts ps none = none
joined_parts ps (some qs) = some (ps ++ qs)

-- The end of a part: the next delimiter, or the end of all parts.
unfoldable pub part_end : Bytes → Bytes → ℕ → ℕ → ℕ
part_end text delimiter pos end' = elim (search text pos delimiter end') [
  | none ↦ end'
  | some next ↦ next
]

-- The loop over the parts. The search within a part has fuel of its own.
unfoldable pub read_parts : ℕ → ℕ → Bytes → Bytes → ℕ → ℕ → Option (List (Bytes × Bytes))
read_parts zero inner text delimiter pos end' = none
read_parts (suc fuel) inner text delimiter pos end' =
    let next = part_end text delimiter pos end' in
    let rest = read_parts fuel inner text delimiter (next + length delimiter) end' in
    if ltb (pos + 1) end'
    then elim (read_part inner text pos next) [ none ↦ none | some ps ↦ joined_parts ps rest ]
    else some []

-- From the test of the last boundary on: `content` is where the content begins and `len` is its
-- length. (A header names its boundary, so it is longer than the delimiter, and the bytes in front of
-- a short content are the header's. The delimiter always fits in its buffer, since a boundary has at
-- most 100 characters.)
unfoldable pub parse_multipart :
    ℕ → ℕ → Bytes → ℕ → ℕ → Bytes → Option (Parsed (List (Bytes × Bytes)))
parse_multipart fuel inner text content len boundary =
    let last = crlf ++ (codes "--" ++ (boundary ++ (codes "--" ++ crlf))) in
    let first = codes "--" ++ (boundary ++ crlf) in
    let end' = content + len - length last in
    let parts = read_parts fuel inner text (crlf ++ first) (content + length first) end' in
    if not (bytes_eq (take (length last) (drop end' text)) last)
    then some (refused 400)
    else if not (str_starts_with (some (drop content text)) (some first))
    then some (refused 400)
    else elim parts [ none ↦ none | some ps ↦ some (parsed ps) ]
