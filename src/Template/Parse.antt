-- ===== src/Template/Parse.antt =====
-- The parser of templates: `parse_indent`, `parse_if_elem`, `parse_for_elem` and `parse_normal_elem` of
-- server/template.c, and `holy_srender_by` without its cache. A pointer with its length is the text
-- from there on. Allocations succeed.
use holyhttp.Prelude.{
  ℕ, zero, suc, ◌+◌, ◌-◌, [], ◌∷◌, ◌++◌, Option, none, some, if◌then◌else◌, ltb, ◌==◌, ◌||◌, Bool,
  Bytes, codes, length, take, drop,
}
use holyhttp.Text.Letters.{is_upper, is_lower}
use holyhttp.Text.Decimal.{isdigit}
use holyhttp.Text.Search.{strnstr}
use holyhttp.Packet.Scan.{skip_space, scan_set, literal}
use holyhttp.Template.{
  IfOp, if_str2op, Compared, DataOps, Elem, text_elem, normal_elem, if_elem, for_elem, no_elem,
  Elems, no_more, more, tmpl_name_len, render_elem,
}

-- A line end in front and the blanks behind it: the text from the first other character on, and the
-- blanks.
unfoldable pub blanks_of : Bytes → Bytes × Bytes
blanks_of [] = ([], [])
blanks_of (c ∷ s) =
    let rest = blanks_of s in if c == b' ' || c == 9 then (rest.0, c ∷ rest.1) else (c ∷ s, [])

unfoldable pub parse_indent : Bytes → Bytes × Bytes
parse_indent [] = ([], [])
parse_indent (c ∷ s) = if c == 10 then blanks_of s else blanks_of (c ∷ s)

-- `strchr`.
unfoldable pub strchr : Bytes → ℕ → Option Bytes
strchr [] d = none
strchr (c ∷ s) d = let rest = strchr s d in if c == d then some (c ∷ s) else rest

-- The set `[@a-zA-Z0-9.]`, and that of the names of a loop.
unfoldable pub is_side_char : ℕ → Bool
is_side_char c = c == b'@' || is_lower c || is_upper c || isdigit c || c == b'.'

unfoldable pub is_item_char : ℕ → Bool
is_item_char c = isdigit c || is_lower c || is_upper c

unfoldable pub is_op_char : ℕ → Bool
is_op_char c = c == b'>' || c == b'<' || c == b'=' || c == b'!'

infixl 5 ◌>>=◌
abbrev ◌>>=◌ {ℓ κ} : {A : Type ℓ} {B : Type κ} → Option A → (A → Option B) → Option B
none >>= f = none
some a >>= f = f a

-- `sscanf (text, "#if %100[@a-zA-Z0-9.] %3[><=!] %100[@a-zA-Z0-9.]:", left, op_str, right)`.
unfoldable pub scan_if : Bytes → Option (Bytes × Bytes × Bytes)
scan_if text = do
  a ← literal (codes "#if") text
  (left, b) ← scan_set tmpl_name_len is_side_char (skip_space a)
  (op, c) ← scan_set 3 is_op_char (skip_space b)
  (right, d) ← scan_set tmpl_name_len is_side_char (skip_space c)
  some (left, op, right)

-- `sscanf (text, "#for @%100[0-9a-zA-Z] in @%100[0-9a-zA-Z.]:", item, list)`.
unfoldable pub scan_for : Bytes → Option (Bytes × Bytes)
scan_for text = do
  a ← literal (codes "#for") text
  b ← literal (codes "@") (skip_space a)
  (item, c) ← scan_set tmpl_name_len is_item_char b
  d ← literal (codes "in") (skip_space c)
  e ← literal (codes "@") (skip_space d)
  (list, f) ← scan_set tmpl_name_len (λ x. is_item_char x || x == b'.') e
  some (item, list)

-- A line end, the indent, a word and what ends it, in a buffer of 101 bytes.
unfoldable pub end_mark : Bytes → Bytes → Bytes
end_mark indent tail = take 100 (10 ∷ (indent ++ tail))

-- Where the `#end` of the indent begins, and the text behind it; one with a carriage return is
-- preferred.
unfoldable pub find_end : Bytes → Bytes → Option (ℕ × Bytes)
find_end indent text =
    let with_cr = end_mark indent (codes "#end" ++ (13 ∷ 10 ∷ [])) in
    let plain = end_mark indent (codes "#end" ++ (10 ∷ [])) in
    let second : Option (ℕ × Bytes) = elim (strnstr (some text) (some plain) (length text)) [
      | none ↦ none
      | some k ↦ some (k, drop (k + length plain) text)
    ] in
    elim (strnstr (some text) (some with_cr) (length text)) [
      | none ↦ second
      | some k ↦ some (k, drop (k + length with_cr) text)
    ]

-- The texts of the two branches, each with the line end behind it; `at` is where `#end` begins.
unfoldable pub split_branches : Bytes → Bytes → ℕ → Bytes × Option Bytes
split_branches indent body at =
    let mark = end_mark indent (codes "#else:") in
    elim (strnstr (some body) (some mark) at) [
      | none ↦ (take (at + 1) body, none)
      | some k ↦ (
        take (k + 1) body,
        some (take (at + 1 - (k + length mark)) (drop (k + length mark) body)),
      )
    ]

abbrev parse_else : (Bytes → Option Elem) → Option Bytes → Option Elem
parse_else parse none = some no_elem
parse_else parse (some text) = parse text

-- The element and the text behind it; `parse` parses the branches. The outer `none` is fuel that ran
-- out there, or a copy of a body whose length is negative; the inner one is that there is no such
-- element.
abbrev Parses : Type 0
Parses = Option (Option (Elem × Bytes))

unfoldable pub parse_branches :
    (Bytes → Option Elem) → Bytes → IfOp → Bytes → Bytes × Option Bytes → Bytes → Parses
parse_branches parse left op right texts next = do
  yes' ← parse texts.0
  no' ← parse_else parse texts.1
  some (some (if_elem left op right yes' no', next))

-- The head of an `#if`: its sides, its operator, and the text from the line end behind the colon on.
unfoldable pub if_head : Bytes → Option (Bytes × IfOp × Bytes × Bytes)
if_head text = do
  (left, op_str, right) ← scan_if text
  op ← if_str2op op_str
  colon ← strchr text b':'
  body ← strchr colon 10
  some (left, op, right, body)

unfoldable pub parse_if_elem : (Bytes → Option Elem) → Bytes → Parses
parse_if_elem parse text =
    let t = parse_indent text in
    elim (if_head t.0) [
      | none ↦ some none
      | some (left, op, right, body) ↦ elim (find_end t.1 body) [
        | none ↦ some none
        | some (at, next) ↦ parse_branches parse left op right (split_branches t.1 body at) next
      ]
    ]

-- The `#end` is looked for from the beginning of the element on, and the body ends with its line end.
-- Where that is before the line end behind the colon, the length of the body is negative.
unfoldable pub for_head : Bytes → Bytes → Option (Bytes × Bytes × Option Bytes × Bytes)
for_head indent text = do
  (item, list) ← scan_for text
  (at, next) ← find_end indent text
  colon ← strchr text b':'
  body ← strchr colon 10
  let start = length text - length body
  some (item, list, (if ltb at start then none else some (take (at + 1 - start) body)), next)

unfoldable pub parse_for_elem : (Bytes → Option Elem) → Bytes → Parses
parse_for_elem parse text =
    let t = parse_indent text in
    elim (for_head t.1 t.0) [
      | none ↦ some none
      | some (item, list, none, next) ↦ none
      | some (item, list, some body, next) ↦ elim (parse body) [
        | none ↦ none
        | some e ↦ some (some (for_elem item list e, next))
      ]
    ]

-- The next line end behind the first character: what is in front of it, and the text from it on.
unfoldable pub to_line_end : Bytes → Option (Bytes × Bytes)
to_line_end [] = none
to_line_end (c ∷ s) =
    let rest = to_line_end s in
    if c == 10
    then some ([], c ∷ s)
    else elim rest [ none ↦ none | some (front, back) ↦ some (c ∷ front, back) ]

unfoldable pub next_line : Bytes → Option (Bytes × Bytes)
next_line [] = none
next_line (c ∷ s) = elim (to_line_end s) [
  | none ↦ none
  | some (front, back) ↦ some (c ∷ front, back)
]

-- `list_add_tail`.
unfoldable pub add_tail : Elems → Elem → Elems
add_tail no_more e = more e no_more
add_tail (more d es) e = more d (add_tail es e)

-- The text between two elements, if there is any.
unfoldable pub add_text : (Bytes → Option Elem) → Bytes → Elems → Option Elems
add_text parse [] es = some es
add_text parse (c ∷ prev) es = elim (parse (c ∷ prev)) [
  | none ↦ none
  | some e ↦ some (add_tail es e)
]

-- Behind the loop: `prev` is the text that is in no element yet.
unfoldable pub finish : (Bytes → Option Elem) → Bytes → Bytes → Elems → Option Elem
finish parse whole prev no_more = some (text_elem whole)
finish parse whole prev (more e es) = elim (add_text parse prev (more e es)) [
  | none ↦ none
  | some all ↦ some (normal_elem all)
]

abbrev with_elem : (Bytes → Option Elem) → Bytes → Elems → Elem → Option Elems
with_elem parse prev es e = elim (add_text parse prev es) [
  | none ↦ none
  | some all ↦ some (add_tail all e)
]

-- The element at a position, an `#if` or else a `#for`.
unfoldable pub parse_elem : (Bytes → Option Elem) → Bytes → Parses
parse_elem parse pos = elim (parse_if_elem parse pos) [
  | none ↦ none
  | some (some r) ↦ some (some r)
  | some none ↦ parse_for_elem parse pos
]

-- The loop of `parse_normal_elem`: `prev` is the text from `prev` to `pos`.
unfoldable pub parse_loop : ℕ → (Bytes → Option Elem) → Bytes → Bytes → Bytes → Elems → Option Elem
parse_loop zero parse whole prev pos es = none
parse_loop (suc fuel) parse whole prev [] es = finish parse whole prev es
parse_loop (suc fuel) parse whole prev (c ∷ s) es = elim (parse_elem parse (c ∷ s)) [
  | none ↦ none
  | some (some (e, next)) ↦ elim (with_elem parse prev es e) [
    | none ↦ none
    | some all ↦ parse_loop fuel parse whole [] next all
  ]
  | some none ↦ elim (next_line (c ∷ s)) [
    | none ↦ finish parse whole (prev ++ c ∷ s) es
    | some (front, back) ↦ parse_loop fuel parse whole (prev ++ front) back es
  ]
]

-- On fuel for the depth of the elements; a round of the loop moves on by a character at least.
unfoldable pub parse_normal_elem : ℕ → Bytes → Option Elem
parse_normal_elem zero text = none
parse_normal_elem (suc fuel) text =
    parse_loop (suc (length text)) (parse_normal_elem fuel) text [] text no_more

-- `holy_srender_by` with the state of the data set behind it.
unfoldable pub srender_by :
    (S : Type 0) → DataOps S → (Bytes → Bytes → Compared) → ℕ → Bytes → S → Option (S × Bytes)
srender_by S ops atof fuel text s = elim (parse_normal_elem fuel text) [
  | none ↦ none
  | some e ↦
      let r = render_elem S ops atof e s in
      some (r.0, elim r.1 [ none ↦ [] | some result ↦ result ])
]
