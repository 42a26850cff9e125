-- ===== src/Template.antt =====
-- The rendering of templates: the first half of server/template.c. A template is a tree of elements;
-- the data set it is rendered with is a parameter.
pub mod Pieces
pub mod Parse
pub mod Plain
pub mod Named
pub mod Cached
pub mod Args
use holyhttp.Prelude.{
  ℕ, ◌+◌, ◌≡◌, refl, List, [], ◌∷◌, ◌++◌, Option, none, some, if◌then◌else◌, ltb, leb, ◌==◌, ◌&&◌,
  ◌||◌, not, Bool, true, false, Bytes, codes, length, take, drop, bytes_eq,
}
use holyhttp.Text.Letters.{is_upper, is_lower, str_append}
use holyhttp.Text.Decimal.{isdigit, str_isdecimal}
use holyhttp.Text.Tokens.{tokens, char_is}
use holyhttp.Packet.Scan.{scan_set, literal}

-- `if_op_t`.
pub data IfOp : Type 0 where
  op_eq op_ne op_gt op_lt op_ge op_le : IfOp

-- `none` is `IF_OP_INVALID`.
unfoldable pub if_str2op : Bytes → Option IfOp
if_str2op s =
    if bytes_eq s (codes "=")
    then some op_eq
    else if bytes_eq s (codes "!=")
    then some op_ne
    else if bytes_eq s (codes ">")
    then some op_gt
    else if bytes_eq s (codes "<")
    then some op_lt
    else if bytes_eq s (codes ">=")
    then some op_ge
    else if bytes_eq s (codes "<=")
    then some op_le
    else none

-- The order of two values: of what `atof` reads, or of `strcmp`.
pub data Compared : Type 0 where
  is_less is_same is_more : Compared

unfoldable pub strcmp : Bytes → Bytes → Compared
strcmp [] [] = is_same
strcmp [] (d ∷ t) = is_less
strcmp (c ∷ s) [] = is_more
strcmp (c ∷ s) (d ∷ t) =
    let rest = strcmp s t in if c == d then rest else if ltb c d then is_less else is_more

unfoldable pub op_holds : IfOp → Compared → Bool
op_holds op_eq is_same = true
op_holds op_eq is_less = false
op_holds op_eq is_more = false
op_holds op_ne is_same = false
op_holds op_ne is_less = true
op_holds op_ne is_more = true
op_holds op_gt is_more = true
op_holds op_gt is_same = false
op_holds op_gt is_less = false
op_holds op_lt is_less = true
op_holds op_lt is_same = false
op_holds op_lt is_more = false
op_holds op_ge is_less = false
op_holds op_ge is_same = true
op_holds op_ge is_more = true
op_holds op_le is_more = false
op_holds op_le is_same = true
op_holds op_le is_less = true

unfoldable pub is_decimal : Bytes → Bool
is_decimal s = elim (str_isdecimal (some s)) [ none ↦ false | some b ↦ b ]

-- The test of `if_elem_true` on its two rendered sides; `atof` is how two numbers compare.
unfoldable pub if_holds : (Bytes → Bytes → Compared) → IfOp → Bytes → Bytes → Bool
if_holds atof op left right =
    op_holds op (if is_decimal left && is_decimal right then atof left right else strcmp left right)

abbrev pub tmpl_name_len : ℕ
tmpl_name_len = 100

-- The set `[a-zA-Z0-9_.]`.
unfoldable pub is_name_char : ℕ → Bool
is_name_char c = is_lower c || is_upper c || isdigit c || c == b'_' || c == b'.'

-- `sscanf (item, "{%98[^}]%1[\\}]", name, end)`: the second set has a backslash too.
unfoldable pub scan_braces : Bytes → Option (Bytes × ℕ)
scan_braces item = elim (literal (codes "{") item) [
  | none ↦ none
  | some a ↦ elim (scan_set 98 (λ c. not (c == b'}')) a) [
    | none ↦ none
    | some (name, b) ↦ elim (scan_set 1 (λ c. c == b'}' || c == 92) b) [
      | none ↦ none
      | some (end', d) ↦ some (name, length name + 2)
    ]
  ]
]

-- The name at the front of an item, and how many characters it takes there.
unfoldable pub scan_var : Bytes → Option (Bytes × ℕ)
scan_var item = elim (scan_set tmpl_name_len is_name_char item) [
  | none ↦ scan_braces item
  | some (name, rest) ↦ some (name, length name)
]

abbrev pub for_item_name_prefix : Bytes
for_item_name_prefix = codes ":for:"

-- The value of a loop's item, or else of the name itself. `for_name` is cut to 100 characters.
unfoldable pub value_of : (Bytes → Option Bytes) → Bytes → Option Bytes
value_of get name = elim (get (take tmpl_name_len (for_item_name_prefix ++ name))) [
  | none ↦ get name
  | some value ↦ some value
]

-- What is put for an item behind an at sign.
unfoldable pub render_item : (Bytes → Option Bytes) → Bytes → Bytes
render_item get item = elim (scan_var item) [
  | none ↦ b'@' ∷ item
  | some (name, nlen) ↦ elim (value_of get name) [
    | none ↦ b'@' ∷ item
    | some value ↦ value ++ drop nlen item
  ]
]

unfoldable pub render_items : (Bytes → Option Bytes) → List Bytes → Option Bytes → Option Bytes
render_items get [] result = result
render_items get (item ∷ items) result =
    render_items get items (str_append true result (some (render_item get item)))

-- The text of an element without children; the first item is a text if no at sign is in front of it.
unfoldable pub render_text : (Bytes → Option Bytes) → Bytes → Option Bytes
render_text get [] = none
render_text get (c ∷ s) =
    let items = tokens (char_is b'@') (c ∷ s) in
    let mixed : Option Bytes = elim items [
      | [] ↦ none
      | item ∷ rest ↦ render_items get rest (str_append true none (some item))
    ] in
    if c == b'@' then render_items get items none else mixed

-- A child of a list: a value, or a subset at an address.
pub data Child : Type 0 where
  leaf : Bytes → Child
  subset : ℕ → Child

-- What the rendering uses of a data set with states `S`: `get`, `set` of an item (which shares a
-- subset), taking the item away, and the calls of `foreach_by`.
pub record DataOps (S : Type 0) : Type 0 where
  pub get : S → Bytes → Option Bytes
  pub set_item : S → Bytes → Child → S
  pub unset_item : S → Bytes → S
  pub children : S → Bytes → List Child

-- The elements of a template. `no_elem` is an `#else` that is not there.
mutual
  pub data Elem : Type 0 where
    text_elem : Bytes → Elem
    normal_elem : Elems → Elem
    if_elem : Bytes → IfOp → Bytes → Elem → Elem → Elem
    for_elem : Bytes → Bytes → Elem → Elem
    no_elem : Elem

  pub data Elems : Type 0 where
    no_more : Elems
    more : Elem → Elems → Elems

module _ (S : Type 0) (ops : DataOps S) (atof : Bytes → Bytes → Compared) where
  -- `holy_srender_by` of a side of a condition, which has no command in it.
  unfoldable pub render_side : Bytes → S → Bytes
  render_side side s = elim (render_text (ops.get s) side) [ none ↦ [] | some text ↦ text ]

  -- `_render_each_item` for each child.
  unfoldable pub render_each :
      (S → S × Option Bytes) → Bytes → List Child → S → Option Bytes → S × Option Bytes
  render_each body item_name [] s result = (s, result)
  render_each body item_name (c ∷ cs) s result =
      let r = body (ops.set_item s item_name c) in
      render_each body item_name cs r.0 (str_append true result r.1)

  unfoldable pub item_name_of : Bytes → Bytes
  item_name_of item = take 99 (for_item_name_prefix ++ item)

  unfoldable mutual
    pub render_elem : Elem → S → S × Option Bytes
    render_elem (text_elem text) s = (s, render_text (ops.get s) text)
    render_elem (normal_elem es) s = render_elems es s none
    render_elem (if_elem left op right yes' no') s =
        let a = render_elem yes' s in
        let b = render_elem no' s in
        if if_holds atof op (render_side left s) (render_side right s) then a else b
    render_elem (for_elem item list body) s =
        let r = render_each (render_elem body) (item_name_of item) (ops.children s list) s none in
        (ops.unset_item r.0 (item_name_of item), r.1)
    render_elem no_elem s = (s, none)

    pub render_elems : Elems → S → Option Bytes → S × Option Bytes
    render_elems no_more s result = (s, result)
    render_elems (more e es) s result =
        let r = render_elem e s in render_elems es r.0 (str_append true result r.1)
