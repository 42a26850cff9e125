-- ===== src/Template/Pieces.antt =====
-- Texts with names in them, which `render_normal_elem` of server/template.c fills in.
use holyhttp.Prelude.{
  ◌≤◌, ◌≡◌, refl, ◌≢◌, List, [], ◌∷◌, ◌++◌, Option, some, true, false, Bytes, length, drop-append,
  All, All-append, ap, sym, ◌∙◌, arith, append-nil, append_assoc, map,
}
use holyhttp.Text.Letters.{is_upper, is_lower, str_append}
use holyhttp.Text.Decimal.{isdigit}
use holyhttp.Text.Tokens.{tokens, char_is, IsItem, tokens-item, tokens-last}
use holyhttp.Packet.Scan.{scan_set, scan_set-stop, scan_set-end}
use holyhttp.Template.{is_name_char, scan_var, value_of, render_item, render_items, render_text}

-- A name, what stands behind it up to the next at sign, and the value that it has.
pub record Piece : Type 0 where
  pub name : Bytes
  pub rest : Bytes
  pub value : Bytes

-- The name ends where it should: no character that could be part of it follows.
abbrev pub EndsName : Bytes → Type 0
EndsName [] = Unit {0}
EndsName (c ∷ s) = is_name_char c ≡ false

pub record IsPiece (get : Bytes → Option Bytes) (p : Piece) : Type 0 where
  pub some_name : p.name ≢ []
  pub short : length p.name ≤ 100
  pub chars : All (λ c. is_name_char c ≡ true) p.name
  pub ends : EndsName p.rest
  pub plain : All (λ c. char_is b'@' c ≡ false) p.rest
  pub known : value_of get p.name ≡ some p.value

abbrev item_of : Piece → Bytes
item_of p = p.name ++ p.rest

-- The text of the pieces, and what it stands for.
abbrev pub pieces_text : List Piece → Bytes
pieces_text [] = []
pieces_text (p ∷ ps) = b'@' ∷ (item_of p ++ pieces_text ps)

abbrev pub filled : List Piece → Bytes
filled [] = []
filled (p ∷ ps) = (p.value ++ p.rest) ++ filled ps

no_at_sign : (s : Bytes) → All (λ c. is_name_char c ≡ true) s → All (λ c. char_is b'@' c ≡ false) s
unfolding is_name_char is_upper is_lower isdigit
no_at_sign [] h = tt
no_at_sign (c ∷ s) (h, hs) = (ground (arith, h), no_at_sign s hs)

not_empty : (a b : Bytes) → a ≢ [] → a ++ b ≢ []
not_empty [] b h = absurd (h refl)
not_empty (c ∷ a) b h = λ e. cc

module _ (get : Bytes → Option Bytes) where
  item_of-IsItem : (p : Piece) → IsPiece get p → IsItem (char_is b'@') (item_of p)
  item_of-IsItem p h = (
    not_empty p.name p.rest h.some_name,
    All-append (λ c. char_is b'@' c ≡ false) p.name p.rest (no_at_sign p.name h.chars) h.plain,
  )

  tokens-pieces_text :
      (w : Bytes) (ps : List Piece)
      → IsItem (char_is b'@') w
      → All (IsPiece get) ps
      → tokens (char_is b'@') (w ++ pieces_text ps) ≡ w ∷ map item_of ps
  tokens-pieces_text w [] i h =
      ap (tokens (char_is b'@')) (append-nil w) ∙ tokens-last (char_is b'@') w i
  tokens-pieces_text w (p ∷ ps) i h =
      tokens-item (char_is b'@') w b'@' (item_of p ++ pieces_text ps) i refl
      ∙ ap (◌∷◌ w) (tokens-pieces_text (item_of p) ps (item_of-IsItem p h.0) h.1)

  scan_name_set :
      (name rest : Bytes)
      → name ≢ []
      → length name ≤ 100
      → All (λ c. is_name_char c ≡ true) name
      → EndsName rest
      → scan_set 100 is_name_char (name ++ rest) ≡ some (name, rest)
  scan_name_set name [] n l c e =
      ap (scan_set 100 is_name_char) (append-nil name) ∙ scan_set-end 100 is_name_char name n l c
  scan_name_set name (d ∷ rest) n l c e = scan_set-stop 100 is_name_char name d rest n l c e

  render_item-piece : (p : Piece) → IsPiece get p → render_item get (item_of p) ≡ p.value ++ p.rest
  unfolding render_item scan_var
  render_item-piece p h =
      rw
        (
          scan_name_set p.name p.rest h.some_name h.short h.chars h.ends,
          h.known,
          render_item,
          scan_var,
        )
        (ap (◌++◌ p.value) (drop-append p.name p.rest))

  render_items-filled :
      (ps : List Piece) (done : Bytes)
      → All (IsPiece get) ps
      → render_items get (map item_of ps) (some done) ≡ some (done ++ filled ps)
  unfolding render_items str_append
  render_items-filled [] done h = ap some (sym (append-nil done))
  render_items-filled (p ∷ ps) done h =
      ap (λ d. render_items get (map item_of ps) (some (done ++ d))) (render_item-piece p h.0)
      ∙ (render_items-filled ps (done ++ (p.value ++ p.rest)) h.1
          ∙ ap some (append_assoc done (p.value ++ p.rest) (filled ps)))

  -- In a text whose first characters are no at sign, each name behind an at sign that has a value is
  -- replaced by the value, and everything else stays as it is, when every name is at most 100
  -- characters long, ends where no further character of a name follows, and has a value.
  pub render_text-filled :
      (first : Bytes) (ps : List Piece)
      → IsItem (char_is b'@') first
      → All (IsPiece get) ps
      → render_text get (first ++ pieces_text ps) ≡ some (first ++ filled ps)
  unfolding render_text str_append
  render_text-filled [] ps i h = absurd (i.0 refl)
  render_text-filled (c ∷ first) ps i h =
      rw (i.1.0, tokens-pieces_text (c ∷ first) ps i h) (render_items-filled ps (c ∷ first) h)
