-- ===== src/Text/Path/Clean.antt =====
-- The items of a path that `holy_get_real_path` of utils/string.c keeps.
use holyhttp.Prelude.{
  ◌≡◌, ◌≢◌, List, [], ◌∷◌, false, Bytes, codes, bytes_eq, All, All-append, Bool-cases, inl, inr,
  bytes_eq_refl, subst, sym, ap, ◌∙◌,
}
use mathlib.Core.Bool.{false≢true}
use mathlib.Core.List.{reverse, tail, reverse-cons}
use holyhttp.Text.Tokens.{char_is, IsItem, tokens-IsItem}
use holyhttp.Text.Path.{real_path_item, real_path_loop, real_path_items}

-- An item that names a file or a directory below the one before it.
abbrev pub IsName : Bytes → Type 0
IsName w = IsItem (char_is b'/') w × (w ≢ codes ".") × (w ≢ codes "..")

All-tail : (P : Bytes → Type 0) (ws : List Bytes) → All P ws → All P (tail ws)
All-tail P [] h = h
All-tail P (w ∷ ws) h = h.1

All-reverse : (P : Bytes → Type 0) (ws : List Bytes) → All P ws → All P (reverse ws)
All-reverse P [] h = tt
All-reverse P (w ∷ ws) h =
    subst (All P) (sym (reverse-cons w ws))
      (All-append P (reverse ws) (w ∷ []) (All-reverse P ws h.1) (h.0, tt))

ne_of_bytes_eq : (a b : Bytes) → bytes_eq a b ≡ false → a ≢ b
ne_of_bytes_eq a b h e = false≢true (sym h ∙ ap (λ (x : Bytes). bytes_eq x b) e ∙ bytes_eq_refl b)

real_path_item-IsName :
    (array : List Bytes) (w : Bytes)
    → All IsName array
    → IsItem (char_is b'/') w
    → All IsName (real_path_item array w)
unfolding real_path_item
real_path_item-IsName array w h item = elim (Bool-cases (bytes_eq w (codes "."))) [
  | inl dot ↦ rw dot h
  | inr not_dot ↦ elim (Bool-cases (bytes_eq w (codes ".."))) [
    | inl up ↦ rw (not_dot, up) (All-tail IsName array h)
    | inr not_up ↦
        rw (not_dot, not_up) ((item, ne_of_bytes_eq w _ not_dot, ne_of_bytes_eq w _ not_up), h)
  ]
]

real_path_loop-IsName :
    (array items : List Bytes)
    → All IsName array
    → All (IsItem (char_is b'/')) items
    → All IsName (real_path_loop array items)
unfolding real_path_loop
real_path_loop-IsName array [] h k = h
real_path_loop-IsName array (w ∷ items) h k =
    real_path_loop-IsName (real_path_item array w) items (real_path_item-IsName array w h k.0) k.1

-- No item of a real path is empty, `.` or `..`, or holds a slash, whatever path was given.
pub real_path_items-IsName : (path : Bytes) → All IsName (real_path_items path)
unfolding real_path_items
real_path_items-IsName path =
    All-reverse IsName _ (real_path_loop-IsName [] _ tt (tokens-IsItem (char_is b'/') path))
