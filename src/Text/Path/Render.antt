-- ===== src/Text/Path/Render.antt =====
-- The text that `holy_get_real_path` of utils/string.c builds, when the buffer is large enough.
use holyhttp.Prelude.{
  ℕ, suc, ◌+◌, ◌-◌, ◌≤◌, ◌<◌, ◌≡◌, refl, List, [], ◌∷◌, ◌++◌, some, arith, if◌then◌else◌, ltb, ◌==◌,
  ◌&&◌, Bool, true, false, not, length, Bytes, take, codes, bytes_eq, last_or-snoc, All, Bool-cases,
  inl, inr, sym, ap, ◌∙◌, flat, last_cases, length-append, take_all, take-append, append_assoc,
  append-nil, subst,
}
use mathlib.Core.List.{reverse, tail, reverse-cons}
use holyhttp.Text.Tokens.{tokens, tokens_from, flush, char_is, tokens-item, tokens-delim}
use holyhttp.Text.Path.{
  starts_with_slash, ends_with_slash, drop_slash, str_append_fmt, append_items, real_path_item,
  real_path_loop, real_path_items, get_real_path,
}
use holyhttp.Text.Path.Clean.{IsName, real_path_items-IsName}

abbrev slash : Bytes
slash = b'/' ∷ []

-- Each item with a slash behind it.
abbrev pub render : List Bytes → Bytes
render = flat (λ w. w ++ slash)

-- The characters of a rendering.
items_size : List Bytes → ℕ
items_size [] = 0
items_size (w ∷ ws) = suc (length w) + items_size ws

length-render : (ws : List Bytes) → length (render ws) ≡ items_size ws
unfolding items_size
length-render [] = refl
length-render (w ∷ ws) =
    omega (arith, length-append (w ++ slash) (render ws), length-append w slash, length-render ws)

flush_size :
    (w : Bytes) (ws : List Bytes) → items_size (flush w ws) ≤ suc (length w) + items_size ws
unfolding flush items_size
flush_size [] ws = omega arith
flush_size (c ∷ w) ws = omega arith

tokens_from_size :
    (w s : Bytes) → items_size (tokens_from (char_is b'/') w s) ≤ length w + length s + 1
unfolding tokens_from items_size
tokens_from_size w [] = omega (arith, flush_size w [])
tokens_from_size w (c ∷ s) = ground (
  arith,
  flush_size w (tokens_from (char_is b'/') [] s),
  tokens_from_size [] s,
  tokens_from_size (w ++ c ∷ []) s,
  length-append w (c ∷ []),
)

tail_size : (ws : List Bytes) → items_size (tail ws) ≤ items_size ws
unfolding items_size
tail_size [] = omega arith
tail_size (w ∷ ws) = omega arith

real_path_item_size :
    (array : List Bytes) (w : Bytes)
    → items_size (real_path_item array w) ≤ suc (length w) + items_size array
unfolding real_path_item items_size
real_path_item_size array w = elim (Bool-cases (bytes_eq w (codes "."))) [
  | inl dot ↦ rw dot (omega arith)
  | inr not_dot ↦ elim (Bool-cases (bytes_eq w (codes ".."))) [
    | inl up ↦ rw (not_dot, up) (omega (arith, tail_size array))
    | inr not_up ↦ rw (not_dot, not_up) (omega arith)
  ]
]

real_path_loop_size :
    (array items : List Bytes)
    → items_size (real_path_loop array items) ≤ items_size array + items_size items
unfolding real_path_loop items_size
real_path_loop_size array [] = omega arith
real_path_loop_size array (w ∷ items) =
    omega (arith, real_path_loop_size (real_path_item array w) items, real_path_item_size array w)

size_append : (xs ys : List Bytes) → items_size (xs ++ ys) ≡ items_size xs + items_size ys
unfolding items_size
size_append [] ys = omega arith
size_append (w ∷ xs) ys = omega (arith, size_append xs ys)

reverse_size : (ws : List Bytes) → items_size (reverse ws) ≡ items_size ws
unfolding items_size
reverse_size [] = refl
reverse_size (w ∷ ws) =
    omega
      (arith, ap items_size (reverse-cons w ws), size_append (reverse ws) (w ∷ []), reverse_size ws)

-- The items that are left take no more room than the path did.
real_path_items_size : (path : Bytes) → items_size (real_path_items path) ≤ length path + 1
unfolding real_path_items tokens items_size
real_path_items_size path =
    let items = tokens_from (char_is b'/') [] path in
    omega (
      arith,
      reverse_size (real_path_loop [] items),
      real_path_loop_size [] items,
      tokens_from_size [] path,
    )

append_fits :
    (bufsz : ℕ) (buf s : Bytes)
    → length buf + length s < bufsz
    → str_append_fmt bufsz buf s ≡ buf ++ s
unfolding str_append_fmt
append_fits bufsz buf s h = ap (◌++◌ buf) (take_all _ s (omega arith))

append_items_fits :
    (bufsz : ℕ) (buf : Bytes) (ws : List Bytes)
    → length buf + items_size ws < bufsz
    → append_items bufsz buf ws ≡ buf ++ render ws
unfolding append_items items_size
append_items_fits bufsz buf [] h = sym (append-nil buf)
append_items_fits bufsz buf (w ∷ ws) h =
    rw (append_fits bufsz buf (w ++ slash) (omega (arith, length-append w slash))) (
      append_items_fits bufsz (buf ++ (w ++ slash)) ws
        (omega (arith, length-append buf (w ++ slash), length-append w slash))
      ∙ append_assoc buf (w ++ slash) (render ws))

tokens-render : (ws : List Bytes) → All IsName ws → tokens (char_is b'/') (render ws) ≡ ws
tokens-render [] h = unfold tokens tokens_from flush in refl
tokens-render (w ∷ ws) h =
    ap (tokens (char_is b'/')) (append_assoc w slash (render ws))
    ∙ tokens-item (char_is b'/') w b'/' (render ws) h.0.0 (ground arith)
    ∙ ap (◌∷◌ w) (tokens-render ws h.1)

tokens_from_trailing :
    (w s : Bytes) → tokens_from (char_is b'/') w (s ++ slash) ≡ tokens_from (char_is b'/') w s
unfolding tokens_from flush
tokens_from_trailing w [] = ground arith
tokens_from_trailing w (c ∷ s) =
    rw (tokens_from_trailing [] s, tokens_from_trailing (w ++ c ∷ []) s)

take_snoc : (ys : Bytes) (y : ℕ) → take (length (ys ++ y ∷ []) - 1) (ys ++ y ∷ []) ≡ ys
take_snoc ys y =
    let e : length (ys ++ y ∷ []) - 1 ≡ length ys = omega (arith, length-append ys (y ∷ [])) in
    rw e (take-append ys (y ∷ []))

-- The string without its last slash has the same items.
tokens_cut :
    (ys : Bytes) (y : ℕ)
    → (y == b'/') ≡ true
    → tokens (char_is b'/') ys ≡ tokens (char_is b'/') (ys ++ y ∷ [])
unfolding tokens
tokens_cut ys y h =
    let e : y ≡ b'/' = ground arith in
    sym (tokens_from_trailing [] ys)
    ∙ ap (λ (c : ℕ). tokens_from (char_is b'/') [] (ys ++ c ∷ [])) (sym e)

tokens-drop_slash :
    (is_dir : Bool) (buf : Bytes)
    → tokens (char_is b'/') (drop_slash is_dir buf) ≡ tokens (char_is b'/') buf
unfolding drop_slash
tokens-drop_slash is_dir buf =
    elim (Bool-cases (not is_dir && ends_with_slash buf && ltb 1 (length buf))) [
      | inr keep ↦ rw keep
      | inl cut ↦ rw cut (elim (last_cases buf) [
        | inl e ↦ rw e
        | inr (ys, y, e) ↦
            let last : ends_with_slash buf ≡ true = ground arith in
            rw (e, take_snoc ys y) (tokens_cut ys y (last_is ys y buf e last))
      ])
    ]
  where
    last_is :
        (ys : Bytes) (y : ℕ) (s : Bytes)
        → s ≡ ys ++ y ∷ []
        → ends_with_slash s ≡ true
        → (y == b'/') ≡ true
    last_is ys y s e h = rw (← (last_or-snoc ys y 0)) (rw (← e) h)

-- The slash of an absolute path, or nothing.
root_of : Bytes → Bytes
root_of path = if starts_with_slash path then codes "/" else []

tokens_root : (path r : Bytes) → tokens (char_is b'/') (root_of path ++ r) ≡ tokens (char_is b'/') r
unfolding root_of
tokens_root path r = elim (Bool-cases (starts_with_slash path)) [
  | inl abs ↦ rw abs (tokens-delim (char_is b'/') b'/' r (ground arith))
  | inr rel ↦ rw rel
]

length-root_of : (path : Bytes) → length (root_of path) ≤ 1
unfolding root_of
length-root_of path = ground arith

-- In a buffer with two bytes to spare, the result is not cut off: read as a path again it has
-- exactly the items that resolving the given path leaves, each of them a plain name.
pub get_real_path-tokens :
    (path : Bytes) (bufsz : ℕ)
    → length path + 2 < bufsz
    → (out : Bytes) × (get_real_path true (some path) true bufsz ≡ some out)
      × (tokens (char_is b'/') out ≡ real_path_items path)
      × All IsName (tokens (char_is b'/') out)
unfolding get_real_path root_of
get_real_path-tokens path bufsz h =
    let items = real_path_items path in
    let buf = append_items bufsz (root_of path) items in
    let out = drop_slash (ends_with_slash path) buf in
    let names = real_path_items-IsName path in
    let size = real_path_items_size path in
    let filled : buf ≡ root_of path ++ render items =
      append_items_fits bufsz (root_of path) items (omega (arith, length-root_of path)) in
    let same : tokens (char_is b'/') out ≡ items =
      tokens-drop_slash (ends_with_slash path) buf
      ∙ ap (tokens (char_is b'/')) filled
      ∙ tokens_root path (render items)
      ∙ tokens-render items names in
    let positive : (bufsz == 0) ≡ false = ground arith in
    let room : take (bufsz - 0 - 1) slash ≡ slash = take_all _ slash (omega arith) in
    (out, rw (positive, room), same, subst (All IsName) (sym same) names)
