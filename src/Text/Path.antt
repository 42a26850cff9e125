-- ===== src/Text/Path.antt =====
-- Paths: `STR_APPEND` of utils/string.h, and `holy_join_path` and `holy_get_real_path` of
-- utils/string.c. `bufsz` is the size of the caller's buffer.
pub mod Clean
pub mod Render
use holyhttp.Prelude.{
  ℕ, zero, suc, ◌+◌, ◌-◌, ◌≤◌, ◌<◌, ◌≡◌, refl, ◌≢◌, List, [], ◌∷◌, ◌++◌, Option, none, some, arith,
  if◌then◌else◌, leb, ltb, ◌==◌, ◌&&◌, ◌||◌, Bool, true, false, not, length, Bytes, get_or, take,
  codes, bytes_eq, last_or,
}
use mathlib.Core.List.{reverse, tail}
use holyhttp.Text.Tokens.{tokens, char_is}
use holyhttp.Text.Trim.{trim_right}

-- `snprintf (buf + strlen (buf), bufsz - strlen (buf), ...)` with the formatted text `s`: what does
-- not fit in front of the NUL is cut off.
unfoldable pub str_append_fmt : ℕ → Bytes → Bytes → Bytes
str_append_fmt bufsz buf s = buf ++ take (bufsz - length buf - 1) s

-- What `printf` makes of a format without arguments; `none` where a conversion would read an
-- argument that is not there. Two percent signs print one.
unfoldable pub bare_format : Bytes → Option Bytes
bare_format [] = some []
bare_format (c ∷ []) = if c == b'%' then none else some (c ∷ [])
bare_format (c ∷ d ∷ s) =
    let pair = bare_format s in
    let next = bare_format (d ∷ s) in
    if c == b'%'
    then if d == b'%' then elim pair [ none ↦ none | some t ↦ some (b'%' ∷ t) ] else none
    else elim next [ none ↦ none | some t ↦ some (c ∷ t) ]

-- What `holy_join_path` does: it returns null, it returns the filled buffer, or it hands `printf` a
-- format whose conversions have no arguments, which is undefined.
pub data Joined : Type 0 where
  null : Joined
  joined : Bytes → Joined
  undefined : Joined

unfoldable pub starts_with_slash : Bytes → Bool
starts_with_slash [] = false
starts_with_slash (c ∷ s) = c == b'/'

-- `STR_APPEND (buf, bufsz, path2)`: the second path is itself the format.
unfoldable pub join_bare : ℕ → Bytes → Joined
unfolding bare_format str_append_fmt
join_bare bufsz path2 = elim (bare_format path2) [
  | none ↦ undefined
  | some s ↦ joined (str_append_fmt bufsz [] s)
]

unfoldable pub join_two : ℕ → Bytes → Bytes → Bytes
unfolding str_append_fmt trim_right
join_two bufsz path1 path2 =
    let front = trim_right (str_append_fmt bufsz [] path1) b'/' in
    trim_right (str_append_fmt bufsz front (b'/' ∷ path2)) b'/'

-- `have_buf` says that the buffer's pointer is not null.
unfoldable pub join_path : Bool → ℕ → Option Bytes → Option Bytes → Joined
unfolding starts_with_slash join_bare join_two
join_path have_buf bufsz path1 none = null
join_path have_buf bufsz none (some path2) =
    if not have_buf || bufsz == 0 then null else join_bare bufsz path2
join_path have_buf bufsz (some path1) (some path2) =
    if not have_buf || bufsz == 0
    then null
    else if starts_with_slash path2
    then join_bare bufsz path2
    else joined (join_two bufsz path1 path2)

-- One item of the path; the array is kept newest first.
unfoldable pub real_path_item : List Bytes → Bytes → List Bytes
unfolding bytes_eq
real_path_item array item =
    if bytes_eq item (codes ".")
    then array
    else if bytes_eq item (codes "..")
    then tail array
    else item ∷ array

unfoldable pub real_path_loop : List Bytes → List Bytes → List Bytes
unfolding real_path_item
real_path_loop array [] = array
real_path_loop array (item ∷ items) = real_path_loop (real_path_item array item) items

-- The items that are left, in order.
unfoldable pub real_path_items : Bytes → List Bytes
unfolding real_path_loop tokens
real_path_items path = reverse (real_path_loop [] (tokens (char_is b'/') path))

unfoldable pub append_items : ℕ → Bytes → List Bytes → Bytes
unfolding str_append_fmt
append_items bufsz buf [] = buf
append_items bufsz buf (item ∷ items) =
    append_items bufsz (str_append_fmt bufsz buf (item ++ b'/' ∷ [])) items

-- `path[plen-1]`. On the empty path the source reads the byte in front of the string; every value
-- of it leads to the same result, the empty string.
unfoldable pub ends_with_slash : Bytes → Bool
ends_with_slash path = last_or path 0 == b'/'

-- `buf[blen-1] = 0` where the path names no directory.
unfoldable pub drop_slash : Bool → Bytes → Bytes
unfolding ends_with_slash
drop_slash is_dir buf =
    if not is_dir && ends_with_slash buf && ltb 1 (length buf)
    then take (length buf - 1) buf
    else buf

-- `alloc` says that `strdup` and `malloc` succeed.
unfoldable pub get_real_path : Bool → Option Bytes → Bool → ℕ → Option Bytes
unfolding starts_with_slash real_path_items append_items drop_slash
get_real_path alloc none have_buf bufsz = none
get_real_path alloc (some path) have_buf bufsz =
    if not have_buf || bufsz == 0 || not alloc
    then none
    else let root = if starts_with_slash path then str_append_fmt bufsz [] (codes "/") else [] in
      some (drop_slash (ends_with_slash path) (append_items bufsz root (real_path_items path)))
