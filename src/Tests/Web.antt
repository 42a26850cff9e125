-- ===== src/Tests/Web.antt =====
-- Requests, routes and the configuration.
use holyhttp.Prelude.{
  Option, Bytes, ◌≡◌, refl, ap, ◌∙◌, [], ◌∷◌, none, some, true, false, codes, arith, IsText,
  if◌then◌else◌, ◌&&◌, bytes_eq,
}
use holyhttp.ListHead.{plain_lists}
use holyhttp.Text.Letters.{str2lower, is_upper}
use holyhttp.Text.Trim.{trim, trim_left, trim_right, trim_right_loop}
use holyhttp.Text.Path.{
  joined, join_bare, bare_format, str_append_fmt, real_path_items, real_path_loop, real_path_item,
  append_items, drop_slash, starts_with_slash, ends_with_slash, get_real_path, join_path,
}
use holyhttp.Dict.Chain.{Kv}
use holyhttp.Dict.{Dict, fresh}
use holyhttp.Dict.Invariant.{IsDict}
use holyhttp.Dict.Map.{fresh-IsDict}
use holyhttp.Dict.Access.{all_ok, str_key}
use holyhttp.Dict.Typed.{Allocs, get_str_ptr, get_str_bin}
use holyhttp.Dict.Strings.{get_by_str-dict_get}
use holyhttp.Text.Tokens.{tokens, tokens_from, flush}
use holyhttp.Tlv.{c_str, tlvptr, tlvint}
use holyhttp.Packet.{
  url_decode, query_pairs, decode_pairs, decode_pair, split_pair, hex_byte, hex2char, plain_char,
}
use holyhttp.Packet.Query.{query_text, query_pairs-query_text}
use holyhttp.Packet.Url.{url_encode, url_decode-url_encode}
use holyhttp.Cache.{get_file, get_file-get_file}
use mathlib.Core.Option
use holyhttp.Server.{
  Config, check_n_set_cfg, with_defaults, called, set_route, handle_dynamic, handle_static, file,
  skip_slash,
}
use holyhttp.Server.Routes.{set_route-handle_dynamic}

abbrev empty : Dict (plain_lists Kv)
empty = fresh (plain_lists Kv)

url_decode-url_encode_example : url_decode (url_encode (codes "a&b")) ≡ codes "a&b"
url_decode-url_encode_example =
    url_decode-url_encode (codes "a&b") (omega arith, (omega arith, (omega arith, tt)))

b-IsText : IsText (codes "b")
b-IsText = ((omega arith, omega arith), tt)

and-IsText : IsText (codes "&=")
and-IsText = ((omega arith, omega arith), ((omega arith, omega arith), tt))

query_pairs-query_text_example :
    query_pairs (query_text ((codes "b", codes "&=") ∷ (codes "&=", []) ∷ []))
    ≡ (codes "b", codes "&=") ∷ (codes "&=", []) ∷ []
query_pairs-query_text_example =
    query_pairs-query_text ((codes "b", codes "&=") ∷ (codes "&=", []) ∷ [])
      ((b-IsText, and-IsText), ((and-IsText, tt), tt))

html_lower : str2lower (codes "HTML") ≡ codes "html"
unfolding str2lower is_upper
html_lower = refl

abbrev unset_config : Config
unset_config = record {
  ip = 0;
  port = 0;
  template_path = none;
  static_path = none;
  static_uri_prefix = none;
  static_file_age = 0;
  socket_timeout = 0;
  max_content_len = 0;
  session_timeout = 0;
}

unset_accepted : check_n_set_cfg true unset_config ≡ some (with_defaults unset_config)
unfolding check_n_set_cfg
unset_accepted = refl

abbrev ok : Allocs
ok = record { key = true; value = true; entry = true }

home : IsText (codes "/home")
home = (
  (omega arith, omega arith),
  (
    (omega arith, omega arith),
    ((omega arith, omega arith), ((omega arith, omega arith), ((omega arith, omega arith), tt))),
  ),
)

home_slash : IsText (codes "home/")
home_slash = (
  (omega arith, omega arith),
  (
    (omega arith, omega arith),
    ((omega arith, omega arith), ((omega arith, omega arith), ((omega arith, omega arith), tt))),
  ),
)

no_icon : bytes_eq (str2lower (codes "home/")) (codes "/favicon.ico") ≡ false
unfolding bytes_eq str2lower is_upper
no_icon = refl

home_trim : trim (codes "home/") b'/' ≡ codes "home"
unfolding trim trim_left trim_right trim_right_loop
home_trim = refl

home-IsText : IsText (codes "home")
home-IsText = (
  (omega arith, omega arith),
  ((omega arith, omega arith), ((omega arith, omega arith), ((omega arith, omega arith), tt))),
)

no_white : get_str_ptr (plain_lists Kv) true empty (some (trim (codes "home/") b'/')) ≡ 0
unfolding get_str_ptr tlvint
no_white = rw home_trim (
    ap tlvptr (
      get_by_str-dict_get (plain_lists Kv) empty (codes "home") home-IsText
      ∙ (fresh-IsDict (plain_lists Kv)).1 (str_key (codes "home"))))

same_path : bytes_eq (trim (codes "/home") b'/') (trim (codes "home/") b'/') ≡ true
unfolding bytes_eq trim trim_left trim_right trim_right_loop
same_path = refl

-- A query with an empty value, an escape and a plus sign.
query_three :
    query_pairs (codes "a=1&b&c=x%20y+z")
    ≡ (codes "a", codes "1") ∷ (codes "b", []) ∷ (codes "c", codes "x y z") ∷ []
unfolding query_pairs tokens tokens_from flush decode_pairs decode_pair split_pair url_decode
    hex_byte hex2char plain_char c_str
query_three = refl

-- A path with slashes behind the prefix leaves the directory of the static files.
static_escape :
    handle_static true (codes "static") (codes "/static/") (codes "/static///etc/passwd")
    ≡ file (joined (codes "/etc/passwd"))
unfolding handle_static skip_slash tokens tokens_from flush bytes_eq join_bare bare_format
    str_append_fmt real_path_items real_path_loop real_path_item append_items drop_slash
    starts_with_slash ends_with_slash get_real_path join_path
static_escape = refl

set_route-handle_dynamic_example :
    ((set_route (plain_lists Kv) true ok empty (some (codes "/home")) 7).0 ≡ all_ok ok)
    × IsDict (plain_lists Kv) (set_route (plain_lists Kv) true ok empty (some (codes "/home")) 7).1
    × (handle_dynamic
          (plain_lists Kv)
          true
          (codes "/static/")
          none
          empty
          (set_route (plain_lists Kv) true ok empty (some (codes "/home")) 7).1
          (codes "home/")
        ≡ (if all_ok ok && bytes_eq (trim (codes "/home") b'/') (trim (codes "home/") b'/')
            then called 7
            else handle_dynamic
                (plain_lists Kv)
                true
                (codes "/static/")
                none
                empty
                empty
                (codes "home/")))
set_route-handle_dynamic_example =
    set_route-handle_dynamic (plain_lists Kv) empty empty ok (codes "/home") (codes "home/") 7
      (codes "/static/") none (fresh-IsDict (plain_lists Kv)).0 home home_slash (omega arith)
      (omega arith) no_icon no_white refl

abbrev one_file : Bytes → Option Bytes
one_file name = some (codes "hi")

abbrev no_file : Bytes → Option Bytes
no_file name = none

not_cached : get_str_bin (plain_lists Kv) true empty (some (codes "home")) ≡ none
unfolding get_str_bin
not_cached = ap (Option.map (λ v. (v.v, v.l))) (
    get_by_str-dict_get (plain_lists Kv) empty (codes "home") home-IsText
    ∙ (fresh-IsDict (plain_lists Kv)).1 (str_key (codes "home")))

get_file-get_file_example :
    ((get_file (plain_lists Kv) true ok one_file empty (codes "home")).0 ≡ some (codes "hi"))
    × ((get_file
          (plain_lists Kv)
          true
          ok
          no_file
          (get_file (plain_lists Kv) true ok one_file empty (codes "home")).1
          (codes "home")).0
        ≡ some (codes "hi"))
get_file-get_file_example =
    get_file-get_file (plain_lists Kv) empty one_file no_file ok (codes "home") (codes "hi")
      (fresh-IsDict (plain_lists Kv)).0 home-IsText refl not_cached refl (omega arith) (omega arith)
