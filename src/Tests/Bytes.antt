-- ===== src/Tests/Bytes.antt =====
-- Strings and memory.
use holyhttp.Prelude.{◌≡◌, refl, some, Bool, true, Bytes, codes, arith, ◌↔◌, All}
use holyhttp.Text.Letters.{str2lower, SameLetters, str2lower-SameLetters, is_upper}
use holyhttp.Text.Decimal.{str_isdecimal, IsInteger, str_isdecimal_iff}
use holyhttp.Text.Tokens.{tokens, char_is}
use holyhttp.Text.Path.{real_path_items, get_real_path}
use holyhttp.Text.Path.Clean.{IsName, real_path_items-IsName}
use holyhttp.Text.Path.Render.{get_real_path-tokens}

lowered : str2lower (codes "Ab") ≡ str2lower (codes "aB")
unfolding str2lower is_upper
lowered = refl

str2lower-SameLetters_example : SameLetters (codes "Ab") (codes "aB")
str2lower-SameLetters_example = str2lower-SameLetters (codes "Ab") (codes "aB") lowered

str_isdecimal_iff_example :
    (b : Bool) × (str_isdecimal (some (codes "-12")) ≡ some b)
    × ((b ≡ true) ↔ IsInteger (codes "-12"))
str_isdecimal_iff_example = str_isdecimal_iff (codes "-12")

real_path_items-IsName_example : All IsName (real_path_items (codes "/a/../../etc/./passwd"))
real_path_items-IsName_example = real_path_items-IsName (codes "/a/../../etc/./passwd")

get_real_path-tokens_example :
    (out : Bytes) × (get_real_path true (some (codes "a/../b")) true 250 ≡ some out)
    × (tokens (char_is b'/') out ≡ real_path_items (codes "a/../b"))
    × All IsName (tokens (char_is b'/') out)
get_real_path-tokens_example = get_real_path-tokens (codes "a/../b") 250 (omega arith)
