-- ===== src/Tests/Templates.antt =====
-- Templates, over a small data set: a list of names with values, and one list of values.
use holyhttp.Prelude.{
  length, Bool, ◌∙◌, ap, sym, true, false, arith, ◌≡◌, refl, List, [], ◌∷◌, ◌++◌, Option, none,
  some, if◌then◌else◌, Bytes, codes, drop, bytes_eq, is_prefix,
}
use holyhttp.Text.Letters.{is_upper, is_lower, str_append}
use holyhttp.Text.Decimal.{isdigit, str_isdecimal, isdecimal_digits, isdecimal_loop, skip_minus}
use holyhttp.Text.Search.{strnstr, memfind, memfind_loop}
use holyhttp.Text.Tokens.{char_is, tokens, tokens_from, flush}
use holyhttp.Packet.Scan.{is_space, skip_space, scan_set, span, nonempty, literal}
use holyhttp.Template.{
  Compared, is_same, DataOps, Child, leaf, subset, is_name_char, value_of, scan_var, scan_braces,
  render_item, render_items, render_text, render_elem, render_each, render_side, item_name_of,
  if_holds, op_holds, is_decimal, strcmp, if_str2op,
}
use holyhttp.Template.Pieces.{Piece, IsPiece, pieces_text, filled}
use holyhttp.Template.Parse.{
  blanks_of, parse_indent, strchr, is_side_char, is_item_char, is_op_char, scan_if, scan_for,
  end_mark, find_end, split_branches, parse_branches, if_head, parse_if_elem, for_head,
  parse_for_elem, to_line_end, next_line, add_tail, add_text, finish, parse_elem, parse_loop,
  parse_normal_elem, srender_by,
}
use holyhttp.ListHead.{plain_lists}
use holyhttp.Text.Hash.{bkdr_loop, hash_step}
use holyhttp.Tlv.{new_tlv, tlv_hash}
use holyhttp.Dict.{dict_get, dict_set, fresh}
use holyhttp.Dict.Typed.{get_str_ptr, set_str_ptr}
use holyhttp.Dict.Chain.{Kv, find_kv}
use holyhttp.Dataset.{Store, empty_subset, set_value, get_value}
use holyhttp.Dataset.Invariant.{new_root, new_root-IsStore}
use holyhttp.Dataset.Values.{set_value-get_value}
use holyhttp.Template.Named.{all_memory, value_at}
use holyhttp.Template.Plain.{srender_by-filled}

abbrev Pairs : Type 0
Pairs = List (Bytes × Bytes)

abbrev lookup : Pairs → Bytes → Option Bytes
lookup [] name = none
lookup (p ∷ ps) name = if bytes_eq p.0 name then some p.1 else lookup ps name

abbrev set_leaf : Pairs → Bytes → Child → Pairs
set_leaf s name (leaf v) = (name, v) ∷ s
set_leaf s name (subset p) = s

abbrev small_ops : DataOps Pairs
small_ops = record {
  get = lookup;
  set_item = set_leaf;
  unset_item = λ s name. drop 2 s;
  children = λ s list. leaf (codes "u") ∷ leaf (codes "v") ∷ [];
}

abbrev pub all_same : Bytes → Bytes → Compared
all_same a b = is_same

abbrev data_set : Pairs
data_set = (codes "a", codes "x") ∷ []

abbrev a_piece : Piece
a_piece = record { name = codes "a"; rest = codes "!"; value = codes "x" }

a_piece-IsPiece : IsPiece (lookup data_set) a_piece
unfolding is_name_char is_lower is_upper isdigit value_of bytes_eq
a_piece-IsPiece = record {
  some_name = λ e. cc;
  short = omega arith;
  chars = (refl, tt);
  ends = refl;
  plain = (refl, tt);
  known = refl;
}

srender_by-filled_example :
    srender_by Pairs small_ops all_same 1 (codes "b " ++ pieces_text (a_piece ∷ [])) data_set
    ≡ some (data_set, codes "b " ++ filled (a_piece ∷ []))
srender_by-filled_example =
    srender_by-filled Pairs small_ops all_same 0 data_set (codes "b ") (a_piece ∷ [])
      ((λ e. cc), (refl, (refl, tt))) (a_piece-IsPiece, tt)
      (refl, (refl, (refl, (refl, (refl, tt)))))

abbrev render : Bytes → Option (Pairs × Bytes)
render text = srender_by Pairs small_ops all_same 3 text data_set

abbrev lf : Bytes
lf = 10 ∷ []

branch :
    render (
      codes "#if @a = y:"
      ++ (lf
          ++ (codes "1"
              ++ (lf ++ (codes "#else:" ++ (lf ++ (codes "2" ++ (lf ++ (codes "#end" ++ lf)))))))))
    ≡ some (data_set, 10 ∷ (codes "2" ++ lf))
unfolding srender_by parse_normal_elem parse_loop parse_elem parse_if_elem parse_for_elem if_head
    for_head scan_if scan_for parse_indent blanks_of strchr is_side_char is_item_char is_op_char
    end_mark find_end split_branches parse_branches to_line_end next_line add_tail add_text finish
    literal skip_space is_space scan_set span nonempty if_str2op bytes_eq is_lower is_upper isdigit
    strnstr memfind memfind_loop is_prefix render_elem render_each render_side item_name_of if_holds
    op_holds is_decimal strcmp str_isdecimal isdecimal_digits isdecimal_loop skip_minus render_text
    render_items render_item scan_var scan_braces is_name_char value_of tokens tokens_from flush
    str_append
branch = refl

two_items :
    render (codes "#for @i in @xs:" ++ (lf ++ (codes "-@i" ++ (lf ++ (codes "#end" ++ lf)))))
    ≡ some (data_set, 10 ∷ (codes "-u" ++ (lf ++ (10 ∷ (codes "-v" ++ lf)))))
unfolding srender_by parse_normal_elem parse_loop parse_elem parse_if_elem parse_for_elem if_head
    for_head scan_if scan_for parse_indent blanks_of strchr is_side_char is_item_char is_op_char
    end_mark find_end split_branches parse_branches to_line_end next_line add_tail add_text finish
    literal skip_space is_space scan_set span nonempty if_str2op bytes_eq is_lower is_upper isdigit
    strnstr memfind memfind_loop is_prefix render_elem render_each render_side item_name_of if_holds
    op_holds is_decimal strcmp str_isdecimal isdecimal_digits isdecimal_loop skip_minus render_text
    render_items render_item scan_var scan_braces is_name_char value_of tokens tokens_from flush
    str_append
two_items = refl

-- Of two at signs one is lost, and so is one at the end.
lost_sign : render_text (lookup []) (codes "a@@b@") ≡ some (codes "a@b")
unfolding render_text render_items render_item scan_var scan_braces scan_set span nonempty literal
    is_name_char is_lower is_upper isdigit value_of tokens tokens_from flush str_append
lost_sign = refl

-- A data set in which `a` is set.
abbrev pub root : Store (plain_lists Kv)
root = new_root (plain_lists Kv)

abbrev store_of : Option (Bool × Store (plain_lists Kv)) → Store (plain_lists Kv)
store_of none = root
store_of (some (ok, t)) = t

abbrev pub with_a : Store (plain_lists Kv)
with_a =
    store_of
      (set_value (plain_lists Kv) all_memory true root 1 (some (codes "a")) (some (codes "x")))

pub one_item : length (tokens (char_is b'.') (codes "a")) ≡ 1
unfolding tokens tokens_from flush
one_item = refl

pub set_a :
    set_value (plain_lists Kv) all_memory true root 1 (some (codes "a")) (some (codes "x"))
    ≡ some (true, with_a)
set_a =
    let (u, e, _, _) =
      set_value-get_value (plain_lists Kv) all_memory root 1 (codes "a") (codes "x")
        (λ j. (refl, refl)) (new_root-IsStore (plain_lists Kv))
        (empty_subset (plain_lists Kv), refl) (omega arith) ((omega arith, omega arith), tt)
        (omega (arith, one_item)) in
    e ∙ ap (λ r. some (true, store_of r)) (sym e)

pub no_loop : value_at (plain_lists Kv) 1 with_a (codes ":for:a") ≡ none
unfolding value_at get_value set_value tokens get_str_ptr new_tlv dict_get find_kv fresh set_str_ptr
    dict_set tlv_hash bkdr_loop hash_step
no_loop = refl

pub a_chars : is_name_char b'a' ≡ true
unfolding is_name_char is_lower is_upper isdigit
a_chars = refl

pub mark_ends : is_name_char b'!' ≡ false
unfolding is_name_char is_lower is_upper isdigit
mark_ends = refl
