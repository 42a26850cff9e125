-- ===== src/Tests/Data.antt =====
-- Data sets.
use holyhttp.Prelude.{
  ℕ, none, Bytes, ◌≡◌, refl, [], some, true, Bool, Option, codes, IsText, arith, ◌⊎◌, length,
}
use holyhttp.ListHead.{plain_lists}
use holyhttp.Text.Hash.{bkdr_loop, hash_step}
use holyhttp.Tlv.{new_tlv, tlv_hash, tlv_is_equal, to_le}
use holyhttp.Dict.{dict_get, dict_set, fresh, dict_foreach, dict_init}
use holyhttp.Dict.Typed.{get_str_ptr, set_str_ptr}
use holyhttp.Dict.Chain.{Kv, find_kv}
use holyhttp.Text.Tokens.{tokens, tokens_from, flush, char_is}
use holyhttp.Packet.{split_pair}
use holyhttp.Dataset.{
  Memory, Store, empty_subset, get_sub, get_value, set_value, set_batch, clear_sub,
}
use holyhttp.Dataset.Invariant.{IsStore, IsLive, new_root, new_root-IsStore}
use holyhttp.Dataset.Values.{set_value-get_value, set_value-get_value_other}

abbrev root : Store (plain_lists Kv)
root = new_root (plain_lists Kv)

abbrev all_memory : ℕ → Memory
all_memory i = record { subset = true; entry = record { key = true; value = true; entry = true } }

root-IsLive : IsLive (plain_lists Kv) root 1
root-IsLive = (empty_subset (plain_lists Kv), refl)

name-IsText : IsText (codes "a.b")
name-IsText =
    ((omega arith, omega arith), ((omega arith, omega arith), ((omega arith, omega arith), tt)))

two_items : length (tokens (char_is b'.') (codes "a.b")) ≡ 2
unfolding tokens tokens_from flush
two_items = refl

set_value-get_value_example :
    (t : Store (plain_lists Kv)) × (set_value
        (plain_lists Kv)
        all_memory
        true
        root
        1
        (some (codes "a.b"))
        (some (codes "x"))
      ≡ some (true, t))
    × IsStore (plain_lists Kv) t
    × (get_value (plain_lists Kv) t 1 (some (codes "a.b")) ≡ some (some (codes "x")))
set_value-get_value_example =
    set_value-get_value (plain_lists Kv) all_memory root 1 (codes "a.b") (codes "x")
      (λ j. (refl, refl)) (new_root-IsStore (plain_lists Kv)) root-IsLive (omega arith) name-IsText
      (omega (arith, two_items))

root_itself : get_sub (plain_lists Kv) root 1 (some []) ≡ some 1
unfolding get_sub tokens tokens_from flush
root_itself = refl

set_value-get_value_other_example :
    (t : Store (plain_lists Kv)) × (set_value
        (plain_lists Kv)
        all_memory
        true
        root
        1
        (some (codes "a.b"))
        (some (codes "x"))
      ≡ some (true, t))
    × (get_sub (plain_lists Kv) t 1 (some []) ≡ some 1)
    × ((get_sub (plain_lists Kv) t 1 (some (codes "a.b")) ≡ some 1)
        ⊎ (get_value (plain_lists Kv) t 1 (some []) ≡ get_value (plain_lists Kv) root 1 (some [])))
set_value-get_value_other_example =
    set_value-get_value_other (plain_lists Kv) all_memory root 1 (codes "a.b") (codes "x")
      (λ j. (refl, refl)) (new_root-IsStore (plain_lists Kv)) root-IsLive (omega arith) name-IsText
      (omega (arith, two_items)) [] 1 tt root_itself (omega arith)

-- `a=x,b=y` sets two names; clearing then frees their subsets, but the entries stay, so reading a name
-- is a fault.
abbrev store_of : Option (Bool × Store (plain_lists Kv)) → Store (plain_lists Kv)
store_of none = root
store_of (some (ok, t)) = t

abbrev batch : Store (plain_lists Kv)
batch = store_of (set_batch (plain_lists Kv) root 1 (some (codes "a=x,b=y")) (char_is b','))

second_value : get_value (plain_lists Kv) batch 1 (some (codes "b")) ≡ some (some (codes "y"))
unfolding get_value set_batch tokens get_str_ptr new_tlv dict_get find_kv fresh set_str_ptr dict_set
    tlv_hash bkdr_loop hash_step tlv_is_equal to_le set_value split_pair
second_value = refl

abbrev cleared : Option (Store (plain_lists Kv))
cleared = clear_sub (plain_lists Kv) 2 batch 1

abbrev read_cleared : Option (Store (plain_lists Kv)) → Option (Option Bytes)
read_cleared none = some none
read_cleared (some s) = get_value (plain_lists Kv) s 1 (some (codes "b"))

dangling : read_cleared cleared ≡ none
unfolding get_value set_batch tokens get_str_ptr new_tlv dict_get find_kv fresh set_str_ptr dict_set
    tlv_hash bkdr_loop hash_step clear_sub dict_foreach to_le dict_init tlv_is_equal set_value
    split_pair
dangling = refl
