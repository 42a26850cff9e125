-- ===== src/Tests/Maps.antt =====
-- Tagged values and dictionaries, over plain lists.
use holyhttp.Prelude.{
  List, ◌≡◌, [], ◌∷◌, none, some, true, false, codes, IsText, arith, if◌then◌else◌,
}
use holyhttp.ListHead.{plain_lists}
use holyhttp.Tlv.{Tlv}
use holyhttp.Tlv.Laws.{IsValid}
use holyhttp.Dict.Chain.{Kv, same_key}
use holyhttp.Dict.{Dict, fresh, dict_get, dict_set}
use holyhttp.Dict.Invariant.{IsDict}
use holyhttp.Dict.Map.{fresh-IsDict, dict_set-dict_get}
use holyhttp.Dict.Refines.{DictCall, set_call, del_call, run_dict, run_map, run_dict-run_map}
use holyhttp.Dict.Access.{str_key, str_key-IsValid}
use holyhttp.Dict.Typed.{Allocs}

abbrev empty : Dict (plain_lists Kv)
empty = fresh (plain_lists Kv)

empty-IsDict : IsDict (plain_lists Kv) empty
empty-IsDict = (fresh-IsDict (plain_lists Kv)).0

abbrev ok : Allocs
ok = record { key = true; value = true; entry = true }

a-IsText : IsText (codes "a")
a-IsText = ((omega arith, omega arith), tt)

b-IsText : IsText (codes "b")
b-IsText = ((omega arith, omega arith), tt)

abbrev a_key : Tlv
a_key = str_key (codes "a")

a-IsValid : IsValid a_key
a-IsValid = str_key-IsValid (codes "a") a-IsText

abbrev b_key : Tlv
b_key = str_key (codes "b")

b-IsValid : IsValid b_key
b-IsValid = str_key-IsValid (codes "b") b-IsText

-- One entry, under `a`.
abbrev one : Dict (plain_lists Kv)
one = (dict_set (plain_lists Kv) true empty a_key b_key).1

one-IsDict : IsDict (plain_lists Kv) one
one-IsDict =
    (dict_set-dict_get (plain_lists Kv) empty a_key empty-IsDict a-IsValid b_key a_key a-IsValid).2

dict_set-dict_get_example :
    (dict_set (plain_lists Kv) false empty a_key b_key ≡ (false, empty))
    × ((dict_set (plain_lists Kv) true empty a_key b_key).0 ≡ true)
    × IsDict (plain_lists Kv) (dict_set (plain_lists Kv) true empty a_key b_key).1
    × (dict_get (plain_lists Kv) (dict_set (plain_lists Kv) true empty a_key b_key).1 a_key
        ≡ (if same_key a_key a_key then some b_key else dict_get (plain_lists Kv) empty a_key))
dict_set-dict_get_example =
    dict_set-dict_get (plain_lists Kv) empty a_key empty-IsDict a-IsValid b_key a_key a-IsValid

-- An entry that is stored, one without memory, and a deletion.
abbrev calls : List DictCall
calls = set_call true a_key b_key ∷ set_call false b_key a_key ∷ del_call b_key ∷ []

run_dict-run_map_example :
    IsDict (plain_lists Kv) (run_dict (plain_lists Kv) calls empty)
    × (dict_get (plain_lists Kv) (run_dict (plain_lists Kv) calls empty) a_key
        ≡ run_map calls (λ k. none) a_key)
run_dict-run_map_example =
    run_dict-run_map (plain_lists Kv) calls a_key (a-IsValid, (b-IsValid, (b-IsValid, tt)))
      a-IsValid
