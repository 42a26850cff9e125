-- ===== src/Dict/Strings.antt =====
-- Entries of utils/dict.c under strings.
use holyhttp.ListHead.{ListHead}
use holyhttp.Prelude.{
  ℕ, ◌^◌, ◌<◌, ◌≡◌, refl, Option, some, if◌then◌else◌, ◌&&◌, Bool, true, false, Bytes, IsText,
  bytes_eq, ap, ◌∙◌,
}
use holyhttp.Tlv.{Tlv, tlvstr, tlvptr}
use holyhttp.Dict.Chain.{Kv, same_key}
use holyhttp.Dict.{Dict, dict_get}
use holyhttp.Dict.Invariant.{IsDict}
use holyhttp.Dict.Typed.{
  Allocs, set_type_type, get_type_type, get_by_str, set_str_ptr, get_str_ptr, set_str_str,
  get_str_str,
}
use holyhttp.Dict.Access.{
  str_key, ptr_value, str_key-IsValid, new_str, new_ptr, tlvptr-ptr_value, tlvstr-str_key, str_same,
  all_ok, Stores, set_kv-Stores,
}

tlvptr_if :
    (b : Bool) (v : Tlv) (o : Option Tlv)
    → tlvptr (if b then some v else o) ≡ (if b then tlvptr (some v) else tlvptr o)
tlvptr_if true v o = refl
tlvptr_if false v o = refl

tlvstr_if :
    (b : Bool) (v : Tlv) (o : Option Tlv)
    → tlvstr (if b then some v else o) ≡ (if b then tlvstr (some v) else tlvstr o)
tlvstr_if true v o = refl
tlvstr_if false v o = refl

module _ (lists : ListHead Kv) where
  pub get_by_str-dict_get :
      (d : Dict lists) (j : Bytes)
      → IsText j
      → get_by_str lists true d j ≡ dict_get lists d (str_key j)
  unfolding get_by_str get_type_type
  get_by_str-dict_get d j h = rw (new_str j h true, get_type_type)

  module _ (d : Dict lists) (k : Bytes) (inv : IsDict lists d) (hk : IsText k) (a : Allocs) where
    stored_ptr :
        (p : ℕ) → Stores lists a d (str_key k) (ptr_value p) (set_str_ptr lists a d (some k) p)
    unfolding set_str_ptr set_type_type
    stored_ptr p =
        rw (new_str k hk a.key, new_ptr p a.value)
          (set_kv-Stores lists a d (str_key k) (ptr_value p) inv (str_key-IsValid k hk))

    stored_str :
        (s : Bytes)
        → IsText s
        → Stores lists a d (str_key k) (str_key s) (set_str_str lists a d (some k) (some s))
    unfolding set_str_str set_type_type
    stored_str s hs =
        rw (new_str k hk a.key, new_str s hs a.value)
          (set_kv-Stores lists a d (str_key k) (str_key s) inv (str_key-IsValid k hk))

    -- Storing a pointer under a string succeeds exactly when every allocation does. Then that key
    -- reads as the pointer and every other key as before; otherwise every key reads as before.
    -- Either way it stays well formed.
    pub set_str_ptr-get_str_ptr :
        (p : ℕ) (j : Bytes)
        → p < 2 ^ 64
        → IsText j
        → let r = set_str_ptr lists a d (some k) p in
          (r.0 ≡ all_ok a)
          × IsDict lists r.1
          × (get_str_ptr lists true r.1 (some j)
              ≡ (if all_ok a && bytes_eq k j then p else get_str_ptr lists true d (some j)))
    unfolding get_str_ptr
    set_str_ptr-get_str_ptr p j hp hj =
        let s = stored_ptr p in
        (
          s.returns,
          s.keeps,
          ap tlvptr (
                get_by_str-dict_get (set_str_ptr lists a d (some k) p).1 j hj
                ∙ s.reads (str_key j) (str_key-IsValid j hj))
              ∙ tlvptr_if (all_ok a && same_key (str_key k) (str_key j)) _ _
              ∙ rw (str_same k j hk hj, tlvptr-ptr_value p hp, get_by_str-dict_get d j hj),
        )

    -- Storing a string under a string succeeds exactly when every allocation does. Then that key
    -- reads as the string and every other key as before; otherwise every key reads as before.
    -- Either way the dictionary stays well formed.
    pub set_str_str-get_str_str :
        (s j : Bytes)
        → IsText s
        → IsText j
        → let r = set_str_str lists a d (some k) (some s) in
          (r.0 ≡ all_ok a)
          × IsDict lists r.1
          × (get_str_str lists true r.1 (some j)
              ≡ (if all_ok a && bytes_eq k j then some s else get_str_str lists true d (some j)))
    unfolding get_str_str
    set_str_str-get_str_str s j hs hj =
        let t = stored_str s hs in
        (
          t.returns,
          t.keeps,
          ap tlvstr (
                get_by_str-dict_get (set_str_str lists a d (some k) (some s)).1 j hj
                ∙ t.reads (str_key j) (str_key-IsValid j hj))
              ∙ tlvstr_if (all_ok a && same_key (str_key k) (str_key j)) _ _
              ∙ rw (str_same k j hk hj, tlvstr-str_key s hs, get_by_str-dict_get d j hj),
        )
