-- ===== src/Dict/Numbers.antt =====
-- Entries of utils/dict.c under numbers, and deleting by a typed key.
use holyhttp.ListHead.{ListHead}
use holyhttp.Prelude.{
  ℕ, ◌^◌, ◌<◌, ◌≡◌, refl, Option, none, some, arith, if◌then◌else◌, ◌==◌, ◌&&◌, Bool, true, false,
  Bytes, IsText, bytes_eq, ap, ◌∙◌, Bool-cases, inl, inr,
}
use holyhttp.Tlv.{Tlv, tlvint, tlvptr}
use holyhttp.Dict.Chain.{Kv, same_key}
use holyhttp.Dict.{Dict, dict_get, dict_del}
use holyhttp.Dict.Invariant.{IsDict}
use holyhttp.Dict.Map.{dict_del-dict_get}
use holyhttp.Dict.Typed.{
  Allocs, set_type_type, get_type_type, get_by_int, set_int_ptr, get_int_ptr, del_by_int,
  del_by_str, del_by_type, get_str_ptr,
}
use holyhttp.Dict.Strings.{get_by_str-dict_get}
use holyhttp.Dict.Access.{
  str_key, int_key, ptr_value, str_key-IsValid, int_key-IsValid, new_str, new_int, new_ptr,
  tlvptr-ptr_value, str_same, int_same, all_ok, Stores, set_kv-Stores,
}

tlvptr_if :
    (b : Bool) (v : Tlv) (o : Option Tlv)
    → tlvptr (if b then some v else o) ≡ (if b then tlvptr (some v) else tlvptr o)
tlvptr_if true v o = refl
tlvptr_if false v o = refl

tlvptr_gone :
    (b : Bool) (o : Option Tlv) → tlvptr (if b then none else o) ≡ (if b then 0 else tlvptr o)
unfolding tlvint
tlvptr_gone true o = refl
tlvptr_gone false o = refl

module _ (lists : ListHead Kv) where
  pub get_by_int-dict_get :
      (d : Dict lists) (x : ℕ) → get_by_int lists true d x ≡ dict_get lists d (int_key x)
  unfolding get_by_int get_type_type
  get_by_int-dict_get d x = rw (new_int x true, get_type_type)

  module _ (d : Dict lists) (inv : IsDict lists d) where
    stored_ptr :
        (x : ℕ) (a : Allocs) (p : ℕ)
        → Stores lists a d (int_key x) (ptr_value p) (set_int_ptr lists a d x p)
    unfolding set_int_ptr set_type_type
    stored_ptr x a p =
        rw (new_int x a.key, new_ptr p a.value)
          (set_kv-Stores lists a d (int_key x) (ptr_value p) inv (int_key-IsValid x))

    -- Storing a pointer under a number succeeds exactly when every allocation does. Then that key
    -- reads as the pointer and every other key as before; otherwise every key reads as before.
    -- Either way it stays well formed.
    pub set_int_ptr-get_int_ptr :
        (x : ℕ) (a : Allocs) (p y : ℕ)
        → x < 2 ^ 64
        → p < 2 ^ 64
        → y < 2 ^ 64
        → let r = set_int_ptr lists a d x p in
          (r.0 ≡ all_ok a)
          × IsDict lists r.1
          × (get_int_ptr lists true r.1 y
              ≡ (if all_ok a && x == y then p else get_int_ptr lists true d y))
    unfolding get_int_ptr
    set_int_ptr-get_int_ptr x a p y hx hp hy =
        let s = stored_ptr x a p in
        (
          s.returns,
          s.keeps,
          ap tlvptr (
                get_by_int-dict_get (set_int_ptr lists a d x p).1 y
                ∙ s.reads (int_key y) (int_key-IsValid y))
              ∙ tlvptr_if (all_ok a && same_key (int_key x) (int_key y)) _ _
              ∙ rw (int_same x y hx hy, tlvptr-ptr_value p hp, get_by_int-dict_get d y),
        )

    -- Deleting a number other than 0 removes that key alone; deleting the key 0 changes nothing,
    -- so an entry under 0 stays.
    pub del_by_int-get_int_ptr :
        (x y : ℕ)
        → x < 2 ^ 64
        → y < 2 ^ 64
        → 0 < x
        → IsDict lists (del_by_int lists true d x)
          × (del_by_int lists true d 0 ≡ d)
          × (get_int_ptr lists true (del_by_int lists true d x) y
              ≡ (if x == y then 0 else get_int_ptr lists true d y))
    unfolding get_int_ptr
    del_by_int-get_int_ptr x v hx hv hpos = (keeps, refl_zero, reads v hv hpos)
      where
        del_pos : (x == 0) ≡ false → del_by_int lists true d x ≡ dict_del lists d (int_key x)
        del_pos n = unfold del_by_int del_by_type in rw (n, new_int x true, del_by_type)

        refl_zero : del_by_int lists true d 0 ≡ d
        refl_zero = unfold del_by_int in refl

        keeps : IsDict lists (del_by_int lists true d x)
        keeps = elim (Bool-cases (x == 0)) [
          | inl z ↦ unfold del_by_int in rw z inv
          | inr n ↦ rw (del_pos n) (
              (dict_del-dict_get lists d (int_key x) inv (int_key-IsValid x) (int_key x)
                (int_key-IsValid x)).0)
        ]

        reads :
            (y : ℕ)
            → y < 2 ^ 64
            → 0 < x
            → tlvptr (get_by_int lists true (del_by_int lists true d x) y)
              ≡ (if x == y then 0 else tlvptr (get_by_int lists true d y))
        reads y hy pos = rw (
          del_pos (ground arith),
          get_by_int-dict_get (dict_del lists d (int_key x)) y,
          (dict_del-dict_get lists d (int_key x) inv (int_key-IsValid x) (int_key y)
              (int_key-IsValid y)).1,
          int_same x y hx hy,
          tlvptr_gone (x == y) (dict_get lists d (int_key y)),
          get_by_int-dict_get d y,
        )

    -- Deleting a string removes that key alone.
    del_by_str-get_str_ptr :
        (k j : Bytes)
        → IsText k
        → IsText j
        → IsDict lists (del_by_str lists true d (some k))
          × (get_str_ptr lists true (del_by_str lists true d (some k)) (some j)
              ≡ (if bytes_eq k j then 0 else get_str_ptr lists true d (some j)))
    unfolding get_str_ptr del_by_str del_by_type
    del_by_str-get_str_ptr k j hk hj =
        let m =
          dict_del-dict_get lists d (str_key k) inv (str_key-IsValid k hk) (str_key j)
            (str_key-IsValid j hj) in
        rw (new_str k hk true, del_by_str, del_by_type)
          (
            m.0,
            ap tlvptr (get_by_str-dict_get lists (dict_del lists d (str_key k)) j hj ∙ m.1)
                ∙ tlvptr_gone (same_key (str_key k) (str_key j)) _
                ∙ rw (str_same k j hk hj, get_by_str-dict_get lists d j hj),
          )
