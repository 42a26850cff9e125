-- ===== src/Dict/Typed.antt =====
-- The typed entry points of utils/dict.c, which pack strings, numbers, pointers and blocks into
-- tagged values. A C string is the list of its bytes; a `long` or a pointer is its 64-bit pattern.
-- Every call of `malloc` takes a flag that says whether it succeeds. The tests for a null `self`,
-- which no caller passes, are left out.
use holyhttp.ListHead.{ListHead}
use holyhttp.Prelude.{
  ℕ, ◌+◌, [], ◌∷◌, ◌++◌, Option, none, some, if◌then◌else◌, ◌==◌, Bool, false, length, Bytes,
}
use mathlib.Core.Option
use holyhttp.Tlv.{
  Tlv, TlvType, tlv_int, tlv_str, tlv_ptr, tlv_bin, new_tlv, tlvstr, tlvint, tlvptr, to_le,
}
use holyhttp.Dict.Chain.{Kv}
use holyhttp.Dict.{Dict, dict_get, dict_del, dict_set}

-- Whether the key, the value and the entry can be allocated.
pub record Allocs : Type 0 where
  pub key : Bool
  pub value : Bool
  pub entry : Bool

-- The memory behind a C string, a `long` and a pointer to a pointer.
abbrev pub str_memory : Bytes → Option Bytes
str_memory s = some (s ++ 0 ∷ [])

abbrev pub word_memory : ℕ → Option Bytes
word_memory x = some (to_le 8 x)

module _ (lists : ListHead Kv) where
  unfoldable pub set_kv : Bool → Dict lists → Option Tlv → Option Tlv → Bool × Dict lists
  set_kv entry self none v = (false, self)
  set_kv entry self (some k) none = (false, self)
  set_kv entry self (some k) (some v) = dict_set lists entry self k v

  unfoldable pub set_type_type :
      Allocs
      → Dict lists
      → TlvType
      → ℕ
      → Option Bytes
      → TlvType
      → ℕ
      → Option Bytes
      → Bool × Dict lists
  unfolding set_kv
  set_type_type a self kt kl kv vt vl vv =
      set_kv a.entry self (new_tlv a.key kt kl kv) (new_tlv a.value vt vl vv)

  unfoldable pub get_type_type : Bool → Dict lists → TlvType → ℕ → Option Bytes → Option Tlv
  get_type_type alloc self kt kl kv = elim (new_tlv alloc kt kl kv) [
    | none ↦ none
    | some k ↦ dict_get lists self k
  ]

  unfoldable pub del_by_type : Bool → Dict lists → TlvType → ℕ → Option Bytes → Dict lists
  del_by_type alloc self kt kl kv = elim (new_tlv alloc kt kl kv) [
    | none ↦ self
    | some k ↦ dict_del lists self k
  ]

  -- Keys that are strings.
  unfoldable pub set_str_str : Allocs → Dict lists → Option Bytes → Option Bytes → Bool × Dict lists
  unfolding set_type_type
  set_str_str a self none value = (false, self)
  set_str_str a self (some key) none = (false, self)
  set_str_str a self (some key) (some value) =
      set_type_type a self tlv_str (length key + 1) (str_memory key) tlv_str (length value + 1)
        (str_memory value)

  unfoldable pub get_by_str : Bool → Dict lists → Bytes → Option Tlv
  unfolding get_type_type
  get_by_str alloc self key = get_type_type alloc self tlv_str (length key + 1) (str_memory key)

  unfoldable pub get_str_str : Bool → Dict lists → Option Bytes → Option Bytes
  unfolding get_by_str tlvstr
  get_str_str alloc self none = none
  get_str_str alloc self (some key) = tlvstr (get_by_str alloc self key)

  unfoldable pub set_str_bin :
      Allocs → Dict lists → Option Bytes → Option Bytes → ℕ → Bool × Dict lists
  unfolding set_type_type
  set_str_bin a self none value vlen = (false, self)
  set_str_bin a self (some key) none vlen = (false, self)
  set_str_bin a self (some key) (some value) vlen =
      set_type_type a self tlv_str (length key + 1) (str_memory key) tlv_bin vlen (some value)

  -- The value and its length. (The caller's `vlen` may be null; the length is then not stored.)
  unfoldable pub get_str_bin : Bool → Dict lists → Option Bytes → Option (Bytes × ℕ)
  unfolding get_by_str
  get_str_bin alloc self none = none
  get_str_bin alloc self (some key) = Option.map (λ v. (v.v, v.l)) (get_by_str alloc self key)

  unfoldable pub set_str_ptr : Allocs → Dict lists → Option Bytes → ℕ → Bool × Dict lists
  unfolding set_type_type
  set_str_ptr a self none value = (false, self)
  set_str_ptr a self (some key) value =
      set_type_type a self tlv_str (length key + 1) (str_memory key) tlv_ptr 8 (word_memory value)

  unfoldable pub get_str_ptr : Bool → Dict lists → Option Bytes → ℕ
  unfolding get_by_str tlvint
  get_str_ptr alloc self none = 0
  get_str_ptr alloc self (some key) = tlvptr (get_by_str alloc self key)

  -- Keys that are numbers.
  unfoldable pub set_int_int : Allocs → Dict lists → ℕ → ℕ → Bool × Dict lists
  unfolding set_type_type
  set_int_int a self key value =
      set_type_type a self tlv_int 8 (word_memory key) tlv_int 8 (word_memory value)

  unfoldable pub get_by_int : Bool → Dict lists → ℕ → Option Tlv
  unfolding get_type_type
  get_by_int alloc self key = get_type_type alloc self tlv_int 8 (word_memory key)

  unfoldable pub get_int_int : Bool → Dict lists → ℕ → ℕ
  unfolding get_by_int tlvint
  get_int_int alloc self key = tlvint (get_by_int alloc self key)

  unfoldable pub set_int_bin : Allocs → Dict lists → ℕ → Option Bytes → ℕ → Bool × Dict lists
  unfolding set_type_type
  set_int_bin a self key none vlen = (false, self)
  set_int_bin a self key (some value) vlen =
      if vlen == 0
      then (false, self)
      else set_type_type a self tlv_int 8 (word_memory key) tlv_bin vlen (some value)

  unfoldable pub get_int_bin : Bool → Dict lists → ℕ → Option (Bytes × ℕ)
  unfolding get_by_int
  get_int_bin alloc self key = Option.map (λ v. (v.v, v.l)) (get_by_int alloc self key)

  unfoldable pub set_int_ptr : Allocs → Dict lists → ℕ → ℕ → Bool × Dict lists
  unfolding set_type_type
  set_int_ptr a self key value =
      set_type_type a self tlv_int 8 (word_memory key) tlv_ptr 8 (word_memory value)

  unfoldable pub get_int_ptr : Bool → Dict lists → ℕ → ℕ
  unfolding get_by_int tlvint
  get_int_ptr alloc self key = tlvptr (get_by_int alloc self key)

  unfoldable pub del_by_str : Bool → Dict lists → Option Bytes → Dict lists
  unfolding del_by_type
  del_by_str alloc self none = self
  del_by_str alloc self (some key) =
      del_by_type alloc self tlv_str (length key + 1) (str_memory key)

  -- `if (key)`: the key 0 is never deleted.
  unfoldable pub del_by_int : Bool → Dict lists → ℕ → Dict lists
  unfolding del_by_type
  del_by_int alloc self key =
      if key == 0 then self else del_by_type alloc self tlv_int 8 (word_memory key)
