-- ===== src/Tlv.antt =====
-- utils/tlv.c: values tagged with a type and a length.
pub mod Laws
pub mod Make
use holyhttp.Prelude.{
  ℕ, zero, suc, ◌+◌, ◌-◌, ◌*◌, ◌/◌, ◌%◌, ◌^◌, ◌≤◌, ◌<◌, ◌≡◌, refl, ◌≢◌, List, [], ◌∷◌, ◌++◌, Option,
  none, some, arith, if◌then◌else◌, ltb, ◌==◌, ◌&&◌, ◌||◌, Bool, true, false, not, length, Bytes,
  take, codes, bytes_eq,
}
use holyhttp.Text.Hash.{bkdr_hash, bkdr_hash_bin}

pub data TlvType : Type 0 where
  tlv_int tlv_str tlv_ptr tlv_bin : TlvType

pub record Tlv : Type 0 where
  pub t : TlvType
  pub l : ℕ
  pub v : Bytes

-- `TLV_INT_LEN` and `sizeof (void *)` on the 64-bit targets.
abbrev pub tlv_int_len : ℕ
tlv_int_len = 8

-- The C string at the front of a block of memory: the bytes before the first NUL.
unfoldable pub c_str : Bytes → Bytes
c_str [] = []
c_str (c ∷ s) = if c == 0 then [] else c ∷ c_str s

-- The bytes that a value of each type takes.
unfoldable pub tlv_len : TlvType → ℕ → Bytes → ℕ
unfolding c_str
tlv_len tlv_int len memory = tlv_int_len
tlv_len tlv_ptr len memory = 8
tlv_len tlv_str len memory = length (c_str memory) + 1
tlv_len tlv_bin len memory = len

-- `memory` is what can be read from the pointer `value` on; `alloc` says whether `malloc` succeeds.
-- (The `default` branch is for numbers that are no `tlv_type_t`.)
unfoldable pub new_tlv : Bool → TlvType → ℕ → Option Bytes → Option Tlv
unfolding tlv_len
new_tlv alloc type len none = none
new_tlv alloc type len (some memory) =
    if len == 0 || not alloc
    then none
    else some (record {
      t = type;
      l = tlv_len type len memory;
      v = take (tlv_len type len memory) memory;
    })

-- Little-endian bytes as a number.
unfoldable pub from_le : Bytes → ℕ
from_le [] = 0
from_le (b ∷ s) = b + 256 * from_le s

-- The low `n` bytes of a number, the least first: how an object stands in memory.
unfoldable pub to_le : ℕ → ℕ → Bytes
to_le zero x = []
to_le (suc n) x = x % 256 ∷ to_le n (x / 256)

-- `TLVSTR`, `TLVINT` and `TLVPTR`: a null pointer reads as null or 0. A `long` is its bit pattern.
unfoldable pub tlvstr : Option Tlv → Option Bytes
unfolding c_str
tlvstr none = none
tlvstr (some tlv) = some (c_str tlv.v)

unfoldable pub tlvint : Option Tlv → ℕ
unfolding from_le
tlvint none = 0
tlvint (some tlv) = from_le (take tlv_int_len tlv.v)

abbrev pub tlvptr : Option Tlv → ℕ
tlvptr = tlvint

same_type : TlvType → TlvType → Bool
same_type tlv_int tlv_int = true
same_type tlv_str tlv_str = true
same_type tlv_ptr tlv_ptr = true
same_type tlv_bin tlv_bin = true
same_type _ _ = false

-- The comparison of the values, by the type that both have.
unfoldable pub same_value : TlvType → Tlv → Tlv → Bool
unfolding tlvint c_str bytes_eq
same_value tlv_int a b = tlvint (some a) == tlvint (some b)
same_value tlv_ptr a b = tlvptr (some a) == tlvptr (some b)
same_value tlv_str a b = bytes_eq (c_str a.v) (c_str b.v)
same_value tlv_bin a b = bytes_eq (take a.l a.v) (take a.l b.v)

unfoldable pub tlv_is_equal : Option Tlv → Option Tlv → Bool
unfolding same_type same_value
tlv_is_equal none none = true
tlv_is_equal none (some b) = false
tlv_is_equal (some a) none = false
tlv_is_equal (some a) (some b) =
    if not (same_type a.t b.t) || not (a.l == b.l) then false else same_value a.t a b

unfoldable pub tlv_hash_by : TlvType → Tlv → ℕ
unfolding from_le c_str bkdr_hash bkdr_hash_bin
tlv_hash_by tlv_int key = from_le (take 4 key.v)
tlv_hash_by tlv_ptr key = from_le (take 4 key.v)
tlv_hash_by tlv_str key = bkdr_hash (some (c_str key.v))
tlv_hash_by tlv_bin key = bkdr_hash_bin (some key.v) key.l

unfoldable pub tlv_hash : Tlv → ℕ
unfolding tlv_hash_by
tlv_hash key = tlv_hash_by key.t key

unfoldable pub tlv_type2str : TlvType → Bytes
tlv_type2str tlv_int = codes "<tlv.int>"
tlv_type2str tlv_ptr = codes "<tlv.pointer>"
tlv_type2str tlv_str = codes "<tlv.string>"
tlv_type2str tlv_bin = codes "<tlv.binary>"
