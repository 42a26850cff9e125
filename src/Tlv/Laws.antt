-- ===== src/Tlv/Laws.antt =====
-- Comparing and hashing values of utils/tlv.c.
use holyhttp.Prelude.{
  ℕ, zero, suc, ◌+◌, ◌/◌, ◌^◌, ◌<◌, ◌≡◌, refl, [], ◌∷◌, ◌++◌, some, arith, true, length, Bytes,
  take, All, eq_of_bytes_eq, bytes_eq_refl, ◌↔◌, take_all, ap, sym, ◌∙◌, subst,
}
use native.Mathlib.Nat.{pow-suc}
use holyhttp.Tlv.{
  Tlv, TlvType, tlv_int, tlv_str, tlv_ptr, tlv_bin, c_str, from_le, to_le, tlvint, same_type,
  same_value, tlv_is_equal, tlv_hash,
}

abbrev pub IsByte : ℕ → Type 0
IsByte b = b < 256

-- The object behind the header of each type, as `holy_new_tlv` lays it out.
abbrev pub IsValue : TlvType → ℕ → Bytes → Type 0
IsValue tlv_int l v = (l ≡ 8) × (length v ≡ 8)
IsValue tlv_ptr l v = (l ≡ 8) × (length v ≡ 8)
IsValue tlv_str l v = (s : Bytes) × (v ≡ s ++ 0 ∷ []) × (l ≡ length s + 1) × (c_str v ≡ s)
IsValue tlv_bin l v = length v ≡ l

pub record IsValid (a : Tlv) : Type 0 where
  pub bytes : All IsByte a.v
  pub layout : IsValue a.t a.l a.v

from_le_inj :
    (a b : Bytes)
    → All IsByte a
    → All IsByte b
    → length a ≡ length b
    → from_le a ≡ from_le b
    → a ≡ b
unfolding from_le
from_le_inj [] [] h k e q = refl
from_le_inj [] (y ∷ b) h k e q = absurd (omega arith)
from_le_inj (x ∷ a) [] h k e q = absurd (omega arith)
from_le_inj (x ∷ a) (y ∷ b) h k e q =
    let p : x ≡ y = omega arith in
    let r : from_le a ≡ from_le b = omega arith in cc (p, from_le_inj a b h.1 k.1 (omega arith) r)

pub from_le-to_le : (n x : ℕ) → x < 256 ^ n → from_le (to_le n x) ≡ x
unfolding from_le to_le
from_le-to_le zero x h = omega arith
from_le-to_le (suc n) x h = omega (arith, from_le-to_le n (x / 256) (omega (arith, pow-suc 256 n)))

from_le-of_long :
    (a b : Bytes)
    → All IsByte a
    → All IsByte b
    → length a ≡ 8
    → length b ≡ 8
    → from_le (take 8 a) ≡ from_le (take 8 b)
    → a ≡ b
from_le-of_long a b h k e f q =
    from_le_inj a b h k (e ∙ sym f)
      (ap from_le (sym (take_all 8 a (omega arith))) ∙ q ∙ ap from_le (take_all 8 b (omega arith)))

same_value_sound :
    (type : TlvType) (a b : Tlv)
    → All IsByte a.v
    → All IsByte b.v
    → IsValue type a.l a.v
    → IsValue type b.l b.v
    → a.l ≡ b.l
    → same_value type a b ≡ true
    → a.v ≡ b.v
unfolding same_value tlvint
same_value_sound tlv_int a b p q x y e h = from_le-of_long a.v b.v p q x.1 y.1 (ground arith)
same_value_sound tlv_ptr a b p q x y e h = from_le-of_long a.v b.v p q x.1 y.1 (ground arith)
same_value_sound tlv_str a b p q (s, va, la, ca) (t, vb, lb, cb) e h =
    va
    ∙ ap (λ (u : Bytes). u ++ 0 ∷ []) (sym ca ∙ eq_of_bytes_eq (c_str a.v) (c_str b.v) h ∙ cb)
    ∙ sym vb
same_value_sound tlv_bin a b p q x y e h =
    sym (take_all a.l a.v (omega arith))
    ∙ eq_of_bytes_eq (take a.l a.v) (take a.l b.v) h
    ∙ take_all a.l b.v (omega arith)

same_value_refl : (type : TlvType) (a : Tlv) → same_value type a a ≡ true
unfolding same_value
same_value_refl tlv_int a = ground arith
same_value_refl tlv_ptr a = ground arith
same_value_refl tlv_str a = bytes_eq_refl (c_str a.v)
same_value_refl tlv_bin a = bytes_eq_refl (take a.l a.v)

same_type_sound : (t u : TlvType) → same_type t u ≡ true → t ≡ u
unfolding same_type
same_type_sound t u h = ground arith

same_type_refl : (t : TlvType) → same_type t t ≡ true
unfolding same_type
same_type_refl t = ground arith

tlv_ext : (a b : Tlv) → a.t ≡ b.t → a.l ≡ b.l → a.v ≡ b.v → a ≡ b
tlv_ext a b p q r = λ i. record { t = p i; l = q i; v = r i }

is_equal_sound : (a b : Tlv) → IsValid a → IsValid b → tlv_is_equal (some a) (some b) ≡ true → a ≡ b
unfolding tlv_is_equal
is_equal_sound a b va vb h =
    let type : a.t ≡ b.t = same_type_sound a.t b.t (ground arith) in
    let len : a.l ≡ b.l = ground arith in
    let value : same_value a.t a b ≡ true = ground arith in
    tlv_ext a b type len (
      same_value_sound a.t a b va.bytes vb.bytes va.layout
        (subst (λ (t : TlvType). IsValue t b.l b.v) (sym type) vb.layout) len value)

is_equal_refl : (a : Tlv) → tlv_is_equal (some a) (some a) ≡ true
unfolding tlv_is_equal
is_equal_refl a = ground (arith, same_type_refl a.t, same_value_refl a.t a)

-- On values that are laid out as `holy_new_tlv` lays them out, the comparison is equality: of the
-- type, of the length and of every byte.
pub tlv_is_equal_iff :
    (a b : Tlv) → IsValid a → IsValid b → (tlv_is_equal (some a) (some b) ≡ true) ↔ (a ≡ b)
tlv_is_equal_iff a b va vb = (
  is_equal_sound a b va vb,
  λ e. subst (λ (x : Tlv). tlv_is_equal (some a) (some x) ≡ true) e (is_equal_refl a),
)

-- Keys that the comparison takes for equal hash alike, so equal keys share a bucket.
tlv_hash-tlv_is_equal :
    (a b : Tlv)
    → IsValid a
    → IsValid b
    → tlv_is_equal (some a) (some b) ≡ true
    → tlv_hash a ≡ tlv_hash b
tlv_hash-tlv_is_equal a b va vb h = ap tlv_hash (is_equal_sound a b va vb h)
