-- ===== src/Dict/Access.antt =====
-- The keys and values that the typed entry points of utils/dict.c pack.
use holyhttp.ListHead.{ListHead}
use holyhttp.Prelude.{
  ℕ, zero, suc, ◌+◌, ◌/◌, ◌^◌, ◌<◌, ◌≡◌, refl, [], ◌∷◌, ◌++◌, none, some, arith, if◌then◌else◌,
  ◌==◌, ◌&&◌, Bool, true, false, length, Bytes, All, IsText, bytes_eq, eq_of_bytes_eq,
  bytes_eq_refl, ap, sym, ◌∙◌, subst, All-append, take, take_all, ==_iff, length-append,
}
use holyhttp.Tlv.{
  Tlv, tlv_int, tlv_str, tlv_ptr, new_tlv, tlv_len, tlvstr, tlvint, tlvptr, to_le, from_le, c_str,
}
use holyhttp.Tlv.Laws.{IsByte, IsValid, tlv_is_equal_iff, from_le-to_le}
use holyhttp.Tlv.Make.{c_str-text, length-to_le}
use holyhttp.Dict.Chain.{Kv, same_key}
use holyhttp.Dict.{Dict, dict_get, dict_set}
use holyhttp.Dict.Invariant.{IsDict}
use holyhttp.Dict.Map.{dict_set-dict_get}
use holyhttp.Dict.Typed.{Allocs, set_kv}

-- The key that a string is packed into.
pub str_key : Bytes → Tlv
str_key s = record { t = tlv_str; l = length s + 1; v = s ++ 0 ∷ [] }

pub int_key : ℕ → Tlv
int_key x = record { t = tlv_int; l = 8; v = to_le 8 x }

pub ptr_value : ℕ → Tlv
ptr_value x = record { t = tlv_ptr; l = 8; v = to_le 8 x }

IsText-bytes : (s : Bytes) → IsText s → All IsByte s
IsText-bytes [] h = tt
IsText-bytes (c ∷ s) h = (h.0.1, IsText-bytes s h.1)

pub str_key-IsValid : (s : Bytes) → IsText s → IsValid (str_key s)
unfolding str_key
str_key-IsValid s h = record {
  bytes = All-append IsByte s (0 ∷ []) (IsText-bytes s h) (omega arith, tt);
  layout = (s, refl, refl, c_str-text s [] h);
}

to_le-bytes : (n x : ℕ) → All IsByte (to_le n x)
unfolding to_le
to_le-bytes zero x = tt
to_le-bytes (suc n) x = (omega arith, to_le-bytes n (x / 256))

pub int_key-IsValid : (x : ℕ) → IsValid (int_key x)
unfolding int_key
int_key-IsValid x = record { bytes = to_le-bytes 8 x; layout = (refl, length-to_le 8 x) }

take_word : (x : ℕ) → take 8 (to_le 8 x) ≡ to_le 8 x
take_word x = take_all 8 _ (omega (arith, length-to_le 8 x))

take_str : (s : Bytes) → take (length s + 1) (s ++ 0 ∷ []) ≡ s ++ 0 ∷ []
take_str s = take_all _ _ (omega (arith, length-append s (0 ∷ [])))

pub new_str :
    (s : Bytes)
    → IsText s
    → (alloc : Bool)
    → new_tlv alloc tlv_str (length s + 1) (some (s ++ 0 ∷ []))
      ≡ (if alloc then some (str_key s) else none)
unfolding new_tlv str_key tlv_len
new_str s h true =
    let positive : (length s + 1 == 0) ≡ false = ground arith in
    rw (positive, c_str-text s [] h, take_str s)
new_str s h false = let positive : (length s + 1 == 0) ≡ false = ground arith in rw positive

pub new_int :
    (x : ℕ) (alloc : Bool)
    → new_tlv alloc tlv_int 8 (some (to_le 8 x)) ≡ (if alloc then some (int_key x) else none)
unfolding new_tlv int_key tlv_len
new_int x true = rw (take_word x)
new_int x false = refl

pub new_ptr :
    (x : ℕ) (alloc : Bool)
    → new_tlv alloc tlv_ptr 8 (some (to_le 8 x)) ≡ (if alloc then some (ptr_value x) else none)
unfolding new_tlv ptr_value tlv_len
new_ptr x true = rw (take_word x)
new_ptr x false = refl

pub tlvptr-ptr_value : (x : ℕ) → x < 2 ^ 64 → tlvptr (some (ptr_value x)) ≡ x
unfolding tlvint ptr_value
tlvptr-ptr_value x h = rw (take_word x) (from_le-to_le 8 x (omega arith))

pub tlvstr-str_key : (s : Bytes) → IsText s → tlvstr (some (str_key s)) ≡ some s
unfolding tlvstr str_key
tlvstr-str_key s h = ap some (c_str-text s [] h)

Bool_eq_of_iff : (a b : Bool) → (a ≡ true → b ≡ true) → (b ≡ true → a ≡ true) → a ≡ b
Bool_eq_of_iff true b f g = sym (f refl)
Bool_eq_of_iff false true f g = g refl
Bool_eq_of_iff false false f g = refl

-- String keys are the same exactly when the strings are.
pub str_same : (k j : Bytes) → IsText k → IsText j → same_key (str_key k) (str_key j) ≡ bytes_eq k j
str_same k j hk hj =
    let same =
      tlv_is_equal_iff (str_key k) (str_key j) (str_key-IsValid k hk) (str_key-IsValid j hj) in
    Bool_eq_of_iff _ _ (λ h. eq_bytes (strings (same.0 h)))
      (λ h. same.1 (ap str_key (eq_of_bytes_eq k j h)))
  where
    strings : str_key k ≡ str_key j → k ≡ j
    strings e =
        let f : c_str (k ++ 0 ∷ []) ≡ c_str (j ++ 0 ∷ []) =
          unfold str_key in ap (λ (a : Tlv). c_str a.v) e in
        sym (c_str-text k [] hk) ∙ f ∙ c_str-text j [] hj

    eq_bytes : k ≡ j → bytes_eq k j ≡ true
    eq_bytes e = subst (λ (x : Bytes). bytes_eq k x ≡ true) e (bytes_eq_refl k)

pub int_same : (x y : ℕ) → x < 2 ^ 64 → y < 2 ^ 64 → same_key (int_key x) (int_key y) ≡ x == y
int_same x y hx hy =
    let same = tlv_is_equal_iff (int_key x) (int_key y) (int_key-IsValid x) (int_key-IsValid y) in
    Bool_eq_of_iff _ _ (λ h. (==_iff x y).1 (numbers (same.0 h)))
      (λ h. same.1 (ap int_key ((==_iff x y).0 h)))
  where
    numbers : int_key x ≡ int_key y → x ≡ y
    numbers e =
        let f : from_le (to_le 8 x) ≡ from_le (to_le 8 y) =
          unfold int_key in ap (λ (a : Tlv). from_le a.v) e in
        sym (from_le-to_le 8 x (omega arith)) ∙ f ∙ from_le-to_le 8 y (omega arith)

-- Every allocation of a call succeeds.
abbrev pub all_ok : Allocs → Bool
all_ok a = a.key && a.value && a.entry

module _ (lists : ListHead Kv) where
  -- What storing does, in terms of the packed key and value.
  pub record Stores (a : Allocs) (d : Dict lists) (k v : Tlv) (r : Bool × Dict lists) : Type 0 where
    pub returns : r.0 ≡ all_ok a
    pub keeps : IsDict lists r.1
    pub fails : all_ok a ≡ false → r.1 ≡ d
    pub reads :
        (q : Tlv)
        → IsValid q
        → dict_get lists r.1 q ≡ (if all_ok a && same_key k q then some v else dict_get lists d q)

  pub set_kv-Stores :
      (a : Allocs) (d : Dict lists) (k v : Tlv)
      → IsDict lists d
      → IsValid k
      → Stores a d k v (
          set_kv lists a.entry d
            (if a.key then some k else none)
            (if a.value then some v else none))
  unfolding dict_set
  set_kv-Stores a d k v inv vk = go a.key a.value a.entry
    where
      go :
          (x y z : Bool)
          → Stores
              (record { key = x; value = y; entry = z })
              d
              k
              v
              (set_kv lists z d (if x then some k else none) (if y then some v else none))
      go true true true =
          let s = dict_set-dict_get lists d k inv vk v k vk in
          unfold set_kv in
          record {
            returns = s.1;
            keeps = s.2;
            fails = λ h. cc;
            reads = λ q vq. (dict_set-dict_get lists d k inv vk v q vq).3;
          }
      go true true false =
          unfold set_kv in
          record { returns = refl; keeps = inv; fails = λ h. refl; reads = λ q vq. refl }
      go true false z =
          unfold set_kv in
          record { returns = refl; keeps = inv; fails = λ h. refl; reads = λ q vq. refl }
      go false y z =
          unfold set_kv in
          record { returns = refl; keeps = inv; fails = λ h. refl; reads = λ q vq. refl }
