-- ===== src/Tlv/Make.antt =====
-- `holy_new_tlv` of utils/tlv.c, and the macros that read a value.
use holyhttp.Prelude.{
  ℕ, zero, suc, ◌+◌, ◌/◌, ◌^◌, ◌≤◌, ◌<◌, ◌≡◌, refl, [], ◌∷◌, ◌++◌, none, some, arith, ◌==◌, ◌||◌,
  Bool, true, false, not, length, Bytes, take, All, IsText, Bool-cases, inl, inr, take_all, ap, sym,
  ◌∙◌, take-append, length-append, subst, length-take, append_assoc, All-append_left, drop,
  take-append-drop, ◌⊎◌,
}
use holyhttp.Tlv.{
  Tlv, TlvType, tlv_int, tlv_str, tlv_ptr, tlv_bin, c_str, new_tlv, tlv_len, from_le, to_le, tlvstr,
  tlvint,
}
use holyhttp.Tlv.Laws.{IsByte, IsValue, IsValid, from_le-to_le}

pub c_str-text : (s rest : Bytes) → IsText s → c_str (s ++ 0 ∷ rest) ≡ s
unfolding c_str
c_str-text [] rest h = refl
c_str-text (c ∷ s) rest h =
    let e : (c == 0) ≡ false = ground arith in rw e (ap (◌∷◌ c) (c_str-text s rest h.1))

-- What a caller hands over to `holy_new_tlv`: memory that is long enough for the type.
abbrev pub IsReadable : TlvType → ℕ → Bytes → Type 0
IsReadable tlv_int len memory = 8 ≤ length memory
IsReadable tlv_ptr len memory = 8 ≤ length memory
IsReadable tlv_str len memory =
    (rest : Bytes) × (memory ≡ c_str memory ++ 0 ∷ rest) × IsText (c_str memory)
IsReadable tlv_bin len memory = len ≤ length memory

length-take_le : (n : ℕ) (xs : Bytes) → n ≤ length xs → length (take n xs) ≡ n
length-take_le n xs h = omega (arith, length-take n xs)

take-c_str :
    (memory rest : Bytes)
    → memory ≡ c_str memory ++ 0 ∷ rest
    → take (length (c_str memory) + 1) memory ≡ c_str memory ++ 0 ∷ []
take-c_str memory rest e = go (c_str memory) memory e
  where
    go : (s m : Bytes) → m ≡ s ++ 0 ∷ rest → take (length s + 1) m ≡ s ++ 0 ∷ []
    go s m e =
        ap (take (length s + 1)) (e ∙ sym (append_assoc s (0 ∷ []) rest))
        ∙ ap (λ (n : ℕ). take n ((s ++ 0 ∷ []) ++ rest)) (sym (length-append s (0 ∷ [])))
        ∙ take-append (s ++ 0 ∷ []) rest

All-take : (n : ℕ) (xs : Bytes) → All IsByte xs → All IsByte (take n xs)
All-take n xs h =
    All-append_left IsByte (take n xs) (drop n xs)
      (subst (All IsByte) (sym (take-append-drop n xs)) h)

new_tlv-IsValue :
    (type : TlvType) (len : ℕ) (memory : Bytes)
    → IsReadable type len memory
    → IsValue type (tlv_len type len memory) (take (tlv_len type len memory) memory)
unfolding tlv_len
new_tlv-IsValue tlv_int len memory h = (refl, length-take_le 8 memory h)
new_tlv-IsValue tlv_ptr len memory h = (refl, length-take_le 8 memory h)
new_tlv-IsValue tlv_str len memory (rest, e, text) = (
  c_str memory,
  take-c_str memory rest e,
  refl,
  rw (take-c_str memory rest e) (c_str-text (c_str memory) [] text),
)
new_tlv-IsValue tlv_bin len memory h = length-take_le len memory h

-- From memory that is long enough for the type `holy_new_tlv` makes a well laid out value of that
-- type, unless the length is 0 or the allocation fails; then it returns null.
pub new_tlv-IsValid :
    (alloc : Bool) (type : TlvType) (len : ℕ) (memory : Bytes)
    → All IsByte memory
    → IsReadable type len memory
    → ((new_tlv alloc type len (some memory) ≡ none) × ((len ≡ 0) ⊎ (alloc ≡ false)))
      ⊎ ((tlv : Tlv) × (new_tlv alloc type len (some memory) ≡ some tlv)
          × (tlv.t ≡ type)
          × IsValid tlv)
unfolding new_tlv
new_tlv-IsValid alloc type len memory bytes readable = elim (Bool-cases (len == 0 || not alloc)) [
  | inl refused ↦ inl (rw refused, ground arith)
  | inr made ↦ inr (
    record { t = type; l = tlv_len type len memory; v = take (tlv_len type len memory) memory },
    rw made,
    refl,
    record { bytes = All-take _ memory bytes; layout = new_tlv-IsValue type len memory readable },
  )
]

pub length-to_le : (n x : ℕ) → length (to_le n x) ≡ n
unfolding to_le
length-to_le zero x = refl
length-to_le (suc n) x = ap suc (length-to_le n (x / 256))

-- A `long` or a pointer that is stored is read back unchanged.
pub tlvint-new_tlv :
    (type : TlvType) (x : ℕ)
    → (type ≡ tlv_int) ⊎ (type ≡ tlv_ptr)
    → x < 2 ^ 64
    → tlvint (new_tlv true type 8 (some (to_le 8 x))) ≡ x
unfolding new_tlv tlvint tlv_len
tlvint-new_tlv type x h lt =
    let t : take 8 (to_le 8 x) ≡ to_le 8 x = take_all 8 _ (omega (arith, length-to_le 8 x)) in
    let r = from_le-to_le 8 x (omega arith) in ground (arith, ap (take 8) t, ap from_le t, r)

-- A string that is stored is read back unchanged.
pub tlvstr-new_tlv :
    (s : Bytes)
    → IsText s
    → tlvstr (new_tlv true tlv_str (length s + 1) (some (s ++ 0 ∷ []))) ≡ some s
unfolding new_tlv tlvstr tlv_len
tlvstr-new_tlv s h =
    let positive : (length s + 1 == 0) ≡ false = ground arith in
    let text : c_str (s ++ 0 ∷ []) ≡ s = c_str-text s [] h in
    let whole = take-c_str (s ++ 0 ∷ []) [] (ap (λ (u : Bytes). u ++ 0 ∷ []) (sym text)) in
    rw (positive, whole, text) (ap some text)
