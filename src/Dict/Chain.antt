-- ===== src/Dict/Chain.antt =====
-- One bucket: the search of `dict_find` and what removing and appending do to it.
use holyhttp.Prelude.{
  ℕ, suc, ◌≡◌, refl, List, [], ◌∷◌, ◌++◌, Option, none, some, if◌then◌else◌, Bool, true, false,
  length, remove_at, All, ap, sym, ◌∙◌, subst, Bool-cases, inl, inr, ◌⊎◌,
}
use mathlib.Core.Bool.{false≢true}
use mathlib.Core.Option
use mathlib.Core.Option.{or_else}
use holyhttp.Tlv.{Tlv, tlv_is_equal}
use holyhttp.Tlv.Laws.{IsValid, tlv_is_equal_iff}

pub record Kv : Type 0 where
  pub key : Tlv
  pub value : Tlv

abbrev pub same_key : Tlv → Tlv → Bool
same_key a b = tlv_is_equal (some a) (some b)

-- The loop of `dict_find`, with the position of the entry that it stops at.
unfoldable pub find_kv : Tlv → List Kv → Option (ℕ × Kv)
find_kv key [] = none
find_kv key (kv ∷ kvs) =
    if same_key kv.key key then some (0, kv) else Option.map (λ r. (suc r.0, r.1)) (find_kv key kvs)

-- The value that a bucket holds for a key.
unfoldable pub chain_get : Tlv → List Kv → Option Tlv
chain_get key [] = none
chain_get key (kv ∷ kvs) = if same_key kv.key key then some kv.value else chain_get key kvs

pub find_kv-chain_get :
    (key : Tlv) (kvs : List Kv)
    → Option.map (λ (r : ℕ × Kv). r.1.value) (find_kv key kvs) ≡ chain_get key kvs
unfolding find_kv chain_get
find_kv-chain_get key [] = refl
find_kv-chain_get key (kv ∷ kvs) = elim (Bool-cases (same_key kv.key key)) [
  | inl hit ↦ rw hit
  | inr miss ↦ rw (miss, ← (find_kv-chain_get key kvs)) (map_twice (find_kv key kvs))
]
  where
    map_twice :
        (o : Option (ℕ × Kv))
        → Option.map (λ (r : ℕ × Kv). r.1.value) (Option.map (λ (r : ℕ × Kv). (suc r.0, r.1)) o)
          ≡ Option.map (λ (r : ℕ × Kv). r.1.value) o
    map_twice none = refl
    map_twice (some r) = refl

-- The bucket without the entry that the search stops at.
unfoldable pub chain_del : Tlv → List Kv → List Kv
chain_del key [] = []
chain_del key (kv ∷ kvs) = if same_key kv.key key then kvs else kv ∷ chain_del key kvs

-- `dict_del` on one bucket.
pub find_kv-chain_del :
    (key : Tlv) (kvs : List Kv)
    → ((find_kv key kvs ≡ none) × (chain_del key kvs ≡ kvs))
      ⊎ ((pos : ℕ) × (kv : Kv) × (find_kv key kvs ≡ some (pos, kv))
          × (chain_del key kvs ≡ remove_at pos kvs)
          × (length kvs ≡ suc (length (chain_del key kvs))))
unfolding find_kv chain_del
find_kv-chain_del key [] = inl (refl, refl)
find_kv-chain_del key (kv ∷ kvs) = elim (Bool-cases (same_key kv.key key)) [
  | inl hit ↦ rw hit (inr (0, kv, refl, refl, refl))
  | inr miss ↦ rw miss (elim (find_kv-chain_del key kvs) [
    | inl (e, f) ↦ inl (rw e, ap (◌∷◌ kv) f)
    | inr (pos, found, e, f, g) ↦ inr (suc pos, found, rw e, ap (◌∷◌ kv) f, ap suc g)
  ])
]

-- A key occurs once in its bucket.
abbrev pub Distinct : List Kv → Type 0
Distinct [] = Unit {0}
Distinct (kv ∷ kvs) = (chain_get kv.key kvs ≡ none) × Distinct kvs

abbrev pub HasValidKey : Kv → Type 0
HasValidKey kv = IsValid kv.key

module _ {q : Tlv} (vq : IsValid q) where
  same_key_sound : (a : Tlv) → IsValid a → same_key a q ≡ true → a ≡ q
  same_key_sound a va h = (tlv_is_equal_iff a q va vq).0 h

  same_key_refl : same_key q q ≡ true
  same_key_refl = (tlv_is_equal_iff q q vq vq).1 refl

  pub chain_get-chain_del_self :
      (kvs : List Kv) → All HasValidKey kvs → Distinct kvs → chain_get q (chain_del q kvs) ≡ none
  unfolding chain_get chain_del
  chain_get-chain_del_self [] v d = refl
  chain_get-chain_del_self (kv ∷ kvs) v d = elim (Bool-cases (same_key kv.key q)) [
    | inl hit ↦ rw hit (subst (λ k. chain_get k kvs ≡ none) (same_key_sound kv.key v.0 hit) d.0)
    | inr miss ↦ rw (miss, miss) (chain_get-chain_del_self kvs v.1 d.1)
  ]

  pub chain_get-chain_del_ne :
      (key : Tlv) (kvs : List Kv)
      → IsValid key
      → All HasValidKey kvs
      → same_key key q ≡ false
      → chain_get q (chain_del key kvs) ≡ chain_get q kvs
  unfolding chain_get chain_del
  chain_get-chain_del_ne key [] vk v n = refl
  chain_get-chain_del_ne key (kv ∷ kvs) vk v n = elim (Bool-cases (same_key kv.key key)) [
    | inl hit ↦
        let e : kv.key ≡ key = (tlv_is_equal_iff kv.key key v.0 vk).0 hit in
        let miss : same_key kv.key q ≡ false = ap (λ k. same_key k q) e ∙ n in rw (hit, miss)
    | inr miss ↦ rw miss (
        ap (λ r. if same_key kv.key q then some kv.value else r)
          (chain_get-chain_del_ne key kvs vk v.1 n))
  ]

  pub chain_get-snoc :
      (kvs : List Kv) (kv : Kv)
      → chain_get q (kvs ++ kv ∷ [])
        ≡ or_else (chain_get q kvs) (if same_key kv.key q then some kv.value else none)
  unfolding chain_get or_else
  chain_get-snoc [] kv = refl
  chain_get-snoc (e ∷ kvs) kv = elim (Bool-cases (same_key e.key q)) [
    | inl hit ↦ rw hit
    | inr miss ↦ rw miss (chain_get-snoc kvs kv)
  ]

pub same_key_symm :
    (a b : Tlv) → IsValid a → IsValid b → same_key a b ≡ false → same_key b a ≡ false
same_key_symm a b va vb h = elim (Bool-cases (same_key b a)) [
  | inr e ↦ e
  | inl e ↦
      let q : b ≡ a = (tlv_is_equal_iff b a vb va).0 e in
      absurd (false≢true (sym h ∙ (tlv_is_equal_iff a b va vb).1 (sym q)))
]
