-- ===== src/Dict/Invariant.antt =====
-- The well-formed dictionary of utils/dict.c, and its view as a map.
use holyhttp.ListHead.{ListHead}
use holyhttp.Prelude.{
  ℕ, ◌%◌, ◌^◌, ◌≡◌, refl, List, [], ◌∷◌, ◌++◌, Option, none, some, arith, length, All, All-append,
  ◌∙◌, Bool-cases, inl, inr,
}
use mathlib.Core.Option.{or_else}
use holyhttp.Tlv.{Tlv}
use holyhttp.Tlv.Laws.{IsValid}
use holyhttp.Dict.Chain.{
  Kv, HasValidKey, Distinct, same_key, chain_get, chain_del, find_kv-chain_get, chain_get-snoc,
  same_key_symm,
}
use holyhttp.Dict.Sum.{sum_below}
use holyhttp.Dict.{Dict, dict_hash_size, bucket, dict_find, dict_get}

-- What a bucket of a well-formed dictionary looks like: valid keys that belong there, each once.
pub record IsBucket (i : ℕ) (kvs : List Kv) : Type 0 where
  pub keys : All HasValidKey kvs
  pub placed : All (λ (kv : Kv). bucket kv.key ≡ i) kvs
  pub distinct : Distinct kvs

chain_del-All :
    (P : Kv → Type 0) (key : Tlv) (kvs : List Kv) → All P kvs → All P (chain_del key kvs)
unfolding chain_del
chain_del-All P key [] h = tt
chain_del-All P key (kv ∷ kvs) h = elim (Bool-cases (same_key kv.key key)) [
  | inl hit ↦ rw hit h.1
  | inr miss ↦ rw miss (h.0, chain_del-All P key kvs h.1)
]

chain_del-none :
    (key k : Tlv) (kvs : List Kv) → chain_get k kvs ≡ none → chain_get k (chain_del key kvs) ≡ none
unfolding chain_del chain_get
chain_del-none key k [] h = refl
chain_del-none key k (kv ∷ kvs) h = elim (Bool-cases (same_key kv.key k)) [
  | inl own ↦ ground arith
  | inr other ↦
      let rest : chain_get k kvs ≡ none = ground arith in
      elim (Bool-cases (same_key kv.key key)) [
        | inl hit ↦ rw hit rest
        | inr miss ↦ rw (miss, other) (chain_del-none key k kvs rest)
      ]
]

chain_del-Distinct : (key : Tlv) (kvs : List Kv) → Distinct kvs → Distinct (chain_del key kvs)
unfolding chain_del
chain_del-Distinct key [] d = tt
chain_del-Distinct key (kv ∷ kvs) d = elim (Bool-cases (same_key kv.key key)) [
  | inl hit ↦ rw hit d.1
  | inr miss ↦ rw miss (chain_del-none key kv.key kvs d.0, chain_del-Distinct key kvs d.1)
]

pub chain_del-IsBucket :
    (i : ℕ) (key : Tlv) (kvs : List Kv) → IsBucket i kvs → IsBucket i (chain_del key kvs)
chain_del-IsBucket i key kvs b = record {
  keys = chain_del-All _ key kvs b.keys;
  placed = chain_del-All _ key kvs b.placed;
  distinct = chain_del-Distinct key kvs b.distinct;
}

snoc-Distinct :
    (kvs : List Kv) (kv : Kv)
    → All HasValidKey kvs
    → IsValid kv.key
    → chain_get kv.key kvs ≡ none
    → Distinct kvs
    → Distinct (kvs ++ kv ∷ [])
unfolding chain_get or_else
snoc-Distinct [] kv v vk n d = (refl, tt)
snoc-Distinct (e ∷ kvs) kv v vk n d = elim (Bool-cases (same_key e.key kv.key)) [
  | inl own ↦ absurd (none_some e.value (ground arith))
  | inr other ↦
      let rest : chain_get kv.key kvs ≡ none = ground arith in
      let apart = same_key_symm e.key kv.key v.0 vk other in
      (chain_get-snoc v.0 kvs kv ∙ rw (d.0, apart), snoc-Distinct kvs kv v.1 vk rest d.1)
]
  where
    none_some : (v : Tlv) → none ≡ some v → ⊥
    none_some v h = cc

pub snoc-IsBucket :
    (i : ℕ) (kvs : List Kv) (kv : Kv)
    → IsBucket i kvs
    → IsValid kv.key
    → bucket kv.key ≡ i
    → chain_get kv.key kvs ≡ none
    → IsBucket i (kvs ++ kv ∷ [])
snoc-IsBucket i kvs kv b vk home n = record {
  keys = All-append _ kvs (kv ∷ []) b.keys (vk, tt);
  placed = All-append _ kvs (kv ∷ []) b.placed (home, tt);
  distinct = snoc-Distinct kvs kv b.keys vk n b.distinct;
}

module _ (lists : ListHead Kv) where
  abbrev pub chain : Dict lists → ℕ → List Kv
  chain d i = lists.items (d.kvs i)

  -- The number of entries in all buckets.
  abbrev pub total : Dict lists → ℕ
  total d = sum_below dict_hash_size (λ i. length (chain d i))

  -- Every bucket is in order, and `count` is the number of entries, in 32 bits.
  pub record IsDict (d : Dict lists) : Type 0 where
    pub buckets : (i : ℕ) → IsBucket i (chain d i)
    pub counted : d.count ≡ total d % 2 ^ 32

  -- The dictionary as a function from keys to values.
  unfoldable pub view : Dict lists → Tlv → Option Tlv
  view d q = chain_get q (chain d (bucket q))

  -- Reading finds what the view holds.
  pub dict_get-view : (d : Dict lists) (q : Tlv) → dict_get lists d q ≡ view d q
  unfolding dict_get dict_find view
  dict_get-view d q = find_kv-chain_get q (chain d (bucket q))
