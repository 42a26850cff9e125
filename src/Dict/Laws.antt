-- ===== src/Dict/Laws.antt =====
-- Replacing one bucket of a dictionary of utils/dict.c.
use holyhttp.ListHead.{ListHead}
use holyhttp.Prelude.{
  ℕ, suc, ◌+◌, ◌-◌, ◌%◌, ◌^◌, ◌<◌, ◌≡◌, refl, List, [], ◌∷◌, ◌++◌, arith, if◌then◌else◌, ◌==◌, Bool,
  true, false, length, remove_at, ap, sym, ◌∙◌, subst, Bool-cases, inl, inr, length-append, ◌⊎◌,
}
use holyhttp.Tlv.{Tlv}
use holyhttp.Dict.Chain.{Kv, chain_get, chain_del, find_kv-chain_del}
use holyhttp.Dict.Sum.{sum_below-update, sum_below_congr}
use holyhttp.Dict.{
  Dict, dict_hash_size, bucket, set_bucket, dict_find, dict_rm_kv, dict_del, dict_add_kv,
}
use holyhttp.Dict.Invariant.{IsBucket, chain, total, view}

pub bucket-lt : (k : Tlv) → bucket k < dict_hash_size
unfolding bucket
bucket-lt k = omega arith

module _ (lists : ListHead Kv) where
  -- The buckets of `e` are those of `d`, with `kvs` in place of bucket `j`.
  abbrev pub Replaces : Dict lists → Dict lists → ℕ → List Kv → Type 0
  Replaces d e j kvs = (i : ℕ) → chain lists e i ≡ (if i == j then kvs else chain lists d i)

  pub Replaces-total :
      (d e : Dict lists) (j : ℕ) (kvs : List Kv)
      → j < dict_hash_size
      → Replaces d e j kvs
      → total lists e + length (chain lists d j) ≡ total lists d + length kvs
  Replaces-total d e j kvs lt r = omega (
    arith,
    sum_below_congr dict_hash_size (λ i. length (chain lists e i))
        (λ i. if i == j then length kvs else length (chain lists d i)) pointwise,
    sum_below-update dict_hash_size (λ i. length (chain lists d i)) j (length kvs) lt,
  )
    where
      pointwise :
          (i : ℕ)
          → length (chain lists e i) ≡ (if i == j then length kvs else length (chain lists d i))
      pointwise i = ap length (r i) ∙ push (i == j)
        where
          push :
              (b : Bool)
              → length (if b then kvs else chain lists d i)
                ≡ (if b then length kvs else length (chain lists d i))
          push true = refl
          push false = refl

  pub Replaces-buckets :
      (d e : Dict lists) (j : ℕ) (kvs : List Kv)
      → ((i : ℕ) → IsBucket i (chain lists d i))
      → IsBucket j kvs
      → Replaces d e j kvs
      → (i : ℕ) → IsBucket i (chain lists e i)
  Replaces-buckets d e j kvs b bj r i = elim (Bool-cases (i == j)) [
    | inl here ↦
        let q : j ≡ i = ground arith in
        subst (IsBucket i) (sym (rw here at (r i))) (subst (λ k. IsBucket k kvs) q bj)
    | inr there ↦ subst (IsBucket i) (sym (rw there at (r i))) (b i)
  ]

  set_bucket-items :
      (d : Dict lists) (j : ℕ) (h : lists.Head) (i : ℕ)
      → lists.items (set_bucket lists d j h i) ≡ (if i == j then lists.items h else chain lists d i)
  unfolding set_bucket
  set_bucket-items d j h i = push (i == j)
    where
      push :
          (b : Bool)
          → lists.items (if b then h else d.kvs i) ≡ (if b then lists.items h else chain lists d i)
      push true = refl
      push false = refl

  dict_del_cases :
      (d : Dict lists) (k : Tlv)
      → ((dict_del lists d k ≡ d)
          × (chain_del k (chain lists d (bucket k)) ≡ chain lists d (bucket k)))
        ⊎ ((pos : ℕ) × (dict_del lists d k ≡ dict_rm_kv lists d (bucket k) pos)
            × (chain_del k (chain lists d (bucket k)) ≡ remove_at pos (chain lists d (bucket k)))
            × (length (chain lists d (bucket k))
                ≡ suc (length (chain_del k (chain lists d (bucket k))))))
  unfolding dict_del dict_find
  dict_del_cases d k = elim (find_kv-chain_del k (chain lists d (bucket k))) [
    | inl (e, f) ↦ inl (rw (e, dict_del, dict_find), f)
    | inr (pos, kv, e, f, g) ↦ inr (pos, rw (e, dict_del, dict_find), f, g)
  ]

  pub dict_rm_kv-Replaces :
      (d : Dict lists) (j pos : ℕ)
      → Replaces d (dict_rm_kv lists d j pos) j (remove_at pos (chain lists d j))
  unfolding dict_rm_kv
  dict_rm_kv-Replaces d j pos i =
      set_bucket-items d j (lists.del pos (d.kvs j)) i
      ∙ ap (λ (l : List Kv). if i == j then l else chain lists d i) (lists.items-del pos (d.kvs j))

  same-Replaces : (d : Dict lists) (j : ℕ) → Replaces d d j (chain lists d j)
  same-Replaces d j i = elim (Bool-cases (i == j)) [
    | inl here ↦ let q : i ≡ j = ground arith in rw here (ap (chain lists d) q)
    | inr there ↦ rw there
  ]

  -- Removing a key changes its bucket alone.
  pub dict_del-Replaces :
      (d : Dict lists) (k : Tlv)
      → Replaces d (dict_del lists d k) (bucket k) (chain_del k (chain lists d (bucket k)))
  dict_del-Replaces d k = elim (dict_del_cases d k) [
    | inl (e, f) ↦ rw (e, f) (same-Replaces d (bucket k))
    | inr (pos, e, f, g) ↦ rw (e, f) (dict_rm_kv-Replaces d (bucket k) pos)
  ]

  pub dict_rm_kv-count :
      (d : Dict lists) (j pos : ℕ)
      → (dict_rm_kv lists d j pos).count ≡ (d.count + (2 ^ 32 - 1)) % 2 ^ 32
  unfolding dict_rm_kv
  dict_rm_kv-count d j pos = refl

  pub dict_del-count :
      (d : Dict lists) (k : Tlv)
      → d.count ≡ total lists d % 2 ^ 32
      → (dict_del lists d k).count ≡ total lists (dict_del lists d k) % 2 ^ 32
  dict_del-count d k h = elim (dict_del_cases d k) [
    | inl (e, f) ↦ rw e h
    | inr (pos, e, f, g) ↦
        let t =
          Replaces-total d (dict_del lists d k) (bucket k) _ (bucket-lt k)
            (dict_del-Replaces d k) in
        let c = ap (λ (x : Dict lists). x.count) e ∙ dict_rm_kv-count d (bucket k) pos in
        omega (arith, t, c)
  ]

  -- Appending an entry changes the bucket of its key alone.
  pub dict_add_kv-Replaces :
      (d : Dict lists) (kv : Kv)
      → Replaces d
          (dict_add_kv lists d kv)
          (bucket kv.key)
          (chain lists d (bucket kv.key) ++ kv ∷ [])
  unfolding dict_add_kv
  dict_add_kv-Replaces d kv i =
      set_bucket-items d (bucket kv.key) (lists.add_tail kv (d.kvs (bucket kv.key))) i
      ∙ ap (λ (l : List Kv). if i == bucket kv.key then l else chain lists d i)
          (lists.items-add_tail kv (d.kvs (bucket kv.key)))

  pub dict_add_kv-count :
      (d : Dict lists) (kv : Kv)
      → d.count ≡ total lists d % 2 ^ 32
      → (dict_add_kv lists d kv).count ≡ total lists (dict_add_kv lists d kv) % 2 ^ 32
  dict_add_kv-count d kv h = omega (
    arith,
    Replaces-total d (dict_add_kv lists d kv) (bucket kv.key) _ (bucket-lt kv.key)
        (dict_add_kv-Replaces d kv),
    length-append (chain lists d (bucket kv.key)) (kv ∷ []),
    added_count,
  )
    where
      added_count : (dict_add_kv lists d kv).count ≡ (d.count + 1) % 2 ^ 32
      added_count = unfold dict_add_kv in refl

  -- What a changed bucket does to the view.
  pub Replaces-view :
      (d e : Dict lists) (k : Tlv) (kvs : List Kv) (q : Tlv)
      → Replaces d e (bucket k) kvs
      → view lists e q ≡ (if bucket q == bucket k then chain_get q kvs else view lists d q)
  unfolding view
  Replaces-view d e k kvs q r = ap (chain_get q) (r (bucket q)) ∙ push (bucket q == bucket k)
    where
      push :
          (b : Bool)
          → chain_get q (if b then kvs else chain lists d (bucket q))
            ≡ (if b then chain_get q kvs else chain_get q (chain lists d (bucket q)))
      push true = refl
      push false = refl
