-- ===== src/Dict/Map.antt =====
-- The dictionary of utils/dict.c as a finite map from keys to values.
use holyhttp.ListHead.{ListHead}
use holyhttp.Prelude.{
  ℕ, ◌%◌, ◌^◌, ◌≡◌, refl, List, [], ◌∷◌, ◌++◌, Option, none, some, arith, if◌then◌else◌, ◌==◌, true,
  false, length, ap, sym, ◌∙◌, subst, Bool-cases, inl, inr,
}
use mathlib.Core.Option.{or_else}
use holyhttp.Tlv.{Tlv}
use holyhttp.Tlv.Laws.{IsValid, tlv_is_equal_iff}
use holyhttp.Dict.Chain.{
  Kv, same_key, chain_get, chain_get-chain_del_self, chain_get-chain_del_ne, chain_get-snoc,
}
use holyhttp.Dict.{Dict, bucket, fresh, dict_get, dict_del, dict_add_kv, dict_set}
use holyhttp.Dict.Sum.{sum_below_congr, sum_below_zero}
use holyhttp.Dict.Invariant.{
  IsBucket, IsDict, chain, total, view, chain_del-IsBucket, snoc-IsBucket, dict_get-view,
}
use holyhttp.Dict.Laws.{
  Replaces, Replaces-buckets, Replaces-view, dict_del-Replaces, dict_del-count,
  dict_add_kv-Replaces, dict_add_kv-count,
}

same_bucket : (k q : Tlv) → IsValid k → IsValid q → same_key k q ≡ true → bucket q ≡ bucket k
same_bucket k q vk vq h = ap bucket (sym ((tlv_is_equal_iff k q vk vq).0 h))

key_of_same : (k q : Tlv) → IsValid k → IsValid q → same_key k q ≡ true → k ≡ q
key_of_same k q vk vq = (tlv_is_equal_iff k q vk vq).0

own_key : (k : Tlv) → IsValid k → same_key k k ≡ true
own_key k vk = (tlv_is_equal_iff k k vk vk).1 refl

or_else-none : (o : Option Tlv) → or_else o none ≡ o
unfolding or_else
or_else-none none = refl
or_else-none (some v) = refl

module _ (lists : ListHead Kv) where
  chain-fresh : (i : ℕ) → chain lists (fresh lists) i ≡ []
  unfolding fresh
  chain-fresh i = lists.items-init

  IsBucket-nil : (i : ℕ) (kvs : List Kv) → kvs ≡ [] → IsBucket i kvs
  IsBucket-nil i [] e = record { keys = tt; placed = tt; distinct = tt }
  IsBucket-nil i (kv ∷ kvs) e = cc

  fresh_count : (fresh lists).count ≡ 0
  unfolding fresh
  fresh_count = refl

  fresh-total : (fresh lists).count ≡ total lists (fresh lists) % 2 ^ 32
  fresh-total = omega (
    arith,
    fresh_count,
    sum_below_congr 256 (λ i. length (chain lists (fresh lists) i)) (λ i. 0)
        (λ i. ap length (chain-fresh i)),
    sum_below_zero 256,
  )

  -- A new dictionary is well formed, and reading any key of it finds nothing.
  pub fresh-IsDict :
      IsDict lists (fresh lists) × ((q : Tlv) → dict_get lists (fresh lists) q ≡ none)
  fresh-IsDict = (
    record { buckets = λ i. IsBucket-nil i _ (chain-fresh i); counted = fresh-total },
    λ q. dict_get-view lists (fresh lists) q ∙ empty_view q,
  )
    where
      empty_view : (q : Tlv) → view lists (fresh lists) q ≡ none
      empty_view q = unfold view chain_get in ap (chain_get q) (chain-fresh (bucket q))

  module _ (d : Dict lists) (k : Tlv) (inv : IsDict lists d) (vk : IsValid k) where
    del_view_self : view lists (dict_del lists d k) k ≡ none
    del_view_self =
        let here : (bucket k == bucket k) ≡ true = ground arith in
        let b = inv.buckets (bucket k) in
        rw here at (Replaces-view lists d (dict_del lists d k) k _ k (dict_del-Replaces lists d k))
        ∙ chain_get-chain_del_self vk _ b.keys b.distinct

    del_view_ne :
        (q : Tlv)
        → IsValid q
        → same_key k q ≡ false
        → view lists (dict_del lists d k) q ≡ view lists d q
    unfolding view
    del_view_ne q vq n =
        let v = Replaces-view lists d (dict_del lists d k) k _ q (dict_del-Replaces lists d k) in
        let b = inv.buckets (bucket k) in
        elim (Bool-cases (bucket q == bucket k)) [
          | inl same ↦
              let e : bucket k ≡ bucket q = ground arith in
              rw same at v
              ∙ chain_get-chain_del_ne vq k (chain lists d (bucket k)) vk b.keys n
              ∙ ap (λ (i : ℕ). chain_get q (chain lists d i)) e
          | inr apart ↦ rw apart at v
        ]

    del-IsDict : IsDict lists (dict_del lists d k)
    del-IsDict = record {
      buckets =
          Replaces-buckets lists d (dict_del lists d k) (bucket k) _ inv.buckets
            (chain_del-IsBucket (bucket k) k _ (inv.buckets (bucket k)))
            (dict_del-Replaces lists d k);
      counted = dict_del-count lists d k inv.counted;
    }

    del-view :
        (q : Tlv)
        → IsValid q
        → view lists (dict_del lists d k) q ≡ (if same_key k q then none else view lists d q)
    del-view q vq = elim (Bool-cases (same_key k q)) [
      | inl same ↦ rw same (
          subst (λ (x : Tlv). view lists (dict_del lists d k) x ≡ none) (key_of_same k q vk vq same)
            del_view_self)
      | inr apart ↦ rw apart (del_view_ne q vq apart)
    ]

    -- Deleting a key keeps the dictionary well formed, its count included; the key is gone, and
    -- every other key reads as before.
    pub dict_del-dict_get :
        (q : Tlv)
        → IsValid q
        → IsDict lists (dict_del lists d k)
          × (dict_get lists (dict_del lists d k) q
              ≡ (if same_key k q then none else dict_get lists d q))
    dict_del-dict_get q vq = (
      del-IsDict,
      dict_get-view lists (dict_del lists d k) q
          ∙ del-view q vq
          ∙ ap (λ (o : Option Tlv). if same_key k q then none else o)
              (sym (dict_get-view lists d q)),
    )

    module _ (v : Tlv) where
      after : Dict lists
      after = dict_add_kv lists (dict_del lists d k) (record { key = k; value = v })

      new_chain : List Kv
      new_chain = chain lists (dict_del lists d k) (bucket k) ++ record { key = k; value = v } ∷ []

      after-Replaces : Replaces lists (dict_del lists d k) after (bucket k) new_chain
      unfolding after new_chain
      after-Replaces =
          dict_add_kv-Replaces lists (dict_del lists d k) (record { key = k; value = v })

      entry : Kv
      entry = record { key = k; value = v }

      snoc-view :
          (q : Tlv)
          → IsValid q
          → chain_get q new_chain
            ≡ or_else
                (chain_get q (chain lists (dict_del lists d k) (bucket k)))
                (if same_key k q then some v else none)
      unfolding new_chain
      snoc-view q vq = chain_get-snoc vq (chain lists (dict_del lists d k) (bucket k)) _

      after-view_self : view lists after k ≡ some v
      unfolding view or_else
      after-view_self =
          let here : (bucket k == bucket k) ≡ true = ground arith in
          rw here at (Replaces-view lists (dict_del lists d k) after k new_chain k after-Replaces)
          ∙ snoc-view k vk
          ∙ rw (del_view_self, own_key k vk)

      after-view_ne :
          (q : Tlv) → IsValid q → same_key k q ≡ false → view lists after q ≡ view lists d q
      after-view_ne q vq n =
          let r = Replaces-view lists (dict_del lists d k) after k new_chain q after-Replaces in
          elim (Bool-cases (bucket q == bucket k)) [
            | inl same ↦
                let e : bucket k ≡ bucket q = ground arith in
                rw same at r
                ∙ snoc-view q vq
                ∙ rw n (or_else-none _)
                ∙ ap (λ (i : ℕ). chain_get q (chain lists (dict_del lists d k) i)) e
                ∙ (unfold view in del_view_ne q vq n)
            | inr apart ↦ rw apart at r ∙ del_view_ne q vq n
          ]

      after-view :
          (q : Tlv)
          → IsValid q
          → view lists after q ≡ (if same_key k q then some v else view lists d q)
      after-view q vq = elim (Bool-cases (same_key k q)) [
        | inl same ↦ rw same (
            subst (λ (x : Tlv). view lists after x ≡ some v) (key_of_same k q vk vq same)
              after-view_self)
        | inr apart ↦ rw apart (after-view_ne q vq apart)
      ]

      after-IsDict : IsDict lists after
      unfolding after new_chain entry
      after-IsDict = record {
        buckets =
            Replaces-buckets lists (dict_del lists d k) after (bucket k) new_chain
              del-IsDict.buckets
              (snoc-IsBucket (bucket k) _ entry (del-IsDict.buckets (bucket k)) vk refl
                (unfold view in del_view_self))
              after-Replaces;
        counted = dict_add_kv-count lists (dict_del lists d k) entry del-IsDict.counted;
      }

      -- Storing a value, where the entry can be allocated, succeeds and keeps the dictionary well
      -- formed; the key reads as the value, and every other key as before. Where it cannot be
      -- allocated, the call fails and nothing changes.
      pub dict_set-dict_get :
          (q : Tlv)
          → IsValid q
          → (dict_set lists false d k v ≡ (false, d))
            × ((dict_set lists true d k v).0 ≡ true)
            × IsDict lists (dict_set lists true d k v).1
            × (dict_get lists (dict_set lists true d k v).1 q
                ≡ (if same_key k q then some v else dict_get lists d q))
      unfolding dict_set after
      dict_set-dict_get q vq = (
        refl,
        refl,
        after-IsDict,
        dict_get-view lists after q
            ∙ after-view q vq
            ∙ ap (λ (o : Option Tlv). if same_key k q then some v else o)
                (sym (dict_get-view lists d q)),
      )
