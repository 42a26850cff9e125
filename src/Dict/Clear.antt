-- ===== src/Dict/Clear.antt =====
-- `dict_clear` of utils/dict.c.
use holyhttp.ListHead.{ListHead}
use holyhttp.Prelude.{
  ℕ, zero, suc, ◌+◌, ◌%◌, ◌^◌, ◌≤◌, ◌<◌, ◌≡◌, refl, List, [], ◌∷◌, none, arith, ◌==◌, true, false,
  length, ap, sym, ◌∙◌, subst, Bool-cases, inl, inr, remove_at, ◌⊎◌,
}
use holyhttp.Tlv.{Tlv}
use holyhttp.Dict.Chain.{Kv, chain_get}
use holyhttp.Dict.{
  Dict, dict_hash_size, bucket, dict_get, dict_rm_kv, clear_bucket, clear_from, dict_clear,
}
use holyhttp.Dict.Sum.{sum_below_none}
use holyhttp.Dict.Invariant.{IsBucket, IsDict, chain, total, view, dict_get-view}
use holyhttp.Dict.Laws.{Replaces-total, dict_rm_kv-Replaces, dict_rm_kv-count, bucket-lt}

module _ (lists : ListHead Kv) where
  -- What one round of the inner loop does, on a bucket that is not empty.
  rm_front :
      (d : Dict lists) (i : ℕ) (kv : Kv) (kvs : List Kv)
      → chain lists d i ≡ kv ∷ kvs
      → chain lists (dict_rm_kv lists d i 0) i ≡ kvs
  rm_front d i kv kvs e =
      let here : (i == i) ≡ true = ground arith in
      rw here at (dict_rm_kv-Replaces lists d i 0 i) ∙ ap (remove_at 0) e

  rm_other :
      (d : Dict lists) (i j : ℕ)
      → (j == i) ≡ false
      → chain lists (dict_rm_kv lists d i 0) j ≡ chain lists d j
  rm_other d i j n = rw n at (dict_rm_kv-Replaces lists d i 0 j)

  abbrev IsCounted : Dict lists → Type 0
  IsCounted d = d.count ≡ total lists d % 2 ^ 32

  rm-IsCounted :
      (d : Dict lists) (i : ℕ) (kv : Kv) (kvs : List Kv)
      → i < dict_hash_size
      → chain lists d i ≡ kv ∷ kvs
      → IsCounted d
      → IsCounted (dict_rm_kv lists d i 0)
  rm-IsCounted d i kv kvs lt e h = omega (
    arith,
    Replaces-total lists d (dict_rm_kv lists d i 0) i _ lt (dict_rm_kv-Replaces lists d i 0),
    dict_rm_kv-count lists d i 0,
    ap length e,
    ap (λ (l : List Kv). length (remove_at 0 l)) e,
  )

  -- The inner loop empties its bucket and leaves the others alone.
  clear_bucket_lem :
      (n i : ℕ) (d : Dict lists)
      → i < dict_hash_size
      → length (chain lists d i) ≡ n
      → (chain lists (clear_bucket lists n i d) i ≡ [])
        × ((j : ℕ) → (j == i) ≡ false → chain lists (clear_bucket lists n i d) j ≡ chain lists d j)
        × (IsCounted d → IsCounted (clear_bucket lists n i d))
  unfolding clear_bucket
  clear_bucket_lem zero i d lt e = (nothing (chain lists d i) e, (λ j n. refl), λ h. h)
    where
      nothing : (l : List Kv) → length l ≡ 0 → l ≡ []
      nothing [] e = refl
      nothing (kv ∷ l) e = absurd (omega arith)
  clear_bucket_lem (suc n) i d lt e =
      let (kv, kvs, f) = cons_of_length (chain lists d i) e in
      let front = rm_front d i kv kvs f in
      let (empty, others, counted) =
        clear_bucket_lem n i (dict_rm_kv lists d i 0) lt
          (omega (arith, ap length front, ap length f)) in
      (empty, (λ j m. others j m ∙ rm_other d i j m), λ h. counted (rm-IsCounted d i kv kvs lt f h))
    where
      cons_of_length :
          (l : List Kv) → length l ≡ suc n → (kv : Kv) × (kvs : List Kv) × (l ≡ kv ∷ kvs)
      cons_of_length [] e = absurd (omega arith)
      cons_of_length (kv ∷ kvs) e = (kv, kvs, refl)

  -- The outer loop over `n` buckets from `i` on.
  clear_from_lem :
      (n i : ℕ) (d : Dict lists)
      → i + n ≤ dict_hash_size
      → ((j : ℕ) → j < i → chain lists d j ≡ [])
      → ((j : ℕ) → j < i + n → chain lists (clear_from lists n i d) j ≡ [])
        × ((j : ℕ)
            → (chain lists (clear_from lists n i d) j ≡ [])
              ⊎ (chain lists (clear_from lists n i d) j ≡ chain lists d j))
        × (IsCounted d → IsCounted (clear_from lists n i d))
  unfolding clear_from
  clear_from_lem zero i d h low = ((λ j lt. low j (omega arith)), (λ j. inr refl), λ c. c)
  clear_from_lem (suc n) i d h low =
      let d₁ = clear_bucket lists (length (chain lists d i)) i d in
      let (empty, others, counted) =
        clear_bucket_lem (length (chain lists d i)) i d (omega arith) refl in
      let low₁ : (j : ℕ) → j < suc i → chain lists d₁ j ≡ [] = λ j lt. elim (Bool-cases (j == i)) [
        | inl here ↦
            let e : i ≡ j = ground arith in subst (λ (k : ℕ). chain lists d₁ k ≡ []) e empty
        | inr there ↦ others j there ∙ low j (ground arith)
      ] in
      let (gone, kept, still) = clear_from_lem n (suc i) d₁ (omega arith) low₁ in
      (
        (λ j lt. gone j (omega arith)),
        (λ j. elim (kept j) [
          | inl e ↦ inl e
          | inr e ↦ elim (Bool-cases (j == i)) [
            | inl here ↦ let lt : j < suc i = ground arith in inl (e ∙ low₁ j lt)
            | inr there ↦ inr (e ∙ others j there)
          ]
        ]),
        λ c. still (counted c),
      )

  -- Clearing a well-formed dictionary leaves it well formed and empty: its count is 0, and no key
  -- has a value.
  pub dict_clear-dict_get :
      (d : Dict lists) (q : Tlv)
      → IsDict lists d
      → IsDict lists (dict_clear lists d)
        × ((dict_clear lists d).count ≡ 0)
        × (dict_get lists (dict_clear lists d) q ≡ none)
  unfolding dict_clear
  dict_clear-dict_get d q inv =
      let (gone, kept, still) =
        clear_from_lem 256 0 d (omega arith) (λ j lt. absurd (omega arith)) in
      let counted = still inv.counted in
      (
        record {
          buckets = λ i. elim (kept i) [
            | inl e ↦ subst (IsBucket i) (sym e) (record { keys = tt; placed = tt; distinct = tt })
            | inr e ↦ subst (IsBucket i) (sym e) (inv.buckets i)
          ];
          counted = counted;
        },
        omega (
          arith,
          counted,
          sum_below_none 256 (λ i. length (chain lists (clear_from lists 256 0 d) i))
              (λ i lt. ap length (gone i lt)),
        ),
        dict_get-view lists _ q ∙ empty_view _ q (gone (bucket q) (bucket-lt q)),
      )
    where
      empty_view :
          (d : Dict lists) (q : Tlv) → chain lists d (bucket q) ≡ [] → view lists d q ≡ none
      empty_view d q e = unfold view chain_get in ap (chain_get q) e
