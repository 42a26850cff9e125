-- ===== src/Dataset/Laws.antt =====
-- What `set_value` of utils/dataset.c stores is what `get_value` reads.
use holyhttp.Prelude.{
  ℕ, zero, suc, ◌+◌, ◌^◌, ◌≤◌, ◌<◌, ◌≡◌, refl, List, [], ◌∷◌, Option, none, some, ◌==◌, true, false,
  Bytes, IsText, All, length, ap, sym, ◌∙◌, subst, arith, ◌⊎◌, inl, inr,
}
use holyhttp.ListHead.{ListHead}
use holyhttp.Dict.Chain.{Kv}
use holyhttp.Dict.Access.{all_ok}
use holyhttp.Dataset.{Memory, Subset, Store, add_child, get_walk, set_walk}
use holyhttp.Dataset.Invariant.{
  IsLive, child, IsStore, Extends, Extends-refl, Extends-trans, add_child-Extends,
  add_child-IsStore, new_child, cell_sub, cell_next, after_next, grown,
}

is_zero : (n : ℕ) → 0 < n → (n == 0) ≡ false
is_zero n h = ground arith

is_null : (n : ℕ) → n ≡ 0 → (n == 0) ≡ true
is_null n h = ground arith

-- Every allocation succeeds.
abbrev pub Plenty : (ℕ → Memory) → Type 0
Plenty mem = (i : ℕ) → ((mem i).subset ≡ true) × (all_ok (mem i).entry ≡ true)

module _ (lists : ListHead Kv) where
  pub step_walk :
      (s : Store lists) (p : ℕ) (n : Subset lists) (item : Bytes) (items : List Bytes)
      → s.cell p ≡ some n
      → 0 < child lists n item
      → get_walk lists s p (item ∷ items) ≡ get_walk lists s (child lists n item) items
  unfolding get_walk
  step_walk s p n item items e pos = rw (get_walk, e, is_zero (child lists n item) pos) refl

  pub stop_walk :
      (s : Store lists) (p : ℕ) (n : Subset lists) (item : Bytes) (items : List Bytes)
      → s.cell p ≡ some n
      → child lists n item ≡ 0
      → get_walk lists s p (item ∷ items) ≡ some 0
  unfolding get_walk
  stop_walk s p n item items e z = rw (get_walk, e, is_null (child lists n item) z) refl

  pub lost_walk :
      (s : Store lists) (p : ℕ) (item : Bytes) (items : List Bytes)
      → s.cell p ≡ none
      → get_walk lists s p (item ∷ items) ≡ none
  unfolding get_walk
  lost_walk s p item items e = rw (get_walk, e) refl

  pub cell_cases : (o : Option (Subset lists)) → (o ≡ none) ⊎ ((n : Subset lists) × (o ≡ some n))
  cell_cases none = inl refl
  cell_cases (some n) = inr (n, refl)

  pub zero_or : (n : ℕ) → (n ≡ 0) ⊎ (0 < n)
  zero_or zero = inl refl
  zero_or (suc n) = inr (omega arith)

  -- A name that leads somewhere leads there in every later store.
  pub Extends-walk :
      (s t : Store lists) (p q : ℕ) (items : List Bytes)
      → Extends lists s t
      → All IsText items
      → 0 < q
      → get_walk lists s p items ≡ some q
      → get_walk lists t p items ≡ some q
  unfolding get_walk
  Extends-walk s t p q [] x h pos e = e
  Extends-walk s t p q (item ∷ items) x (h, hs) pos e = elim (cell_cases (s.cell p)) [
    | inl l ↦ absurd (let z = lost_walk s p item items l in cc)
    | inr (n, l) ↦ elim (zero_or (child lists n item)) [
      | inl z ↦
          let f = stop_walk s p n item items l z in
          let g : 0 ≡ q = cc in absurd (omega (arith, g, pos))
      | inr c ↦
          let (m, k, _, same) = x.kept p n l in
          let d : 0 < child lists m item = subst (λ r. 0 < r) (sym (same item h c)) c in
          step_walk t p m item items k d
          ∙ ap (λ r. get_walk lists t r items) (same item h c)
          ∙ Extends-walk s t (child lists n item) q items x hs pos
              (sym (step_walk s p n item items l c) ∙ e)
    ]
  ]

  -- A walk leads to an allocated subset or to none.
  pub walk-IsLive :
      (s : Store lists) (p q : ℕ) (items : List Bytes)
      → IsStore lists s
      → IsLive lists s p
      → All IsText items
      → 0 < q
      → get_walk lists s p items ≡ some q
      → IsLive lists s q
  unfolding get_walk
  walk-IsLive s p q [] i l h pos e = let x : p ≡ q = cc in subst (IsLive lists s) x l
  walk-IsLive s p q (item ∷ items) i (n, l) (h, hs) pos e = elim (i.linked p n item l h) [
    | inl z ↦
        let f = stop_walk s p n item items l z in
        let g : 0 ≡ q = cc in absurd (omega (arith, g, pos))
    | inr (c, live) ↦
        walk-IsLive s (child lists n item) q items i live hs pos
          (sym (step_walk s p n item items l c) ∙ e)
  ]

  -- What the loop of `set_value` comes to.
  pub record Walked (mem : ℕ → Memory) (i : ℕ) (s : Store lists) (sub : ℕ) (items : List Bytes)
      : Type 0 where
    pub final : Store lists
    pub target : ℕ
    pub walks : set_walk lists mem i s sub items ≡ some (final, target)
    pub stored : IsStore lists final
    pub extends : Extends lists s final
    pub found : get_walk lists final sub items ≡ some target
    pub positive : 0 < target
    pub live : IsLive lists final target
    pub room : final.next ≤ s.next + length items

  set_walk_known :
      (mem : ℕ → Memory) (i : ℕ) (s : Store lists) (sub : ℕ) (n : Subset lists) (item : Bytes)
      → (items : List Bytes) → s.cell sub ≡ some n
      → 0 < child lists n item
      → set_walk lists mem i s sub (item ∷ items)
        ≡ set_walk lists mem (i + 1) s (child lists n item) items
  unfolding set_walk
  set_walk_known mem i s sub n item items e pos =
      rw (set_walk, e, is_zero (child lists n item) pos) refl

  set_walk_new :
      (mem : ℕ → Memory) (i : ℕ) (s : Store lists) (sub : ℕ) (n : Subset lists) (item : Bytes)
      → (items : List Bytes) → s.cell sub ≡ some n
      → child lists n item ≡ 0
      → (mem i).subset ≡ true
      → set_walk lists mem i s sub (item ∷ items)
        ≡ set_walk lists mem (i + 1) (add_child lists (mem i).entry s sub n item) s.next items
  unfolding set_walk
  set_walk_new mem i s sub n item items e z k =
      rw (set_walk, e, is_null (child lists n item) z, k) refl

  known_step :
      (mem : ℕ → Memory) (i : ℕ) (s : Store lists) (sub : ℕ) (n : Subset lists) (item : Bytes)
      → (items : List Bytes) → s.cell sub ≡ some n
      → IsText item
      → 0 < child lists n item
      → Walked mem (i + 1) s (child lists n item) items
      → Walked mem i s sub (item ∷ items)
  known_step mem i s sub n item items e h c w =
      let (m, k, _, same) = w.extends.kept sub n e in
      let d : 0 < child lists m item = subst (λ r. 0 < r) (sym (same item h c)) c in
      record {
        final = w.final;
        target = w.target;
        walks = set_walk_known mem i s sub n item items e c ∙ w.walks;
        stored = w.stored;
        extends = w.extends;
        found =
            step_walk w.final sub m item items k d
            ∙ ap (λ r. get_walk lists w.final r items) (same item h c)
            ∙ w.found;
        positive = w.positive;
        live = w.live;
        room = omega (arith, w.room);
      }

  new_step :
      (mem : ℕ → Memory) (i : ℕ) (s : Store lists) (sub : ℕ) (n : Subset lists) (item : Bytes)
      → (items : List Bytes) → (mem i).subset ≡ true
      → all_ok (mem i).entry ≡ true
      → IsStore lists s
      → s.cell sub ≡ some n
      → IsText item
      → s.next < 2 ^ 64
      → child lists n item ≡ 0
      → Walked mem (i + 1) (add_child lists (mem i).entry s sub n item) s.next items
      → Walked mem i s sub (item ∷ items)
  new_step mem i s sub n item items ok oka v e h f z w =
      let a = (mem i).entry in
      let g = grown lists a s sub n item v e h f z in
      let link : child lists g item ≡ s.next = new_child lists a s sub n item v e h f z oka in
      let pos : 0 < child lists g item = omega (arith, link, v.first) in
      let (m, k, _, same) = w.extends.kept sub g (cell_sub lists a s sub n item v e h f z) in
      let d : 0 < child lists m item = subst (λ r. 0 < r) (sym (same item h pos)) pos in
      record {
        final = w.final;
        target = w.target;
        walks = set_walk_new mem i s sub n item items e z ok ∙ w.walks;
        stored = w.stored;
        extends =
            Extends-trans lists s (add_child lists a s sub n item) w.final
              (add_child-Extends lists a s sub n item v e h f z) w.extends;
        found =
            step_walk w.final sub m item items k d
            ∙ ap (λ r. get_walk lists w.final r items) (same item h pos ∙ link)
            ∙ w.found;
        positive = w.positive;
        live = w.live;
        room = omega (arith, w.room, after_next lists a s sub n item v e h f z);
      }

  pub set_walk_lem :
      (mem : ℕ → Memory) (i : ℕ) (s : Store lists) (sub : ℕ) (items : List Bytes)
      → Plenty mem
      → IsStore lists s
      → IsLive lists s sub
      → 0 < sub
      → All IsText items
      → s.next + length items < 2 ^ 64
      → Walked mem i s sub items
  unfolding set_walk get_walk
  set_walk_lem mem i s sub [] ok v l pos h b = record {
    final = s;
    target = sub;
    walks = refl;
    stored = v;
    extends = Extends-refl lists s;
    found = refl;
    positive = pos;
    live = l;
    room = omega arith;
  }
  set_walk_lem mem i s sub (item ∷ items) ok v (n, e) pos (h, hs) b =
      elim (zero_or (child lists n item)) [
        | inr c ↦ elim (v.linked sub n item e h) [
          | inl z ↦ absurd (omega (arith, z, c))
          | inr (_, l) ↦
              let w =
                set_walk_lem mem (i + 1) s (child lists n item) items ok v l c hs (omega arith) in
              known_step mem i s sub n item items e h c w
        ]
        | inl z ↦
            let a = (mem i).entry in
            let f : s.next < 2 ^ 64 = omega arith in
            let w =
              set_walk_lem mem (i + 1) (add_child lists a s sub n item) s.next items ok
                (add_child-IsStore lists a s sub n item v e h f z)
                (_, cell_next lists a s sub n item v e h f z) v.first hs
                (omega (arith, after_next lists a s sub n item v e h f z)) in
            new_step mem i s sub n item items (ok i).0 (ok i).1 v e h f z w
      ]
