-- ===== src/Dataset/Invariant.antt =====
-- The well-formed store of utils/dataset.c, and what adding a child leaves as it was.
use holyhttp.Prelude.{
  ℕ, ◌+◌, ◌^◌, ◌≤◌, ◌<◌, ◌≡◌, ◌≢◌, refl, none, some, if◌then◌else◌, ◌==◌, ◌&&◌, Bool, true, false,
  Bytes, IsText, bytes_eq, bytes_eq_refl, eq_of_bytes_eq, ap, sym, ◌∙◌, subst, arith, ◌⊎◌, inl, inr,
  Bool-cases, ==_iff,
}
use holyhttp.ListHead.{ListHead}
use holyhttp.Tlv.{tlvptr, tlvint}
use holyhttp.Dict.Chain.{Kv}
use holyhttp.Dict.{fresh}
use holyhttp.Dict.Invariant.{IsDict}
use holyhttp.Dict.Map.{fresh-IsDict}
use holyhttp.Dict.Access.{all_ok, str_key}
use holyhttp.Dict.Typed.{Allocs, set_str_ptr, get_str_ptr}
use holyhttp.Dict.Strings.{get_by_str-dict_get, set_str_ptr-get_str_ptr}
use holyhttp.Dataset.{Subset, Store, set_cell, empty_subset, new_subset, add_child}

module _ (lists : ListHead Kv) where
  abbrev pub IsLive : Store lists → ℕ → Type 0
  IsLive s p = (n : Subset lists) × (s.cell p ≡ some n)

  -- The child of a subset under an item.
  abbrev pub child : Subset lists → Bytes → ℕ
  child n k = get_str_ptr lists true n.children (some k)

  -- Every dictionary is well formed, every child is allocated, and so is nothing from `next` on.
  pub record IsStore (s : Store lists) : Type 0 where
    pub first : 0 < s.next
    pub unused : (p : ℕ) → s.next ≤ p → s.cell p ≡ none
    pub sound : (p : ℕ) (n : Subset lists) → s.cell p ≡ some n → IsDict lists n.children
    pub linked :
        (p : ℕ) (n : Subset lists) (k : Bytes)
        → s.cell p ≡ some n
        → IsText k
        → (child n k ≡ 0) ⊎ ((0 < child n k) × IsLive s (child n k))

  -- A later store has every subset with its value and its children, and perhaps more children.
  pub record Extends (s t : Store lists) : Type 0 where
    pub kept :
        (p : ℕ) (n : Subset lists)
        → s.cell p ≡ some n
        → (m : Subset lists) × (t.cell p ≡ some m)
          × (m.value ≡ n.value)
          × ((k : Bytes) → IsText k → 0 < child n k → child m k ≡ child n k)

  pub Extends-refl : (s : Store lists) → Extends s s
  Extends-refl s = record { kept = λ p n e. (n, e, refl, λ k hk pos. refl) }

  pub Extends-trans : (s t u : Store lists) → Extends s t → Extends t u → Extends s u
  Extends-trans s t u f g = record {
    kept = λ p n e.
        let (m, em, vm, cm) = f.kept p n e in
        let (l, el, vl, cl) = g.kept p m em in
        (
          l,
          el,
          vl ∙ vm,
          λ k hk pos. cl k hk (subst (λ c. 0 < c) (sym (cm k hk pos)) pos) ∙ cm k hk pos,
        );
  }

  fresh_child : (k : Bytes) → IsText k → child (empty_subset lists) k ≡ 0
  unfolding get_str_ptr tlvint empty_subset
  fresh_child k hk =
      ap tlvptr (get_by_str-dict_get lists (fresh lists) k hk ∙ (fresh-IsDict lists).1 (str_key k))

  empty_sound : IsDict lists (empty_subset lists).children
  unfolding empty_subset
  empty_sound = (fresh-IsDict lists).0

  module _ (a : Allocs) (s : Store lists) (sub : ℕ) (n : Subset lists) (item : Bytes)
      (i : IsStore s) (e : s.cell sub ≡ some n) (ht : IsText item) (bound : s.next < 2 ^ 64)
      (missing : child n item ≡ 0) where
    abbrev pub grown : Subset lists
    grown = record n { children = (set_str_ptr lists a n.children (some item) s.next).1 }

    abbrev pub after : Store lists
    after = add_child lists a s sub n item

    sub-ne-next : sub ≢ s.next
    sub-ne-next h = let f : s.cell sub ≡ none = i.unused sub (omega (arith, h)) in cc

    next_sub : (s.next == sub) ≡ false
    next_sub = ground (arith, sub-ne-next)

    pub cell_sub : after.cell sub ≡ some grown
    unfolding add_child set_cell new_subset
    cell_sub = let r : (sub == sub) ≡ true = ground arith in rw r refl

    pub cell_next : after.cell s.next ≡ some (empty_subset lists)
    unfolding add_child set_cell new_subset
    cell_next = let r : (s.next == s.next) ≡ true = ground arith in rw (next_sub, r) refl

    cell_other : (p : ℕ) → p ≢ sub → p ≢ s.next → after.cell p ≡ s.cell p
    unfolding add_child set_cell new_subset
    cell_other p h k =
        let f : (p == sub) ≡ false = ground (arith, h) in
        let g : (p == s.next) ≡ false = ground (arith, k) in rw (f, g) refl

    pub after_next : after.next ≡ s.next + 1
    unfolding add_child set_cell new_subset
    after_next = refl

    grown_children :
        (k : Bytes)
        → IsText k
        → IsDict lists grown.children
          × (child grown k ≡ (if all_ok a && bytes_eq item k then s.next else child n k))
    grown_children k hk =
        let r =
          set_str_ptr-get_str_ptr lists n.children item (i.sound sub n e) ht a s.next k bound hk in
        (r.1, r.2)

    same_item : (k : Bytes) → 0 < child n k → bytes_eq item k ≡ false
    same_item k pos = elim (Bool-cases (bytes_eq item k)) [
      | inl h ↦
          let q : child n k ≡ 0 = ap (child n) (sym (eq_of_bytes_eq item k h)) ∙ missing in
          absurd (omega (arith, q, pos))
      | inr h ↦ h
    ]

    all_ok-and : (b : Bool) → b ≡ false → (all_ok a && b) ≡ false
    all_ok-and b h = elim (Bool-cases (all_ok a)) [ inl x ↦ rw (x, h) refl | inr x ↦ rw x refl ]

    pub add_child-Extends : Extends s after
    add_child-Extends = record {
      kept = λ p m h. elim (Bool-cases (p == sub)) [
        | inl x ↦
            let q : p ≡ sub = (==_iff p sub).0 x in
            let w : m ≡ n = cc in
            (
              grown,
              rw q cell_sub,
              rw w refl,
              λ k hk pos.
                  (grown_children k hk).1
                  ∙ rw
                      (
                        all_ok-and (bytes_eq item k)
                            (same_item k (subst (λ r. 0 < child r k) w pos)),
                        w,
                      )
                      refl,
            )
        | inr x ↦
            let q : p ≢ s.next =
              λ z. let f : s.cell p ≡ none = i.unused p (omega (arith, z)) in cc in
            (m, cell_other p (λ z. cc ((==_iff p sub).1 z)) q ∙ h, refl, λ k hk pos. refl)
      ];
    }

    pub new_child : all_ok a ≡ true → child grown item ≡ s.next
    new_child ok = (grown_children item ht).1 ∙ rw (ok, bytes_eq_refl item) refl

    IsLive-after : (q : ℕ) → IsLive s q → IsLive after q
    IsLive-after q (m, h) = let (l, el, _, _) = add_child-Extends.kept q m h in (l, el)

    grown_linked :
        (k : Bytes)
        → IsText k
        → (child grown k ≡ 0) ⊎ ((0 < child grown k) × IsLive after (child grown k))
    grown_linked k hk = elim (Bool-cases (all_ok a && bytes_eq item k)) [
      | inl x ↦
          let c : child grown k ≡ s.next = (grown_children k hk).1 ∙ rw x refl in
          inr (
            omega (arith, c, i.first),
            subst (IsLive after) (sym c) (empty_subset lists, cell_next),
          )
      | inr x ↦
          let c : child grown k ≡ child n k = (grown_children k hk).1 ∙ rw x refl in
          elim (i.linked sub n k e hk) [
            | inl z ↦ inl (c ∙ z)
            | inr (pos, live) ↦ inr (
              omega (arith, c, pos),
              subst (IsLive after) (sym c) (IsLive-after (child n k) live),
            )
          ]
    ]

    place : (p : ℕ) → (p ≡ sub) ⊎ ((p ≡ s.next) ⊎ ((p ≢ sub) × (p ≢ s.next)))
    place p = elim (Bool-cases (p == sub)) [
      | inl x ↦ inl ((==_iff p sub).0 x)
      | inr x ↦ elim (Bool-cases (p == s.next)) [
        | inl y ↦ inr (inl ((==_iff p s.next).0 y))
        | inr y ↦ inr (inr (λ z. cc ((==_iff p sub).1 z), λ z. cc ((==_iff p s.next).1 z)))
      ]
    ]

    -- A subset of the later store is the grown one, the new one, or one that was there.
    origin :
        (p : ℕ) (m : Subset lists)
        → after.cell p ≡ some m
        → (m ≡ grown) ⊎ ((m ≡ empty_subset lists) ⊎ (s.cell p ≡ some m))
    origin p m h = elim (place p) [
      | inl x ↦ let c : after.cell p ≡ some grown = ap after.cell x ∙ cell_sub in inl (cc)
      | inr (inl x) ↦
          let c : after.cell p ≡ some (empty_subset lists) = ap after.cell x ∙ cell_next in
          inr (inl (cc))
      | inr (inr (x, y)) ↦ inr (inr (sym (cell_other p x y) ∙ h))
    ]

    pub add_child-IsStore : IsStore after
    add_child-IsStore = record {
      first = omega (arith, after_next);
      unused = λ p h.
          let l : s.next + 1 ≤ p = omega (arith, after_next, h) in
          let x : p ≢ sub =
            λ z. let f : s.cell sub ≡ none = i.unused sub (omega (arith, z, l)) in cc in
          cell_other p x (λ z. absurd (omega (arith, z, l))) ∙ i.unused p (omega (arith, l));
      sound = λ p m h. elim (origin p m h) [
        | inl x ↦ subst (λ r. IsDict lists r.children) (sym x) ((grown_children item ht).0)
        | inr (inl x) ↦ subst (λ r. IsDict lists r.children) (sym x) empty_sound
        | inr (inr x) ↦ i.sound p m x
      ];
      linked = λ p m k h hk. elim (origin p m h) [
        | inl x ↦
            subst (λ r. (child r k ≡ 0) ⊎ ((0 < child r k) × IsLive after (child r k))) (sym x)
              (grown_linked k hk)
        | inr (inl x) ↦ inl (ap (λ r. child r k) x ∙ fresh_child k hk)
        | inr (inr x) ↦ elim (i.linked p m k x hk) [
          | inl z ↦ inl z
          | inr (pos, live) ↦ inr (pos, IsLive-after (child m k) live)
        ]
      ];
    }

  -- The store of a new data set, whose root is at 1.
  abbrev pub new_root : Store lists
  new_root = record { next = 2; cell = λ q. if q == 1 then some (empty_subset lists) else none }

  root_only : (p : ℕ) (n : Subset lists) → new_root.cell p ≡ some n → n ≡ empty_subset lists
  root_only p n e = elim (Bool-cases (p == 1)) [
    | inl x ↦ let f : some (empty_subset lists) ≡ some n = rw x at e in cc
    | inr x ↦ let f : none ≡ some n = rw x at e in cc
  ]

  pub new_root-IsStore : IsStore new_root
  new_root-IsStore = record {
    first = omega arith;
    unused = λ p h. let x : (p == 1) ≡ false = ground arith in rw x refl;
    sound = λ p n e. subst (λ m. IsDict lists m.children) (sym (root_only p n e)) empty_sound;
    linked = λ p n k e hk. inl (ap (λ m. child m k) (root_only p n e) ∙ fresh_child k hk);
  }
