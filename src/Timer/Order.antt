-- ===== src/Timer/Order.antt =====
-- The timers of server/timer.c in the order of their tree.
use holyhttp.Prelude.{
  ℕ, ◌≤◌, ◌<◌, ◌≡◌, refl, List, [], ◌∷◌, ◌++◌, arith, if◌then◌else◌, ltb, false, All,
  All-append_left, All-append_right, ap, sym, ◌∙◌, subst, Bool-cases, inl, inr,
}
use holyhttp.RbTree.{RbTree, Bin, leaf, node, inorder, link}
use holyhttp.Timer.{Timer, find_place, insert_timer}

-- Before the first timer that expires later.
unfoldable pub insert_after : Timer → List Timer → List Timer
insert_after t [] = t ∷ []
insert_after t (x ∷ xs) = if ltb t.expiry x.expiry then t ∷ x ∷ xs else x ∷ insert_after t xs

abbrev pub IsSorted : List Timer → Type 0
IsSorted [] = Unit {0}
IsSorted (t ∷ ts) = All (λ x. t.expiry ≤ x.expiry) ts × IsSorted ts

insert_after-left :
    (t x : Timer) (xs ys : List Timer)
    → t.expiry < x.expiry
    → insert_after t (xs ++ x ∷ ys) ≡ insert_after t xs ++ x ∷ ys
unfolding insert_after
insert_after-left t x [] ys h = ground arith
insert_after-left t x (y ∷ xs) ys h = ground (arith, insert_after-left t x xs ys h)

insert_after-right :
    (t : Timer) (xs ys : List Timer)
    → All (λ x. x.expiry ≤ t.expiry) xs
    → insert_after t (xs ++ ys) ≡ xs ++ insert_after t ys
unfolding insert_after
insert_after-right t [] ys h = refl
insert_after-right t (x ∷ xs) ys h = ground (arith, insert_after-right t xs ys h.1)

Sorted_left : (xs ys : List Timer) → IsSorted (xs ++ ys) → IsSorted xs
Sorted_left [] ys h = tt
Sorted_left (x ∷ xs) ys h = (All-append_left _ xs ys h.0, Sorted_left xs ys h.1)

Sorted_right : (xs ys : List Timer) → IsSorted (xs ++ ys) → IsSorted ys
Sorted_right [] ys h = h
Sorted_right (x ∷ xs) ys h = Sorted_right xs ys h.1

below_middle :
    (xs ys : List Timer) (x : Timer) (k : ℕ)
    → IsSorted (xs ++ x ∷ ys)
    → x.expiry ≤ k
    → All (λ (y : Timer). y.expiry ≤ k) xs
below_middle [] ys x k h le = tt
below_middle (y ∷ xs) ys x k h le =
    let hx = (All-append_right (λ (z : Timer). y.expiry ≤ z.expiry) xs (x ∷ ys) h.0).0 in
    (omega arith, below_middle xs ys x k h.1 le)

-- The walk down the tree finds the place in the sequence.
inorder-link :
    (t : Timer) (b : Bin Timer)
    → IsSorted (inorder b)
    → inorder (link (find_place t.expiry b) t b) ≡ insert_after t (inorder b)
unfolding find_place insert_after
inorder-link t leaf h = refl
inorder-link t (node l x r) h = elim (Bool-cases (ltb t.expiry x.expiry)) [
  | inl early ↦ rw early (
      ap (λ (i : List Timer). i ++ x ∷ inorder r) (inorder-link t l (Sorted_left (inorder l) _ h))
      ∙ sym (insert_after-left t x (inorder l) (inorder r) (ground arith)))
  | inr late ↦
      let rest = (Sorted_right (inorder l) (x ∷ inorder r) h).1 in
      rw late (
        ap (λ (i : List Timer). inorder l ++ (x ∷ i)) (inorder-link t r rest)
        ∙ ap (◌++◌ (inorder l)) (skip x (inorder r) late)
        ∙ sym (
            insert_after-right t (inorder l) (x ∷ inorder r)
              (below_middle (inorder l) (inorder r) x t.expiry h (ground arith))))
]
  where
    skip :
        (x : Timer) (ys : List Timer)
        → ltb t.expiry x.expiry ≡ false
        → x ∷ insert_after t ys ≡ insert_after t (x ∷ ys)
    skip x ys late = rw late

pub All-insert_after :
    (P : Timer → Type 0) (t : Timer) (xs : List Timer) → P t → All P xs → All P (insert_after t xs)
unfolding insert_after
All-insert_after P t [] p h = (p, tt)
All-insert_after P t (x ∷ xs) p h = elim (Bool-cases (ltb t.expiry x.expiry)) [
  | inl early ↦ rw early (p, h)
  | inr late ↦ rw late (h.0, All-insert_after P t xs p h.1)
]

All-later :
    (a b : ℕ) (xs : List Timer)
    → a ≤ b
    → All (λ (x : Timer). b ≤ x.expiry) xs
    → All (λ (x : Timer). a ≤ x.expiry) xs
All-later a b [] h k = tt
All-later a b (x ∷ xs) h k = (omega arith, All-later a b xs h k.1)

pub insert_after-IsSorted :
    (t : Timer) (xs : List Timer) → IsSorted xs → IsSorted (insert_after t xs)
unfolding insert_after
insert_after-IsSorted t [] h = (tt, tt)
insert_after-IsSorted t (x ∷ xs) h = elim (Bool-cases (ltb t.expiry x.expiry)) [
  | inl early ↦
      let lt : t.expiry ≤ x.expiry = ground arith in
      rw early ((lt, All-later t.expiry x.expiry xs lt h.0), h)
  | inr late ↦ rw late (
    All-insert_after (λ y. x.expiry ≤ y.expiry) t xs (ground arith) h.0,
    insert_after-IsSorted t xs h.1,
  )
]

module _ (trees : RbTree Timer) where
  -- The timers in the order of the tree.
  abbrev pub sequence : trees.Root → List Timer
  sequence root = inorder (trees.bin root)

  -- Inserting a timer into a tree that is sorted by expiry puts it behind every timer that expires
  -- no later and in front of the others, so the tree stays sorted and timers of one expiry keep
  -- the order in which they were set.
  pub insert_timer-insert_after :
      (t : Timer) (root : trees.Root)
      → IsSorted (sequence root)
      → (sequence (insert_timer trees t root) ≡ insert_after t (sequence root))
        × IsSorted (sequence (insert_timer trees t root))
  unfolding insert_timer
  insert_timer-insert_after t root h =
      let e : sequence (insert_timer trees t root) ≡ insert_after t (sequence root) =
        trees.inorder-insert (find_place t.expiry (trees.bin root)) t root
        ∙ inorder-link t (trees.bin root) h in
      (e, subst IsSorted (sym e) (insert_after-IsSorted t (sequence root) h))
