-- ===== src/Timer/Explode.antt =====
-- The main loop's timer phase: which handlers `holy_explode_timers` runs.
use holyhttp.Prelude.{
  ℕ, zero, suc, ◌+◌, ◌%◌, ◌^◌, ◌≤◌, ◌<◌, ◌≡◌, refl, List, [], ◌∷◌, none, some, arith, if◌then◌else◌,
  ltb, Bool, true, false, All, ap, sym, ◌∙◌, subst, Bool-cases, inl, inr, length, ◌⊎◌, remove_at,
}
use mathlib.Core.List.{head?}
use holyhttp.RbTree.{RbTree}
use holyhttp.Timer.{Timer, insert_timer, rearm, explode_loop}
use holyhttp.Timer.Order.{
  insert_after, IsSorted, sequence, insert_timer-insert_after, All-insert_after,
}

-- The timers that are due at a time.
unfoldable pub due : ℕ → List Timer → List Timer
due now [] = []
due now (t ∷ ts) = if ltb now t.expiry then due now ts else t ∷ due now ts

-- A timer's interval is a `u32`, and a timer that repeats has one that is not 0.
abbrev pub Repeats : Timer → Type 0
Repeats t = (t.interval < 2 ^ 32) × ((t.oneshot ≡ true) ⊎ (0 < t.interval))

list_cases : (l : List Timer) → (l ≡ []) ⊎ ((t : Timer) × (ts : List Timer) × (l ≡ t ∷ ts))
list_cases [] = inl refl
list_cases (t ∷ ts) = inr (t, ts, refl)

due_later :
    (now : ℕ) (t : Timer) (ts : List Timer)
    → now < t.expiry
    → All (λ x. t.expiry ≤ x.expiry) ts
    → due now ts ≡ []
unfolding due
due_later now t [] h k = refl
due_later now t (x ∷ ts) h k = ground (arith, due_later now t ts h k.1)

due-insert_after :
    (now : ℕ) (t : Timer) (ts : List Timer)
    → now < t.expiry
    → due now (insert_after t ts) ≡ due now ts
unfolding due insert_after
due-insert_after now t [] h = ground arith
due-insert_after now t (x ∷ ts) h = ground (arith, due-insert_after now t ts h)

module _ (trees : RbTree Timer) (handler : Timer → trees.Root → trees.Root) (now : ℕ) where
  -- What is asked of the handlers: the timers that they set or kill are not due yet, and the tree
  -- stays sorted, with valid timers.
  pub record IsQuiet : Type 0 where
    pub same_due :
        (t : Timer) (root : trees.Root)
        → due now (sequence trees (handler t root)) ≡ due now (sequence trees root)
    pub sorted :
        (t : Timer) (root : trees.Root)
        → IsSorted (sequence trees root)
        → IsSorted (sequence trees (handler t root))
    pub valid :
        (t : Timer) (root : trees.Root)
        → All Repeats (sequence trees root)
        → All Repeats (sequence trees (handler t root))

  -- The state between rounds.
  pub record Ready (root : trees.Root) : Type 0 where
    pub sorted : IsSorted (sequence trees root)
    pub valid : All Repeats (sequence trees root)

  rearm-Ready :
      (t : Timer) (root : trees.Root)
      → now < 2 ^ 63
      → Repeats t
      → Ready root
      → Ready (rearm trees now t root)
        × (due now (sequence trees (rearm trees now t root)) ≡ due now (sequence trees root))
  unfolding rearm
  rearm-Ready t root bound rep r = go t.oneshot refl
    where
      again : Timer
      again = record t { expiry = (now + t.interval) % 2 ^ 64 }

      go :
          (b : Bool)
          → t.oneshot ≡ b
          → Ready (if b then root else insert_timer trees again root)
            × (due now (sequence trees (if b then root else insert_timer trees again root))
                ≡ due now (sequence trees root))
      go true e = (r, refl)
      go false e =
          let (s, sorted) = insert_timer-insert_after trees again root r.sorted in
          let later : now < again.expiry = ground arith in
          (
            record {
              sorted = sorted;
              valid = subst (All Repeats) (sym s) (All-insert_after Repeats again _ rep r.valid);
            },
            ap (due now) s ∙ due-insert_after now again _ later,
          )

  module _ (quiet : IsQuiet) (bound : now < 2 ^ 63) where
    -- One round: the first timer is taken out, handled and put back if it repeats.
    round-Ready :
        (root : trees.Root) (t : Timer) (ts : List Timer)
        → sequence trees root ≡ t ∷ ts
        → Ready root
        → let after = rearm trees now t (handler t (trees.erase 0 root)) in
          Ready after × (due now (sequence trees after) ≡ due now ts)
    round-Ready root t ts e r =
        let erased : sequence trees (trees.erase 0 root) ≡ ts =
          trees.inorder-erase 0 root ∙ ap (remove_at 0) e in
        let sorted = subst IsSorted e r.sorted in
        let valid = subst (All Repeats) e r.valid in
        let handled : Ready (handler t (trees.erase 0 root)) = record {
          sorted = quiet.sorted t _ (subst IsSorted (sym erased) sorted.1);
          valid = quiet.valid t _ (subst (All Repeats) (sym erased) valid.1);
        } in
        let (ready, same) = rearm-Ready t _ bound valid.0 handled in
        (ready, same ∙ quiet.same_due t _ ∙ ap (due now) erased)

    first_is :
        (root : trees.Root) (l : List Timer) → sequence trees root ≡ l → trees.first root ≡ head? l
    first_is root l e = trees.first-inorder root ∙ ap head? e

    due_nil : due now [] ≡ []
    unfolding due
    due_nil = refl

    due_here :
        (t : Timer) (ts : List Timer) → ltb now t.expiry ≡ false → due now (t ∷ ts) ≡ t ∷ due now ts
    unfolding due
    due_here t ts h = rw h

    -- For handlers that leave the due timers as they are and the tree sorted, with valid timers, and
    -- a time below 2 ^ 63: with fuel for one round more than there are due timers, the loop ends. It
    -- runs the handlers of exactly the timers that were due, in the order of the tree; then none is
    -- due, and the tree is sorted and of valid timers.
    pub explode_loop-due :
        (fuel : ℕ) (root : trees.Root)
        → Ready root
        → length (due now (sequence trees root)) < fuel
        → (after : trees.Root) × (explode_loop trees handler fuel now root
            ≡ some (due now (sequence trees root), after))
          × (due now (sequence trees after) ≡ [])
          × Ready after
    unfolding explode_loop
    explode_loop-due zero root r h = absurd (omega arith)
    explode_loop-due (suc fuel) root r h = elim (list_cases (sequence trees root)) [
      | inl e ↦
          let none_left : trees.first root ≡ none = first_is root [] e in
          (root, rw (e, none_left, explode_loop, due_nil), rw (e, due_nil), r)
      | inr (t, ts, e) ↦
          let first : trees.first root ≡ some t = first_is root (t ∷ ts) e in
          elim (Bool-cases (ltb now t.expiry)) [
            | inl later ↦
                let s = subst IsSorted e r.sorted in
                let nothing : due now (sequence trees root) ≡ [] =
                  ap (due now) e ∙ due_later now t (t ∷ ts) (ground arith) (omega arith, s.0) in
                (root, rw (nothing, first, explode_loop, later), nothing, r)
            | inr now_due ↦
                let (ready, same) = round-Ready root t ts e r in
                let here : due now (sequence trees root) ≡ t ∷ due now ts =
                  ap (due now) e ∙ due_here t ts now_due in
                let (after, runs, gone, ready') =
                  explode_loop-due fuel (rearm trees now t (handler t (trees.erase 0 root))) ready
                    (omega (arith, ap length same, ap length here)) in
                (after, rw (first, explode_loop, now_due, runs, same, here), gone, ready')
          ]
    ]
