-- ===== src/Tests/Timers.antt =====
-- Timers, over trees that are never rebalanced.
use holyhttp.Prelude.{
  ℕ, ◌*◌, ◌-◌, ◌<◌, ◌≤◌, max, ◌≡◌, refl, [], ◌∷◌, some, true, arith, length, All, inl,
}
use holyhttp.RbTree.{plain_trees, Bin, leaf, node}
use holyhttp.Timer.{Timer, insert_timer, explode_loop, get_min_timeout}
use holyhttp.Timer.Order.{insert_after, IsSorted, sequence, insert_timer-insert_after}
use holyhttp.Timer.Explode.{due, IsQuiet, Ready, explode_loop-due}
use holyhttp.Timer.Clock.{get_min_timeout_bounds}

abbrev once : ℕ → ℕ → Timer
once id expiry = record { id = id; interval = 1000000; expiry = expiry; oneshot = true; arg = 0 }

-- Timers that expire at 5 and at 9.
abbrev two : Bin Timer
two = node (node leaf (once 1 5) leaf) (once 2 9) leaf

two-IsSorted : IsSorted (sequence (plain_trees Timer) two)
two-IsSorted = ((omega arith, tt), (tt, tt))

insert_timer-insert_after_example :
    (sequence (plain_trees Timer) (insert_timer (plain_trees Timer) (once 3 7) two)
      ≡ insert_after (once 3 7) (sequence (plain_trees Timer) two))
    × IsSorted (sequence (plain_trees Timer) (insert_timer (plain_trees Timer) (once 3 7) two))
insert_timer-insert_after_example =
    insert_timer-insert_after (plain_trees Timer) (once 3 7) two two-IsSorted

abbrev no_change : Timer → Bin Timer → Bin Timer
no_change t root = root

no_change-IsQuiet : IsQuiet (plain_trees Timer) no_change 6
no_change-IsQuiet = record {
  same_due = λ t root. refl;
  sorted = λ t root h. h;
  valid = λ t root h. h;
}

two-Ready : Ready (plain_trees Timer) no_change 6 two
two-Ready = record {
  sorted = two-IsSorted;
  valid = ((omega arith, inl refl), ((omega arith, inl refl), tt));
}

due-two : length (due 6 (sequence (plain_trees Timer) two)) < 2
unfolding due
due-two = omega arith

explode_loop-due_example :
    (after : Bin Timer) × (explode_loop (plain_trees Timer) no_change 2 6 two
      ≡ some (due 6 (sequence (plain_trees Timer) two), after))
    × (due 6 (sequence (plain_trees Timer) after) ≡ [])
    × Ready (plain_trees Timer) no_change 6 after
explode_loop-due_example =
    explode_loop-due (plain_trees Timer) no_change 6 no_change-IsQuiet (omega arith) 2 two two-Ready
      due-two

get_min_timeout_bounds_example :
    (100 ≤ get_min_timeout (plain_trees Timer) 3 two)
    × All
        (λ (t : Timer).
          get_min_timeout (plain_trees Timer) 3 two * 1000 ≤ max 100000 (t.expiry - 3))
        (sequence (plain_trees Timer) two)
get_min_timeout_bounds_example =
    get_min_timeout_bounds (plain_trees Timer) 3 two two-IsSorted (omega arith, (omega arith, tt))
      (omega arith)

-- The timer at 5 is due at 6, and the other one stays.
explode_two :
    explode_loop (plain_trees Timer) no_change 2 6 two
    ≡ some (once 1 5 ∷ [], node leaf (once 2 9) leaf)
unfolding explode_loop
explode_two = refl
