-- ===== src/Timer.antt =====
-- server/timer.c: timers in a tree sorted by expiry. The clock is an argument of each call.
pub mod Order
pub mod Explode
pub mod Clock
use holyhttp.Prelude.{
  ℕ, zero, suc, ◌+◌, ◌-◌, ◌*◌, ◌/◌, ◌%◌, ◌^◌, ◌≤◌, ◌<◌, max, ◌≡◌, List, [], ◌∷◌, Option, none, some,
  if◌then◌else◌, ltb, leb, Bool, true, false,
}
use holyhttp.RbTree.{RbTree, Bin, leaf, node, Turn, rb_left, rb_right}

-- `holytimer_t`. `id` stands for the timer's address, `arg` for the handler with its argument.
pub record Timer : Type 0 where
  pub id : ℕ
  pub interval : ℕ
  pub expiry : ℕ
  pub oneshot : Bool
  pub arg : ℕ

-- The walk of `insert_timer` down to a null link.
unfoldable pub find_place : ℕ → Bin Timer → List Turn
find_place key leaf = []
find_place key (node l pos r) =
    if ltb key pos.expiry then rb_left ∷ find_place key l else rb_right ∷ find_place key r

-- `seconds * 1000 * 1000` is computed in 32 bits.
unfoldable pub interval_of : ℕ → ℕ
interval_of seconds = (seconds * 1000 * 1000) % 2 ^ 32

unfoldable pub new_timer : ℕ → ℕ → Bool → ℕ → ℕ → Timer
unfolding interval_of
new_timer id now oneshot seconds arg = record {
  id = id;
  interval = interval_of seconds;
  expiry = (now + interval_of seconds) % 2 ^ 64;
  oneshot = oneshot;
  arg = arg;
}

-- `MAX ((expiry - now) / 1000, 100)`. The difference is a 64-bit pattern that is read as a signed
-- number; a negative one gives the minimum.
unfoldable pub timeout_ms : ℕ → ℕ → ℕ
timeout_ms now expiry =
    let diff = (expiry + 2 ^ 64 - now) % 2 ^ 64 in
    if leb (2 ^ 63) diff then 100 else max (diff / 1000) 100

module _ (trees : RbTree Timer) where
  unfoldable pub insert_timer : Timer → trees.Root → trees.Root
  unfolding find_place
  insert_timer t root = trees.insert (find_place t.expiry (trees.bin root)) t root

  -- `holy_kill_timer` of the timer at a position in sort order, or of a null pointer.
  unfoldable pub kill_timer : Option ℕ → trees.Root → trees.Root
  kill_timer none root = root
  kill_timer (some i) root = trees.erase i root

  -- The new timer, or null where `malloc` fails. `id` is the address that it gives.
  unfoldable pub set_timer : Bool → ℕ → ℕ → Bool → ℕ → ℕ → trees.Root → Option Timer × trees.Root
  unfolding insert_timer new_timer
  set_timer alloc id now oneshot seconds arg root =
      let t = new_timer id now oneshot seconds arg in
      if alloc then (some t, insert_timer t root) else (none, root)

  unfoldable pub set_timeout : Bool → ℕ → ℕ → ℕ → ℕ → trees.Root → Option Timer × trees.Root
  unfolding set_timer
  set_timeout alloc id now seconds arg root = set_timer alloc id now true seconds arg root

  unfoldable pub set_interval : Bool → ℕ → ℕ → ℕ → ℕ → trees.Root → Option Timer × trees.Root
  unfolding set_timer
  set_interval alloc id now seconds arg root = set_timer alloc id now false seconds arg root

  -- A timer that repeats is put back; one that does not is freed.
  unfoldable pub rearm : ℕ → Timer → trees.Root → trees.Root
  unfolding insert_timer
  rearm now t root =
      if t.oneshot
      then root
      else insert_timer (record t { expiry = (now + t.interval) % 2 ^ 64 }) root

  -- The loop of `holy_explode_timers`, on fuel, with the handlers' effect on the timers. It gives
  -- the timers whose handlers ran, in order, and the timers that are left.
  unfoldable pub explode_loop :
      (Timer → trees.Root → trees.Root) → ℕ → ℕ → trees.Root → Option (List Timer × trees.Root)
  unfolding rearm
  explode_loop handler zero now root = none
  explode_loop handler (suc fuel) now root = elim (trees.first root) [
    | none ↦ some ([], root)
    | some t ↦
        let rest = explode_loop handler fuel now (rearm now t (handler t (trees.erase 0 root))) in
        if ltb now t.expiry
        then some ([], root)
        else elim rest [ none ↦ none | some r ↦ some (t ∷ r.0, r.1) ]
  ]

  -- `SECPERYEAR * 1000LL` where there is no timer.
  unfoldable pub get_min_timeout : ℕ → trees.Root → ℕ
  unfolding timeout_ms
  get_min_timeout now root = elim (trees.first root) [
    | none ↦ 3600 * 24 * 366 * 1000
    | some t ↦ timeout_ms now t.expiry
  ]
