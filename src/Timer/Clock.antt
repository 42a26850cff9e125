-- ===== src/Timer/Clock.antt =====
-- Intervals in microseconds, and how long the main loop may sleep.
use holyhttp.Prelude.{
  ℕ, ◌-◌, ◌*◌, ◌^◌, ◌≤◌, ◌<◌, max, ◌≡◌, refl, List, [], ◌∷◌, none, some, arith, All, ap, sym, ◌∙◌,
  subst, ◌↔◌,
}
use mathlib.Core.List.{head?}
use holyhttp.RbTree.{RbTree}
use holyhttp.Timer.{Timer, interval_of, get_min_timeout, timeout_ms}
use holyhttp.Timer.Order.{IsSorted, sequence}

-- The interval is the given number of seconds exactly up to 4294 seconds: from 4295 seconds on the
-- 32-bit product wraps around, and the timer's interval is always shorter than that.
interval_of_iff :
    (seconds : ℕ)
    → seconds < 2 ^ 32
    → ((interval_of seconds ≡ seconds * 1000000) ↔ (seconds ≤ 4294))
      × (interval_of seconds < 4295 * 1000000)
unfolding interval_of
interval_of_iff seconds h = ((λ e. omega arith, λ e. omega arith), omega arith)

timeout_ms-le :
    (now e x : ℕ)
    → now < 2 ^ 63
    → e < 2 ^ 63
    → e ≤ x
    → timeout_ms now e * 1000 ≤ max 100000 (x - now)
unfolding timeout_ms
timeout_ms-le now e x hn he le = ground arith

timeout_ms-ge : (now e : ℕ) → 100 ≤ timeout_ms now e
unfolding timeout_ms
timeout_ms-ge now e = ground arith

timeout_ms-All :
    (now e : ℕ) (ts : List Timer)
    → now < 2 ^ 63
    → e < 2 ^ 63
    → All (λ (t : Timer). e ≤ t.expiry) ts
    → All (λ (t : Timer). timeout_ms now e * 1000 ≤ max 100000 (t.expiry - now)) ts
timeout_ms-All now e [] hn he h = tt
timeout_ms-All now e (t ∷ ts) hn he h =
    (timeout_ms-le now e t.expiry hn he h.0, timeout_ms-All now e ts hn he h.1)

module _ (trees : RbTree Timer) where
  no_timer_timeout :
      (now : ℕ) (root : trees.Root) → trees.first root ≡ none → 100 ≤ get_min_timeout trees now root
  unfolding get_min_timeout
  no_timer_timeout now root e = rw (e, get_min_timeout) (omega arith)

  timer_timeout :
      (now : ℕ) (root : trees.Root) (t : Timer)
      → trees.first root ≡ some t
      → get_min_timeout trees now root ≡ timeout_ms now t.expiry
  unfolding get_min_timeout
  timer_timeout now root t e = rw (e, get_min_timeout)

  -- The main loop sleeps at least 100 milliseconds. It sleeps no longer than until any timer in the
  -- sorted tree expires, or those 100 milliseconds where that is sooner.
  pub get_min_timeout_bounds :
      (now : ℕ) (root : trees.Root)
      → IsSorted (sequence trees root)
      → All (λ (t : Timer). t.expiry < 2 ^ 63) (sequence trees root)
      → now < 2 ^ 63
      → (100 ≤ get_min_timeout trees now root)
        × All
            (λ (t : Timer). get_min_timeout trees now root * 1000 ≤ max 100000 (t.expiry - now))
            (sequence trees root)
  get_min_timeout_bounds now root s b h = go (sequence trees root) refl s b
    where
      first_is : (l : List Timer) → sequence trees root ≡ l → trees.first root ≡ head? l
      first_is l e = trees.first-inorder root ∙ ap head? e

      go :
          (l : List Timer)
          → sequence trees root ≡ l
          → IsSorted l
          → All (λ (t : Timer). t.expiry < 2 ^ 63) l
          → (100 ≤ get_min_timeout trees now root)
            × All
                (λ (t : Timer). get_min_timeout trees now root * 1000 ≤ max 100000 (t.expiry - now))
                l
      go [] e s b = (no_timer_timeout now root (first_is [] e), tt)
      go (t ∷ ts) e s b =
          subst
            (λ (m : ℕ).
              (100 ≤ m) × All (λ (x : Timer). m * 1000 ≤ max 100000 (x.expiry - now)) (t ∷ ts))
            (sym (timer_timeout now root t (first_is (t ∷ ts) e)))
            (
              timeout_ms-ge now t.expiry,
              timeout_ms-All now t.expiry (t ∷ ts) h b.0 (omega arith, s.0),
            )
