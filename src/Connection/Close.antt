-- ===== src/Connection/Close.antt =====
-- Closing a connection and the idle check: `close_conn` and `check_timeout` of server/connection.c.
use holyhttp.Prelude.{
  ℕ, zero, suc, ◌+◌, ◌-◌, ◌%◌, ◌^◌, ◌≤◌, ◌<◌, ◌≡◌, ◌≢◌, arith, if◌then◌else◌, ltb, ◌==◌,
}

-- What closing does: while requests refer to the connection, another attempt is scheduled after the
-- socket timeout and counted; otherwise the buffers, the socket and the entry of the connection go.
pub data Closing : Type 0 where
  retry : ℕ → ℕ → Closing
  freed : Closing

unfoldable pub close_conn : ℕ → ℕ → ℕ → Closing
close_conn socket_timeout refer try_close =
    if refer == 0 then freed else retry socket_timeout ((try_close + 1) % 2 ^ 16)

-- What the idle check decides: to look again after some seconds, or to close.
pub data IdleCheck : Type 0 where
  look_again : ℕ → IdleCheck
  close_now : IdleCheck

-- `interval = last_active - now` is a signed number; `timeout - interval` is passed on as a `u32`.
unfoldable pub check_timeout : ℕ → ℕ → ℕ → IdleCheck
check_timeout timeout last_active now =
    if ltb last_active now
    then look_again ((timeout + (now - last_active)) % 2 ^ 32)
    else if ltb (last_active - now) timeout
    then look_again ((timeout - (last_active - now)) % 2 ^ 32)
    else close_now

unfoldable pub next_round : IdleCheck → (ℕ → IdleCheck) → IdleCheck
next_round (look_again n) later = later n
next_round close_now later = close_now

-- The timer's checks one after the other, each as many seconds later as the one before asks for,
-- for a connection that stays idle.
unfoldable pub idle_rounds : ℕ → ℕ → ℕ → ℕ → IdleCheck
unfolding next_round
idle_rounds zero timeout last_active now = check_timeout timeout last_active now
idle_rounds (suc k) timeout last_active now =
    next_round (check_timeout timeout last_active now)
      (λ n. idle_rounds k timeout last_active (now + n))

pub asks_again :
    (timeout last_active now : ℕ)
    → 0 < timeout
    → last_active ≤ now
    → check_timeout timeout last_active now ≡ look_again ((timeout + (now - last_active)) % 2 ^ 32)
unfolding check_timeout
asks_again timeout last_active now h k = ground arith

-- A connection that stays idle is never closed by the idle check, after any number of rounds: the
-- interval is taken with the wrong sign, so each round asks for another one.
pub check_timeout_never :
    (rounds timeout last_active now : ℕ)
    → 0 < timeout
    → last_active ≤ now
    → idle_rounds rounds timeout last_active now ≢ close_now
unfolding idle_rounds next_round
check_timeout_never zero timeout last_active now h k =
    let a = asks_again timeout last_active now h k in λ e. cc
check_timeout_never (suc r) timeout last_active now h k =
    rw (idle_rounds, asks_again timeout last_active now h k)
      (check_timeout_never r timeout last_active (now + (timeout + (now - last_active)) % 2 ^ 32) h
        (omega arith))
