-- ===== src/Connection/Peer.antt =====
-- `connection_t` of server/connection.h as a whole, and what `holy_new_conn` and `close_conn` of
-- server/connection.c make of it.
use holyhttp.Prelude.{ℕ, ◌+◌, ◌%◌, ◌^◌, List, [], Option, none, Bool, true, Bytes}
use mathlib.Core.Option
use holyhttp.Connection.{Buffer, SendState, write_to_buf}

-- The pointer to the server and the function pointers, which never change, are left out. `armed`
-- says that the pointer to the timer is not null; times are seconds of the uptime.
pub record Peer : Type 0 where
  pub fd : ℕ
  pub ip : ℕ
  pub port : ℕ
  pub last_active : ℕ
  pub refer : ℕ
  pub try_close : ℕ
  pub armed : Bool
  pub sending : SendState
  pub recv_buf : Option Buffer

-- The descriptor of a new connection is registered for reading. `timer` says whether the memory for
-- its timer is there.
unfoldable pub new_conn : ℕ → ℕ → ℕ → ℕ → Bool → Peer
new_conn fd ip port now timer = record {
  fd = fd;
  ip = ip;
  port = port;
  last_active = now;
  refer = 0;
  try_close = 0;
  armed = timer;
  sending = record { send_buf = []; send_buf_len = 0; reading = true };
  recv_buf = none;
}

-- What a refused close leaves: the timer is set anew, with memory for it, and the attempt is counted.
unfoldable pub put_off : Bool → Peer → Peer
put_off timer self = record self { armed = timer; try_close = (self.try_close + 1) % 2 ^ 16 }

-- A write by whoever holds the connection.
unfoldable pub write : List Bool → Bytes → Option Bytes → Peer → Option Peer
write allocs date content self =
    Option.map (λ r. record self { sending = r.1 }) (write_to_buf allocs date content self.sending)
