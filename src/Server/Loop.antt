-- ===== src/Server/Loop.antt =====
-- The events of server/server.c on its connections: `accept_connection`, `read_data`, `write_data`,
-- `close_conn_by_fd` and the dispatch of `run_server`, with `recv_from_peer`, `close_conn` and
-- `check_timeout` of server/connection.c on the whole state. Connections are in a store by address.
pub mod Invariant
pub mod Good
pub mod Safety
pub mod Stale
use holyhttp.Prelude.{
  ℕ, List, [], ◌∷◌, Option, none, some, if◌then◌else◌, ◌==◌, ◌||◌, Bool, true, false, Bytes,
}
use mathlib.Core.Option
use holyhttp.ListHead.{ListHead}
use holyhttp.Dict.Chain.{Kv}
use holyhttp.Dict.{Dict}
use holyhttp.Dict.Typed.{Allocs, set_int_ptr, get_int_ptr, del_by_int}
use holyhttp.Tlv.{c_str}
use holyhttp.Text.Search.{memfind}
use holyhttp.Connection.{
  Buffer, SendResult, SendEnd, exited, returned, shut, send_to_peer, RecvResult, received,
  try_again, gone, RecvOutcome, waiting, closed, refused, handled, recv_continue, recv_first, crlf2,
}
use holyhttp.Connection.Close.{
  Closing, retry, freed, close_conn, IdleCheck, look_again, close_now, check_timeout,
}
use holyhttp.Connection.Status.{status_packet}
use holyhttp.Connection.Peer.{Peer, new_conn, put_off, write}
use holyhttp.Request.Session.{Sessions}
use holyhttp.Server.Handle.{Site, Moment, Handled, handle_data}

-- What `accept` and the calls behind it give: the descriptor, the peer, the address of the new
-- connection, which is 0 where `malloc` fails, the allocations of its entry and of its
-- timer, and the uptime.
pub record Accepted : Type 0 where
  pub fd : ℕ
  pub ip : ℕ
  pub port : ℕ
  pub address : ℕ
  pub entry : Allocs
  pub timer : Bool
  pub now : ℕ

-- `recv_from_peer` up to where the connection is used again.
unfoldable pub recv_outcome : Bool → ℕ → List RecvResult → Option Buffer → RecvOutcome
unfolding recv_continue recv_first
recv_outcome alloc max_content_len [] buf = waiting buf
recv_outcome alloc max_content_len (r ∷ rs) (some buf) = recv_continue r buf
recv_outcome alloc max_content_len (try_again ∷ rs) none = waiting none
recv_outcome alloc max_content_len (gone ∷ rs) none = closed none
recv_outcome alloc max_content_len (received s ∷ rs) none = recv_first alloc max_content_len s rs

-- A first packet with a whole header counts as activity.
unfoldable pub recv_active : ℕ → List RecvResult → Option Buffer → ℕ → ℕ
recv_active now (received s ∷ rs) none last_active = elim (memfind (some (c_str s)) (some crlf2)) [
  | none ↦ last_active
  | some i ↦ now
]
recv_active now [] buf last_active = last_active
recv_active now (r ∷ rs) (some buf) last_active = last_active
recv_active now (try_again ∷ rs) none last_active = last_active
recv_active now (gone ∷ rs) none last_active = last_active

-- What one call of `recv_from_peer` gets: the results of `recv`, whether the buffer is allocated,
-- the uptime, and the writing of a status, with its date.
pub record Reading : Type 0 where
  pub results : List RecvResult
  pub alloc : Bool
  pub now : ℕ
  pub status_allocs : List Bool
  pub date : Bytes
  -- What `status` holds at first in `handle_data`.
  pub code : ℕ

unfoldable pub put : (ℕ → Option Peer) → ℕ → Option Peer → ℕ → Option Peer
put heap address peer a = if a == address then peer else heap a

-- What closing allocates: the key for the deletion, and the timer of another attempt.
pub record CloseRooms : Type 0 where
  pub key : Bool
  pub timer : Bool

-- The timers that check the connection at an address, in the tree of server/timer.c: `checks` says
-- for each address whether there is one. `holy_set_timeout` without memory sets none.
unfoldable pub set_check : Bool → ℕ → (ℕ → Bool) → ℕ → Bool
set_check set address checks a = if a == address then set || checks a else checks a

-- `remove_timer`, and `holy_kill_timer` on the timer of a connection, which may be null.
unfoldable pub drop_check : ℕ → (ℕ → Bool) → ℕ → Bool
drop_check address checks a = if a == address then false else checks a

unfoldable pub kill_check : Bool → ℕ → (ℕ → Bool) → ℕ → Bool
unfolding drop_check
kill_check armed address checks a = if armed then drop_check address checks a else checks a

module _ (lists : ListHead Kv) where
  -- The connections that are not freed, by address, the table from descriptors to addresses, the
  -- timers that check a connection, by its address, and the sessions.
  pub record Server : Type 0 where
    pub conns : Dict lists
    pub heap : ℕ → Option Peer
    pub checks : ℕ → Bool
    pub sessions : Sessions

  -- A step ends, uses a connection or a timer that is gone, or does not return.
  pub data Stepped : Type 0 where
    running : Server → Stepped
    fault : Stepped
    hangs : Stepped

  -- A connection whose registration cannot be stored stays, without an entry.
  unfoldable pub accept_connection : Option Accepted → Server → Server
  unfolding put new_conn set_int_ptr set_check
  accept_connection none self = self
  accept_connection (some a) self = if a.address == 0 then self else record self {
    conns = (set_int_ptr lists a.entry self.conns a.fd a.address).1;
    heap = put self.heap a.address (some (new_conn a.fd a.ip a.port a.now a.timer));
    checks = set_check a.timer a.address self.checks;
  }

  -- The connection at an address has another state.
  abbrev pub update : ℕ → Peer → Server → Server
  update address conn self = record self { heap = put self.heap address (some conn) }

  -- What `close_conn` does with the connection at an address, whose timer is killed first.
  unfoldable pub closing : CloseRooms → ℕ → Peer → Closing → Server → Server
  unfolding put put_off del_by_int set_check kill_check
  closing key address conn (retry seconds tries) self = record self {
    heap = put self.heap address (some (put_off key.timer conn));
    checks = set_check key.timer address (kill_check conn.armed address self.checks);
  }
  closing key address conn freed self = record self {
    conns = del_by_int lists key.key self.conns conn.fd;
    heap = put self.heap address none;
    checks = kill_check conn.armed address self.checks;
  }

  unfoldable pub close_at : ℕ → CloseRooms → ℕ → Peer → Server → Server
  unfolding closing close_conn
  close_at timeout key address conn self =
      closing key address conn (close_conn timeout conn.refer conn.try_close) self

  -- The connection and the sessions behind a call of the handler, which has freed the buffer.
  unfoldable pub after_handler : ℕ → Option (Handled lists) → Server → Stepped
  after_handler address none self = hangs
  after_handler address (some h) self = running (record self {
    heap = put self.heap address (some (record h.peer { recv_buf = none }));
    sessions = h.sessions;
  })

  unfoldable pub after_status : ℕ → Option Peer → Server → Stepped
  after_status address none self = hangs
  after_status address (some conn) self = running (update address conn self)

  -- What `recv_from_peer` does at the end. A length of 0 makes the handler refuse the data.
  unfoldable pub receive :
      Site lists
      → Moment lists
      → ℕ
      → CloseRooms
      → Reading
      → ℕ
      → Peer
      → RecvOutcome
      → Server
      → Stepped
  unfolding close_at after_handler after_status handle_data write status_packet
  receive site m timeout key r address conn (waiting buf) self =
      running (update address (record conn { recv_buf = buf }) self)
  receive site m timeout key r address conn (closed buf) self =
      running (close_at timeout key address (record conn { recv_buf = buf }) self)
  receive site m timeout key r address conn (refused code) self =
      after_status address (write r.status_allocs r.date (some (status_packet r.date code)) conn)
        self
  receive site m timeout key r address conn (handled bytes n) self =
      after_handler address
        (handle_data lists site m r.code (if n == 0 then [] else bytes) conn self.sessions) self

  unfoldable pub recv_from_peer :
      Site lists → Moment lists → ℕ → ℕ → CloseRooms → Reading → ℕ → Peer → Server → Stepped
  unfolding receive recv_outcome recv_active
  recv_from_peer site m timeout max_content_len key r address conn self =
      receive site m timeout key r address
        (record conn { last_active = recv_active r.now r.results conn.recv_buf conn.last_active })
        (recv_outcome r.alloc max_content_len r.results conn.recv_buf) self

  -- `exit` and the end of the loop count as activity, a `return` does not.
  unfoldable pub sent_to_peer : ℕ → CloseRooms → ℕ → ℕ → Peer → SendEnd → Server → Server
  unfolding close_at
  sent_to_peer timeout key now address conn exited self =
      update address (record conn { last_active = now }) self
  sent_to_peer timeout key now address conn returned self = update address conn self
  sent_to_peer timeout key now address conn shut self = close_at timeout key address conn self

  -- What the check does when it fires. Its timer is not in the tree any more, but the connection
  -- still points to it, so closing removes and frees it a second time.
  unfoldable pub idle : ℕ → CloseRooms → ℕ → Peer → IdleCheck → Server → Stepped
  unfolding close_at set_check
  idle timeout key address conn (look_again seconds) self = running (record self {
    heap = put self.heap address (some (record conn { armed = key.timer }));
    checks = set_check key.timer address self.checks;
  })
  idle timeout key address conn close_now self =
      if conn.armed then fault else running (close_at timeout key address conn self)

  -- What `epoll_wait` reports, and a timer that fires. `found` says whether the key for the look-up
  -- of a descriptor is allocated; `CloseRooms` is for a close, and `fires` has the address.
  pub data Event : Type 0 where
    acceptable : Option Accepted → Event
    readable : ℕ → Bool → CloseRooms → Moment lists → Reading → Event
    writable : ℕ → Bool → CloseRooms → ℕ → (ℕ → SendResult) → Event
    hung_up : ℕ → Bool → CloseRooms → Event
    fires : ℕ → CloseRooms → ℕ → Event

  -- The connection that the table has for a descriptor; nothing is done where it has none.
  unfoldable pub at_fd : Bool → ℕ → (ℕ → Peer → Server → Stepped) → Server → Stepped
  unfolding get_int_ptr
  at_fd found fd act self =
      let address = get_int_ptr lists found self.conns fd in
      if address == 0
      then running self
      else elim (self.heap address) [ none ↦ fault | some conn ↦ act address conn self ]

  unfoldable pub read_data :
      Site lists → ℕ → ℕ → ℕ → Bool → CloseRooms → Moment lists → Reading → Server → Stepped
  unfolding at_fd recv_from_peer
  read_data site timeout max_content_len fd found key m r self =
      at_fd found fd (recv_from_peer site m timeout max_content_len key r) self

  -- `conn->send`: `send_to_peer` on the connection at an address.
  unfoldable pub send_at : ℕ → CloseRooms → ℕ → (ℕ → SendResult) → ℕ → Peer → Server → Stepped
  unfolding send_to_peer sent_to_peer
  send_at timeout key now answer address conn self =
      let r = send_to_peer answer conn.sending in
      running (sent_to_peer timeout key now address (record conn { sending = r.0 }) r.2 self)

  unfoldable pub write_data : ℕ → ℕ → Bool → CloseRooms → ℕ → (ℕ → SendResult) → Server → Stepped
  unfolding at_fd send_at
  write_data timeout fd found key now answer self =
      at_fd found fd (send_at timeout key now answer) self

  unfoldable pub close_running : ℕ → CloseRooms → ℕ → Peer → Server → Stepped
  unfolding close_at
  close_running timeout key address conn self = running (close_at timeout key address conn self)

  unfoldable pub close_conn_by_fd : ℕ → ℕ → Bool → CloseRooms → Server → Stepped
  unfolding at_fd close_running
  close_conn_by_fd timeout fd found key self = at_fd found fd (close_running timeout key) self

  -- One round of the loops of `run_server` and `holy_explode_timers`, over the settings of the
  -- server.
  unfoldable pub step : Site lists → ℕ → ℕ → Event → Server → Stepped
  unfolding accept_connection read_data write_data close_conn_by_fd check_timeout idle drop_check
  step site timeout max_content_len (acceptable a) self = running (accept_connection a self)
  step site timeout max_content_len (readable fd found key m r) self =
      read_data site timeout max_content_len fd found key m r self
  step site timeout max_content_len (writable fd found key now answer) self =
      write_data timeout fd found key now answer self
  step site timeout max_content_len (hung_up fd found key) self =
      close_conn_by_fd timeout fd found key self
  step site timeout max_content_len (fires address key now) self = elim (self.heap address) [
    | none ↦ fault
    | some conn ↦
        idle timeout key address conn (check_timeout timeout conn.last_active now)
          (record self { checks = drop_check address self.checks })
  ]
