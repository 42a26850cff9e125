-- ===== src/Server/Loop/Safety.antt =====
-- No event uses a connection that is freed: the invariant of server/server.c's table over the steps
-- of its loop.
use holyhttp.Prelude.{ℕ, ◌^◌, ◌≤◌, ◌<◌, ◌≡◌, [], none, some, true, false}
use holyhttp.ListHead.{ListHead}
use holyhttp.Dict.Chain.{Kv}
use holyhttp.Dict.{fresh}
use holyhttp.Connection.Peer.{Peer}
use holyhttp.Server.Handle.{Site}
use holyhttp.Server.Loop.{
  Server, running, Event, acceptable, readable, writable, hung_up, fires, step,
}
use holyhttp.Server.Loop.Invariant.{IsNew}
use holyhttp.Server.Loop.Good.{Good}

module _ (lists : ListHead Kv) where
  -- An event that the kernel, the allocator and the timers can report: a new connection gets a
  -- descriptor above 0 and unused memory, the keys of deletions find memory, a timer fires only
  -- where it is in the tree, and then the uptime is not before the connection's last activity.
  abbrev pub Possible : Server lists → Event lists → Type 0
  Possible s (acceptable none) = Unit
  Possible s (acceptable (some a)) = IsNew lists s a
  Possible s (readable fd found key m r) = (fd < 2 ^ 64) × (key.key ≡ true)
  Possible s (writable fd found key now answer) = (fd < 2 ^ 64) × (key.key ≡ true)
  Possible s (hung_up fd found key) = (fd < 2 ^ 64) × (key.key ≡ true)
  Possible s (fires address key now) =
      (key.key ≡ true)
      × (s.checks address ≡ true)
      × ((conn : Peer) → s.heap address ≡ some conn → conn.last_active ≤ now)

  module _ (site : Site lists) (timeout max_content_len : ℕ) where
    -- The servers that possible events lead to.
    pub data Reach (s : Server lists) : Server lists → Type 0 where
      here : Reach s s
      next :
          {t u : Server lists} (e : Event lists)
          → Reach s t
          → Possible t e
          → step lists site timeout max_content_len e t ≡ running u
          → Reach s u

  -- A server without connections.
  abbrev pub idle_server : Server lists
  idle_server = record { conns = fresh lists; heap = λ a. none; checks = λ a. false; sessions = [] }
