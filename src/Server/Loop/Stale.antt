-- ===== src/Server/Loop/Stale.antt =====
-- The connection on descriptor 0: what closing leaves of it in the table of server/server.c.
use holyhttp.Prelude.{ℕ, ◌<◌, ◌≡◌, refl, none, some, ◌==◌, Bool, true, false, ap, ◌∙◌, arith}
use holyhttp.ListHead.{ListHead}
use holyhttp.Dict.Chain.{Kv}
use holyhttp.Dict.Typed.{get_int_ptr, del_by_int}
use holyhttp.Connection.Close.{close_conn}
use holyhttp.Connection.Peer.{Peer}
use holyhttp.Server.Handle.{Site}
use holyhttp.Server.Loop.{
  CloseRooms, kill_check, put, Server, Stepped, running, fault, closing, close_at, close_running,
  close_conn_by_fd, at_fd, hung_up, step,
}
use holyhttp.Server.Loop.Invariant.{put_here}

module _ (lists : ListHead Kv) where
  at_fd-found :
      (s : Server lists) (address : ℕ) (conn : Peer) (act : ℕ → Peer → Server lists → Stepped lists)
      → get_int_ptr lists true s.conns 0 ≡ address
      → 0 < address
      → s.heap address ≡ some conn
      → at_fd lists true 0 act s ≡ act address conn s
  unfolding at_fd
  at_fd-found s address conn act e h f =
      let n : (address == 0) ≡ false = ground arith in
      rw (at_fd, e, n, f) (ap (λ a. act a conn s) e)

  at_fd-lost :
      (s : Server lists) (address : ℕ) (act : ℕ → Peer → Server lists → Stepped lists)
      → get_int_ptr lists true s.conns 0 ≡ address
      → 0 < address
      → s.heap address ≡ none
      → at_fd lists true 0 act s ≡ fault
  unfolding at_fd
  at_fd-lost s address act e h f =
      let n : (address == 0) ≡ false = ground arith in rw (at_fd, e, n, f) refl

  -- What a close leaves, the descriptor as an argument.
  abbrev left : ℕ → ℕ → CloseRooms → Bool → Server lists → Server lists
  left address fd key armed s = record s {
    conns = del_by_int lists key.key s.conns fd;
    heap = put s.heap address none;
    checks = kill_check armed address s.checks;
  }

  closes :
      (s : Server lists) (timeout address : ℕ) (key : CloseRooms) (conn : Peer)
      → conn.refer ≡ 0
      → close_at lists timeout key address conn s ≡ left address conn.fd key conn.armed s
  unfolding close_at closing close_conn
  closes s timeout address key conn r =
      let z : (conn.refer == 0) ≡ true = ground (arith, r) in rw (close_at, close_conn, z) refl

  kept :
      (s : Server lists) (address : ℕ) (key : CloseRooms) (armed : Bool)
      → (left address 0 key armed s).conns ≡ s.conns
  unfolding del_by_int
  kept s address key armed = refl

  -- After a hang-up of the connection on descriptor 0, to which no request refers, the table still
  -- leads from 0 to it, and every event on descriptor 0 that finds memory for its look-up uses the
  -- freed connection: the deletion from the table skips the key 0.
  pub hung_up-stale :
      (site : Site lists) (timeout max_content_len : ℕ) (s : Server lists) (key : CloseRooms)
      (address : ℕ) (conn : Peer) (act : ℕ → Peer → Server lists → Stepped lists)
      → get_int_ptr lists true s.conns 0 ≡ address
      → 0 < address
      → s.heap address ≡ some conn
      → conn.fd ≡ 0
      → conn.refer ≡ 0
      → (u : Server lists) × (step lists site timeout max_content_len (hung_up 0 true key) s
          ≡ running u)
        × (at_fd lists true 0 act u ≡ fault)
  unfolding step close_conn_by_fd close_running
  hung_up-stale site timeout max_content_len s key address conn act e h f d r =
      let u = left address 0 key conn.armed s in
      (
        u,
        at_fd-found s address conn (close_running lists timeout key) e h f
            ∙ ap running
                (closes s timeout address key conn r ∙ ap (λ n. left address n key conn.armed s) d),
        at_fd-lost u address act
            (ap (λ c. get_int_ptr lists true c 0) (kept s address key conn.armed) ∙ e) h
            (put_here s.heap address none),
      )
