-- ===== src/Server/Loop/Good.antt =====
-- The parts of a step of server/server.c's loop, on a server whose table is well formed.
use holyhttp.Prelude.{
  ℕ, ◌^◌, ◌≤◌, ◌<◌, ◌≡◌, ◌≢◌, refl, inl, inr, [], Option, none, some, if◌then◌else◌, ◌==◌, Bool,
  Bool-cases, true, false, subst, ◌∙◌, arith,
}
use holyhttp.ListHead.{ListHead}
use holyhttp.Tlv.{tlvint}
use holyhttp.Dict.Chain.{Kv}
use holyhttp.Dict.Access.{new_int}
use holyhttp.Dict.Typed.{get_int_ptr, get_by_int, get_type_type}
use holyhttp.Connection.{
  SendEnd, exited, returned, shut, RecvOutcome, waiting, closed, refused, handled,
}
use holyhttp.Connection.Close.{check_timeout, asks_again}
use holyhttp.Connection.Status.{status_packet}
use holyhttp.Connection.Peer.{Peer, write}
use holyhttp.Server.Handle.{Site, Moment, Handled, handle_data}
use holyhttp.Server.Handle.Steps.{write-Same}
use holyhttp.Server.Handle.Balance.{handle_data-fd}
use holyhttp.Server.Loop.{
  set_check, drop_check, Server, Stepped, running, fault, hangs, update, close_at, Reading,
  after_handler, after_status, receive, sent_to_peer, idle, at_fd,
}
use holyhttp.Server.Loop.Invariant.{
  SameEnds, keyed, set_check_other, set_check_here, drop_check_other, drop_check_here,
  put-HasChecked, update-Leads, update-fds, IsServer, Leads, update-IsServer, close_at-IsServer,
}

module _ (lists : ListHead Kv) where
  -- A step that ends leaves a server that is well formed, and no step faults.
  unfoldable pub Good : Stepped lists → Type 0
  Good (running u) = IsServer lists u
  Good fault = ⊥
  Good hangs = Unit

  pub Good-fault : (r : Stepped lists) → Good r → r ≢ fault
  unfolding Good
  Good-fault r g e = absurd (subst Good e g)

  pub Good-running :
      (r : Stepped lists) (u : Server lists) → Good r → r ≡ running u → IsServer lists u
  unfolding Good
  Good-running r u g e = subst Good e g

  update-Good :
      (s : Server lists) (address : ℕ) (old conn : Peer)
      → IsServer lists s
      → s.heap address ≡ some old
      → SameEnds old conn
      → Good (running (update lists address conn s))
  unfolding Good
  update-Good s address old conn i e same = update-IsServer lists s address old conn i e same

  pub close-Good :
      (s : Server lists) (room : Bool) (timeout address : ℕ) (old conn : Peer)
      → IsServer lists s
      → s.heap address ≡ some old
      → SameEnds old conn
      → Good (running (close_at lists timeout (keyed room) address conn s))
  unfolding Good
  close-Good s room timeout address old conn i e same =
      close_at-IsServer lists s room timeout address old conn i e same

  after_status-Good :
      (s : Server lists) (address : ℕ) (old : Peer) (o : Option Peer)
      → IsServer lists s
      → s.heap address ≡ some old
      → ((p : Peer) → o ≡ some p → SameEnds old p)
      → Good (after_status lists address o s)
  unfolding after_status Good
  after_status-Good s address old none i e h = tt
  after_status-Good s address old (some p) i e h = update-Good s address old p i e (h p refl)

  after_handler-Good :
      (s : Server lists) (address : ℕ) (old : Peer) (o : Option (Handled lists))
      → IsServer lists s
      → s.heap address ≡ some old
      → ((h : Handled lists) → o ≡ some h → SameEnds old h.peer)
      → Good (after_handler lists address o s)
  unfolding after_handler Good
  after_handler-Good s address old none i e k = tt
  after_handler-Good s address old (some h) i e k =
      let u =
        update-IsServer lists s address old (record h.peer { recv_buf = none }) i e (k h refl) in
      record { dict = u.dict; leads = u.leads; fds = u.fds; checked = u.checked }

  pub receive-Good :
      (site : Site lists) (m : Moment lists) (room : Bool) (timeout : ℕ) (r : Reading) (address : ℕ)
      (conn : Peer) (o : RecvOutcome) (s : Server lists) (old : Peer)
      → IsServer lists s
      → s.heap address ≡ some old
      → SameEnds old conn
      → Good (receive lists site m timeout (keyed room) r address conn o s)
  unfolding receive
  receive-Good site m room timeout r address conn (waiting buf) s old i e same =
      update-Good s address old (record conn { recv_buf = buf }) i e same
  receive-Good site m room timeout r address conn (closed buf) s old i e same =
      close-Good s room timeout address old (record conn { recv_buf = buf }) i e same
  receive-Good site m room timeout r address conn (refused code) s old i e same =
      let page = some (status_packet r.date code) in
      after_status-Good s address old (write r.status_allocs r.date page conn) i e (λ p f.
        let w = write-Same r.status_allocs r.date page conn p f in (w.0 ∙ same.0, w.2 ∙ same.1))
  receive-Good site m room timeout r address conn (handled bytes n) s old i e same =
      let text = if n == 0 then [] else bytes in
      after_handler-Good s address old (handle_data lists site m r.code text conn s.sessions) i e
        (λ h f.
          let w = handle_data-fd lists site m r.code text conn s.sessions h f in
          (w.0 ∙ same.0, w.1 ∙ same.1))

  pub sent-Good :
      (s : Server lists) (room : Bool) (timeout now address : ℕ) (old conn : Peer) (end' : SendEnd)
      → IsServer lists s
      → s.heap address ≡ some old
      → SameEnds old conn
      → Good (running (sent_to_peer lists timeout (keyed room) now address conn end' s))
  unfolding sent_to_peer
  sent-Good s room timeout now address old conn exited i e same =
      update-Good s address old (record conn { last_active = now }) i e same
  sent-Good s room timeout now address old conn returned i e same =
      update-Good s address old conn i e same
  sent-Good s room timeout now address old conn shut i e same =
      close-Good s room timeout address old conn i e same

  -- A timer that fires, on a connection that has been active before.
  pub idle-Good :
      (s : Server lists) (room : Bool) (timeout address now : ℕ) (conn : Peer)
      → IsServer lists s
      → s.heap address ≡ some conn
      → 0 < timeout
      → conn.last_active ≤ now
      → Good (
          idle lists timeout
            (keyed room)
            address
            conn
            (check_timeout timeout conn.last_active now)
            (record s { checks = drop_check address s.checks }))
  unfolding idle Good
  idle-Good s room timeout address now conn i e h k =
      let next : Peer = record conn { armed = room } in
      rw (asks_again timeout conn.last_active now h k) (record {
        dict = i.dict;
        leads = λ fd b. update-Leads lists s.heap address fd _ conn next e refl (i.leads fd b);
        fds = update-fds lists s.heap address next (i.fds address conn e) i.fds;
        checked =
            put-HasChecked s.checks (set_check room address (drop_check address s.checks)) s.heap
              address (some next)
              (λ a n.
                set_check_other room address (drop_check address s.checks) a n
                ∙ drop_check_other address s.checks a n)
              (λ t. (
                next,
                refl,
                set_check_here room address (drop_check address s.checks)
                    (drop_check_here address s.checks) t,
              ))
              i.checked;
      })

  -- Without memory for the key nothing is found.
  get_none : (s : Server lists) (fd : ℕ) → get_int_ptr lists false s.conns fd ≡ 0
  unfolding get_int_ptr get_by_int get_type_type tlvint
  get_none s fd = rw (new_int fd false, get_type_type) refl

  found-Leads :
      (s : Server lists) (found : Bool) (fd : ℕ)
      → IsServer lists s
      → fd < 2 ^ 64
      → Leads s.heap fd (get_int_ptr lists found s.conns fd)
  found-Leads s true fd i h = i.leads fd h
  found-Leads s false fd i h = inl (get_none s fd)

  pub at_fd-Good :
      (s : Server lists) (found : Bool) (fd : ℕ) (act : ℕ → Peer → Server lists → Stepped lists)
      → IsServer lists s
      → fd < 2 ^ 64
      → ((address : ℕ) (conn : Peer) → s.heap address ≡ some conn → Good (act address conn s))
      → Good (at_fd lists found fd act s)
  unfolding at_fd Good
  at_fd-Good s found fd act i h k =
      let address = get_int_ptr lists found s.conns fd in
      elim (Bool-cases (address == 0)) [
        | inl z ↦ rw (at_fd, z) i
        | inr n ↦ elim (found-Leads s found fd i h) [
          | inl z ↦ absurd (ground (arith, z, n))
          | inr (conn, e, f) ↦ rw (at_fd, n, e) (k address conn e)
        ]
      ]
