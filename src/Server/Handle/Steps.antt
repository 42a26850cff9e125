-- ===== src/Server/Handle/Steps.antt =====
-- How `handle_data` of server/server.c ends, step by step.
use holyhttp.Prelude.{
  ℕ, ◌+◌, ◌%◌, ◌^◌, ◌≡◌, refl, ◌⊎◌, inl, inr, List, [], ◌∷◌, ◌++◌, Option, none, some, ◌||◌, Bool,
  Option-cases, Bytes, ap, sym, subst, ◌∙◌,
}
use mathlib.Core.Option
use mathlib.Core.Option.{none-ne-some, some_inj}
use holyhttp.ListHead.{ListHead}
use holyhttp.Dict.Chain.{Kv}
use holyhttp.Packet.{Parsed, refused, parsed}
use holyhttp.Packet.Parse.{Packet, new_req_pkt}
use holyhttp.Connection.{write_to_buf}
use holyhttp.Connection.Status.{status_packet}
use holyhttp.Connection.Peer.{Peer, write}
use holyhttp.Request.Session.{Session, Sessions}
use holyhttp.Request.Life.{Clock, Request, Inited, request_init, update_session, begin_session}
use holyhttp.Request.Life.Laws.{
  refers, update_session-refers, bump_same, Grown, Taken, request_init-Started,
}
use holyhttp.Server.Handle.{
  Writing, write_all, put_entries, Site, Moment, Handled, acts_of, finish, serve, refuse,
  handle_data,
}

-- What writing does not touch.
abbrev pub Same : Peer → Peer → Type 0
Same a b = (b.fd ≡ a.fd) × (b.refer ≡ a.refer) × (b.armed ≡ a.armed) × (b.recv_buf ≡ a.recv_buf)

map_cases :
    {A B : Type 0} (f : A → B) (o : Option A) (b : B)
    → Option.map f o ≡ some b
    → (a : A) × (o ≡ some a) × (b ≡ f a)
map_cases f none b e = absurd (none-ne-some b e)
map_cases f (some a) b e = (a, refl, sym (some_inj.0 e))

pub parse_cases :
    {A : Type 0} (o : Option (Parsed A))
    → (o ≡ none) ⊎ (((n : ℕ) × (o ≡ some (refused n))) ⊎ ((a : A) × (o ≡ some (parsed a))))
parse_cases none = inl refl
parse_cases (some (refused n)) = inr (inl (n, refl))
parse_cases (some (parsed a)) = inr (inr (a, refl))

pub write-Same :
    (allocs : List Bool) (date : Bytes) (content : Option Bytes) (self p : Peer)
    → write allocs date content self ≡ some p
    → Same self p
unfolding write
write-Same allocs date content self p e =
    let (r, _, q) =
      map_cases (λ r. record self { sending = r.1 }) (write_to_buf allocs date content self.sending)
        p e in
    subst (Same self) (sym q) (refl, refl, refl, refl)

write_all_stop :
    (date : Bytes) (w : Writing) (ws : List Writing) (self : Peer)
    → write w.allocs date (some w.text) self ≡ none
    → write_all date (w ∷ ws) self ≡ none
unfolding write_all
write_all_stop date w ws self e = rw (e, write_all) refl

pub write_all_next :
    (date : Bytes) (w : Writing) (ws : List Writing) (self q : Peer)
    → write w.allocs date (some w.text) self ≡ some q
    → write_all date (w ∷ ws) self ≡ write_all date ws q
unfolding write_all
write_all_next date w ws self q e = rw (e, write_all) refl

write_all-Same :
    (date : Bytes) (ws : List Writing) (self p : Peer)
    → write_all date ws self ≡ some p
    → Same self p
unfolding write_all
write_all-Same date [] self p e = subst (Same self) (some_inj.0 e) (refl, refl, refl, refl)
write_all-Same date (w ∷ ws) self p e =
    elim (Option-cases (write w.allocs date (some w.text) self)) [
      | inl n ↦ absurd (none-ne-some p (sym (write_all_stop date w ws self n) ∙ e))
      | inr (q, f) ↦
          let a = write-Same w.allocs date (some w.text) self q f in
          let b = write_all-Same date ws q p (sym (write_all_next date w ws self q f) ∙ e) in
          (b.0 ∙ a.0, b.1 ∙ a.1, b.2 ∙ a.2, b.3 ∙ a.3)
    ]

put_entries-refer :
    (entries : Option (List (Bytes × Bytes))) (s : Session)
    → (put_entries entries s).refer ≡ s.refer
unfolding put_entries
put_entries-refer none s = refl
put_entries-refer (some entries) s = refl

put_entries-refers :
    (entries : Option (List (Bytes × Bytes))) (sid : Bytes) (ss : Sessions)
    → refers (update_session ss sid (put_entries entries)) ≡ refers ss
put_entries-refers entries sid ss =
    update_session-refers ss sid (put_entries entries) (λ n. n) (put_entries-refer entries)
    ∙ bump_same sid (refers ss)

module _ (lists : ListHead Kv) where
  serve_stop :
      (site : Site lists) (m : Moment lists) (req : Request lists) (conn : Peer) (ss : Sessions)
      → let acts = acts_of lists site m req in
        write_all (site.gmt m.now) (acts.0.writes ++ acts.1.writes) conn ≡ none
        → serve lists site m req conn ss ≡ none
  unfolding serve
  serve_stop site m req conn ss e = rw (e, serve) refl

  pub serve_next :
      (site : Site lists) (m : Moment lists) (req : Request lists) (conn p : Peer) (ss : Sessions)
      → let acts = acts_of lists site m req in
        write_all (site.gmt m.now) (acts.0.writes ++ acts.1.writes) conn ≡ some p
        → serve lists site m req conn ss
          ≡ some (
              finish lists (acts.0.incomplete || acts.1.incomplete) req p (
                update_session
                  (update_session ss req.session (put_entries acts.0.entries))
                  req.session
                  (put_entries acts.1.entries)))
  unfolding serve
  serve_next site m req conn p ss e = rw (e, serve) refl

  -- Serving ends a request on a connection and a table with the same references.
  serve_cases :
      (site : Site lists) (m : Moment lists) (req : Request lists) (conn : Peer) (ss : Sessions)
      (h : Handled lists)
      → serve lists site m req conn ss ≡ some h
      → (p : Peer) × (after : Sessions) × (b : Bool) × Same conn p
        × (refers after ≡ refers ss)
        × (h ≡ finish lists b req p after)
  serve_cases site m req conn ss h e =
      let acts = acts_of lists site m req in
      let ws = acts.0.writes ++ acts.1.writes in
      let first = update_session ss req.session (put_entries acts.0.entries) in
      elim (Option-cases (write_all (site.gmt m.now) ws conn)) [
        | inl n ↦ absurd (none-ne-some h (sym (serve_stop site m req conn ss n) ∙ e))
        | inr (p, f) ↦ (
          p,
          update_session first req.session (put_entries acts.1.entries),
          acts.0.incomplete || acts.1.incomplete,
          write_all-Same (site.gmt m.now) ws conn p f,
          put_entries-refers acts.1.entries req.session first
              ∙ put_entries-refers acts.0.entries req.session ss,
          some_inj.0 (sym e ∙ serve_next site m req conn p ss f),
        )
      ]

  refuse_cases :
      (site : Site lists) (m : Moment lists) (code : ℕ) (conn : Peer) (ss : Sessions)
      (h : Handled lists)
      → refuse lists site m code conn ss ≡ some h
      → Same conn h.peer × (h.sessions ≡ ss) × (h.kept ≡ none)
  unfolding refuse
  refuse_cases site m code conn ss h e =
      let page = some (status_packet (site.gmt m.now) code) in
      let (p, f, q) =
        map_cases (λ next. record { peer = next; sessions = ss; kept = none })
          (write m.sending (site.gmt m.now) page conn) h e in
      rw q (write-Same m.sending (site.gmt m.now) page conn p f, refl, refl)

  handle_stop :
      (site : Site lists) (m : Moment lists) (code : ℕ) (text : Bytes) (conn : Peer) (ss : Sessions)
      → new_req_pkt m.fuel m.inner code m.rooms (some text) ≡ none
      → handle_data lists site m code text conn ss ≡ none
  unfolding handle_data
  handle_stop site m code text conn ss e = rw (e, handle_data) refl

  pub handle_refused :
      (site : Site lists) (m : Moment lists) (code found : ℕ) (text : Bytes) (conn : Peer)
      (ss : Sessions)
      → new_req_pkt m.fuel m.inner code m.rooms (some text) ≡ some (refused found)
      → handle_data lists site m code text conn ss ≡ refuse lists site m found conn ss
  unfolding handle_data
  handle_refused site m code found text conn ss e = rw (e, handle_data) refl

  -- What `handle_data` starts from a packet.
  abbrev pub start : Site lists → Moment lists → Packet → Peer → Sessions → Inited lists
  start site m pkt conn ss =
      request_init lists m.init m.clock site.session_timeout site.age pkt 200 conn ss

  pub handle_failed :
      (site : Site lists) (m : Moment lists) (code : ℕ) (text : Bytes) (pkt : Packet) (conn : Peer)
      (ss : Sessions)
      → new_req_pkt m.fuel m.inner code m.rooms (some text) ≡ some (parsed pkt)
      → (start site m pkt conn ss).request ≡ none
      → handle_data lists site m code text conn ss
        ≡ refuse lists site m
            (start site m pkt conn ss).status
            (start site m pkt conn ss).peer
            (start site m pkt conn ss).sessions
  unfolding handle_data
  handle_failed site m code text pkt conn ss e f = rw (e, handle_data, f) refl

  pub handle_started :
      (site : Site lists) (m : Moment lists) (code : ℕ) (text : Bytes) (pkt : Packet) (conn : Peer)
      (ss : Sessions) (req : Request lists)
      → new_req_pkt m.fuel m.inner code m.rooms (some text) ≡ some (parsed pkt)
      → (start site m pkt conn ss).request ≡ some req
      → handle_data lists site m code text conn ss
        ≡ serve lists site m req (start site m pkt conn ss).peer (start site m pkt conn ss).sessions
  unfolding handle_data
  handle_started site m code text pkt conn ss req e f = rw (e, handle_data, f) refl

  -- A status was sent, or a request was started, served and ended.
  abbrev pub Ended : Clock → Peer → Sessions → Handled lists → Type 0
  Ended clock conn ss h =
      (Same conn h.peer × Grown (Taken clock conn ss) ss h.sessions × (h.kept ≡ none))
      ⊎ ((req : Request lists) × (grown : Sessions) × (p : Peer) × (after : Sessions) × (b : Bool)
          × Grown (Taken clock conn ss) ss grown
          × Same (record conn { refer = (conn.refer + 1) % 2 ^ 16 }) p
          × (refers after ≡ refers (update_session grown req.session (begin_session clock.uptime)))
          × (h ≡ finish lists b req p after))

  parsed-Ended :
      (site : Site lists) (m : Moment lists) (code : ℕ) (text : Bytes) (pkt : Packet) (conn : Peer)
      (ss : Sessions) (h : Handled lists)
      → new_req_pkt m.fuel m.inner code m.rooms (some text) ≡ some (parsed pkt)
      → handle_data lists site m code text conn ss ≡ some h
      → Ended m.clock conn ss h
  parsed-Ended site m code text pkt conn ss h f e =
      let r = start site m pkt conn ss in
      elim (request_init-Started lists m.init m.clock site.session_timeout site.age pkt 200 conn
        ss) [
          | inl (n, same, g) ↦
              let (s, t, k) =
                refuse_cases site m r.status r.peer r.sessions h
                  (sym (handle_failed site m code text pkt conn ss f n) ∙ e) in
              inl (
                subst (λ c. Same c h.peer) same s,
                subst (Grown (Taken m.clock conn ss) ss) (sym t) g,
                k,
              )
          | inr (req, grown, n, same, t, g) ↦
              let (p, after, b, s, q, done) =
                serve_cases site m req r.peer r.sessions h
                  (sym (handle_started site m code text pkt conn ss req f n) ∙ e) in
              inr (req, grown, p, after, b, g, subst (λ c. Same c p) same s, q ∙ ap refers t, done)
        ]

  pub handle_data-Ended :
      (site : Site lists) (m : Moment lists) (code : ℕ) (text : Bytes) (conn : Peer) (ss : Sessions)
      (h : Handled lists)
      → handle_data lists site m code text conn ss ≡ some h
      → Ended m.clock conn ss h
  handle_data-Ended site m code text conn ss h e =
      elim (parse_cases (new_req_pkt m.fuel m.inner code m.rooms (some text))) [
        | inl n ↦ absurd (none-ne-some h (sym (handle_stop site m code text conn ss n) ∙ e))
        | inr (inl (found, f)) ↦
            let (s, t, k) =
              refuse_cases site m found conn ss h
                (sym (handle_refused site m code found text conn ss f) ∙ e) in
            inl (s, inl t, k)
        | inr (inr (pkt, f)) ↦ parsed-Ended site m code text pkt conn ss h f e
      ]
