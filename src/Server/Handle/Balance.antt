-- ===== src/Server/Handle/Balance.antt =====
-- What `handle_data` of server/server.c leaves of the references to a connection and its session.
use holyhttp.Prelude.{
  ℕ, ◌+◌, ◌-◌, ◌%◌, ◌^◌, ◌<◌, ◌≡◌, refl, ◌⊎◌, inl, inr, List, ◌∷◌, Option, none, some, Bool, true,
  false, Bytes, All, ap, sym, subst, ◌∙◌, arith,
}
use mathlib.Core.Option.{none-ne-some}
use holyhttp.ListHead.{ListHead}
use holyhttp.Dict.Chain.{Kv}
use holyhttp.Connection.Peer.{Peer}
use holyhttp.Request.Session.{Sessions, find_session}
use holyhttp.Request.Life.{Request, gen_session_id, begin_session, end_session, free_request}
use holyhttp.Request.Life.Laws.{
  refers, bump, update_session-refers, up, down, bump_back, Grown, Taken,
}
use holyhttp.Server.Handle.{Site, Moment, Handled, finish, handle_data}
use holyhttp.Server.Handle.Steps.{handle_data-Ended}

-- The sessions with a new one in front, or just them.
abbrev pub Added : List (Bytes × ℕ) → List (Bytes × ℕ) → Type 0
Added before after = (after ≡ before) ⊎ ((id : Bytes) × (after ≡ (id, 0) ∷ before))

Grown-Added :
    {taken : Type 0} (ss grown : Sessions)
    → ¬ taken
    → Grown taken ss grown
    → Added (refers ss) (refers grown)
Grown-Added ss grown n (inl e) = inl (ap refers e)
Grown-Added ss grown n (inr (inr t)) = absurd (n t)
Grown-Added ss grown n (inr (inl (s, z, e))) =
    inr (s.0, ap refers e ∙ ap (λ k. (s.0, k) ∷ refers ss) z)

abbrev Fits : List (Bytes × ℕ) → Type 0
Fits = All (λ (p : Bytes × ℕ). p.1 < 2 ^ 32)

Added-Fits : (before after : List (Bytes × ℕ)) → Added before after → Fits before → Fits after
Added-Fits before after (inl e) h = subst Fits (sym e) h
Added-Fits before after (inr (id, e)) h = subst Fits (sym e) (omega arith, h)

module _ (lists : ListHead Kv) where
  finish_freed :
      (b : Bool) (req : Request lists) (p : Peer) (ss : Sessions)
      → (finish lists b req p ss).kept ≡ none
      → ((finish lists b req p ss).peer.refer ≡ (p.refer + (2 ^ 16 - 1)) % 2 ^ 16)
        × (refers (finish lists b req p ss).sessions ≡ bump down req.session (refers ss))
  unfolding finish free_request end_session
  finish_freed true req p ss k = absurd (none-ne-some req (sym k))
  finish_freed false req p ss k =
      (refl, update_session-refers ss req.session end_session down (λ s. refl))

  -- A request that is handled and not kept leaves as many references to its connection and to every
  -- session as there were, and at most one new session, to which nothing refers: whether it is
  -- malformed, finds no memory or is answered in any way, whatever the application writes to the
  -- connection and to the session. The counts that there were are below their bounds, and no session
  -- has the id that `gen_session_id` makes at the time for the connection, with any user agent.
  pub handle_data-refers :
      (site : Site lists) (m : Moment lists) (code : ℕ) (text : Bytes) (conn : Peer) (ss : Sessions)
      (h : Handled lists)
      → handle_data lists site m code text conn ss ≡ some h
      → ((agent : Option Bytes)
          → find_session ss (gen_session_id m.clock agent conn.port conn.ip) ≡ none)
      → h.kept ≡ none
      → conn.refer < 2 ^ 16
      → All (λ (p : Bytes × ℕ). p.1 < 2 ^ 32) (refers ss)
      → (h.peer.refer ≡ conn.refer) × Added (refers ss) (refers h.sessions)
  unfolding begin_session
  handle_data-refers site m code text conn ss h e fresh k r all =
      let free : ¬ Taken m.clock conn ss = λ t. t.1 (fresh t.0) in
      elim (handle_data-Ended lists site m code text conn ss h e) [
        | inl (s, g, n) ↦ (s.1, Grown-Added ss h.sessions free g)
        | inr (req, grown, p, after, b, g, s, q, done) ↦
            let d = finish_freed b req p after (sym (ap (λ x. x.kept) done) ∙ k) in
            let a = Grown-Added ss grown free g in
            let fits = Added-Fits (refers ss) (refers grown) a all in
            let t : refers h.sessions ≡ refers grown =
              ap (λ x. refers x.sessions) done
              ∙ d.1
              ∙ ap (bump down req.session) (
                  q
                  ∙ update_session-refers grown req.session (begin_session m.clock.uptime) up
                      (λ x. refl))
              ∙ bump_back req.session (refers grown) fits in
            (
              ap (λ x. x.peer.refer) done
                  ∙ d.0
                  ∙ ap (λ n. (n + (2 ^ 16 - 1)) % 2 ^ 16) s.1
                  ∙ omega (arith, r),
              subst (Added (refers ss)) (sym t) a,
            )
      ]

  finish-fd :
      (b : Bool) (req : Request lists) (p : Peer) (ss : Sessions)
      → ((finish lists b req p ss).peer.fd ≡ p.fd)
        × ((finish lists b req p ss).peer.armed ≡ p.armed)
  unfolding finish free_request
  finish-fd true req p ss = (refl, refl)
  finish-fd false req p ss = (refl, refl)

  -- Handling a request leaves the descriptor and the timer of the connection alone.
  pub handle_data-fd :
      (site : Site lists) (m : Moment lists) (code : ℕ) (text : Bytes) (conn : Peer) (ss : Sessions)
      (h : Handled lists)
      → handle_data lists site m code text conn ss ≡ some h
      → (h.peer.fd ≡ conn.fd) × (h.peer.armed ≡ conn.armed)
  handle_data-fd site m code text conn ss h e =
      elim (handle_data-Ended lists site m code text conn ss h e) [
        | inl (s, g, n) ↦ (s.0, s.2)
        | inr (req, grown, p, after, b, g, s, q, done) ↦
            let f = finish-fd b req p after in
            (ap (λ x. x.peer.fd) done ∙ f.0 ∙ s.0, ap (λ x. x.peer.armed) done ∙ f.1 ∙ s.2)
      ]
