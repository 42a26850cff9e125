-- ===== src/Request/Life/Laws.antt =====
-- The counts of references that `holy_request_init` and `free_request` of server/request.c move.
use holyhttp.Prelude.{
  ℕ, ◌+◌, ◌-◌, ◌%◌, ◌^◌, ◌<◌, ◌≡◌, refl, ◌⊎◌, inl, inr, List, [], ◌∷◌, Option, none, some,
  if◌then◌else◌, codes, ◌≢◌, sym, ◌∙◌, ◌&&◌, Bool-cases, Option-cases, false, Bytes, bytes_eq, All,
  map, ap, arith,
}
use mathlib.Core.Option.{none-ne-some}
use holyhttp.ListHead.{ListHead}
use holyhttp.Dict.Chain.{Kv}
use holyhttp.Dict.{Dict}
use holyhttp.Packet.Fields.{stored}
use holyhttp.Packet.Parse.{Packet}
use holyhttp.Request.Handler.{get_cookie}
use holyhttp.Connection.Peer.{Peer}
use holyhttp.Request.Session.{
  Session, Sessions, Steps, new_session, find_session, make_session, get_or_new_session,
  store_session, store_session-fresh,
}
use holyhttp.Request.Life.{
  Clock, InitRooms, Request, Inited, update_session, begin_session, start_request, init_end,
  request_init, gen_session_id, session_id_name,
}

-- The references of each session.
abbrev pub refers : Sessions → List (Bytes × ℕ)
refers = map (λ s. (s.0, s.1.refer))

pub bump : (ℕ → ℕ) → Bytes → List (Bytes × ℕ) → List (Bytes × ℕ)
bump g sid [] = []
bump g sid (p ∷ ps) = if bytes_eq p.0 sid then (p.0, g p.1) ∷ ps else p ∷ bump g sid ps

pub update_session-refers :
    (ss : Sessions) (sid : Bytes) (f : Session → Session) (g : ℕ → ℕ)
    → ((s : Session) → (f s).refer ≡ g s.refer)
    → refers (update_session ss sid f) ≡ bump g sid (refers ss)
unfolding update_session bump
update_session-refers [] sid f g h = refl
update_session-refers (s ∷ ss) sid f g h = elim (Bool-cases (bytes_eq s.0 sid)) [
  | inl e ↦ rw (e, h s.1) refl
  | inr e ↦ rw e (ap (◌∷◌ (s.0, s.1.refer)) (update_session-refers ss sid f g h))
]

pub bump_same : (sid : Bytes) (ps : List (Bytes × ℕ)) → bump (λ n. n) sid ps ≡ ps
unfolding bump
bump_same sid [] = refl
bump_same sid (p ∷ ps) = elim (Bool-cases (bytes_eq p.0 sid)) [
  | inl e ↦ rw e refl
  | inr e ↦ rw e (ap (◌∷◌ p) (bump_same sid ps))
]

abbrev pub up : ℕ → ℕ
up n = (n + 1) % 2 ^ 32

abbrev pub down : ℕ → ℕ
down n = (n + (2 ^ 32 - 1)) % 2 ^ 32

pub bump_back :
    (sid : Bytes) (ps : List (Bytes × ℕ))
    → All (λ (p : Bytes × ℕ). p.1 < 2 ^ 32) ps
    → bump down sid (bump up sid ps) ≡ ps
unfolding bump
bump_back sid [] h = refl
bump_back sid (p ∷ ps) (h, hs) = elim (Bool-cases (bytes_eq p.0 sid)) [
  | inl e ↦ let q : down (up p.1) ≡ p.1 = omega (arith, h) in rw (e, e) (ap (λ n. (p.0, n) ∷ ps) q)
  | inr e ↦ rw (e, e) (ap (◌∷◌ p) (bump_back sid ps hs))
]

-- The table, or the table with a session in front that nothing refers to, unless the id of the new
-- session is taken.
abbrev pub Grown : Type 0 → Sessions → Sessions → Type 0
Grown taken ss grown =
    (grown ≡ ss) ⊎ (((s : Bytes × Session) × (s.1.refer ≡ 0) × (grown ≡ s ∷ ss)) ⊎ taken)

-- A session has an id that `gen_session_id` makes for the connection at that time.
abbrev pub Taken : Clock → Peer → Sessions → Type 0
Taken clock conn ss =
    (agent : Option Bytes) × (find_session ss (gen_session_id clock agent conn.port conn.ip) ≢ none)

store_session-Grown :
    (id : Bytes) (s : Session) (ss : Sessions)
    → s.refer ≡ 0
    → Grown (find_session ss id ≢ none) ss (store_session id s ss)
store_session-Grown id s ss r = elim (Option-cases (find_session ss id)) [
  | inl e ↦ inr (inl ((id, s), r, store_session-fresh id s ss e))
  | inr (old, e) ↦ inr (inr (λ q. none-ne-some old (sym q ∙ e)))
]

make_session-Grown :
    (steps : Steps) (timeout : ℕ) (id : Bytes) (ss : Sessions)
    → Grown (find_session ss id ≢ none) ss (make_session steps timeout id ss).1
unfolding make_session
make_session-Grown steps timeout id ss = elim (Bool-cases (steps.dict && steps.stored)) [
  | inl e ↦ elim (Bool-cases (steps.reread && steps.cookie)) [
    | inl c ↦ rw (e, c) (store_session-Grown id (new_session timeout (some [])) ss refl)
    | inr c ↦ rw (e, c) (store_session-Grown id (new_session timeout none) ss refl)
  ]
  | inr e ↦ rw e (inl refl)
]

get_or_new_session-Grown :
    (steps : Steps) (timeout : ℕ) (id : Bytes) (sid : Option Bytes) (ss : Sessions)
    → Grown (find_session ss id ≢ none) ss (get_or_new_session steps timeout id sid ss).1
unfolding get_or_new_session
get_or_new_session-Grown steps timeout id none ss = make_session-Grown steps timeout id ss
get_or_new_session-Grown steps timeout id (some []) ss = make_session-Grown steps timeout id ss
get_or_new_session-Grown steps timeout id (some (c ∷ s)) ss =
    elim (Option-cases (if steps.looked then find_session ss (c ∷ s) else none)) [
      | inl e ↦ rw (e, get_or_new_session) (make_session-Grown steps timeout id ss)
      | inr (found, e) ↦ rw (e, get_or_new_session) (inl refl)
    ]

Grown-Taken :
    (clock : Clock) (conn : Peer) (ss grown : Sessions) (agent : Option Bytes)
    → Grown (find_session ss (gen_session_id clock agent conn.port conn.ip) ≢ none) ss grown
    → Grown (Taken clock conn ss) ss grown
Grown-Taken clock conn ss grown agent (inl e) = inl e
Grown-Taken clock conn ss grown agent (inr (inl g)) = inr (inl g)
Grown-Taken clock conn ss grown agent (inr (inr t)) = inr (inr (agent, t))

module _ (lists : ListHead Kv) where
  -- How a start ends: without a request, the connection unchanged; or with one, to which the
  -- connection and the session in the table refer.
  abbrev pub Started : Clock → Peer → Sessions → Inited lists → Type 0
  Started clock conn ss r =
      ((r.request ≡ none) × (r.peer ≡ conn) × Grown (Taken clock conn ss) ss r.sessions)
      ⊎ ((req : Request lists) × (grown : Sessions) × (r.request ≡ some req)
          × (r.peer ≡ record conn { refer = (conn.refer + 1) % 2 ^ 16 })
          × (r.sessions ≡ update_session grown req.session (begin_session clock.uptime))
          × Grown (Taken clock conn ss) ss grown)

  init_end-Started :
      (clock : Clock) (pkt : Packet) (cookies : Dict lists) (code : ℕ) (conn : Peer) (ss : Sessions)
      (r : Option Bytes × Sessions)
      → Grown (Taken clock conn ss) ss r.1
      → Started clock conn ss (init_end lists clock.uptime pkt cookies code conn r)
  unfolding init_end start_request
  init_end-Started clock pkt cookies code conn ss (none, grown) g = inl (refl, refl, g)
  init_end-Started clock pkt cookies code conn ss (some sid, grown) g = inr (
    record { pkt = pkt; session = sid; cookies = cookies; opened = false },
    grown,
    refl,
    refl,
    refl,
    g,
  )

  pub request_init-Started :
      (rooms : InitRooms) (clock : Clock) (timeout age : ℕ) (pkt : Packet) (code : ℕ) (conn : Peer)
      (ss : Sessions)
      → Started clock conn ss (request_init lists rooms clock timeout age pkt code conn ss)
  unfolding request_init
  request_init-Started rooms clock timeout age pkt code conn ss = elim (Bool-cases rooms.cookies) [
    | inl e ↦ rw e (
        init_end-Started clock pkt _ code conn ss _ (
          Grown-Taken clock conn ss _
            (if rooms.agent then stored pkt.headers.fields (codes "user-agent") else none)
            (get_or_new_session-Grown _ timeout _
              (if rooms.asked then get_cookie pkt.cookies (some session_id_name) else none) ss)))
    | inr e ↦ rw e (inl (refl, refl, inl refl))
  ]
