-- ===== src/Request/Session.antt =====
-- Sessions: `get_or_new_session` and `check_session_timeout` of server/request.c. The dictionary of
-- sessions is a list of entries, of which the first one of an id counts.
use holyhttp.Prelude.{
  ℕ, zero, suc, ◌+◌, ◌-◌, ◌/◌, ◌≤◌, ◌<◌, map, ◌≡◌, refl, ◌≢◌, List, [], ◌∷◌, Option, none, some,
  if◌then◌else◌, ltb, ◌&&◌, not, Bool, Bool-cases, true, false, Bytes, bytes_eq, All, ◌∙◌, ◌⊎◌, inl,
  inr, arith,
}
use holyhttp.Timer.{interval_of}

-- `session_t`. `data` is what its dictionary holds, `none` once that dictionary has been freed. The
-- times are seconds of the uptime.
pub record Session : Type 0 where
  pub entries : Option (List (Bytes × Bytes))
  pub last_req : ℕ
  pub timeout : ℕ
  pub refer : ℕ

-- What the timer's handler does: it sets itself again, or the session is deleted.
pub data Checked : Type 0 where
  again : ℕ → Session → Checked
  deleted : Checked

-- `now` is not before `last_req`.
unfoldable pub check_session_timeout : ℕ → Session → Checked
check_session_timeout now ss =
    let interval = now - ss.last_req in
    if ltb interval ss.timeout
    then again (ss.timeout - interval) ss
    else if ltb 0 ss.refer
    then again 1 (record ss { entries = some [] })
    else deleted

-- The checks of a session that no request touches any more, each when the timer of the one before
-- fires: the time at which it is deleted. Times are microseconds of the uptime, of which the check
-- reads the whole seconds. `none` is fuel that ran out.
unfoldable pub deleted_at : ℕ → ℕ → Session → Option ℕ
unfolding interval_of
deleted_at zero now ss = none
deleted_at (suc fuel) now ss = elim (check_session_timeout (now / 1000000) ss) [
  | again seconds next ↦ deleted_at fuel (now + interval_of seconds) next
  | deleted ↦ some now
]

check_early :
    (now : ℕ) (ss : Session)
    → now - ss.last_req < ss.timeout
    → check_session_timeout now ss ≡ again (ss.timeout - (now - ss.last_req)) ss
unfolding check_session_timeout
check_early now ss h = let e : ltb (now - ss.last_req) ss.timeout ≡ true = ground arith in rw e refl

check_busy :
    (now : ℕ) (ss : Session)
    → ss.timeout ≤ now - ss.last_req
    → 0 < ss.refer
    → check_session_timeout now ss ≡ again 1 (record ss { entries = some [] })
unfolding check_session_timeout
check_busy now ss h r =
    let e : ltb (now - ss.last_req) ss.timeout ≡ false = ground arith in
    let f : ltb 0 ss.refer ≡ true = ground (arith, r) in rw (e, f) refl

deleted_at-again :
    (fuel now seconds : ℕ) (ss next : Session)
    → check_session_timeout (now / 1000000) ss ≡ again seconds next
    → deleted_at (suc fuel) now ss ≡ deleted_at fuel (now + interval_of seconds) next
unfolding deleted_at
deleted_at-again fuel now seconds ss next e = rw (e, deleted_at) refl

early_cases : (a b : ℕ) → (a < b) ⊎ (b ≤ a)
early_cases a b = elim (Bool-cases (ltb a b)) [
  | inl e ↦ inl (ground arith)
  | inr e ↦ inr (ground arith)
]

-- However often it is checked, a session is not deleted while a request refers to it.
deleted_at_referred : (fuel now : ℕ) (ss : Session) → 0 < ss.refer → deleted_at fuel now ss ≡ none
unfolding deleted_at
deleted_at_referred zero now ss r = refl
deleted_at_referred (suc fuel) now ss r =
    let u = now / 1000000 in
    elim (early_cases (u - ss.last_req) ss.timeout) [
      | inl e ↦
          let wait = ss.timeout - (u - ss.last_req) in
          deleted_at-again fuel now wait ss ss (check_early u ss e)
          ∙ deleted_at_referred fuel (now + interval_of wait) ss r
      | inr e ↦
          deleted_at-again fuel now 1 ss (record ss { entries = some [] }) (check_busy u ss e r)
          ∙ deleted_at_referred fuel (now + interval_of 1) (record ss { entries = some [] }) r
    ]

-- `server->sessions`.
abbrev pub Sessions : Type 0
Sessions = List (Bytes × Session)

unfoldable pub find_session : Sessions → Bytes → Option Session
find_session [] sid = none
find_session (s ∷ ss) sid = if bytes_eq s.0 sid then some s.1 else find_session ss sid

-- Which steps find memory: the look-up of the request's session, the dictionary of a new one, its
-- entry, the look-up behind the store, and the cookie.
pub record Steps : Type 0 where
  pub looked : Bool
  pub dict : Bool
  pub stored : Bool
  pub reread : Bool
  pub cookie : Bool

-- A session without requests; the dictionary of a failed one is freed.
abbrev pub new_session : ℕ → Option (List (Bytes × Bytes)) → Session
new_session timeout data' = record { entries = data'; last_req = 0; timeout = timeout; refer = 0 }

-- `sessions->set_sb`: an entry of the same id is replaced.
unfoldable pub store_session : Bytes → Session → Sessions → Sessions
unfolding find_session
store_session id s ss = elim (find_session ss id) [
  | none ↦ (id, s) ∷ ss
  | some old ↦ map (λ e. if bytes_eq e.0 id then (e.0, s) else e) ss
]

-- From `_new` on. Where a step behind the store fails, the dictionary is freed and the session stays.
unfoldable pub make_session : Steps → ℕ → Bytes → Sessions → Option Bytes × Sessions
unfolding store_session
make_session steps timeout id ss =
    if not (steps.dict && steps.stored)
    then (none, ss)
    else if not (steps.reread && steps.cookie)
    then (none, store_session id (new_session timeout none) ss)
    else (some id, store_session id (new_session timeout (some [])) ss)

-- `sid` is the cookie of the request, `id` what `gen_session_id` makes. The outcome is the id of the
-- session, or `none` for a failure. A look-up without memory finds nothing.
unfoldable pub get_or_new_session :
    Steps → ℕ → Bytes → Option Bytes → Sessions → Option Bytes × Sessions
get_or_new_session steps timeout id none ss = make_session steps timeout id ss
get_or_new_session steps timeout id (some []) ss = make_session steps timeout id ss
get_or_new_session steps timeout id (some (c ∷ s)) ss =
    elim (if steps.looked then find_session ss (c ∷ s) else none) [
      | none ↦ make_session steps timeout id ss
      | some found ↦ (some (c ∷ s), ss)
    ]

pub store_session-fresh :
    (id : Bytes) (s : Session) (ss : Sessions)
    → find_session ss id ≡ none
    → store_session id s ss ≡ (id, s) ∷ ss
unfolding store_session
store_session-fresh id s ss e = rw (e, store_session) refl

-- The dictionary of the session has not been freed.
abbrev pub IsLive : Bytes × Session → Type 0
IsLive s = s.1.entries ≢ none

-- The outcome names a session of the table that is live, where there is an outcome.
abbrev pub IsFound : Option Bytes × Sessions → Type 0
IsFound (none, ss) = Unit
IsFound (some sid, ss) = (s : Session) × (find_session ss sid ≡ some s)

-- No session has lost its dictionary, and the outcome names one of them.
abbrev pub IsGood : Option Bytes × Sessions → Type 0
IsGood r = All IsLive r.1 × IsFound r

-- Nothing is found, and the session of an id has lost its dictionary.
abbrev pub IsLost : Bytes → Option Bytes × Sessions → Type 0
IsLost id r = (r.0 ≡ none) × ((s : Session) × (find_session r.1 id ≡ some s) × (s.entries ≡ none))

-- The outcome is good, or it is lost where the steps behind the store did not both succeed.
abbrev pub GoodOrLost : Steps → Bytes → Option Bytes × Sessions → Type 0
GoodOrLost steps id r = IsGood r ⊎ (((steps.reread && steps.cookie) ≡ false) × IsLost id r)

known :
    (steps : Steps) (timeout : ℕ) (id : Bytes) (c : ℕ) (s : Bytes) (ss : Sessions) (found : Session)
    → (if steps.looked then find_session ss (c ∷ s) else none) ≡ some found
    → get_or_new_session steps timeout id (some (c ∷ s)) ss ≡ (some (c ∷ s), ss)
unfolding get_or_new_session
known steps timeout id c s ss found e = rw (e, get_or_new_session) refl
