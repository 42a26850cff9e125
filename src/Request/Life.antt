-- ===== src/Request/Life.antt =====
-- The life of a request: `holy_request_init`, `free_request`, `set_cookie`, `del_cookie`,
-- `get_session`, `set_session`, `gen_session_id` and `clone_request` of server/request.c.
pub mod Laws
pub mod Starts
use holyhttp.Prelude.{
  ℕ, ◌+◌, ◌-◌, ◌%◌, ◌^◌, List, [], ◌∷◌, ◌++◌, Option, none, some, if◌then◌else◌, ◌&&◌, ◌==◌, Bool,
  true, false, Bytes, codes, bytes_eq, map,
}
use mathlib.Core.Option
use holyhttp.ListHead.{ListHead}
use holyhttp.Dict.Chain.{Kv}
use holyhttp.Dict.{Dict, fresh, dict_foreach}
use holyhttp.Dict.Typed.{Allocs, set_str_str}
use holyhttp.Tlv.{c_str}
use holyhttp.Text.Base64.{uint_to_s64}
use holyhttp.Text.Hash.{bkdr_hash}
use holyhttp.Text.Path.{str_append_fmt}
use holyhttp.Packet.Fields.{stored}
use holyhttp.Packet.Parse.{Packet}
use holyhttp.Connection.Peer.{Peer}
use holyhttp.Request.{append_all, bytes_of, show_u32, cookie_text}
use holyhttp.Request.Handler.{get_cookie}
use holyhttp.Request.Session.{Session, Sessions, Steps, find_session, get_or_new_session}

-- The time since 1970 in microseconds, the uptime in seconds, and the process.
pub record Clock : Type 0 where
  pub now_us : ℕ
  pub uptime : ℕ
  pub pid : ℕ

abbrev pub session_id_name : Bytes
session_id_name = codes "HolyHttp-sessionid"

-- The buffers have 500 and 25 bytes.
unfoldable pub gen_session_id : Clock → Option Bytes → ℕ → ℕ → Bytes
unfolding append_all str_append_fmt uint_to_s64 bkdr_hash
gen_session_id clock ua port ip =
    let upi = str_append_fmt 500 [] (bytes_of ua ++ (show_u32 port ++ show_u32 ip)) in
    append_all 25 []
      (uint_to_s64 clock.now_us ∷ uint_to_s64 clock.pid ∷ uint_to_s64 (bkdr_hash (some upi)) ∷ [])

-- The session is in the table of the server, by its id. `cookies` are those to be set.
pub record Request (lists : ListHead Kv) : Type 0 where
  pub pkt : Packet
  pub session : Bytes
  pub cookies : Dict lists
  pub opened : Bool

-- The first session of an id.
unfoldable pub update_session : Sessions → Bytes → (Session → Session) → Sessions
update_session [] sid f = []
update_session (s ∷ ss) sid f =
    let rest = update_session ss sid f in if bytes_eq s.0 sid then (s.0, f s.1) ∷ ss else s ∷ rest

unfoldable pub begin_session : ℕ → Session → Session
begin_session now s = record s { refer = (s.refer + 1) % 2 ^ 32; last_req = now }

unfoldable pub end_session : Session → Session
end_session s = record s { refer = (s.refer + (2 ^ 32 - 1)) % 2 ^ 32 }

-- A session whose dictionary has been freed gives nothing that the model can name.
unfoldable pub get_session : Session → Option Bytes → Option Bytes
get_session ss none = none
get_session ss (some name) = elim ss.entries [ none ↦ none | some entries ↦ stored entries name ]

-- A null value is refused by the dictionary.
unfoldable pub set_session : Bool → Session → Option Bytes → Option Bytes → Bool × Session
set_session alloc ss none value = (false, ss)
set_session alloc ss (some name) none = (false, ss)
set_session alloc ss (some name) (some value) =
    if alloc
    then (true, record ss { entries = Option.map (λ ps. ps ++ (name, value) ∷ []) ss.entries })
    else (false, ss)

-- The cookie of the request names a session of the table.
unfoldable pub known : Option Bytes → Sessions → Bool
known none ss = false
known (some []) ss = false
known (some (c ∷ s)) ss = elim (find_session ss (c ∷ s)) [ none ↦ false | some found ↦ true ]

-- Which steps of `holy_request_init` find memory: the dictionary of the cookies, the look-ups of the
-- session's cookie, of its session and of the user agent, the dictionary of a new session, its entry
-- in the table, the look-up behind that, and its cookie.
pub record InitRooms : Type 0 where
  pub cookies : Bool
  pub asked : Bool
  pub looked : Bool
  pub agent : Bool
  pub dict : Bool
  pub stored : Bool
  pub reread : Bool
  pub cookie : Allocs

module _ (lists : ListHead Kv) where
  -- An age below 0 is none.
  unfoldable pub set_cookie :
      Allocs → Dict lists → Option Bytes → Option Bytes → Option ℕ → Bool × Dict lists
  unfolding cookie_text set_str_str
  set_cookie a cookies none value age = (false, cookies)
  set_cookie a cookies (some name) none age = (false, cookies)
  set_cookie a cookies (some name) (some value) age =
      set_str_str lists a cookies (some name) (some (cookie_text value age))

  unfoldable pub del_cookie : Allocs → Dict lists → Option Bytes → Bool × Dict lists
  unfolding set_cookie
  del_cookie a cookies name = set_cookie a cookies name (some []) (some 0)

  -- What `cookie2str` is called with, as `cookies_to_str` reads it.
  unfoldable pub cookie_pairs : Dict lists → List (Bytes × Bytes)
  cookie_pairs cookies = map (λ kv. (c_str kv.key.v, c_str kv.value.v)) (dict_foreach lists cookies)

  -- The outcome of `holy_request_init`: the request or the status that is left for the caller, and
  -- the state behind it.
  pub record Inited : Type 0 where
    pub request : Option (Request lists)
    pub status : ℕ
    pub peer : Peer
    pub sessions : Sessions

  -- The session was found or made.
  unfoldable pub start_request : ℕ → Packet → Dict lists → ℕ → Bytes → Peer → Sessions → Inited
  start_request now pkt cookies code sid conn ss = record {
    request = some (record { pkt = pkt; session = sid; cookies = cookies; opened = false });
    status = code;
    peer = record conn { refer = (conn.refer + 1) % 2 ^ 16 };
    sessions = update_session ss sid (begin_session now);
  }

  -- A session that is not found or made leaves 507, `INSUFFICIENT_STORAGE`.
  unfoldable pub init_end : ℕ → Packet → Dict lists → ℕ → Peer → Option Bytes × Sessions → Inited
  unfolding start_request
  init_end now pkt cookies code conn (none, ss) = record {
    request = none;
    status = 507;
    peer = conn;
    sessions = ss;
  }
  init_end now pkt cookies code conn (some sid, ss) = start_request now pkt cookies code sid conn ss

  -- `code` is what `*status` holds before. Without a dictionary for the cookies it stays.
  unfoldable pub request_init : InitRooms → Clock → ℕ → ℕ → Packet → ℕ → Peer → Sessions → Inited
  unfolding set_cookie gen_session_id known init_end
  request_init rooms clock timeout age pkt code conn ss =
      let none_set = fresh lists in
      let sid = if rooms.asked then get_cookie pkt.cookies (some session_id_name) else none in
      let agent = if rooms.agent then stored pkt.headers.fields (codes "user-agent") else none in
      let id = gen_session_id clock agent conn.port conn.ip in
      let set = set_cookie rooms.cookie none_set (some session_id_name) (some id) (some age) in
      let steps : Steps = record {
        looked = rooms.looked;
        dict = rooms.dict;
        stored = rooms.stored;
        reread = rooms.reread;
        cookie = set.0;
      } in
      let r = get_or_new_session steps timeout id sid ss in
      let cookies = if rooms.looked && known sid ss then none_set else set.1 in
      if rooms.cookies
      then init_end clock.uptime pkt cookies code conn r
      else record { request = none; status = code; peer = conn; sessions = ss }

  -- The connection, without its receive buffer, and the sessions. The packet and the cookies are
  -- freed.
  unfoldable pub free_request : Request lists → Peer → Sessions → Peer × Sessions
  unfolding update_session end_session
  free_request self conn ss = (
    record conn { refer = (conn.refer + (2 ^ 16 - 1)) % 2 ^ 16; recv_buf = none },
    update_session ss self.session end_session,
  )

  -- The copy shares what the pointers lead to, and no reference is counted for it.
  unfoldable pub clone_request : Bool → Request lists → Option (Request lists)
  clone_request alloc self = if alloc then some self else none
