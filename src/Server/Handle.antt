-- ===== src/Server/Handle.antt =====
-- `handle_data` of server/server.c: a request from its bytes to the answers. What the application
-- does, its handlers and `prerouting`, is a parameter.
pub mod Steps
pub mod Balance
pub mod Answers
use holyhttp.Prelude.{
  ℕ, List, [], ◌∷◌, ◌++◌, Option, none, some, if◌then◌else◌, ◌==◌, ◌&&◌, ◌||◌, not, Bool, true,
  false, Bytes, codes, bytes_eq,
}
use mathlib.Core.Option
use holyhttp.ListHead.{ListHead}
use holyhttp.Dict.Chain.{Kv}
use holyhttp.Dict.{Dict}
use holyhttp.Dict.Typed.{get_str_ptr}
use holyhttp.Text.Letters.{str2lower}
use holyhttp.Text.Trim.{trim}
use holyhttp.Text.Affix.{str_starts_with}
use holyhttp.Text.Path.{Joined, null, joined, undefined}
use holyhttp.Packet.{Parsed, refused, parsed}
use holyhttp.Packet.Parse.{Packet, Rooms, new_req_pkt}
use holyhttp.Connection.Status.{status_packet}
use holyhttp.Connection.Peer.{Peer, write}
use holyhttp.Request.{Context, response, redirect_forever}
use holyhttp.Request.Handler.{Reply, status_reply, response_reply, send_file}
use holyhttp.Request.Session.{Session, Sessions}
use holyhttp.Request.Life.{
  Clock, Request, InitRooms, cookie_pairs, request_init, free_request, update_session, Inited,
}
use holyhttp.Server.{Answer, redirected, status, file, ignored, called, handle_uri}

-- One call of `conn->write`, with the results of `malloc` in it.
pub record Writing : Type 0 where
  pub allocs : List Bool
  pub text : Bytes

-- What code that holds a request does with it: the texts that it writes, what its session holds
-- afterwards, and whether it marks the request as incomplete.
pub record Acts : Type 0 where
  pub writes : List Writing
  pub entries : Option (List (Bytes × Bytes))
  pub incomplete : Bool

-- The calls of `write` in order.
unfoldable pub write_all : Bytes → List Writing → Peer → Option Peer
write_all date [] conn = some conn
write_all date (w ∷ ws) conn = elim (write w.allocs date (some w.text) conn) [
  | none ↦ none
  | some next ↦ write_all date ws next
]

unfoldable pub put_entries : Option (List (Bytes × Bytes)) → Session → Session
put_entries none s = s
put_entries (some entries) s = record s { entries = some entries }

-- `holy_join_path` fails only for a null path.
abbrev path_of : Joined → Option Bytes
path_of null = none
path_of (joined s) = some s
path_of undefined = none

module _ (lists : ListHead Kv) where
  -- What the server is set up with, and the functions of the application. `file` is
  -- `holy_get_file`, and `recent` tells whether the time of a text is not before the start.
  pub record Site : Type 0 where
    pub routes : Dict lists
    pub whiteroutes : Dict lists
    pub static_path : Bytes
    pub prefix : Bytes
    pub age : ℕ
    pub session_timeout : ℕ
    pub start_time : Bytes
    pub gmt : ℕ → Bytes
    pub prerouting : Option (Request lists → Bool × Acts)
    pub handler : ℕ → Request lists → Acts
    pub read_file : Bytes → Option Bytes
    pub recent : Bytes → Bool

  -- The clock and the allocations of one request: those of `holy_new_req_pkt` and
  -- `holy_request_init`, that of a path, the buffer of a response, and the write of the server.
  pub record Moment : Type 0 where
    pub clock : Clock
    pub now : ℕ
    pub fuel : ℕ
    pub inner : ℕ
    pub rooms : Rooms
    pub init : InitRooms
    pub dup : Bool
    pub buffer : Bool
    pub sending : List Bool

  abbrev date_of : Site → Moment → Bytes
  date_of site m = site.gmt m.now

  unfoldable pub context_of : Site → Moment → Request lists → Context
  unfolding cookie_pairs
  context_of site m req = record {
    method = req.pkt.line.method;
    cookies = cookie_pairs lists req.cookies;
    start_time = site.start_time;
    now = m.now;
    gmt = site.gmt;
  }

  abbrev quiet : List Writing → Acts
  quiet ws = record { writes = ws; entries = none; incomplete = false }

  -- The write of a response, where there is one.
  unfoldable pub answer_text : Moment → Option (Bytes × Bool) → Acts
  answer_text m none = quiet []
  answer_text m (some (text, opened)) = quiet (record { allocs = m.sending; text = text } ∷ [])

  unfoldable pub answer_status : Site → Moment → ℕ → Acts
  unfolding status_packet
  answer_status site m code =
      quiet (record { allocs = m.sending; text = status_packet (date_of site m) code } ∷ [])

  unfoldable pub answer_reply : Site → Moment → Request lists → Option Reply → Acts
  unfolding answer_text answer_status context_of response
  answer_reply site m req none = quiet []
  answer_reply site m req (some (status_reply code)) = answer_status site m code
  answer_reply site m req (some (response_reply r)) =
      answer_text m (response m.buffer (context_of site m req) req.opened false r)

  -- What is done for an answer.
  unfoldable pub perform : Site → Moment → Request lists → Answer → Acts
  unfolding answer_text answer_status answer_reply context_of redirect_forever send_file
  perform site m req (redirected path) =
      answer_text m (redirect_forever m.buffer (context_of site m req) req.opened (path_of path))
  perform site m req (status code) = answer_status site m code
  perform site m req (file path) =
      answer_reply site m req
        (send_file site.recent site.read_file site.age req.pkt.headers.fields (path_of path))
  perform site m req ignored = quiet []
  perform site m req (called h) = site.handler h req

  -- Whether `handle_dynamic` gets as far as to ask `prerouting`.
  unfoldable pub is_asked : Site → Moment → Bytes → Bool
  is_asked site m uri =
      not (str_starts_with (some uri) (some site.prefix))
      && (not (bytes_eq (str2lower uri) (codes "/favicon.ico"))
          && (m.dup && (get_str_ptr lists true site.whiteroutes (some (trim uri b'/')) == 0)))

  -- The verdict of `prerouting`, and what it does.
  unfoldable pub ask :
      Option (Request lists → Bool × Acts) → Bool → Request lists → Option Bool × Acts
  ask none asked req = (none, quiet [])
  ask (some check) asked req = (some (check req).0, if asked then (check req).1 else quiet [])

  -- All that is done with a request between its start and its end.
  unfoldable pub acts_of : Site → Moment → Request lists → Acts × Acts
  unfolding perform is_asked ask
  acts_of site m req =
      let asked = ask site.prerouting (is_asked site m req.pkt.uri) req in
      (
        asked.1,
        perform site m req (
            handle_uri lists m.dup site.static_path site.prefix asked.0 site.whiteroutes site.routes
              req.pkt.uri),
      )

  -- The connection and the sessions, and the request where it is kept.
  pub record Handled : Type 0 where
    pub peer : Peer
    pub sessions : Sessions
    pub kept : Option (Request lists)

  -- The end of `handle_data`: the request is freed, unless it is marked as incomplete.
  unfoldable pub finish : Bool → Request lists → Peer → Sessions → Handled
  unfolding free_request
  finish true req conn ss = record { peer = conn; sessions = ss; kept = some req }
  finish false req conn ss =
      let freed = free_request lists req conn ss in
      record { peer = freed.0; sessions = freed.1; kept = none }

  -- A request that could be started.
  unfoldable pub serve : Site → Moment → Request lists → Peer → Sessions → Option Handled
  unfolding acts_of write_all update_session put_entries finish
  serve site m req conn ss =
      let acts = acts_of site m req in
      let ss1 = update_session ss req.session (put_entries acts.0.entries) in
      let ss2 = update_session ss1 req.session (put_entries acts.1.entries) in
      elim (write_all (date_of site m) (acts.0.writes ++ acts.1.writes) conn) [
        | none ↦ none
        | some next ↦ some (finish (acts.0.incomplete || acts.1.incomplete) req next ss2)
      ]

  -- The status of a request that could not be started.
  unfoldable pub refuse : Site → Moment → ℕ → Peer → Sessions → Option Handled
  unfolding write status_packet
  refuse site m code conn ss =
      Option.map (λ next. record { peer = next; sessions = ss; kept = none })
        (write m.sending (date_of site m) (some (status_packet (date_of site m) code)) conn)

  -- `none` stands for fuel that ran out in the packet, or for a write that does not return. `code` is what the variable `status` holds at first.
  unfoldable pub handle_data : Site → Moment → ℕ → Bytes → Peer → Sessions → Option Handled
  unfolding refuse serve request_init
  handle_data site m code text conn ss =
      elim (new_req_pkt m.fuel m.inner code m.rooms (some text)) [
        | none ↦ none
        | some (refused found) ↦ refuse site m found conn ss
        | some (parsed pkt) ↦
            let r =
              request_init lists m.init m.clock site.session_timeout site.age pkt 200 conn ss in
            elim r.request [
              | none ↦ refuse site m r.status r.peer r.sessions
              | some req ↦ serve site m req r.peer r.sessions
            ]
      ]
