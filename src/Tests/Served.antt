-- ===== src/Tests/Served.antt =====
-- Whole requests through the server, and its connections.
use holyhttp.Prelude.{
  Option, ◌≡◌, refl, [], ◌∷◌, ◌++◌, none, some, true, false, Bytes, codes, ap, ◌∙◌, if◌then◌else◌,
  ◌==◌, arith, bytes_eq, is_prefix,
}
use holyhttp.ListHead.{plain_lists}
use holyhttp.Text.Letters.{str2lower, is_upper}
use holyhttp.Text.Trim.{trim, trim_left, trim_right, trim_right_loop}
use holyhttp.Text.Affix.{str_starts_with}
use holyhttp.Dict.Chain.{Kv}
use holyhttp.Dict.{fresh}
use holyhttp.Dict.Map.{fresh-IsDict}
use holyhttp.Tlv.{tlvptr, tlvint}
use holyhttp.Dict.Access.{str_key}
use holyhttp.Dict.Strings.{get_by_str-dict_get}
use holyhttp.Dict.Numbers.{set_int_ptr-get_int_ptr}
use holyhttp.Dict.Typed.{get_str_ptr, get_int_ptr, set_int_ptr}
use holyhttp.Packet.Line.{http_1_1}
use holyhttp.Packet.Parse.{all_rooms, get_text}
use holyhttp.Request.{append_all}
use holyhttp.Text.Path.{str_append_fmt}
use holyhttp.Text.Base64.{uint_to_s64, s64_loop}
use holyhttp.Connection.Send.{queued}
use holyhttp.Connection.Peer.{Peer, new_conn}
use holyhttp.Request.Session.{Sessions, new_session, find_session}
use holyhttp.Request.Life.{Request, gen_session_id}
use holyhttp.Request.Life.Laws.{refers}
use holyhttp.Request.Life.Starts.{all_allocs, init_rooms}
use holyhttp.Server.{set_route}
use holyhttp.Server.Handle.{Acts, Site, Moment, Handled, handle_data}
use holyhttp.Server.Handle.Balance.{Added, handle_data-refers}
use holyhttp.Server.Handle.Answers.{texts, handle_data-set_route}
use holyhttp.Server.Loop.{Server, running, fault, Accepted, accept_connection, at_fd, hung_up, step}
use holyhttp.Server.Loop.Invariant.{keyed}
use holyhttp.Server.Loop.Safety.{idle_server}
use holyhttp.Server.Loop.Stale.{hung_up-stale}
use holyhttp.Tests.Requests.{
  an_arg, host, host-IsField, sample-IsUrl, sample_text, get_request, get_request_text, is_text,
  all_text, all_text-IsText,
}

-- A handler at address 5 that says hello, for the path `/a`.
abbrev hello : Acts
hello = record {
  writes = record { allocs = true ∷ []; text = codes "hello" } ∷ [];
  entries = none;
  incomplete = false;
}

abbrev site : Site (plain_lists Kv)
site = record {
  routes =
      (set_route (plain_lists Kv) true all_allocs (fresh (plain_lists Kv)) (some (codes "a/")) 5).1;
  whiteroutes = fresh (plain_lists Kv);
  static_path = codes "static";
  prefix = codes "/static/";
  age = 0;
  session_timeout = 60;
  start_time = codes "t";
  gmt = λ n. codes "t";
  prerouting = none;
  handler = λ n req. hello;
  read_file = λ name. none;
  recent = λ date. false;
}

abbrev moment : Moment (plain_lists Kv)
moment = record {
  clock = record { now_us = 7; uptime = 3; pid = 2 };
  now = 1;
  fuel = 1;
  inner = 1;
  rooms = all_rooms;
  init = init_rooms;
  dup = true;
  buffer = true;
  sending = true ∷ [];
}

abbrev conn : Peer
conn = new_conn 4 1 2 0 true

same_route : bytes_eq (trim (codes "a/") b'/') (trim (codes "/a") b'/') ≡ true
unfolding bytes_eq trim trim_left trim_right trim_right_loop
same_route = refl

not_static : str_starts_with (some (codes "/a")) (some (codes "/static/")) ≡ false
unfolding str_starts_with is_prefix
not_static = refl

not_icon : bytes_eq (str2lower (codes "/a")) (codes "/favicon.ico") ≡ false
unfolding bytes_eq str2lower is_upper
not_icon = refl

a_trim : trim (codes "/a") b'/' ≡ codes "a"
unfolding trim trim_left trim_right trim_right_loop
a_trim = refl

no_white :
    get_str_ptr (plain_lists Kv) true (fresh (plain_lists Kv)) (some (trim (codes "/a") b'/')) ≡ 0
unfolding get_str_ptr tlvint all_text
no_white = rw a_trim (
    ap tlvptr (
      get_by_str-dict_get (plain_lists Kv) (fresh (plain_lists Kv)) (codes "a")
        (all_text-IsText (codes "a") refl)
      ∙ (fresh-IsDict (plain_lists Kv)).1 (str_key (codes "a"))))

-- What a request for the path of the handler leaves, for the sessions that there are.
abbrev Answered : Sessions → Type 0
Answered ss =
    (req : Request (plain_lists Kv)) × (h : Handled (plain_lists Kv)) × (handle_data
        (plain_lists Kv) site moment 0 (get_text (codes "/a") an_arg http_1_1 (host ∷ [])) conn ss
      ≡ some h)
    × (req.pkt.uri ≡ codes "/a")
    × (req.pkt.args ≡ an_arg)
    × (queued h.peer.sending.send_buf
        ≡ queued conn.sending.send_buf ++ texts (site.handler 5 req).writes)
    × (h.kept ≡ (if (site.handler 5 req).incomplete then some req else none))

handle_data-set_route_example :
    (req : Request (plain_lists Kv)) × (h : Handled (plain_lists Kv)) × (handle_data
        (plain_lists Kv)
        site
        moment
        0
        (get_text (codes "/a") an_arg http_1_1 (host ∷ []))
        conn
        []
      ≡ some h)
    × (req.pkt.uri ≡ codes "/a")
    × (req.pkt.args ≡ an_arg)
    × (queued h.peer.sending.send_buf
        ≡ queued conn.sending.send_buf ++ texts (site.handler 5 req).writes)
    × (h.kept ≡ (if (site.handler 5 req).incomplete then some req else none))
unfolding all_text
handle_data-set_route_example =
    handle_data-set_route (plain_lists Kv) site moment 0 conn [] (fresh (plain_lists Kv))
      (codes "a/") 5 (codes "/a") an_arg http_1_1 host [] (fresh-IsDict (plain_lists Kv)).0 refl
      (omega arith) (omega arith) (all_text-IsText (codes "a/") refl)
      (all_text-IsText (codes "/a") refl) same_route not_static not_icon no_white refl refl refl
      refl (λ req. (([], refl), tt)) sample-IsUrl (rw sample_text (omega arith)) (refl, (refl, tt))
      ((all_text-IsText (codes "b") refl, all_text-IsText (codes "c") refl), tt) (host-IsField, tt)
      (rw get_request_text (all_text-IsText get_request is_text))

-- One session that two requests refer to.
abbrev sessions : Sessions
sessions = (codes "s", record (new_session 60 (some [])) { refer = 2 }) ∷ []

answered : Answered sessions
unfolding all_text
answered =
    handle_data-set_route (plain_lists Kv) site moment 0 conn sessions (fresh (plain_lists Kv))
      (codes "a/") 5 (codes "/a") an_arg http_1_1 host [] (fresh-IsDict (plain_lists Kv)).0 refl
      (omega arith) (omega arith) (all_text-IsText (codes "a/") refl)
      (all_text-IsText (codes "/a") refl) same_route not_static not_icon no_white refl refl refl
      refl (λ req. (([], refl), tt)) sample-IsUrl (rw sample_text (omega arith)) (refl, (refl, tt))
      ((all_text-IsText (codes "b") refl, all_text-IsText (codes "c") refl), tt) (host-IsField, tt)
      (rw get_request_text (all_text-IsText get_request is_text))

-- The ids that are made now are others than that of the session.
not_made :
    (agent : Option Bytes)
    → find_session sessions (gen_session_id moment.clock agent conn.port conn.ip) ≡ none
unfolding gen_session_id find_session append_all str_append_fmt uint_to_s64 s64_loop bytes_eq
    new_conn
not_made agent = refl

handle_data-refers_example :
    (answered.1.peer.refer ≡ conn.refer) × Added (refers sessions) (refers answered.1.sessions)
unfolding new_conn
handle_data-refers_example =
    handle_data-refers (plain_lists Kv) site moment 0
      (get_text (codes "/a") an_arg http_1_1 (host ∷ [])) conn sessions answered.1 answered.2
      not_made answered.6 (omega arith) (omega arith, tt)

-- A connection on descriptor 4 at the address 16.
abbrev accepted : Accepted
accepted = record {
  fd = 4;
  ip = 1;
  port = 2;
  address = 16;
  entry = all_allocs;
  timer = true;
  now = 0;
}

abbrev one : Server (plain_lists Kv)
one = accept_connection (plain_lists Kv) (some accepted) (idle_server (plain_lists Kv))

-- A connection on descriptor 0.
abbrev zero_conn : Peer
zero_conn = new_conn 0 1 2 0 true

abbrev zero_server : Server (plain_lists Kv)
zero_server = record {
  conns = (set_int_ptr (plain_lists Kv) all_allocs (fresh (plain_lists Kv)) 0 16).1;
  heap = λ a. if a == 16 then some zero_conn else none;
  checks = λ a. a == 16;
  sessions = [];
}

zero_found : get_int_ptr (plain_lists Kv) true zero_server.conns 0 ≡ 16
zero_found =
    (set_int_ptr-get_int_ptr (plain_lists Kv) (fresh (plain_lists Kv))
      (fresh-IsDict (plain_lists Kv)).0 0 all_allocs 16 0 (omega arith) (omega arith)
      (omega arith)).2

hung_up-stale_example :
    (u : Server (plain_lists Kv)) × (step
        (plain_lists Kv)
        site
        60
        1000
        (hung_up 0 true (keyed true))
        zero_server
      ≡ running u)
    × (at_fd (plain_lists Kv) true 0 (λ address c s. running s) u ≡ fault)
unfolding new_conn
hung_up-stale_example =
    hung_up-stale (plain_lists Kv) site 60 1000 zero_server (keyed true) 16 zero_conn
      (λ address c s. running s) zero_found (omega arith) refl refl refl
