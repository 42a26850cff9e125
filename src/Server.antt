-- ===== src/Server.antt =====
-- server/server.c: the configuration, the routes, and which handler answers a request. The sockets
-- and the event loop's system calls are not modelled.
pub mod Routes
pub mod Settings
pub mod Handle
pub mod Loop
pub mod Start
use holyhttp.Prelude.{
  ℕ, ◌+◌, ◌*◌, ◌≡◌, ◌≢◌, refl, List, [], ◌∷◌, Option, none, some, if◌then◌else◌, ◌==◌, ◌&&◌, ◌||◌,
  not, Bool, true, false, Bytes, codes, bytes_eq, drop, length, inl, inr, Bool-cases, arith,
}
use holyhttp.ListHead.{ListHead}
use holyhttp.Dict.Chain.{Kv}
use holyhttp.Dict.{Dict}
use holyhttp.Dict.Typed.{Allocs, set_str_ptr, get_str_ptr}
use holyhttp.Text.Letters.{str2lower}
use holyhttp.Text.Trim.{trim}
use holyhttp.Text.Affix.{str_starts_with}
use holyhttp.Text.Path.{Joined, null, join_path, get_real_path}

-- `holycfg_t`, with null pointers as `none`.
pub record Config : Type 0 where
  pub ip : ℕ
  pub port : ℕ
  pub template_path : Option Bytes
  pub static_path : Option Bytes
  pub static_uri_prefix : Option Bytes
  pub static_file_age : ℕ
  pub socket_timeout : ℕ
  pub max_content_len : ℕ
  pub session_timeout : ℕ

unfoldable pub or_default : ℕ → ℕ → ℕ
or_default d n = if n == 0 then d else n

unfoldable pub or_text : Bytes → Option Bytes → Option Bytes
or_text d none = some d
or_text d (some s) = some s

unfoldable pub with_defaults : Config → Config
with_defaults cfg = record {
  ip = cfg.ip;
  port = or_default 80 cfg.port;
  template_path = or_text (codes "template") cfg.template_path;
  static_path = or_text (codes "static") cfg.static_path;
  static_uri_prefix = or_text (codes "/static/") cfg.static_uri_prefix;
  static_file_age = or_default 604800 cfg.static_file_age;
  socket_timeout = or_default 60 cfg.socket_timeout;
  max_content_len = or_default 10485760 cfg.max_content_len;
  session_timeout = or_default 3600 cfg.session_timeout;
}

-- `alloc` says that the three calls of `strdup` succeed; `none` is the failure.
unfoldable pub check_n_set_cfg : Bool → Config → Option Config
check_n_set_cfg alloc cfg = if alloc then some (with_defaults cfg) else none

-- What comes of a request: a redirection to a path, a status, a file, nothing where `prerouting`
-- refuses it, or a call of the handler that stands at an address.
pub data Answer : Type 0 where
  redirected : Joined → Answer
  status : ℕ → Answer
  file : Joined → Answer
  ignored : Answer
  called : ℕ → Answer

abbrev pub max_path_len : ℕ
max_path_len = 250

-- `if (relative_path[0] == '/') ++relative_path;`
unfoldable pub skip_slash : Bytes → Bytes
skip_slash [] = []
skip_slash (c ∷ s) = if c == b'/' then s else c ∷ s

-- `handle_static`, with `send_file` on the path. Where `holy_get_real_path` fails, `real` is not
-- set, and the model has no path.
unfoldable pub handle_static : Bool → Bytes → Bytes → Bytes → Answer
unfolding skip_slash
handle_static alloc static_path prefix uri =
    elim (get_real_path alloc (some (skip_slash (drop (length prefix) uri))) true max_path_len) [
      | none ↦ file null
      | some real ↦ file (join_path true max_path_len (some static_path) (some real))
    ]

-- What `prerouting` says, where there is one.
abbrev pub passes : Option Bool → Bool
passes none = true
passes (some ok) = ok

-- A null handler is no handler; 404 and 507 are `NOT_FOUND` and `INSUFFICIENT_STORAGE`.
unfoldable pub call_handler : ℕ → Answer
call_handler handler = if handler == 0 then status 404 else called handler

module _ (lists : ListHead Kv) where
  -- `dup` says whether `strdup` succeeds.
  unfoldable pub set_route : Bool → Allocs → Dict lists → Option Bytes → ℕ → Bool × Dict lists
  set_route dup a routes none handler = (false, routes)
  set_route dup a routes (some uri) handler =
      if handler == 0 || not dup
      then (false, routes)
      else set_str_ptr lists a routes (some (trim uri b'/')) handler

  unfoldable pub set_whiteroute : Bool → Allocs → Dict lists → Option Bytes → ℕ → Bool × Dict lists
  set_whiteroute dup a whiteroutes none handler = (false, whiteroutes)
  set_whiteroute dup a whiteroutes (some uri) handler =
      if handler == 0 || not dup
      then (false, whiteroutes)
      else set_str_ptr lists a whiteroutes (some (trim uri b'/')) handler

  -- The routes are looked up only where no white route matches and `prerouting` agrees. The keys
  -- that the two look-ups make are allocated.
  unfoldable pub handle_dynamic :
      Bool → Bytes → Option Bool → Dict lists → Dict lists → Bytes → Answer
  unfolding call_handler
  handle_dynamic dup prefix prerouting whiteroutes routes uri =
      let white = get_str_ptr lists true whiteroutes (some (trim uri b'/')) in
      if bytes_eq (str2lower uri) (codes "/favicon.ico")
      then redirected (join_path true max_path_len (some prefix) (some (codes "favicon.ico")))
      else if not dup
      then status 507
      else if not (white == 0)
      then called white
      else if not (passes prerouting)
      then ignored
      else call_handler (get_str_ptr lists true routes (some (trim uri b'/')))

  -- The choice in `handle_data`.
  unfoldable pub handle_uri :
      Bool → Bytes → Bytes → Option Bool → Dict lists → Dict lists → Bytes → Answer
  unfolding handle_static handle_dynamic
  handle_uri dup static_path prefix prerouting whiteroutes routes uri =
      if str_starts_with (some uri) (some prefix)
      then handle_static dup static_path prefix uri
      else handle_dynamic dup prefix prerouting whiteroutes routes uri
