-- ===== src/Server/Start.antt =====
-- `holy_server_init` of server/server.c, and `holyhttp_init`, `holyhttp_set_route` and
-- `holyhttp_set_white_route` of holyhttp.c on the one server there is.
use holyhttp.Prelude.{ℕ, Option, none, some, if◌then◌else◌, ◌&&◌, Bool, true, false, Bytes, codes}
use holyhttp.ListHead.{ListHead}
use holyhttp.Dict.Chain.{Kv}
use holyhttp.Dict.{Dict, fresh}
use holyhttp.Dict.Typed.{Allocs}
use holyhttp.Server.{Config, check_n_set_cfg, set_route, set_whiteroute}

-- Which steps of `holy_server_init` succeed: the copies of the paths, `server_listen`, and the four
-- dictionaries.
pub record StartSteps : Type 0 where
  pub paths : Bool
  pub listening : Bool
  pub dicts : Bool

-- The configuration that is all zeroes.
abbrev defcfg : Config
defcfg = record {
  ip = 0;
  port = 0;
  template_path = none;
  static_path = none;
  static_uri_prefix = none;
  static_file_age = 0;
  socket_timeout = 0;
  max_content_len = 0;
  session_timeout = 0;
}

abbrev pub given : Option Config → Config
given none = defcfg
given (some cfg) = cfg

module _ (lists : ListHead Kv) where
  -- `server_t`, as far as it is set up here; `inited` is whether it is 0x9527.
  pub record Main : Type 0 where
    pub inited : Bool
    pub cfg : Option Config
    pub routes : Dict lists
    pub whiteroutes : Dict lists
    pub common_separator : Option Bytes

  abbrev separated : Main → Option Bytes
  separated self = elim self.common_separator [ none ↦ some (codes ",") | some s ↦ some s ]

  -- Where a step fails the paths of the configuration are freed, and it cannot be used.
  unfoldable pub server_init : StartSteps → Option Config → Main → Bool × Main
  unfolding check_n_set_cfg
  server_init steps cfg self =
      let ready = record self { common_separator = separated self } in
      if self.inited then (true, self) else elim (check_n_set_cfg steps.paths (given cfg)) [
        | none ↦ (false, record ready { cfg = none })
        | some c ↦
            if steps.listening && steps.dicts
            then (
              true,
              record {
                inited = true;
                cfg = some c;
                routes = fresh lists;
                whiteroutes = fresh lists;
                common_separator = separated self;
              },
            )
            else (false, record ready { cfg = none })
      ]

  -- `static int inited` of `holyhttp_init` is never set.
  unfoldable pub holyhttp_init : StartSteps → Option Config → Main → Bool × Main
  unfolding server_init
  holyhttp_init steps cfg self = server_init steps cfg self

  -- What a server that is not initialised refuses.
  unfoldable pub holyhttp_set_route : Bool → Allocs → Option Bytes → ℕ → Main → Bool × Main
  unfolding set_route
  holyhttp_set_route dup a uri handler self =
      let r = set_route lists dup a self.routes uri handler in
      if self.inited then (r.0, record self { routes = r.1 }) else (false, self)

  unfoldable pub holyhttp_set_white_route : Bool → Allocs → Option Bytes → ℕ → Main → Bool × Main
  unfolding set_whiteroute
  holyhttp_set_white_route dup a uri handler self =
      let r = set_whiteroute lists dup a self.whiteroutes uri handler in
      if self.inited then (r.0, record self { whiteroutes = r.1 }) else (false, self)
