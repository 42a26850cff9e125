-- ===== src/Server/Settings.antt =====
-- The defaults of a configuration: `check_n_set_cfg` of server/server.c.
use holyhttp.Prelude.{ℕ, ◌<◌, ◌≡◌, ◌≢◌, refl, ap, Option, none, some, true, Bytes, arith, subst}
use holyhttp.Server.{Config, or_default, or_text, with_defaults, check_n_set_cfg}

unset : (n d : ℕ) → 0 < d → 0 < or_default d n
unfolding or_default
unset n d h = ground arith

kept_number : (n d : ℕ) → 0 < n → or_default d n ≡ n
unfolding or_default
kept_number n d h = ground arith

-- A configuration whose numbers are set and whose paths are not null.
pub record IsComplete (cfg : Config) : Type 0 where
  pub port : 0 < cfg.port
  pub age : 0 < cfg.static_file_age
  pub socket : 0 < cfg.socket_timeout
  pub content : 0 < cfg.max_content_len
  pub session : 0 < cfg.session_timeout
  pub template : cfg.template_path ≢ none
  pub static : cfg.static_path ≢ none
  pub prefix : cfg.static_uri_prefix ≢ none

given_text : (d : Bytes) (s : Option Bytes) → or_text d s ≢ none
unfolding or_text
given_text d none e = cc
given_text d (some s) e = cc

kept_text : (d : Bytes) (s : Option Bytes) → s ≢ none → or_text d s ≡ s
unfolding or_text
kept_text d none h = absurd (h refl)
kept_text d (some s) h = refl

with_defaults-IsComplete : (cfg : Config) → IsComplete (with_defaults cfg)
unfolding with_defaults
with_defaults-IsComplete cfg = record {
  port = unset cfg.port 80 (omega arith);
  age = unset cfg.static_file_age 604800 (omega arith);
  socket = unset cfg.socket_timeout 60 (omega arith);
  content = unset cfg.max_content_len 10485760 (omega arith);
  session = unset cfg.session_timeout 3600 (omega arith);
  template = given_text _ cfg.template_path;
  static = given_text _ cfg.static_path;
  prefix = given_text _ cfg.static_uri_prefix;
}

with_defaults_set : (cfg : Config) → IsComplete cfg → with_defaults cfg ≡ cfg
unfolding with_defaults
with_defaults_set cfg h =
    rw
      (
        kept_number cfg.port 80 h.port,
        kept_number cfg.static_file_age 604800 h.age,
        kept_number cfg.socket_timeout 60 h.socket,
        kept_number cfg.max_content_len 10485760 h.content,
        kept_number cfg.session_timeout 3600 h.session,
        kept_text _ cfg.template_path h.template,
        kept_text _ cfg.static_path h.static,
        kept_text _ cfg.static_uri_prefix h.prefix,
      )
      refl

-- A configuration that is accepted has every number and every path set, and checking it again
-- changes nothing.
pub check_n_set_cfg-IsComplete :
    (cfg c : Config)
    → check_n_set_cfg true cfg ≡ some c
    → IsComplete c × (check_n_set_cfg true c ≡ some c)
unfolding check_n_set_cfg
check_n_set_cfg-IsComplete cfg c e =
    let q : with_defaults cfg ≡ c = cc in
    let s = subst IsComplete q (with_defaults-IsComplete cfg) in
    (s, ap some (with_defaults_set c s))
