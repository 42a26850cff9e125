-- ===== src/Request/Render.antt =====
-- Rendered pages: `send_html_with_args`, `send_srender_by`, `send_srender`, `send_frender_by` and
-- `send_frender` of server/request.c. The texts that `vsnprintf` makes are arguments.
pub mod Page
use holyhttp.Prelude.{
  ℕ, ◌+◌, ◌-◌, ◌*◌, List, [], ◌∷◌, Option, none, some, if◌then◌else◌, ◌==◌, ◌||◌, Bool, true, false,
  Bytes, take,
}
use mathlib.Core.Option
use holyhttp.ListHead.{ListHead}
use holyhttp.Dict.Chain.{Kv}
use holyhttp.Dict.{Dict}
use holyhttp.Dict.Typed.{Allocs}
use holyhttp.Text.Path.{null, joined, undefined, join_path}
use holyhttp.Dataset.{Store, set_batch}
use holyhttp.Dataset.Invariant.{new_root}
use holyhttp.Template.{Compared}
use holyhttp.Template.Named.{dataset_ops}
use holyhttp.Template.Cached.{Templates, cached_srender_by, frender_by}
use holyhttp.Request.{Context}
use holyhttp.Request.Handler.{send_html}

abbrev pub args_buf_len : ℕ
args_buf_len = 10 * 1024

-- What is left of a formatted text in the buffer.
abbrev formatted : Bytes → Bytes
formatted text = take (args_buf_len - 1) text

unfoldable pub send_html_with_args : Bool → Context → Bool → Option Bytes → Option (Bytes × Bool)
unfolding send_html
send_html_with_args alloc ctx opened none = none
send_html_with_args alloc ctx opened (some text) =
    send_html alloc ctx opened (some (formatted text))

-- A character of the separator.
unfoldable pub is_one_of : Bytes → ℕ → Bool
is_one_of [] c = false
is_one_of (d ∷ s) c = c == d || is_one_of s c

-- The arguments that are common to all pages, those of this one, and their separators.
pub record Args : Type 0 where
  pub common : Bytes
  pub common_separator : Bytes
  pub args : Option Bytes
  pub separator : Bytes

-- What a rendering is given: the memory of the response and of the template's entry, the fuel of
-- the parser, and the order of numbers.
pub record Rendering : Type 0 where
  pub alloc : Bool
  pub entry : Allocs
  pub fuel : ℕ
  pub atof : Bytes → Bytes → Compared

-- The address of the data set on the stack.
abbrev pub ds : ℕ
ds = 1

module _ (lists : ListHead Kv) where
  -- `holy_dataset_init` and the two calls of `set_batch`; `none` is a fault.
  unfoldable pub set_args : Args → Option (Store lists)
  set_args a =
      elim (set_batch lists (new_root lists) ds (some a.common) (is_one_of a.common_separator)) [
        | none ↦ none
        | some (ok, s) ↦ elim (set_batch lists s ds a.args (is_one_of a.separator)) [
          | none ↦ none
          | some (ok', s') ↦ some s'
        ]
      ]

  -- Without a text `holy_srender_by` gives the empty one. `none` is a fault, or fuel that ran out.
  -- The data set is cleared when the text is there; nothing reads it any more.
  unfoldable pub send_srender_by :
      Rendering
      → Context
      → Bool
      → Args
      → Option Bytes
      → Templates lists
      → Option (Option (Bytes × Bool) × Templates lists)
  unfolding set_args cached_srender_by send_html
  send_srender_by r ctx opened a none self = elim (set_args a) [
    | none ↦ none
    | some s ↦ some (send_html r.alloc ctx opened (some []), self)
  ]
  send_srender_by r ctx opened a (some text) self = elim (set_args a) [
    | none ↦ none
    | some s ↦
        elim (cached_srender_by lists (Store lists) (dataset_ops lists ds) r.atof r.fuel r.entry
          text s self) [
            | none ↦ none
            | some (res, next) ↦ some (send_html r.alloc ctx opened (some res.1), next)
          ]
  ]

  -- `args` is the formatted text.
  unfoldable pub send_srender :
      Rendering
      → Context
      → Bool
      → Args
      → Option Bytes
      → Bytes
      → Templates lists
      → Option (Option (Bytes × Bool) × Templates lists)
  unfolding send_srender_by
  send_srender r ctx opened a text args self =
      send_srender_by r ctx opened (record a { args = some (formatted args) }) text self

  -- `alloc` and `fa` are the memory of the file and of its entry in the cache. A name that is null
  -- leaves the path as it is, and the model renders nothing.
  unfoldable pub send_frender_by :
      Rendering
      → Context
      → Bool
      → Args
      → Bool
      → Allocs
      → (Bytes → Option Bytes)
      → Bytes
      → Option Bytes
      → Dict lists
      → Templates lists
      → Option (Option (Bytes × Bool) × Dict lists × Templates lists)
  unfolding set_args frender_by send_html join_path
  send_frender_by r ctx opened a alloc fa fetch template_path f files self = elim (set_args a) [
    | none ↦ none
    | some s ↦ elim (join_path true 250 (some template_path) f) [
      | null ↦ none
      | undefined ↦ none
      | joined path ↦
          elim (frender_by lists (Store lists) (dataset_ops lists ds) r.atof r.fuel alloc fa r.entry
            fetch path s files self) [
              | none ↦ none
              | some (res, files', next) ↦
                  some (send_html r.alloc ctx opened (some res.1), files', next)
            ]
    ]
  ]
