-- ===== src/Template/Args.antt =====
-- The arguments of a rendering as one formatted text: `args2ds`, `holy_vsrender` and `holy_vfrender`
-- of server/template.c. What `vsnprintf` makes of the format is a parameter.
use holyhttp.Prelude.{
  ℕ, ◌<◌, ◌≤◌, ◌≡◌, ◌≢◌, refl, List, [], ◌∷◌, ◌++◌, Option, none, some, if◌then◌else◌, ◌==◌, not,
  Bool, true, false, Bytes, All, All-append, length, take, take_all, ap, sym, ◌∙◌, arith,
  append_assoc, append-nil,
}
use holyhttp.ListHead.{ListHead}
use holyhttp.Dict.Chain.{Kv}
use holyhttp.Dict.Typed.{Allocs}
use holyhttp.Text.Letters.{replace_char}
use holyhttp.Text.Tokens.{tokens, char_is, IsItem, tokens-item, tokens-last}
use holyhttp.Packet.Scan.{scan_set, literal, scan_set-stop, scan_set-end}
use holyhttp.Packet.Fields.{scan_all}
use holyhttp.Dataset.{Store, set_value}
use holyhttp.Dataset.Invariant.{new_root}
use holyhttp.Template.{Compared}
use holyhttp.Template.Named.{all_memory, dataset_ops}
use holyhttp.Template.Cached.{Templates, cached_srender_by}

-- `sscanf (pair, "%49[^=]=%99[^=]", key, val)` with both conversions.
unfoldable pub scan_arg : Bytes → Option (Bytes × Bytes)
scan_arg pair = elim (scan_set 49 (λ c. not (c == b'=')) pair) [
  | none ↦ none
  | some (key, rest) ↦ elim (literal (b'=' ∷ []) rest) [
    | none ↦ none
    | some s ↦ elim (scan_set 99 (λ c. not (c == b'=')) s) [
      | none ↦ none
      | some (val, rest') ↦ some (key, val)
    ]
  ]
]

-- The buffer `values` has 1024 bytes.
unfoldable pub args_of : (Bytes → Bytes) → Bytes → List (Bytes × Bytes)
args_of format fmt =
    scan_all scan_arg (tokens (char_is 1) (take 1023 (format (replace_char fmt b',' 1))))

module _ (lists : ListHead Kv) where
  -- Memory suffices; `none` is a fault.
  unfoldable pub set_each : List (Bytes × Bytes) → Store lists → Option (Store lists)
  set_each [] s = some s
  set_each (p ∷ ps) s = elim (set_value lists all_memory true s 1 (some p.0) (some p.1)) [
    | none ↦ none
    | some (ok, s') ↦ set_each ps s'
  ]

  -- The copy of the format is allocated: without it the data set is not initialised, and using it is
  -- a fault.
  unfoldable pub args2ds : Bool → (Bytes → Bytes) → Bytes → Option (Store lists)
  unfolding set_each args_of
  args2ds dup format fmt =
      let s = set_each (args_of format fmt) (new_root lists) in if dup then s else none

  -- The text, where there is one, and the templates. `none` is a fault, or fuel that ran out.
  unfoldable pub vsrender :
      (Bytes → Bytes → Compared)
      → ℕ
      → Bool
      → Allocs
      → (Bytes → Bytes)
      → Option Bytes
      → Option Bytes
      → Templates lists
      → Option (Bytes × Templates lists)
  unfolding args2ds cached_srender_by
  vsrender atof fuel dup a format none fmt self = some ([], self)
  vsrender atof fuel dup a format (some text) none self = some ([], self)
  vsrender atof fuel dup a format (some text) (some fmt) self = elim (args2ds dup format fmt) [
    | none ↦ none
    | some ds ↦
        elim (cached_srender_by lists (Store lists) (dataset_ops lists 1) atof fuel a text ds
          self) [ none ↦ none | some (r, next) ↦ some (r.1, next) ]
  ]

-- What a caller writes: names and values with commas between the pairs.
abbrev arg_text : Bytes × Bytes → Bytes
arg_text p = p.0 ++ b'=' ∷ p.1

unfoldable pub args_text : ℕ → List (Bytes × Bytes) → Bytes
args_text c [] = []
args_text c (p ∷ []) = arg_text p
args_text c (p ∷ q ∷ ps) = arg_text p ++ c ∷ args_text c (q ∷ ps)

-- No equals sign, no comma and no byte 1.
abbrev pub IsArgChar : ℕ → Type 0
IsArgChar c = ((c == b'=') ≡ false) × ((c == b',') ≡ false) × ((c == 1) ≡ false)

-- A name and a value that fit their buffers.
pub record IsArg (p : Bytes × Bytes) : Type 0 where
  pub some_name : p.0 ≢ []
  pub short_name : length p.0 ≤ 49
  pub name : All IsArgChar p.0
  pub some_value : p.1 ≢ []
  pub short_value : length p.1 ≤ 99
  pub value : All IsArgChar p.1

not_equals : (s : Bytes) → All IsArgChar s → All (λ c. not (c == b'=') ≡ true) s
not_equals [] h = tt
not_equals (c ∷ s) h = (ap not h.0.0, not_equals s h.1)

not_one : (s : Bytes) → All IsArgChar s → All (λ c. char_is 1 c ≡ false) s
not_one [] h = tt
not_one (c ∷ s) h = (h.0.2, not_one s h.1)

scan_arg-text : (p : Bytes × Bytes) → IsArg p → scan_arg (arg_text p) ≡ some p
unfolding scan_arg literal
scan_arg-text p h =
    rw
      (
        scan_arg,
        scan_set-stop 49 (λ c. not (c == b'=')) p.0 b'=' p.1 h.some_name h.short_name
            (not_equals p.0 h.name) refl,
        scan_set-end 99 (λ c. not (c == b'=')) p.1 h.some_value h.short_value
            (not_equals p.1 h.value),
      )
      refl

not_nil : (a b : Bytes) → a ++ b'=' ∷ b ≢ []
not_nil [] b e = cc
not_nil (c ∷ a) b e = cc

arg-IsItem : (p : Bytes × Bytes) → IsArg p → IsItem (char_is 1) (arg_text p)
arg-IsItem p h = (
  not_nil p.0 p.1,
  All-append (λ c. char_is 1 c ≡ false) p.0 (b'=' ∷ p.1) (not_one p.0 h.name)
      (refl, not_one p.1 h.value),
)

-- Commas become the byte 1, and nothing else does.
replaced :
    (s t : Bytes) → All IsArgChar s → replace_char (s ++ t) b',' 1 ≡ s ++ replace_char t b',' 1
unfolding replace_char
replaced [] t h = refl
replaced (c ∷ s) t h = rw h.0.1 (ap (◌∷◌ c) (replaced s t h.1))

comma_replaced :
    (p : Bytes × Bytes) (t : Bytes)
    → IsArg p
    → replace_char (arg_text p ++ t) b',' 1 ≡ arg_text p ++ replace_char t b',' 1
unfolding replace_char
comma_replaced p t h =
    ap (λ s. replace_char s b',' 1) (append_assoc p.0 (b'=' ∷ p.1) t)
    ∙ replaced p.0 (b'=' ∷ (p.1 ++ t)) h.name
    ∙ ap (λ s. p.0 ++ b'=' ∷ s) (replaced p.1 t h.value)
    ∙ sym (append_assoc p.0 (b'=' ∷ p.1) (replace_char t b',' 1))

commas_replaced :
    (ps : List (Bytes × Bytes))
    → All IsArg ps
    → replace_char (args_text b',' ps) b',' 1 ≡ args_text 1 ps
unfolding replace_char args_text
commas_replaced [] h = refl
commas_replaced (p ∷ []) (h, hs) =
    ap (λ s. replace_char s b',' 1) (sym (append-nil (arg_text p)))
    ∙ comma_replaced p [] h
    ∙ append-nil (arg_text p)
commas_replaced (p ∷ q ∷ ps) (h, hs) =
    comma_replaced p (b',' ∷ args_text b',' (q ∷ ps)) h
    ∙ ap (λ s. arg_text p ++ 1 ∷ s) (commas_replaced (q ∷ ps) hs)

scan_next :
    (p : Bytes × Bytes) (items : List Bytes)
    → IsArg p
    → scan_all scan_arg (arg_text p ∷ items) ≡ p ∷ scan_all scan_arg items
unfolding scan_all
scan_next p items h = rw (scan_all, scan_arg-text p h) refl

args_scanned :
    (ps : List (Bytes × Bytes))
    → All IsArg ps
    → scan_all scan_arg (tokens (char_is 1) (args_text 1 ps)) ≡ ps
unfolding args_text scan_all tokens
args_scanned [] h = refl
args_scanned (p ∷ []) (h, hs) =
    ap (scan_all scan_arg) (tokens-last (char_is 1) (arg_text p) (arg-IsItem p h))
    ∙ scan_next p [] h
args_scanned (p ∷ q ∷ ps) (h, hs) =
    ap (scan_all scan_arg)
      (tokens-item (char_is 1) (arg_text p) 1 (args_text 1 (q ∷ ps)) (arg-IsItem p h) refl)
    ∙ scan_next p (tokens (char_is 1) (args_text 1 (q ∷ ps))) h
    ∙ ap (◌∷◌ p) (args_scanned (q ∷ ps) hs)

-- Arguments that are written as `name=value` with commas between them are read back in order, when
-- there is nothing to format in them: names of 1 to 49 and values of 1 to 99 characters, without
-- equals signs, commas and bytes 1, and less than 1024 characters in all.
pub args_of-args_text :
    (format : Bytes → Bytes) (ps : List (Bytes × Bytes))
    → All IsArg ps
    → format (args_text 1 ps) ≡ args_text 1 ps
    → length (args_text 1 ps) < 1024
    → args_of format (args_text b',' ps) ≡ ps
unfolding args_of
args_of-args_text format ps h f l =
    ap (λ s. scan_all scan_arg (tokens (char_is 1) (take 1023 (format s)))) (commas_replaced ps h)
    ∙ ap (λ s. scan_all scan_arg (tokens (char_is 1) (take 1023 s))) f
    ∙ ap (λ s. scan_all scan_arg (tokens (char_is 1) s))
        (take_all 1023 (args_text 1 ps) (omega (arith, l)))
    ∙ args_scanned ps h
