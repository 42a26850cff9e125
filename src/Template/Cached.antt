-- ===== src/Template/Cached.antt =====
-- The cache of templates: `get_template`, `holy_srender_by` and `holy_frender_by` of
-- server/template.c. The cache is the dictionary behind `holy_dict_init`, from texts to the addresses
-- of parsed templates.
pub mod Laws
use holyhttp.Prelude.{
  ℕ, zero, suc, ◌+◌, ◌^◌, ◌<◌, ◌≤◌, ◌≡◌, ◌≢◌, refl, ◌⊎◌, inl, inr, List, [], ◌∷◌, Option, none,
  some, if◌then◌else◌, ◌==◌, ◌&&◌, Bool, Bool-cases, Option-cases, true, false, Bytes, bytes_eq,
  eq_of_bytes_eq, IsText, All, length, ap, sym, subst, ◌∙◌, arith,
}
use mathlib.Core.Option.{none-ne-some, some_inj}
use holyhttp.ListHead.{ListHead}
use holyhttp.Tlv.{c_str, tlvptr, tlvint}
use holyhttp.Dict.Chain.{Kv}
use holyhttp.Dict.{Dict, fresh}
use holyhttp.Dict.Invariant.{IsDict}
use holyhttp.Dict.Access.{all_ok, str_key}
use holyhttp.Dict.Map.{fresh-IsDict}
use holyhttp.Dict.Typed.{Allocs, set_str_ptr, get_str_ptr}
use holyhttp.Dict.Strings.{set_str_ptr-get_str_ptr, get_by_str-dict_get}
use holyhttp.Cache.{get_file}
use holyhttp.Template.{Compared, DataOps, Elem, render_elem}
use holyhttp.Template.Parse.{parse_normal_elem, srender_by}

-- A template at one more address.
abbrev pub added : (ℕ → Option Elem) → ℕ → Elem → ℕ → Option Elem
added elem_at next e p = if p == next then some e else elem_at p

module _ (lists : ListHead Kv) where
  -- `next` is the address that the next template is given.
  pub record Templates : Type 0 where
    pub cache : Dict lists
    pub elem_at : ℕ → Option Elem
    pub next : ℕ

  -- A template is kept, whether or not it could be stored.
  unfoldable pub keep : Allocs → Bytes → Elem → Templates → Templates
  unfolding set_str_ptr
  keep a text e self = record {
    cache = (set_str_ptr lists a self.cache (some text) self.next).1;
    elem_at = added self.elem_at self.next e;
    next = self.next + 1;
  }

  -- `none` stands for fuel that ran out in the parser, or for an address without a template.
  unfoldable pub get_template : ℕ → Allocs → Bytes → Templates → Option (Elem × Templates)
  unfolding keep parse_normal_elem get_str_ptr
  get_template fuel a text self =
      let p = get_str_ptr lists true self.cache (some text) in
      if p == 0
      then elim (parse_normal_elem fuel text) [
        | none ↦ none
        | some e ↦ some (e, keep a text e self)
      ]
      else elim (self.elem_at p) [ none ↦ none | some e ↦ some (e, self) ]

  -- The text that comes of a template, and the data set behind it.
  abbrev pub result_of :
      (S : Type 0) → DataOps S → (Bytes → Bytes → Compared) → S → Elem → S × Bytes
  result_of S ops atof s e =
      let r = render_elem S ops atof e s in (r.0, elim r.1 [ none ↦ [] | some result ↦ result ])

  -- `holy_srender_by`. The sides of conditions, which the code renders by the same function, are not
  -- put into this cache.
  unfoldable pub cached_srender_by :
      (S : Type 0)
      → DataOps S
      → (Bytes → Bytes → Compared)
      → ℕ
      → Allocs
      → Bytes
      → S
      → Templates
      → Option ((S × Bytes) × Templates)
  unfolding get_template
  cached_srender_by S ops atof fuel a text s self = elim (get_template fuel a text self) [
    | none ↦ none
    | some (e, next) ↦ some (result_of S ops atof s e, next)
  ]

  -- `holy_frender_by`, over the cache of files; the content is read up to its first NUL.
  unfoldable pub frender_by :
      (S : Type 0)
      → DataOps S
      → (Bytes → Bytes → Compared)
      → ℕ
      → Bool
      → Allocs
      → Allocs
      → (Bytes → Option Bytes)
      → Bytes
      → S
      → Dict lists
      → Templates
      → Option ((S × Bytes) × Dict lists × Templates)
  unfolding cached_srender_by get_file
  frender_by S ops atof fuel alloc fa a fetch filename s files self =
      let f = get_file lists alloc fa fetch files filename in
      elim f.0 [
        | none ↦ some ((s, []), f.1, self)
        | some content ↦ elim (cached_srender_by S ops atof fuel a (c_str content) s self) [
          | none ↦ none
          | some (r, next) ↦ some (r, f.1, next)
        ]
      ]
