-- ===== src/Template/Cached/Laws.antt =====
-- The cache of templates of server/template.c does not change what is rendered.
use holyhttp.Prelude.{
  ℕ, ◌+◌, ◌^◌, ◌<◌, ◌≤◌, ◌≡◌, refl, ◌⊎◌, inl, inr, List, [], ◌∷◌, Option, none, some, if◌then◌else◌,
  ◌==◌, ◌&&◌, Bool, Bool-cases, Option-cases, true, false, Bytes, bytes_eq, eq_of_bytes_eq, IsText,
  All, length, ap, sym, subst, ◌∙◌, arith,
}
use mathlib.Core.Option.{none-ne-some, some_inj}
use holyhttp.ListHead.{ListHead}
use holyhttp.Tlv.{tlvptr, tlvint}
use holyhttp.Dict.Chain.{Kv}
use holyhttp.Dict.{fresh}
use holyhttp.Dict.Invariant.{IsDict}
use holyhttp.Dict.Access.{all_ok, str_key}
use holyhttp.Dict.Map.{fresh-IsDict}
use holyhttp.Dict.Typed.{Allocs, get_str_ptr}
use holyhttp.Dict.Strings.{set_str_ptr-get_str_ptr, get_by_str-dict_get}
use holyhttp.Template.{Compared, DataOps, Elem}
use holyhttp.Template.Parse.{parse_normal_elem, srender_by}
use holyhttp.Template.Cached.{Templates, added, keep, get_template, result_of, cached_srender_by}

module _ (lists : ListHead Kv) where
  -- Every entry of the cache leads to what its text is parsed to.
  pub record IsCache (fuel : ℕ) (self : Templates lists) : Type 0 where
    pub dict : IsDict lists self.cache
    pub filled : 0 < self.next
    pub entries :
        (text : Bytes)
        → IsText text
        → (get_str_ptr lists true self.cache (some text) ≡ 0)
          ⊎ ((e : Elem) × (self.elem_at (get_str_ptr lists true self.cache (some text)) ≡ some e)
              × (parse_normal_elem fuel text ≡ some e)
              × (get_str_ptr lists true self.cache (some text) < self.next))

  -- What an address leads to, for a text.
  abbrev LeadsTo : ℕ → Bytes → (ℕ → Option Elem) → ℕ → ℕ → Type 0
  LeadsTo fuel text elem_at next p =
      (p ≡ 0)
      ⊎ ((e : Elem) × (elem_at p ≡ some e) × (parse_normal_elem fuel text ≡ some e) × (p < next))

  older :
      (fuel : ℕ) (text : Bytes) (elem_at : ℕ → Option Elem) (next p : ℕ) (new : Elem)
      → LeadsTo fuel text elem_at next p
      → LeadsTo fuel text (added elem_at next new) (next + 1) p
  older fuel text elem_at next p new (inl z) = inl z
  older fuel text elem_at next p new (inr (e, f, g, h)) =
      let n : (p == next) ≡ false = ground (arith, h) in inr (e, rw n f, g, omega (arith, h))

  keep-LeadsTo :
      (fuel : ℕ) (text v : Bytes) (elem_at : ℕ → Option Elem) (next p : ℕ) (new : Elem) (ok : Bool)
      → parse_normal_elem fuel text ≡ some new
      → LeadsTo fuel v elem_at next p
      → LeadsTo fuel v
          (added elem_at next new)
          (next + 1)
          (if ok && bytes_eq text v then next else p)
  keep-LeadsTo fuel text v elem_at next p new false parses l = older fuel v elem_at next p new l
  keep-LeadsTo fuel text v elem_at next p new true parses l = elim (Bool-cases (bytes_eq text v)) [
    | inl e ↦
        let n : (next == next) ≡ true = ground arith in
        rw (e, n)
          (inr (
            new,
            refl,
            ap (parse_normal_elem fuel) (sym (eq_of_bytes_eq text v e)) ∙ parses,
            omega arith,
          ))
    | inr e ↦ rw e (older fuel v elem_at next p new l)
  ]

  keep-IsCache :
      (fuel : ℕ) (a : Allocs) (text : Bytes) (new : Elem) (self : Templates lists)
      → IsCache fuel self
      → IsText text
      → self.next < 2 ^ 64
      → parse_normal_elem fuel text ≡ some new
      → IsCache fuel (keep lists a text new self)
  unfolding keep
  keep-IsCache fuel a text new self i h room parses =
      let stored = λ (v : Bytes) (k : IsText v).
        set_str_ptr-get_str_ptr lists self.cache text i.dict h a self.next v room k in
      record {
        dict = (stored text h).1;
        filled = omega arith;
        entries = λ v k.
            subst (LeadsTo fuel v (added self.elem_at self.next new) (self.next + 1))
              (sym (stored v k).2)
              (keep-LeadsTo fuel text v self.elem_at self.next
                (get_str_ptr lists true self.cache (some v)) new (all_ok a) parses (i.entries v k));
      }

  -- A look-up gives what the text is parsed to.
  pub get_template_parsed :
      (fuel : ℕ) (a : Allocs) (text : Bytes) (e : Elem) (self : Templates lists)
      → IsCache fuel self
      → IsText text
      → self.next < 2 ^ 64
      → parse_normal_elem fuel text ≡ some e
      → (after : Templates lists) × (get_template lists fuel a text self ≡ some (e, after))
        × IsCache fuel after
        × (after.next ≤ self.next + 1)
  unfolding get_template
  get_template_parsed fuel a text e self i h room parses =
      let p = get_str_ptr lists true self.cache (some text) in
      elim (Bool-cases (p == 0)) [
        | inl z ↦ (
          keep lists a text e self,
          rw (get_template, z, parses) refl,
          keep-IsCache fuel a text e self i h room parses,
          omega arith,
        )
        | inr n ↦ elim (i.entries text h) [
          | inl z ↦ absurd (ground (arith, z, n))
          | inr (found, f, g, k) ↦
              let same : found ≡ e = some_inj.0 (sym g ∙ parses) in
              (self, rw (get_template, n, f) (ap (λ x. some (x, self)) same), i, omega arith)
        ]
      ]

  get_template_unparsed :
      (fuel : ℕ) (a : Allocs) (text : Bytes) (self : Templates lists)
      → IsCache fuel self
      → IsText text
      → parse_normal_elem fuel text ≡ none
      → get_template lists fuel a text self ≡ none
  unfolding get_template
  get_template_unparsed fuel a text self i h parses =
      let p = get_str_ptr lists true self.cache (some text) in
      elim (Bool-cases (p == 0)) [
        | inl z ↦ rw (get_template, z, parses) refl
        | inr n ↦ elim (i.entries text h) [
          | inl z ↦ absurd (ground (arith, z, n))
          | inr (found, f, g, k) ↦ absurd (none-ne-some found (sym parses ∙ g))
        ]
      ]

  module _ (S : Type 0) (ops : DataOps S) (atof : Bytes → Bytes → Compared) (fuel : ℕ) where
    -- Templates that are rendered one after the other, each with the memory for its entry and its
    -- data set.
    pub render_all : List (Allocs × Bytes × S) → Templates lists → Option (List (S × Bytes))
    render_all [] self = some []
    render_all ((a, text, s) ∷ rs) self =
        elim (cached_srender_by lists S ops atof fuel a text s self) [
          | none ↦ none
          | some (r, next) ↦ elim (render_all rs next) [ none ↦ none | some all ↦ some (r ∷ all) ]
        ]

    -- The same without a cache.
    pub parse_all : List (Allocs × Bytes × S) → Option (List (S × Bytes))
    parse_all [] = some []
    parse_all ((a, text, s) ∷ rs) = elim (srender_by S ops atof fuel text s) [
      | none ↦ none
      | some r ↦ elim (parse_all rs) [ none ↦ none | some all ↦ some (r ∷ all) ]
    ]

    pub cached-some :
        (a : Allocs) (text : Bytes) (s : S) (self after : Templates lists) (e : Elem)
        → get_template lists fuel a text self ≡ some (e, after)
        → cached_srender_by lists S ops atof fuel a text s self
          ≡ some (result_of lists S ops atof s e, after)
    unfolding cached_srender_by
    cached-some a text s self after e q = rw (q, cached_srender_by) refl

    cached-none :
        (a : Allocs) (text : Bytes) (s : S) (self : Templates lists)
        → get_template lists fuel a text self ≡ none
        → cached_srender_by lists S ops atof fuel a text s self ≡ none
    unfolding cached_srender_by
    cached-none a text s self q = rw (q, cached_srender_by) refl

    pub plain-some :
        (text : Bytes) (s : S) (e : Elem)
        → parse_normal_elem fuel text ≡ some e
        → srender_by S ops atof fuel text s ≡ some (result_of lists S ops atof s e)
    unfolding srender_by
    plain-some text s e q = rw (q, srender_by) refl

    pub plain-none :
        (text : Bytes) (s : S)
        → parse_normal_elem fuel text ≡ none
        → srender_by S ops atof fuel text s ≡ none
    unfolding srender_by
    plain-none text s q = rw (q, srender_by) refl

    render_all_next :
        (a : Allocs) (text : Bytes) (s : S) (rs : List (Allocs × Bytes × S))
        (self after : Templates lists) (r : S × Bytes)
        → cached_srender_by lists S ops atof fuel a text s self ≡ some (r, after)
        → srender_by S ops atof fuel text s ≡ some r
        → render_all rs after ≡ parse_all rs
        → render_all ((a, text, s) ∷ rs) self ≡ parse_all ((a, text, s) ∷ rs)
    unfolding render_all parse_all
    render_all_next a text s rs self after r e f g = rw (render_all, parse_all, e, f, g) refl

    -- Templates that are rendered one after the other through the cache come out as if each were
    -- parsed anew, whichever of them are rendered before and whatever memory there is for the entries
    -- of the cache. The texts have no NUL, and there are addresses for the templates.
    pub render_all-parse_all :
        (rs : List (Allocs × Bytes × S)) (self : Templates lists)
        → IsCache fuel self
        → All (λ (r : Allocs × Bytes × S). IsText r.1) rs
        → self.next + length rs < 2 ^ 64
        → render_all rs self ≡ parse_all rs
    unfolding render_all parse_all
    render_all-parse_all [] self i h room = refl
    render_all-parse_all ((a, text, s) ∷ rs) self i (h, hs) room =
        elim (Option-cases (parse_normal_elem fuel text)) [
          | inl n ↦
              rw
                (
                  render_all,
                  parse_all,
                  cached-none a text s self (get_template_unparsed fuel a text self i h n),
                  plain-none text s n,
                )
                refl
          | inr (e, p) ↦
              let (after, q, v, bound) =
                get_template_parsed fuel a text e self i h (omega arith) p in
              render_all_next a text s rs self after (result_of lists S ops atof s e)
                (cached-some a text s self after e q) (plain-some text s e p)
                (render_all-parse_all rs after v hs (omega (arith, bound, room)))
        ]

  -- An empty cache.
  abbrev pub no_templates : Templates lists
  no_templates = record { cache = fresh lists; elem_at = λ p. none; next = 1 }

  no_entry : (text : Bytes) → IsText text → get_str_ptr lists true (fresh lists) (some text) ≡ 0
  unfolding get_str_ptr tlvint
  no_entry text h =
      ap tlvptr
        (get_by_str-dict_get lists (fresh lists) text h ∙ (fresh-IsDict lists).1 (str_key text))

  pub no_templates-IsCache : (fuel : ℕ) → IsCache fuel no_templates
  no_templates-IsCache fuel = record {
    dict = (fresh-IsDict lists).0;
    filled = omega arith;
    entries = λ text h. inl (no_entry text h);
  }
