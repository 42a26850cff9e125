-- ===== src/Request/Render/Page.antt =====
-- A page that `send_srender_by` of server/request.c sends: the arguments become a data set, the
-- template is found or parsed, and its text goes into a response.
use holyhttp.Prelude.{
  ℕ, suc, ◌+◌, ◌<◌, ◌≤◌, ◌^◌, ◌≡◌, ◌≢◌, refl, [], ◌∷◌, ◌++◌, none, some, ◌==◌, Option-cases, inl,
  inr, true, false, Bool, Bytes, codes, IsText, length, take, All, ap, sym, ◌∙◌, arith,
}
use mathlib.Core.Option.{none-ne-some, some_inj}
use holyhttp.ListHead.{ListHead}
use holyhttp.Dict.Chain.{Kv}
use holyhttp.Text.Tokens.{tokens, tokens_from, flush, tokens-last, char_is, IsItem}
use holyhttp.Packet.Query.{split_pair-item}
use holyhttp.Dataset.{Store, empty_subset, set_value, set_pairs, set_batch}
use holyhttp.Dataset.Invariant.{new_root, new_root-IsStore}
use holyhttp.Template.{is_name_char, for_item_name_prefix}
use holyhttp.Template.Pieces.{EndsName}
use holyhttp.Template.Parse.{parse_normal_elem, srender_by}
use holyhttp.Template.Plain.{IsPlain}
use holyhttp.Template.Named.{all_memory, value_at, dataset_ops, set_value-srender_by}
use holyhttp.Template.Cached.{Templates, cached_srender_by}
use holyhttp.Template.Cached.Laws.{
  IsCache, get_template_parsed, cached-some, plain-some, plain-none,
}
use holyhttp.Request.{Context}
use holyhttp.Request.Handler.{send_html}
use holyhttp.Request.Render.{Args, Rendering, is_one_of, ds, set_args, send_srender_by}

module _ (lists : ListHead Kv) where
  -- One argument and no common ones.
  abbrev pub one_arg : Bytes → Bytes → Bytes → Args
  one_arg name value separator = record {
    common = [];
    common_separator = codes ",";
    args = some (name ++ b'=' ∷ value);
    separator = separator;
  }

  nothing_common :
      (s : Store lists) (p : ℕ → Bool) → set_batch lists s ds (some []) p ≡ some (true, s)
  unfolding set_batch set_pairs tokens tokens_from flush
  nothing_common s p = refl

  one_pair :
      (s t : Store lists) (name value : Bytes)
      → All (λ c. (c == b'=') ≡ false) name
      → set_value lists all_memory true s ds (some name) (some value) ≡ some (true, t)
      → set_pairs lists s ds ((name ++ b'=' ∷ value) ∷ []) ≡ some t
  unfolding set_pairs
  one_pair s t name value h e = rw (set_pairs, split_pair-item name value h, e) refl

  one_batch :
      (s t : Store lists) (name value : Bytes) (p : ℕ → Bool)
      → name ≢ []
      → All (λ c. p c ≡ false) (name ++ b'=' ∷ value)
      → All (λ c. (c == b'=') ≡ false) name
      → set_value lists all_memory true s ds (some name) (some value) ≡ some (true, t)
      → set_batch lists s ds (some (name ++ b'=' ∷ value)) p ≡ some (true, t)
  unfolding set_batch
  one_batch s t [] value p n k h e = absurd (n refl)
  one_batch s t (c ∷ name) value p n k h e =
      rw
        (
          tokens-last p ((c ∷ name) ++ b'=' ∷ value) ((λ q. cc), k),
          one_pair s t (c ∷ name) value h e,
          set_batch,
        )
        refl

  set_args-one_arg :
      (t : Store lists) (name value separator : Bytes)
      → name ≢ []
      → All (λ c. is_one_of separator c ≡ false) (name ++ b'=' ∷ value)
      → All (λ c. (c == b'=') ≡ false) name
      → set_value lists all_memory true (new_root lists) ds (some name) (some value)
        ≡ some (true, t)
      → set_args lists (one_arg name value separator) ≡ some t
  unfolding set_args
  set_args-one_arg t name value separator n k h e =
      rw
        (
          set_args,
          nothing_common (new_root lists) (is_one_of (codes ",")),
          one_batch (new_root lists) t name value (is_one_of separator) n k h e,
        )
        refl

  -- A text that is rendered without the cache is rendered with it.
  cached_result :
      (r : Rendering) (text : Bytes) (s s' : Store lists) (out : Bytes) (self : Templates lists)
      → IsCache lists r.fuel self
      → IsText text
      → self.next < 2 ^ 64
      → srender_by (Store lists) (dataset_ops lists ds) r.atof r.fuel text s ≡ some (s', out)
      → (after : Templates lists) × (cached_srender_by lists
            (Store lists)
            (dataset_ops lists ds)
            r.atof
            r.fuel
            r.entry
            text
            s
            self
          ≡ some ((s', out), after))
  cached_result r text s s' out self i h room e =
      elim (Option-cases (parse_normal_elem r.fuel text)) [
        | inl n ↦ absurd (
            none-ne-some (s', out)
              (sym (plain-none lists (Store lists) (dataset_ops lists ds) r.atof r.fuel text s n)
                ∙ e))
        | inr (el, p) ↦
            let (after, q, _, _) =
              get_template_parsed lists r.fuel r.entry text el self i h room p in
            let same = some_inj.0 (
              sym (plain-some lists (Store lists) (dataset_ops lists ds) r.atof r.fuel text s el p)
              ∙ e) in
            (
              after,
              cached-some lists (Store lists) (dataset_ops lists ds) r.atof r.fuel r.entry text s
                    self after el q
                  ∙ ap (λ x. some (x, after)) same,
            )
      ]

  send_some :
      (r : Rendering) (ctx : Context) (opened : Bool) (a : Args) (text : Bytes)
      (self after : Templates lists) (s s' : Store lists) (out : Bytes)
      → set_args lists a ≡ some s
      → cached_srender_by lists
          (Store lists)
          (dataset_ops lists ds)
          r.atof
          r.fuel
          r.entry
          text
          s
          self
        ≡ some ((s', out), after)
      → send_srender_by lists r ctx opened a (some text) self
        ≡ some (send_html r.alloc ctx opened (some out), after)
  unfolding send_srender_by
  send_some r ctx opened a text self after s s' out e f = rw (e, send_srender_by, f) refl

  -- A page with one argument is sent with the value of the argument in place of its name, between the
  -- texts around it, whatever templates were rendered before. The template has no commands and no
  -- other at sign, the name is made of at most 100 characters of names with no further one behind it,
  -- the argument holds no character of the separator and its name no equals sign, there is memory for
  -- the data set, and the template has no NUL.
  pub send_srender_by-one_arg :
      (r : Rendering) (ctx : Context) (opened : Bool) (name value separator first rest : Bytes)
      (t : Store lists) (self : Templates lists) (fuel : ℕ)
      → r.fuel ≡ suc fuel
      → name ≢ []
      → length name ≤ 100
      → IsText name
      → All (λ c. is_name_char c ≡ true) name
      → All (λ c. (c == b'=') ≡ false) name
      → All (λ c. is_one_of separator c ≡ false) (name ++ b'=' ∷ value)
      → EndsName rest
      → All (λ c. char_is b'@' c ≡ false) rest
      → IsItem (char_is b'@') first
      → IsPlain (first ++ b'@' ∷ (name ++ rest))
      → IsText (first ++ b'@' ∷ (name ++ rest))
      → (new_root lists).next + length (tokens (char_is b'.') name) < 2 ^ 64
      → set_value lists all_memory true (new_root lists) ds (some name) (some value)
        ≡ some (true, t)
      → value_at lists ds t (take 100 (for_item_name_prefix ++ name)) ≡ none
      → IsCache lists r.fuel self
      → self.next < 2 ^ 64
      → (after : Templates lists) × (send_srender_by lists r ctx opened
            (one_arg name value separator)
            (some (first ++ b'@' ∷ (name ++ rest)))
            self
          ≡ some (send_html r.alloc ctx opened (some (first ++ (value ++ rest))), after))
  send_srender_by-one_arg r ctx opened name value separator first rest t self fuel depth n short
        word chars equals apart ends plain item ok text space set unset i room =
      let page = first ++ b'@' ∷ (name ++ rest) in
      let renders =
        ap (λ k. srender_by (Store lists) (dataset_ops lists ds) r.atof k page t) depth
        ∙ set_value-srender_by lists all_memory (new_root lists) t ds name value (λ j. (refl, refl))
            (new_root-IsStore lists) (empty_subset lists, refl) (omega arith) word space set first
            rest n short chars ends plain item r.atof fuel unset ok in
      let (after, e) =
        cached_result r page t t (first ++ (value ++ rest)) self i text room renders in
      (
        after,
        send_some r ctx opened (one_arg name value separator) page self after t t
            (first ++ (value ++ rest)) (set_args-one_arg t name value separator n apart equals set)
            e,
      )
