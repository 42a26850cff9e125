-- ===== src/Tests/Pages.antt =====
-- Pages that are rendered: the cache of templates, and a page with an argument.
use holyhttp.Prelude.{
  IsText, ◌≡◌, refl, List, [], ◌∷◌, ◌++◌, some, true, false, Bytes, codes, arith,
}
use holyhttp.ListHead.{plain_lists}
use holyhttp.Dict.Chain.{Kv}
use holyhttp.Dict.Typed.{Allocs}
use holyhttp.Dataset.{Store}
use holyhttp.Template.Named.{dataset_ops}
use holyhttp.Template.Args.{IsArg, args_of, args_text, args_of-args_text}
use holyhttp.Template.Cached.{Templates}
use holyhttp.Template.Cached.Laws.{
  render_all, parse_all, render_all-parse_all, no_templates, no_templates-IsCache,
}
use holyhttp.Request.Handler.{send_html}
use holyhttp.Request.Life.Starts.{all_allocs}
use holyhttp.Request.Render.{Rendering, is_one_of, send_srender_by}
use holyhttp.Request.Render.Page.{one_arg, send_srender_by-one_arg}
use holyhttp.Tests.Requests.{ctx, all_text, all_text-IsText}
use holyhttp.Tests.Templates.{root, with_a, set_a, one_item, no_loop, a_chars, mark_ends, all_same}

-- One template twice, with and without a value.
abbrev twice : List (Allocs × Bytes × Store (plain_lists Kv))
twice = (all_allocs, codes "b @a!", with_a) ∷ (all_allocs, codes "b @a!", root) ∷ []

text-IsText : IsText (codes "b @a!")
unfolding all_text
text-IsText = all_text-IsText (codes "b @a!") refl

render_all-parse_all_example :
    render_all
      (plain_lists Kv)
      (Store (plain_lists Kv))
      (dataset_ops (plain_lists Kv) 1)
      all_same
      1
      twice
      (no_templates (plain_lists Kv))
    ≡ parse_all
        (plain_lists Kv)
        (Store (plain_lists Kv))
        (dataset_ops (plain_lists Kv) 1)
        all_same
        1
        twice
render_all-parse_all_example =
    render_all-parse_all (plain_lists Kv) (Store (plain_lists Kv)) (dataset_ops (plain_lists Kv) 1)
      all_same 1 twice (no_templates (plain_lists Kv)) (no_templates-IsCache (plain_lists Kv) 1)
      (text-IsText, (text-IsText, tt)) (omega arith)

abbrev rendering : Rendering
rendering = record { alloc = true; entry = all_allocs; fuel = 1; atof = all_same }

send_srender_by-one_arg_example :
    (after : Templates (plain_lists Kv)) × (send_srender_by
        (plain_lists Kv)
        rendering
        ctx
        false
        (one_arg (plain_lists Kv) (codes "a") (codes "x") (codes ","))
        (some (codes "b " ++ b'@' ∷ (codes "a" ++ codes "!")))
        (no_templates (plain_lists Kv))
      ≡ some (send_html true ctx false (some (codes "b " ++ (codes "x" ++ codes "!"))), after))
unfolding is_one_of
send_srender_by-one_arg_example =
    send_srender_by-one_arg (plain_lists Kv) rendering ctx false (codes "a") (codes "x") (codes ",")
      (codes "b ") (codes "!") with_a (no_templates (plain_lists Kv)) 0 refl (λ e. cc) (omega arith)
      ((omega arith, omega arith), tt) (a_chars, tt) (refl, tt) (refl, (refl, (refl, tt))) mark_ends
      (refl, tt) ((λ e. cc), (refl, (refl, tt))) (refl, (refl, (refl, (refl, (refl, tt)))))
      text-IsText (omega (arith, one_item)) set_a no_loop (no_templates-IsCache (plain_lists Kv) 1)
      (omega arith)

-- `a=x,b=y`.
abbrev two_args : List (Bytes × Bytes)
two_args = (codes "a", codes "x") ∷ (codes "b", codes "y") ∷ []

a-IsArg : IsArg (codes "a", codes "x")
a-IsArg = record {
  some_name = λ e. cc;
  short_name = omega arith;
  name = ((refl, refl, refl), tt);
  some_value = λ e. cc;
  short_value = omega arith;
  value = ((refl, refl, refl), tt);
}

b-IsArg : IsArg (codes "b", codes "y")
b-IsArg = record {
  some_name = λ e. cc;
  short_name = omega arith;
  name = ((refl, refl, refl), tt);
  some_value = λ e. cc;
  short_value = omega arith;
  value = ((refl, refl, refl), tt);
}

args_of-args_text_example : args_of (λ s. s) (args_text b',' two_args) ≡ two_args
unfolding args_text
args_of-args_text_example =
    args_of-args_text (λ s. s) two_args (a-IsArg, (b-IsArg, tt)) refl (omega arith)
