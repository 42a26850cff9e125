-- ===== src/Template/Plain.antt =====
-- Texts without commands, which `parse_normal_elem` of server/template.c keeps as they are.
use holyhttp.Prelude.{
  ℕ, zero, suc, ◌≤◌, ◌<◌, ◌≡◌, refl, List, [], ◌∷◌, ◌++◌, Option, none, some, ◌==◌, ◌||◌, false,
  Bytes, codes, length, All, ◌∙◌, subst, arith, Bool-cases, Option-cases, inl, inr,
}
use holyhttp.Packet.Scan.{literal}
use holyhttp.Text.Tokens.{char_is, IsItem}
use holyhttp.Template.{Compared, DataOps, Elem, text_elem, no_more, render_elem}
use holyhttp.Template.Pieces.{Piece, IsPiece, pieces_text, filled, render_text-filled}
use holyhttp.Template.Parse.{
  blanks_of, parse_indent, scan_if, scan_for, if_head, for_head, parse_if_elem, parse_for_elem,
  parse_elem, to_line_end, next_line, finish, parse_loop, parse_normal_elem, srender_by,
}

-- No character begins a command.
abbrev pub IsPlain : Bytes → Type 0
IsPlain s = All (λ c. (b'#' == c) ≡ false) s

blanks_of-IsPlain : (s : Bytes) → IsPlain s → IsPlain (blanks_of s).0
unfolding blanks_of
blanks_of-IsPlain [] h = tt
blanks_of-IsPlain (c ∷ s) h = elim (Bool-cases (c == b' ' || c == 9)) [
  | inl e ↦ rw e (blanks_of-IsPlain s h.1)
  | inr e ↦ rw e h
]

parse_indent-IsPlain : (s : Bytes) → IsPlain s → IsPlain (parse_indent s).0
unfolding parse_indent
parse_indent-IsPlain [] h = tt
parse_indent-IsPlain (c ∷ s) h = elim (Bool-cases (c == 10)) [
  | inl e ↦ rw e (blanks_of-IsPlain s h.1)
  | inr e ↦ rw e (blanks_of-IsPlain (c ∷ s) h)
]

no_command : (p s : Bytes) → IsPlain s → literal (b'#' ∷ p) s ≡ none
unfolding literal
no_command p [] h = refl
no_command p (c ∷ s) h = rw (h.0) refl

no_if : (s : Bytes) → IsPlain s → if_head s ≡ none
unfolding if_head scan_if
no_if s h = rw (no_command (codes "if") s h) refl

no_for : (indent s : Bytes) → IsPlain s → for_head indent s ≡ none
unfolding for_head scan_for
no_for indent s h = rw (no_command (codes "for") s h) refl

no_elem_here :
    (parse : Bytes → Option Elem) (s : Bytes) → IsPlain s → parse_elem parse s ≡ some none
unfolding parse_elem parse_if_elem parse_for_elem
no_elem_here parse s h =
    let t = parse_indent s in
    rw
      (
        no_if t.0 (parse_indent-IsPlain s h),
        no_for t.1 t.0 (parse_indent-IsPlain s h),
        parse_elem,
        parse_for_elem,
      )
      refl

-- What is behind the next line end is plain too, and no longer than the text.
abbrev IsShorter : Bytes → Option (Bytes × Bytes) → Type 0
IsShorter s none = Unit {0}
IsShorter s (some (front, back)) = IsPlain back × (length back ≤ length s)

add_front :
    (c : ℕ) (s : Bytes) (o : Option (Bytes × Bytes))
    → IsShorter s o
    → IsShorter (c ∷ s) (elim o [ none ↦ none | some (front, back) ↦ some (c ∷ front, back) ])
add_front c s none h = tt
add_front c s (some (front, back)) h = (h.0, omega (arith, h.1))

to_line_end-IsShorter : (s : Bytes) → IsPlain s → IsShorter s (to_line_end s)
unfolding to_line_end
to_line_end-IsShorter [] h = tt
to_line_end-IsShorter (c ∷ s) h = elim (Bool-cases (c == 10)) [
  | inl e ↦ rw e (h, omega arith)
  | inr e ↦ rw e (add_front c s (to_line_end s) (to_line_end-IsShorter s h.1))
]

loop_step :
    (fuel : ℕ) (parse : Bytes → Option Elem) (whole prev : Bytes) (c : ℕ) (s front back : Bytes)
    → parse_elem parse (c ∷ s) ≡ some none
    → next_line (c ∷ s) ≡ some (front, back)
    → parse_loop (suc fuel) parse whole prev (c ∷ s) no_more
      ≡ parse_loop fuel parse whole (prev ++ front) back no_more
unfolding parse_loop
loop_step fuel parse whole prev c s front back e f = rw (e, f, parse_loop) refl

loop_stop :
    (fuel : ℕ) (parse : Bytes → Option Elem) (whole prev : Bytes) (c : ℕ) (s : Bytes)
    → parse_elem parse (c ∷ s) ≡ some none
    → next_line (c ∷ s) ≡ none
    → parse_loop (suc fuel) parse whole prev (c ∷ s) no_more ≡ some (text_elem whole)
unfolding parse_loop finish
loop_stop fuel parse whole prev c s e f = rw (e, f, parse_loop) refl

next_line_of :
    (c : ℕ) (s front back : Bytes)
    → to_line_end s ≡ some (front, back)
    → next_line (c ∷ s) ≡ some (c ∷ front, back)
unfolding next_line
next_line_of c s front back e = rw (e, next_line) refl

no_line_of : (c : ℕ) (s : Bytes) → to_line_end s ≡ none → next_line (c ∷ s) ≡ none
unfolding next_line
no_line_of c s e = rw (e, next_line) refl

parse_loop-plain :
    (fuel : ℕ) (parse : Bytes → Option Elem) (whole prev pos : Bytes)
    → IsPlain pos
    → length pos < fuel
    → parse_loop fuel parse whole prev pos no_more ≡ some (text_elem whole)
unfolding parse_loop finish
parse_loop-plain zero parse whole prev pos h l = absurd (omega arith)
parse_loop-plain (suc fuel) parse whole prev [] h l = refl
parse_loop-plain (suc fuel) parse whole prev (c ∷ s) h l = elim (Option-cases (to_line_end s)) [
  | inl e ↦ loop_stop fuel parse whole prev c s (no_elem_here parse (c ∷ s) h) (no_line_of c s e)
  | inr ((front, back), e) ↦
      let short : IsPlain back × (length back ≤ length s) =
        subst (IsShorter s) e (to_line_end-IsShorter s h.1) in
      loop_step fuel parse whole prev c s (c ∷ front) back (no_elem_here parse (c ∷ s) h)
        (next_line_of c s front back e)
      ∙ parse_loop-plain fuel parse whole (prev ++ c ∷ front) back short.0 (omega (arith, short.1))
]

-- A template without a hash sign is a single text: parsing it ends, with any fuel, and changes
-- nothing.
parse_normal_elem-plain :
    (fuel : ℕ) (text : Bytes)
    → IsPlain text
    → parse_normal_elem (suc fuel) text ≡ some (text_elem text)
unfolding parse_normal_elem
parse_normal_elem-plain fuel text h =
    parse_loop-plain (suc (length text)) (parse_normal_elem fuel) text [] text h (omega arith)

module _ (S : Type 0) (ops : DataOps S) (atof : Bytes → Bytes → Compared) where
  -- A template without commands whose first characters are no at sign is rendered, with any fuel, to
  -- its text with every name replaced by its value, and leaves the data set as it is, when every name
  -- is at most 100 characters long, ends where no further character of a name follows, and has a
  -- value.
  pub srender_by-filled :
      (fuel : ℕ) (s : S) (first : Bytes) (ps : List Piece)
      → IsItem (char_is b'@') first
      → All (IsPiece (ops.get s)) ps
      → IsPlain (first ++ pieces_text ps)
      → srender_by S ops atof (suc fuel) (first ++ pieces_text ps) s ≡ some (s, first ++ filled ps)
  unfolding srender_by render_elem
  srender_by-filled fuel s first ps i h k =
      rw
        (
          parse_normal_elem-plain fuel (first ++ pieces_text ps) k,
          render_text-filled (ops.get s) first ps i h,
          srender_by,
          render_elem,
        )
        refl
