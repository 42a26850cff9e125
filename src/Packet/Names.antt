-- ===== src/Packet/Names.antt =====
-- The search for a name in a part of multipart content: the inner loop of `parse_content` of
-- server/packet.c.
use holyhttp.Prelude.{
  ℕ, zero, suc, ◌+◌, ◌-◌, ◌<◌, ◌≡◌, refl, Option, none, some, ltb, ◌&&◌, Bool, true, false, Bytes,
  length, get_or, take, drop, drop-drop, drop-take, ap, sym, ◌∙◌, subst, arith, Bool-cases,
  Option-cases, inl, inr, ◌⊎◌,
}
use mathlib.Core.Bool.{false≢true}
use mathlib.Core.Option.{none-ne-some}
use holyhttp.Text.Search.{strnstr, strnstr-FirstAt, FirstAt, Occurs}
use holyhttp.Packet.Multipart.{search, find_name, name_key, isalnum}

at_front : (r : Option ℕ) (p s : Bytes) → FirstAt p s r → Occurs p s 0 → r ≡ some 0
at_front none p s h o = absurd (h 0 o)
at_front (some zero) p s h o = refl
at_front (some (suc i)) p s h o = absurd (h.1 0 (omega arith) o)

hit : (r : Option ℕ) (p s : Bytes) (k : ℕ) → FirstAt p s r → r ≡ some k → Occurs p s k
hit none p s k h e = cc
hit (some j) p s k h e = let q : j ≡ k = cc in subst (Occurs p s) q h.0

-- What has been found is found again from there.
search_again :
    (text : Bytes) (pos : ℕ) (p : Bytes) (next i : ℕ)
    → 0 < length p
    → search text pos p next ≡ some i
    → search text i p next ≡ some i
unfolding search
search_again text pos p next i h e =
    elim (Option-cases (strnstr (some (drop pos text)) (some p) (next - pos))) [
      | inl f ↦ let q : none ≡ some i = rw (f, search) at e in cc
      | inr (k, f) ↦
          let q : some (pos + k) ≡ some i = rw (f, search) at e in
          let same : pos + k ≡ i = cc in
          let o =
            hit _ p (take (next - pos) (drop pos text)) k
              (strnstr-FirstAt (drop pos text) p (next - pos) h) f in
          let less : next - pos - k ≡ next - i = omega (arith, same) in
          let shift : drop k (take (next - pos) (drop pos text)) ≡ take (next - i) (drop i text) =
            drop-take k (next - pos) (drop pos text)
            ∙ ap (take (next - pos - k)) (drop-drop pos k text ∙ ap (λ n. drop n text) same)
            ∙ ap (λ n. take n (drop i text)) less in
          let here : Occurs p (take (next - i) (drop i text)) 0 =
            ap (take (length p)) (sym shift) ∙ o in
          let again =
            at_front _ p (take (next - i) (drop i text))
              (strnstr-FirstAt (drop i text) p (next - i) h) here in
          let zero_more : i + 0 ≡ i = omega arith in rw (again, search) (ap some zero_more)
    ]

-- A letter or a digit in front of the name that was found.
abbrev pub is_glued : Bytes → ℕ → ℕ → Bool
is_glued text p next = ltb p next && isalnum (get_or text (p - 1) 0)

-- Where the first `name=\"` of a part has a letter or a digit in front of it, as in a part that begins
-- with `filename=\"`, the search for a name never ends: no fuel is enough.
find_name_stuck :
    (text : Bytes) (pos next p fuel : ℕ)
    → search text pos name_key next ≡ some p
    → is_glued text p next ≡ true
    → find_name fuel text pos next ≡ none
unfolding find_name
find_name_stuck text pos next p zero h g = refl
find_name_stuck text pos next p (suc fuel) h g =
    rw (h, g, find_name)
      (find_name_stuck text p next p fuel (search_again text pos name_key next p (omega arith) h) g)

find_name_found :
    (text : Bytes) (pos next p fuel : ℕ)
    → search text pos name_key next ≡ some p
    → is_glued text p next ≡ false
    → find_name (suc fuel) text pos next ≡ some (some p)
unfolding find_name
find_name_found text pos next p fuel h g = rw (h, g, find_name) refl

-- The first `name=\"` of a part, if there is one, does not stick to a letter or a digit.
abbrev pub IsLoose : Bytes → ℕ → ℕ → Type 0
IsLoose text pos next =
    (p : ℕ) → search text pos name_key next ≡ some p → is_glued text p next ≡ false

-- The search for a name ends in its first round, with the first `name=\"` of the part or with none
-- where there is none, unless a letter or a digit stands in front of that first one: then it never
-- ends, whatever the number of rounds.
pub find_name_ends :
    (text : Bytes) (pos next fuel : ℕ)
    → (IsLoose text pos next
        × (find_name (suc fuel) text pos next ≡ some (search text pos name_key next)))
      ⊎ (¬ IsLoose text pos next × ((rounds : ℕ) → find_name rounds text pos next ≡ none))
unfolding find_name
find_name_ends text pos next fuel = elim (Option-cases (search text pos name_key next)) [
  | inl e ↦ inl ((λ p h. absurd (none-ne-some p (sym e ∙ h))), rw (e, find_name) refl)
  | inr (p, e) ↦ elim (Bool-cases (is_glued text p next)) [
    | inl g ↦ inr (
      (λ loose. false≢true (sym (loose p e) ∙ g)),
      λ rounds. find_name_stuck text pos next p rounds e g,
    )
    | inr g ↦ inl (
      (λ q h. let same : p ≡ q = cc in subst (λ n. is_glued text n next ≡ false) same g),
      find_name_found text pos next p fuel e g ∙ ap some (sym e),
    )
  ]
]
