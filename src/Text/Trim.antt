-- ===== src/Text/Trim.antt =====
-- Stripping a character from the ends of a string: `holy_str_trim_left`, `holy_str_trim_right` and
-- `holy_str_trim` of utils/string.c.
use holyhttp.Prelude.{
  ℕ, zero, suc, ◌≤◌, ◌≡◌, refl, ◌≢◌, [], ◌∷◌, ◌++◌, arith, if◌then◌else◌, ◌==◌, length, Bytes,
  Bool-cases, inl, inr, ap, get_or, take, replicate, take_all, sym, append-nil, ◌∙◌, append_assoc,
  subst, last_or, last_or-snoc, take_last, replicate-snoc,
}

-- `for (head = s; *head == c; ++head);` and the copy to the front. (With `c` the NUL, which no
-- caller passes, the source would run off the string.)
unfoldable pub trim_left : Bytes → ℕ → Bytes
trim_left [] c = []
trim_left (d ∷ s) c = if d == c then trim_left s c else d ∷ s

-- `for (; tail >= s && *tail == c; --tail);` with `n` for `tail + 1 - s`: the length that is kept.
unfoldable pub trim_right_loop : Bytes → ℕ → ℕ → ℕ
trim_right_loop s c zero = 0
trim_right_loop s c (suc n) = if get_or s n 0 == c then trim_right_loop s c n else suc n

-- `tail[1] = 0` cuts the string. The early return on the empty string changes nothing.
unfoldable pub trim_right : Bytes → ℕ → Bytes
unfolding trim_right_loop
trim_right s c = take (trim_right_loop s c (length s)) s

unfoldable pub trim : Bytes → ℕ → Bytes
unfolding trim_left trim_right
trim s c = trim_right (trim_left s c) c

-- `s` does not begin, or does not end, with `c`.
abbrev pub NoHead : Bytes → ℕ → Type 0
NoHead s c = (t : Bytes) → s ≢ c ∷ t

abbrev pub NoLast : Bytes → ℕ → Type 0
NoLast s c = (t : Bytes) → s ≢ t ++ c ∷ []

trim_left-cut :
    (s : Bytes) (c : ℕ)
    → ((k : ℕ) × (s ≡ replicate k c ++ trim_left s c)) × NoHead (trim_left s c) c
unfolding trim_left
trim_left-cut [] c = ((0, refl), λ t e. cc)
trim_left-cut (d ∷ s) c = elim (Bool-cases (d == c)) [
  | inl same ↦ let ((k, e), n) = trim_left-cut s c in rw same ((suc k, ground (arith, e)), n)
  | inr other ↦ rw other ((0, refl), λ t e. ground arith)
]

snoc_ne : (xs ys : Bytes) (x y : ℕ) → x ≢ y → xs ++ x ∷ [] ≢ ys ++ y ∷ []
snoc_ne xs ys x y h e =
    h (sym (last_or-snoc xs x 0) ∙ ap (λ (l : Bytes). last_or l 0) e ∙ last_or-snoc ys y 0)

NoLast-nil : (c : ℕ) → NoLast [] c
NoLast-nil c [] e = cc
NoLast-nil c (d ∷ t) e = cc

trim_right_loop-cut :
    (s : Bytes) (c n : ℕ)
    → n ≤ length s
    → ((k : ℕ) × (take n s ≡ take (trim_right_loop s c n) s ++ replicate k c))
      × NoLast (take (trim_right_loop s c n) s) c
unfolding trim_right_loop
trim_right_loop-cut s c zero h = ((0, refl), NoLast-nil c)
trim_right_loop-cut s c (suc n) h = elim (Bool-cases (get_or s n 0 == c)) [
  | inl same ↦
      let ((k, e), last) = trim_right_loop-cut s c n (omega arith) in
      let is_c : get_or s n 0 ≡ c = ground arith in
      rw same (
        (
          suc k,
          take_last s n 0 h
              ∙ ap (λ (l : Bytes). l ++ get_or s n 0 ∷ []) e
              ∙ append_assoc (take (trim_right_loop s c n) s) (replicate k c) (get_or s n 0 ∷ [])
              ∙ ap (◌++◌ (take (trim_right_loop s c n) s))
                  (ap (λ (d : ℕ). replicate k c ++ d ∷ []) is_c ∙ replicate-snoc k c),
        ),
        last,
      )
  | inr other ↦ rw other (
    (0, sym (append-nil _)),
    rw (take_last s n 0 h) (λ t. snoc_ne (take n s) t (get_or s n 0) c (ground arith)),
  )
]

trim_right-cut :
    (s : Bytes) (c : ℕ)
    → ((k : ℕ) × (s ≡ trim_right s c ++ replicate k c)) × NoLast (trim_right s c) c
unfolding trim_right
trim_right-cut s c =
    let ((k, e), last) = trim_right_loop-cut s c (length s) (omega arith) in
    ((k, sym (take_all (length s) s (omega arith)) ∙ e), last)

NoHead-front : (s t : Bytes) (c : ℕ) → NoHead (s ++ t) c → NoHead s c
NoHead-front s t c h u e = h (u ++ t) (ap (λ (l : Bytes). l ++ t) e)

-- `holy_str_trim` takes off copies of the character at both ends and nothing else, and leaves none
-- of them at either end.
trim-cut :
    (s : Bytes) (c : ℕ)
    → (j : ℕ) × (k : ℕ) × (s ≡ replicate j c ++ (trim s c ++ replicate k c))
      × NoHead (trim s c) c
      × NoLast (trim s c) c
unfolding trim
trim-cut s c =
    let ((j, e), head) = trim_left-cut s c in
    let ((k, f), last) = trim_right-cut (trim_left s c) c in
    (
      j,
      k,
      e ∙ ap (◌++◌ (replicate j c)) f,
      NoHead-front _ (replicate k c) c (subst (λ (l : Bytes). NoHead l c) f head),
      last,
    )

trim_left_id : (s : Bytes) (c : ℕ) → NoHead s c → trim_left s c ≡ s
unfolding trim_left
trim_left_id [] c h = refl
trim_left_id (d ∷ s) c h = elim (Bool-cases (d == c)) [
  | inl same ↦ absurd (h s (ground arith))
  | inr other ↦ rw other
]

trim_right_id : (s : Bytes) (c : ℕ) → NoLast s c → trim_right s c ≡ s
trim_right_id s c h = go ((trim_right-cut s c).0.0) ((trim_right-cut s c).0.1)
  where
    go : (k : ℕ) → s ≡ trim_right s c ++ replicate k c → trim_right s c ≡ s
    go zero e = sym (e ∙ append-nil _)
    go (suc k) e = absurd (
        h (trim_right s c ++ replicate k c) (
          e
          ∙ ap (◌++◌ (trim_right s c)) (sym (replicate-snoc k c))
          ∙ sym (append_assoc (trim_right s c) (replicate k c) (c ∷ []))))

trim_id : (s : Bytes) (c : ℕ) → NoHead s c → NoLast s c → trim s c ≡ s
unfolding trim
trim_id s c head last = rw (trim_left_id s c head) (trim_right_id s c last)

-- Trimming what is trimmed changes nothing.
pub trim-trim : (s : Bytes) (c : ℕ) → trim (trim s c) c ≡ trim s c
trim-trim s c = let h = trim-cut s c in trim_id (trim s c) c h.3 h.4
