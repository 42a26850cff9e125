-- ===== src/Packet/Scan.antt =====
-- The conversions of `sscanf` that the parsers use, each with the text behind what it took.
use holyhttp.Prelude.{
  ℕ, zero, suc, ◌+◌, ◌-◌, ◌*◌, ◌%◌, ◌^◌, ◌≤◌, ◌≡◌, refl, ◌≢◌, [], ◌∷◌, ◌++◌, Option, none, some,
  if◌then◌else◌, leb, ◌==◌, ◌&&◌, ◌||◌, not, Bool, true, false, Bytes, length, take, drop, All, ap,
  ◌∙◌, arith,
}
use holyhttp.Text.Decimal.{isdigit}

-- `isspace`.
unfoldable pub is_space : ℕ → Bool
is_space c = c == 32 || (leb 9 c && leb c 13)

-- White space in a format.
unfoldable pub skip_space : Bytes → Bytes
unfolding is_space
skip_space [] = []
skip_space (c ∷ s) = if is_space c then skip_space s else c ∷ s

-- The longest front of at most `n` characters that are in a set, and the rest.
unfoldable pub span : ℕ → (ℕ → Bool) → Bytes → Bytes × Bytes
span zero p s = ([], s)
span (suc n) p [] = ([], [])
span (suc n) p (c ∷ s) = let r = span n p s in if p c then (c ∷ r.0, r.1) else ([], c ∷ s)

-- A conversion fails where it takes nothing.
unfoldable pub nonempty : Bytes × Bytes → Option (Bytes × Bytes)
nonempty ([], s) = none
nonempty (c ∷ w, s) = some (c ∷ w, s)

-- `%n[...]`.
unfoldable pub scan_set : ℕ → (ℕ → Bool) → Bytes → Option (Bytes × Bytes)
unfolding span nonempty
scan_set n p s = nonempty (span n p s)

-- `%ns`.
unfoldable pub scan_word : ℕ → Bytes → Option (Bytes × Bytes)
unfolding skip_space scan_set
scan_word n s = scan_set n (λ c. not (is_space c)) (skip_space s)

-- Characters of the format that are no conversion.
unfoldable pub literal : Bytes → Bytes → Option Bytes
literal [] s = some s
literal (c ∷ p) [] = none
literal (c ∷ p) (d ∷ s) = if c == d then literal p s else none

-- The number of a run of digits.
unfoldable pub digits_value : ℕ → Bytes → ℕ
digits_value n [] = n
digits_value n (c ∷ s) = digits_value (n * 10 + (c - b'0')) s

-- `strtoul`: a number that does not fit in 64 bits gives the largest one.
unfoldable pub to_ulong : Bool → Bytes → ℕ
unfolding digits_value
to_ulong negative ds =
    let n = digits_value 0 ds in
    if leb (2 ^ 64) n then 2 ^ 64 - 1 else if negative then (2 ^ 64 - n) % 2 ^ 64 else n

-- `strtoul` takes a sign.
unfoldable pub scan_sign : Bytes → Bool × Bytes
scan_sign [] = (false, [])
scan_sign (c ∷ s) =
    if c == b'-' then (true, s) else if c == b'+' then (false, s) else (false, c ∷ s)

-- `%u`, into a `u32`.
unfoldable pub scan_u32 : Bytes → Option (ℕ × Bytes)
unfolding skip_space scan_sign scan_set to_ulong
scan_u32 s =
    let r = scan_sign (skip_space s) in
    elim (nonempty (span (length r.1) isdigit r.1)) [
      | none ↦ none
      | some (ds, rest) ↦ some (to_ulong r.0 ds % 2 ^ 32, rest)
    ]

-- A run of characters of the set that is not too long is taken whole, up to a character that is not
-- in the set.
pub span-stop :
    (n : ℕ) (p : ℕ → Bool) (w : Bytes) (c : ℕ) (s : Bytes)
    → length w ≤ n
    → All (λ d. p d ≡ true) w
    → p c ≡ false
    → span n p (w ++ c ∷ s) ≡ (w, c ∷ s)
unfolding span
span-stop zero p [] c s h k e = refl
span-stop zero p (d ∷ w) c s h k e = absurd (omega arith)
span-stop (suc n) p [] c s h k e = rw e refl
span-stop (suc n) p (d ∷ w) c s h (k, ks) e = rw (k, span-stop n p w c s (omega arith) ks e) refl

-- The same at the end of the text.
pub span-end :
    (n : ℕ) (p : ℕ → Bool) (w : Bytes)
    → length w ≤ n
    → All (λ d. p d ≡ true) w
    → span n p w ≡ (w, [])
unfolding span
span-end zero p [] h k = refl
span-end zero p (d ∷ w) h k = absurd (omega arith)
span-end (suc n) p [] h k = refl
span-end (suc n) p (d ∷ w) h (k, ks) = rw (k, span-end n p w (omega arith) ks) refl

-- A run that is too long is cut.
pub span-full :
    (n : ℕ) (p : ℕ → Bool) (w s : Bytes)
    → n ≤ length w
    → All (λ d. p d ≡ true) w
    → span n p (w ++ s) ≡ (take n w, drop n w ++ s)
unfolding span
span-full zero p w s h k = refl
span-full (suc n) p [] s h k = absurd (omega arith)
span-full (suc n) p (d ∷ w) s h (k, ks) = rw (k, span-full n p w s (omega arith) ks) refl

pub nonempty_lem : (w s : Bytes) → w ≢ [] → nonempty (w, s) ≡ some (w, s)
unfolding nonempty
nonempty_lem [] s h = absurd (h refl)
nonempty_lem (c ∷ w) s h = refl

pub scan_set-stop :
    (n : ℕ) (p : ℕ → Bool) (w : Bytes) (c : ℕ) (s : Bytes)
    → w ≢ []
    → length w ≤ n
    → All (λ d. p d ≡ true) w
    → p c ≡ false
    → scan_set n p (w ++ c ∷ s) ≡ some (w, c ∷ s)
unfolding scan_set
scan_set-stop n p w c s h l k e = ap nonempty (span-stop n p w c s l k e) ∙ nonempty_lem w (c ∷ s) h

pub scan_set-end :
    (n : ℕ) (p : ℕ → Bool) (w : Bytes)
    → w ≢ []
    → length w ≤ n
    → All (λ d. p d ≡ true) w
    → scan_set n p w ≡ some (w, [])
unfolding scan_set
scan_set-end n p w h l k = ap nonempty (span-end n p w l k) ∙ nonempty_lem w [] h
