-- ===== src/Text/Search.antt =====
-- Searching memory: `holy_memfind`, `holy_strnstr` and `holy_memdup` of utils/string.c. A pointer
-- into the searched block is the offset from its start.
use holyhttp.Prelude.{
  ℕ, zero, suc, ◌+◌, ◌-◌, ◌≤◌, ◌<◌, ◌≡◌, refl, [], ◌∷◌, Option, none, some, arith, if◌then◌else◌,
  leb, ltb, ◌==◌, ◌||◌, Bool, false, length, take, drop, Bytes, is_prefix, is_prefix_iff,
  Bool-cases, inl, inr, ap, length-take, length-drop, subst,
}
use mathlib.Core.Option
use mathlib.Core.Option.{some-injective}

-- The loop over `pos` and `i`; `rest` is the block from `pos` on, whose length is `slen - i`.
unfoldable pub memfind_loop : Bytes → Bytes → ℕ → Option ℕ
memfind_loop pattern' [] i = none
memfind_loop pattern' (c ∷ rest) i =
    if leb (length pattern') (length (c ∷ rest))
    then if is_prefix pattern' (c ∷ rest) then some i else memfind_loop pattern' rest (i + 1)
    else none

-- The two blocks are given with the bytes that they have, so `slen` and `plen` are lengths.
unfoldable pub memfind : Option Bytes → Option Bytes → Option ℕ
memfind none p = none
memfind (some src) none = none
memfind (some src) (some p) =
    if length src == 0 || length p == 0 || ltb (length src) (length p)
    then none
    else memfind_loop p src 0

-- `slen` bounds the search; the pattern is measured by `strlen`.
unfoldable pub strnstr : Option Bytes → Option Bytes → ℕ → Option ℕ
unfolding memfind
strnstr none p slen = none
strnstr (some src) none slen = none
strnstr (some src) (some p) slen =
    if slen == 0 then none else memfind (some (take slen src)) (some p)

-- A copy of `len` bytes, where the allocation succeeds.
unfoldable pub memdup : Bool → Option Bytes → ℕ → Option Bytes
memdup alloc none len = none
memdup alloc (some src) len = if len == 0 then none else if alloc then some (take len src) else none

-- The pattern stands at offset `k`.
abbrev pub Occurs : Bytes → Bytes → ℕ → Type 0
Occurs p s k = take (length p) (drop k s) ≡ p

-- The answer is the first occurrence, or there is none.
abbrev pub FirstAt : Bytes → Bytes → Option ℕ → Type 0
FirstAt p s none = (k : ℕ) → ¬ Occurs p s k
FirstAt p s (some i) = Occurs p s i × ((k : ℕ) → k < i → ¬ Occurs p s k)

Occurs-room : (p s : Bytes) (k : ℕ) → Occurs p s k → length p ≤ length s - k
Occurs-room p s k o = omega (arith, ap length o, length-take (length p) (drop k s), length-drop k s)

short_not_Occurs : (p s : Bytes) (k : ℕ) → length s < length p → ¬ Occurs p s k
short_not_Occurs p s k h o = absurd (omega (arith, Occurs-room p s k o))

-- A first occurrence in the tail is one in the whole, if the whole does not begin with it.
FirstAt-later :
    (p : Bytes) (c : ℕ) (s : Bytes)
    → ¬ Occurs p (c ∷ s) 0
    → (r : Option ℕ) → FirstAt p s r
    → FirstAt p (c ∷ s) (Option.map suc r)
FirstAt-later p c s not_here none h = nowhere
  where
    nowhere : (k : ℕ) → ¬ Occurs p (c ∷ s) k
    nowhere zero = not_here
    nowhere (suc k) = h k
FirstAt-later p c s not_here (some i) h = (h.0, earlier)
  where
    earlier : (k : ℕ) → k < suc i → ¬ Occurs p (c ∷ s) k
    earlier zero lt = not_here
    earlier (suc k) lt = h.1 k (omega arith)

memfind_loop-shift :
    (p s : Bytes) (i : ℕ) → memfind_loop p s (i + 1) ≡ Option.map suc (memfind_loop p s i)
unfolding memfind_loop
memfind_loop-shift p [] i = refl
memfind_loop-shift p (c ∷ s) i = ground (arith, memfind_loop-shift p s (i + 1))

memfind_loop-FirstAt : (p s : Bytes) → 0 < length p → FirstAt p s (memfind_loop p s 0)
unfolding memfind_loop
memfind_loop-FirstAt p [] h = λ k. short_not_Occurs p [] k h
memfind_loop-FirstAt p (c ∷ s) h = elim (Bool-cases (leb (length p) (length (c ∷ s)))) [
  | inr short ↦ rw (short) (λ k. short_not_Occurs p (c ∷ s) k (ground arith))
  | inl room ↦ elim (Bool-cases (is_prefix p (c ∷ s))) [
    | inl hit ↦ rw (room, hit) ((is_prefix_iff p (c ∷ s)).0 hit, λ k lt. absurd (omega arith))
    | inr miss ↦
        rw (room, miss, memfind_loop-shift p s 0)
          (FirstAt-later p c s (λ o. ground (arith, miss, (is_prefix_iff p (c ∷ s)).1 o)) _
            (memfind_loop-FirstAt p s h))
  ]
]

-- `holy_memfind` finds the first occurrence of a pattern that is not empty, and a null pointer is
-- returned exactly when the pattern occurs nowhere in the block.
memfind-FirstAt : (src p : Bytes) → 0 < length p → FirstAt p src (memfind (some src) (some p))
unfolding memfind
memfind-FirstAt src p h =
    elim (Bool-cases (length src == 0 || length p == 0 || ltb (length src) (length p))) [
      | inl none_fits ↦ rw none_fits (λ k. short_not_Occurs p src k (ground arith))
      | inr fits ↦ rw fits (memfind_loop-FirstAt p src h)
    ]

memfind_hit : (src p : Bytes) (r : Option ℕ) (i : ℕ) → FirstAt p src r → r ≡ some i → Occurs p src i
memfind_hit src p none i h e = cc
memfind_hit src p (some j) i h e = let q : j ≡ i = cc in subst (Occurs p src) q h.0

-- An offset that `holy_memfind` returns leaves room for the pattern: the whole match lies inside
-- the block.
pub memfind_in_bounds :
    (src p : Bytes) (i : ℕ)
    → 0 < length p
    → memfind (some src) (some p) ≡ some i
    → i + length p ≤ length src
memfind_in_bounds src p i h e =
    let o = memfind_hit src p _ i (memfind-FirstAt src p h) e in
    omega (arith, Occurs-room p src i o)

-- `holy_strnstr` reports a first occurrence within the first `slen` bytes, and does not look
-- behind them.
pub strnstr-FirstAt :
    (src p : Bytes) (slen : ℕ)
    → 0 < length p
    → FirstAt p (take slen src) (strnstr (some src) (some p) slen)
unfolding strnstr
strnstr-FirstAt src p zero h = λ k. short_not_Occurs p [] k h
strnstr-FirstAt src p (suc n) h =
    let e : (suc n == 0) ≡ false = ground arith in rw e (memfind-FirstAt (take (suc n) src) p h)
