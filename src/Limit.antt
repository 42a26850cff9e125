-- ===== src/Limit.antt =====
-- `set_fd_limit` of holyhttp.c: the limit on descriptors that the server sets for itself. `setrlimit`
-- is a parameter, from the limit that holds and the one that is asked for to the new one.
use holyhttp.Prelude.{
  ℕ, zero, suc, ◌+◌, ◌-◌, ◌*◌, ◌/◌, ◌%◌, ◌^◌, ◌<◌, ◌≤◌, ◌≡◌, ◌≢◌, refl, ◌⊎◌, inl, inr, Option, none,
  some, if◌then◌else◌, leb, ◌==◌, Bool-cases, true, false, ap, sym, ◌∙◌, arith,
}

-- The inner loop, on fuel; `i` and the sum are `u32`. `none` is fuel that ran out.
unfoldable pub try_more : (ℕ → ℕ → Option ℕ) → ℕ → ℕ → ℕ → ℕ → ℕ → Option ℕ
try_more setrlimit zero limit step i hard = none
try_more setrlimit (suc fuel) limit step i hard =
    if i == 0 then some hard else elim (setrlimit hard ((limit + i) % 2 ^ 32)) [
      | some now ↦ some now
      | none ↦ try_more setrlimit fuel limit step ((i + (2 ^ 32 - step)) % 2 ^ 32) hard
    ]

-- The outer loop, which halves the limit until one is accepted.
unfoldable pub limit_loop : (ℕ → ℕ → Option ℕ) → ℕ → ℕ → ℕ → ℕ → Option ℕ
unfolding try_more
limit_loop setrlimit fuel zero limit hard = none
limit_loop setrlimit fuel (suc rounds) limit hard =
    if limit == 0 then some hard else elim (setrlimit hard limit) [
      | some now ↦ try_more setrlimit fuel limit (limit / 10) limit now
      | none ↦ limit_loop setrlimit fuel rounds (limit / 2) hard
    ]

unfoldable pub set_fd_limit : (ℕ → ℕ → Option ℕ) → ℕ → ℕ → Option ℕ
unfolding limit_loop
set_fd_limit setrlimit fuel hard = limit_loop setrlimit fuel 32 (2 ^ 30) hard

-- What a process without privileges is granted: nothing above its limit, which then is the new one.
abbrev pub Lowers : (ℕ → ℕ → Option ℕ) → Type 0
Lowers setrlimit = (hard n : ℕ) → setrlimit hard n ≡ (if leb n hard then some n else none)

-- The powers of two from 32 on.
unfoldable pub power : ℕ → ℕ
power zero = 32
power (suc k) = 2 * power k

-- What is lost of a limit.
abbrev pub lowered : ℕ → ℕ
lowered limit = limit - limit / 10 + limit % 10

-- A tenth of such a power is more than its last digit, which is not 0.
record IsPower (n : ℕ) : Type 0 where
  small : (n ≡ 32) ⊎ ((n ≡ 64) ⊎ (128 ≤ n))
  even : n % 2 ≡ 0
  fives : n % 5 ≢ 0

double-small :
    (n : ℕ) → (n ≡ 32) ⊎ ((n ≡ 64) ⊎ (128 ≤ n)) → (2 * n ≡ 32) ⊎ ((2 * n ≡ 64) ⊎ (128 ≤ 2 * n))
double-small n (inl e) = inr (inl (omega (arith, e)))
double-small n (inr (inl e)) = inr (inr (omega (arith, e)))
double-small n (inr (inr h)) = inr (inr (omega (arith, h)))

power-IsPower : (k : ℕ) → IsPower (power k)
unfolding power
power-IsPower zero = record { small = inl refl; even = refl; fives = λ e. omega (arith, e) }
power-IsPower (suc k) =
    let p = power-IsPower k in
    record {
      small = double-small (power k) p.small;
      even = omega arith;
      fives = λ e. p.fives (omega (arith, e));
    }

last_digit : (n : ℕ) → IsPower n → (0 < n % 10) × (n % 10 < n / 10) × (32 ≤ n)
last_digit n p = elim p.small [
  | inl e ↦ (omega (arith, e), omega (arith, e), omega (arith, e))
  | inr (inl e) ↦ (omega (arith, e), omega (arith, e), omega (arith, e))
  | inr (inr h) ↦ (omega (arith, p.fives), omega (arith, h), omega (arith, h))
]

suc-mul : (j n : ℕ) → suc j * n ≡ n + j * n
suc-mul j n = omega arith

module _ (setrlimit : ℕ → ℕ → Option ℕ) (lowers : Lowers setrlimit) where
  granted : (hard n : ℕ) → n ≤ hard → setrlimit hard n ≡ some n
  granted hard n h = let e : leb n hard ≡ true = ground arith in lowers hard n ∙ rw e refl

  denied : (hard n : ℕ) → hard < n → setrlimit hard n ≡ none
  denied hard n h = let e : leb n hard ≡ false = ground arith in lowers hard n ∙ rw e refl

  try_more-denied :
      (fuel limit step i : ℕ)
      → step ≤ i
      → 0 < i
      → limit + i < 2 ^ 32
      → try_more setrlimit (suc fuel) limit step i limit
        ≡ try_more setrlimit fuel limit step (i - step) limit
  unfolding try_more
  try_more-denied fuel limit step i h p b =
      let z : (i == 0) ≡ false = ground arith in
      let d = denied limit ((limit + i) % 2 ^ 32) (omega arith) in
      let q : (i + (2 ^ 32 - step)) % 2 ^ 32 ≡ i - step = omega arith in
      rw (z, d, try_more) (ap (λ j. try_more setrlimit fuel limit step j limit) q)

  tries :
      (j fuel limit step rest : ℕ)
      → 0 < rest
      → limit + (j * step + rest) < 2 ^ 32
      → try_more setrlimit (j + fuel) limit step (j * step + rest) limit
        ≡ try_more setrlimit fuel limit step rest limit
  tries zero fuel limit step rest p b =
      let e : 0 + fuel ≡ fuel = omega arith in
      let f : 0 * step + rest ≡ rest = omega arith in
      ap (λ n. try_more setrlimit n limit step (0 * step + rest) limit) e
      ∙ ap (λ i. try_more setrlimit fuel limit step i limit) f
  tries (suc j) fuel limit step rest p b =
      let q : suc j * step + rest - step ≡ j * step + rest = omega (arith, suc-mul j step) in
      let n : suc j + fuel ≡ suc (j + fuel) = omega arith in
      ap (λ m. try_more setrlimit m limit step (suc j * step + rest) limit) n
      ∙ try_more-denied (j + fuel) limit step (suc j * step + rest) (omega (arith, suc-mul j step))
          (omega arith) b
      ∙ ap (λ i. try_more setrlimit (j + fuel) limit step i limit) q
      ∙ tries j fuel limit step rest p (omega (arith, b, suc-mul j step))

  -- The round in which `i` wraps around.
  try_more-wraps :
      (fuel limit step rest : ℕ)
      → 0 < rest
      → rest < step
      → step ≤ limit
      → limit < 2 ^ 31
      → try_more setrlimit (suc (suc fuel)) limit step rest limit ≡ some (limit - step + rest)
  unfolding try_more
  try_more-wraps fuel limit step rest p l s b =
      let z : (rest == 0) ≡ false = ground arith in
      let d = denied limit ((limit + rest) % 2 ^ 32) (omega arith) in
      let next : ℕ = (rest + (2 ^ 32 - step)) % 2 ^ 32 in
      let y : (next == 0) ≡ false = ground arith in
      let sum : (limit + next) % 2 ^ 32 ≡ limit - step + rest = omega arith in
      let g = ap (setrlimit limit) sum ∙ granted limit (limit - step + rest) (omega arith) in
      rw (z, d, try_more, y, g) refl

  accepted :
      (rounds limit hard : ℕ)
      → limit ≤ hard
      → limit < 2 ^ 31
      → 0 < limit % 10
      → limit % 10 < limit / 10
      → limit_loop setrlimit 12 (suc rounds) limit hard ≡ some (lowered limit)
  unfolding limit_loop
  accepted rounds limit hard h b p q =
      let z : (limit == 0) ≡ false = ground arith in
      let e : limit ≡ 10 * (limit / 10) + limit % 10 = omega arith in
      rw (limit_loop, z, granted hard limit h)
        (ap (λ i. try_more setrlimit 12 limit (limit / 10) i limit) e
          ∙ tries 10 2 limit (limit / 10) (limit % 10) p (omega arith)
          ∙ try_more-wraps 0 limit (limit / 10) (limit % 10) p q (omega arith) b)

  refused :
      (rounds limit hard : ℕ)
      → hard < limit
      → limit_loop setrlimit 12 (suc rounds) limit hard
        ≡ limit_loop setrlimit 12 rounds (limit / 2) hard
  unfolding limit_loop
  refused rounds limit hard h =
      let z : (limit == 0) ≡ false = ground arith in rw (z, limit_loop, denied hard limit h) refl

  loop-lowered :
      (k rounds hard : ℕ)
      → 32 ≤ hard
      → hard < 2 * power k
      → power k < 2 ^ 31
      → (j : ℕ) × (power j ≤ hard)
        × (hard < 2 * power j)
        × (lowered (power j) < power j)
        × (limit_loop setrlimit 12 (suc (k + rounds)) (power k) hard ≡ some (lowered (power j)))
  unfolding power
  loop-lowered zero rounds hard h b p =
      (0, h, b, omega arith, accepted (0 + rounds) 32 hard h p (omega arith) (omega arith))
  loop-lowered (suc k) rounds hard h b p =
      let top = power (suc k) in
      let (x, y, z) = last_digit top (power-IsPower (suc k)) in
      elim (Bool-cases (leb top hard)) [
        | inl e ↦ (
          suc k,
          ground arith,
          b,
          omega (arith, y),
          accepted (suc k + rounds) top hard (ground arith) p x y,
        )
        | inr e ↦
            let small : hard < top = ground arith in
            let (j, l, m, w, q) = loop-lowered k rounds hard h small (omega arith) in
            let half : top / 2 ≡ power k = omega arith in
            let n : suc k + rounds ≡ suc (k + rounds) = omega arith in
            (
              j,
              l,
              m,
              w,
              refused (suc k + rounds) top hard small
                  ∙ ap (λ x. limit_loop setrlimit 12 (suc k + rounds) x hard) half
                  ∙ ap (λ x. limit_loop setrlimit 12 x (power k) hard) n
                  ∙ q,
            )
      ]

  power_top : power 25 ≡ 2 ^ 30
  unfolding power
  power_top = refl

  -- A process that may only lower its limit, which is at least 32 and below 2 ^ 31, ends with less
  -- than it could have: of the greatest power of two within its limit it is left with nine tenths,
  -- the tenth rounded down, and the last digit. Twelve rounds of the inner loop are enough.
  pub set_fd_limit-lowered :
      (hard : ℕ)
      → 32 ≤ hard
      → hard < 2 ^ 31
      → (k : ℕ) × (power k ≤ hard)
        × (hard < 2 * power k)
        × (lowered (power k) < power k)
        × (set_fd_limit setrlimit 12 hard ≡ some (lowered (power k)))
  unfolding set_fd_limit
  set_fd_limit-lowered hard h b =
      let (k, l, m, w, q) =
        loop-lowered 25 6 hard h (omega (arith, b, power_top)) (omega (arith, power_top)) in
      (k, l, m, w, ap (λ x. limit_loop setrlimit 12 32 x hard) (sym power_top) ∙ q)
