-- ===== src/Dataset/Values.antt =====
-- Setting and reading values by name: `set_value` and `get_value` of utils/dataset.c.
use holyhttp.Prelude.{
  ℕ, ◌+◌, ◌^◌, ◌<◌, ◌≡◌, ◌≢◌, refl, List, [], ◌∷◌, ◌++◌, none, some, ◌==◌, Bool, true, false, Bytes,
  IsText, IsChar, All, All-append, length, ap, sym, ◌∙◌, subst, arith, ◌⊎◌, inl, inr, Bool-cases,
  ==_iff,
}
use holyhttp.ListHead.{ListHead}
use holyhttp.Dict.Chain.{Kv}
use holyhttp.Dict.Invariant.{IsDict}
use holyhttp.Text.Tokens.{tokens, tokens_from, flush, char_is}
use holyhttp.Dataset.{
  Memory, Subset, Store, set_cell, get_walk, get_sub, get_value, read_value, write_value, set_value,
}
use holyhttp.Dataset.Invariant.{IsLive, child, IsStore}
use holyhttp.Dataset.Laws.{
  Plenty, Walked, set_walk_lem, Extends-walk, step_walk, stop_walk, lost_walk, cell_cases, zero_or,
  walk-IsLive,
}

flush-IsText :
    (w : Bytes) (items : List Bytes) → IsText w → All IsText items → All IsText (flush w items)
unfolding flush
flush-IsText [] items h k = k
flush-IsText (c ∷ w) items h k = (h, k)

tokens_from-IsText :
    (is_delim : ℕ → Bool) (w s : Bytes)
    → IsText w
    → IsText s
    → All IsText (tokens_from is_delim w s)
unfolding tokens_from
tokens_from-IsText is_delim w [] h k = flush-IsText w [] h tt
tokens_from-IsText is_delim w (c ∷ s) h (k, ks) = elim (Bool-cases (is_delim c)) [
  | inl e ↦
      rw e (flush-IsText w (tokens_from is_delim [] s) h (tokens_from-IsText is_delim [] s tt ks))
  | inr e ↦
      rw e (tokens_from-IsText is_delim (w ++ c ∷ []) s (All-append IsChar w (c ∷ []) h (k, tt)) ks)
]

pub tokens-IsText : (is_delim : ℕ → Bool) (s : Bytes) → IsText s → All IsText (tokens is_delim s)
unfolding tokens
tokens-IsText is_delim s h = tokens_from-IsText is_delim [] s tt h

module _ (lists : ListHead Kv) where
  module _ (t : Store lists) (q : ℕ) (n : Subset lists) (v : Bytes) (e : t.cell q ≡ some n) where
    abbrev valued : Subset lists
    valued = record n { value = some v }

    abbrev written : Store lists
    written = set_cell lists q (some valued) t

    cell_same : written.cell q ≡ some valued
    unfolding set_cell
    cell_same = let r : (q == q) ≡ true = ground arith in rw r refl

    cell_other : (p : ℕ) → p ≢ q → written.cell p ≡ t.cell p
    unfolding set_cell
    cell_other p h = let r : (p == q) ≡ false = ground (arith, h) in rw r refl

    written_next : written.next ≡ t.next
    unfolding set_cell
    written_next = refl

    place : (p : ℕ) → (p ≡ q) ⊎ (p ≢ q)
    place p = elim (Bool-cases (p == q)) [
      | inl x ↦ inl ((==_iff p q).0 x)
      | inr x ↦ inr (λ z. cc ((==_iff p q).1 z))
    ]

    -- The subset at an address, apart from its value.
    twin :
        (p : ℕ)
        → ((t.cell p ≡ none) × (written.cell p ≡ none))
          ⊎ ((m : Subset lists) × (l : Subset lists) × (t.cell p ≡ some m)
              × (written.cell p ≡ some l)
              × (l.children ≡ m.children))
    twin p = elim (place p) [
      | inl x ↦ inr (n, valued, ap t.cell x ∙ e, ap written.cell x ∙ cell_same, refl)
      | inr x ↦ elim (cell_cases lists (t.cell p)) [
        | inl y ↦ inl (y, cell_other p x ∙ y)
        | inr (m, y) ↦ inr (m, m, y, cell_other p x ∙ y, refl)
      ]
    ]

    walk_written :
        (p : ℕ) (items : List Bytes) → get_walk lists written p items ≡ get_walk lists t p items
    unfolding get_walk
    walk_written p [] = refl
    walk_written p (item ∷ items) = elim (twin p) [
      | inl (x, y) ↦ lost_walk lists written p item items y ∙ sym (lost_walk lists t p item items x)
      | inr (m, l, x, y, same) ↦
          let c : child lists l item ≡ child lists m item = cc in
          elim (zero_or lists (child lists m item)) [
            | inl z ↦
                stop_walk lists written p l item items y (c ∙ z)
                ∙ sym (stop_walk lists t p m item items x z)
            | inr pos ↦
                step_walk lists written p l item items y (subst (λ r. 0 < r) (sym c) pos)
                ∙ walk_written (child lists l item) items
                ∙ ap (λ r. get_walk lists t r items) c
                ∙ sym (step_walk lists t p m item items x pos)
          ]
    ]

    read_same : 0 < q → read_value lists written q ≡ some (some v)
    unfolding read_value
    read_same h = let z : (q == 0) ≡ false = ground arith in rw (read_value, z, cell_same) refl

    read_other : (p : ℕ) → p ≢ q → read_value lists written p ≡ read_value lists t p
    unfolding read_value
    read_other p h = rw (read_value, cell_other p h) refl

    IsLive-written : (p : ℕ) → IsLive lists t p → IsLive lists written p
    IsLive-written p (m, x) = elim (twin p) [
      | inl (y, z) ↦ absurd (cc)
      | inr (m', l, y, z, same) ↦ (l, z)
    ]

    -- A subset of the later store has the children of one that was there.
    origin :
        (p : ℕ) (m : Subset lists)
        → written.cell p ≡ some m
        → (r : Subset lists) × (t.cell p ≡ some r) × (m.children ≡ r.children)
    origin p m h = elim (twin p) [
      | inl (y, z) ↦ absurd (cc)
      | inr (r, l, y, z, same) ↦ let x : l ≡ m = cc in (r, y, ap (λ k. k.children) (sym x) ∙ same)
    ]

    written-IsStore : IsStore lists t → IsStore lists written
    written-IsStore i = record {
      first = omega (arith, i.first, written_next);
      unused = λ p h.
          let u : t.cell p ≡ none = i.unused p (omega (arith, written_next, h)) in
          let ne : p ≢ q = λ z. let x : t.cell q ≡ none = ap t.cell (sym z) ∙ u in cc in
          cell_other p ne ∙ u;
      sound = λ p m h.
          let (r, x, same) = origin p m h in subst (IsDict lists) (sym same) (i.sound p r x);
      linked = λ p m k h hk.
          let (r, x, same) = origin p m h in
          let c : child lists m k ≡ child lists r k = cc in
          elim (i.linked p r k x hk) [
            | inl z ↦ inl (c ∙ z)
            | inr (pos, live) ↦ inr (
              omega (arith, c, pos),
              subst (IsLive lists written) (sym c) (IsLive-written (child lists r k) live),
            )
          ];
    }

  write_value_lem :
      (t : Store lists) (q : ℕ) (n : Subset lists) (v : Bytes)
      → t.cell q ≡ some n
      → write_value lists true t q v
        ≡ some (true, set_cell lists q (some (record n { value = some v })) t)
  unfolding write_value
  write_value_lem t q n v e = rw (write_value, e) refl

  module _ (mem : ℕ → Memory) (s : Store lists) (root : ℕ) (name v : Bytes) (plenty : Plenty mem)
      (i : IsStore lists s) (live : IsLive lists s root) (pos : 0 < root) (text : IsText name)
      (room : s.next + length (tokens (char_is b'.') name) < 2 ^ 64) where
    walked : Walked lists mem 0 s root (tokens (char_is b'.') name)
    walked =
        set_walk_lem lists mem 0 s root (tokens (char_is b'.') name) plenty i live pos
          (tokens-IsText (char_is b'.') name text) room

    last : Subset lists
    last = walked.live.0

    result : Store lists
    result = set_cell lists walked.target (some (record last { value = some v })) walked.final

    set_value_lem : set_value lists mem true s root (some name) (some v) ≡ some (true, result)
    unfolding set_value result last
    set_value_lem =
        let z : (walked.target == 0) ≡ false = ground (arith, walked.positive) in
        rw (set_value, walked.walks, z)
          (write_value_lem walked.final walked.target last v walked.live.1)

    result-IsStore : IsStore lists result
    unfolding result last
    result-IsStore = written-IsStore walked.final walked.target last v walked.live.1 walked.stored

    found : get_sub lists result root (some name) ≡ some walked.target
    unfolding get_sub result last
    found =
        walk_written walked.final walked.target last v walked.live.1 root
          (tokens (char_is b'.') name)
        ∙ walked.found

    get_value_at :
        (r : Store lists) (o : Bytes) (p : ℕ)
        → get_sub lists r root (some o) ≡ some p
        → get_value lists r root (some o) ≡ read_value lists r p
    unfolding get_value
    get_value_at r o p h = rw (get_value, h) refl

    -- Setting a value where memory suffices succeeds and keeps the store well formed, and the name
    -- reads as the value, whatever was set before.
    pub set_value-get_value :
        (t : Store lists) × (set_value lists mem true s root (some name) (some v) ≡ some (true, t))
        × IsStore lists t
        × (get_value lists t root (some name) ≡ some (some v))
    unfolding last result
    set_value-get_value = (
      result,
      set_value_lem,
      result-IsStore,
      get_value_at result name walked.target found
          ∙ read_same walked.final walked.target last v walked.live.1 walked.positive,
    )

    still :
        (o : Bytes) (p : ℕ)
        → IsText o
        → get_sub lists s root (some o) ≡ some p
        → 0 < p
        → get_sub lists result root (some o) ≡ some p
    unfolding get_sub result last
    still o p ho h hp =
        walk_written walked.final walked.target last v walked.live.1 root (tokens (char_is b'.') o)
        ∙ Extends-walk lists s walked.final root p (tokens (char_is b'.') o) walked.extends
            (tokens-IsText (char_is b'.') o ho) hp h

    read_before :
        (o : Bytes) (p : ℕ)
        → IsText o
        → get_sub lists s root (some o) ≡ some p
        → 0 < p
        → read_value lists walked.final p ≡ read_value lists s p
    unfolding get_sub read_value
    read_before o p ho h hp =
        let (n, l) =
          walk-IsLive lists s root p (tokens (char_is b'.') o) i live
            (tokens-IsText (char_is b'.') o ho) hp h in
        let (m, k, same, _) = walked.extends.kept p n l in rw (read_value, l, k, same) refl

    -- A name that led to a subset leads to the same one after another name is set, and its value
    -- is as before unless both names lead there.
    pub set_value-get_value_other :
        (o : Bytes) (p : ℕ)
        → IsText o
        → get_sub lists s root (some o) ≡ some p
        → 0 < p
        → (t : Store lists) × (set_value lists mem true s root (some name) (some v)
            ≡ some (true, t))
          × (get_sub lists t root (some o) ≡ some p)
          × ((get_sub lists t root (some name) ≡ some p)
              ⊎ (get_value lists t root (some o) ≡ get_value lists s root (some o)))
    unfolding last result
    set_value-get_value_other o p ho h hp =
        let f = walked.final in
        let e = walked.live.1 in
        let led : get_sub lists result root (some o) ≡ some p = still o p ho h hp in
        (
          result,
          set_value_lem,
          led,
          elim (place f walked.target last v e p) [
            | inl x ↦ inl (found ∙ ap some (sym x))
            | inr x ↦ inr (
                get_value_at result o p led
                ∙ read_other f walked.target last v e p x
                ∙ read_before o p ho h hp
                ∙ sym (get_value_at s o p h))
          ],
        )
