-- ===== src/Text/Tokens.antt =====
-- `foreach_item_in_str` of utils/string.h: the items that `strtok_r` cuts a string into, the
-- longest runs without a delimiter.
use holyhttp.Prelude.{
  ℕ, ◌≡◌, refl, ◌≢◌, List, [], ◌∷◌, ◌++◌, if◌then◌else◌, ◌==◌, Bool, true, false, Bytes, All,
  All-append, Bool-cases, inl, inr, append-nil, append_assoc, ◌∙◌, ap, sym,
}

-- An item that ends here, if there is one.
unfoldable pub flush : Bytes → List Bytes → List Bytes
flush [] items = items
flush (c ∷ w) items = (c ∷ w) ∷ items

-- `w` is the part of the current item that has been read.
unfoldable pub tokens_from : (ℕ → Bool) → Bytes → Bytes → List Bytes
unfolding flush
tokens_from is_delim w [] = flush w []
tokens_from is_delim w (c ∷ s) =
    let ended = flush w (tokens_from is_delim [] s) in
    let longer = tokens_from is_delim (w ++ c ∷ []) s in if is_delim c then ended else longer

unfoldable pub tokens : (ℕ → Bool) → Bytes → List Bytes
unfolding tokens_from
tokens is_delim s = tokens_from is_delim [] s

-- The delimiter set of one character.
abbrev pub char_is : ℕ → ℕ → Bool
char_is d c = c == d

-- An item has a character, and none of its characters is a delimiter.
abbrev pub IsItem : (ℕ → Bool) → Bytes → Type 0
IsItem is_delim w = (w ≢ []) × All (λ c. is_delim c ≡ false) w

module _ (is_delim : ℕ → Bool) where
  flush-All :
      (w : Bytes) (items : List Bytes)
      → All (λ c. is_delim c ≡ false) w
      → All (IsItem is_delim) items
      → All (IsItem is_delim) (flush w items)
  unfolding flush
  flush-All [] items h k = k
  flush-All (c ∷ w) items h k = (((λ e. cc), h), k)

  tokens_from-All :
      (w s : Bytes)
      → All (λ c. is_delim c ≡ false) w
      → All (IsItem is_delim) (tokens_from is_delim w s)
  unfolding tokens_from
  tokens_from-All w [] h = flush-All w [] h tt
  tokens_from-All w (c ∷ s) h = elim (Bool-cases (is_delim c)) [
    | inl d ↦ rw d (flush-All w _ h (tokens_from-All [] s tt))
    | inr n ↦ rw n (tokens_from-All (w ++ c ∷ []) s (All-append _ w (c ∷ []) h (n, tt)))
  ]

  -- No item is empty or holds a delimiter.
  pub tokens-IsItem : (s : Bytes) → All (IsItem is_delim) (tokens is_delim s)
  unfolding tokens
  tokens-IsItem s = tokens_from-All [] s tt

  tokens_from_word :
      (w v s : Bytes)
      → All (λ c. is_delim c ≡ false) v
      → tokens_from is_delim w (v ++ s) ≡ tokens_from is_delim (w ++ v) s
  unfolding tokens_from
  tokens_from_word w [] s h = rw (append-nil w)
  tokens_from_word w (c ∷ v) s h = rw (h.0) (
      tokens_from_word (w ++ c ∷ []) v s h.1
      ∙ ap (λ (l : Bytes). tokens_from is_delim l s) (append_assoc w (c ∷ []) v))

  flush_item : (w : Bytes) (items : List Bytes) → w ≢ [] → flush w items ≡ w ∷ items
  unfolding flush
  flush_item [] items h = absurd (h refl)
  flush_item (c ∷ w) items h = refl

  -- An item in front of a delimiter is the first of the items.
  pub tokens-item :
      (w : Bytes) (d : ℕ) (s : Bytes)
      → IsItem is_delim w
      → is_delim d ≡ true
      → tokens is_delim (w ++ d ∷ s) ≡ w ∷ tokens is_delim s
  unfolding tokens tokens_from
  tokens-item w d s item h = tokens_from_word [] w (d ∷ s) item.1 ∙ rw h (flush_item w _ item.0)

  -- A string without a delimiter is its own only item.
  pub tokens-last : (w : Bytes) → IsItem is_delim w → tokens is_delim w ≡ w ∷ []
  unfolding tokens tokens_from
  tokens-last w item =
      ap (tokens_from is_delim []) (sym (append-nil w))
      ∙ tokens_from_word [] w [] item.1
      ∙ flush_item w [] item.0

  -- A delimiter in front is passed over.
  pub tokens-delim :
      (d : ℕ) (s : Bytes) → is_delim d ≡ true → tokens is_delim (d ∷ s) ≡ tokens is_delim s
  unfolding tokens tokens_from flush
  tokens-delim d s h = rw h
