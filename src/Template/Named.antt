-- ===== src/Template/Named.antt =====
-- Templates of server/template.c over the data sets of utils/dataset.c: what `get`, `set`, `set_sp` and
-- `foreach_by` do there fills the operations that the rendering uses. Memory suffices, and what would
-- be a fault changes nothing.
use holyhttp.Prelude.{
  ℕ, suc, ◌+◌, ◌≤◌, ◌<◌, ◌^◌, ◌≡◌, refl, ◌≢◌, List, [], ◌∷◌, ◌++◌, Option, none, some, true, false,
  Bytes, IsText, length, All, ap, sym, subst, ◌∙◌, take, append-nil,
}
use holyhttp.ListHead.{ListHead}
use holyhttp.Dict.Chain.{Kv}
use holyhttp.Dict.Typed.{set_str_ptr}
use holyhttp.Text.Tokens.{tokens, char_is, IsItem}
use holyhttp.Dataset.{
  Memory, Store, Event, on_value, on_subset, set_cell, get_value, set_value, foreach_by_name,
}
use holyhttp.Dataset.Invariant.{IsStore, IsLive}
use holyhttp.Dataset.Laws.{Plenty}
use holyhttp.Dataset.Values.{set_value-get_value}
use holyhttp.Template.{
  Compared, DataOps, Child, leaf, subset, is_name_char, value_of, for_item_name_prefix,
}
use holyhttp.Template.Pieces.{Piece, IsPiece, EndsName, pieces_text}
use holyhttp.Template.Parse.{srender_by}
use holyhttp.Template.Plain.{IsPlain, srender_by-filled}

abbrev pub all_memory : ℕ → Memory
all_memory i = record { subset = true; entry = record { key = true; value = true; entry = true } }

module _ (lists : ListHead Kv) (root : ℕ) where
  unfoldable pub value_at : Store lists → Bytes → Option Bytes
  value_at s name = elim (get_value lists s root (some name)) [ none ↦ none | some o ↦ o ]

  -- `set_sp` in the children of the root.
  unfoldable pub link_child : Store lists → Bytes → ℕ → Store lists
  link_child s name p = elim (s.cell root) [
    | none ↦ s
    | some n ↦
        set_cell lists root
          (some (record n {
            children =
                (set_str_ptr lists (record { key = true; value = true; entry = true }) n.children
                  (some name) p).1;
          }))
          s
  ]

  unfoldable pub set_child : Store lists → Bytes → Child → Store lists
  set_child s name (leaf v) = elim (set_value lists all_memory true s root (some name) (some v)) [
    | none ↦ s
    | some (ok, t) ↦ t
  ]
  set_child s name (subset p) = link_child s name p

  unfoldable pub child_of : Event lists → Child
  child_of (on_value v) = leaf v
  child_of (on_subset p) = subset p

  unfoldable pub children_at : List (Event lists) → List Child
  children_at [] = []
  children_at (e ∷ es) = child_of e ∷ children_at es

  unfoldable pub list_at : Store lists → Bytes → List Child
  list_at s name = elim (foreach_by_name lists s root (some name)) [
    | none ↦ []
    | some events ↦ children_at events
  ]

  abbrev pub dataset_ops : DataOps (Store lists)
  dataset_ops = record {
    get = value_at;
    set_item = set_child;
    unset_item = λ s name. link_child s name 0;
    children = list_at;
  }

module _ (lists : ListHead Kv) (mem : ℕ → Memory) (s t : Store lists) (root : ℕ) (name v : Bytes)
    (plenty : Plenty mem) (i : IsStore lists s) (live : IsLive lists s root) (pos : 0 < root)
    (text : IsText name) (room : s.next + length (tokens (char_is b'.') name) < 2 ^ 64)
    (set : set_value lists mem true s root (some name) (some v) ≡ some (true, t)) where
  read_back : get_value lists t root (some name) ≡ some (some v)
  read_back =
      let (u, e, _, g) = set_value-get_value lists mem s root name v plenty i live pos text room in
      let same = sym e ∙ set in
      let q : u ≡ t = cc in subst (λ w. get_value lists w root (some name) ≡ some (some v)) q g

  value_at-set : value_at lists root t name ≡ some v
  unfolding value_at
  value_at-set = rw (read_back, value_at) refl

  value_of-set :
      value_at lists root t (take 100 (for_item_name_prefix ++ name)) ≡ none
      → value_of (value_at lists root t) name ≡ some v
  unfolding value_of
  value_of-set unset = rw (value_of, unset, value_at-set) refl

  module _ (first rest : Bytes) (word : name ≢ []) (short : length name ≤ 100)
      (chars : All (λ c. is_name_char c ≡ true) name) (ends : EndsName rest)
      (plain : All (λ c. char_is b'@' c ≡ false) rest) (item : IsItem (char_is b'@') first) where
    -- A name that has been set in a data set is rendered as its value, between the texts around it,
    -- by a template without commands, when memory sufficed, no loop has an item of that name, the
    -- name is made of at most 100 characters of names with no further one behind it, and neither text
    -- has an at sign.
    pub set_value-srender_by :
        (atof : Bytes → Bytes → Compared) (fuel : ℕ)
        → value_at lists root t (take 100 (for_item_name_prefix ++ name)) ≡ none
        → IsPlain (first ++ b'@' ∷ (name ++ rest))
        → srender_by
            (Store lists)
            (dataset_ops lists root)
            atof
            (suc fuel)
            (first ++ b'@' ∷ (name ++ rest))
            t
          ≡ some (t, first ++ (v ++ rest))
    set_value-srender_by atof fuel unset k =
        let p : Piece = record { name = name; rest = rest; value = v } in
        let good : IsPiece (value_at lists root t) p = record {
          some_name = word;
          short = short;
          chars = chars;
          ends = ends;
          plain = plain;
          known = value_of-set unset;
        } in
        let full : first ++ pieces_text (p ∷ []) ≡ first ++ b'@' ∷ (name ++ rest) =
          ap (λ r. first ++ b'@' ∷ r) (append-nil (name ++ rest)) in
        ap (λ x. srender_by (Store lists) (dataset_ops lists root) atof (suc fuel) x t) (sym full)
        ∙ srender_by-filled (Store lists) (dataset_ops lists root) atof fuel t first (p ∷ []) item
            (good, tt) (subst IsPlain (sym full) k)
        ∙ ap (λ r. some (t, first ++ r)) (append-nil (v ++ rest))
