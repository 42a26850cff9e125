-- ===== src/Dataset.antt =====
-- utils/dataset.c: a tree of subsets, each a dictionary from names to the addresses of its children and
-- perhaps a value. Names are paths with dots between the items. Memory is explicit: a subset that is
-- not allocated, or is freed, has no cell, and reading it is a fault.
pub mod Invariant
pub mod Laws
pub mod Values
use mathlib.Core.Option
use holyhttp.Prelude.{
  ℕ, zero, suc, ◌+◌, ◌≡◌, List, [], ◌∷◌, Option, none, some, if◌then◌else◌, ◌==◌, ◌&&◌, Bool, true,
  false, Bytes, codes, map,
}
use holyhttp.ListHead.{ListHead}
use holyhttp.Tlv.{tlvptr}
use holyhttp.Dict.Chain.{Kv}
use holyhttp.Dict.{Dict, fresh, dict_init, dict_foreach}
use holyhttp.Dict.Typed.{Allocs, set_str_ptr, get_str_ptr}
use holyhttp.Text.Tokens.{tokens, char_is}
use holyhttp.Packet.{split_pair}

-- What can be allocated while one item of a name is handled: the new subset and its entry.
pub record Memory : Type 0 where
  pub subset : Bool
  pub entry : Allocs

module _ (lists : ListHead Kv) where
  -- `data_subset_t`.
  pub record Subset : Type 0 where
    pub children : Dict lists
    pub value : Option Bytes

  -- `next` is the address that `malloc` gives next; 0 is the null pointer.
  pub record Store : Type 0 where
    pub next : ℕ
    pub cell : ℕ → Option Subset

  unfoldable pub set_cell : ℕ → Option Subset → Store → Store
  set_cell p n s = record s { cell = λ q. if q == p then n else s.cell q }

  unfoldable pub empty_subset : Subset
  empty_subset = record { children = fresh lists; value = none }

  unfoldable pub new_subset : Store → Store
  unfolding set_cell empty_subset
  new_subset s = record (set_cell s.next (some empty_subset) s) { next = s.next + 1 }

  -- The loop of `get_sub`: `none` is a fault, and `some 0` the null pointer. The keys that look-ups
  -- make are allocated.
  unfoldable pub get_walk : Store → ℕ → List Bytes → Option ℕ
  get_walk s sub [] = some sub
  get_walk s sub (item ∷ items) = elim (s.cell sub) [
    | none ↦ none
    | some n ↦
        let pos = get_str_ptr lists true n.children (some item) in
        let rest = get_walk s pos items in if pos == 0 then some 0 else rest
  ]

  -- The copy of the name that `strtok_r` cuts is allocated.
  unfoldable pub get_sub : Store → ℕ → Option Bytes → Option ℕ
  unfolding get_walk
  get_sub s root none = some 0
  get_sub s root (some name) = get_walk s root (tokens (char_is b'.') name)

  unfoldable pub read_value : Store → ℕ → Option (Option Bytes)
  read_value s p =
      if p == 0 then some none else elim (s.cell p) [ none ↦ none | some n ↦ some n.value ]

  unfoldable pub get_value : Store → ℕ → Option Bytes → Option (Option Bytes)
  unfolding get_sub read_value
  get_value s root name = elim (get_sub s root name) [ none ↦ none | some p ↦ read_value s p ]

  -- A new subset and its entry in `sub`, whose `set_sp` may fail unnoticed.
  unfoldable pub add_child : Allocs → Store → ℕ → Subset → Bytes → Store
  unfolding new_subset set_cell
  add_child a s sub n item =
      set_cell sub
        (some (record n { children = (set_str_ptr lists a n.children (some item) s.next).1 }))
        (new_subset s)

  -- The loop of `set_value`; `mem i` is the memory for the `i`-th item. The result is the store with
  -- the subset, or with the null pointer where `new_subset` fails.
  unfoldable pub set_walk : (ℕ → Memory) → ℕ → Store → ℕ → List Bytes → Option (Store × ℕ)
  unfolding add_child
  set_walk mem i s sub [] = some (s, sub)
  set_walk mem i s sub (item ∷ items) = elim (s.cell sub) [
    | none ↦ none
    | some n ↦
        let pos = get_str_ptr lists true n.children (some item) in
        let known = set_walk mem (i + 1) s pos items in
        let made = set_walk mem (i + 1) (add_child (mem i).entry s sub n item) s.next items in
        if pos == 0 then if (mem i).subset then made else some (s, 0) else known
  ]

  -- The old value is freed; `alloc` says whether the copy of the new one can be allocated.
  unfoldable pub write_value : Bool → Store → ℕ → Bytes → Option (Bool × Store)
  unfolding set_cell
  write_value alloc s p value = elim (s.cell p) [
    | none ↦ none
    | some n ↦
        some (alloc, set_cell p (some (record n { value = if alloc then some value else none })) s)
  ]

  unfoldable pub set_value :
      (ℕ → Memory) → Bool → Store → ℕ → Option Bytes → Option Bytes → Option (Bool × Store)
  unfolding set_walk write_value
  set_value mem alloc s root none value = some (false, s)
  set_value mem alloc s root (some name) none = some (false, s)
  set_value mem alloc s root (some name) (some value) =
      elim (set_walk mem 0 s root (tokens (char_is b'.') name)) [
        | none ↦ none
        | some (s', p) ↦ if p == 0 then some (false, s') else write_value alloc s' p value
      ]

  -- The loop of `set_batch`: `key=val`, where the value may be absent. Memory suffices.
  unfoldable pub set_pairs : Store → ℕ → List Bytes → Option Store
  set_pairs s root [] = some s
  set_pairs s root (pair ∷ pairs) =
      elim (set_value
        (λ i. record { subset = true; entry = record { key = true; value = true; entry = true } })
        true s root (some (split_pair pair).0) (some (split_pair pair).1)) [
          | none ↦ none
          | some (ok, s') ↦ set_pairs s' root pairs
        ]

  unfoldable pub set_batch : Store → ℕ → Option Bytes → (ℕ → Bool) → Option (Bool × Store)
  unfolding set_pairs tokens
  set_batch s root none is_separator = some (false, s)
  set_batch s root (some nvs) is_separator = elim (set_pairs s root (tokens is_separator nvs)) [
    | none ↦ none
    | some s' ↦ some (true, s')
  ]

  -- `_free_each_child` over the entries: each child is cleared and freed.
  unfoldable pub free_each : (Store → ℕ → Option Store) → Store → List Kv → Option Store
  unfolding set_cell
  free_each clear s [] = some s
  free_each clear s (kv ∷ kvs) =
      let p = tlvptr (some kv.value) in
      let skipped = free_each clear s kvs in
      let freed : Option Store = elim (clear s p) [
        | none ↦ none
        | some s' ↦ free_each clear (set_cell p none s') kvs
      ] in
      if p == 0 then skipped else freed

  -- `holy_dict_init` at the end of `clear_sub_values`.
  unfoldable pub reset_children : Store → ℕ → Option Store
  unfolding set_cell
  reset_children s p = elim (s.cell p) [
    | none ↦ none
    | some n ↦ some (set_cell p (some (record n { children = dict_init lists n.children })) s)
  ]

  -- `clear_sub_values`, on fuel for the depth of the tree; without fuel the result is `none` too.
  unfoldable pub clear_sub : ℕ → Store → ℕ → Option Store
  unfolding free_each reset_children set_cell
  clear_sub zero s p = none
  clear_sub (suc fuel) s p = elim (s.cell p) [
    | none ↦ none
    | some n ↦
        elim (free_each (clear_sub fuel) (set_cell p (some (record n { value = none })) s)
          (dict_foreach lists n.children)) [ none ↦ none | some s' ↦ reset_children s' p ]
  ]

  -- What the handler of `foreach_by` gets for a child: its value, or the child itself.
  pub data Event : Type 0 where
    on_value : Bytes → Event
    on_subset : ℕ → Event

  unfoldable pub events_of : Store → List Kv → Option (List Event)
  events_of s [] = some []
  events_of s (kv ∷ kvs) =
      let p = tlvptr (some kv.value) in
      let rest = events_of s kvs in
      if p == 0 then rest else elim (s.cell p) [
        | none ↦ none
        | some n ↦ Option.map (◌∷◌ (elim n.value [ none ↦ on_subset p | some v ↦ on_value v ])) rest
      ]

  unfoldable pub foreach_by_name : Store → ℕ → Option Bytes → Option (List Event)
  foreach_by_name s root name = elim (get_sub s root name) [
    | none ↦ none
    | some p ↦
        if p == 0
        then some []
        else elim (s.cell p) [ none ↦ none | some n ↦ events_of s (dict_foreach lists n.children) ]
  ]
