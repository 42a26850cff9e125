-- ===== src/ListHead.antt =====
-- What the code uses of the linked lists of utils/list.h, a copy of the Linux kernel's: the calls
-- are a parameter, with their documented behaviour. An entry that a loop stands at is named by its
-- position in the list.
use holyhttp.Prelude.{ℕ, ◌≡◌, refl, List, [], ◌∷◌, ◌++◌, remove_at}

pub record ListHead (A : Type 0) : Type 1 where
  -- A list's head.
  pub Head : Type 0
  -- `INIT_LIST_HEAD`
  pub init : Head
  -- `list_add_tail`
  pub add_tail : A → Head → Head
  -- `list_del` of the entry at a position
  pub del : ℕ → Head → Head
  -- The entries that `list_for_each_entry` and `list_for_each_entry_safe` visit, in order.
  pub items : Head → List A
  pub items-init : items init ≡ []
  pub items-add_tail : (a : A) (h : Head) → items (add_tail a h) ≡ items h ++ a ∷ []
  pub items-del : (i : ℕ) (h : Head) → items (del i h) ≡ remove_at i (items h)

-- Plain lists meet the assumptions.
abbrev pub plain_lists : (A : Type 0) → ListHead A
plain_lists A = record {
  Head = List A;
  init = [];
  add_tail = λ a h. h ++ a ∷ [];
  del = remove_at;
  items = λ h. h;
  items-init = refl;
  items-add_tail = λ a h. refl;
  items-del = λ i h. refl;
}
