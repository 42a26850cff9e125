-- ===== src/RbTree.antt =====
-- What server/timer.c uses of the red-black trees of utils/rbtree.c, a copy of the Linux kernel's:
-- the calls are a parameter, with their documented behaviour. A node is named by its place: the
-- turns that lead to it, or its position in sort order.
use holyhttp.Prelude.{ℕ, ◌≡◌, refl, List, [], ◌∷◌, ◌++◌, Option, remove_at}
use mathlib.Core.List.{head?}

pub data Bin (A : Type 0) : Type 0 where
  leaf : Bin A
  node : Bin A → A → Bin A → Bin A

pub data Turn : Type 0 where
  rb_left rb_right : Turn

module _ {A : Type 0} where
  abbrev pub inorder : Bin A → List A
  inorder leaf = []
  inorder (node l a r) = inorder l ++ (a ∷ inorder r)

  -- `rb_link_node` at the null link that the turns lead to.
  abbrev pub link : List Turn → A → Bin A → Bin A
  link turns a leaf = node leaf a leaf
  link [] a (node l b r) = node l b r
  link (rb_left ∷ turns) a (node l b r) = node (link turns a l) b r
  link (rb_right ∷ turns) a (node l b r) = node l b (link turns a r)

pub record RbTree (A : Type 0) : Type 1 where
  pub Root : Type 0
  -- The nodes that a root leads to.
  pub bin : Root → Bin A
  -- `RB_ROOT`
  pub rb_root : Root
  -- `rb_link_node` followed by `rb_insert_color`
  pub insert : List Turn → A → Root → Root
  -- `rb_erase` of the node at a position in sort order
  pub erase : ℕ → Root → Root
  pub first : Root → Option A
  pub bin-rb_root : bin rb_root ≡ leaf
  -- Rebalancing keeps the order of the nodes.
  pub inorder-insert :
      (turns : List Turn) (a : A) (t : Root)
      → inorder (bin (insert turns a t)) ≡ inorder (link turns a (bin t))
  pub inorder-erase : (i : ℕ) (t : Root) → inorder (bin (erase i t)) ≡ remove_at i (inorder (bin t))
  pub first-inorder : (t : Root) → first t ≡ head? (inorder (bin t))

-- A tree that leans to the right, made of a list in order.
abbrev pub lean : {A : Type 0} → List A → Bin A
lean [] = leaf
lean (a ∷ as') = node leaf a (lean as')

pub inorder-lean : {A : Type 0} (as' : List A) → inorder (lean as') ≡ as'
inorder-lean [] = refl
inorder-lean (a ∷ as') = λ i. a ∷ inorder-lean as' i

-- Trees that are never rebalanced, and rebuilt on removal, meet the assumptions.
abbrev pub plain_trees : (A : Type 0) → RbTree A
plain_trees A = record {
  Root = Bin A;
  bin = λ t. t;
  rb_root = leaf;
  insert = link;
  erase = λ i t. lean (remove_at i (inorder t));
  first = λ t. head? (inorder t);
  bin-rb_root = refl;
  inorder-insert = λ turns a t. refl;
  inorder-erase = λ i t. inorder-lean (remove_at i (inorder t));
  first-inorder = λ t. refl;
}
