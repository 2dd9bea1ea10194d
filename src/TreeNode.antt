-- ===== src/TreeNode.antt =====
-- Source/NSTreeNode.m: tree nodes with their children and parents. Nodes are numbers in a store; the
-- children of a node change through the array of `mutableChildNodes`, class GSTreeNodeArray, which
-- keeps the parents up to date.
pub mod Links
pub mod Paths
pub mod Tests
use libs_gui.Base.{
  ℕ, zero, suc, ◌+◌, Bool, true, false, List, [], ◌∷◌, ◌++◌, Option, none, some, if◌then◌else◌, ltb,
  ◌==◌, length, get_elem?, insert_idx, erase_idx, set,
}

pub record Nodes : Type 0 where
  pub child_nodes : ℕ → List ℕ
  pub parent_node : ℕ → Option ℕ

-- A message that may raise NSRangeException.
pub data Outcome (A : Type 0) : Type 0 where
  returned : A → Outcome A
  range_exception : Outcome A

abbrev pub assign {ℓ} : {A : Type ℓ} → (ℕ → A) → ℕ → A → ℕ → A
assign f x a y = if x == y then a else f y

-- `initWithRepresentedObject:` for every node.
abbrev pub new_nodes : Nodes
new_nodes = record { child_nodes = λ x. []; parent_node = λ x. none }

-- `_setParentNode:`
unfoldable pub set_parent : ℕ → Option ℕ → Nodes → Nodes
set_parent x p s = record s { parent_node = assign s.parent_node x p }

unfoldable pub set_children : ℕ → List ℕ → Nodes → Nodes
set_children p l s = record s { child_nodes = assign s.child_nodes p l }

-- `addObject:`
unfoldable pub add_child : ℕ → ℕ → Nodes → Nodes
add_child p x s = set_parent x (some p) (set_children p (s.child_nodes p ++ (x ∷ [])) s)

-- `replaceObjectAtIndex:withObject:`
unfoldable pub replace_child : ℕ → ℕ → ℕ → Nodes → Outcome Nodes
replace_child p i x s = elim (get_elem? (s.child_nodes p) i) [
  | none ↦ range_exception
  | some old ↦
      returned
        (set_parent x (some p) (set_children p (set (s.child_nodes p) i x) (set_parent old none s)))
]

-- `insertObject:atIndex:`
unfoldable pub insert_child : ℕ → ℕ → ℕ → Nodes → Outcome Nodes
insert_child p x i s =
    if ltb (length (s.child_nodes p)) i
    then range_exception
    else returned (set_parent x (some p) (set_children p (insert_idx (s.child_nodes p) i x) s))

-- `removeObjectAtIndex:`
unfoldable pub remove_child : ℕ → ℕ → Nodes → Outcome Nodes
remove_child p i s = elim (get_elem? (s.child_nodes p) i) [
  | none ↦ range_exception
  | some old ↦ returned (set_children p (erase_idx (s.child_nodes p) i) (set_parent old none s))
]

-- `descendantNodeAtIndexPath:`
unfoldable pub descendant : Nodes → ℕ → List ℕ → Outcome ℕ
descendant s node [] = returned node
descendant s node (i ∷ path) = elim (get_elem? (s.child_nodes node) i) [
  | none ↦ range_exception
  | some child ↦ descendant s child path
]

unfoldable pub index_of_node : ℕ → List ℕ → Option ℕ
index_of_node x [] = none
index_of_node x (y ∷ l) =
    let rest = index_of_node x l in
    if y == x then some 0 else elim rest [ none ↦ none | some i ↦ some (suc i) ]

-- `indexPath`, which calls itself at the parent: `none` where the fuel does not reach the root, or
-- where a parent does not have the node, for NSNotFound.
unfoldable pub index_path : ℕ → Nodes → ℕ → Option (List ℕ)
index_path zero s node = none
index_path (suc fuel) s node = elim (s.parent_node node) [
  | none ↦ some []
  | some parent ↦ elim (index_of_node node (s.child_nodes parent)) [
    | none ↦ none
    | some i ↦ elim (index_path fuel s parent) [ none ↦ none | some path ↦ some (path ++ (i ∷ [])) ]
  ]
]

unfoldable pub is_leaf : Nodes → ℕ → Bool
is_leaf s node = length (s.child_nodes node) == 0
