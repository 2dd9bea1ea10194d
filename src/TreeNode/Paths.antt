-- ===== src/TreeNode/Paths.antt =====
-- Source/NSTreeNode.m: `indexPath` against `descendantNodeAtIndexPath:`.
use libs_gui.Base.{
  Bool-cases, ℕ, suc, ◌≡◌, refl, true, List, [], ◌∷◌, ◌++◌, none, some, ◌==◌, get_elem?, arith,
  Option-cases, inl, inr,
}
use libs_gui.TreeNode.{Nodes, returned, descendant, index_of_node, index_path}
use libs_gui.TreeNode.Links.{has_node, IsLinked}

-- The number of parents above a node, up to the root.
pub data Above (s : Nodes) (root : ℕ) : ℕ → ℕ → Type 0 where
  at_root : s.parent_node root ≡ none → Above s root 0 root
  below : (n p x : ℕ) → s.parent_node x ≡ some p → Above s root n p → Above s root (suc n) x

index_of_node_lem :
    (x : ℕ) (l : List ℕ)
    → has_node x l ≡ true
    → (i : ℕ) × (index_of_node x l ≡ some i) × (get_elem? l i ≡ some x)
unfolding index_of_node
index_of_node_lem x [] h = cc
index_of_node_lem x (y ∷ l) h = elim (Bool-cases (y == x)) [
  | inl same ↦ (0, rw same refl, ground (arith, same))
  | inr other ↦
      let r = index_of_node_lem x l (rw other at h) in (suc r.0, rw (other, r.1) refl, r.2)
]

descendant-append :
    (s : Nodes) (root p x i : ℕ) (path : List ℕ)
    → descendant s root path ≡ returned p
    → get_elem? (s.child_nodes p) i ≡ some x
    → descendant s root (path ++ (i ∷ [])) ≡ returned x
unfolding descendant
descendant-append s root p x i [] h g = ground (arith, h, g)
descendant-append s root p x i (j ∷ path) h g =
    elim (Option-cases (get_elem? (s.child_nodes root) j)) [
      | inl e ↦ cc (rw (descendant, e) at h)
      | inr (c, e) ↦
          rw (descendant, e) (descendant-append s c p x i path (rw (descendant, e) at h) g)
    ]

-- Where each node that has a parent is one of its children, `indexPath` of a node that is `n`
-- parents below a root returns, after `n` calls of itself, a path, and from the root
-- `descendantNodeAtIndexPath:` with that path returns the node.
pub descendant-index_path :
    (s : Nodes) (root n x : ℕ)
    → IsLinked s
    → Above s root n x
    → (path : List ℕ) × (index_path (suc n) s x ≡ some path) × (descendant s root path ≡ returned x)
unfolding index_path descendant
descendant-index_path s root _ _ h (at_root e) = ([], rw (index_path, e) refl, refl)
descendant-index_path s root _ _ h (below n p x e a) =
    let r = descendant-index_path s root n p h a in
    let k = index_of_node_lem x (s.child_nodes p) (h x p e) in
    (
      r.0 ++ (k.0 ∷ []),
      rw (index_path, e, k.1, r.1) refl,
      descendant-append s root p x k.0 r.0 r.2 k.2,
    )
