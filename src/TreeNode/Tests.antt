-- ===== src/TreeNode/Tests.antt =====
-- The theorems on Source/NSTreeNode.m at a node 0 with the child 1, which has the child 2.
use libs_gui.Base.{ℕ, ◌≡◌, refl, List, some}
use libs_gui.TreeNode.{
  Nodes, returned, new_nodes, add_child, set_parent, set_children, descendant, index_path,
}
use libs_gui.TreeNode.Links.{
  IsLinked, Reachable, fresh, after_change, adding, perform, Reachable-IsLinked,
}
use libs_gui.TreeNode.Paths.{Above, at_root, below, descendant-index_path}

abbrev chain : Nodes
chain = add_child 1 2 (add_child 0 1 new_nodes)

chain-Reachable : Reachable chain
unfolding perform
chain-Reachable =
    after_change _ (adding 1 2) chain
      (after_change new_nodes (adding 0 1) (add_child 0 1 new_nodes) fresh refl) refl

Reachable-IsLinked_example : IsLinked chain
Reachable-IsLinked_example = Reachable-IsLinked chain chain-Reachable

chain-Above : Above chain 0 2 2
unfolding add_child set_parent set_children
chain-Above = below 1 1 2 refl (below 0 0 1 refl (at_root refl))

chain-IsLinked : IsLinked chain
chain-IsLinked = Reachable-IsLinked chain chain-Reachable

descendant-index_path_example :
    (path : List ℕ) × (index_path 3 chain 2 ≡ some path) × (descendant chain 0 path ≡ returned 2)
descendant-index_path_example = descendant-index_path chain 0 2 2 chain-IsLinked chain-Above
