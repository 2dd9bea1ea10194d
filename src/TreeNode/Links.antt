-- ===== src/TreeNode/Links.antt =====
-- Source/NSTreeNode.m: a node with a parent is one of its children.
use libs_gui.Base.{
  subst, sym, ℕ, zero, suc, ◌≡◌, Bool, true, false, List, [], ◌∷◌, ◌++◌, none, some, if◌then◌else◌,
  ltb, ◌==◌, length, get_elem?, insert_idx, erase_idx, set, arith, by_option, Bool-cases, inl, inr,
}
use libs_gui.TreeNode.{
  Nodes, Outcome, returned, range_exception, assign, new_nodes, set_parent, set_children, add_child,
  replace_child, insert_child, remove_child,
}

abbrev pub has_node : ℕ → List ℕ → Bool
has_node x [] = false
has_node x (y ∷ l) = if y == x then true else has_node x l

-- What a list keeps of the nodes of another one, but for one node that may go.
has_node-append : (x y : ℕ) (l : List ℕ) → has_node x l ≡ true → has_node x (l ++ (y ∷ [])) ≡ true
has_node-append x y [] h = cc
has_node-append x y (z ∷ l) h = ground (arith, has_node-append x y l)

has_node-last : (x : ℕ) (l : List ℕ) → has_node x (l ++ (x ∷ [])) ≡ true
has_node-last x [] = ground arith
has_node-last x (z ∷ l) = ground (arith, has_node-last x l)

has_node-insert_idx :
    (x y : ℕ) (l : List ℕ) (i : ℕ) → has_node x l ≡ true → has_node x (insert_idx l i y) ≡ true
has_node-insert_idx x y l zero h = ground arith
has_node-insert_idx x y [] (suc i) h = cc
has_node-insert_idx x y (z ∷ l) (suc i) h = ground (arith, has_node-insert_idx x y l i)

has_node-inserted : (x : ℕ) (l : List ℕ) (i : ℕ) → has_node x (insert_idx l i x) ≡ true
has_node-inserted x l zero = ground arith
has_node-inserted x [] (suc i) = ground arith
has_node-inserted x (z ∷ l) (suc i) = ground (arith, has_node-inserted x l i)

has_node-erase_idx :
    (x old : ℕ) (l : List ℕ) (i : ℕ)
    → get_elem? l i ≡ some old
    → (old == x) ≡ false
    → has_node x l ≡ true
    → has_node x (erase_idx l i) ≡ true
has_node-erase_idx x old [] i g n h = cc
has_node-erase_idx x old (z ∷ l) zero g n h = ground arith
has_node-erase_idx x old (z ∷ l) (suc i) g n h = ground (arith, has_node-erase_idx x old l i)

has_node-set :
    (x old y : ℕ) (l : List ℕ) (i : ℕ)
    → get_elem? l i ≡ some old
    → (old == x) ≡ false
    → has_node x l ≡ true
    → has_node x (set l i y) ≡ true
has_node-set x old y [] i g n h = cc
has_node-set x old y (z ∷ l) zero g n h = ground arith
has_node-set x old y (z ∷ l) (suc i) g n h = ground (arith, has_node-set x old y l i)

has_node-put :
    (y old : ℕ) (l : List ℕ) (i : ℕ) → get_elem? l i ≡ some old → has_node y (set l i y) ≡ true
has_node-put y old [] i g = cc
has_node-put y old (z ∷ l) zero g = ground arith
has_node-put y old (z ∷ l) (suc i) g = ground (arith, has_node-put y old l i)

abbrev pub IsLinked : Nodes → Type 0
IsLinked s = (x p : ℕ) → s.parent_node x ≡ some p → has_node x (s.child_nodes p) ≡ true

same_node : (x y : ℕ) → (x == y) ≡ true → x ≡ y
same_node x y h = ground (arith, h)

assign_here : {A : Type 0} (f : ℕ → A) (x : ℕ) (a : A) → assign f x a x ≡ a
assign_here f x a = ground arith

some_injective : (p q : ℕ) → some p ≡ some q → p ≡ q
some_injective p q h = ground (arith, h)

-- New children of a node, with one among them that it is now the parent of.
set_both-IsLinked :
    (p x : ℕ) (l : List ℕ) (s : Nodes)
    → ((y : ℕ) → s.parent_node y ≡ some p → has_node y l ≡ true)
    → has_node x l ≡ true
    → IsLinked s
    → IsLinked (set_parent x (some p) (set_children p l s))
unfolding set_parent set_children
set_both-IsLinked p x l s keeps there h y q e = elim (Bool-cases (x == y)) [
  | inl same ↦
      let to_q : p ≡ q = some_injective p q (rw same at e) in
      subst (λ z. has_node z (assign s.child_nodes p l q) ≡ true) (same_node x y same)
        (subst (λ z. has_node x (assign s.child_nodes p l z) ≡ true) to_q
          (rw (assign_here s.child_nodes p l) there))
  | inr other ↦
      let parent : s.parent_node y ≡ some q = rw other at e in
      elim (Bool-cases (p == q)) [
        | inl same ↦ rw same (keeps y (rw (sym (same_node p q same)) at parent))
        | inr apart ↦ rw apart (h y q parent)
      ]
]

-- A node that has no parent any more, and children of another one without it.
set_none-IsLinked :
    (p old : ℕ) (l : List ℕ) (s : Nodes)
    → ((y : ℕ) → (old == y) ≡ false → s.parent_node y ≡ some p → has_node y l ≡ true)
    → IsLinked s
    → IsLinked (set_children p l (set_parent old none s))
unfolding set_parent set_children
set_none-IsLinked p old l s keeps h y q e = elim (Bool-cases (old == y)) [
  | inl same ↦ cc (rw same at e)
  | inr other ↦
      let parent : s.parent_node y ≡ some q = rw other at e in
      elim (Bool-cases (p == q)) [
        | inl same ↦ rw same (keeps y other (rw (sym (same_node p q same)) at parent))
        | inr apart ↦ rw apart (h y q parent)
      ]
]

add_child-IsLinked : (p x : ℕ) (s : Nodes) → IsLinked s → IsLinked (add_child p x s)
unfolding add_child
add_child-IsLinked p x s h =
    set_both-IsLinked p x (s.child_nodes p ++ (x ∷ [])) s
      (λ y e. has_node-append y x (s.child_nodes p) (h y p e)) (has_node-last x (s.child_nodes p)) h

abbrev pub ReturnsLinked : Outcome Nodes → Type 0
ReturnsLinked (returned s) = IsLinked s
ReturnsLinked range_exception = Unit {0}

insert_child-IsLinked : (p x i : ℕ) (s : Nodes) → IsLinked s → ReturnsLinked (insert_child p x i s)
unfolding insert_child
insert_child-IsLinked p x i s h = elim (Bool-cases (ltb (length (s.child_nodes p)) i)) [
  | inl past ↦ rw past tt
  | inr inside ↦ rw inside (
      set_both-IsLinked p x (insert_idx (s.child_nodes p) i x) s
        (λ y e. has_node-insert_idx y x (s.child_nodes p) i (h y p e))
        (has_node-inserted x (s.child_nodes p) i) h)
]

remove_child-IsLinked : (p i : ℕ) (s : Nodes) → IsLinked s → ReturnsLinked (remove_child p i s)
unfolding remove_child
remove_child-IsLinked p i s h =
    by_option ReturnsLinked (get_elem? (s.child_nodes p) i) _ _ (λ _. tt)
      (λ old g.
        set_none-IsLinked p old (erase_idx (s.child_nodes p) i) s
          (λ y other e. has_node-erase_idx y old (s.child_nodes p) i g other (h y p e)) h)

orphan-IsLinked : (old : ℕ) (s : Nodes) → IsLinked s → IsLinked (set_parent old none s)
unfolding set_parent
orphan-IsLinked old s h y q e = elim (Bool-cases (old == y)) [
  | inl same ↦ cc (rw same at e)
  | inr other ↦ h y q (rw other at e)
]

orphan_keeps :
    (old y p : ℕ) (s : Nodes)
    → (set_parent old none s).parent_node y ≡ some p
    → ((old == y) ≡ false) × (s.parent_node y ≡ some p)
unfolding set_parent
orphan_keeps old y p s e = elim (Bool-cases (old == y)) [
  | inl same ↦ cc (rw same at e)
  | inr other ↦ (other, rw other at e)
]

replace_child-IsLinked :
    (p i x : ℕ) (s : Nodes) → IsLinked s → ReturnsLinked (replace_child p i x s)
unfolding replace_child
replace_child-IsLinked p i x s h =
    by_option ReturnsLinked (get_elem? (s.child_nodes p) i) _ _ (λ _. tt)
      (λ old g.
        set_both-IsLinked p x (set (s.child_nodes p) i x) (set_parent old none s)
          (λ y e.
            let k = orphan_keeps old y p s e in
            has_node-set y old x (s.child_nodes p) i g k.0 (h y p k.1))
          (has_node-put x old (s.child_nodes p) i g) (orphan-IsLinked old s h))

-- The messages to the arrays of `mutableChildNodes`, with the node that each array is of.
pub data Change : Type 0 where
  adding removing_at : ℕ → ℕ → Change
  inserting_at replacing_at : ℕ → ℕ → ℕ → Change

unfoldable pub perform : Change → Nodes → Outcome Nodes
perform (adding p x) s = returned (add_child p x s)
perform (inserting_at p x i) s = insert_child p x i s
perform (replacing_at p x i) s = replace_child p i x s
perform (removing_at p i) s = remove_child p i s

-- The stores that the messages lead to from nodes without children.
pub data Reachable : Nodes → Type 0 where
  fresh : Reachable new_nodes
  after_change :
      (s : Nodes) (c : Change) (s' : Nodes) → Reachable s → perform c s ≡ returned s' → Reachable s'

perform-IsLinked : (c : Change) (s : Nodes) → IsLinked s → ReturnsLinked (perform c s)
unfolding perform
perform-IsLinked (adding p x) s h = add_child-IsLinked p x s h
perform-IsLinked (inserting_at p x i) s h = insert_child-IsLinked p x i s h
perform-IsLinked (replacing_at p x i) s h = replace_child-IsLinked p i x s h
perform-IsLinked (removing_at p i) s h = remove_child-IsLinked p i s h

-- After any messages to the arrays of `mutableChildNodes`, with any nodes, each node that has a
-- parent is one of the children of that parent.
pub Reachable-IsLinked : (s : Nodes) → Reachable s → IsLinked s
Reachable-IsLinked _ fresh = λ x p e. cc e
Reachable-IsLinked s' (after_change s c _ r h) =
    subst ReturnsLinked h (perform-IsLinked c s (Reachable-IsLinked s r))
