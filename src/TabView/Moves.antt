-- ===== src/TabView/Moves.antt =====
-- Source/NSTabView.m: steps to the neighbours, and the removal of the selected item.
use libs_gui.Base.{
  by_option, subst, sym, ◌∙◌, ℕ_discrete, ℕ, zero, suc, ◌+◌, ◌-◌, ◌≡◌, ◌≢◌, refl, true, false, List,
  [], ◌∷◌, Option, none, some, if◌then◌else◌, ltb, ◌==◌, length, get_elem?, erase_idx, arith,
  lt-length_of_get_elem?,
}
use libs_gui.TabView.{
  TabView, Delegate, index_of_item, put, select_item, show_item, select_after_removal, reselect,
  remove_item, select_at, index_of_selected, select_next, predecessor, select_previous,
}
use libs_gui.TabView.Selection.{is_item}

-- Each item is there once.
abbrev pub Distinct : List ℕ → Type 0
Distinct [] = Unit {0}
Distinct (x ∷ l) = (is_item (some x) l ≡ false) × Distinct l

is_item-get : (x : ℕ) (l : List ℕ) (i : ℕ) → get_elem? l i ≡ some x → is_item (some x) l ≡ true
is_item-get x [] i h = cc
is_item-get x (y ∷ l) zero h = ground arith
is_item-get x (y ∷ l) (suc i) h = ground (arith, is_item-get x l i)

true_not_false : true ≢ false
true_not_false h = cc h

index_of_item-get_elem? :
    (x : ℕ) (l : List ℕ) (i : ℕ) → Distinct l → get_elem? l i ≡ some x → index_of_item x l ≡ some i
unfolding index_of_item
index_of_item-get_elem? x [] i d h = cc
index_of_item-get_elem? x (y ∷ l) zero d h = ground arith
index_of_item-get_elem? x (y ∷ l) (suc i) d h = elim (ℕ_discrete y x) [
  | yes e ↦
      let there : is_item (some y) l ≡ true = rw e (is_item-get x l i h) in
      absurd (true_not_false (sym there ∙ d.0))
  | no n ↦
      let other : (y == x) ≡ false = ground arith in
      rw (other, index_of_item-get_elem? x l i d.1 h) refl
]

-- In a view whose items are distinct, with a delegate that allows every selection, and an item
-- other than the last one selected, `selectNextTabViewItem:` selects the item after it, and
-- `selectPreviousTabViewItem:` then the first one again.
pub select_previous-select_next :
    (d : Delegate) (v : TabView) (i x y : ℕ)
    → ((w : TabView) (o : Option ℕ) → d.should_select w o ≡ true)
    → Distinct v.items
    → v.selected ≡ some x
    → get_elem? v.items i ≡ some x
    → get_elem? v.items (i + 1) ≡ some y
    → ((select_next d v).selected ≡ some y)
      × ((select_previous d (select_next d v)).selected ≡ some x)
unfolding select_next select_previous index_of_selected select_at select_item show_item predecessor
select_previous-select_next d v i x y allows distinct sel at_i at_next =
    let at_suc : get_elem? v.items (suc i) ≡ some y = ground (arith, at_next) in
    let next_view : select_next d v ≡ show_item (some y) v = ground (
      arith,
      index_of_item-get_elem? x v.items i distinct at_i,
      lt-length_of_get_elem? v.items (suc i) at_suc,
      allows v (some y),
    ) in
    rw next_view (
      refl,
      ground (
        arith,
        index_of_item-get_elem? y v.items (suc i) distinct at_suc,
        lt-length_of_get_elem? v.items i at_i,
        allows (show_item (some y) v) (some x),
      ),
    )

index_of_item_zero : (x y : ℕ) (l : List ℕ) → index_of_item x (y ∷ l) ≡ some 0 → y ≡ x
unfolding index_of_item
index_of_item_zero x y l h = ground (arith, h)

index_of_item-suc :
    (x y : ℕ) (l : List ℕ) (i : ℕ)
    → index_of_item x (y ∷ l) ≡ some (suc i)
    → ((y == x) ≡ false) × (index_of_item x l ≡ some i)
unfolding index_of_item
index_of_item-suc x y l i h = ground (arith, h)

same_item : (x : ℕ) → (x == x) ≡ true
same_item x = ground arith

is_item-erased :
    (x : ℕ) (l : List ℕ) (i : ℕ)
    → Distinct l
    → index_of_item x l ≡ some i
    → is_item (some x) (erase_idx l i) ≡ false
unfolding index_of_item
is_item-erased x [] i d h = cc
is_item-erased x (y ∷ l) zero d h = rw (index_of_item_zero x y l h) at d.0
is_item-erased x (y ∷ l) (suc i) d h =
    let later = index_of_item-suc x y l i h in rw (later.0) (is_item-erased x l i d.1 later.1)

index_of_item-none : (x : ℕ) (l : List ℕ) → index_of_item x l ≡ none → is_item (some x) l ≡ false
unfolding index_of_item
index_of_item-none x [] h = refl
index_of_item-none x (y ∷ l) h = ground (arith, index_of_item-none x l)

reselect_refused :
    (d : Delegate) (w : TabView) (x i : ℕ)
    → ((u : TabView) (o : Option ℕ) → d.should_select u o ≡ false)
    → reselect d x i w ≡ w
unfolding reselect select_after_removal select_item
reselect_refused d w x i refuses = ground (
  arith,
  refuses w none,
  refuses w (get_elem? w.items (if ltb i (length w.items) then i else i - 1)),
)

-- Where the delegate allows no selection, `removeTabViewItem:` of the selected item of a view with
-- distinct items leaves that item selected, while it is not an item of the view any more.
pub remove_item_refused :
    (d : Delegate) (v : TabView) (x : ℕ)
    → ((w : TabView) (o : Option ℕ) → d.should_select w o ≡ false)
    → Distinct v.items
    → is_item (some x) v.items ≡ true
    → v.selected ≡ some x
    → ((remove_item d x v).selected ≡ some x) × (is_item (some x) (remove_item d x v).items ≡ false)
unfolding remove_item
remove_item_refused d v x refuses distinct there sel =
    by_option (λ (t : TabView). (t.selected ≡ some x) × (is_item (some x) t.items ≡ false))
      (index_of_item x v.items) _ _
      (λ absent. absurd (true_not_false (sym there ∙ index_of_item-none x v.items absent)))
      (λ i e.
        let w = record v { in_tab_view = put v.in_tab_view x false; items = erase_idx v.items i } in
        subst (λ u. (u.selected ≡ some x) × (is_item (some x) u.items ≡ false))
          (sym (reselect_refused d w x i refuses)) (sel, is_item-erased x v.items i distinct e))
