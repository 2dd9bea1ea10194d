-- ===== src/TabView/Selection.antt =====
-- Source/NSTabView.m: the selected item is one of the items, and the only one in the selected state.
use libs_gui.Base.{
  ℕ, zero, suc, ◌-◌, ◌≡◌, refl, Bool, true, false, List, [], ◌∷◌, Option, none, some, if◌then◌else◌,
  ltb, leb, ◌==◌, length, get_elem?, insert_idx, erase_idx, ℤ, pos, negsuc, arith, Bool-cases,
  Option-cases, inl, inr,
}
use libs_gui.TabView.{
  TabState, background_tab, selected_tab, TabView, Result, done, raised, Delegate, index_of_item,
  set_tab_state, put, show_item, select_item, insert_item, select_after_removal, select_at,
  last_item,
}

abbrev pub is_item : Option ℕ → List ℕ → Bool
is_item none l = true
is_item (some x) [] = false
is_item (some x) (y ∷ l) = if y == x then true else is_item (some x) l

is_item-get_elem? : (l : List ℕ) (i : ℕ) → is_item (get_elem? l i) l ≡ true
is_item-get_elem? [] i = refl
is_item-get_elem? (x ∷ l) zero = ground arith
is_item-get_elem? (x ∷ l) (suc i) = elim (Option-cases (get_elem? l i)) [
  | inl h ↦ rw h refl
  | inr (y, h) ↦ ground (arith, h, is_item-get_elem? l i)
]

is_item-insert_idx :
    (o : Option ℕ) (l : List ℕ) (i x : ℕ) → is_item o l ≡ true → is_item o (insert_idx l i x) ≡ true
is_item-insert_idx none l i x h = refl
is_item-insert_idx (some y) l zero x h = ground arith
is_item-insert_idx (some y) [] (suc i) x h = ground arith
is_item-insert_idx (some y) (z ∷ l) (suc i) x h = ground (arith, is_item-insert_idx (some y) l i x)

is_item-inserted : (l : List ℕ) (i x : ℕ) → is_item (some x) (insert_idx l i x) ≡ true
is_item-inserted l zero x = ground arith
is_item-inserted [] (suc i) x = ground arith
is_item-inserted (z ∷ l) (suc i) x = ground (arith, is_item-inserted l i x)

-- The removal of one item keeps every other one.
pub is_item-erase_idx :
    (x y : ℕ) (l : List ℕ) (i : ℕ)
    → index_of_item x l ≡ some i
    → (x == y) ≡ false
    → is_item (some y) l ≡ true
    → is_item (some y) (erase_idx l i) ≡ true
unfolding index_of_item
is_item-erase_idx x y [] i h n m = cc
is_item-erase_idx x y (z ∷ l) zero h n m = ground arith
is_item-erase_idx x y (z ∷ l) (suc i) h n m = ground (arith, is_item-erase_idx x y l i)

pub is_item-last_item : (l : List ℕ) → is_item (last_item l) l ≡ true
is_item-last_item [] = refl
is_item-last_item (x ∷ []) = ground arith
is_item-last_item (x ∷ y ∷ l) = elim (Option-cases (last_item (y ∷ l))) [
  | inl h ↦ rw h refl
  | inr (z, h) ↦ ground (arith, h, is_item-last_item (y ∷ l))
]

abbrev pub shows : TabState → Bool
shows background_tab = false
shows selected_tab = true

abbrev pub holds : Option ℕ → ℕ → Bool
holds none x = false
holds (some y) x = y == x

-- The selected item is the only one in the selected state.
abbrev pub IsMarked : TabView → Type 0
IsMarked v = (x : ℕ) → shows (v.tab_state x) ≡ holds v.selected x

abbrev pub IsShown : TabView → Type 0
IsShown v = is_item v.selected v.items ≡ true

-- A delegate that refuses a selection only while the selected item is one of the items.
abbrev pub IsPatient : Delegate → Type 0
IsPatient d = (v : TabView) (o : Option ℕ) → d.should_select v o ≡ false → IsShown v

show_item-IsMarked : (o : Option ℕ) (v : TabView) → IsMarked v → IsMarked (show_item o v)
unfolding show_item set_tab_state
show_item-IsMarked o v h x = ground (arith, h x)

-- Both properties.
pub record IsValid (v : TabView) : Type 0 where
  pub marked : IsMarked v
  pub shown : IsShown v

abbrev pub ReturnsValid : Result → Type 0
ReturnsValid (done v) = IsValid v
ReturnsValid (raised v) = IsValid v

module _ (d : Delegate) where
  pub select_item-IsMarked :
      (o : Option ℕ) (v : TabView) → IsMarked v → IsMarked (select_item d o v)
  unfolding select_item
  select_item-IsMarked o v h = elim (Bool-cases (d.should_select v o)) [
    | inl yes_it ↦ rw yes_it (show_item-IsMarked o v h)
    | inr no_it ↦ rw no_it h
  ]

  select_item-IsShown :
      (o : Option ℕ) (v : TabView)
      → IsPatient d
      → is_item o v.items ≡ true
      → IsShown (select_item d o v)
  unfolding select_item show_item
  select_item-IsShown o v p h = elim (Bool-cases (d.should_select v o)) [
    | inl yes_it ↦ rw yes_it h
    | inr no_it ↦ rw no_it (p v o no_it)
  ]

  pub select_item-IsValid :
      (o : Option ℕ) (v : TabView)
      → IsPatient d
      → is_item o v.items ≡ true
      → IsMarked v
      → IsValid (select_item d o v)
  select_item-IsValid o v p h m = record {
    marked = select_item-IsMarked o v m;
    shown = select_item-IsShown o v p h;
  }

  pub select_at-IsValid :
      (i : ℤ) (v : TabView) → IsPatient d → IsValid v → IsValid (select_at d i v)
  unfolding select_at
  select_at-IsValid (negsuc n) v p h = select_item-IsValid none v p refl h.marked
  select_at-IsValid (pos i) v p h = elim (Bool-cases (leb (length v.items) i)) [
    | inl past ↦ rw past (select_item-IsValid none v p refl h.marked)
    | inr inside ↦
        rw inside
          (select_item-IsValid (get_elem? v.items i) v p (is_item-get_elem? v.items i) h.marked)
  ]

  pub insert_item-IsValid :
      (o : Option ℕ) (i : ℤ) (v : TabView)
      → IsPatient d
      → IsValid v
      → ReturnsValid (insert_item d o i v)
  unfolding insert_item
  insert_item-IsValid none i v p h = h
  insert_item-IsValid (some x) (negsuc n) v p h = record { marked = h.marked; shown = h.shown }
  insert_item-IsValid (some x) (pos i) v p h = elim (Bool-cases (ltb (length v.items) i)) [
    | inl past ↦ rw past (record { marked = h.marked; shown = h.shown })
    | inr inside ↦
        let w : TabView = record v {
          in_tab_view = put v.in_tab_view x true;
          items = insert_idx v.items i x;
        } in
        elim (Bool-cases (length (insert_idx v.items i x) == 1)) [
          | inl one ↦
              let r = select_item-IsValid (some x) w p (is_item-inserted v.items i x) h.marked in
              rw (inside, one) (record { marked = r.marked; shown = r.shown })
          | inr more ↦
              rw (inside, more)
                (record {
                  marked = h.marked;
                  shown = is_item-insert_idx v.selected v.items i x h.shown;
                })
        ]
  ]

  pub select_after_removal-IsValid :
      (i : ℕ) (v : TabView) → IsPatient d → IsMarked v → IsValid (select_after_removal d i v)
  unfolding select_after_removal
  select_after_removal-IsValid i v p m = elim (Bool-cases (length v.items == 0)) [
    | inl empty ↦ rw empty (select_item-IsValid none v p refl m)
    | inr some_left ↦ rw some_left (
        select_item-IsValid (get_elem? v.items (if ltb i (length v.items) then i else i - 1)) v p
          (is_item-get_elem? v.items (if ltb i (length v.items) then i else i - 1)) m)
  ]
