-- ===== src/TabView.antt =====
-- Source/NSTabView.m: the items of a tab view and the selected one. An item is a number, its
-- identity. The delegate is a parameter: its answer to `tabView:shouldSelectTabViewItem:`, true
-- where it does not respond; its other messages are recorded, newest first, and the delegate does
-- not change the view while it handles one. The subviews and the responder chain are not here.
pub mod Selection
pub mod Steps
pub mod Moves
pub mod Tests
use libs_gui.Base.{
  ℕ, zero, suc, ◌+◌, ◌-◌, ◌*◌, Bool, true, false, List, [], ◌∷◌, Option, none, some, if◌then◌else◌,
  ltb, leb, ◌==◌, length, get_elem?, insert_idx, erase_idx, ℤ, pos, negsuc,
}

pub data TabState : Type 0 where
  background_tab selected_tab : TabState

pub data Message : Type 0 where
  will_select did_select : Option ℕ → Message
  did_change_number : Message

pub record TabView : Type 0 where
  pub items : List ℕ
  pub selected : Option ℕ
  pub tab_state : ℕ → TabState
  pub in_tab_view : ℕ → Bool
  pub messages : List Message

-- A method that may raise NSRangeException, with the view as it is by then.
pub data Result : Type 0 where
  done raised : TabView → Result

pub record Delegate : Type 0 where
  pub should_select : TabView → Option ℕ → Bool
  -- `identifier` of an item, compared by `isEqual:`.
  pub identifier : ℕ → ℕ

unfoldable pub index_of_item : ℕ → List ℕ → Option ℕ
index_of_item x [] = none
index_of_item x (y ∷ l) =
    let rest = index_of_item x l in
    if y == x then some 0 else elim rest [ none ↦ none | some i ↦ some (suc i) ]

abbrev pub put {ℓ} : {A : Type ℓ} → (ℕ → A) → ℕ → A → ℕ → A
put f x a y = if x == y then a else f y

-- `_setTabState:` on an item or nil.
unfoldable pub set_tab_state : TabState → Option ℕ → (ℕ → TabState) → ℕ → TabState
set_tab_state t none f = f
set_tab_state t (some x) f = put f x t

abbrev pub notify : Message → TabView → TabView
notify m v = record v { messages = m ∷ v.messages }

abbrev pub last_item : List ℕ → Option ℕ
last_item [] = none
last_item (x ∷ []) = some x
last_item (x ∷ y ∷ l) = last_item (y ∷ l)

-- `indexOfTabViewItem:` of the selected item, which finds nothing for nil.
unfoldable pub index_of_selected : TabView → Option ℕ
index_of_selected v = elim v.selected [ none ↦ none | some s ↦ index_of_item s v.items ]

unfoldable pub predecessor : ℕ → ℤ
predecessor zero = negsuc 0
predecessor (suc i) = pos i

unfoldable pub number_of_tabs : TabView → ℕ
number_of_tabs v = length v.items

-- `tabViewItemAtIndex:`, with `none` for NSRangeException.
unfoldable pub item_at_index : ℤ → TabView → Option ℕ
item_at_index (negsuc n) v = none
item_at_index (pos i) v = get_elem? v.items i

-- What `selectTabViewItem:` does once the delegate allows it.
unfoldable pub show_item : Option ℕ → TabView → TabView
show_item item v = record v {
  selected = item;
  tab_state = set_tab_state selected_tab item (set_tab_state background_tab v.selected v.tab_state);
  messages = did_select item ∷ will_select item ∷ v.messages;
}

module _ (d : Delegate) where
  -- `selectTabViewItem:`
  unfoldable pub select_item : Option ℕ → TabView → TabView
  select_item item v = if d.should_select v item then show_item item v else v

  -- `insertTabViewItem:atIndex:`, which does nothing for nil.
  unfoldable pub insert_item : Option ℕ → ℤ → TabView → Result
  insert_item none index v = done v
  insert_item (some item) (negsuc n) v =
      raised (record v { in_tab_view = put v.in_tab_view item true })
  insert_item (some item) (pos index) v =
      let w = record v { in_tab_view = put v.in_tab_view item true } in
      let x = record w { items = insert_idx w.items index item } in
      let y = if length x.items == 1 then select_item (some item) x else x in
      if ltb (length w.items) index then raised w else done (notify did_change_number y)

  unfoldable pub add_item : Option ℕ → TabView → Result
  add_item item v = insert_item item (pos (length v.items)) v

  -- The new selection where the selected item was removed from the index.
  unfoldable pub select_after_removal : ℕ → TabView → TabView
  select_after_removal i v =
      if length v.items == 0
      then select_item none v
      else select_item (get_elem? v.items (if ltb i (length v.items) then i else i - 1)) v

  unfoldable pub reselect : ℕ → ℕ → TabView → TabView
  reselect item i v = elim v.selected [
    | none ↦ v
    | some s ↦ if item == s then select_after_removal i v else v
  ]

  unfoldable pub remove_item : ℕ → TabView → TabView
  remove_item item v = elim (index_of_item item v.items) [
    | none ↦ v
    | some i ↦
        let w = record v {
          in_tab_view = put v.in_tab_view item false;
          items = erase_idx v.items i;
        } in
        notify did_change_number (reselect item i w)
  ]

  -- `selectTabViewItemAtIndex:`
  unfoldable pub select_at : ℤ → TabView → TabView
  select_at (negsuc n) v = select_item none v
  select_at (pos i) v =
      if leb (length v.items) i then select_item none v else select_item (get_elem? v.items i) v

  unfoldable pub select_first : TabView → TabView
  select_first v = select_at (pos 0) v

  unfoldable pub select_last : TabView → TabView
  select_last v = select_item (last_item v.items) v

  unfoldable pub select_next : TabView → TabView
  select_next v = elim (index_of_selected v) [ none ↦ v | some i ↦ select_at (pos (i + 1)) v ]

  unfoldable pub select_previous : TabView → TabView
  select_previous v = elim (index_of_selected v) [ none ↦ v | some i ↦ select_at (predecessor i) v ]

  unfoldable pub index_with_identifier : ℕ → List ℕ → Option ℕ
  index_with_identifier k [] = none
  index_with_identifier k (x ∷ l) =
      let rest = index_with_identifier k l in
      if d.identifier x == k then some 0 else elim rest [ none ↦ none | some i ↦ some (suc i) ]

  -- NSNotFound is past the end of every array.
  unfoldable pub select_with_identifier : ℕ → TabView → TabView
  select_with_identifier k v = elim (index_with_identifier k v.items) [
    | none ↦ select_item none v
    | some i ↦ select_at (pos i) v
  ]

-- The sender of `takeSelectedTabViewItemFromSender:`: one with `indexOfSelectedItem`, a matrix with
-- its columns and the selected row and column, or another.
pub data Sender : Type 0 where
  with_index : ℤ → Sender
  matrix : ℕ → ℤ → ℤ → Sender
  other_sender : Sender

unfoldable pub sender_index : Sender → ℤ
sender_index (with_index i) = i
sender_index (matrix columns (pos row) (pos column)) = pos (row * columns + column)
sender_index (matrix columns (pos row) (negsuc n)) = negsuc 0
sender_index (matrix columns (negsuc n) column) = negsuc 0
sender_index other_sender = negsuc 0

unfoldable pub take_from_sender : Delegate → Sender → TabView → TabView
take_from_sender d sender v = select_at d (sender_index sender) v

-- What `drawRect:` does to the selection.
unfoldable pub select_on_draw : Delegate → TabView → TabView
select_on_draw d v = elim v.selected [
  | none ↦ if ltb 0 (length v.items) then select_first d v else v
  | some s ↦ v
]

-- `tabViewItemAtPoint:`, where a function tells in which of the tabs the point is.
unfoldable pub item_at_point : (ℕ → Bool) → List ℕ → Option ℕ
item_at_point in_tab [] = none
item_at_point in_tab (x ∷ rest) =
    let later = item_at_point in_tab rest in if in_tab x then some x else later

abbrev pub is_selected : Option ℕ → ℕ → Bool
is_selected none x = false
is_selected (some s) x = x == s

-- `mouseDown:`, without the binding that it then sets.
unfoldable pub mouse_down : Delegate → (ℕ → Bool) → TabView → TabView
mouse_down d in_tab v = elim (item_at_point in_tab v.items) [
  | none ↦ v
  | some x ↦ if is_selected v.selected x then v else select_item d (some x) v
]
