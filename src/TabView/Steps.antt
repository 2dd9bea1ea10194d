-- ===== src/TabView/Steps.antt =====
-- Source/NSTabView.m: any sequence of the methods, and what single ones do to the selection.
use libs_gui.Base.{
  by_option, ℕ, ◌+◌, ◌≡◌, refl, true, false, List, [], ◌∷◌, Option, none, some, if◌then◌else◌, Bool,
  ltb, arith, ◌==◌, length, erase_idx, ℤ, pos, Bool-cases, inl, inr,
}
use libs_gui.TabView.{
  background_tab, TabView, Result, done, raised, Delegate, index_of_item, put, insert_item,
  add_item, select_after_removal, reselect, remove_item, select_item, select_at, select_first,
  last_item, select_last, index_of_selected, select_next, predecessor, select_previous,
  index_with_identifier, select_with_identifier, Sender, sender_index, take_from_sender,
  select_on_draw, item_at_point, is_selected, mouse_down,
}
use libs_gui.TabView.Selection.{
  is_item, IsMarked, IsPatient, IsValid, ReturnsValid, select_item-IsValid, select_at-IsValid,
  insert_item-IsValid, select_after_removal-IsValid, is_item-last_item, is_item-erase_idx,
}

-- The methods of a tab view that change its items or its selection, with their arguments.
pub data Step : Type 0 where
  inserting : Option ℕ → ℤ → Step
  adding : Option ℕ → Step
  removing : ℕ → Step
  selecting_at : ℤ → Step
  selecting : Option ℕ → Step
  selecting_first selecting_last selecting_next selecting_previous : Step
  selecting_with_identifier : ℕ → Step
  taking_from_sender : Sender → Step
  drawing : Step
  clicking : (ℕ → Bool) → Step

unfoldable pub perform : Delegate → Step → TabView → Result
perform d (inserting o i) v = insert_item d o i v
perform d (adding o) v = add_item d o v
perform d (removing x) v = done (remove_item d x v)
perform d (selecting_at i) v = done (select_at d i v)
perform d (selecting o) v = done (select_item d o v)
perform d selecting_first v = done (select_first d v)
perform d selecting_last v = done (select_last d v)
perform d selecting_next v = done (select_next d v)
perform d selecting_previous v = done (select_previous d v)
perform d (selecting_with_identifier k) v = done (select_with_identifier d k v)
perform d (taking_from_sender sender) v = done (take_from_sender d sender v)
perform d drawing v = done (select_on_draw d v)
perform d (clicking in_tab) v = done (mouse_down d in_tab v)

-- The view after a method, an exception included.
abbrev pub view_of : Result → TabView
view_of (done v) = v
view_of (raised v) = v

unfoldable pub perform_all : Delegate → List Step → TabView → TabView
perform_all d [] v = v
perform_all d (s ∷ steps) v = perform_all d steps (view_of (perform d s v))

-- Whether the item that `selectTabViewItem:` is to select, if any, is one of the items of the view by then.
abbrev pub is_own : Step → TabView → Bool
is_own (selecting o) v = is_item o v.items
is_own (inserting o i) v = true
is_own (adding o) v = true
is_own (removing x) v = true
is_own (selecting_at i) v = true
is_own selecting_first v = true
is_own selecting_last v = true
is_own selecting_next v = true
is_own selecting_previous v = true
is_own (selecting_with_identifier k) v = true
is_own (taking_from_sender sender) v = true
is_own drawing v = true
is_own (clicking in_tab) v = true

-- Each `selectTabViewItem:` of a sequence has one of the items that the view has when its turn comes.
unfoldable pub AllOwn : Delegate → List Step → TabView → Type 0
AllOwn d [] v = Unit {0}
AllOwn d (s ∷ steps) v = (is_own s v ≡ true) × AllOwn d steps (view_of (perform d s v))

abbrev pub new_view : TabView
new_view = record {
  items = [];
  selected = none;
  tab_state = λ x. background_tab;
  in_tab_view = λ x. false;
  messages = [];
}

is_item-item_at_point :
    (in_tab : ℕ → Bool) (l : List ℕ) (x : ℕ)
    → item_at_point in_tab l ≡ some x
    → is_item (some x) l ≡ true
unfolding item_at_point
is_item-item_at_point in_tab [] x h = cc
is_item-item_at_point in_tab (y ∷ l) x h = ground (arith, is_item-item_at_point in_tab l x)

module _ (d : Delegate) (p : IsPatient d) where
  reselect-IsValid :
      (x i : ℕ) (v : TabView)
      → IsMarked v
      → ((s : ℕ) → v.selected ≡ some s → (x == s) ≡ false → is_item (some s) v.items ≡ true)
      → IsValid (reselect d x i v)
  unfolding reselect
  reselect-IsValid x i v m h =
      by_option IsValid v.selected v (λ s. if x == s then select_after_removal d i v else v)
        (λ e. record { marked = m; shown = rw e refl })
        (λ s e. elim (Bool-cases (x == s)) [
          | inl same ↦ rw same (select_after_removal-IsValid d i v p m)
          | inr other ↦ rw other (record { marked = m; shown = rw e (h s e other) })
        ])

  remove_item-IsValid : (x : ℕ) (v : TabView) → IsValid v → IsValid (remove_item d x v)
  unfolding remove_item
  remove_item-IsValid x v h =
      by_option IsValid (index_of_item x v.items) _ _ (λ _. h)
        (λ i there.
          let r =
            reselect-IsValid x i
              (record v { in_tab_view = put v.in_tab_view x false; items = erase_idx v.items i })
              h.marked
              (λ s e other. is_item-erase_idx x s v.items i there other (rw e at h.shown)) in
          record { marked = r.marked; shown = r.shown })

  select_on_draw-IsValid : (v : TabView) → IsValid v → IsValid (select_on_draw d v)
  unfolding select_on_draw select_first
  select_on_draw-IsValid v h =
      by_option IsValid v.selected _ _
        (λ _. elim (Bool-cases (ltb 0 (length v.items))) [
          | inl some_item ↦ rw some_item (select_at-IsValid d (pos 0) v p h)
          | inr no_item ↦ rw no_item h
        ])
        (λ s _. h)

  mouse_down-IsValid :
      (in_tab : ℕ → Bool) (v : TabView) → IsValid v → IsValid (mouse_down d in_tab v)
  unfolding mouse_down
  mouse_down-IsValid in_tab v h =
      by_option IsValid (item_at_point in_tab v.items) _ _ (λ _. h)
        (λ x there. elim (Bool-cases (is_selected v.selected x)) [
          | inl old ↦ rw old h
          | inr new ↦ rw new (
              select_item-IsValid d (some x) v p (is_item-item_at_point in_tab v.items x there)
                h.marked)
        ])

  perform-IsValid :
      (step : Step) (v : TabView)
      → is_own step v ≡ true
      → IsValid v
      → ReturnsValid (perform d step v)
  unfolding perform add_item select_first select_last select_next select_previous
      select_with_identifier take_from_sender
  perform-IsValid (inserting o i) v own h = insert_item-IsValid d o i v p h
  perform-IsValid (adding o) v own h = insert_item-IsValid d o (pos (length v.items)) v p h
  perform-IsValid (removing x) v own h = remove_item-IsValid x v h
  perform-IsValid (selecting_at i) v own h = select_at-IsValid d i v p h
  perform-IsValid (selecting o) v own h = select_item-IsValid d o v p own h.marked
  perform-IsValid selecting_first v own h = select_at-IsValid d (pos 0) v p h
  perform-IsValid selecting_last v own h =
      select_item-IsValid d (last_item v.items) v p (is_item-last_item v.items) h.marked
  perform-IsValid selecting_next v own h =
      by_option IsValid (index_of_selected v) _ _ (λ _. h)
        (λ i _. select_at-IsValid d (pos (i + 1)) v p h)
  perform-IsValid selecting_previous v own h =
      by_option IsValid (index_of_selected v) _ _ (λ _. h)
        (λ i _. select_at-IsValid d (predecessor i) v p h)
  perform-IsValid (selecting_with_identifier k) v own h =
      by_option IsValid (index_with_identifier d k v.items) _ _
        (λ _. select_item-IsValid d none v p refl h.marked)
        (λ i _. select_at-IsValid d (pos i) v p h)
  perform-IsValid (taking_from_sender sender) v own h =
      select_at-IsValid d (sender_index sender) v p h
  perform-IsValid drawing v own h = select_on_draw-IsValid v h
  perform-IsValid (clicking in_tab) v own h = mouse_down-IsValid in_tab v h

  view_of-IsValid : (r : Result) → ReturnsValid r → IsValid (view_of r)
  view_of-IsValid (done v) h = h
  view_of-IsValid (raised v) h = h

  perform_all-IsValid :
      (steps : List Step) (v : TabView)
      → AllOwn d steps v
      → IsValid v
      → IsValid (perform_all d steps v)
  unfolding perform_all AllOwn
  perform_all-IsValid [] v own h = h
  perform_all-IsValid (s ∷ steps) v own h =
      perform_all-IsValid steps (view_of (perform d s v)) own.1
        (view_of-IsValid (perform d s v) (perform-IsValid s v own.0 h))

  -- With a delegate that refuses a selection only while the selected item is one of the items, every
  -- sequence of the methods on a new view, exceptions included, in which `selectTabViewItem:` is
  -- called only for nil or one of the items that the view has then, leaves a view whose selected
  -- item, if any, is one of the items, and is the only item in the selected state.
  pub perform_all_lem :
      (steps : List Step) → AllOwn d steps new_view → IsValid (perform_all d steps new_view)
  perform_all_lem steps own =
      perform_all-IsValid steps new_view own (record { marked = λ x. refl; shown = refl })
