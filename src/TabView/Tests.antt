-- ===== src/TabView/Tests.antt =====
-- The theorems on Source/NSTabView.m at small views.
use libs_gui.Base.{◌==◌, ◌≡◌, refl, true, false, List, [], ◌∷◌, some, pos}
use libs_gui.TabView.{
  TabView, Delegate, background_tab, select_next, select_previous, remove_item, with_index,
  add_item, insert_item, select_item, show_item, set_tab_state, reselect, select_after_removal,
  select_at, index_of_item, index_of_selected, select_last, take_from_sender, select_on_draw,
  item_at_point, mouse_down,
}
use libs_gui.TabView.Selection.{is_item, IsValid}
use libs_gui.TabView.Steps.{
  Step, adding, removing, inserting, selecting, selecting_next, clicking, drawing, selecting_last,
  taking_from_sender, new_view, perform, AllOwn, perform_all, perform_all_lem,
}
use libs_gui.TabView.Moves.{select_previous-select_next, remove_item_refused}

-- No delegate, and items that are their own identifiers.
abbrev no_delegate : Delegate
no_delegate = record { should_select = λ v o. true; identifier = λ x. x }

abbrev refusing : Delegate
refusing = record { should_select = λ v o. false; identifier = λ x. x }

abbrev some_steps : List Step
some_steps =
    adding (some 4)
    ∷ adding (some 5)
    ∷ inserting (some 6) (pos 9)
    ∷ selecting_next
    ∷ removing 5
    ∷ selecting (some 4)
    ∷ selecting_last
    ∷ taking_from_sender (with_index (pos 0))
    ∷ clicking (λ x. x == 6)
    ∷ drawing
    ∷ []

abbrev three_tabs : TabView
three_tabs = record {
  items = 4 ∷ 5 ∷ 6 ∷ [];
  selected = some 5;
  tab_state = λ x. background_tab;
  in_tab_view = λ x. true;
  messages = [];
}

some_steps-AllOwn : AllOwn no_delegate some_steps new_view
unfolding AllOwn perform add_item insert_item select_item show_item set_tab_state remove_item
    reselect select_after_removal select_on_draw item_at_point mouse_down select_next select_at
    index_of_item index_of_selected select_last take_from_sender
some_steps-AllOwn =
    (refl, (refl, (refl, (refl, (refl, (refl, (refl, (refl, (refl, (refl, tt))))))))))

perform_all_lem_example : IsValid (perform_all no_delegate some_steps new_view)
perform_all_lem_example = perform_all_lem no_delegate (λ v o h. cc h) some_steps some_steps-AllOwn

select_previous-select_next_example :
    ((select_next no_delegate three_tabs).selected ≡ some 6)
    × ((select_previous no_delegate (select_next no_delegate three_tabs)).selected ≡ some 5)
select_previous-select_next_example =
    select_previous-select_next no_delegate three_tabs 1 5 6 (λ w o. refl)
      (refl, (refl, (refl, tt))) refl refl refl

remove_item_refused_example :
    ((remove_item refusing 5 three_tabs).selected ≡ some 5)
    × (is_item (some 5) (remove_item refusing 5 three_tabs).items ≡ false)
remove_item_refused_example =
    remove_item_refused refusing three_tabs 5 (λ w o. refl) (refl, (refl, (refl, tt))) refl refl
