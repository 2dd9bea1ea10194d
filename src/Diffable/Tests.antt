-- ===== src/Diffable/Tests.antt =====
-- The theorems on Source/NSDiffableDataSource.m at a snapshot of two sections, with numbers for the
-- identifiers.
use libs_gui.Base.{
  true, false, ℕ, ◌≡◌, refl, [], ◌∷◌, ◌++◌, none, some, arith, ℕ_discrete, if◌then◌else◌, ite, pos,
  get_elem?,
}
use libs_gui.Diffable.Collections.{Identifiers, has, contains, index_of, object_for_key, set_object}
use libs_gui.Diffable.Snapshot.{
  Snapshot, empty, ensure_section, or_default, append_sections, append_items_into, append_items,
  insert_items_before, insert_items_after, delete_items, item_identifiers, items_in,
  move_section_before, move_section_after, move_section, put_section, insert_object, done,
}
use libs_gui.Diffable.Snapshot.Valid.{IsValid, IsKeyed, IsValid-IsKeyed}
use libs_gui.Diffable.Snapshot.Reached.{
  Reachable, new_snapshot, after_edit, after_exception, Reachable-IsKeyed, appending_sections,
  moving_section_after, appending_items, appending_items_into, perform,
}
use libs_gui.Diffable.Snapshot.Order.{
  place_before, place_after, moved, move_section_before_lem, move_section_after_lem,
  move_section_after_itself, exchanged, with_sections,
}
use libs_gui.Diffable.Snapshot.Items.{inserted_before, inserted_after}
use libs_gui.Diffable.Snapshot.Append.{
  append_items_lem, insert_items_before_lem, insert_items_after_lem, delete_items_lem, all_removed,
  append_items_into_lem,
}
use libs_gui.Diffable.Source.{
  DataSource, apply_snapshot, new_source, rebuild_index_lookup, index_path_for_item, index_sections,
  index_items, collection_item_for_path, table_item_for_path, item_for_row, returned, item_rows,
  section_rows,
}
use libs_gui.Diffable.Source.Paths.{index_path-item, index_path_for_item-has, apply_snapshot_lem}
use libs_gui.Diffable.Source.Rows.{
  item_for_row_lem, item_rows_lem, is_first_of, section_rows_lem, section_of_row, is_in,
}

instance abbrev number_identifiers : Identifiers ℕ
number_identifiers = record { dec_eq = ℕ_discrete; default_section = 0 }

-- The sections 1 and 2, with the items 10 and 11 in the first and 20 in the second.
abbrev two_sections : Snapshot ℕ
two_sections = record {
  sections = 1 ∷ 2 ∷ [];
  items_by_section = (1, 10 ∷ 11 ∷ []) ∷ (2, 20 ∷ []) ∷ [];
}

two_sections-Reachable : Reachable true two_sections
unfolding perform append_sections append_items_into ensure_section append_items contains ℕ_discrete
    set_object object_for_key items_in
two_sections-Reachable =
    after_edit true _ (appending_items (20 ∷ [])) two_sections
      (after_edit true _ (appending_items_into (10 ∷ 11 ∷ []) (some 1)) _
        (after_edit true empty (appending_sections (1 ∷ 2 ∷ [])) _ new_snapshot refl) refl)
      refl

-- The second section is moved after itself.
lost_section-Reachable : Reachable false (record two_sections { sections = 1 ∷ [] })
unfolding perform move_section_after move_section put_section insert_object index_of ℕ_discrete
lost_section-Reachable =
    after_exception true two_sections (moving_section_after 2 2)
      (record two_sections { sections = 1 ∷ [] }) two_sections-Reachable refl

Reachable-IsKeyed_example : IsKeyed false (record two_sections { sections = 1 ∷ [] })
Reachable-IsKeyed_example = Reachable-IsKeyed false _ lost_section-Reachable

two_sections-IsValid : IsValid two_sections
two_sections-IsValid =
    IsValid-IsKeyed two_sections (Reachable-IsKeyed true two_sections two_sections-Reachable)

move_section_before_lem_example :
    move_section_before 2 1 two_sections
    ≡ done (record two_sections { sections = moved (place_before 2 1) 2 1 two_sections.sections })
move_section_before_lem_example =
    move_section_before_lem 2 1 two_sections two_sections-IsValid (ground arith)

move_section_after_lem_example :
    move_section_after 1 2 two_sections
    ≡ done (record two_sections { sections = moved (place_after 1 2) 1 2 two_sections.sections })
move_section_after_lem_example =
    move_section_after_lem 1 2 two_sections two_sections-IsValid (ground arith)

move_section_after_itself_example :
    move_section_after 1 1 two_sections
    ≡ with_sections two_sections (2 ∷ []) (exchanged 1 [] (2 ∷ []))
unfolding contains
move_section_after_itself_example = move_section_after_itself 1 [] (2 ∷ []) two_sections refl refl

append_items_lem_example :
    item_identifiers (append_items (21 ∷ []) two_sections)
    ≡ item_identifiers two_sections ++ (21 ∷ [])
append_items_lem_example = append_items_lem (21 ∷ []) two_sections two_sections-IsValid

insert_items_before_lem_example :
    item_identifiers (insert_items_before (12 ∷ []) 11 two_sections) ≡ (
      if contains 11 (item_identifiers two_sections)
      then inserted_before (12 ∷ []) 11 (item_identifiers two_sections)
      else item_identifiers two_sections ++ (12 ∷ []))
insert_items_before_lem_example =
    insert_items_before_lem (12 ∷ []) 11 two_sections two_sections-IsValid

insert_items_after_lem_example : item_identifiers (insert_items_after (12 ∷ []) 10 two_sections) ≡ (
    if contains 10 (item_identifiers two_sections)
    then inserted_after (12 ∷ []) 10 (item_identifiers two_sections)
    else item_identifiers two_sections ++ (12 ∷ []))
insert_items_after_lem_example =
    insert_items_after_lem (12 ∷ []) 10 two_sections two_sections-IsValid

delete_items_lem_example :
    item_identifiers (delete_items (11 ∷ 20 ∷ []) two_sections)
    ≡ all_removed (11 ∷ 20 ∷ []) (item_identifiers two_sections)
delete_items_lem_example = delete_items_lem (11 ∷ 20 ∷ []) two_sections two_sections-IsValid

append_items_into_lem_example :
    items_in (append_items_into (12 ∷ []) (some 1) two_sections) 1
    ≡ ite
        (ℕ_discrete (or_default (some 1)) 1)
        (items_in two_sections 1 ++ (12 ∷ []))
        (items_in two_sections 1)
append_items_into_lem_example = append_items_into_lem (12 ∷ []) (some 1) two_sections 1

-- A source that has the snapshot installed.
abbrev two_source : DataSource ℕ
two_source = record { snapshot = two_sections; index_paths = [] }

index_path-item_example :
    (collection_item_for_path (some (0 ∷ 1 ∷ [])) (rebuild_index_lookup two_source) ≡ some 11)
    × (table_item_for_path (some (0 ∷ 1 ∷ [])) (rebuild_index_lookup two_source) ≡ some 11)
unfolding index_path_for_item rebuild_index_lookup index_sections index_items items_in
    object_for_key set_object ℕ_discrete
index_path-item_example = index_path-item two_source 11 (0 ∷ 1 ∷ []) refl

index_path_for_item-has_example :
    has (index_path_for_item 20 (rebuild_index_lookup two_source))
    ≡ contains 20 (item_identifiers two_sections)
index_path_for_item-has_example = index_path_for_item-has two_source 20

apply_snapshot_lem_example :
    (collection_item_for_path (some (0 ∷ 0 ∷ [])) (apply_snapshot two_sections new_source) ≡ none)
    × (table_item_for_path (some (0 ∷ 0 ∷ [])) (apply_snapshot two_sections new_source) ≡ none)
    × (index_path_for_item 10 (apply_snapshot two_sections new_source) ≡ none)
apply_snapshot_lem_example = apply_snapshot_lem two_sections new_source (some (0 ∷ 0 ∷ [])) 10

item_for_row_lem_example :
    item_for_row (pos 2) two_source ≡ returned (get_elem? (item_identifiers two_sections) 2)
item_for_row_lem_example = item_for_row_lem 2 two_source

item_rows_lem_example :
    item_rows (20 ∷ 10 ∷ []) two_source 2
    ≡ is_first_of (20 ∷ 10 ∷ []) (item_identifiers two_sections) 2
item_rows_lem_example = item_rows_lem (20 ∷ 10 ∷ []) two_source 2

section_rows_lem_example :
    section_rows (2 ∷ []) two_source 2
    ≡ is_in (2 ∷ []) (section_of_row two_sections.sections two_sections 2)
section_rows_lem_example = section_rows_lem (2 ∷ []) two_source 2 two_sections-IsValid.distinct
