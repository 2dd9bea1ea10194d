-- ===== src/Diffable/Snapshot.antt =====
-- Source/NSDiffableDataSource.m, class NSDiffableDataSourceSnapshot. The arrays of items are owned
-- by the dictionary, one to a section, so a change of an array is a new value of its key. A missing
-- identifier (nil) is `none` where the code allows for it.
pub mod Valid
pub mod Reached
pub mod Order
pub mod Items
pub mod Append
use libs_gui.Base.{
  ℕ, zero, suc, ◌+◌, ◌-◌, Bool, true, false, List, [], ◌∷◌, ◌++◌, Option, none, some, if◌then◌else◌,
  ltb, length, take, drop, insert_idx, erase_idx,
}
use libs_gui.Diffable.Collections.{
  Identifiers, Dictionary, contains, index_of, remove_object, object_for_key, set_object,
  remove_key,
}

pub record Snapshot (I : Type 0) : Type 0 where
  pub sections : List I
  pub items_by_section : Dictionary I (List I)

-- A method that may raise NSRangeException, with the snapshot as it is by then.
pub data SnapshotResult (I : Type 0) : Type 0 where
  done raised : Snapshot I → SnapshotResult I

abbrev pub or_nil {ℓ} : {A : Type ℓ} → Option (List A) → List A
or_nil none = []
or_nil (some l) = l

abbrev pub get_last : {A : Type 0} → List A → Option A
get_last [] = none
get_last (x ∷ []) = some x
get_last (x ∷ y ∷ l) = get_last (y ∷ l)

module _ {I : Type 0} ⦃e : Identifiers I⦄ where
  abbrev pub empty : Snapshot I
  empty = record { sections = []; items_by_section = [] }

  unfoldable pub section_identifiers : Snapshot I → List I
  section_identifiers s = s.sections

  unfoldable pub index_for_section : I → Snapshot I → Option ℕ
  index_for_section section s = index_of section s.sections

  -- `itemIdentifiersInSectionWithIdentifier:`
  unfoldable pub items_in : Snapshot I → I → List I
  items_in s section = or_nil (object_for_key section s.items_by_section)

  -- `itemIdentifiers`, over the sections that are left.
  unfoldable pub items_of : List I → Snapshot I → List I
  items_of [] s = []
  items_of (section ∷ rest) s = items_in s section ++ items_of rest s

  unfoldable pub item_identifiers : Snapshot I → List I
  item_identifiers s = items_of s.sections s

  unfoldable pub number_of_sections : Snapshot I → ℕ
  number_of_sections s = length s.sections

  pub count_items : List I → Snapshot I → ℕ
  count_items [] s = 0
  count_items (section ∷ rest) s = length (items_in s section) + count_items rest s

  unfoldable pub number_of_items : Snapshot I → ℕ
  number_of_items s = count_items s.sections s

  -- `copyWithZone:` copies the items of the sections only.
  pub copy_items : List I → Snapshot I → Dictionary I (List I) → Dictionary I (List I)
  copy_items [] s d = d
  copy_items (section ∷ rest) s d =
      copy_items rest s (elim (object_for_key section s.items_by_section) [
        | none ↦ d
        | some items ↦ set_object items section d
      ])

  unfoldable pub copy : Snapshot I → Snapshot I
  copy s = record { sections = s.sections; items_by_section = copy_items s.sections s [] }

  unfoldable pub or_default : Option I → I
  or_default none = e.default_section
  or_default (some section) = section

  unfoldable pub ensure_section : Option I → Snapshot I → Snapshot I
  unfolding or_default
  ensure_section identifier s =
      let section = or_default identifier in
      record {
        sections = if contains section s.sections then s.sections else s.sections ++ (section ∷ []);
        items_by_section = elim (object_for_key section s.items_by_section) [
          | none ↦ set_object [] section s.items_by_section
          | some items ↦ s.items_by_section
        ];
      }

  unfoldable pub append_sections : List I → Snapshot I → Snapshot I
  append_sections [] s = s
  append_sections (section ∷ rest) s = append_sections rest (ensure_section (some section) s)

  -- The loop of the two `insertSectionsWithIdentifiers:` methods.
  pub insert_sections_at : ℕ → List I → Snapshot I → Snapshot I
  insert_sections_at index [] s = s
  insert_sections_at index (section ∷ rest) s =
      let next : Snapshot I = insert_sections_at (suc index) rest (record {
        sections = insert_idx s.sections index section;
        items_by_section = set_object [] section s.items_by_section;
      }) in
      let same = insert_sections_at index rest s in
      if contains section s.sections then same else next

  unfoldable pub insert_sections_before : List I → I → Snapshot I → Snapshot I
  insert_sections_before new section s = elim (index_of section s.sections) [
    | none ↦ insert_sections_at (length s.sections) new s
    | some index ↦ insert_sections_at index new s
  ]

  unfoldable pub insert_sections_after : List I → I → Snapshot I → Snapshot I
  insert_sections_after new section s = elim (index_of section s.sections) [
    | none ↦ append_sections new s
    | some index ↦ insert_sections_at (index + 1) new s
  ]

  pub delete_sections : List I → Snapshot I → Snapshot I
  delete_sections [] s = s
  delete_sections (section ∷ rest) s = delete_sections rest (record {
    sections = remove_object section s.sections;
    items_by_section = remove_key section s.items_by_section;
  })

  -- `insertObject:atIndex:` raises NSRangeException past the end of the array: `none`.
  unfoldable pub insert_object : I → ℕ → List I → Option (List I)
  insert_object a i l = if ltb (length l) i then none else some (insert_idx l i a)

  -- The common part of the two `moveSectionWithIdentifier:` methods, with the place in which the
  -- section goes, counted from that of the other one.
  -- `insertObject:atIndex:` into the sections that the removal has left, which stay where it raises.
  unfoldable pub put_section : Snapshot I → Option (List I) → SnapshotResult I
  put_section s none = raised s
  put_section s (some sections) = done (record s { sections = sections })

  unfoldable pub move_section : ℕ → I → I → Snapshot I → SnapshotResult I
  move_section place section other s = elim (index_of section s.sections) [
    | none ↦ done s
    | some from ↦ elim (index_of other s.sections) [
      | none ↦ done s
      | some to ↦
          let s' = record s { sections = erase_idx s.sections from } in
          let to' = if ltb from to then to - 1 else to in
          put_section s' (insert_object section (to' + place) s'.sections)
    ]
  ]

  unfoldable pub move_section_before : I → I → Snapshot I → SnapshotResult I
  unfolding move_section
  move_section_before = move_section 0

  unfoldable pub move_section_after : I → I → Snapshot I → SnapshotResult I
  unfolding move_section
  move_section_after = move_section 1

  unfoldable pub append_items_into : List I → Option I → Snapshot I → Snapshot I
  append_items_into items identifier s =
      let s' = ensure_section identifier s in
      let section = or_default identifier in
      record s' {
        items_by_section = set_object (items_in s' section ++ items) section s'.items_by_section;
      }

  unfoldable pub append_items : List I → Snapshot I → Snapshot I
  append_items items s = elim (get_last s.sections) [
    | none ↦
        append_items_into items (some e.default_section)
          (append_sections (e.default_section ∷ []) s)
    | some section ↦ append_items_into items (some section) s
  ]

  -- `_findItemIdentifier:inSection:index:`, over the sections that are left.
  pub find_in : List I → I → Snapshot I → Option (I × ℕ)
  find_in [] item s = none
  find_in (section ∷ rest) item s = elim (index_of item (items_in s section)) [
    | none ↦ find_in rest item s
    | some index ↦ some (section, index)
  ]

  unfoldable pub find_item : I → Snapshot I → Option (I × ℕ)
  find_item item s = find_in s.sections item s

  -- `insertObjects:atIndexes:` with the indexes from `i` on.
  unfoldable pub insert_objects : List I → ℕ → List I → List I
  insert_objects new i l = take i l ++ (new ++ drop i l)

  -- The common part of the two `insertItemsWithIdentifiers:` methods.
  unfoldable pub insert_items : ℕ → List I → I → Snapshot I → Snapshot I
  insert_items place [] item s = s
  insert_items place (x ∷ new) item s = elim (find_item item s) [
    | none ↦ append_items (x ∷ new) s
    | some (section, index) ↦ record s {
      items_by_section =
          set_object (insert_objects (x ∷ new) (index + place) (items_in s section)) section
            s.items_by_section;
    }
  ]

  unfoldable pub insert_items_before : List I → I → Snapshot I → Snapshot I
  unfolding insert_items
  insert_items_before = insert_items 0

  unfoldable pub insert_items_after : List I → I → Snapshot I → Snapshot I
  unfolding insert_items
  insert_items_after = insert_items 1

  unfoldable pub delete_item : I → Snapshot I → Snapshot I
  delete_item item s = elim (find_item item s) [
    | none ↦ s
    | some (section, index) ↦
        if ltb index (length (items_in s section))
        then record s {
          items_by_section =
              set_object (erase_idx (items_in s section) index) section s.items_by_section;
        }
        else s
  ]

  pub delete_items : List I → Snapshot I → Snapshot I
  delete_items [] s = s
  delete_items (item ∷ rest) s = delete_items rest (delete_item item s)
