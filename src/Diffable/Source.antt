-- ===== src/Diffable/Source.antt =====
-- Source/NSDiffableDataSource.m, classes NSCollectionViewDiffableDataSource and
-- NSTableViewDiffableDataSource. The views are not here: what the methods ask of them is their
-- argument, and what they pass to them (index paths and rows) their result.
pub mod Paths
pub mod Rows
use libs_gui.Base.{
  ℕ, zero, suc, ◌+◌, ◌-◌, Bool, true, false, ◌&&◌, ◌||◌, List, [], ◌∷◌, Option, none, some,
  if◌then◌else◌, ltb, leb, ◌==◌, length, get_elem?, ℤ, pos, negsuc,
}
use libs_gui.Diffable.Collections.{Identifiers, Dictionary, index_of, object_for_key, set_object}
use libs_gui.Diffable.Snapshot.{
  Snapshot, empty, copy, items_in, number_of_items, number_of_sections,
}

-- An NSIndexPath, as its indexes.
abbrev pub IndexPath : Type 0
IndexPath = List ℕ

-- An NSIndexSet, as `containsIndex:`.
abbrev pub IndexSet : Type 0
IndexSet = ℕ → Bool

abbrev pub no_indexes : IndexSet
no_indexes i = false

unfoldable pub add_index : ℕ → IndexSet → IndexSet
add_index i set j = (i == j) || set j

unfoldable pub add_range : ℕ → ℕ → IndexSet → IndexSet
add_range start count set j = (leb start j && ltb j (start + count)) || set j

-- The return of a method that may raise NSRangeException.
pub data Returned (A : Type 0) : Type 0 where
  returned : A → Returned A
  range_exception : Returned A

pub record DataSource (I : Type 0) : Type 0 where
  pub snapshot : Snapshot I
  pub index_paths : Dictionary I IndexPath

-- The indexes 0 and 1 of a path, and 0 for both where it is shorter or nil.
unfoldable pub position : Option IndexPath → ℕ × ℕ
position none = (0, 0)
position (some []) = (0, 0)
position (some (i ∷ [])) = (0, 0)
position (some (i ∷ j ∷ rest)) = (i, j)

abbrev pub below : ℤ → ℕ → Bool
below (negsuc n) total = true
below (pos row) total = ltb row total

module _ {I : Type 0} ⦃e : Identifiers I⦄ where
  -- The inner loop of `_rebuildIndexLookup`, from the item `row` of the section `index`.
  unfoldable pub index_items : ℕ → ℕ → List I → Dictionary I IndexPath → Dictionary I IndexPath
  index_items index row [] d = d
  index_items index row (item ∷ rest) d =
      index_items index (suc row) rest (set_object (index ∷ row ∷ []) item d)

  unfoldable pub index_sections :
      ℕ → List I → Snapshot I → Dictionary I IndexPath → Dictionary I IndexPath
  index_sections index [] s d = d
  index_sections index (section ∷ rest) s d =
      index_sections (suc index) rest s (index_items index 0 (items_in s section) d)

  unfoldable pub rebuild_index_lookup : DataSource I → DataSource I
  rebuild_index_lookup src = record src {
    index_paths = index_sections 0 src.snapshot.sections src.snapshot [];
  }

  -- What the two init methods set up.
  unfoldable pub new_source : DataSource I
  new_source = record { snapshot = empty; index_paths = [] }

  -- Both classes have this body: the argument is not read.
  unfoldable pub apply_snapshot : Snapshot I → DataSource I → DataSource I
  apply_snapshot snapshot src = rebuild_index_lookup (record src { snapshot = empty })

  unfoldable pub snapshot_of : DataSource I → Snapshot I
  snapshot_of src = copy src.snapshot

  unfoldable pub index_path_for_item : I → DataSource I → Option IndexPath
  index_path_for_item item src = object_for_key item src.index_paths

  -- The tests of `itemIdentifierForIndexPath:` on the two indexes.
  unfoldable pub item_at : ℕ × ℕ → Snapshot I → Option I
  item_at p s = if leb (length s.sections) p.0 then none else elim (get_elem? s.sections p.0) [
    | none ↦ none
    | some section ↦
        if leb (length (items_in s section)) p.1 then none else get_elem? (items_in s section) p.1
  ]

  -- `itemIdentifierForIndexPath:` of the collection view's source, nil for a nil path.
  unfoldable pub collection_item_for_path : Option IndexPath → DataSource I → Option I
  collection_item_for_path none src = none
  collection_item_for_path (some path) src = item_at (position (some path)) src.snapshot

  -- `itemIdentifierForIndexPath:` of the table view's source.
  unfoldable pub table_item_for_path : Option IndexPath → DataSource I → Option I
  table_item_for_path path src = item_at (position path) src.snapshot

  unfoldable pub collection_number_of_sections : DataSource I → ℕ
  collection_number_of_sections src = number_of_sections src.snapshot

  -- `collectionView:numberOfItemsInSection:`.
  unfoldable pub items_in_section : ℤ → DataSource I → ℕ
  items_in_section (negsuc n) src = 0
  items_in_section (pos i) src =
      if leb (length src.snapshot.sections) i then 0 else elim (get_elem? src.snapshot.sections i) [
        | none ↦ 0
        | some section ↦ length (items_in src.snapshot section)
      ]

  -- `objectAtIndex:` at `row - total`.
  unfoldable pub local_item : ℤ → ℕ → List I → Returned (Option I)
  local_item (negsuc n) total items = range_exception
  local_item (pos row) total items =
      if ltb row total then range_exception else elim (get_elem? items (row - total)) [
        | none ↦ range_exception
        | some item ↦ returned (some item)
      ]

  -- `itemIdentifierForRow:`, over the sections that are left.
  pub item_for_row_from : ℕ → List I → ℤ → Snapshot I → Returned (Option I)
  item_for_row_from total [] row s = returned none
  item_for_row_from total (section ∷ rest) row s =
      let items = items_in s section in
      let later = item_for_row_from (total + length items) rest row s in
      if below row (total + length items) then local_item row total items else later

  unfoldable pub item_for_row : ℤ → DataSource I → Returned (Option I)
  item_for_row row src = item_for_row_from 0 src.snapshot.sections row src.snapshot

  unfoldable pub number_of_rows : DataSource I → ℕ
  number_of_rows src = number_of_items src.snapshot

  -- `reloadSectionsWithIdentifiers:` of the collection view's source: the indexes to reload.
  pub section_indexes : List I → DataSource I → IndexSet
  section_indexes [] src = no_indexes
  section_indexes (section ∷ rest) src = elim (index_of section src.snapshot.sections) [
    | none ↦ section_indexes rest src
    | some index ↦ add_index index (section_indexes rest src)
  ]

  -- `reloadItemsWithIdentifiers:` of the collection view's source: the paths to reload.
  pub item_paths : List I → DataSource I → List IndexPath
  item_paths [] src = []
  item_paths (item ∷ rest) src = elim (index_path_for_item item src) [
    | none ↦ item_paths rest src
    | some path ↦ path ∷ item_paths rest src
  ]

  -- The number of rows of the first `count` sections.
  pub rows_before : ℕ → List I → Snapshot I → ℕ
  rows_before zero sections s = 0
  rows_before (suc count) [] s = 0
  rows_before (suc count) (section ∷ rest) s =
      length (items_in s section) + rows_before count rest s

  -- `reloadSectionsWithIdentifiers:` of the table view's source: the rows to reload.
  pub section_rows : List I → DataSource I → IndexSet
  section_rows [] src = no_indexes
  section_rows (section ∷ rest) src = elim (index_of section src.snapshot.sections) [
    | none ↦ section_rows rest src
    | some index ↦
        add_range (rows_before index src.snapshot.sections src.snapshot)
          (length (items_in src.snapshot section)) (section_rows rest src)
  ]

  -- The inner loop of `reloadItemsWithIdentifiers:`, which stops at the first section with the
  -- item.
  pub row_of_item : ℕ → List I → I → Snapshot I → Option ℕ
  row_of_item total [] item s = none
  row_of_item total (section ∷ rest) item s = elim (index_of item (items_in s section)) [
    | none ↦ row_of_item (total + length (items_in s section)) rest item s
    | some index ↦ some (total + index)
  ]

  -- `reloadItemsWithIdentifiers:` of the table view's source: the rows to reload.
  pub item_rows : List I → DataSource I → IndexSet
  item_rows [] src = no_indexes
  item_rows (item ∷ rest) src = elim (row_of_item 0 src.snapshot.sections item src.snapshot) [
    | none ↦ item_rows rest src
    | some row ↦ add_index row (item_rows rest src)
  ]
