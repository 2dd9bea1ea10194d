-- ===== src/Diffable/Source/Paths.antt =====
-- Source/NSDiffableDataSource.m: the table of index paths against the items of the snapshot.
use libs_gui.Base.{
  ℕ, suc, ◌+◌, ◌<◌, ◌≡◌, refl, true, List, [], ◌∷◌, Option, none, some, arith, if◌then◌else◌,
  length, get_elem?, lt-length_of_get_elem?,
}
use libs_gui.Diffable.Collections.{
  Identifiers, Dictionary, contains, set_object, object_for_key, object-set, has, contains-append,
}
use libs_gui.Diffable.Snapshot.{Snapshot, items_in, items_of, item_identifiers}
use libs_gui.Diffable.Source.{
  DataSource, IndexPath, position, index_items, index_sections, rebuild_index_lookup,
  apply_snapshot, index_path_for_item, item_at, collection_item_for_path, table_item_for_path,
}

module _ {I : Type 0} ⦃e : Identifiers I⦄ where
  -- Each path in the table leads to its item.
  abbrev Leads : Snapshot I → Dictionary I IndexPath → Type 0
  Leads s d =
      (item : I) (path : IndexPath)
      → object_for_key item d ≡ some path
      → item_at (position (some path)) s ≡ some item

  index_items-Leads :
      (index row : ℕ) (items : List I) (s : Snapshot I) (d : Dictionary I IndexPath)
      → ((i : ℕ) → i < length items → item_at (index, row + i) s ≡ get_elem? items i)
      → Leads s d
      → Leads s (index_items index row items d)
  unfolding index_items position
  index_items-Leads index row [] s d h l = l
  index_items-Leads index row (x ∷ items) s d h l =
      index_items-Leads index (suc row) items s (set_object (index ∷ row ∷ []) x d)
        (λ i hi. ground (arith, h (suc i)))
        (λ item path hp. elim (e.dec_eq x item) [
          | yes same ↦ ground (arith, object-set (index ∷ row ∷ []) x item d, h 0)
          | no other ↦ ground (arith, object-set (index ∷ row ∷ []) x item d, l item path)
        ])

  index_items-has :
      (index row : ℕ) (items : List I) (d : Dictionary I IndexPath) (item : I)
      → has (object_for_key item (index_items index row items d))
        ≡ (if contains item items then true else has (object_for_key item d))
  unfolding index_items contains
  index_items-has index row [] d item = refl
  index_items-has index row (x ∷ items) d item = ground (
    arith,
    index_items-has index (suc row) items (set_object (index ∷ row ∷ []) x d) item,
    object-set (index ∷ row ∷ []) x item d,
  )

  item_at_lem :
      (s : Snapshot I) (index : ℕ) (section : I) (i : ℕ)
      → get_elem? s.sections index ≡ some section
      → i < length (items_in s section)
      → item_at (index, i) s ≡ get_elem? (items_in s section) i
  unfolding item_at
  item_at_lem s index section i h hi = ground (arith, lt-length_of_get_elem? s.sections index h)

  index_sections-Leads :
      (index : ℕ) (rest : List I) (s : Snapshot I) (d : Dictionary I IndexPath)
      → ((i : ℕ) → i < length rest → get_elem? s.sections (index + i) ≡ get_elem? rest i)
      → Leads s d
      → Leads s (index_sections index rest s d)
  unfolding index_sections
  index_sections-Leads index [] s d h l = l
  index_sections-Leads index (x ∷ rest) s d h l =
      index_sections-Leads (suc index) rest s (index_items index 0 (items_in s x) d)
        (λ i hi. ground (arith, h (suc i)))
        (index_items-Leads index 0 (items_in s x) s d
          (λ i hi. ground (arith, item_at_lem s index x i, h 0)) l)

  index_sections-has :
      (index : ℕ) (rest : List I) (s : Snapshot I) (d : Dictionary I IndexPath) (item : I)
      → has (object_for_key item (index_sections index rest s d))
        ≡ (if contains item (items_of rest s) then true else has (object_for_key item d))
  unfolding index_sections items_of contains
  index_sections-has index [] s d item = refl
  index_sections-has index (x ∷ rest) s d item = ground (
    arith,
    index_sections-has (suc index) rest s (index_items index 0 (items_in s x) d) item,
    index_items-has index 0 (items_in s x) d item,
    contains-append item (items_in s x) (items_of rest s),
  )

  -- After `_rebuildIndexLookup`, `itemIdentifierForIndexPath:` in both classes is the inverse of
  -- `indexPathForItemIdentifier:`: the path of an item leads to that item.
  pub index_path-item :
      (src : DataSource I) (item : I) (path : IndexPath)
      → index_path_for_item item (rebuild_index_lookup src) ≡ some path
      → (collection_item_for_path (some path) (rebuild_index_lookup src) ≡ some item)
        × (table_item_for_path (some path) (rebuild_index_lookup src) ≡ some item)
  unfolding index_path_for_item rebuild_index_lookup collection_item_for_path table_item_for_path
      object_for_key
  index_path-item src item path h =
      let at =
        index_sections-Leads 0 src.snapshot.sections src.snapshot [] (λ i hi. ground arith)
          (λ j p hp. cc hp) item path h in
      (at, at)

  -- After `_rebuildIndexLookup`, an identifier has an index path exactly if it is one of the items
  -- of the snapshot.
  pub index_path_for_item-has :
      (src : DataSource I) (item : I)
      → has (index_path_for_item item (rebuild_index_lookup src))
        ≡ contains item (item_identifiers src.snapshot)
  unfolding index_path_for_item rebuild_index_lookup item_identifiers object_for_key
  index_path_for_item-has src item =
      ground (arith, index_sections-has 0 src.snapshot.sections src.snapshot [] item)

  -- After `applySnapshot:`, with any snapshot, no index path has an item in either class, and no
  -- item an index path.
  pub apply_snapshot_lem :
      (snapshot : Snapshot I) (src : DataSource I) (path : Option IndexPath) (item : I)
      → (collection_item_for_path path (apply_snapshot snapshot src) ≡ none)
        × (table_item_for_path path (apply_snapshot snapshot src) ≡ none)
        × (index_path_for_item item (apply_snapshot snapshot src) ≡ none)
  unfolding apply_snapshot rebuild_index_lookup collection_item_for_path table_item_for_path item_at
      index_path_for_item index_sections object_for_key
  apply_snapshot_lem snapshot src none item = ground arith
  apply_snapshot_lem snapshot src (some path) item = ground arith
