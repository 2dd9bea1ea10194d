-- ===== src/Diffable/Source/Rows.antt =====
-- Source/NSDiffableDataSource.m: the rows of the table view against the items of the snapshot.
use libs_gui.Base.{
  ℕ, zero, suc, ◌+◌, ◌-◌, ◌≤◌, ◌<◌, ◌≡◌, refl, Bool, true, false, ◌&&◌, ◌||◌, ◌==◌, List, [], ◌∷◌,
  ◌++◌, Option, none, some, arith, if◌then◌else◌, ltb, leb, length, get_elem?, Option-cases, inl,
  inr, pos,
}
use libs_gui.Diffable.Collections.{
  Identifiers, contains, index_of, has, Distinct, index_of-contains,
}
use libs_gui.Diffable.Snapshot.{Snapshot, items_in, items_of, item_identifiers}
use libs_gui.Diffable.Source.{
  DataSource, returned, add_index, add_range, local_item, item_for_row_from, item_for_row,
  rows_before, section_rows, row_of_item, item_rows,
}

module _ {I : Type 0} ⦃e : Identifiers I⦄ where
  get_elem?-append :
      (xs ys : List I) (i : ℕ)
      → get_elem? (xs ++ ys) i
        ≡ (if ltb i (length xs) then get_elem? xs i else get_elem? ys (i - length xs))
  get_elem?-append [] ys i = ground arith
  get_elem?-append (x ∷ xs) ys zero = ground arith
  get_elem?-append (x ∷ xs) ys (suc i) = ground (arith, get_elem?-append xs ys i)

  get_elem?_lt : (xs : List I) (i : ℕ) → i < length xs → has (get_elem? xs i) ≡ true
  get_elem?_lt [] i h = ground arith
  get_elem?_lt (x ∷ xs) zero h = refl
  get_elem?_lt (x ∷ xs) (suc i) h = ground (arith, get_elem?_lt xs i)

  item_for_row_from_lem :
      (total : ℕ) (rest : List I) (row : ℕ) (s : Snapshot I)
      → total ≤ row
      → item_for_row_from total rest (pos row) s
        ≡ returned (get_elem? (items_of rest s) (row - total))
  unfolding item_for_row_from items_of local_item
  item_for_row_from_lem total [] row s h = refl
  item_for_row_from_lem total (x ∷ rest) row s h = ground (
    arith,
    get_elem?-append (items_in s x) (items_of rest s) (row - total),
    get_elem?_lt (items_in s x) (row - total),
    item_for_row_from_lem (total + length (items_in s x)) rest row s,
  )

  -- The rows of the table view are the items of the snapshot in their order: for a row that is not
  -- negative, `itemIdentifierForRow:` never raises, and returns the item there, or nil from the
  -- number of items on.
  pub item_for_row_lem :
      (row : ℕ) (src : DataSource I)
      → item_for_row (pos row) src ≡ returned (get_elem? (item_identifiers src.snapshot) row)
  unfolding item_for_row item_identifiers
  item_for_row_lem row src =
      ground (arith, item_for_row_from_lem 0 src.snapshot.sections row src.snapshot (omega arith))

  index_of-append :
      (x : I) (xs ys : List I)
      → index_of x (xs ++ ys) ≡ elim (index_of x xs) [
        | some i ↦ some i
        | none ↦ elim (index_of x ys) [ none ↦ none | some i ↦ some (length xs + i) ]
      ]
  unfolding index_of
  index_of-append x [] ys = ground arith
  index_of-append x (y ∷ xs) ys = ground (arith, index_of-append x xs ys)

  row_of_item_from :
      (total : ℕ) (rest : List I) (item : I) (s : Snapshot I)
      → row_of_item total rest item s
        ≡ elim (index_of item (items_of rest s)) [ none ↦ none | some i ↦ some (total + i) ]
  unfolding row_of_item items_of index_of
  row_of_item_from total [] item s = refl
  row_of_item_from total (x ∷ rest) item s = ground (
    arith,
    index_of-append item (items_in s x) (items_of rest s),
    row_of_item_from (total + length (items_in s x)) rest item s,
  )

  -- Whether the row is the first with one of the given items.
  unfoldable pub is_first_of : List I → List I → ℕ → Bool
  is_first_of [] l row = false
  is_first_of (item ∷ rest) l row =
      elim (index_of item l) [ none ↦ false | some i ↦ i == row ] || is_first_of rest l row

  -- The rows that `reloadItemsWithIdentifiers:` reloads in the table view are those at which one of
  -- the given items is first found in all the items of the snapshot.
  pub item_rows_lem :
      (items : List I) (src : DataSource I) (row : ℕ)
      → item_rows items src row ≡ is_first_of items (item_identifiers src.snapshot) row
  unfolding item_rows is_first_of item_identifiers add_index
  item_rows_lem [] src row = refl
  item_rows_lem (x ∷ items) src row =
      ground (
        arith,
        item_rows_lem items src row,
        row_of_item_from 0 src.snapshot.sections x src.snapshot,
      )

  -- The section that has the row.
  unfoldable pub section_of_row : List I → Snapshot I → ℕ → Option I
  section_of_row [] s row = none
  section_of_row (x ∷ rest) s row =
      let later = section_of_row rest s (row - length (items_in s x)) in
      if ltb row (length (items_in s x)) then some x else later

  unfoldable pub is_in : List I → Option I → Bool
  is_in l none = false
  is_in l (some x) = contains x l

  section_of_row_in :
      (rest : List I) (s : Snapshot I) (row : ℕ) (x : I)
      → section_of_row rest s row ≡ some x
      → contains x rest ≡ true
  unfolding section_of_row contains
  section_of_row_in [] s row x h = cc
  section_of_row_in (y ∷ rest) s row x h =
      ground (arith, section_of_row_in rest s (row - length (items_in s y)) x)

  -- The rows of one section.
  section_of_row_lem :
      (rest : List I) (s : Snapshot I) (row i : ℕ) (x : I)
      → Distinct rest
      → index_of x rest ≡ some i
      → (leb (rows_before i rest s) row && ltb row (rows_before i rest s + length (items_in s x)))
        ≡ is_in (x ∷ []) (section_of_row rest s row)
  unfolding section_of_row index_of is_in contains rows_before
  section_of_row_lem [] s row i x d h = cc
  section_of_row_lem (y ∷ rest) s row zero x d h =
      ground (arith, section_of_row_in rest s (row - length (items_in s y)) x)
  section_of_row_lem (y ∷ rest) s row (suc i) x d h = ground (
    arith,
    section_of_row_lem rest s (row - length (items_in s y)) i x,
    section_of_row_in rest s (row - length (items_in s y)) x,
  )

  is_in_nil : (o : Option I) → false ≡ is_in [] o
  unfolding is_in contains
  is_in_nil none = refl
  is_in_nil (some x) = refl

  is_in_cons :
      (x : I) (l : List I) (o : Option I) → is_in (x ∷ l) o ≡ (is_in (x ∷ []) o || is_in l o)
  unfolding is_in contains
  is_in_cons x l none = refl
  is_in_cons x l (some y) = ground arith

  is_in_absent :
      (x : I) (rest : List I) (s : Snapshot I) (row : ℕ)
      → contains x rest ≡ false
      → is_in (x ∷ []) (section_of_row rest s row) ≡ false
  unfolding is_in contains
  is_in_absent x rest s row h = elim (Option-cases (section_of_row rest s row)) [
    | inl none_there ↦ rw none_there refl
    | inr (y, there) ↦ ground (arith, there, section_of_row_in rest s row y there)
  ]

  -- The rows that `reloadSectionsWithIdentifiers:` reloads in the table view, where the sections of
  -- the snapshot are distinct, are those of the items of the given sections.
  pub section_rows_lem :
      (given : List I) (src : DataSource I) (row : ℕ)
      → Distinct src.snapshot.sections
      → section_rows given src row
        ≡ is_in given (section_of_row src.snapshot.sections src.snapshot row)
  unfolding section_rows add_range
  section_rows_lem [] src row d = is_in_nil (section_of_row src.snapshot.sections src.snapshot row)
  section_rows_lem (x ∷ given) src row d =
      let s = src.snapshot in
      let owner = section_of_row s.sections s row in
      elim (Option-cases (index_of x s.sections)) [
        | inl h ↦ ground (
          arith,
          h,
          section_rows_lem given src row d,
          is_in_cons x given owner,
          is_in_absent x s.sections s row,
          index_of-contains x s.sections,
        )
        | inr (i, h) ↦ ground (
          arith,
          h,
          section_rows_lem given src row d,
          is_in_cons x given owner,
          section_of_row_lem s.sections s row i x d h,
        )
      ]
