-- ===== src/Diffable/Snapshot/Order.antt =====
-- Source/NSDiffableDataSource.m: where the two `moveSectionWithIdentifier:` methods put a section.
use libs_gui.Base.{
  ℕ, zero, suc, ◌+◌, ◌-◌, ◌≤◌, ◌≡◌, ◌≢◌, refl, false, List, [], ◌∷◌, ◌++◌, Option, none, some, ite,
  arith, if◌then◌else◌, ltb, length, insert_idx, erase_idx, Option-cases, inl, inr,
}
use libs_gui.Diffable.Collections.{
  Identifiers, contains, index_of, remove_object, remove_object_absent, erase_idx-index_of,
  Distinct, index_of-contains, index_of-lt,
}
use libs_gui.Diffable.Snapshot.{
  Snapshot, SnapshotResult, done, raised, insert_object, put_section, move_section,
  move_section_before, move_section_after,
}
use libs_gui.Diffable.Snapshot.Valid.{IsValid}

-- The index of the other object after a removal.
unfoldable pub shifted : ℕ → ℕ → ℕ
shifted from to = if ltb from to then to - 1 else to

module _ {I : Type 0} ⦃e : Identifiers I⦄ where
  -- A new object directly before, and directly after, the first that equals the other one.
  unfoldable pub place_before : I → I → List I → List I
  place_before x other [] = []
  place_before x other (y ∷ l) = ite (e.dec_eq y other) (x ∷ y ∷ l) (y ∷ place_before x other l)

  unfoldable pub place_after : I → I → List I → List I
  place_after x other [] = []
  place_after x other (y ∷ l) = ite (e.dec_eq y other) (y ∷ x ∷ l) (y ∷ place_after x other l)

  index_of-remove_object :
      (x other : I) (l : List I) (from to : ℕ)
      → Distinct l
      → x ≢ other
      → index_of x l ≡ some from
      → index_of other l ≡ some to
      → index_of other (remove_object x l) ≡ some (shifted from to)
  unfolding index_of remove_object shifted
  index_of-remove_object x other [] from to d n hf ht = cc
  index_of-remove_object x other (y ∷ l) zero zero d n hf ht = ground arith
  index_of-remove_object x other (y ∷ l) zero (suc to) d n hf ht =
      ground (arith, remove_object_absent x l)
  index_of-remove_object x other (y ∷ l) (suc from) zero d n hf ht = ground arith
  index_of-remove_object x other (y ∷ l) (suc from) (suc to) d n hf ht =
      ground (arith, index_of-remove_object x other l from to)

  insert_idx-index_of :
      (x other : I) (l : List I) (i : ℕ)
      → index_of other l ≡ some i
      → (insert_idx l i x ≡ place_before x other l)
        × (insert_idx l (i + 1) x ≡ place_after x other l)
  unfolding index_of place_before place_after
  insert_idx-index_of x other [] i h = cc
  insert_idx-index_of x other (y ∷ l) zero h = ground arith
  insert_idx-index_of x other (y ∷ l) (suc i) h = ground (arith, insert_idx-index_of x other l i)

  -- The sections with one of them put in its place, where both identifiers are there.
  unfoldable pub moved : (List I → List I) → I → I → List I → List I
  moved place x other l =
      if contains x l then (if contains other l then place (remove_object x l) else l) else l

  move_section_between :
      (place : ℕ) (put : List I → List I) (x other : I) (s : Snapshot I)
      → place ≤ 1
      → ((l : List I) (i : ℕ) → index_of other l ≡ some i → insert_idx l (i + place) x ≡ put l)
      → IsValid s
      → x ≢ other
      → move_section place x other s ≡ done (record s { sections = moved put x other s.sections })
  unfolding move_section put_section moved insert_object shifted
  move_section_between place put x other s hp h v n = elim (Option-cases (index_of x s.sections)) [
    | inl hx ↦ ground (arith, index_of-contains x s.sections)
    | inr (from, hx) ↦ elim (Option-cases (index_of other s.sections)) [
      | inl ho ↦ ground (arith, index_of-contains other s.sections)
      | inr (to, ho) ↦
          let hi = index_of-remove_object x other s.sections from to v.distinct n hx ho in
          ground (
            arith,
            index_of-contains x s.sections,
            index_of-contains other s.sections,
            erase_idx-index_of x s.sections from v.distinct hx,
            hi,
            h (remove_object x s.sections) (shifted from to) hi,
            index_of-lt other (remove_object x s.sections) (shifted from to) hi,
          )
    ]
  ]

  -- The method with `beforeSectionWithIdentifier:`, for two different identifiers of a valid
  -- snapshot, never raises: it puts the section directly before the other one, the rest staying in
  -- order, and changes nothing where one of the two is missing.
  pub move_section_before_lem :
      (x other : I) (s : Snapshot I)
      → IsValid s
      → x ≢ other
      → move_section_before x other s
        ≡ done (record s { sections = moved (place_before x other) x other s.sections })
  unfolding move_section_before
  move_section_before_lem x other s =
      move_section_between 0 (place_before x other) x other s (omega arith)
        λ l i h. ground (arith, (insert_idx-index_of x other l i h).0)

  -- The method with `afterSectionWithIdentifier:`, for two different identifiers of a valid
  -- snapshot, never raises: it puts the section directly after the other one, the rest staying in
  -- order, and changes nothing where one of the two is missing.
  pub move_section_after_lem :
      (x other : I) (s : Snapshot I)
      → IsValid s
      → x ≢ other
      → move_section_after x other s
        ≡ done (record s { sections = moved (place_after x other) x other s.sections })
  unfolding move_section_after
  move_section_after_lem x other s =
      move_section_between 1 (place_after x other) x other s (omega arith)
        λ l i h. (insert_idx-index_of x other l i h).1

  index_of-append :
      (x : I) (xs ys : List I)
      → contains x xs ≡ false
      → index_of x (xs ++ (x ∷ ys)) ≡ some (length xs)
  unfolding index_of contains
  index_of-append x [] ys h = ground arith
  index_of-append x (y ∷ xs) ys h = ground (arith, index_of-append x xs ys)

  -- The section after, where there is one, comes before the section itself.
  abbrev pub exchanged : I → List I → List I → Option (List I)
  exchanged x xs [] = none
  exchanged x xs (z ∷ zs) = some (xs ++ (z ∷ x ∷ zs))

  -- The snapshot with these sections, or the exception, with the sections that are left.
  abbrev pub with_sections : Snapshot I → List I → Option (List I) → SnapshotResult I
  with_sections s left none = raised (record s { sections = left })
  with_sections s left (some l) = done (record s { sections = l })

  with_sections-put_section :
      (s : Snapshot I) (left : List I) (o : Option (List I))
      → put_section (record s { sections = left }) o ≡ with_sections s left o
  unfolding put_section
  with_sections-put_section s left none = refl
  with_sections-put_section s left (some l) = refl

  erase_idx-append : (x : I) (xs zs : List I) → erase_idx (xs ++ (x ∷ zs)) (length xs) ≡ xs ++ zs
  erase_idx-append x [] zs = ground arith
  erase_idx-append x (y ∷ xs) zs = ground (arith, erase_idx-append x xs zs)

  insert_object-itself :
      (x : I) (xs zs : List I)
      → insert_object x (length xs + 1) (erase_idx (xs ++ (x ∷ zs)) (length xs)) ≡ exchanged x xs zs
  unfolding insert_object
  insert_object-itself x [] [] = refl
  insert_object-itself x [] (z ∷ zs) = ground arith
  insert_object-itself x (y ∷ xs) [] = ground (arith, insert_object-itself x xs [])
  insert_object-itself x (y ∷ xs) (z ∷ zs) = ground (arith, insert_object-itself x xs (z ∷ zs))

  -- A section that the method is to put after itself changes places with the section that follows
  -- it. Where no section follows it, the method raises, and the section is then no longer one of the
  -- sections, while the dictionary keeps its items.
  pub move_section_after_itself :
      (x : I) (xs zs : List I) (s : Snapshot I)
      → s.sections ≡ xs ++ (x ∷ zs)
      → contains x xs ≡ false
      → move_section_after x x s ≡ with_sections s (xs ++ zs) (exchanged x xs zs)
  unfolding move_section_after move_section
  move_section_after_itself x xs zs s hs h = ground (
    arith,
    hs,
    index_of-append x xs zs h,
    insert_object-itself x xs zs,
    erase_idx-append x xs zs,
    with_sections-put_section s (xs ++ zs) (exchanged x xs zs),
  )
