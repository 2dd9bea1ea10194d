-- ===== src/Diffable/Snapshot/Items.antt =====
-- Source/NSDiffableDataSource.m: what the methods on items do to `itemIdentifiers`.
use libs_gui.Base.{
  ℕ, zero, suc, ◌+◌, ◌≡◌, refl, true, false, List, [], ◌∷◌, ◌++◌, append_assoc, some, ite, arith,
  erase_idx, Option-cases, inl, inr,
}
use libs_gui.Diffable.Collections.{
  Identifiers, contains, index_of, set_object, object-set, Distinct, index_of-contains, index_of-lt,
  has, contains-append,
}
use libs_gui.Diffable.Snapshot.{
  Snapshot, items_in, items_of, item_identifiers, find_in, find_item, insert_objects, delete_item,
}
use libs_gui.Diffable.Snapshot.Valid.{IsValid, find_in-some}

module _ {I : Type 0} ⦃e : Identifiers I⦄ where
  -- The objects before, and after, the first that equals the given one; and that one left out.
  unfoldable pub inserted_before : List I → I → List I → List I
  inserted_before new item [] = []
  inserted_before new item (x ∷ l) =
      ite (e.dec_eq x item) (new ++ (x ∷ l)) (x ∷ inserted_before new item l)

  unfoldable pub inserted_after : List I → I → List I → List I
  inserted_after new item [] = []
  inserted_after new item (x ∷ l) =
      ite (e.dec_eq x item) (x ∷ (new ++ l)) (x ∷ inserted_after new item l)

  unfoldable pub first_removed : I → List I → List I
  first_removed item [] = []
  first_removed item (x ∷ l) = ite (e.dec_eq x item) l (x ∷ first_removed item l)

  abbrev pub with_items : I → List I → Snapshot I → Snapshot I
  with_items section items s = record s {
    items_by_section = set_object items section s.items_by_section;
  }

  pub items_in-with_items :
      (x y : I) (items : List I) (s : Snapshot I)
      → items_in (with_items x items s) y ≡ ite (e.dec_eq x y) items (items_in s y)
  unfolding items_in
  items_in-with_items x y items s = ground (arith, object-set items x y s.items_by_section)

  pub items_of-with_items :
      (rest : List I) (x : I) (items : List I) (s : Snapshot I)
      → contains x rest ≡ false
      → items_of rest (with_items x items s) ≡ items_of rest s
  unfolding items_of contains
  items_of-with_items [] x items s h = refl
  items_of-with_items (y ∷ rest) x items s h =
      ground (arith, items_in-with_items x y items s, items_of-with_items rest x items s)

  -- A change `f` of a list that acts where the item is first found.
  pub record ActsAt (item : I) (f : List I → List I) : Type 0 where
    pub skips : (xs ys : List I) → contains item xs ≡ false → f (xs ++ ys) ≡ xs ++ f ys
    pub stays : (xs ys : List I) → contains item xs ≡ true → f (xs ++ ys) ≡ f xs ++ ys

  -- The change of the section in which the item is found changes all items in the same way.
  pub change_found :
      (f : List I → List I) (item : I) (rest : List I) (s : Snapshot I) (x : I) (i : ℕ)
      → ActsAt item f
      → Distinct rest
      → find_in rest item s ≡ some (x, i)
      → items_of rest (with_items x (f (items_in s x)) s) ≡ f (items_of rest s)
  unfolding find_in items_of
  change_found f item [] s x i a d h = cc
  change_found f item (y ∷ rest) s x i a d h = elim (Option-cases (index_of item (items_in s y))) [
    | inl none_here ↦ ground (
      arith,
      none_here,
      index_of-contains item (items_in s y),
      find_in-some rest item s x i,
      items_in-with_items x y (f (items_in s x)) s,
      change_found f item rest s x i a,
      a.skips (items_in s y) (items_of rest s),
    )
    | inr (j, here) ↦ ground (
      arith,
      here,
      index_of-contains item (items_in s y),
      items_in-with_items x y (f (items_in s x)) s,
      items_of-with_items rest x (f (items_in s x)) s,
      a.stays (items_in s y) (items_of rest s),
    )
  ]

  pub inserted_before-ActsAt : (new : List I) (item : I) → ActsAt item (inserted_before new item)
  unfolding inserted_before contains
  inserted_before-ActsAt new item = record { skips = go; stays = stay }
    where
      go :
          (xs ys : List I)
          → contains item xs ≡ false
          → inserted_before new item (xs ++ ys) ≡ xs ++ inserted_before new item ys
      go [] ys h = refl
      go (x ∷ xs) ys h = ground (arith, go xs ys)

      stay :
          (xs ys : List I)
          → contains item xs ≡ true
          → inserted_before new item (xs ++ ys) ≡ inserted_before new item xs ++ ys
      stay [] ys h = cc
      stay (x ∷ xs) ys h = ground (arith, stay xs ys, append_assoc new (x ∷ xs) ys)

  pub inserted_after-ActsAt : (new : List I) (item : I) → ActsAt item (inserted_after new item)
  unfolding inserted_after contains
  inserted_after-ActsAt new item = record { skips = go; stays = stay }
    where
      go :
          (xs ys : List I)
          → contains item xs ≡ false
          → inserted_after new item (xs ++ ys) ≡ xs ++ inserted_after new item ys
      go [] ys h = refl
      go (x ∷ xs) ys h = ground (arith, go xs ys)

      stay :
          (xs ys : List I)
          → contains item xs ≡ true
          → inserted_after new item (xs ++ ys) ≡ inserted_after new item xs ++ ys
      stay [] ys h = cc
      stay (x ∷ xs) ys h = ground (arith, stay xs ys, append_assoc new xs ys)

  pub first_removed-ActsAt : (item : I) → ActsAt item (first_removed item)
  unfolding first_removed contains
  first_removed-ActsAt item = record { skips = go; stays = stay }
    where
      go :
          (xs ys : List I)
          → contains item xs ≡ false
          → first_removed item (xs ++ ys) ≡ xs ++ first_removed item ys
      go [] ys h = refl
      go (x ∷ xs) ys h = ground (arith, go xs ys)

      stay :
          (xs ys : List I)
          → contains item xs ≡ true
          → first_removed item (xs ++ ys) ≡ first_removed item xs ++ ys
      stay [] ys h = cc
      stay (x ∷ xs) ys h = ground (arith, stay xs ys)

  pub insert_objects_before :
      (new : List I) (item : I) (l : List I) (i : ℕ)
      → index_of item l ≡ some i
      → insert_objects new i l ≡ inserted_before new item l
  unfolding insert_objects inserted_before index_of
  insert_objects_before new item [] i h = cc
  insert_objects_before new item (x ∷ l) zero h = ground arith
  insert_objects_before new item (x ∷ l) (suc i) h =
      ground (arith, insert_objects_before new item l i)

  pub insert_objects_after :
      (new : List I) (item : I) (l : List I) (i : ℕ)
      → index_of item l ≡ some i
      → insert_objects new (i + 1) l ≡ inserted_after new item l
  unfolding insert_objects inserted_after index_of
  insert_objects_after new item [] i h = cc
  insert_objects_after new item (x ∷ l) zero h = ground arith
  insert_objects_after new item (x ∷ l) (suc i) h =
      ground (arith, insert_objects_after new item l i)

  erase_idx-first_removed :
      (item : I) (l : List I) (i : ℕ)
      → index_of item l ≡ some i
      → erase_idx l i ≡ first_removed item l
  unfolding first_removed index_of
  erase_idx-first_removed item [] i h = cc
  erase_idx-first_removed item (x ∷ l) zero h = ground arith
  erase_idx-first_removed item (x ∷ l) (suc i) h = ground (arith, erase_idx-first_removed item l i)

  first_removed_absent :
      (item : I) (l : List I) → contains item l ≡ false → first_removed item l ≡ l
  unfolding first_removed contains
  first_removed_absent item [] h = refl
  first_removed_absent item (x ∷ l) h = ground (arith, first_removed_absent item l)

  pub has-find_in :
      (rest : List I) (item : I) (s : Snapshot I)
      → has (find_in rest item s) ≡ contains item (items_of rest s)
  unfolding find_in items_of contains
  has-find_in [] item s = refl
  has-find_in (y ∷ rest) item s = ground (
    arith,
    has-find_in rest item s,
    contains-append item (items_in s y) (items_of rest s),
    index_of-contains item (items_in s y),
  )

  pub delete_item_lem :
      (item : I) (s : Snapshot I)
      → IsValid s
      → item_identifiers (delete_item item s) ≡ first_removed item (item_identifiers s)
  unfolding delete_item find_item item_identifiers
  delete_item_lem item s v = elim (Option-cases (find_in s.sections item s)) [
    | inl h ↦
        ground (
          arith,
          h,
          has-find_in s.sections item s,
          first_removed_absent item (items_of s.sections s),
        )
    | inr ((x, i), h) ↦
        let found = (find_in-some s.sections item s x i h).1 in
        ground (
          arith,
          h,
          index_of-lt item (items_in s x) i found,
          erase_idx-first_removed item (items_in s x) i found,
          change_found (first_removed item) item s.sections s x i (first_removed-ActsAt item)
              v.distinct h,
        )
  ]
