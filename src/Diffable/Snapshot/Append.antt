-- ===== src/Diffable/Snapshot/Append.antt =====
-- Source/NSDiffableDataSource.m: `itemIdentifiers` after the methods that add items and take them
-- out.
use libs_gui.Base.{
  by_option, ℕ, ◌+◌, ◌≡◌, refl, sym, ap, ◌∙◌, true, List, [], ◌∷◌, ◌++◌, Option, append_assoc,
  append_nil, length-append, none, some, ite, arith, if◌then◌else◌, length, Option-cases, inl, inr,
}
use libs_gui.Diffable.Collections.{Identifiers, contains, index_of, object-set, Distinct}
use libs_gui.Diffable.Snapshot.{
  Snapshot, items_in, items_of, item_identifiers, count_items, number_of_items, find_in, find_item,
  insert_objects, insert_items, insert_items_before, insert_items_after, delete_item, delete_items,
  get_last, ensure_section, append_sections, append_items_into, append_items, or_default,
}
use libs_gui.Diffable.Snapshot.Valid.{
  IsValid, find_in-some, delete_item-IsValid, ensure_section-IsValid,
}
use libs_gui.Diffable.Snapshot.Items.{
  ActsAt, inserted_before, inserted_after, first_removed, with_items, items_in-with_items,
  change_found, inserted_before-ActsAt, inserted_after-ActsAt, insert_objects_before,
  insert_objects_after, delete_item_lem, has-find_in,
}

module _ {I : Type 0} ⦃e : Identifiers I⦄ where
  contains-get_last : (l : List I) (x : I) → get_last l ≡ some x → contains x l ≡ true
  unfolding contains
  contains-get_last [] x h = cc
  contains-get_last (y ∷ []) x h = ground arith
  contains-get_last (y ∷ z ∷ l) x h = ground (arith, contains-get_last (z ∷ l) x)

  -- More items at the end of the last section are at the end of all items.
  append_to_last :
      (new : List I) (rest : List I) (x : I) (s : Snapshot I)
      → get_last rest ≡ some x
      → Distinct rest
      → items_of rest (with_items x (items_in s x ++ new) s) ≡ items_of rest s ++ new
  unfolding items_of contains
  append_to_last new [] x s h d = cc
  append_to_last new (y ∷ []) x s h d = ground (
    arith,
    items_in-with_items x y (items_in s x ++ new) s,
    append_nil (items_in s x),
    append_nil (items_in s x ++ new),
  )
  append_to_last new (y ∷ z ∷ rest) x s h d = ground (
    arith,
    items_in-with_items x y (items_in s x ++ new) s,
    append_to_last new (z ∷ rest) x s,
    contains-get_last (z ∷ rest) x,
    append_assoc (items_in s y) (items_of (z ∷ rest) s) new,
  )

  -- A section that is there is not changed.
  ensure_section_old :
      (x : I) (s : Snapshot I)
      → IsValid s
      → contains x s.sections ≡ true
      → ensure_section (some x) s ≡ s
  unfolding ensure_section or_default
  ensure_section_old x s v h = ground (arith, h, v.keyed x)

  append_into_last :
      (new : List I) (x : I) (s : Snapshot I)
      → IsValid s
      → get_last s.sections ≡ some x
      → item_identifiers (append_items_into new (some x) s) ≡ item_identifiers s ++ new
  unfolding append_items_into item_identifiers or_default
  append_into_last new x s v h =
      rw (ensure_section_old x s v (contains-get_last s.sections x h))
        (append_to_last new s.sections x s h v.distinct)

  get_last-none : (l : List I) → get_last l ≡ none → l ≡ []
  get_last-none [] h = refl
  get_last-none (x ∷ []) h = cc
  get_last-none (x ∷ y ∷ l) h = cc (get_last-none (y ∷ l) h)

  no_items : (s : Snapshot I) → s.sections ≡ [] → item_identifiers s ≡ []
  unfolding item_identifiers items_of
  no_items s h = rw h refl

  first_section :
      (x : I) (s : Snapshot I)
      → IsValid s
      → s.sections ≡ []
      → (get_last (ensure_section (some x) s).sections ≡ some x)
        × (item_identifiers (ensure_section (some x) s) ≡ [])
  unfolding ensure_section or_default item_identifiers items_of contains items_in
  first_section x s v h = ground (arith, h, v.keyed x, object-set [] x x s.items_by_section)

  -- The method `appendItemsWithIdentifiers:` adds the new items at the end of all the items of a
  -- valid snapshot, one without sections included.
  pub append_items_lem :
      (new : List I) (s : Snapshot I)
      → IsValid s
      → item_identifiers (append_items new s) ≡ item_identifiers s ++ new
  unfolding append_items append_sections
  append_items_lem new s v =
      by_option (λ t. item_identifiers t ≡ item_identifiers s ++ new) (get_last s.sections) _ _
        (λ h.
          let first = first_section e.default_section s v (get_last-none s.sections h) in
          append_into_last new e.default_section (ensure_section (some e.default_section) s)
            (ensure_section-IsValid (some e.default_section) s v) first.0
          ∙ ap (◌++ new) (first.1 ∙ sym (no_items s (get_last-none s.sections h))))
        (λ x h. append_into_last new x s v h)

  inserted_none :
      (item : I) (l : List I) → (inserted_before [] item l ≡ l) × (inserted_after [] item l ≡ l)
  unfolding inserted_before inserted_after contains
  inserted_none item [] = (refl, refl)
  inserted_none item (x ∷ l) = ground (arith, inserted_none item l)

  insert_items_at :
      (place : ℕ) (put : List I → List I) (new : List I) (item : I) (s : Snapshot I)
      → ActsAt item put
      → ((l : List I) (i : ℕ) → index_of item l ≡ some i → insert_objects new (i + place) l ≡ put l)
      → (new ≡ [] → (l : List I) → put l ≡ l)
      → IsValid s
      → item_identifiers (insert_items place new item s) ≡ (
          if contains item (item_identifiers s)
          then put (item_identifiers s)
          else item_identifiers s ++ new)
  unfolding insert_items find_item item_identifiers
  insert_items_at place put [] item s a h n v =
      ground (arith, n refl (item_identifiers s), append_nil (item_identifiers s))
  insert_items_at place put (y ∷ new) item s a h n v =
      elim (Option-cases (find_in s.sections item s)) [
        | inl f ↦ ground (arith, f, has-find_in s.sections item s, append_items_lem (y ∷ new) s v)
        | inr ((x, i), f) ↦
            let found = (find_in-some s.sections item s x i f).1 in
            ground (
              arith,
              f,
              has-find_in s.sections item s,
              h (items_in s x) i found,
              change_found put item s.sections s x i a v.distinct f,
            )
      ]

  -- The method with `beforeItemWithIdentifier:` on a valid snapshot puts the new items, in their
  -- order, directly before the first item that equals the given one in all the items, and at the
  -- end of all the items where none does.
  pub insert_items_before_lem :
      (new : List I) (item : I) (s : Snapshot I)
      → IsValid s
      → item_identifiers (insert_items_before new item s) ≡ (
          if contains item (item_identifiers s)
          then inserted_before new item (item_identifiers s)
          else item_identifiers s ++ new)
  unfolding insert_items_before
  insert_items_before_lem new item s =
      insert_items_at 0 (inserted_before new item) new item s (inserted_before-ActsAt new item)
        (λ l i h. ground (arith, insert_objects_before new item l i h))
        (λ n l. ground (arith, n, (inserted_none item l).0))

  -- The method with `afterItemWithIdentifier:` on a valid snapshot puts the new items, in their
  -- order, directly after the first item that equals the given one in all the items, and at the
  -- end of all the items where none does.
  pub insert_items_after_lem :
      (new : List I) (item : I) (s : Snapshot I)
      → IsValid s
      → item_identifiers (insert_items_after new item s) ≡ (
          if contains item (item_identifiers s)
          then inserted_after new item (item_identifiers s)
          else item_identifiers s ++ new)
  unfolding insert_items_after
  insert_items_after_lem new item s =
      insert_items_at 1 (inserted_after new item) new item s (inserted_after-ActsAt new item)
        (insert_objects_after new item) (λ n l. ground (arith, n, (inserted_none item l).1))

  -- All the items with the first one that equals each of the given ones left out in turn.
  abbrev pub all_removed : List I → List I → List I
  all_removed [] l = l
  all_removed (item ∷ old) l = all_removed old (first_removed item l)

  -- The method `deleteItemsWithIdentifiers:` on a valid snapshot takes out of all the items, for
  -- each given identifier in turn, the first item that equals it.
  pub delete_items_lem :
      (old : List I) (s : Snapshot I)
      → IsValid s
      → item_identifiers (delete_items old s) ≡ all_removed old (item_identifiers s)
  unfolding delete_items
  delete_items_lem [] s v = refl
  delete_items_lem (item ∷ old) s v =
      delete_items_lem old (delete_item item s) (delete_item-IsValid item s v)
      ∙ ap (all_removed old) (delete_item_lem item s v)

  count_items_lem : (rest : List I) (s : Snapshot I) → count_items rest s ≡ length (items_of rest s)
  unfolding count_items items_of
  count_items_lem [] s = refl
  count_items_lem (x ∷ rest) s =
      ground (arith, count_items_lem rest s, length-append (items_in s x) (items_of rest s))

  -- The count that `numberOfItems` adds up by section is that of the list `itemIdentifiers`.
  pub number_of_items_lem : (s : Snapshot I) → number_of_items s ≡ length (item_identifiers s)
  unfolding number_of_items item_identifiers
  number_of_items_lem s = count_items_lem s.sections s

  -- What `appendItemsWithIdentifiers:intoSectionWithIdentifier:` does to each section: the named
  -- one, the default one for nil, has the new items at its end, and every other one its own.
  pub append_items_into_lem :
      (new : List I) (o : Option I) (s : Snapshot I) (x : I)
      → items_in (append_items_into new o s) x
        ≡ ite (e.dec_eq (or_default o) x) (items_in s x ++ new) (items_in s x)
  unfolding append_items_into ensure_section items_in
  append_items_into_lem new o s x = ground (
    arith,
    object-set [] (or_default o) x s.items_by_section,
    object-set [] (or_default o) (or_default o) s.items_by_section,
    items_in-with_items (or_default o) x (items_in (ensure_section o s) (or_default o) ++ new)
        (ensure_section o s),
  )
