-- ===== src/Diffable/Snapshot/Reached.antt =====
-- Source/NSDiffableDataSource.m: the snapshots that the methods lead to, exceptions included.
use libs_gui.Base.{
  some, by_option, subst, ◌-◌, ◌+◌, if◌then◌else◌, arith, ltb, length, insert_idx, erase_idx,
  Bool-cases, inl, inr, ℕ, ◌≡◌, refl, Bool, true, false, List, Option,
}
use libs_gui.Diffable.Collections.{
  Identifiers, has, contains, index_of, remove_object, object_for_key, erase_idx-index_of,
  index_of-contains, contains-remove_object, contains-insert_idx, remove_object-Distinct,
  insert_idx-Distinct,
}
use libs_gui.Diffable.Snapshot.{
  Snapshot, SnapshotResult, done, raised, empty, put_section, insert_object, move_section,
  append_sections, insert_sections_before, insert_sections_after, delete_sections,
  move_section_before, move_section_after, append_items_into, append_items, insert_items_before,
  insert_items_after, delete_items,
}
use libs_gui.Diffable.Snapshot.Valid.{
  agree, IsKeyed, weaker, append_sections-IsKeyed, insert_sections_before-IsKeyed,
  insert_sections_after-IsKeyed, delete_sections-IsKeyed, append_items-IsKeyed,
  append_items_into-IsKeyed, insert_items-IsKeyed, delete_items-IsKeyed,
}

-- Every method that changes a snapshot, with its arguments.
pub data SnapshotEdit (I : Type 0) : Type 0 where
  appending_sections : List I → SnapshotEdit I
  inserting_sections_before : List I → I → SnapshotEdit I
  inserting_sections_after : List I → I → SnapshotEdit I
  deleting_sections : List I → SnapshotEdit I
  moving_section_before : I → I → SnapshotEdit I
  moving_section_after : I → I → SnapshotEdit I
  appending_items : List I → SnapshotEdit I
  appending_items_into : List I → Option I → SnapshotEdit I
  inserting_items_before : List I → I → SnapshotEdit I
  inserting_items_after : List I → I → SnapshotEdit I
  deleting_items : List I → SnapshotEdit I

module _ {I : Type 0} ⦃e : Identifiers I⦄ where
  -- The outcome of a method that may raise: after an exception, the dictionary may have other keys.
  abbrev pub ReturnsKeyed : Bool → SnapshotResult I → Type 0
  ReturnsKeyed t (done s) = IsKeyed t s
  ReturnsKeyed t (raised s) = IsKeyed false s

module _ {I : Type 0} ⦃e : Identifiers I⦄ {exact : Bool} where
  -- Where one section is taken out and put in again, the sections are the same ones.
  put_back-IsKeyed :
      (x : I) (i to : ℕ) (s : Snapshot I)
      → index_of x s.sections ≡ some i
      → IsKeyed exact s
      → IsKeyed exact (record s { sections = insert_idx (erase_idx s.sections i) to x })
  unfolding agree
  put_back-IsKeyed x i to s h v = rw (erase_idx-index_of x s.sections i v.distinct h) (record {
    distinct =
        insert_idx-Distinct x (remove_object x s.sections) to
          (ground (arith, contains-remove_object x x s.sections))
          (remove_object-Distinct x s.sections v.distinct);
    agrees = λ k. ground (
      arith,
      v.agrees k,
      contains-insert_idx x k (remove_object x s.sections) to,
      contains-remove_object x k s.sections,
      index_of-contains x s.sections,
    );
  })

  -- Where a section is taken out, the dictionary may keep its key.
  taken_out-IsKeyed :
      (x : I) (i : ℕ) (s : Snapshot I)
      → index_of x s.sections ≡ some i
      → IsKeyed exact s
      → IsKeyed false (record s { sections = erase_idx s.sections i })
  unfolding agree
  taken_out-IsKeyed x i s h v = rw (erase_idx-index_of x s.sections i v.distinct h) (record {
    distinct = remove_object-Distinct x s.sections v.distinct;
    agrees = λ k. ground (
      arith,
      weaker exact (has (object_for_key k s.items_by_section)) (contains k s.sections) (v.agrees k),
      contains-remove_object x k s.sections,
    );
  })

  put_section-IsKeyed :
      (x : I) (i to : ℕ) (s : Snapshot I)
      → index_of x s.sections ≡ some i
      → IsKeyed exact s
      → ReturnsKeyed exact (
          put_section
            (record s { sections = erase_idx s.sections i })
            (insert_object x to (erase_idx s.sections i)))
  unfolding insert_object put_section
  put_section-IsKeyed x i to s h v = elim (Bool-cases (ltb (length (erase_idx s.sections i)) to)) [
    | inl t ↦ rw t (taken_out-IsKeyed x i s h v)
    | inr t ↦ rw t (put_back-IsKeyed x i to s h v)
  ]

  move_section-IsKeyed :
      (place : ℕ) (x other : I) (s : Snapshot I)
      → IsKeyed exact s
      → ReturnsKeyed exact (move_section place x other s)
  unfolding move_section
  move_section-IsKeyed place x other s v =
      by_option (ReturnsKeyed exact) (index_of x s.sections) _ _ (λ _. v)
        λ from hf.
          by_option (ReturnsKeyed exact) (index_of other s.sections) _ _ (λ _. v)
            λ to ht.
              put_section-IsKeyed x from ((if ltb from to then to - 1 else to) + place) s hf v

module _ {I : Type 0} ⦃e : Identifiers I⦄ where
  unfoldable pub perform : SnapshotEdit I → Snapshot I → SnapshotResult I
  perform (appending_sections l) s = done (append_sections l s)
  perform (inserting_sections_before l x) s = done (insert_sections_before l x s)
  perform (inserting_sections_after l x) s = done (insert_sections_after l x s)
  perform (deleting_sections l) s = done (delete_sections l s)
  perform (moving_section_before x y) s = move_section_before x y s
  perform (moving_section_after x y) s = move_section_after x y s
  perform (appending_items l) s = done (append_items l s)
  perform (appending_items_into l o) s = done (append_items_into l o s)
  perform (inserting_items_before l x) s = done (insert_items_before l x s)
  perform (inserting_items_after l x) s = done (insert_items_after l x s)
  perform (deleting_items l) s = done (delete_items l s)

  -- The snapshots that the methods lead to from a new one, with whether no method has raised by then.
  pub data Reachable : Bool → Snapshot I → Type 0 where
    new_snapshot : Reachable true empty
    after_edit :
        (exact : Bool) (s : Snapshot I) (edit : SnapshotEdit I) (s' : Snapshot I)
        → Reachable exact s
        → perform edit s ≡ done s'
        → Reachable exact s'
    after_exception :
        (exact : Bool) (s : Snapshot I) (edit : SnapshotEdit I) (s' : Snapshot I)
        → Reachable exact s
        → perform edit s ≡ raised s'
        → Reachable false s'

  perform-IsKeyed :
      (exact : Bool) (edit : SnapshotEdit I) (s : Snapshot I)
      → IsKeyed exact s
      → ReturnsKeyed exact (perform edit s)
  unfolding perform move_section_before move_section_after insert_items_before insert_items_after
  perform-IsKeyed exact (appending_sections l) s v = append_sections-IsKeyed l s v
  perform-IsKeyed exact (inserting_sections_before l x) s v = insert_sections_before-IsKeyed l x s v
  perform-IsKeyed exact (inserting_sections_after l x) s v = insert_sections_after-IsKeyed l x s v
  perform-IsKeyed exact (deleting_sections l) s v = delete_sections-IsKeyed l s v
  perform-IsKeyed exact (moving_section_before x y) s v = move_section-IsKeyed 0 x y s v
  perform-IsKeyed exact (moving_section_after x y) s v = move_section-IsKeyed 1 x y s v
  perform-IsKeyed exact (appending_items l) s v = append_items-IsKeyed l s v
  perform-IsKeyed exact (appending_items_into l o) s v = append_items_into-IsKeyed l o s v
  perform-IsKeyed exact (inserting_items_before l x) s v = insert_items-IsKeyed 0 l x s v
  perform-IsKeyed exact (inserting_items_after l x) s v = insert_items-IsKeyed 1 l x s v
  perform-IsKeyed exact (deleting_items l) s v = delete_items-IsKeyed l s v

  -- In each snapshot that the methods lead to from a new one, exceptions included, the sections are
  -- distinct, and the dictionary has an array of items for every section; and it has one for no other
  -- identifier as long as no method has raised.
  pub Reachable-IsKeyed : (exact : Bool) (s : Snapshot I) → Reachable exact s → IsKeyed exact s
  unfolding object_for_key contains agree
  Reachable-IsKeyed _ _ new_snapshot = record { distinct = tt; agrees = λ k. refl }
  Reachable-IsKeyed exact s' (after_edit _ s edit _ r h) =
      subst (ReturnsKeyed exact) h (perform-IsKeyed exact edit s (Reachable-IsKeyed exact s r))
  Reachable-IsKeyed _ s' (after_exception exact s edit _ r h) =
      subst (ReturnsKeyed exact) h (perform-IsKeyed exact edit s (Reachable-IsKeyed exact s r))
