-- ===== src/Diffable/Snapshot/Valid.antt =====
-- Source/NSDiffableDataSource.m: the well-formed snapshots, with distinct sections that have their arrays
-- of items in the dictionary, and what the methods do to them.
use libs_gui.Base.{
  by_option, Bool, not, ◌&&◌, ℕ, suc, ◌+◌, ◌≡◌, refl, true, false, List, [], ◌∷◌, ◌++◌, Option,
  some, arith, ltb, length, Bool-cases, inl, inr,
}
use libs_gui.Diffable.Collections.{
  Identifiers, has, contains, index_of, object_for_key, set_object, Distinct, object-set,
  object-remove, contains-append, contains-remove_object, contains-insert_idx,
  remove_object-Distinct, insert_idx-Distinct,
}
use libs_gui.Diffable.Snapshot.{
  Snapshot, items_in, ensure_section, or_default, append_sections, insert_sections_at,
  insert_sections_before, insert_sections_after, delete_sections, append_items_into, append_items,
  get_last, insert_items, find_item, find_in, delete_item, delete_items,
}

-- Whether the dictionary has a key where it is a section, and, if exact, only where it is.
unfoldable pub agree : Bool → Bool → Bool → Bool
agree exact keyed true = keyed
agree exact keyed false = not (exact && keyed)

exactly : (a b : Bool) → agree true a b ≡ true → a ≡ b
unfolding agree
exactly a true h = h
exactly true false h = cc h
exactly false false h = refl

exactly_back : (a b : Bool) → a ≡ b → agree true a b ≡ true
unfolding agree
exactly_back a true h = h
exactly_back a false h = rw h refl

-- Less is asked where other keys may be there.
pub weaker : (exact a b : Bool) → agree exact a b ≡ true → agree false a b ≡ true
unfolding agree
weaker exact a true h = h
weaker exact a false h = refl

module _ {I : Type 0} ⦃e : Identifiers I⦄ where
  pub record IsValid (s : Snapshot I) : Type 0 where
    pub distinct : Distinct s.sections
    pub keyed : (k : I) → has (object_for_key k s.items_by_section) ≡ contains k s.sections

  -- The sections are distinct, and each has its array of items in the dictionary; if exact, it has
  -- no other key.
  pub record IsKeyed (exact : Bool) (s : Snapshot I) : Type 0 where
    pub distinct : Distinct s.sections
    pub agrees :
        (k : I)
        → agree exact (has (object_for_key k s.items_by_section)) (contains k s.sections) ≡ true

  append_one-Distinct :
      (a : I) (xs : List I) → contains a xs ≡ false → Distinct xs → Distinct (xs ++ (a ∷ []))
  unfolding contains
  append_one-Distinct a [] h d = ground arith
  append_one-Distinct a (x ∷ xs) h d =
      ground (arith, append_one-Distinct a xs, contains-append x xs (a ∷ []))

  pub contains-ensure_section :
      (o : Option I) (s : Snapshot I) → contains (or_default o) (ensure_section o s).sections ≡ true
  unfolding ensure_section contains
  contains-ensure_section o s =
      ground (arith, contains-append (or_default o) s.sections (or_default o ∷ []))

  -- What the search for an item returns.
  pub find_in-some :
      (rest : List I) (item : I) (s : Snapshot I) (x : I) (i : ℕ)
      → find_in rest item s ≡ some (x, i)
      → (contains x rest ≡ true) × (index_of item (items_in s x) ≡ some i)
  unfolding find_in contains
  find_in-some [] item s x i h = cc
  find_in-some (y ∷ rest) item s x i h = ground (arith, find_in-some rest item s x i)

  pub IsKeyed-IsValid : (s : Snapshot I) → IsValid s → IsKeyed true s
  IsKeyed-IsValid s v = record {
    distinct = v.distinct;
    agrees = λ k. exactly_back _ (contains k s.sections) (v.keyed k);
  }

  pub IsValid-IsKeyed : (s : Snapshot I) → IsKeyed true s → IsValid s
  IsValid-IsKeyed s v = record {
    distinct = v.distinct;
    keyed = λ k. exactly _ (contains k s.sections) (v.agrees k);
  }

module _ {I : Type 0} ⦃e : Identifiers I⦄ {exact : Bool} where
  pub ensure_section-IsKeyed :
      (o : Option I) (s : Snapshot I) → IsKeyed exact s → IsKeyed exact (ensure_section o s)
  unfolding ensure_section contains agree
  ensure_section-IsKeyed o s v = record {
    distinct = ground (arith, append_one-Distinct (or_default o) s.sections, v.distinct);
    agrees = λ k. ground (
      arith,
      v.agrees k,
      v.agrees (or_default o),
      object-set [] (or_default o) k s.items_by_section,
      contains-append k s.sections (or_default o ∷ []),
    );
  }

  pub append_sections-IsKeyed :
      (new : List I) (s : Snapshot I) → IsKeyed exact s → IsKeyed exact (append_sections new s)
  unfolding append_sections
  append_sections-IsKeyed [] s v = v
  append_sections-IsKeyed (x ∷ new) s v =
      append_sections-IsKeyed new (ensure_section (some x) s) (ensure_section-IsKeyed (some x) s v)

  insert_sections_at-IsKeyed :
      (i : ℕ) (new : List I) (s : Snapshot I)
      → IsKeyed exact s
      → IsKeyed exact (insert_sections_at i new s)
  unfolding insert_sections_at agree
  insert_sections_at-IsKeyed i [] s v = v
  insert_sections_at-IsKeyed i (x ∷ new) s v = elim (Bool-cases (contains x s.sections)) [
    | inl old ↦ rw old (insert_sections_at-IsKeyed i new s v)
    | inr fresh ↦ rw fresh (
        insert_sections_at-IsKeyed (suc i) new _ (record {
          distinct = insert_idx-Distinct x s.sections i fresh v.distinct;
          agrees = λ k. ground (
            arith,
            v.agrees k,
            object-set [] x k s.items_by_section,
            contains-insert_idx x k s.sections i,
          );
        }))
  ]

  pub insert_sections_before-IsKeyed :
      (new : List I) (x : I) (s : Snapshot I)
      → IsKeyed exact s
      → IsKeyed exact (insert_sections_before new x s)
  unfolding insert_sections_before
  insert_sections_before-IsKeyed new x s v =
      by_option (IsKeyed exact) (index_of x s.sections) _ _
        (λ _. insert_sections_at-IsKeyed (length s.sections) new s v)
        (λ i _. insert_sections_at-IsKeyed i new s v)

  pub insert_sections_after-IsKeyed :
      (new : List I) (x : I) (s : Snapshot I)
      → IsKeyed exact s
      → IsKeyed exact (insert_sections_after new x s)
  unfolding insert_sections_after
  insert_sections_after-IsKeyed new x s v =
      by_option (IsKeyed exact) (index_of x s.sections) _ _ (λ _. append_sections-IsKeyed new s v)
        (λ i _. insert_sections_at-IsKeyed (i + 1) new s v)

  pub delete_sections-IsKeyed :
      (old : List I) (s : Snapshot I) → IsKeyed exact s → IsKeyed exact (delete_sections old s)
  unfolding delete_sections agree
  delete_sections-IsKeyed [] s v = v
  delete_sections-IsKeyed (x ∷ old) s v = delete_sections-IsKeyed old _ (record {
    distinct = remove_object-Distinct x s.sections v.distinct;
    agrees = λ k. ground (
      arith,
      v.agrees k,
      object-remove x k s.items_by_section,
      contains-remove_object x k s.sections,
    );
  })

  -- A new array for a section that is there.
  pub set_items-IsKeyed :
      (items : List I) (x : I) (s : Snapshot I)
      → contains x s.sections ≡ true
      → IsKeyed exact s
      → IsKeyed exact (record s { items_by_section = set_object items x s.items_by_section })
  unfolding agree
  set_items-IsKeyed items x s h v = record {
    distinct = v.distinct;
    agrees = λ k. ground (arith, v.agrees k, object-set items x k s.items_by_section);
  }

  pub append_items_into-IsKeyed :
      (items : List I) (o : Option I) (s : Snapshot I)
      → IsKeyed exact s
      → IsKeyed exact (append_items_into items o s)
  unfolding append_items_into
  append_items_into-IsKeyed items o s v =
      set_items-IsKeyed _ (or_default o) (ensure_section o s) (contains-ensure_section o s)
        (ensure_section-IsKeyed o s v)

  pub append_items-IsKeyed :
      (items : List I) (s : Snapshot I) → IsKeyed exact s → IsKeyed exact (append_items items s)
  unfolding append_items
  append_items-IsKeyed items s v =
      by_option (IsKeyed exact) (get_last s.sections) _ _
        (λ _.
          append_items_into-IsKeyed items (some e.default_section) _
            (append_sections-IsKeyed (e.default_section ∷ []) s v))
        (λ x _. append_items_into-IsKeyed items (some x) s v)

  pub insert_items-IsKeyed :
      (place : ℕ) (new : List I) (item : I) (s : Snapshot I)
      → IsKeyed exact s
      → IsKeyed exact (insert_items place new item s)
  unfolding insert_items find_item
  insert_items-IsKeyed place [] item s v = v
  insert_items-IsKeyed place (x ∷ new) item s v =
      by_option (IsKeyed exact) (find_in s.sections item s) _ _
        (λ _. append_items-IsKeyed (x ∷ new) s v)
        (λ p h. set_items-IsKeyed _ p.0 s (find_in-some s.sections item s p.0 p.1 h).0 v)

  pub delete_item-IsKeyed :
      (item : I) (s : Snapshot I) → IsKeyed exact s → IsKeyed exact (delete_item item s)
  unfolding delete_item find_item
  delete_item-IsKeyed item s v =
      by_option (IsKeyed exact) (find_in s.sections item s) _ _ (λ _. v)
        (λ p h. elim (Bool-cases (ltb p.1 (length (items_in s p.0)))) [
          | inl t ↦ rw t (set_items-IsKeyed _ p.0 s (find_in-some s.sections item s p.0 p.1 h).0 v)
          | inr t ↦ rw t v
        ])

  pub delete_items-IsKeyed :
      (old : List I) (s : Snapshot I) → IsKeyed exact s → IsKeyed exact (delete_items old s)
  unfolding delete_items
  delete_items-IsKeyed [] s v = v
  delete_items-IsKeyed (x ∷ old) s v =
      delete_items-IsKeyed old (delete_item x s) (delete_item-IsKeyed x s v)

module _ {I : Type 0} ⦃e : Identifiers I⦄ where
  pub ensure_section-IsValid :
      (o : Option I) (s : Snapshot I) → IsValid s → IsValid (ensure_section o s)
  ensure_section-IsValid o s v =
      IsValid-IsKeyed (ensure_section o s) (ensure_section-IsKeyed o s (IsKeyed-IsValid s v))

  pub delete_item-IsValid : (item : I) (s : Snapshot I) → IsValid s → IsValid (delete_item item s)
  delete_item-IsValid item s v =
      IsValid-IsKeyed (delete_item item s) (delete_item-IsKeyed item s (IsKeyed-IsValid s v))
