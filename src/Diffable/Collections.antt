-- ===== src/Diffable/Collections.antt =====
-- The Foundation collections that Source/NSDiffableDataSource.m uses: arrays of identifiers and
-- dictionaries by identifier, compared by `isEqual:`.
use libs_gui.Base.{
  ℕ, zero, suc, ◌<◌, ◌≡◌, refl, Bool, true, false, List, [], ◌∷◌, ◌++◌, Option, none, some, ite,
  arith, if◌then◌else◌, length, get_elem?, insert_idx, erase_idx, lt-length_of_get_elem?,
}

-- `isEqual:` on identifiers, and the identifier of the default section.
pub record Identifiers (I : Type 0) : Type 0 where
  pub dec_eq : (a b : I) → Dec (a ≡ b)
  pub default_section : I

abbrev pub Dictionary : Type 0 → Type 0 → Type 0
Dictionary I V = List (I × V)

abbrev pub has {ℓ} : {V : Type ℓ} → Option V → Bool
has none = false
has (some v) = true

module _ {I : Type 0} ⦃e : Identifiers I⦄ where
  -- `containsObject:`
  unfoldable pub contains : I → List I → Bool
  contains a [] = false
  contains a (x ∷ xs) = ite (e.dec_eq x a) true (contains a xs)

  -- `indexOfObject:`, with `none` for NSNotFound.
  unfoldable pub index_of : I → List I → Option ℕ
  index_of a [] = none
  index_of a (x ∷ xs) =
      ite (e.dec_eq x a) (some 0) (elim (index_of a xs) [ none ↦ none | some i ↦ some (suc i) ])

  -- `removeObject:` takes all equal objects out.
  unfoldable pub remove_object : I → List I → List I
  remove_object a [] = []
  remove_object a (x ∷ xs) = ite (e.dec_eq x a) (remove_object a xs) (x ∷ remove_object a xs)

  module _ {V : Type 0} where
    unfoldable pub object_for_key : I → Dictionary I V → Option V
    object_for_key k [] = none
    object_for_key k ((j, v) ∷ d) = ite (e.dec_eq j k) (some v) (object_for_key k d)

    unfoldable pub set_object : V → I → Dictionary I V → Dictionary I V
    set_object v k [] = (k, v) ∷ []
    set_object v k ((j, w) ∷ d) = ite (e.dec_eq j k) ((j, v) ∷ d) ((j, w) ∷ set_object v k d)

    unfoldable pub remove_key : I → Dictionary I V → Dictionary I V
    remove_key k [] = []
    remove_key k ((j, w) ∷ d) = ite (e.dec_eq j k) (remove_key k d) ((j, w) ∷ remove_key k d)

    pub object-set :
        (v : V) (k j : I) (d : Dictionary I V)
        → object_for_key j (set_object v k d) ≡ ite (e.dec_eq k j) (some v) (object_for_key j d)
    unfolding object_for_key set_object
    object-set v k j [] = refl
    object-set v k j ((i, w) ∷ d) = ground (arith, object-set v k j d)

    pub object-remove :
        (k j : I) (d : Dictionary I V)
        → object_for_key j (remove_key k d) ≡ ite (e.dec_eq k j) none (object_for_key j d)
    unfolding object_for_key remove_key
    object-remove k j [] = ground arith
    object-remove k j ((i, w) ∷ d) = ground (arith, object-remove k j d)

  -- No object twice.
  abbrev pub Distinct : List I → Type 0
  Distinct [] = Unit {0}
  Distinct (x ∷ xs) = (contains x xs ≡ false) × Distinct xs

  pub contains-append :
      (a : I) (xs ys : List I)
      → contains a (xs ++ ys) ≡ (if contains a xs then true else contains a ys)
  unfolding contains
  contains-append a [] ys = refl
  contains-append a (x ∷ xs) ys = ground (arith, contains-append a xs ys)

  pub contains-remove_object :
      (a b : I) (xs : List I)
      → contains b (remove_object a xs) ≡ ite (e.dec_eq a b) false (contains b xs)
  unfolding contains remove_object
  contains-remove_object a b [] = ground arith
  contains-remove_object a b (x ∷ xs) = ground (arith, contains-remove_object a b xs)

  pub remove_object-Distinct : (a : I) (xs : List I) → Distinct xs → Distinct (remove_object a xs)
  unfolding remove_object
  remove_object-Distinct a [] h = tt
  remove_object-Distinct a (x ∷ xs) h =
      ground (arith, remove_object-Distinct a xs, contains-remove_object a x xs)

  pub contains-insert_idx :
      (a b : I) (xs : List I) (i : ℕ)
      → contains b (insert_idx xs i a) ≡ ite (e.dec_eq a b) true (contains b xs)
  unfolding contains
  contains-insert_idx a b xs zero = refl
  contains-insert_idx a b [] (suc i) = refl
  contains-insert_idx a b (x ∷ xs) (suc i) = ground (arith, contains-insert_idx a b xs i)

  pub insert_idx-Distinct :
      (a : I) (xs : List I) (i : ℕ)
      → contains a xs ≡ false
      → Distinct xs
      → Distinct (insert_idx xs i a)
  unfolding contains
  insert_idx-Distinct a xs zero h d = (h, d)
  insert_idx-Distinct a [] (suc i) h d = ground arith
  insert_idx-Distinct a (x ∷ xs) (suc i) h d =
      ground (arith, insert_idx-Distinct a xs i, contains-insert_idx a x xs i)

  pub index_of-some :
      (a : I) (xs : List I) (i : ℕ) → index_of a xs ≡ some i → get_elem? xs i ≡ some a
  unfolding index_of
  index_of-some a [] i h = cc
  index_of-some a (x ∷ xs) zero h = ground arith
  index_of-some a (x ∷ xs) (suc i) h = ground (arith, index_of-some a xs i)

  pub index_of-contains : (a : I) (xs : List I) → has (index_of a xs) ≡ contains a xs
  unfolding index_of contains
  index_of-contains a [] = refl
  index_of-contains a (x ∷ xs) = ground (arith, index_of-contains a xs)

  pub remove_object_absent : (a : I) (xs : List I) → contains a xs ≡ false → remove_object a xs ≡ xs
  unfolding contains remove_object
  remove_object_absent a [] h = refl
  remove_object_absent a (x ∷ xs) h = ground (arith, remove_object_absent a xs)

  -- Among distinct objects, the removal by index is the one by value.
  pub erase_idx-index_of :
      (a : I) (xs : List I) (i : ℕ)
      → Distinct xs
      → index_of a xs ≡ some i
      → erase_idx xs i ≡ remove_object a xs
  unfolding index_of remove_object
  erase_idx-index_of a [] i d h = cc
  erase_idx-index_of a (x ∷ xs) zero d h = ground (arith, remove_object_absent x xs)
  erase_idx-index_of a (x ∷ xs) (suc i) d h = ground (arith, erase_idx-index_of a xs i)

  pub index_of-lt : (a : I) (xs : List I) (i : ℕ) → index_of a xs ≡ some i → i < length xs
  index_of-lt a xs i h = lt-length_of_get_elem? xs i (index_of-some a xs i h)
