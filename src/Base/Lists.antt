-- ===== src/Base/Lists.antt =====
-- Lists measured and indexed by native numbers, as an `NSMutableArray` is, and lists split at a
-- position.
use Prim.Native.Nat.{ℕ, zero, suc, ◌+◌, ◌-◌, ◌<◌, min}
use mathlib.Core.Path.{◌≡◌, refl, ap}
use mathlib.Core.Logic.{◌⊎◌, inl, inr}
use mathlib.Core.List.{List, [], ◌∷◌, ◌++◌}
use mathlib.Core.Option.{Option, none, some}
use native.Mathlib.Nat.{zero-add}
use native.Mathlib.Omega.{arith}

module _ {ℓ} {A : Type ℓ} where
  abbrev pub length : List A → ℕ
  length [] = 0
  length (x ∷ xs) = suc (length xs)

  -- `objectAtIndex:`, with `none` for the exception.
  abbrev pub get_elem? : List A → ℕ → Option A
  get_elem? [] i = none
  get_elem? (x ∷ xs) zero = some x
  get_elem? (x ∷ xs) (suc i) = get_elem? xs i

  abbrev pub set : List A → ℕ → A → List A
  set [] i v = []
  set (x ∷ xs) zero v = v ∷ xs
  set (x ∷ xs) (suc i) v = x ∷ set xs i v

  -- `removeObjectAtIndex:`
  abbrev pub erase_idx : List A → ℕ → List A
  erase_idx [] i = []
  erase_idx (x ∷ xs) zero = xs
  erase_idx (x ∷ xs) (suc i) = x ∷ erase_idx xs i

  -- `insertObject:atIndex:`
  abbrev pub insert_idx : List A → ℕ → A → List A
  insert_idx xs zero v = v ∷ xs
  insert_idx [] (suc i) v = v ∷ []
  insert_idx (x ∷ xs) (suc i) v = x ∷ insert_idx xs i v

  abbrev pub take : ℕ → List A → List A
  take zero xs = []
  take (suc n) [] = []
  take (suc n) (x ∷ xs) = x ∷ take n xs

  abbrev pub drop : ℕ → List A → List A
  drop zero xs = xs
  drop (suc n) [] = []
  drop (suc n) (x ∷ xs) = drop n xs

  pub length-append : (xs ys : List A) → length (xs ++ ys) ≡ length xs + length ys
  length-append [] ys = omega arith
  length-append (x ∷ xs) ys = omega (arith, length-append xs ys)

  -- The list whose first part is the reverse of the first argument.
  abbrev pub rev_onto : List A → List A → List A
  rev_onto [] l = l
  rev_onto (a ∷ rp) l = rev_onto rp (a ∷ l)

module _ {ℓ} {A : Type ℓ} where
  pub length-rev_onto : (rp l : List A) → length (rev_onto rp l) ≡ length rp + length l
  length-rev_onto [] l = omega arith
  length-rev_onto (a ∷ rp) l = omega (arith, length-rev_onto rp (a ∷ l))

  -- An operation on the index `k` of the whole is the one on `i` of the second part.
  pub get_elem?-rev_onto :
      (rp l : List A) (i k : ℕ) → k ≡ length rp + i → get_elem? (rev_onto rp l) k ≡ get_elem? l i
  get_elem?-rev_onto [] l i k h = ap (get_elem? l) (omega arith)
  get_elem?-rev_onto (a ∷ rp) l i k h = get_elem?-rev_onto rp (a ∷ l) (suc i) k (omega arith)

  pub set-rev_onto :
      (rp l : List A) (i k : ℕ) (v : A)
      → k ≡ length rp + i
      → set (rev_onto rp l) k v ≡ rev_onto rp (set l i v)
  set-rev_onto [] l i k v h = ap (λ j. set l j v) (omega arith)
  set-rev_onto (a ∷ rp) l i k v h = set-rev_onto rp (a ∷ l) (suc i) k v (omega arith)

  pub erase_idx-rev_onto :
      (rp l : List A) (i k : ℕ)
      → k ≡ length rp + i
      → erase_idx (rev_onto rp l) k ≡ rev_onto rp (erase_idx l i)
  erase_idx-rev_onto [] l i k h = ap (erase_idx l) (omega arith)
  erase_idx-rev_onto (a ∷ rp) l i k h = erase_idx-rev_onto rp (a ∷ l) (suc i) k (omega arith)

  pub insert_idx-rev_onto :
      (rp l : List A) (i k : ℕ) (v : A)
      → k ≡ length rp + i
      → insert_idx (rev_onto rp l) k v ≡ rev_onto rp (insert_idx l i v)
  insert_idx-rev_onto [] l i k v h = ap (λ j. insert_idx l j v) (omega arith)
  insert_idx-rev_onto (a ∷ rp) l i k v h = insert_idx-rev_onto rp (a ∷ l) (suc i) k v (omega arith)

  pub rev_onto-append : (rp l m : List A) → rev_onto rp l ++ m ≡ rev_onto rp (l ++ m)
  rev_onto-append [] l m = refl
  rev_onto-append (a ∷ rp) l m = rev_onto-append rp (a ∷ l) m

  -- A list split at one of its elements.
  pub record Split (l : List A) (k : ℕ) (x : A) : Type ℓ where
    pub before : List A
    pub after : List A
    pub whole : l ≡ rev_onto before (x ∷ after)
    pub position : length before ≡ k

  Split-onto :
      (rp l : List A) (k : ℕ) (x : A)
      → get_elem? l k ≡ some x
      → Split (rev_onto rp l) (length rp + k) x
  Split-onto rp [] k x h = cc
  Split-onto rp (y ∷ l) zero x h = record {
    before = rp;
    after = l;
    whole = cc;
    position = omega arith;
  }
  Split-onto rp (y ∷ l) (suc k) x h =
      let e : suc (length rp) + k ≡ length rp + suc k = omega arith in
      rw e at (Split-onto (y ∷ rp) l k x h)

  pub Split-at : (l : List A) (k : ℕ) (x : A) → get_elem? l k ≡ some x → Split l k x
  Split-at l k x h = rw zero-add at (Split-onto [] l k x h)

  pub lt-length_of_get_elem? :
      (xs : List A) (i : ℕ) {x : A} → get_elem? xs i ≡ some x → i < length xs
  lt-length_of_get_elem? [] i h = cc
  lt-length_of_get_elem? (y ∷ xs) zero h = omega arith
  lt-length_of_get_elem? (y ∷ xs) (suc i) h = omega (arith, lt-length_of_get_elem? xs i h)

  pub length-take : (n : ℕ) (xs : List A) → length (take n xs) ≡ min n (length xs)
  length-take zero xs = omega arith
  length-take (suc n) [] = omega arith
  length-take (suc n) (x ∷ xs) = omega (arith, length-take n xs)

  pub length-drop : (n : ℕ) (xs : List A) → length (drop n xs) ≡ length xs - n
  length-drop zero xs = omega arith
  length-drop (suc n) [] = omega arith
  length-drop (suc n) (x ∷ xs) = omega (arith, length-drop n xs)

  pub List-cases : (l : List A) → (l ≡ []) ⊎ (0 < length l)
  List-cases [] = inl refl
  List-cases (x ∷ l) = inr (omega arith)

pub append_assoc {ℓ} : {A : Type ℓ} (xs ys zs : List A) → (xs ++ ys) ++ zs ≡ xs ++ (ys ++ zs)
append_assoc [] ys zs = refl
append_assoc (x ∷ xs) ys zs = ap (x ∷◌) (append_assoc xs ys zs)

pub append_nil {ℓ} : {A : Type ℓ} (xs : List A) → xs ++ [] ≡ xs
append_nil [] = refl
append_nil (x ∷ xs) = ap (x ∷◌) (append_nil xs)
