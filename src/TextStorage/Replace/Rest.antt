-- ===== src/TextStorage/Replace/Rest.antt =====
-- Source/GSTextStorage.m, `replaceCharactersInRange:withString:`: what the runs behind the range mean,
-- and where they move.
use libs_gui.Base.{
  ℕ, ◌+◌, ◌-◌, ◌≤◌, ◌<◌, ◌≡◌, refl, List, [], ◌∷◌, arith, length, rev_onto, u32, set-rev_onto,
  get_elem?-rev_onto,
}
use libs_gui.TextStorage.Cache.{Foundation, Cache}
use libs_gui.TextStorage.Store.{TextInfo, TextStorage, ok, object_at, set_object}
use libs_gui.TextStorage.Runs.{Ascending, value}
use libs_gui.TextStorage.Lookup.{start_of}
use libs_gui.TextStorage.SetAttributes.Purge.{uses}
use libs_gui.TextStorage.SetAttributes.Split.{start_of-le}
use libs_gui.TextStorage.Replace.{move_runs, move_locations}
use libs_gui.TextStorage.Replace.Clip.{clipped, within_run, within_rest, on}

-- An addition of the change of length to a position, modulo 2^32.
u32_move :
    (loc n old : ℕ)
    → loc < 2147483648
    → old ≤ loc
    → loc + n < 2147483648 + old
    → u32 (loc + move_locations n old) ≡ loc + n - old
unfolding u32 move_locations
u32_move loc n old h o b = omega arith

module _ {D : Type 0} ⦃f : Foundation D⦄ where
  within-Ascending :
      (after len : ℕ) (x : TextInfo D) (l : List (TextInfo D))
      → Ascending x.loc len l
      → Ascending after len (within_rest after x l)
  within-Ascending after len x [] h = tt
  within-Ascending after len x (y ∷ l) h = ground (arith, within-Ascending after len y l)

  within-value :
      (after : ℕ) (x : TextInfo D) (l : List (TextInfo D)) (i : ℕ)
      → after ≤ i
      → value x.attrs l i ≡ value (within_run after x l).attrs (within_rest after x l) i
  within-value after x [] i h = refl
  within-value after x (y ∷ l) i h = ground (arith, within-value after y l i)

  start_of-ge :
      (p len : ℕ) (l : List (TextInfo D)) → Ascending p len l → p ≤ len → p ≤ start_of l len
  start_of-ge p len [] h le = le
  start_of-ge p len (x ∷ l) h le = omega (arith, h.0)

  -- The runs left behind the range.
  pub record Rest (p after len : ℕ) (l : List (TextInfo D)) : Type 0 where
    pub ascending : Ascending p len (clipped after len l)
    pub start : after ≤ start_of (clipped after len l) len
    pub start_le : start_of (clipped after len l) len ≤ len
    pub later : start_of l len ≤ start_of (clipped after len l) len

  Ascending-lower :
      (q p len : ℕ) (l : List (TextInfo D)) → q ≤ p → Ascending p len l → Ascending q len l
  Ascending-lower q p len [] h a = tt
  Ascending-lower q p len (x ∷ l) h a = (omega (arith, a.0), a.1, a.2)

  pub clipped-Rest :
      (p after len : ℕ) (l : List (TextInfo D))
      → Ascending p len l
      → after ≤ len
      → Rest p after len l
  clipped-Rest p after len [] h le = record {
    ascending = tt;
    start = le;
    start_le = omega arith;
    later = omega arith;
  }
  clipped-Rest p after len (y ∷ l) h le =
      let w = within-Ascending after len y l h.2 in
      let low : y.loc < after → Ascending p len (within_rest after y l) =
        λ lt. Ascending-lower p after len (within_rest after y l) (omega (arith, h.0)) w in
      record {
        ascending = ground arith;
        start = ground (arith, start_of-ge after len (within_rest after y l) w);
        start_le = ground (arith, start_of-le after len (within_rest after y l) w);
        later = ground (arith, start_of-ge after len (within_rest after y l) w);
      }

  pub clipped-value :
      (p after len : ℕ) (d : D) (l : List (TextInfo D)) (i : ℕ)
      → Ascending p len l
      → after ≤ i
      → i < len
      → value d (clipped after len l) i ≡ value d l i
  clipped-value p after len d [] i h le lt = refl
  clipped-value p after len d (y ∷ l) i h le lt =
      ground (arith, within-value after y l i, within-Ascending after len y l)

  pub start_of-gt :
      (p len : ℕ) (l : List (TextInfo D)) → Ascending p len l → p < len → p < start_of l len
  start_of-gt p len [] h lt = lt
  start_of-gt p len (x ∷ l) h lt = h.0

  -- The runs moved by the change of length.
  abbrev pub moved : ℕ → ℕ → List (TextInfo D) → List (TextInfo D)
  moved n old [] = []
  moved n old (x ∷ l) = record x { loc = x.loc + n - old } ∷ moved n old l

  pub move_runs_lem :
      (n old p len : ℕ) (rp l : List (TextInfo D)) (c : Cache D) (s : TextStorage D)
      → Ascending p len l
      → old ≤ start_of l len
      → len < 2147483648
      → len + n < 2147483648 + old
      → move_runs (length l) (length rp) (move_locations n old) (on (rev_onto rp l) c s)
        ≡ ok tt (on (rev_onto rp (moved n old l)) c s)
  unfolding move_runs object_at set_object
  move_runs_lem n old p len rp [] c s h o o' b = refl
  move_runs_lem n old p len rp (x ∷ l) c s h o o' b =
      rw
        (
          get_elem?-rev_onto rp (x ∷ l) 0 (length rp) (omega arith),
          set-rev_onto rp (x ∷ l) 0 (length rp)
              (record x { loc = u32 (x.loc + move_locations n old) }) (omega arith),
          u32_move x.loc n old (omega (arith, h.1)) o (omega (arith, h.1)),
        )
        (move_runs_lem n old x.loc len (record x { loc = x.loc + n - old } ∷ rp) l c s h.2
          (omega (arith, start_of-gt x.loc len l h.2 h.1)) o' b)

  -- A run keeps its place among the others, and its attributes.
  pub moved-Ascending :
      (n old p q len : ℕ) (l : List (TextInfo D))
      → Ascending p len l
      → old ≤ start_of l len
      → (start_of l len < len → q < start_of l len + n - old)
      → Ascending q (len + n - old) (moved n old l)
  moved-Ascending n old p q len [] h o lt = tt
  moved-Ascending n old p q len (x ∷ l) h o lt =
      let g : x.loc < start_of l len = start_of-gt x.loc len l h.2 h.1 in
      (
        lt h.1,
        omega (arith, h.1),
        moved-Ascending n old x.loc (x.loc + n - old) len l h.2 (omega arith) (λ _. omega arith),
      )

  pub moved-value :
      (n old p len : ℕ) (d : D) (l : List (TextInfo D)) (i : ℕ)
      → Ascending p len l
      → old ≤ start_of l len
      → n ≤ i + old
      → value d (moved n old l) i ≡ value d l (i + old - n)
  moved-value n old p len d [] i h o r = refl
  moved-value n old p len d (x ∷ l) i h o r =
      let g : x.loc < start_of l len = start_of-gt x.loc len l h.2 h.1 in
      ground
        (arith, moved-value n old x.loc len x.attrs l i h.2, moved-value n old x.loc len d l i h.2)

  pub start_of-moved :
      (n old len : ℕ) (l : List (TextInfo D))
      → start_of (moved n old l) (len + n - old) ≡ start_of l len + n - old
  start_of-moved n old len [] = refl
  start_of-moved n old len (x ∷ l) = refl

  pub uses-moved : (n old : ℕ) (e : D) (l : List (TextInfo D)) → uses e (moved n old l) ≡ uses e l
  uses-moved n old e [] = refl
  uses-moved n old e (x ∷ l) = omega (arith, uses-moved n old e l)

  -- From the first of the runs on, nothing depends on the attributes before it.
  pub value_reached :
      (d e : D) (len : ℕ) (l : List (TextInfo D)) (i : ℕ)
      → start_of l len ≤ i
      → i < len
      → value d l i ≡ value e l i
  value_reached d e len [] i h lt = absurd (omega arith)
  value_reached d e len (x ∷ l) i h lt = ground arith
