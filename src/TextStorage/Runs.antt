-- ===== src/TextStorage/Runs.antt =====
-- What the runs of Source/GSTextStorage.m mean: `_sanity`, the attributes of each character, and the
-- number of runs with given attributes. The runs before a position are kept in reverse.
use libs_gui.Base.{
  ℕ, suc, ◌+◌, ◌≤◌, ◌<◌, ◌≡◌, refl, List, [], ◌∷◌, arith, leb, if◌then◌else◌, rev_onto, length,
  Split, Split-at, get_elem?-rev_onto,
}
use libs_gui.TextStorage.Store.{TextInfo}
use libs_gui.TextStorage.Search.Correct.{HasRuns, next_start}

module _ {D : Type 0} where
  -- Positions grow, above the first argument and below the length of the text.
  abbrev pub Ascending : ℕ → ℕ → List (TextInfo D) → Type 0
  Ascending p len [] = Unit {0}
  Ascending p len (x ∷ l) = (p < x.loc) × (x.loc < len) × Ascending x.loc len l

  -- What `_sanity` asserts.
  abbrev pub IsSane : List (TextInfo D) → ℕ → Type 0
  IsSane [] len = ⊥
  IsSane (x ∷ l) len = (x.loc ≡ 0) × Ascending 0 len l

  -- The runs before a position, the nearest first, down to the run at 0.
  abbrev pub Descending : List (TextInfo D) → ℕ → Type 0
  Descending [] p = p ≡ 0
  Descending (x ∷ rp) p = (x.loc < p) × Descending rp x.loc

  -- The attributes of the character at `i`: those of the last run that starts at or before it.
  abbrev pub value : D → List (TextInfo D) → ℕ → D
  value d [] i = d
  value d (x ∷ l) i = value (if leb x.loc i then x.attrs else d) l i

  abbrev pub value_before : D → List (TextInfo D) → ℕ → D
  value_before d [] i = d
  value_before d (x ∷ rp) i = if leb x.loc i then x.attrs else value_before d rp i

  pub value-rev_onto :
      (d : D) (rp l : List (TextInfo D)) (i : ℕ)
      → value d (rev_onto rp l) i ≡ value (value_before d rp i) l i
  value-rev_onto d [] l i = refl
  value-rev_onto d (a ∷ rp) l i = value-rev_onto d rp (a ∷ l) i

  pub value_skip :
      (p len : ℕ) (d : D) (l : List (TextInfo D)) (i : ℕ)
      → Ascending p len l
      → i ≤ p
      → value d l i ≡ d
  value_skip p len d [] i h le = refl
  value_skip p len d (x ∷ l) i h le = ground (arith, value_skip x.loc len d l i)

  pub length-Ascending :
      (p len : ℕ) (l : List (TextInfo D)) → p < len → Ascending p len l → length l + p < len
  length-Ascending p len [] h a = omega arith
  length-Ascending p len (x ∷ l) h a = omega (arith, length-Ascending x.loc len l a.1 a.2)

  -- A sane array taken apart at one of its runs, and put together.
  pub record Apart (len : ℕ) (rp : List (TextInfo D)) (x : TextInfo D) (l : List (TextInfo D))
      : Type 0 where
    pub before : Descending rp x.loc
    pub inside : x.loc < len
    pub after : Ascending x.loc len l

  pub take-Apart :
      (len : ℕ) (rp : List (TextInfo D)) (x : TextInfo D) (l : List (TextInfo D))
      → 0 < len
      → IsSane (rev_onto rp (x ∷ l)) len
      → Apart len rp x l
  take-Apart len [] x l h s = record {
    before = s.0;
    inside = omega (arith, s.0);
    after = rw s.0 s.1;
  }
  take-Apart len (a ∷ rp) x l h s =
      let t = take-Apart len rp a (x ∷ l) h s in
      record { before = (t.after.0, t.before); inside = t.after.1; after = t.after.2 }

  pub put_together :
      (len : ℕ) (rp : List (TextInfo D)) (x : TextInfo D) (l : List (TextInfo D))
      → Apart len rp x l
      → IsSane (rev_onto rp (x ∷ l)) len
  put_together len [] x l a = (a.before, rw a.before at a.after)
  put_together len (b ∷ rp) x l a = put_together len rp b (x ∷ l) (record {
    before = a.before.1;
    inside = omega (arith, a.before.0, a.inside);
    after = (a.before.0, a.inside, a.after);
  })

  pub length-IsSane :
      (l : List (TextInfo D)) (len : ℕ) → IsSane l len → (0 < length l) × (length l ≤ len + 1)
  length-IsSane [] len s = absurd s
  length-IsSane (x ∷ []) len s = omega arith
  length-IsSane (x ∷ y ∷ l) len s = omega (arith, s.1, length-Ascending 0 len (y ∷ l))

  -- No run of a sane array is empty.
  pub IsSane-HasRuns : (l : List (TextInfo D)) (len : ℕ) → 0 < len → IsSane l len → HasRuns l len
  IsSane-HasRuns l len h s k x e =
      let p = Split-at l k x e in
      let a = take-Apart len p.before x p.after h (rw p.whole at s) in runs_at p a
    where
      next_run :
          (r : List (TextInfo D))
          → Ascending x.loc len r
          → x.loc < len
          → (x.loc < next_start (x ∷ r) 0 len) × (next_start (x ∷ r) 0 len ≤ len)
      next_run [] a i = omega arith
      next_run (y ∷ r) a i = omega arith

      runs_at :
          (p : Split l k x)
          → Apart len p.before x p.after
          → (x.loc < next_start l k len) × (next_start l k len ≤ len)
      runs_at p a =
          rw
            (
              p.whole,
              get_elem?-rev_onto p.before (x ∷ p.after) 1 (suc k) (omega (arith, p.position)),
            )
            (next_run p.after a.after a.inside)
