-- ===== src/TextStorage/Replace/Meaning.antt =====
-- Source/GSTextStorage.m, `replaceCharactersInRange:withString:`: the attributes of the new characters
-- and of the old ones in their new places.
use libs_gui.Base.{
  ℕ, ◌+◌, ◌-◌, ◌≤◌, ◌<◌, ◌≡◌, ◌≢◌, ◌⊎◌, inl, inr, refl, sym, ◌∙◌, List, [], ◌∷◌, arith, ltb, ◌==◌,
  ◌&&◌, not, if◌then◌else◌, rev_onto, Range, dec_lt, ltb-true, ltb-false,
}
use libs_gui.TextStorage.Cache.{Foundation}
use libs_gui.TextStorage.Store.{TextInfo}
use libs_gui.TextStorage.Runs.{
  Ascending, Descending, Apart, IsSane, put_together, value, value_before, value-rev_onto,
}
use libs_gui.TextStorage.Lookup.{start_of}
use libs_gui.TextStorage.SetAttributes.Split.{value_first}
use libs_gui.TextStorage.Replace.Clip.{clipped}
use libs_gui.TextStorage.Replace.Rest.{
  Rest, clipped-Rest, clipped-value, moved, moved-Ascending, moved-value, start_of-moved,
  start_of-gt, value_reached,
}

-- The index whose attributes the new characters take.
abbrev pub start_index : Range → ℕ
start_index r = if r.length == 0 && not (r.location == 0) then r.location - 1 else r.location

-- The old character whose attributes the new one at an index has.
abbrev pub source_index : Range → ℕ → ℕ → ℕ
source_index r n i =
    if ltb i r.location
    then i
    else if ltb i (r.location + n)
    then start_index r
    else i + r.length - n

module _ {D : Type 0} ⦃f : Foundation D⦄ where
  -- Before the first of the moved runs, the attributes are those given.
  moved_first :
      (r : Range) (n len p : ℕ) (l : List (TextInfo D))
      → Rest p (r.location + r.length) len l
      → (d : D) (i : ℕ) → i < start_of (clipped (r.location + r.length) len l) len + n - r.length
      → value d (moved n r.length (clipped (r.location + r.length) len l)) i ≡ d
  moved_first r n len p l c d i h =
      let m = clipped (r.location + r.length) len l in
      value_first i (len + n - r.length) d (moved n r.length m) i
        (moved-Ascending n r.length p i len m c.ascending (omega (arith, c.start)) (λ _. h))
        (rw (start_of-moved n r.length len m) h)

  module _ (r : Range) (n len : ℕ) (rp : List (TextInfo D)) (x : TextInfo D) (l : List (TextInfo D))
      (apart : Apart len rp x l) (le : x.loc ≤ start_index r) (lt : start_index r < start_of l len)
      (inside : r.location < len) (fits : r.location + r.length ≤ len) where
    abbrev pub rest_runs : List (TextInfo D)
    rest_runs = clipped (r.location + r.length) len l

    pub rest : Rest x.loc (r.location + r.length) len l
    rest = clipped-Rest x.loc (r.location + r.length) len l apart.after fits

    -- The run of the new characters stays.
    pub kept-IsSane :
        x.loc < start_of rest_runs len + n - r.length
        → IsSane (rev_onto rp (x ∷ moved n r.length rest_runs)) (len + n - r.length)
    kept-IsSane past = put_together (len + n - r.length) rp x (moved n r.length rest_runs) (record {
      before = apart.before;
      inside = omega (arith, past, rest.start_le);
      after =
          moved-Ascending n r.length x.loc x.loc len rest_runs rest.ascending
            (omega (arith, rest.start)) (λ _. past);
    })

    module _ (d : D) (i : ℕ) where
      -- The value at `i` in the new array, and at `j` in the old one, by the run that stays.
      abbrev new_value : D
      new_value = value (value_before d (x ∷ rp) i) (moved n r.length rest_runs) i

      abbrev old_value : ℕ → D
      old_value j = value (value_before d (x ∷ rp) j) l j

      kept_left : i < r.location → new_value ≡ old_value i
      kept_left h =
          moved_first r n len x.loc l rest (value_before d (x ∷ rp) i) i (omega (arith, rest.start))
          ∙ sym (value_first x.loc len (value_before d (x ∷ rp) i) l i apart.after (ground arith))

      kept_middle : r.location ≤ i → i < r.location + n → new_value ≡ old_value (start_index r)
      kept_middle h h' =
          let e : value_before d (x ∷ rp) i ≡ x.attrs = ground arith in
          let e' : value_before d (x ∷ rp) (start_index r) ≡ x.attrs = ground arith in
          rw (e, e')
            (moved_first r n len x.loc l rest x.attrs i (omega (arith, rest.start))
              ∙ sym (value_first x.loc len x.attrs l (start_index r) apart.after lt))

      kept_right :
          r.location + n ≤ i → i < len + n - r.length → new_value ≡ old_value (i + r.length - n)
      kept_right h h' =
          let e : value_before d (x ∷ rp) i ≡ x.attrs = ground arith in
          let e' : value_before d (x ∷ rp) (i + r.length - n) ≡ x.attrs = ground arith in
          rw (e, e')
            (moved-value n r.length x.loc len x.attrs rest_runs i rest.ascending
                (omega (arith, rest.start)) (omega arith)
              ∙ clipped-value x.loc (r.location + r.length) len x.attrs l (i + r.length - n)
                  apart.after (omega arith) (omega arith))

      pub kept-value :
          i < len + n - r.length
          → value d (rev_onto rp (x ∷ moved n r.length rest_runs)) i
            ≡ value d (rev_onto rp (x ∷ l)) (source_index r n i)
      kept-value h =
          value-rev_onto d rp (x ∷ moved n r.length rest_runs) i
          ∙ by_place
          ∙ sym (value-rev_onto d rp (x ∷ l) (source_index r n i))
        where
          by_place : new_value ≡ old_value (source_index r n i)
          by_place = elim (dec_lt i r.location) [
            | yes p ↦ rw (ltb-true i r.location p) (kept_left p)
            | no np ↦ elim (dec_lt i (r.location + n)) [
              | yes q ↦
                  rw (ltb-false i r.location (omega arith), ltb-true i (r.location + n) q)
                    (kept_middle (omega arith) q)
              | no nq ↦
                  rw
                    (
                      ltb-false i r.location (omega arith),
                      ltb-false i (r.location + n) (omega arith),
                    )
                    (kept_right (omega arith) h)
            ]
          ]

  module _ (r : Range) (len : ℕ) (rp : List (TextInfo D)) (x : TextInfo D) (l : List (TextInfo D))
      (apart : Apart len rp x l) (inside : r.location < len) (fits : r.location + r.length ≤ len)
      (start : x.loc ≡ r.location)
      (end : start_of (clipped (r.location + r.length) len l) len ≡ r.location + r.length) where
    pub dropped-value :
        (d : D) (i : ℕ)
        → i < len - r.length
        → value d (rev_onto rp (moved 0 r.length (clipped (r.location + r.length) len l))) i
          ≡ value d (rev_onto rp (x ∷ l)) (source_index r 0 i)
    dropped-value d i h =
        let w = value_before d rp i in
        let v = value_before d (x ∷ rp) (i + r.length) in
        let c = clipped-Rest x.loc (r.location + r.length) len l apart.after fits in
        let m = clipped (r.location + r.length) len l in
        rw
          (
            value-rev_onto d rp (moved 0 r.length m) i,
            value-rev_onto d rp (x ∷ l) (source_index r 0 i),
          )
          (ground (
            arith,
            moved_first r 0 len x.loc l c w i,
            moved-value 0 r.length x.loc len w m i c.ascending,
            value_reached w x.attrs len m (i + r.length),
            clipped-value x.loc (r.location + r.length) len x.attrs l (i + r.length) apart.after,
            value_first x.loc len w l i apart.after,
            c.later,
          ))

    pub dropped-IsSane :
        (rp ≢ []) ⊎ (clipped (r.location + r.length) len l ≢ [])
        → IsSane
            (rev_onto rp (moved 0 r.length (clipped (r.location + r.length) len l)))
            (len - r.length)
    dropped-IsSane some_left =
        go rp (clipped (r.location + r.length) len l) apart.before
          (clipped-Rest x.loc (r.location + r.length) len l apart.after fits).ascending end
          some_left
      where
        minus_zero : len + 0 - r.length ≡ len - r.length
        minus_zero = omega arith

        go :
            (rp m : List (TextInfo D))
            → Descending rp x.loc
            → Ascending x.loc len m
            → start_of m len ≡ r.location + r.length
            → (rp ≢ []) ⊎ (m ≢ [])
            → IsSane (rev_onto rp (moved 0 r.length m)) (len - r.length)
        go (a ∷ rp) m h asc e _ = put_together (len - r.length) rp a (moved 0 r.length m) (record {
          before = h.1;
          inside = omega (arith, h.0);
          after = rw minus_zero at (
              moved-Ascending 0 r.length x.loc a.loc len m asc (omega arith)
                (λ _. omega (arith, h.0)));
        })
        go [] (y ∷ m) h asc e _ = (
          omega (arith, h),
          rw minus_zero at (
              moved-Ascending 0 r.length y.loc 0 len m asc.2
                (omega (arith, start_of-gt y.loc len m asc.2 asc.1))
                (λ _. omega (arith, h, start_of-gt y.loc len m asc.2 asc.1))),
        )
        go [] [] h asc e (inl n) = absurd (n refl)
        go [] [] h asc e (inr n) = absurd (n refl)
