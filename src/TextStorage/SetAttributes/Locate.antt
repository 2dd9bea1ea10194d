-- ===== src/TextStorage/SetAttributes/Locate.antt =====
-- Source/GSTextStorage.m, `setAttributes:range:`: the run that holds the end of the range.
use libs_gui.Base.{
  ℕ, suc, ◌≤◌, ◌<◌, ◌≡◌, List, [], ◌∷◌, ◌&&◌, arith, leb, ltb, rev_onto, length, if◌then◌else◌,
}
use libs_gui.TextStorage.Cache.{
  Foundation, Cache, cache_attributes, cache_attributes-IsProper, count-cache_attributes,
}
use libs_gui.TextStorage.Store.{TextInfo}
use libs_gui.TextStorage.Runs.{Descending, Ascending, Apart, value, value_before, value-rev_onto}
use libs_gui.TextStorage.Lookup.{start_of}
use libs_gui.TextStorage.SetAttributes.Split.{Ascending-raise, value_first, start_of-le}
use libs_gui.TextStorage.SetAttributes.Purge.{uses-rev_onto, Counts}

module _ {D : Type 0} ⦃f : Foundation D⦄ where
  -- The array that is left for the removal: the runs before and after the index, and where the run
  -- of the new attributes begins. With that run in place it means what the edit asks for.
  pub record Ready (ext : D → ℕ) (a : D) (begin after len : ℕ) (old : List (TextInfo D))
      (r : List (TextInfo D)) (x : TextInfo D) (l : List (TextInfo D)) (b : ℕ) (c : Cache D)
      : Type 0 where
    pub counts : Counts ext (rev_onto r (x ∷ l)) c
    pub before : Descending r x.loc
    pub inside : b < len
    pub follow : Ascending b len l
    pub small : length r < 2147483648
    pub meaning :
        (d : D) (i : ℕ)
        → i < len
        → value (if leb b i then a else value_before d (x ∷ r) i) l i
          ≡ (if leb begin i && ltb i after then a else value d old i)

  module _ (ext : D → ℕ) (a : D) (begin after len : ℕ) (rp : List (TextInfo D)) (x : TextInfo D)
      (l : List (TextInfo D)) (c : Cache D) (le : begin < after) (le' : after ≤ len)
      (bl : len < 2147483647) (apart : Apart len rp x l) (h : Counts ext (rev_onto rp (x ∷ l)) c)
      (small : length rp < 2147483648) where
    -- The range ends with the text.
    pub Ready-last :
        after ≡ len → l ≡ [] → Ready ext a begin after len (rev_onto rp (x ∷ l)) rp x l begin c
    Ready-last e n = record {
      counts = h;
      before = apart.before;
      inside = omega arith;
      follow = rw n tt;
      small = small;
      meaning = λ d i lt. rw (value-rev_onto d rp (x ∷ l) i, n) (ground arith);
    }

    module _ (at_end : x.loc ≤ after) (past : after < start_of l len) where
      start_le : start_of l len ≤ len
      start_le = start_of-le x.loc len l apart.after

      -- The run at the end has the new attributes.
      pub Ready-same :
          x.attrs ≡ a
          → (b : ℕ) → b ≡ (if ltb x.loc begin then x.loc else begin)
          → Ready ext a begin after len (rev_onto rp (x ∷ l)) rp x l b c
      Ready-same e b eb = record {
        counts = h;
        before = apart.before;
        inside = ground arith;
        follow = Ascending-raise x.loc b len l apart.after (ground arith);
        small = small;
        meaning = λ d i lt. rw (value-rev_onto d rp (x ∷ l) i) (
            ground (
              arith,
              value_first x.loc len a l i apart.after,
              value_first x.loc len (value_before d rp i) l i apart.after,
            ));
      }

      -- The run at the end starts before the range, and is split.
      pub Ready-split :
          x.loc ≤ begin
          → Ready ext a begin after len
              (rev_onto rp (x ∷ l))
              rp
              x
              (record { loc = after; attrs = x.attrs } ∷ l)
              begin
              (cache_attributes x.attrs c)
      Ready-split lt = record {
        counts = record {
          proper = cache_attributes-IsProper x.attrs c h.proper;
          exact = λ e. omega (
            arith,
            count-cache_attributes x.attrs e c,
            h.exact e,
            uses-rev_onto e rp (x ∷ l),
            uses-rev_onto e rp (x ∷ record { loc = after; attrs = x.attrs } ∷ l),
          );
        };
        before = apart.before;
        inside = omega arith;
        follow = (le, omega (arith, start_le), Ascending-raise x.loc after len l apart.after past);
        small = small;
        meaning = λ d i lt. rw (value-rev_onto d rp (x ∷ l) i) (
            ground (
              arith,
              value_first x.loc len a l i apart.after,
              value_first x.loc len x.attrs l i apart.after,
              value_first x.loc len (value_before d rp i) l i apart.after,
            ));
      }

  -- The run at the end starts within the range, and is cut to start behind it.
  pub Ready-cut :
      (ext : D → ℕ) (a : D) (begin after len : ℕ) (rp : List (TextInfo D)) (y x : TextInfo D)
      (l : List (TextInfo D)) (c : Cache D)
      → begin < after
      → Apart len (y ∷ rp) x l
      → Counts ext (rev_onto (y ∷ rp) (x ∷ l)) c
      → suc (length rp) < 2147483648
      → x.loc ≤ after
      → after < start_of l len
      → begin < x.loc
      → Ready ext a begin after len
          (rev_onto (y ∷ rp) (x ∷ l))
          rp
          y
          (record { loc = after; attrs = x.attrs } ∷ l)
          begin
          c
  Ready-cut ext a begin after len rp y x l c le apart h small at_end past lt = record {
    counts = record {
      proper = h.proper;
      exact = λ e. omega (
        arith,
        h.exact e,
        uses-rev_onto e rp (y ∷ x ∷ l),
        uses-rev_onto e rp (y ∷ record { loc = after; attrs = x.attrs } ∷ l),
      );
    };
    before = apart.before.1;
    inside = omega (arith, start_of-le x.loc len l apart.after);
    follow = (
      le,
      omega (arith, start_of-le x.loc len l apart.after),
      Ascending-raise x.loc after len l apart.after past,
    );
    small = omega arith;
    meaning = λ d i lt'. rw (value-rev_onto d (y ∷ rp) (x ∷ l) i) (
        ground (
          arith,
          value_first x.loc len a l i apart.after,
          value_first x.loc len x.attrs l i apart.after,
          value_first x.loc len (value_before d (y ∷ rp) i) l i apart.after,
          value_first x.loc len y.attrs l i apart.after,
          value_first x.loc len (value_before d rp i) l i apart.after,
        ));
  }
