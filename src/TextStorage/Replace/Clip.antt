-- ===== src/TextStorage/Replace/Clip.antt =====
-- Source/GSTextStorage.m, `replaceCharactersInRange:withString:`: the runs that start within the
-- range that is replaced.
use libs_gui.Base.{
  ℕ, zero, suc, ◌+◌, ◌-◌, ◌≤◌, ◌<◌, ◌≡◌, refl, ◌∙◌, List, [], ◌∷◌, arith, leb, ltb, rev_onto,
  length, u32_lem, u32_pred-suc, get_elem?-rev_onto, erase_idx-rev_onto, set-rev_onto,
  if◌then◌else◌, dec_lt, dec_le, ltb-true, ltb-false, leb-true, leb-false,
}
use libs_gui.TextStorage.Cache.{Foundation, Cache, un_cache_attributes}
use libs_gui.TextStorage.Store.{
  TextInfo, TextStorage, ok, object_at, remove_at, set_object, un_cached,
}
use libs_gui.TextStorage.SetAttributes.Purge.{uses-rev_onto, Counts, Counts-remove}
use libs_gui.TextStorage.Replace.{remove_within, clip_runs}

module _ {D : Type 0} ⦃f : Foundation D⦄ where
  -- A storage with this array and this cache.
  abbrev pub on : List (TextInfo D) → Cache D → TextStorage D → TextStorage D
  on m c s = record s { info_array = m; cache = c }

  pub remove_at_on :
      (rp : List (TextInfo D)) (x : TextInfo D) (l : List (TextInfo D)) (c : Cache D)
      (s : TextStorage D)
      → remove_at (length rp) (on (rev_onto rp (x ∷ l)) c s)
        ≡ ok tt (on (rev_onto rp l) (un_cache_attributes x.attrs c) s)
  unfolding remove_at object_at un_cached
  remove_at_on rp x l c s = rw (
    get_elem?-rev_onto rp (x ∷ l) 0 (length rp) (omega arith),
    erase_idx-rev_onto rp (x ∷ l) 0 (length rp) (omega arith),
  )

  -- The last of the runs that start within the range, and the runs after it.
  abbrev pub within_run : ℕ → TextInfo D → List (TextInfo D) → TextInfo D
  within_run after x [] = x
  within_run after x (y ∷ l) = if leb y.loc after then within_run after y l else x

  abbrev pub within_rest : ℕ → TextInfo D → List (TextInfo D) → List (TextInfo D)
  within_rest after x [] = []
  within_rest after x (y ∷ l) = if leb y.loc after then within_rest after y l else y ∷ l

  record Within (ext : D → ℕ) (fuel after : ℕ) (rp : List (TextInfo D)) (x : TextInfo D)
      (l : List (TextInfo D)) (c : Cache D) (s : TextStorage D) : Type 0 where
    cache : Cache D
    counts : Counts ext (rev_onto rp (within_run after x l ∷ within_rest after x l)) cache
    result :
        remove_within fuel
          (length rp)
          after
          (length rp + suc (length l))
          x
          (on (rev_onto rp (x ∷ l)) c s)
        ≡ ok
            (within_run after x l, length rp + suc (length (within_rest after x l)))
            (on (rev_onto rp (within_run after x l ∷ within_rest after x l)) cache s)

  module _ (fuel after : ℕ) (rp : List (TextInfo D)) (x y : TextInfo D) (l : List (TextInfo D))
      (c : Cache D) (s : TextStorage D) where
    within_step :
        remove_within
          (suc fuel)
          (length rp)
          after
          (length rp + suc (suc (length l)))
          x
          (on (rev_onto rp (x ∷ y ∷ l)) c s)
        ≡ (if leb y.loc after
            then remove_within fuel
                (length rp)
                after
                (length rp + suc (length l))
                y
                (on (rev_onto rp (y ∷ l)) (un_cache_attributes x.attrs c) s)
            else ok (x, length rp + suc (suc (length l))) (on (rev_onto rp (x ∷ y ∷ l)) c s))
    unfolding remove_within object_at
    within_step =
        let down : length rp + suc (suc (length l)) - 1 ≡ length rp + suc (length l) =
          omega arith in
        ground (
          arith,
          get_elem?-rev_onto rp (x ∷ y ∷ l) 1 (suc (length rp)),
          down,
          remove_at_on rp x (y ∷ l) c s,
        )

  within_stop :
      (fuel k after : ℕ) (x : TextInfo D) (s : TextStorage D)
      → remove_within fuel k after (k + 1) x s ≡ ok (x, k + 1) s
  unfolding remove_within
  within_stop zero k after x s = refl
  within_stop (suc fuel) k after x s = ground arith

  within_lem :
      (ext : D → ℕ) (fuel after : ℕ) (rp : List (TextInfo D)) (x : TextInfo D)
      (l : List (TextInfo D)) (c : Cache D) (s : TextStorage D)
      → length l ≤ fuel
      → Counts ext (rev_onto rp (x ∷ l)) c
      → Within ext fuel after rp x l c s
  within_lem ext fuel after rp x [] c s le h = record {
    cache = c;
    counts = h;
    result = within_stop fuel (length rp) after x _;
  }
  within_lem ext zero after rp x (y ∷ l) c s le h = absurd (omega arith)
  within_lem ext (suc fuel) after rp x (y ∷ l) c s le h = elim (dec_le y.loc after) [
    | yes p ↦
        let r =
          within_lem ext fuel after rp y l (un_cache_attributes x.attrs c) s (omega arith)
            (Counts-remove ext rp x (y ∷ l) c h) in
        record {
          cache = r.cache;
          counts = rw (leb-true y.loc after p) r.counts;
          result = within_step fuel after rp x y l c s ∙ rw (leb-true y.loc after p) r.result;
        }
    | no n ↦ record {
      cache = c;
      counts = rw (leb-false y.loc after (omega arith)) h;
      result = within_step fuel after rp x y l c s ∙ rw (leb-false y.loc after (omega arith)) refl;
    }
  ]

  -- The runs after the one that gives the attributes, once the range is gone.
  abbrev pub clipped : ℕ → ℕ → List (TextInfo D) → List (TextInfo D)
  clipped after len [] = []
  clipped after len (y ∷ l) =
      if ltb y.loc after
      then (if ltb after len
          then record (within_run after y l) { loc = after } ∷ within_rest after y l
          else within_rest after y l)
      else y ∷ l

  pub record Clipped (ext : D → ℕ) (after len : ℕ) (rp : List (TextInfo D)) (l : List (TextInfo D))
      (c : Cache D) (s : TextStorage D) : Type 0 where
    pub cache : Cache D
    pub counts : Counts ext (rev_onto rp (clipped after len l)) cache
    pub result :
        clip_runs (length rp) after (length rp + length l) (on (rev_onto rp l) c s)
        ≡ ok
            (length rp + length (clipped after len l))
            (on (rev_onto rp (clipped after len l)) cache s)

  Counts-moved :
      (ext : D → ℕ) (rp : List (TextInfo D)) (x : TextInfo D) (l : List (TextInfo D)) (c : Cache D)
      (b : ℕ)
      → Counts ext (rev_onto rp (x ∷ l)) c
      → Counts ext (rev_onto rp (record x { loc = b } ∷ l)) c
  Counts-moved ext rp x l c b h = record {
    proper = h.proper;
    exact = λ e. omega (
      arith,
      h.exact e,
      uses-rev_onto e rp (x ∷ l),
      uses-rev_onto e rp (record x { loc = b } ∷ l),
    );
  }

  length-within_rest :
      (after : ℕ) (x : TextInfo D) (l : List (TextInfo D))
      → length (within_rest after x l) ≤ length l
  length-within_rest after x [] = omega arith
  length-within_rest after x (y ∷ l) = ground (arith, length-within_rest after y l)

  -- On runs of which the first starts within the range.
  pub clip_lem :
      (ext : D → ℕ) (after len : ℕ) (rp : List (TextInfo D)) (y : TextInfo D)
      (l : List (TextInfo D)) (c : Cache D) (s : TextStorage D)
      → Counts ext (rev_onto rp (y ∷ l)) c
      → y.loc < after
      → len ≡ length s.text_chars
      → length rp + length (y ∷ l) < 2147483648
      → after < 2147483648
      → Clipped ext after len rp (y ∷ l) c s
  unfolding clip_runs object_at set_object
  clip_lem ext after len rp y l c s h lt text small small' =
      let w = within_lem ext (length rp + suc (length l)) after rp y l c s (omega arith) h in
      let run = within_run after y l in
      let rest = within_rest after y l in
      let at_rp = get_elem?-rev_onto rp (y ∷ l) 0 (length rp) (omega arith) in
      elim (dec_lt after len) [
        | yes inside ↦ record {
          cache = w.cache;
          counts =
              rw (ltb-true y.loc after lt, ltb-true after len inside)
                (Counts-moved ext rp run rest w.cache after w.counts);
          result =
              rw
                (
                  at_rp,
                  ltb-true y.loc after lt,
                  w.result,
                  ← text,
                  ltb-true after len inside,
                  u32_lem after (omega arith),
                )
                (ground
                  (arith, set-rev_onto rp (run ∷ rest) 0 (length rp) (record run { loc = after })));
        }
        | no past ↦ record {
          cache = un_cache_attributes run.attrs w.cache;
          counts =
              rw (ltb-true y.loc after lt, ltb-false after len (omega arith))
                (Counts-remove ext rp run rest w.cache w.counts);
          result =
              let up : length rp + suc (length rest) ≡ suc (length rp + length rest) =
                omega arith in
              rw (
                at_rp,
                ltb-true y.loc after lt,
                w.result,
                ← text,
                ltb-false after len (omega arith),
                remove_at_on rp run rest w.cache s,
                up,
                u32_pred-suc (length rp + length rest)
                    (omega (arith, length-within_rest after y l)),
              );
        }
      ]
