-- ===== src/TextStorage/Replace/Runs.antt =====
-- Source/GSTextStorage.m, `replaceCharactersInRange:withString:`: the new runs of a storage with several.
use libs_gui.Base.{
  ℕ, suc, ◌+◌, ◌-◌, ◌≤◌, ◌<◌, ◌≡◌, ◌≢◌, ◌⊎◌, refl, ap, ◌∙◌, List, [], ◌∷◌, arith, ◌==◌, length,
  if◌then◌else◌, rev_onto, Range, u32_lem, max_range_lem, length-rev_onto,
}
use libs_gui.TextStorage.Cache.{Foundation, Cache, un_cache_attributes, cache_attributes}
use libs_gui.TextStorage.Store.{TextInfo, TextStorage, M, ok, and_then, pure, count_objects}
use libs_gui.TextStorage.Search.{attributes_at_index}
use libs_gui.TextStorage.Runs.{Apart, IsSane, value, length-IsSane, put_together}
use libs_gui.TextStorage.Lookup.{start_of, at_run}
use libs_gui.TextStorage.SetAttributes.Purge.{uses-rev_onto, Counts, Counts-remove}
use libs_gui.TextStorage.SetAttributes.Split.{start_of-le}
use libs_gui.TextStorage.Replace.{replace_runs, drop_empty, move_runs, move_locations}
use libs_gui.TextStorage.Replace.Clip.{on, clipped}
use libs_gui.TextStorage.Replace.Rest.{Rest, clipped-Rest, moved, move_runs_lem, uses-moved}
use libs_gui.TextStorage.Replace.Meaning.{
  start_index, source_index, kept-IsSane, kept-value, dropped-value, dropped-IsSane,
}
use libs_gui.TextStorage.Replace.Steps.{
  extend_move, ClipStep, drop_dropped, drop_blank, Counts-blank,
}

module _ {D : Type 0} ⦃f : Foundation D⦄ where
  pub record Replaced (ext : D → ℕ) (r : Range) (n len : ℕ) (s : TextStorage D) : Type 0 where
    pub runs : List (TextInfo D)
    pub cache : Cache D
    pub sane : IsSane runs (len + n - r.length)
    pub counts : Counts ext runs cache
    pub meaning :
        (d : D) (i : ℕ)
        → i < len + n - r.length
        → value d runs i ≡ value d s.info_array (source_index r n i)
    pub result : replace_runs r n len s ≡ ok tt (record s { info_array = runs; cache = cache })

  module _ (ext : D → ℕ) (r : Range) (n len : ℕ) (rp : List (TextInfo D)) (x : TextInfo D)
      (l : List (TextInfo D)) (c : Cache D) (s : TextStorage D) (text : len ≡ length s.text_chars)
      (apart : Apart len rp x l) (counts : Counts ext (rev_onto rp (x ∷ l)) c)
      (inside : r.location < len) (fits : r.location + r.length ≤ len) (bl : len < 2147483647)
      (bl' : len + n < 2147483647 + r.length) (le : x.loc ≤ start_index r)
      (lt : start_index r < start_of l len) (size : suc (length rp) + length l ≤ len + 1)
      (hit : attributes_at_index (start_index r) len (on (rev_onto rp (x ∷ l)) c s)
        ≡ ok (at_run rp x l len) (on (rev_onto rp (x ∷ l)) c s))
      (clip : ClipStep ext (r.location + r.length) len rp x l c s) where
    abbrev pub after : ℕ
    after = r.location + r.length

    abbrev pub rest' : List (TextInfo D)
    rest' = clipped after len l

    -- The code up to the test of an empty string.
    abbrev pub at_drop : M D (ℕ × ℕ)
    at_drop =
        if n == 0
        then drop_empty r (start_index r) len (suc (length rp) + length rest')
        else pure (suc (length rp), suc (length rp) + length rest')

    up_to_drop :
        replace_runs r n len (on (rev_onto rp (x ∷ l)) c s)
        ≡ and_then
            (at_drop (on (rev_onto rp (x ∷ rest')) clip.cache s))
            (λ p. move_runs (p.1 - p.0) p.0 (move_locations n r.length))
    unfolding replace_runs count_objects
    up_to_drop =
        let whole : length (rev_onto rp (x ∷ l)) ≡ suc (length rp) + length l =
          omega (arith, length-rev_onto rp (x ∷ l)) in
        let ends : x.loc + (start_of l len - x.loc) ≡ start_of l len = omega arith in
        rw (
          whole,
          u32_lem (suc (length rp) + length l) (omega arith),
          u32_lem (start_index r) (omega (arith, start_of-le x.loc len l apart.after)),
          hit,
          max_range_lem (record { location = x.loc; length = start_of l len - x.loc })
              (omega (arith, start_of-le x.loc len l apart.after)),
          ends,
          max_range_lem r (omega arith),
          clip.result,
          extend_move n r.length (omega arith) (omega arith),
        )

    rest_facts : Rest x.loc after len l
    rest_facts = clipped-Rest x.loc after len l apart.after fits

    Counts-kept : Counts ext (rev_onto rp (x ∷ moved n r.length rest')) clip.cache
    Counts-kept = record {
      proper = clip.counts.proper;
      exact = λ e. omega (
        arith,
        clip.counts.exact e,
        uses-rev_onto e rp (x ∷ rest'),
        uses-rev_onto e rp (x ∷ moved n r.length rest'),
        uses-moved n r.length e rest',
      );
    }

    -- The run of the new characters stays.
    pub Replaced-kept :
        at_drop (on (rev_onto rp (x ∷ rest')) clip.cache s)
          ≡ ok
              (suc (length rp), suc (length rp) + length rest')
              (on (rev_onto rp (x ∷ rest')) clip.cache s)
        → x.loc < start_of rest' len + n - r.length
        → Replaced ext r n len (on (rev_onto rp (x ∷ l)) c s)
    Replaced-kept e past =
        let rounds : suc (length rp) + length rest' - suc (length rp) ≡ length rest' =
          omega arith in
        record {
          runs = rev_onto rp (x ∷ moved n r.length rest');
          cache = clip.cache;
          sane = kept-IsSane r n len rp x l apart le lt inside fits past;
          counts = Counts-kept;
          meaning = λ d i h. kept-value r n len rp x l apart le lt inside fits d i h;
          result =
              up_to_drop
              ∙ rw (e, rounds)
                  (move_runs_lem n r.length x.loc len (x ∷ rp) rest' clip.cache s
                    rest_facts.ascending (omega (arith, rest_facts.start)) (omega arith)
                    (omega arith));
        }

  record Blanked (ext : D → ℕ) (r : Range) (len : ℕ) (q : List (TextInfo D)) (x : TextInfo D)
      (m : List (TextInfo D)) (c : Cache D) (s : TextStorage D) : Type 0 where
    whole : r.length ≡ len
    counts :
        (y : TextInfo D)
        → y.attrs ≡ f.blank
        → Counts ext (y ∷ []) (cache_attributes f.blank (un_cache_attributes x.attrs c))
    result :
        drop_empty r (start_index r) len 1 (on (rev_onto q (x ∷ m)) c s)
        ≡ ok
            (0, 1)
            (on
              (record { loc = len; attrs = f.blank } ∷ [])
              (cache_attributes f.blank (un_cache_attributes x.attrs c))
              s)

  blank_lem :
      (ext : D → ℕ) (r : Range) (len : ℕ) (q : List (TextInfo D)) (x : TextInfo D)
      (m : List (TextInfo D)) (c : Cache D) (s : TextStorage D)
      → Apart len q x m
      → len < 2147483647
      → Counts ext (rev_onto q (x ∷ m)) c
      → q ≡ []
      → m ≡ []
      → x.loc ≡ r.location
      → start_of m len ≡ r.location + r.length
      → Blanked ext r len q x m c s
  blank_lem ext r len [] x [] c s apart bl h e e' start end = record {
    whole = omega (arith, apart.before);
    counts = λ y ey. Counts-blank ext x y c ey h;
    result =
        drop_blank r len x c s apart bl (omega (arith, apart.before)) (omega (arith, apart.before));
  }
  blank_lem ext r len (a ∷ q) x m c s apart bl h e e' start end = cc
  blank_lem ext r len [] x (a ∷ m) c s apart bl h e e' start end = cc

  -- The string is empty, and takes the place of a whole run.
  module _ (ext : D → ℕ) (r : Range) (len : ℕ) (rp : List (TextInfo D)) (x : TextInfo D)
      (l : List (TextInfo D)) (c : Cache D) (s : TextStorage D) (text : len ≡ length s.text_chars)
      (apart : Apart len rp x l) (counts : Counts ext (rev_onto rp (x ∷ l)) c)
      (inside : r.location < len) (fits : r.location + r.length ≤ len) (bl : len < 2147483647)
      (le : x.loc ≤ start_index r) (lt : start_index r < start_of l len)
      (size : suc (length rp) + length l ≤ len + 1)
      (hit : attributes_at_index (start_index r) len (on (rev_onto rp (x ∷ l)) c s)
        ≡ ok (at_run rp x l len) (on (rev_onto rp (x ∷ l)) c s))
      (shorter : ClipStep ext (r.location + r.length) len rp x l c s) (start : x.loc ≡ r.location)
      (end : start_of (clipped (r.location + r.length) len l) len ≡ r.location + r.length) where
    abbrev pub left : List (TextInfo D)
    left = clipped (r.location + r.length) len l

    left_facts : Rest x.loc (r.location + r.length) len l
    left_facts = clipped-Rest x.loc (r.location + r.length) len l apart.after fits

    left-Apart : Apart len rp x left
    left-Apart = record {
      before = apart.before;
      inside = apart.inside;
      after = left_facts.ascending;
    }

    abbrev pub test : M D (ℕ × ℕ)
    test = drop_empty r (start_index r) len (suc (length rp) + length left)

    up_to_test :
        replace_runs r 0 len (on (rev_onto rp (x ∷ l)) c s)
        ≡ and_then
            (test (on (rev_onto rp (x ∷ left)) shorter.cache s))
            (λ p. move_runs (p.1 - p.0) p.0 (move_locations 0 r.length))
    up_to_test =
        up_to_drop ext r 0 len rp x l c s text apart counts inside fits bl (omega arith) le lt size
          hit shorter

    small_left : suc (length rp) + length left < 2147483648
    small_left = omega (
      arith,
      length-rev_onto rp (x ∷ left),
      (length-IsSane (rev_onto rp (x ∷ left)) len (put_together len rp x left left-Apart)).1,
    )

    Counts-dropped :
        (c' : Cache D)
        → Counts ext (rev_onto rp left) c'
        → Counts ext (rev_onto rp (moved 0 r.length left)) c'
    Counts-dropped c' h = record {
      proper = h.proper;
      exact = λ e. omega (
        arith,
        h.exact e,
        uses-rev_onto e rp left,
        uses-rev_onto e rp (moved 0 r.length left),
        uses-moved 0 r.length e left,
      );
    }

    pub Replaced-dropped :
        (rp ≢ []) ⊎ (left ≢ [])
        → 1 < suc (length rp) + length left
        → Replaced ext r 0 len (on (rev_onto rp (x ∷ l)) c s)
    Replaced-dropped some_left two =
        let same : len + 0 - r.length ≡ len - r.length = omega arith in
        let rounds : length rp + length left - length rp ≡ length left = omega arith in
        record {
          runs = rev_onto rp (moved 0 r.length left);
          cache = un_cache_attributes x.attrs shorter.cache;
          sane = rw same (dropped-IsSane r len rp x l apart inside fits start end some_left);
          counts =
              Counts-dropped (un_cache_attributes x.attrs shorter.cache)
                (Counts-remove ext rp x left shorter.cache shorter.counts);
          meaning =
              λ d i h. dropped-value r len rp x l apart inside fits start end d i (omega arith);
          result =
              up_to_test
              ∙ rw
                  (
                    drop_dropped r len rp x left shorter.cache s left-Apart bl le
                        (omega (arith, left_facts.later))
                        (omega (arith, start_of-le x.loc len l apart.after)) start (omega arith)
                        (suc (length rp) + length left) refl small_left two,
                    rounds,
                  )
                  (move_runs_lem 0 r.length x.loc len rp left
                    (un_cache_attributes x.attrs shorter.cache) s left_facts.ascending (omega arith)
                    (omega arith) (omega arith));
        }

    pub Replaced-blank : rp ≡ [] → left ≡ [] → Replaced ext r 0 len (on (rev_onto rp (x ∷ l)) c s)
    Replaced-blank e e' =
        let b =
          blank_lem ext r len rp x left shorter.cache s left-Apart bl shorter.counts e e' start
            end in
        let y : TextInfo D = record { loc = len + 0 - r.length; attrs = f.blank } in
        let one_round : suc (length rp) + length left ≡ 1 =
          omega (arith, ap length e, ap length e') in
        record {
          runs = y ∷ [];
          cache = cache_attributes f.blank (un_cache_attributes x.attrs shorter.cache);
          sane = (omega (arith, b.whole), tt);
          counts = b.counts y refl;
          meaning = λ d i h. absurd (omega (arith, b.whole));
          result =
              up_to_test
              ∙ rw (one_round, b.result)
                  (move_runs_lem 0 r.length 0 (len + 1) []
                    (record { loc = len; attrs = f.blank } ∷ [])
                    (cache_attributes f.blank (un_cache_attributes x.attrs shorter.cache)) s
                    (omega (arith, inside)) (omega arith) (omega arith) (omega arith));
        }
