-- ===== src/TextStorage/Lookup.antt =====
-- Source/GSTextStorage.m, `_attributesAtIndexEffectiveRange` on a sane array: it finds the one run
-- that holds the index, and no other answer is right.
use libs_gui.Base.{
  ℕ, zero, suc, ◌+◌, ◌-◌, ◌≤◌, ◌<◌, ◌≡◌, refl, List, [], ◌∷◌, arith, rev_onto, length, u32_pred,
  u32_lem, get_elem?, some, Split-at, get_elem?-rev_onto, ◌∙◌, ap, lt-length_of_get_elem?,
  suc-u32_pred, dec_lt,
}
use libs_gui.TextStorage.Store.{TextInfo, TextStorage, ok, count_objects}
use libs_gui.TextStorage.Search.{Found, attributes_at_index, search}
use libs_gui.TextStorage.Search.Correct.{
  HasRuns, Locates, get_elem?_ge, next_start, Window, search_lem, get_elem?_lt, loc_or,
}
use libs_gui.TextStorage.Runs.{IsSane, IsSane-HasRuns, length-IsSane, Apart, take-Apart}

module _ {D : Type 0} where
  next_start_mono :
      (l : List (TextInfo D)) (len i d : ℕ) (b : TextInfo D)
      → HasRuns l len
      → get_elem? l (suc (i + d)) ≡ some b
      → next_start l i len ≤ b.loc
  next_start_mono l len i zero b runs e =
      let same : i + 0 ≡ i = omega arith in
      let e' : get_elem? l (suc i) ≡ some b = rw same at e in rw e' (omega arith)
  next_start_mono l len i (suc d) b runs e =
      let next : i + suc d ≡ suc (i + d) = omega arith in
      let e' : get_elem? l (suc (suc (i + d))) ≡ some b = rw next at e in
      let (c, at_c) =
        get_elem?_lt l (suc (i + d))
          (omega (arith, lt-length_of_get_elem? l (suc (suc (i + d))) e')) in
      let r : c.loc < b.loc = rw e' at ((runs (suc (i + d)) c at_c).0) in
      omega (arith, next_start_mono l len i d c runs at_c)

  index_unique :
      (l : List (TextInfo D)) (len index : ℕ) (f g : Found D)
      → HasRuns l len
      → Locates l len index f
      → Locates l len index g
      → g.index ≤ f.index
  index_unique l len index f g runs p q = elim (dec_lt f.index g.index) [
    | yes h ↦
        let step : suc (f.index + (g.index - suc f.index)) ≡ g.index = omega arith in
        absurd (
          omega (
            arith,
            next_start_mono l len f.index (g.index - suc f.index) q.run runs (rw step q.at_index),
            p.not_before,
            q.not_after,
          ))
    | no n ↦ omega arith
  ]

  -- Two answers that hold the index are one.
  Locates-unique :
      (l : List (TextInfo D)) (len index : ℕ) (f g : Found D)
      → HasRuns l len
      → Locates l len index f
      → Locates l len index g
      → f ≡ g
  Locates-unique l len index f g runs p q =
      let e : f.index ≡ g.index =
        omega
          (arith, index_unique l len index f g runs p q, index_unique l len index g f runs q p) in
      ground (
        arith, e, p.at_index, q.at_index, p.attributes, q.attributes, p.start, q.start, p.end,
        q.end,
      )

  first_run :
      (l : List (TextInfo D)) (len : ℕ)
      → IsSane l len
      → (x : TextInfo D) × ((get_elem? l 0 ≡ some x) × (x.loc ≡ 0))
  first_run [] len sane = absurd sane
  first_run (x ∷ l) len sane = (x, (refl, sane.0))

  module _ (s : TextStorage D) (len : ℕ) (sane : IsSane s.info_array len)
      (b : len < 2147483647) where
    size : (0 < length s.info_array) × (length s.info_array ≤ len + 1)
    size = length-IsSane s.info_array len sane

    entry_Window :
        (index : ℕ) → index < len → Window s.info_array len index 0 (u32_pred (length s.info_array))
    entry_Window index h =
        let (x, e) = first_run s.info_array len sane in
        let n = suc-u32_pred (length s.info_array) size.0 (omega (arith, size)) in
        record {
          le = omega arith;
          inside = omega (arith, n);
          lowest = x;
          at_low = e.0;
          below = omega (arith, e.1);
          above = rw (n, get_elem?_ge s.info_array (length s.info_array) (omega arith)) h;
        }

    -- Below the length, the function returns the run that holds the index.
    pub lookup-Locates :
        (index : ℕ)
        → index < len
        → (f : Found D) × (attributes_at_index index len s ≡ ok f s)
          × Locates s.info_array len index f
    unfolding attributes_at_index count_objects
    lookup-Locates index h =
        let n = length s.info_array in
        let enter : attributes_at_index index len s ≡ search (suc n) index len n 0 (u32_pred n) s =
          ground (arith, u32_lem n, size) in
        rw enter (
          search_lem (suc n) index len 0 (u32_pred n) s (omega (arith, size)) (omega arith)
            (IsSane-HasRuns s.info_array len (omega arith) sane)
            (omega (arith, suc-u32_pred n size.0 (omega (arith, size)))) (entry_Window index h))

    pub lookup_lem :
        (index : ℕ) (g : Found D)
        → index < len
        → Locates s.info_array len index g
        → attributes_at_index index len s ≡ ok g s
    lookup_lem index g h q =
        let (f, e, p) = lookup-Locates index h in
        e
        ∙ ap (λ x. ok x s)
            (Locates-unique s.info_array len index f g
              (IsSane-HasRuns s.info_array len (omega arith) sane) p q)

module _ {D : Type 0} where
  -- Where the first of the runs starts, or where the text ends.
  abbrev pub start_of : List (TextInfo D) → ℕ → ℕ
  start_of [] len = len
  start_of (y ∷ l) len = y.loc

  -- The answer at a run, by the runs before and after it.
  abbrev pub at_run : List (TextInfo D) → TextInfo D → List (TextInfo D) → ℕ → Found D
  at_run rp x l len = record {
    index = length rp;
    range = record { location = x.loc; length = start_of l len - x.loc };
    attrs = x.attrs;
  }

  start_of_get :
      (x : TextInfo D) (l : List (TextInfo D)) (len : ℕ)
      → loc_or (get_elem? (x ∷ l) 1) len ≡ start_of l len
  start_of_get x [] len = refl
  start_of_get x (y ∷ l) len = refl

  next_start-rev_onto :
      (rp : List (TextInfo D)) (x : TextInfo D) (l : List (TextInfo D)) (len : ℕ)
      → next_start (rev_onto rp (x ∷ l)) (length rp) len ≡ start_of l len
  next_start-rev_onto rp x l len =
      rw (get_elem?-rev_onto rp (x ∷ l) 1 (suc (length rp)) (omega arith)) (start_of_get x l len)

  at_run-Locates :
      (rp : List (TextInfo D)) (x : TextInfo D) (l : List (TextInfo D)) (len index : ℕ)
      → x.loc ≤ index
      → index < start_of l len
      → Locates (rev_onto rp (x ∷ l)) len index (at_run rp x l len)
  at_run-Locates rp x l len index le lt = record {
    run = x;
    at_index = get_elem?-rev_onto rp (x ∷ l) 0 (length rp) (omega arith);
    attributes = refl;
    start = refl;
    end = omega (arith, next_start-rev_onto rp x l len);
    not_after = le;
    not_before = omega (arith, next_start-rev_onto rp x l len);
  }

  -- A run that holds an index, in an array taken apart there.
  pub record Located (s : TextStorage D) (len index : ℕ) : Type 0 where
    pub before : List (TextInfo D)
    pub run : TextInfo D
    pub after : List (TextInfo D)
    pub whole : s.info_array ≡ rev_onto before (run ∷ after)
    pub apart : Apart len before run after
    pub not_after : run.loc ≤ index
    pub not_before : index < start_of after len
    pub result : attributes_at_index index len s ≡ ok (at_run before run after len) s

  module _ (s : TextStorage D) (len : ℕ) (sane : IsSane s.info_array len)
      (b : len < 2147483647) where
    -- The answer at any run that is known to hold the index.
    pub lookup_at :
        (index : ℕ) (rp : List (TextInfo D)) (x : TextInfo D) (l : List (TextInfo D))
        → index < len
        → s.info_array ≡ rev_onto rp (x ∷ l)
        → x.loc ≤ index
        → index < start_of l len
        → attributes_at_index index len s ≡ ok (at_run rp x l len) s
    lookup_at index rp x l h e le lt =
        lookup_lem s len sane b index (at_run rp x l len) h
          (rw e (at_run-Locates rp x l len index le lt))

    pub lookup : (index : ℕ) → index < len → Located s len index
    lookup index h =
        let (f, e, p) = lookup-Locates s len sane b index h in
        let z = Split-at s.info_array f.index p.run p.at_index in
        let lt : index < start_of z.after len = ground (
          arith,
          next_start-rev_onto z.before p.run z.after len,
          z.whole,
          z.position,
          p.not_before,
        ) in
        record {
          before = z.before;
          run = p.run;
          after = z.after;
          whole = z.whole;
          apart = take-Apart len z.before p.run z.after (omega arith) (rw z.whole at sane);
          not_after = p.not_after;
          not_before = lt;
          result = lookup_at index z.before p.run z.after h z.whole p.not_after lt;
        }
