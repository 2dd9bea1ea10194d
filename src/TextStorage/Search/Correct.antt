-- ===== src/TextStorage/Search/Correct.antt =====
-- The binary search finds the run that holds the index.
use libs_gui.Base.{
  ℕ, zero, suc, ◌+◌, ◌-◌, ◌/◌, ◌≤◌, ◌<◌, ◌≡◌, refl, arith, u32, u32_pred, u32_lem, u32_pred-suc,
  suc-u32_pred, List, [], ◌∷◌, Option, none, some, get_elem?, length, dec_lt,
}
use libs_gui.TextStorage.Store.{TextInfo, TextStorage, ok, object_at}
use libs_gui.TextStorage.Search.{Found, found_run, next_location, search}

module _ {D : Type 0} where
  pub get_elem?_lt :
      (l : List (TextInfo D)) (i : ℕ) → i < length l → (x : TextInfo D) × (get_elem? l i ≡ some x)
  get_elem?_lt [] i h = elim h [ ]
  get_elem?_lt (x ∷ l) zero h = (x, refl)
  get_elem?_lt (x ∷ l) (suc i) h = get_elem?_lt l i (omega arith)

  pub get_elem?_ge : (l : List (TextInfo D)) (i : ℕ) → length l ≤ i → get_elem? l i ≡ none
  get_elem?_ge [] i h = refl
  get_elem?_ge (x ∷ l) zero h = absurd (omega arith)
  get_elem?_ge (x ∷ l) (suc i) h = get_elem?_ge l i (omega arith)

  abbrev pub loc_or : Option (TextInfo D) → ℕ → ℕ
  loc_or none n = n
  loc_or (some x) n = x.loc

  -- Where the run at an index ends.
  abbrev pub next_start : List (TextInfo D) → ℕ → ℕ → ℕ
  next_start l k len = loc_or (get_elem? l (suc k)) len

  -- No run is empty, or goes past the text.
  abbrev pub HasRuns : List (TextInfo D) → ℕ → Type 0
  HasRuns l len =
      (k : ℕ) (x : TextInfo D)
      → get_elem? l k ≡ some x
      → (x.loc < next_start l k len) × (next_start l k len ≤ len)

  pub record Locates (l : List (TextInfo D)) (len index : ℕ) (f : Found D) : Type 0 where
    pub run : TextInfo D
    pub at_index : get_elem? l f.index ≡ some run
    pub attributes : f.attrs ≡ run.attrs
    pub start : f.range.location ≡ run.loc
    pub end : run.loc + f.range.length ≡ next_start l f.index len
    pub not_after : run.loc ≤ index
    pub not_before : index < next_start l f.index len

  next_location_lem :
      (s : TextStorage D) (len k : ℕ)
      → k < length s.info_array
      → length s.info_array < 2147483648
      → next_location (length s.info_array) len k s ≡ ok (next_start s.info_array k len) s
  unfolding next_location object_at
  next_location_lem s len k h b = ground (
    arith,
    pred_length,
    u32_lem (suc k),
    get_elem?_lt s.info_array (suc k),
    get_elem?_ge s.info_array (suc k),
  )
    where
      pred_length : suc (u32_pred (length s.info_array)) ≡ length s.info_array
      pred_length = suc-u32_pred (length s.info_array) h (omega arith)

  -- One round of the loop, by what the probed run says.
  module _ (fuel index len low high cnt : ℕ) (s : TextStorage D) (x : TextInfo D) (le : low ≤ high)
      (hi : high < length s.info_array) (b : length s.info_array < 2147483648)
      (mid : cnt ≡ (low + high) / 2) (at_cnt : get_elem? s.info_array cnt ≡ some x) where
    search_left :
        index < x.loc
        → search (suc fuel) index len (length s.info_array) low high s
          ≡ search fuel index len (length s.info_array) low (u32_pred cnt) s
    unfolding search object_at
    search_left h = ground (arith, u32_lem (low + high))

    search_right :
        next_start s.info_array cnt len ≤ index
        → x.loc < next_start s.info_array cnt len
        → search (suc fuel) index len (length s.info_array) low high s
          ≡ search fuel index len (length s.info_array) (u32 (suc cnt)) high s
    unfolding search object_at
    search_right h r = ground (arith, u32_lem (low + high), next_location_lem s len cnt)

    search_hit :
        x.loc ≤ index
        → index < next_start s.info_array cnt len
        → search (suc fuel) index len (length s.info_array) low high s
          ≡ ok (found_run cnt x (next_start s.info_array cnt len)) s
    unfolding search object_at
    search_hit h r = ground (arith, u32_lem (low + high), next_location_lem s len cnt)

  -- What the loop is entered with: the run that holds the index lies from `low` to `high`.
  pub record Window (l : List (TextInfo D)) (len index low high : ℕ) : Type 0 where
    pub le : low ≤ high
    pub inside : high < length l
    pub lowest : TextInfo D
    pub at_low : get_elem? l low ≡ some lowest
    pub below : lowest.loc ≤ index
    pub above : index < next_start l high len

  module _ (l : List (TextInfo D)) (len index : ℕ) (b : length l < 2147483648)
      (bl : len < 2147483648) (runs : HasRuns l len) where
    hit-Locates :
        (cnt : ℕ) (x : TextInfo D)
        → get_elem? l cnt ≡ some x
        → x.loc ≤ index
        → index < next_start l cnt len
        → Locates l len index (found_run cnt x (next_start l cnt len))
    unfolding found_run u32
    hit-Locates cnt x e h r = record {
      run = x;
      at_index = e;
      attributes = refl;
      start = refl;
      end = omega (arith, runs cnt x e);
      not_after = h;
      not_before = r;
    }

    left-Window :
        (low high cnt : ℕ) (x : TextInfo D)
        → Window l len index low high
        → get_elem? l cnt ≡ some x
        → low ≤ cnt
        → cnt ≤ high
        → index < x.loc
        → Window l len index low (u32_pred cnt) × (u32_pred cnt < cnt)
    left-Window low high zero x w e lo hi h = absurd (ground arith)
    left-Window low high (suc c) x w e lo hi h =
        let lt : low < suc c = ground arith in
        let down : u32_pred (suc c) ≡ c = u32_pred-suc c (omega (arith, w.inside)) in
        rw down (
          record {
            le = omega arith;
            inside = omega (arith, w.inside);
            lowest = w.lowest;
            at_low = w.at_low;
            below = w.below;
            above = rw e h;
          },
          omega arith,
        )

    right-Window :
        (low high cnt : ℕ) (x : TextInfo D)
        → Window l len index low high
        → get_elem? l cnt ≡ some x
        → cnt ≤ high
        → next_start l cnt len ≤ index
        → Window l len index (u32 (suc cnt)) high × (u32 (suc cnt) ≡ suc cnt)
    right-Window low high cnt x w e hi h =
        let lt : cnt < high = ground arith in
        let up : u32 (suc cnt) ≡ suc cnt = u32_lem (suc cnt) (omega (arith, w.inside)) in
        let (y, at_next) = get_elem?_lt l (suc cnt) (omega (arith, w.inside)) in
        rw up (
          record {
            le = omega arith;
            inside = w.inside;
            lowest = y;
            at_low = at_next;
            below = rw at_next at h;
            above = w.above;
          },
          refl,
        )

  pub search_lem :
      (fuel index len low high : ℕ) (s : TextStorage D)
      → length s.info_array < 2147483648
      → len < 2147483648
      → HasRuns s.info_array len
      → high - low < fuel
      → Window s.info_array len index low high
      → (f : Found D) × (search fuel index len (length s.info_array) low high s ≡ ok f s)
        × Locates s.info_array len index f
  search_lem zero index len low high s b bl runs fu w = absurd (omega arith)
  search_lem (suc fuel) index len low high s b bl runs fu w =
      let cnt = (low + high) / 2 in
      let (x, e) = get_elem?_lt s.info_array cnt (omega (arith, w.le, w.inside)) in
      elim (dec_lt index x.loc) [
        | yes h ↦
            let (w', lt) =
              left-Window s.info_array len index b bl runs low high cnt x w e (omega (arith, w.le))
                (omega (arith, w.le)) h in
            rw (search_left fuel index len low high cnt s x w.le w.inside b refl e h)
              (search_lem fuel index len low (u32_pred cnt) s b bl runs (omega (arith, w.le)) w')
        | no n ↦ elim (dec_lt index (next_start s.info_array cnt len)) [
          | yes r ↦ (
            found_run cnt x (next_start s.info_array cnt len),
            search_hit fuel index len low high cnt s x w.le w.inside b refl e (omega arith) r,
            hit-Locates s.info_array len index b bl runs cnt x e (omega arith) r,
          )
          | no r ↦
              let (w', eq) =
                right-Window s.info_array len index b bl runs low high cnt x w e
                  (omega (arith, w.le)) (omega arith) in
              rw
                (search_right fuel index len low high cnt s x w.le w.inside b refl e (omega arith)
                  (runs cnt x e).0)
                (search_lem fuel index len (u32 (suc cnt)) high s b bl runs
                  (omega (arith, w.le, eq)) w')
        ]
      ]
