-- ===== src/TextStorage/Replace/Steps.antt =====
-- Source/GSTextStorage.m, `replaceCharactersInRange:withString:`: each step of the code on an array of
-- several runs, taken apart at the run of the new characters.
use libs_gui.Base.{
  ℕ, suc, ◌+◌, ◌-◌, ◌%◌, ◌≤◌, ◌<◌, ◌≡◌, ◌≢◌, ◌⊎◌, refl, ap, List, [], ◌∷◌, arith, ltb, length,
  if◌then◌else◌, rev_onto, Range, dec_lt, ltb-true, ltb-false, u32, u32_lem, u32_pred, u32_pred-suc,
  u64_mod, max_range_lem,
}
use libs_gui.TextStorage.Cache.{
  Foundation, Cache, un_cache_attributes, cache_attributes, cache_attributes-IsProper,
  count-cache_attributes,
}
use libs_gui.TextStorage.Store.{
  TextInfo, TextStorage, ok, pure, object_at, set_object, un_cached, cached,
}
use libs_gui.TextStorage.Search.{attributes_at_index}
use libs_gui.TextStorage.Runs.{Apart, put_together}
use libs_gui.TextStorage.Lookup.{start_of, at_run, lookup_at}
use libs_gui.TextStorage.SetAttributes.Purge.{Counts, Counts-remove}
use libs_gui.TextStorage.Replace.{clip_runs, drop_empty, move_locations, extend_sign}
use libs_gui.TextStorage.Replace.Clip.{on, clipped, clip_lem, remove_at_on}
use libs_gui.TextStorage.Replace.Meaning.{start_index}

-- The test `(moveLocations + range.length) == 0` is whether the new string is empty.
pub extend_move :
    (n old : ℕ)
    → n < 2147483648
    → old < 2147483648
    → (extend_sign (move_locations n old) + old) % u64_mod ≡ n
unfolding extend_sign move_locations u32
extend_move n old h h' = ground arith

module _ {D : Type 0} ⦃f : Foundation D⦄ where
  -- After the clipping: `arraySize` and the storage.
  pub record ClipStep (ext : D → ℕ) (after len : ℕ) (rp : List (TextInfo D)) (x : TextInfo D)
      (l : List (TextInfo D)) (c : Cache D) (s : TextStorage D) : Type 0 where
    pub cache : Cache D
    pub counts : Counts ext (rev_onto rp (x ∷ clipped after len l)) cache
    pub result :
        (if ltb (start_of l len) after
            then clip_runs (suc (length rp)) after (suc (length rp) + length l)
            else pure (suc (length rp) + length l))
          (on (rev_onto rp (x ∷ l)) c s)
        ≡ ok
            (suc (length rp) + length (clipped after len l))
            (on (rev_onto rp (x ∷ clipped after len l)) cache s)

  pub clip_step :
      (ext : D → ℕ) (after len : ℕ) (rp : List (TextInfo D)) (x : TextInfo D)
      (l : List (TextInfo D)) (c : Cache D) (s : TextStorage D)
      → Counts ext (rev_onto rp (x ∷ l)) c
      → after ≤ len
      → len ≡ length s.text_chars
      → suc (length rp) + length l < 2147483648
      → after < 2147483648
      → ClipStep ext after len rp x l c s
  clip_step ext after len rp x [] c s h le text small small' = record {
    cache = c;
    counts = h;
    result = rw (ltb-false len after le);
  }
  clip_step ext after len rp x (y ∷ l) c s h le text small small' = elim (dec_lt y.loc after) [
    | yes p ↦
        let t = clip_lem ext after len (x ∷ rp) y l c s h p text small small' in
        record {
          cache = t.cache;
          counts = t.counts;
          result = rw (ltb-true y.loc after p) (rw (ltb-true y.loc after p) at t.result);
        }
    | no n ↦ record {
      cache = c;
      counts = rw (ltb-false y.loc after (omega arith)) h;
      result = rw (ltb-false y.loc after (omega arith));
    }
  ]

  -- With an empty string: the run is kept, dropped, or made the blank run of the empty text.
  module _ (r : Range) (len : ℕ) (rp : List (TextInfo D)) (x : TextInfo D) (m : List (TextInfo D))
      (c : Cache D) (s : TextStorage D) (apart : Apart len rp x m) (bl : len < 2147483647)
      (le : x.loc ≤ start_index r) (lt : start_index r < start_of m len)
      (lt' : start_index r < len) where
    found_again :
        attributes_at_index (start_index r) len (on (rev_onto rp (x ∷ m)) c s)
        ≡ ok (at_run rp x m len) (on (rev_onto rp (x ∷ m)) c s)
    found_again =
        lookup_at (on (rev_onto rp (x ∷ m)) c s) len (put_together len rp x m apart) bl
          (start_index r) rp x m lt' refl le lt

    pub drop_kept :
        (x.loc ≢ r.location) ⊎ (start_of m len - x.loc ≢ r.length)
        → (size : ℕ)
        → drop_empty r (start_index r) len size (on (rev_onto rp (x ∷ m)) c s)
          ≡ ok (suc (length rp), size) (on (rev_onto rp (x ∷ m)) c s)
    unfolding drop_empty
    drop_kept other size = ground (arith, found_again)

    pub drop_dropped :
        x.loc ≡ r.location
        → start_of m len - x.loc ≡ r.length
        → (size : ℕ) → size ≡ suc (length rp) + length m
        → size < 2147483648
        → 1 < size
        → drop_empty r (start_index r) len size (on (rev_onto rp (x ∷ m)) c s)
          ≡ ok
              (length rp, length rp + length m)
              (on (rev_onto rp m) (un_cache_attributes x.attrs c) s)
    unfolding drop_empty
    drop_dropped e e' size es small two = ground (
      arith,
      found_again,
      remove_at_on rp x m c s,
      u32_pred-suc (length rp + length m),
      ap u32_pred es,
    )

  -- The only run, when all the text goes.
  pub drop_blank :
      (r : Range) (len : ℕ) (x : TextInfo D) (c : Cache D) (s : TextStorage D)
      → Apart len [] x []
      → len < 2147483647
      → r.location ≡ 0
      → r.length ≡ len
      → drop_empty r (start_index r) len 1 (on (x ∷ []) c s)
        ≡ ok
            (0, 1)
            (on
              (record { loc = len; attrs = f.blank } ∷ [])
              (cache_attributes f.blank (un_cache_attributes x.attrs c))
              s)
  unfolding drop_empty object_at set_object un_cached cached
  drop_blank r len x c s apart bl e e' =
      let zero_loc : x.loc ≡ 0 = apart.before in
      let start : start_index r ≡ 0 = ground arith in
      ground (
        arith,
        start,
        apart.inside,
        found_again r len [] x [] c s apart bl (omega arith) (omega (arith, apart.inside))
            (omega (arith, apart.inside)),
        max_range_lem r,
        u32_lem (r.location + r.length),
      )

  pub Counts-blank :
      (ext : D → ℕ) (x y : TextInfo D) (c : Cache D)
      → y.attrs ≡ f.blank
      → Counts ext (x ∷ []) c
      → Counts ext (y ∷ []) (cache_attributes f.blank (un_cache_attributes x.attrs c))
  Counts-blank ext x y c e h =
      let g = Counts-remove ext [] x [] c h in
      record {
        proper = cache_attributes-IsProper f.blank (un_cache_attributes x.attrs c) g.proper;
        exact = λ d.
            ground
              (arith, g.exact d, count-cache_attributes f.blank d (un_cache_attributes x.attrs c));
      }
