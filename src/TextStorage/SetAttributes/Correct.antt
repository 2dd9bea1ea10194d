-- ===== src/TextStorage/SetAttributes/Correct.antt =====
-- Source/GSTextStorage.m, `setAttributes:range:`: what it does to a valid storage, and to a range
-- outside of the text.
use libs_gui.Base.{
  ℕ, ◌+◌, ◌≤◌, ◌<◌, ◌≡◌, refl, ◌∙◌, List, [], ◌∷◌, ◌&&◌, arith, leb, ltb, rev_onto, length, u32_lem,
  if◌then◌else◌, max_range_lem, Range, Option,
}
use libs_gui.TextStorage.Cache.{
  Foundation, range_passes, range_fails, Cache, count, one, cache_attributes,
  cache_attributes-IsProper, count-cache_attributes,
}
use libs_gui.TextStorage.Store.{
  TextInfo, TextStorage, ok, raised, range_exception, cached, range_check, edited, Edit,
  edited_attributes,
}
use libs_gui.TextStorage.Runs.{IsSane, value, value-rev_onto}
use libs_gui.TextStorage.SetAttributes.{or_blank, rewrite_runs, set_attributes}
use libs_gui.TextStorage.SetAttributes.Purge.{
  Counts, purge_lem, settle_lem, kept_before, kept_run, settled,
}
use libs_gui.TextStorage.SetAttributes.Split.{kept-value, kept-UpTo, UpTo-IsSane}
use libs_gui.TextStorage.SetAttributes.Prepare.{prepared}

-- The report of a change of attributes.
abbrev pub attributes_edit : Range → Edit
attributes_edit r = record { mask = edited_attributes; range = r; delta = 0 }

module _ {D : Type 0} ⦃f : Foundation D⦄ where
  -- A storage whose runs are sane, and whose cache counts them and what is held elsewhere.
  pub record IsValid (ext : D → ℕ) (s : TextStorage D) : Type 0 where
    pub sane : IsSane s.info_array (length s.text_chars)
    pub counts : Counts ext s.info_array s.cache
    pub small : length s.text_chars < 2147483647

  -- The attributes of a character.
  abbrev pub attributes_of : TextStorage D → ℕ → D
  attributes_of s i = value f.blank s.info_array i

  length-kept_before : (b : ℕ) (rp : List (TextInfo D)) → length (kept_before b rp) ≤ length rp
  length-kept_before b [] = omega arith
  length-kept_before b (x ∷ rp) = ground (arith, length-kept_before b rp)

  -- The new array and cache.
  record Rewritten (ext : D → ℕ) (a : D) (begin after len : ℕ) (s : TextStorage D) : Type 0 where
    runs : List (TextInfo D)
    cache : Cache D
    sane : IsSane runs len
    counts : Counts ext runs cache
    meaning :
        (d : D) (i : ℕ)
        → i < len
        → value d runs i ≡ (if leb begin i && ltb i after then a else value d s.info_array i)
    result :
        rewrite_runs a begin after len s ≡ ok tt (record s { info_array = runs; cache = cache })

  rewrite_runs_lem :
      (ext : D → ℕ) (a : D) (begin after len : ℕ) (s : TextStorage D)
      → begin < after
      → after ≤ len
      → len < 2147483647
      → Counts (λ e. ext e + one a e) s.info_array s.cache
      → IsSane s.info_array len
      → Rewritten ext a begin after len s
  unfolding rewrite_runs
  rewrite_runs_lem ext a begin after len s le le' bl h sane =
      let p = prepared (λ e. ext e + one a e) a begin after len le le' bl s h sane in
      let r = p.ready in
      let b = p.begin' in
      let q =
        purge_lem (λ e. ext e + one a e) b p.runs_before p.run p.runs_after p.cache s r.counts in
      let kb = kept_before b p.runs_before in
      let kr = kept_run b p.runs_before p.run in
      let t =
        settle_lem ext a b kb kr p.runs_after q.cache s
          (omega (arith, length-kept_before b p.runs_before, r.small)) q.counts in
      record {
        runs = rev_onto (settled a b kb kr) p.runs_after;
        cache = t.cache;
        sane =
            UpTo-IsSane b len (settled a b kb kr) p.runs_after
              (kept-UpTo a b p.runs_before p.run r.before) r.inside r.follow;
        counts = t.counts;
        meaning = λ d i lt.
            value-rev_onto d (settled a b kb kr) p.runs_after i
            ∙ rw (kept-value d a b p.runs_before p.run i r.before) (r.meaning d i lt);
        result = rw (p.result, q.result) t.result;
      }

  Counts-cached :
      (ext : D → ℕ) (a : D) (l : List (TextInfo D)) (c : Cache D)
      → Counts ext l c
      → Counts (λ e. ext e + one a e) l (cache_attributes a c)
  Counts-cached ext a l c h = record {
    proper = cache_attributes-IsProper a c h.proper;
    exact = λ e. omega (arith, count-cache_attributes a e c, h.exact e);
  }

  set_attributes_enter :
      (attributes : Option D) (r : Range) (s : TextStorage D) {t : TextStorage D}
      → length s.text_chars < 2147483647
      → 0 < r.length
      → r.location + r.length ≤ length s.text_chars
      → rewrite_runs
          (or_blank attributes)
          r.location
          (r.location + r.length)
          (length s.text_chars)
          (record s { cache = cache_attributes (or_blank attributes) s.cache })
        ≡ ok tt t
      → set_attributes attributes r s ≡ ok tt (record t { edits = attributes_edit r ∷ t.edits })
  unfolding set_attributes cached range_check edited
  set_attributes_enter attributes r s small pos fits h =
      rw
        (
          u32_lem (length s.text_chars) (omega arith),
          range_passes f r (length s.text_chars) fits,
          max_range_lem r (omega arith),
          u32_lem r.location (omega arith),
          u32_lem (r.location + r.length) (omega arith),
          h,
        )
        (ground arith)

  -- In a valid storage, `setAttributes:range:` on a range of the text that is not empty gives the
  -- characters of the range the new attributes (the empty ones for nil) and leaves those of the
  -- others; it keeps the text and the validity, and reports the edit.
  pub set_attributes_lem :
      (ext : D → ℕ) (attributes : Option D) (r : Range) (s : TextStorage D)
      → IsValid ext s
      → 0 < r.length
      → r.location + r.length ≤ length s.text_chars
      → (s' : TextStorage D) × (set_attributes attributes r s ≡ ok tt s')
        × IsValid ext s'
        × ((i : ℕ)
            → i < length s.text_chars
            → attributes_of s' i ≡ (
                if leb r.location i && ltb i (r.location + r.length)
                then or_blank attributes
                else attributes_of s i))
        × (s'.text_chars ≡ s.text_chars)
        × (s'.edits ≡ attributes_edit r ∷ s.edits)
  unfolding set_attributes cached range_check edited
  set_attributes_lem ext attributes r s v pos fits =
      let a = or_blank attributes in
      let s₁ = record s { cache = cache_attributes a s.cache } in
      let w =
        rewrite_runs_lem ext a r.location (r.location + r.length) (length s.text_chars) s₁
          (omega arith) fits v.small (Counts-cached ext a s.info_array s.cache v.counts) v.sane in
      (
        record s { info_array = w.runs; cache = w.cache; edits = attributes_edit r ∷ s.edits },
        set_attributes_enter attributes r s v.small pos fits w.result,
        record { sane = w.sane; counts = w.counts; small = v.small },
        w.meaning f.blank,
        refl,
        refl,
      )

  -- On a range that goes past the text, `setAttributes:range:` raises NSRangeException and changes
  -- neither text nor runs; the reference that it took from the cache is not given back.
  pub set_attributes_out_of_range :
      (attributes : Option D) (r : Range) (s : TextStorage D)
      → length s.text_chars < 2147483647
      → 0 < r.length
      → length s.text_chars < r.location + r.length
      → (s' : TextStorage D) × (set_attributes attributes r s ≡ raised range_exception s')
        × (s'.text_chars ≡ s.text_chars)
        × (s'.info_array ≡ s.info_array)
        × (count (or_blank attributes) s'.cache ≡ count (or_blank attributes) s.cache + 1)
  unfolding set_attributes cached range_check
  set_attributes_out_of_range attributes r s small pos out = (
    record s { cache = cache_attributes (or_blank attributes) s.cache },
    rw (u32_lem (length s.text_chars) (omega arith), range_fails f r (length s.text_chars) out)
        (ground arith),
    refl,
    refl,
    ground (arith, count-cache_attributes (or_blank attributes) (or_blank attributes) s.cache),
  )
