-- ===== src/TextStorage/SetAttributes/Purge.antt =====
-- Source/GSTextStorage.m, `setAttributes:range:`: the removal of the runs within the range, and the
-- run that gets the attributes, on the runs before and after the index.
use libs_gui.Base.{
  ℕ, suc, ◌+◌, ◌<◌, ◌≡◌, refl, ◌∙◌, List, [], ◌∷◌, arith, leb, ltb, rev_onto, length, ite, u32_lem,
  get_elem?-rev_onto, erase_idx-rev_onto, set-rev_onto, insert_idx-rev_onto, if◌then◌else◌,
  ltb-true, ltb-false, dec_lt,
}
use libs_gui.TextStorage.Cache.{
  Foundation, Cache, count, IsProper, one, un_cache_attributes, count-un_cache_attributes,
  un_cache_attributes-IsProper,
}
use libs_gui.TextStorage.Store.{
  TextInfo, TextStorage, ok, object_at, remove_at, set_object, insert_object, un_cached,
}
use libs_gui.TextStorage.SetAttributes.{purge, settle}

module _ {D : Type 0} ⦃f : Foundation D⦄ where
  -- The runs that have the attributes.
  abbrev pub uses : D → List (TextInfo D) → ℕ
  uses e [] = 0
  uses e (x ∷ l) = one x.attrs e + uses e l

  pub uses-rev_onto :
      (e : D) (rp l : List (TextInfo D)) → uses e (rev_onto rp l) ≡ uses e rp + uses e l
  uses-rev_onto e [] l = omega arith
  uses-rev_onto e (a ∷ rp) l = omega (arith, uses-rev_onto e rp (a ∷ l))

  -- The cache counts each dictionary once for each run that has it, and once for each reference
  -- from elsewhere.
  pub record Counts (elsewhere : D → ℕ) (l : List (TextInfo D)) (c : Cache D) : Type 0 where
    pub proper : IsProper c
    pub exact : (e : D) → count e c ≡ uses e l + elsewhere e

  -- A storage with these runs and this cache.
  abbrev pub at :
      List (TextInfo D) → TextInfo D → List (TextInfo D) → Cache D → TextStorage D → TextStorage D
  at rp x l c s = record s { info_array = rev_onto rp (x ∷ l); cache = c }

  pub Counts-remove :
      (ext : D → ℕ) (rp : List (TextInfo D)) (x : TextInfo D) (l : List (TextInfo D)) (c : Cache D)
      → Counts ext (rev_onto rp (x ∷ l)) c
      → Counts ext (rev_onto rp l) (un_cache_attributes x.attrs c)
  Counts-remove ext rp x l c h = record {
    proper = un_cache_attributes-IsProper x.attrs c h.proper;
    exact = λ e. ground (
      arith,
      count-un_cache_attributes x.attrs e c h.proper,
      h.exact e,
      h.exact x.attrs,
      uses-rev_onto e rp (x ∷ l),
      uses-rev_onto e rp l,
      uses-rev_onto x.attrs rp (x ∷ l),
    );
  }

  remove_at_lem :
      (rp : List (TextInfo D)) (a x : TextInfo D) (l : List (TextInfo D)) (c : Cache D)
      (s : TextStorage D)
      → remove_at (suc (length rp)) (at (a ∷ rp) x l c s)
        ≡ ok tt (at rp a l (un_cache_attributes x.attrs c) s)
  unfolding remove_at object_at un_cached
  remove_at_lem rp a x l c s = rw (
    get_elem?-rev_onto rp (a ∷ x ∷ l) 1 (suc (length rp)) (omega arith),
    erase_idx-rev_onto rp (a ∷ x ∷ l) 1 (suc (length rp)) (omega arith),
  )

  -- The result of the removal: the runs that start before the range, and the first one within it,
  -- which is the last run of all if none is within it.
  abbrev pub kept_before : ℕ → List (TextInfo D) → List (TextInfo D)
  kept_before b [] = []
  kept_before b (a ∷ rp) = if ltb a.loc b then a ∷ rp else kept_before b rp

  abbrev pub kept_run : ℕ → List (TextInfo D) → TextInfo D → TextInfo D
  kept_run b [] x = x
  kept_run b (a ∷ rp) x = if ltb a.loc b then x else kept_run b rp a

  pub record Purged (ext : D → ℕ) (b : ℕ) (rp : List (TextInfo D)) (x : TextInfo D)
      (l : List (TextInfo D)) (c : Cache D) (s : TextStorage D) : Type 0 where
    pub cache : Cache D
    pub counts : Counts ext (rev_onto (kept_before b rp) (kept_run b rp x ∷ l)) cache
    pub result :
        purge b (length rp) (at rp x l c s)
        ≡ ok (length (kept_before b rp)) (at (kept_before b rp) (kept_run b rp x) l cache s)

  purge_step :
      (b : ℕ) (rp : List (TextInfo D)) (a x : TextInfo D) (l : List (TextInfo D)) (c : Cache D)
      (s : TextStorage D)
      → purge b (suc (length rp)) (at (a ∷ rp) x l c s) ≡ (
          if ltb a.loc b
          then ok (suc (length rp)) (at (a ∷ rp) x l c s)
          else purge b (length rp) (at rp a l (un_cache_attributes x.attrs c) s))
  unfolding purge object_at
  purge_step b rp a x l c s =
      rw (get_elem?-rev_onto rp (a ∷ x ∷ l) 0 (length rp) (omega arith))
        (ground (arith, remove_at_lem rp a x l c s))

  pub purge_lem :
      (ext : D → ℕ) (b : ℕ) (rp : List (TextInfo D)) (x : TextInfo D) (l : List (TextInfo D))
      (c : Cache D) (s : TextStorage D)
      → Counts ext (rev_onto rp (x ∷ l)) c
      → Purged ext b rp x l c s
  purge_lem ext b [] x l c s h = record { cache = c; counts = h; result = unfold purge in refl }
  purge_lem ext b (a ∷ rp) x l c s h = elim (dec_lt a.loc b) [
    | yes p ↦ record {
      cache = c;
      counts = rw (ltb-true a.loc b p) h;
      result = purge_step b rp a x l c s ∙ rw (ltb-true a.loc b p) refl;
    }
    | no n ↦
        let r =
          purge_lem ext b rp a l (un_cache_attributes x.attrs c) s
            (Counts-remove ext (a ∷ rp) x l c h) in
        record {
          cache = r.cache;
          counts = rw (ltb-false a.loc b (omega arith)) r.counts;
          result = purge_step b rp a x l c s ∙ rw (ltb-false a.loc b (omega arith)) r.result;
        }
  ]

  -- The runs up to the range, after the run that gets the attributes is settled.
  abbrev pub settled : D → ℕ → List (TextInfo D) → TextInfo D → List (TextInfo D)
  settled a b rp x =
      if leb b x.loc
      then record { loc = b; attrs = a } ∷ rp
      else ite (f.dec_eq x.attrs a) (x ∷ rp) (record { loc = b; attrs = a } ∷ x ∷ rp)

  abbrev settled_cache : D → ℕ → TextInfo D → Cache D → Cache D
  settled_cache a b x c =
      if leb b x.loc
      then un_cache_attributes x.attrs c
      else ite (f.dec_eq x.attrs a) (un_cache_attributes a c) c

  settle_result :
      (a : D) (b : ℕ) (rp : List (TextInfo D)) (x : TextInfo D) (l : List (TextInfo D))
      (c : Cache D) (s : TextStorage D)
      → length rp < 2147483648
      → settle a b (length rp) (at rp x l c s)
        ≡ ok tt
            (record s { info_array = rev_onto (settled a b rp x) l; cache = settled_cache a b x c })
  unfolding settle object_at set_object un_cached insert_object
  settle_result a b rp x l c s small =
      rw
        (
          get_elem?-rev_onto rp (x ∷ l) 0 (length rp) (omega arith),
          u32_lem (suc (length rp)) (omega arith),
        )
        (ground (
          arith,
          set-rev_onto rp (x ∷ l) 0 (length rp) (record x { loc = b }),
          set-rev_onto rp (record x { loc = b } ∷ l) 0 (length rp) (record { loc = b; attrs = a }),
          insert_idx-rev_onto rp (x ∷ l) 1 (suc (length rp)) (record { loc = b; attrs = a }),
        ))

  settled-Counts :
      (ext : D → ℕ) (a : D) (b : ℕ) (rp : List (TextInfo D)) (x : TextInfo D)
      (l : List (TextInfo D)) (c : Cache D)
      → Counts (λ e. ext e + one a e) (rev_onto rp (x ∷ l)) c
      → Counts ext (rev_onto (settled a b rp x) l) (settled_cache a b x c)
  settled-Counts ext a b rp x l c h = record {
    proper = ground (
      arith,
      un_cache_attributes-IsProper x.attrs c h.proper,
      un_cache_attributes-IsProper a c h.proper,
      h.proper,
    );
    exact = λ e. ground (
      arith,
      count-un_cache_attributes x.attrs e c h.proper,
      count-un_cache_attributes a e c h.proper,
      h.exact e,
      h.exact x.attrs,
      h.exact a,
      uses-rev_onto e rp (x ∷ l),
      uses-rev_onto e rp (record { loc = b; attrs = a } ∷ l),
      uses-rev_onto e rp (x ∷ record { loc = b; attrs = a } ∷ l),
      uses-rev_onto x.attrs rp (x ∷ l),
      uses-rev_onto a rp (x ∷ l),
    );
  }

  pub record Settled (ext : D → ℕ) (a : D) (b : ℕ) (rp : List (TextInfo D)) (x : TextInfo D)
      (l : List (TextInfo D)) (c : Cache D) (s : TextStorage D) : Type 0 where
    pub cache : Cache D
    pub counts : Counts ext (rev_onto (settled a b rp x) l) cache
    pub result :
        settle a b (length rp) (at rp x l c s)
        ≡ ok tt (record s { info_array = rev_onto (settled a b rp x) l; cache = cache })

  -- Settling gives the reference of `cacheAttributes` to the run, or gives it back.
  pub settle_lem :
      (ext : D → ℕ) (a : D) (b : ℕ) (rp : List (TextInfo D)) (x : TextInfo D)
      (l : List (TextInfo D)) (c : Cache D) (s : TextStorage D)
      → length rp < 2147483648
      → Counts (λ e. ext e + one a e) (rev_onto rp (x ∷ l)) c
      → Settled ext a b rp x l c s
  settle_lem ext a b rp x l c s small h = record {
    cache = settled_cache a b x c;
    counts = settled-Counts ext a b rp x l c h;
    result = settle_result a b rp x l c s small;
  }
