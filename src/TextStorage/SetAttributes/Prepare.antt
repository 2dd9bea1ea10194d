-- ===== src/TextStorage/SetAttributes/Prepare.antt =====
-- Source/GSTextStorage.m, `setAttributes:range:`: the code up to the removal, in each of its cases.
use libs_gui.Base.{
  ℕ, suc, ◌-◌, ◌≤◌, ◌<◌, ◌≡◌, refl, sym, ap, subst, List, [], ◌∷◌, arith, ltb, rev_onto, length,
  u32_lem, u32_pred-suc, get_elem?-rev_onto, set-rev_onto, insert_idx-rev_onto, length-rev_onto,
  if◌then◌else◌, max_range_lem, dec_lt, ◌≢◌, ltb-true, ltb-false,
}
use libs_gui.TextStorage.Cache.{Foundation, Cache, cache_attributes}
use libs_gui.TextStorage.Store.{
  TextInfo, TextStorage, ok, object_at, set_object, insert_object, cached, count_objects,
}
use libs_gui.TextStorage.Search.{attributes_at_index}
use libs_gui.TextStorage.Runs.{Apart, IsSane, take-Apart, length-IsSane}
use libs_gui.TextStorage.Lookup.{start_of, at_run, lookup}
use libs_gui.TextStorage.SetAttributes.{split_end, locate_end}
use libs_gui.TextStorage.SetAttributes.Split.{start_of-le}
use libs_gui.TextStorage.SetAttributes.Purge.{Counts, at}
use libs_gui.TextStorage.SetAttributes.Locate.{
  Ready, Ready-last, Ready-same, Ready-cut, Ready-split,
}

module _ {D : Type 0} ⦃f : Foundation D⦄ where
  pub record Prepared (ext : D → ℕ) (a : D) (begin after len : ℕ) (s : TextStorage D) : Type 0 where
    pub runs_before : List (TextInfo D)
    pub run : TextInfo D
    pub runs_after : List (TextInfo D)
    pub begin' : ℕ
    pub cache : Cache D
    pub ready : Ready ext a begin after len s.info_array runs_before run runs_after begin' cache
    pub result :
        locate_end a begin after len s
        ≡ ok (begin', length runs_before) (at runs_before run runs_after cache s)

  last_run :
      (y : TextInfo D) (l : List (TextInfo D))
      → (rp : List (TextInfo D)) × (x : TextInfo D) × (y ∷ l ≡ rev_onto rp (x ∷ []))
  last_run y l = go [] y l
    where
      go :
          (rp : List (TextInfo D)) (y : TextInfo D) (l : List (TextInfo D))
          → (r : List (TextInfo D)) × (x : TextInfo D) × (rev_onto rp (y ∷ l) ≡ rev_onto r (x ∷ []))
      go rp y [] = (rp, y, refl)
      go rp y (z ∷ l) = go (y ∷ rp) z l

  module _ (ext : D → ℕ) (a : D) (begin after len : ℕ) (le : begin < after) (le' : after ≤ len)
      (bl : len < 2147483647) where
    module _ (x : TextInfo D) (l : List (TextInfo D)) (c : Cache D) (s : TextStorage D)
        (lt : after < len) (at_end : x.loc ≤ after) (past : after < start_of l len) where
      -- The search has found the run.
      abbrev Hit : List (TextInfo D) → Type 0
      Hit rp =
          attributes_at_index after len (at rp x l c s) ≡ ok (at_run rp x l len) (at rp x l c s)

      Prepared-same :
          (rp : List (TextInfo D))
          → Hit rp
          → Apart len rp x l
          → Counts ext (rev_onto rp (x ∷ l)) c
          → length rp < 2147483648
          → x.attrs ≡ a
          → Prepared ext a begin after len (at rp x l c s)
      unfolding locate_end split_end
      Prepared-same rp hit apart h small e = record {
        runs_before = rp;
        run = x;
        runs_after = l;
        begin' = if ltb x.loc begin then x.loc else begin;
        cache = c;
        ready =
            Ready-same ext a begin after len rp x l c le le' bl apart h small at_end past e _ refl;
        result = rw (ltb-true after len lt, hit) (ground arith);
      }

      Prepared-cut :
          (rp : List (TextInfo D))
          → Hit rp
          → Apart len rp x l
          → Counts ext (rev_onto rp (x ∷ l)) c
          → length rp < 2147483648
          → x.attrs ≢ a
          → begin < x.loc
          → Prepared ext a begin after len (at rp x l c s)
      unfolding locate_end split_end object_at set_object
      Prepared-cut [] hit apart h small n lb = absurd (omega (arith, apart.before))
      Prepared-cut (y ∷ rp) hit apart h small n lb = record {
        runs_before = rp;
        run = y;
        runs_after = record { loc = after; attrs = x.attrs } ∷ l;
        begin' = begin;
        cache = c;
        ready = Ready-cut ext a begin after len rp y x l c le apart h small at_end past lb;
        result =
            rw (ltb-true after len lt, hit)
              (ground (
                arith,
                get_elem?-rev_onto rp (y ∷ x ∷ l) 1 (suc (length rp)) (omega arith),
                set-rev_onto rp (y ∷ x ∷ l) 1 (suc (length rp)) (record x { loc = after })
                    (omega arith),
                u32_pred-suc (length rp) (omega arith),
              ));
      }

      Prepared-split :
          (rp : List (TextInfo D))
          → Hit rp
          → Apart len rp x l
          → Counts ext (rev_onto rp (x ∷ l)) c
          → length rp < 2147483648
          → x.attrs ≢ a
          → x.loc ≤ begin
          → Prepared ext a begin after len (at rp x l c s)
      unfolding locate_end split_end insert_object cached
      Prepared-split rp hit apart h small n lb = record {
        runs_before = rp;
        run = x;
        runs_after = record { loc = after; attrs = x.attrs } ∷ l;
        begin' = begin;
        cache = cache_attributes x.attrs c;
        ready = Ready-split ext a begin after len rp x l c le le' bl apart h small at_end past lb;
        result =
            rw (ltb-true after len lt, hit)
              (ground (
                arith,
                max_range_lem (record { location = x.loc; length = start_of l len - x.loc })
                    (omega (arith, start_of-le x.loc len l apart.after)),
                u32_lem (suc (length rp)) (omega arith),
                insert_idx-rev_onto rp (x ∷ l) 1 (suc (length rp))
                    (record { loc = after; attrs = x.attrs }) (omega arith),
              ));
      }

      Prepared-run :
          (rp : List (TextInfo D))
          → Hit rp
          → Apart len rp x l
          → Counts ext (rev_onto rp (x ∷ l)) c
          → length rp < 2147483648
          → Prepared ext a begin after len (at rp x l c s)
      Prepared-run rp hit apart h small = elim (f.dec_eq x.attrs a) [
        | yes e ↦ Prepared-same rp hit apart h small e
        | no n ↦ elim (dec_lt begin x.loc) [
          | yes lb ↦ Prepared-cut rp hit apart h small n lb
          | no nb ↦ Prepared-split rp hit apart h small n (omega arith)
        ]
      ]

    Prepared-within :
        (s : TextStorage D)
        → after < len
        → Counts ext s.info_array s.cache
        → IsSane s.info_array len
        → Prepared ext a begin after len s
    Prepared-within s lt h sane =
        let z = lookup s len sane bl after lt in
        let small : length z.before < 2147483648 = omega (
          arith,
          length-IsSane s.info_array len sane,
          ap length z.whole,
          length-rev_onto z.before (z.run ∷ z.after),
        ) in
        subst
          (λ m.
            attributes_at_index after len (record s { info_array = m })
              ≡ ok (at_run z.before z.run z.after len) (record s { info_array = m })
            → Counts ext m s.cache
            → Prepared ext a begin after len (record s { info_array = m }))
          (sym z.whole)
          (λ hit h'.
            Prepared-run z.run z.after s.cache s lt z.not_after z.not_before z.before hit z.apart h'
              small)
          z.result h

    Prepared-last :
        (s : TextStorage D) (rp : List (TextInfo D)) (x : TextInfo D)
        → after ≡ len
        → Counts ext (rev_onto rp (x ∷ [])) s.cache
        → IsSane (rev_onto rp (x ∷ [])) len
        → Prepared ext a begin after len (at rp x [] s.cache s)
    unfolding locate_end count_objects
    Prepared-last s rp x e h sane =
        let n = length-rev_onto rp (x ∷ []) in
        let size = length-IsSane (rev_onto rp (x ∷ [])) len sane in
        let apart = take-Apart len rp x [] (omega arith) sane in
        let n' : length (rev_onto rp (x ∷ [])) ≡ suc (length rp) = omega arith in
        record {
          runs_before = rp;
          run = x;
          runs_after = [];
          begin' = begin;
          cache = s.cache;
          ready =
              Ready-last ext a begin after len rp x [] s.cache le le' bl apart h (omega arith) e
                refl;
          result = rw (
            ltb-false after len (omega arith),
            n',
            u32_lem (suc (length rp)) (omega arith),
            u32_pred-suc (length rp) (omega arith),
          );
        }

    Prepared-at_end :
        (s : TextStorage D) (m : List (TextInfo D))
        → after ≡ len
        → Counts ext m s.cache
        → IsSane m len
        → Prepared ext a begin after len (record s { info_array = m })
    Prepared-at_end s [] e h sane = absurd sane
    Prepared-at_end s (y ∷ l) e h sane =
        let (rp, x, w) = last_run y l in
        subst
          (λ m.
            Counts ext m s.cache
            → IsSane m len
            → Prepared ext a begin after len (record s { info_array = m }))
          (sym w) (λ h' sane'. Prepared-last s rp x e h' sane') h sane

    -- The code before the removal raises nothing, and leaves what `Ready` says.
    pub prepared :
        (s : TextStorage D)
        → Counts ext s.info_array s.cache
        → IsSane s.info_array len
        → Prepared ext a begin after len s
    prepared s h sane = elim (dec_lt after len) [
      | yes lt ↦ Prepared-within s lt h sane
      | no n ↦ Prepared-at_end s s.info_array (omega arith) h sane
    ]
