-- ===== src/TextStorage/Replace/Correct.antt =====
-- Source/GSTextStorage.m, `replaceCharactersInRange:withString:`: what it does to a valid storage, and to
-- a range outside of the text.
use libs_gui.Base.{
  ℕ, zero, suc, ◌+◌, ◌-◌, ◌≤◌, ◌<◌, ◌≡◌, ◌≢◌, ◌⊎◌, inl, inr, sym, ap, subst, List, [], ◌∷◌, arith,
  length, rev_onto, Range, ℕ_discrete, length-rev_onto, List-cases,
}
use libs_gui.TextStorage.Cache.{Foundation}
use libs_gui.TextStorage.Store.{TextInfo, TextStorage, ok}
use libs_gui.TextStorage.Search.{attributes_at_index}
use libs_gui.TextStorage.Runs.{Apart, IsSane, length-IsSane}
use libs_gui.TextStorage.Lookup.{start_of, at_run, lookup}
use libs_gui.TextStorage.SetAttributes.Purge.{Counts}
use libs_gui.TextStorage.SetAttributes.Split.{start_of-le}
use libs_gui.TextStorage.Replace.Clip.{on, clipped}
use libs_gui.TextStorage.Replace.Rest.{Rest, clipped-Rest, start_of-gt}
use libs_gui.TextStorage.Replace.Meaning.{start_index}
use libs_gui.TextStorage.Replace.Steps.{ClipStep, clip_step, drop_kept}
use libs_gui.TextStorage.Replace.Runs.{Replaced, Replaced-kept, Replaced-dropped, Replaced-blank}

module _ {D : Type 0} ⦃f : Foundation D⦄ where
  module _ (ext : D → ℕ) (r : Range) (len : ℕ) (rp : List (TextInfo D)) (x : TextInfo D)
      (l : List (TextInfo D)) (s : TextStorage D) (text : len ≡ length s.text_chars)
      (apart : Apart len rp x l) (counts : Counts ext (rev_onto rp (x ∷ l)) s.cache)
      (inside : r.location < len) (fits : r.location + r.length ≤ len) (bl : len < 2147483647)
      (le : x.loc ≤ start_index r) (lt : start_index r < start_of l len)
      (size : suc (length rp) + length l ≤ len + 1)
      (hit : attributes_at_index (start_index r) len (on (rev_onto rp (x ∷ l)) s.cache s)
        ≡ ok (at_run rp x l len) (on (rev_onto rp (x ∷ l)) s.cache s)) where
    clip : ClipStep ext (r.location + r.length) len rp x l s.cache s
    clip =
        clip_step ext (r.location + r.length) len rp x l s.cache s counts fits text (omega arith)
          (omega arith)

    abbrev left : List (TextInfo D)
    left = clipped (r.location + r.length) len l

    facts : Rest x.loc (r.location + r.length) len l
    facts = clipped-Rest x.loc (r.location + r.length) len l apart.after fits

    left-Apart : Apart len rp x left
    left-Apart = record { before = apart.before; inside = apart.inside; after = facts.ascending }

    -- Some characters come in.
    Replaced-some :
        (n : ℕ)
        → 0 < n
        → len + n < 2147483647 + r.length
        → Replaced ext r n len (on (rev_onto rp (x ∷ l)) s.cache s)
    Replaced-some n pos bl' =
        Replaced-kept ext r n len rp x l s.cache s text apart counts inside fits bl bl' le lt size
          hit clip (ground arith) (ground (arith, facts.start))

    -- None does, and the run is not the one replaced.
    Replaced-other :
        (x.loc ≢ r.location) ⊎ (start_of left len - x.loc ≢ r.length)
        → Replaced ext r 0 len (on (rev_onto rp (x ∷ l)) s.cache s)
    Replaced-other other =
        Replaced-kept ext r 0 len rp x l s.cache s text apart counts inside fits bl (omega arith) le
          lt size hit clip
          (drop_kept r len rp x left clip.cache s left-Apart bl le (omega (arith, facts.later))
            (omega (arith, start_of-le x.loc len l apart.after)) other
            (suc (length rp) + length left))
          (ground (
            arith,
            facts.start,
            facts.later,
            facts.start_le,
            start_of-gt x.loc len left facts.ascending apart.inside,
          ))

    Replaced-whole :
        x.loc ≡ r.location
        → start_of left len ≡ r.location + r.length
        → Replaced ext r 0 len (on (rev_onto rp (x ∷ l)) s.cache s)
    Replaced-whole start end = elim (List-cases rp) [
      | inr some_before ↦ dropped (inl (λ e. omega (arith, ap length e))) (omega arith)
      | inl none_before ↦ elim (List-cases left) [
        | inr some_after ↦ dropped (inr (λ e. omega (arith, ap length e))) (omega arith)
        | inl none_after ↦
            Replaced-blank ext r len rp x l s.cache s text apart counts inside fits bl le lt size
              hit clip start end none_before none_after
      ]
    ]
      where
        dropped :
            (rp ≢ []) ⊎ (left ≢ [])
            → 1 < suc (length rp) + length left
            → Replaced ext r 0 len (on (rev_onto rp (x ∷ l)) s.cache s)
        dropped =
            Replaced-dropped ext r len rp x l s.cache s text apart counts inside fits bl le lt size
              hit clip start end

    replaced :
        (n : ℕ)
        → len + n < 2147483647 + r.length
        → Replaced ext r n len (on (rev_onto rp (x ∷ l)) s.cache s)
    replaced zero bl' = elim (ℕ_discrete x.loc r.location) [
      | no n ↦ Replaced-other (inl n)
      | yes e ↦ elim (ℕ_discrete (start_of left len - x.loc) r.length) [
        | no n ↦ Replaced-other (inr n)
        | yes e' ↦ Replaced-whole e (omega (arith, facts.start))
      ]
    ]
    replaced (suc n) bl' = Replaced-some (suc n) (omega arith) bl'

  pub replace_runs_lem :
      (ext : D → ℕ) (r : Range) (n len : ℕ) (s : TextStorage D)
      → len ≡ length s.text_chars
      → IsSane s.info_array len
      → Counts ext s.info_array s.cache
      → r.location < len
      → r.location + r.length ≤ len
      → len < 2147483647
      → len + n < 2147483647 + r.length
      → Replaced ext r n len s
  replace_runs_lem ext r n len s text sane counts inside fits bl bl' =
      let z = lookup s len sane bl (start_index r) (ground arith) in
      let size : suc (length z.before) + length z.after ≤ len + 1 = omega (
        arith,
        length-IsSane s.info_array len sane,
        ap length z.whole,
        length-rev_onto z.before (z.run ∷ z.after),
      ) in
      subst
        (λ m.
          Counts ext m s.cache
          → attributes_at_index (start_index r) len (record s { info_array = m })
            ≡ ok (at_run z.before z.run z.after len) (record s { info_array = m })
          → Replaced ext r n len (record s { info_array = m }))
        (sym z.whole)
        (λ counts' hit.
          replaced ext r len z.before z.run z.after s text z.apart counts' inside fits bl
            z.not_after z.not_before size hit n bl')
        counts z.result
