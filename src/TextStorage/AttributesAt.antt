-- ===== src/TextStorage/AttributesAt.antt =====
-- Source/GSTextStorage.m, `attributesAtIndex:effectiveRange:`, which returns what
-- `_attributesAtIndexEffectiveRange` finds for the length of the text.
use libs_gui.Base.{ℕ, ◌+◌, ◌-◌, ◌≤◌, ◌<◌, ◌≡◌, List, [], ◌∷◌, arith, length, rev_onto, u32, u32_lem}
use libs_gui.TextStorage.Cache.{Foundation}
use libs_gui.TextStorage.Store.{TextInfo, TextStorage, ok, M}
use libs_gui.TextStorage.Search.{Found, attributes_at_index}
use libs_gui.TextStorage.Runs.{Ascending, Apart, value, value-rev_onto, value_skip}
use libs_gui.TextStorage.Lookup.{lookup, start_of, at_run}
use libs_gui.TextStorage.SetAttributes.Correct.{IsValid, attributes_of}

module _ {D : Type 0} ⦃f : Foundation D⦄ where
  -- Both arguments are converted to `unsigned int`.
  unfoldable pub effective_attributes : ℕ → M D (Found D)
  effective_attributes index s = attributes_at_index (u32 index) (u32 (length s.text_chars)) s

  value_in_run :
      (len : ℕ) (d : D) (rp : List (TextInfo D)) (x : TextInfo D) (l : List (TextInfo D)) (j : ℕ)
      → Apart len rp x l
      → x.loc ≤ j
      → j < start_of l len
      → value d (rev_onto rp (x ∷ l)) j ≡ x.attrs
  value_in_run len d rp x [] j a le lt = ground (arith, value-rev_onto d rp (x ∷ []) j)
  value_in_run len d rp x (y ∷ l) j a le lt =
      ground (arith, value-rev_onto d rp (x ∷ y ∷ l) j, value_skip y.loc len x.attrs l j, a.after)

  -- The answer for an index of the text: its attributes, and a range of the text around it in which
  -- all characters have these attributes.
  pub record Answers (s : TextStorage D) (index : ℕ) (a : Found D) : Type 0 where
    pub attributes : a.attrs ≡ attributes_of s index
    pub not_after : a.range.location ≤ index
    pub not_before : index < a.range.location + a.range.length
    pub inside : a.range.location + a.range.length ≤ length s.text_chars
    pub alike :
        (j : ℕ)
        → a.range.location ≤ j
        → j < a.range.location + a.range.length
        → attributes_of s j ≡ a.attrs

  start_of_bounds :
      (len p : ℕ) (l : List (TextInfo D))
      → p < len
      → Ascending p len l
      → (p < start_of l len) × (start_of l len ≤ len)
  start_of_bounds len p [] h a = omega arith
  start_of_bounds len p (y ∷ l) h a = omega (arith, a.0, a.1)

  -- In a valid storage, for the index of a character, `attributesAtIndex:effectiveRange:` returns,
  -- with no change of the storage, the attributes of the character, and an effective range that lies
  -- in the text, holds the index, and has these attributes all over.
  pub effective_attributes_lem :
      (ext : D → ℕ) (s : TextStorage D) (index : ℕ)
      → IsValid ext s
      → index < length s.text_chars
      → (a : Found D) × (effective_attributes index s ≡ ok a s) × Answers s index a
  unfolding effective_attributes
  effective_attributes_lem ext s index v h =
      let len = length s.text_chars in
      let w = lookup s len v.sane v.small index h in
      let b = start_of_bounds len w.run.loc w.after w.apart.inside w.apart.after in
      let here : (j : ℕ)
          → w.run.loc ≤ j
          → j < start_of w.after len
          → attributes_of s j ≡ w.run.attrs =
        λ j le lt. rw w.whole (value_in_run len f.blank w.before w.run w.after j w.apart le lt) in
      let within : (j : ℕ)
          → j < w.run.loc + (start_of w.after len - w.run.loc)
          → j < start_of w.after len =
        λ j lt. omega (arith, b) in
      (
        at_run w.before w.run w.after len,
        rw (u32_lem len (omega (arith, v.small)), u32_lem index (omega (arith, v.small))) w.result,
        record {
          attributes = ground (arith, here index w.not_after w.not_before);
          not_after = w.not_after;
          not_before = omega (arith, b, w.not_before);
          inside = omega (arith, b);
          alike = λ j le lt. here j le (within j lt);
        },
      )
