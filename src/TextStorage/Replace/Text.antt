-- ===== src/TextStorage/Replace/Text.antt =====
-- Source/GSTextStorage.m, `replaceCharactersInRange:withString:`: the whole method.
use libs_gui.Base.{
  ℕ, suc, ◌+◌, ◌-◌, ◌≤◌, ◌<◌, ◌≡◌, ◌≢◌, refl, List, [], ◌∷◌, ◌++◌, Option, arith, length, Range,
  dec_lt, ltb-true, ℕ_discrete, u32_lem, take, drop, length-append, length-take, length-drop,
}
use libs_gui.TextStorage.Cache.{Foundation, range_passes, Cache}
use libs_gui.TextStorage.Store.{
  TextInfo, TextStorage, Edit, edited_characters, ok, count_objects, range_check, replace_text,
  edited,
}
use libs_gui.TextStorage.Runs.{Ascending, IsSane, value, length-IsSane}
use libs_gui.TextStorage.SetAttributes.Purge.{Counts}
use libs_gui.TextStorage.SetAttributes.Correct.{IsValid, attributes_of}
use libs_gui.TextStorage.Replace.{replace_characters, or_empty, change_in_length}
use libs_gui.TextStorage.Replace.Meaning.{source_index}
use libs_gui.TextStorage.Replace.Correct.{replace_runs_lem}

-- The text with a range replaced.
abbrev pub replaced_text : Range → List ℕ → List ℕ → List ℕ
replaced_text r str t = take r.location t ++ (str ++ drop (r.location + r.length) t)

-- The report of a replacement.
abbrev pub characters_edit : Range → ℕ → Edit
characters_edit r n = record {
  mask = edited_characters;
  range = r;
  delta = change_in_length n r.length;
}

length-replaced_text :
    (r : Range) (str t : List ℕ)
    → r.location + r.length ≤ length t
    → length (replaced_text r str t) ≡ length t + length str - r.length
length-replaced_text r str t h = omega (
  arith,
  length-append (take r.location t) (str ++ drop (r.location + r.length) t),
  length-append str (drop (r.location + r.length) t),
  length-take r.location t,
  length-drop (r.location + r.length) t,
)

module _ {D : Type 0} ⦃f : Foundation D⦄ where
  Ascending-longer :
      (p len m : ℕ) (l : List (TextInfo D)) → len ≤ m → Ascending p len l → Ascending p m l
  Ascending-longer p len m [] h a = tt
  Ascending-longer p len m (x ∷ l) h a =
      (a.0, omega (arith, a.1), Ascending-longer x.loc len m l h a.2)

  IsSane-longer : (len m : ℕ) (l : List (TextInfo D)) → len ≤ m → IsSane l len → IsSane l m
  IsSane-longer len m [] h s = s
  IsSane-longer len m (x ∷ l) h s = (s.0, Ascending-longer 0 len m l h s.1)

  -- From the last character on, all have the attributes of the last run.
  value_last :
      (p len : ℕ) (d : D) (l : List (TextInfo D)) (i j : ℕ)
      → Ascending p len l
      → len ≤ suc i
      → len ≤ suc j
      → value d l i ≡ value d l j
  value_last p len d [] i j a h h' = refl
  value_last p len d (x ∷ l) i j a h h' = ground (arith, value_last x.loc len x.attrs l i j)

  value_at_end :
      (len : ℕ) (d : D) (l : List (TextInfo D)) (i j : ℕ)
      → IsSane l len
      → len ≤ suc i
      → len ≤ suc j
      → value d l i ≡ value d l j
  value_at_end len d [] i j s h h' = absurd s
  value_at_end len d (x ∷ l) i j s h h' = ground (arith, value_last 0 len x.attrs l i j)

  -- A single run holds all characters.
  value_single :
      (len : ℕ) (d : D) (l : List (TextInfo D)) (i j : ℕ)
      → IsSane l len
      → length l ≡ 1
      → value d l i ≡ value d l j
  value_single len d [] i j s h = absurd s
  value_single len d (x ∷ []) i j s h = ground arith
  value_single len d (x ∷ y ∷ l) i j s h = absurd (omega arith)

  IsSane-single : (len m : ℕ) (l : List (TextInfo D)) → IsSane l len → length l ≡ 1 → IsSane l m
  IsSane-single len m [] s h = absurd s
  IsSane-single len m (x ∷ []) s h = (s.0, tt)
  IsSane-single len m (x ∷ y ∷ l) s h = absurd (omega arith)

  -- What the method does, with the new array and cache.
  record Done (ext : D → ℕ) (string : Option (List ℕ)) (r : Range) (s : TextStorage D)
      : Type 0 where
    runs : List (TextInfo D)
    cache : Cache D
    sane : IsSane runs (length s.text_chars + length (or_empty string) - r.length)
    counts : Counts ext runs cache
    meaning :
        (i : ℕ)
        → i < length s.text_chars + length (or_empty string) - r.length
        → value f.blank runs i ≡ attributes_of s (source_index r (length (or_empty string)) i)
    result :
        replace_characters r string s
        ≡ ok tt (record s {
          text_chars = replaced_text r (or_empty string) s.text_chars;
          info_array = runs;
          cache = cache;
          edits = characters_edit r (length (or_empty string)) ∷ s.edits;
        })

  module _ (ext : D → ℕ) (string : Option (List ℕ)) (r : Range) (s : TextStorage D)
      (v : IsValid ext s) (fits : r.location + r.length ≤ length s.text_chars)
      (new_small : length s.text_chars + length (or_empty string) < 2147483647 + r.length) where
    abbrev len : ℕ
    len = length s.text_chars

    abbrev n : ℕ
    n = length (or_empty string)

    source_cases : (i : ℕ) → i < r.location → source_index r n i ≡ i
    source_cases i h = rw (ltb-true i r.location h) refl

    -- The characters are appended.
    Done-at_end : r.location ≡ len → Done ext string r s
    unfolding replace_characters range_check replace_text edited
    Done-at_end e = record {
      runs = s.info_array;
      cache = s.cache;
      sane = IsSane-longer len (len + n - r.length) s.info_array (omega arith) v.sane;
      counts = v.counts;
      meaning = λ i h. elim (dec_lt i len) [
        | yes p ↦ rw (source_cases i (omega arith)) refl
        | no q ↦
            value_at_end len f.blank s.info_array i (source_index r n i) v.sane (omega arith)
              (ground arith)
      ];
      result = rw (u32_lem len (omega (arith, v.small)), range_passes f r len fits) (ground arith);
    }

    -- There is one run.
    Done-single : r.location ≢ len → length s.info_array ≡ 1 → Done ext string r s
    unfolding replace_characters range_check replace_text edited count_objects
    Done-single e one = record {
      runs = s.info_array;
      cache = s.cache;
      sane = IsSane-single len (len + n - r.length) s.info_array v.sane one;
      counts = v.counts;
      meaning = λ i h. value_single len f.blank s.info_array i (source_index r n i) v.sane one;
      result =
          rw (u32_lem len (omega (arith, v.small)), range_passes f r len fits, one)
            (ground (arith, u32_lem 1));
    }

    Done-several : r.location ≢ len → length s.info_array ≢ 1 → Done ext string r s
    unfolding replace_characters range_check replace_text edited count_objects
    Done-several e several =
        let w =
          replace_runs_lem ext r n len s refl v.sane v.counts (omega arith) fits v.small
            new_small in
        let size = length-IsSane s.info_array len v.sane in
        record {
          runs = w.runs;
          cache = w.cache;
          sane = w.sane;
          counts = w.counts;
          meaning = w.meaning f.blank;
          result =
              rw
                (
                  u32_lem len (omega (arith, v.small)),
                  range_passes f r len fits,
                  u32_lem (length s.info_array) (omega (arith, v.small, size)),
                )
                (ground (arith, w.result));
        }

    done : Done ext string r s
    done = elim (ℕ_discrete r.location len) [
      | yes e ↦ Done-at_end e
      | no e ↦ elim (ℕ_discrete (length s.info_array) 1) [
        | yes one ↦ Done-single e one
        | no several ↦ Done-several e several
      ]
    ]

    -- In a valid storage, and with a new text of less than 2^31 - 1 characters,
    -- `replaceCharactersInRange:withString:` on a range within the text replaces the characters of
    -- the range (by none, for nil) and keeps the validity. The characters outside of the range keep
    -- their attributes; the new ones take those of the first character replaced, or of the one
    -- before them where none is replaced. The edit is reported.
    pub replace_characters_lem :
        (s' : TextStorage D) × (replace_characters r string s ≡ ok tt s')
        × IsValid ext s'
        × (s'.text_chars ≡ replaced_text r (or_empty string) s.text_chars)
        × ((i : ℕ)
            → i < length s'.text_chars
            → attributes_of s' i ≡ attributes_of s (source_index r (length (or_empty string)) i))
        × (s'.edits ≡ characters_edit r (length (or_empty string)) ∷ s.edits)
    replace_characters_lem =
        let t = length-replaced_text r (or_empty string) s.text_chars fits in
        let d = done in
        (
          record s {
            text_chars = replaced_text r (or_empty string) s.text_chars;
            info_array = d.runs;
            cache = d.cache;
            edits = characters_edit r (length (or_empty string)) ∷ s.edits;
          },
          d.result,
          record { sane = rw t d.sane; counts = d.counts; small = omega (arith, t) },
          refl,
          λ i h. d.meaning i (omega (arith, t)),
          refl,
        )
