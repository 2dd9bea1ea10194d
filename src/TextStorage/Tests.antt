-- ===== src/TextStorage/Tests.antt =====
-- The theorems on GSTextStorage at a small storage, with numbers for the dictionaries.
use libs_gui.Base.{
  ℕ, ◌+◌, ◌<◌, ◌≡◌, ◌&&◌, [], ◌∷◌, none, some, arith, leb, ltb, length, Range, ℕ_discrete,
  if◌then◌else◌,
}
use libs_gui.TextStorage.Cache.{Foundation, count, one}
use libs_gui.TextStorage.Store.{TextStorage, ok, raised, range_exception}
use libs_gui.TextStorage.SetAttributes.{set_attributes, or_blank}
use libs_gui.TextStorage.SetAttributes.Correct.{
  IsValid, attributes_of, set_attributes_lem, set_attributes_out_of_range, attributes_edit,
}
use libs_gui.TextStorage.Replace.{replace_characters, or_empty}
use libs_gui.TextStorage.Replace.Text.{replace_characters_lem, replaced_text, characters_edit}
use libs_gui.TextStorage.AttributesAt.{Answers, effective_attributes, effective_attributes_lem}
use libs_gui.TextStorage.Search.{Found}
use libs_gui.TextStorage.Replace.Meaning.{source_index}

instance abbrev numbers : Foundation ℕ
numbers = record {
  blank = 0;
  dec_eq = ℕ_discrete;
  range_ok = λ r n. leb (r.location + r.length) n;
  range_ok_iff = λ r n. ground arith;
}

abbrev two_runs : TextStorage ℕ
two_runs = record {
  text_chars = 97 ∷ 98 ∷ 99 ∷ 100 ∷ [];
  info_array = record { loc = 0; attrs = 1 } ∷ record { loc = 2; attrs = 2 } ∷ [];
  cache = (0, 1) ∷ (1, 1) ∷ (2, 1) ∷ [];
  edits = [];
}

abbrev blank_held : ℕ → ℕ
blank_held e = one 0 e

two_runs-IsValid : IsValid blank_held two_runs
unfolding count ℕ_discrete
two_runs-IsValid = record {
  sane = omega arith;
  counts = record { proper = ground arith; exact = λ e. ground arith };
  small = omega arith;
}

abbrev middle : Range
middle = record { location = 1; length = 2 }

abbrev past_end : Range
past_end = record { location = 3; length = 2 }

set_attributes_lem_example :
    (s' : TextStorage ℕ) × (set_attributes (some 2) middle two_runs ≡ ok tt s')
    × IsValid blank_held s'
    × ((i : ℕ)
        → i < 4
        → attributes_of s' i
          ≡ (if leb 1 i && ltb i (1 + 2) then or_blank (some 2) else attributes_of two_runs i))
    × (s'.text_chars ≡ two_runs.text_chars)
    × (s'.edits ≡ attributes_edit middle ∷ two_runs.edits)
set_attributes_lem_example =
    set_attributes_lem blank_held (some 2) middle two_runs two_runs-IsValid (omega arith)
      (omega arith)

set_attributes_out_of_range_example :
    (s' : TextStorage ℕ) × (set_attributes none past_end two_runs ≡ raised range_exception s')
    × (s'.text_chars ≡ two_runs.text_chars)
    × (s'.info_array ≡ two_runs.info_array)
    × (count (or_blank none) s'.cache ≡ count (or_blank none) two_runs.cache + 1)
set_attributes_out_of_range_example =
    set_attributes_out_of_range none past_end two_runs (omega arith) (omega arith) (omega arith)

replace_characters_lem_example :
    (s' : TextStorage ℕ) × (replace_characters middle (some (120 ∷ [])) two_runs ≡ ok tt s')
    × IsValid blank_held s'
    × (s'.text_chars ≡ replaced_text middle (or_empty (some (120 ∷ []))) two_runs.text_chars)
    × ((i : ℕ)
        → i < length s'.text_chars
        → attributes_of s' i
          ≡ attributes_of two_runs (source_index middle (length (or_empty (some (120 ∷ [])))) i))
    × (s'.edits ≡ characters_edit middle (length (or_empty (some (120 ∷ [])))) ∷ two_runs.edits)
unfolding or_empty
replace_characters_lem_example =
    replace_characters_lem blank_held (some (120 ∷ [])) middle two_runs two_runs-IsValid
      (omega arith) (omega arith)

effective_attributes_lem_example :
    (a : Found ℕ) × (effective_attributes 1 two_runs ≡ ok a two_runs) × Answers two_runs 1 a
effective_attributes_lem_example =
    effective_attributes_lem blank_held two_runs 1 two_runs-IsValid (omega arith)
