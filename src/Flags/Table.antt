-- ===== src/Flags/Table.antt =====
-- Source/GSCodingFlags.h: GSTableViewFlags, the flags of a table view, with the two orders of its bit-fields.
use libs_gui.Base.{ℕ, ◌∷◌, []}
use libs_gui.Flags.Coding.{Coding}
use libs_gui.Flags.Layout.{Layout, field_at}

pub record TableViewFlags : Type 0 where
  pub unused : ℕ
  pub unknown2 : ℕ
  pub alternating_row_background_colors : ℕ
  pub column_autosave : ℕ
  pub unknown1 : ℕ
  pub column_selection : ℕ
  pub multiple_selection : ℕ
  pub empty_selection : ℕ
  pub draws_grid : ℕ
  pub column_resizing : ℕ
  pub column_ordering : ℕ

-- The fields where GS_WORDS_BIGENDIAN == 1.
unfoldable pub table_view_flags_big : Layout TableViewFlags
table_view_flags_big =
    (1, λ f. f.column_ordering)
    ∷ (1, λ f. f.column_resizing)
    ∷ (1, λ f. f.draws_grid)
    ∷ (1, λ f. f.empty_selection)
    ∷ (1, λ f. f.multiple_selection)
    ∷ (1, λ f. f.column_selection)
    ∷ (1, λ f. f.unknown1)
    ∷ (1, λ f. f.column_autosave)
    ∷ (1, λ f. f.alternating_row_background_colors)
    ∷ (3, λ f. f.unknown2)
    ∷ (20, λ f. f.unused)
    ∷ []

-- The fields where GS_WORDS_BIGENDIAN is not 1.
unfoldable pub table_view_flags_little : Layout TableViewFlags
table_view_flags_little =
    (20, λ f. f.unused)
    ∷ (3, λ f. f.unknown2)
    ∷ (1, λ f. f.alternating_row_background_colors)
    ∷ (1, λ f. f.column_autosave)
    ∷ (1, λ f. f.unknown1)
    ∷ (1, λ f. f.column_selection)
    ∷ (1, λ f. f.multiple_selection)
    ∷ (1, λ f. f.empty_selection)
    ∷ (1, λ f. f.draws_grid)
    ∷ (1, λ f. f.column_resizing)
    ∷ (1, λ f. f.column_ordering)
    ∷ []

-- Both orders, with the members read from the values of the fields in each.
unfoldable pub table_view_flags_coding : Coding TableViewFlags
table_view_flags_coding = record {
  big_endian = table_view_flags_big;
  little_endian = table_view_flags_little;
  of_big = λ values. record {
    column_ordering = field_at 0 values;
    column_resizing = field_at 1 values;
    draws_grid = field_at 2 values;
    empty_selection = field_at 3 values;
    multiple_selection = field_at 4 values;
    column_selection = field_at 5 values;
    unknown1 = field_at 6 values;
    column_autosave = field_at 7 values;
    alternating_row_background_colors = field_at 8 values;
    unknown2 = field_at 9 values;
    unused = field_at 10 values;
  };
  of_little = λ values. record {
    unused = field_at 0 values;
    unknown2 = field_at 1 values;
    alternating_row_background_colors = field_at 2 values;
    column_autosave = field_at 3 values;
    unknown1 = field_at 4 values;
    column_selection = field_at 5 values;
    multiple_selection = field_at 6 values;
    empty_selection = field_at 7 values;
    draws_grid = field_at 8 values;
    column_resizing = field_at 9 values;
    column_ordering = field_at 10 values;
  };
}
