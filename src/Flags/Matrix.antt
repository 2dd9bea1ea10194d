-- ===== src/Flags/Matrix.antt =====
-- Source/GSCodingFlags.h: GSMatrixFlags, the flags of a matrix, with the two orders of its bit-fields.
use libs_gui.Base.{ℕ, ◌∷◌, []}
use libs_gui.Flags.Coding.{Coding}
use libs_gui.Flags.Layout.{Layout, field_at}

pub record MatrixFlags : Type 0 where
  pub unused : ℕ
  pub can_search_incrementally : ℕ
  pub tab_key_traverses_cells_explicitly : ℕ
  pub tab_key_traverses_cells : ℕ
  pub drawing_ancestor : ℕ
  pub autosizes_cells : ℕ
  pub draw_background : ℕ
  pub draw_cell_background : ℕ
  pub selection_by_rect : ℕ
  pub auto_scroll : ℕ
  pub allows_empty_selection : ℕ
  pub is_list : ℕ
  pub is_radio : ℕ
  pub is_highlight : ℕ

-- The fields where GS_WORDS_BIGENDIAN == 1.
unfoldable pub matrix_flags_big : Layout MatrixFlags
matrix_flags_big =
    (1, λ f. f.is_highlight)
    ∷ (1, λ f. f.is_radio)
    ∷ (1, λ f. f.is_list)
    ∷ (1, λ f. f.allows_empty_selection)
    ∷ (1, λ f. f.auto_scroll)
    ∷ (1, λ f. f.selection_by_rect)
    ∷ (1, λ f. f.draw_cell_background)
    ∷ (1, λ f. f.draw_background)
    ∷ (1, λ f. f.autosizes_cells)
    ∷ (1, λ f. f.drawing_ancestor)
    ∷ (1, λ f. f.tab_key_traverses_cells)
    ∷ (1, λ f. f.tab_key_traverses_cells_explicitly)
    ∷ (1, λ f. f.can_search_incrementally)
    ∷ (19, λ f. f.unused)
    ∷ []

-- The fields where GS_WORDS_BIGENDIAN is not 1.
unfoldable pub matrix_flags_little : Layout MatrixFlags
matrix_flags_little =
    (19, λ f. f.unused)
    ∷ (1, λ f. f.can_search_incrementally)
    ∷ (1, λ f. f.tab_key_traverses_cells_explicitly)
    ∷ (1, λ f. f.tab_key_traverses_cells)
    ∷ (1, λ f. f.drawing_ancestor)
    ∷ (1, λ f. f.autosizes_cells)
    ∷ (1, λ f. f.draw_background)
    ∷ (1, λ f. f.draw_cell_background)
    ∷ (1, λ f. f.selection_by_rect)
    ∷ (1, λ f. f.auto_scroll)
    ∷ (1, λ f. f.allows_empty_selection)
    ∷ (1, λ f. f.is_list)
    ∷ (1, λ f. f.is_radio)
    ∷ (1, λ f. f.is_highlight)
    ∷ []

-- Both orders, with the members read from the values of the fields in each.
unfoldable pub matrix_flags_coding : Coding MatrixFlags
matrix_flags_coding = record {
  big_endian = matrix_flags_big;
  little_endian = matrix_flags_little;
  of_big = λ values. record {
    is_highlight = field_at 0 values;
    is_radio = field_at 1 values;
    is_list = field_at 2 values;
    allows_empty_selection = field_at 3 values;
    auto_scroll = field_at 4 values;
    selection_by_rect = field_at 5 values;
    draw_cell_background = field_at 6 values;
    draw_background = field_at 7 values;
    autosizes_cells = field_at 8 values;
    drawing_ancestor = field_at 9 values;
    tab_key_traverses_cells = field_at 10 values;
    tab_key_traverses_cells_explicitly = field_at 11 values;
    can_search_incrementally = field_at 12 values;
    unused = field_at 13 values;
  };
  of_little = λ values. record {
    unused = field_at 0 values;
    can_search_incrementally = field_at 1 values;
    tab_key_traverses_cells_explicitly = field_at 2 values;
    tab_key_traverses_cells = field_at 3 values;
    drawing_ancestor = field_at 4 values;
    autosizes_cells = field_at 5 values;
    draw_background = field_at 6 values;
    draw_cell_background = field_at 7 values;
    selection_by_rect = field_at 8 values;
    auto_scroll = field_at 9 values;
    allows_empty_selection = field_at 10 values;
    is_list = field_at 11 values;
    is_radio = field_at 12 values;
    is_highlight = field_at 13 values;
  };
}
