-- ===== src/Flags/CellMore.antt =====
-- Source/GSCodingFlags.h: GSCellFlags2, the second word of flags of a cell, with the two orders of its bit-fields.
use libs_gui.Base.{ℕ, ◌∷◌, []}
use libs_gui.Flags.Coding.{Coding}
use libs_gui.Flags.Layout.{Layout, field_at}

pub record CellFlags2 : Type 0 where
  pub unused6 : ℕ
  pub control_tint : ℕ
  pub unused5 : ℕ
  pub line_break_mode : ℕ
  pub does_not_allow_undo : ℕ
  pub unused4 : ℕ
  pub control_size : ℕ
  pub unused3 : ℕ
  pub sends_action_on_end_editing : ℕ
  pub unused2 : ℕ
  pub allows_mixed_state : ℕ
  pub refuses_first_responder : ℕ
  pub alignment : ℕ
  pub imports_graphics : ℕ
  pub allows_editing_text_attributes : ℕ
  pub unused1 : ℕ

-- The fields where GS_WORDS_BIGENDIAN == 1.
unfoldable pub cell_flags2_big : Layout CellFlags2
cell_flags2_big =
    (1, λ f. f.unused1)
    ∷ (1, λ f. f.allows_editing_text_attributes)
    ∷ (1, λ f. f.imports_graphics)
    ∷ (3, λ f. f.alignment)
    ∷ (1, λ f. f.refuses_first_responder)
    ∷ (1, λ f. f.allows_mixed_state)
    ∷ (1, λ f. f.unused2)
    ∷ (1, λ f. f.sends_action_on_end_editing)
    ∷ (2, λ f. f.unused3)
    ∷ (3, λ f. f.control_size)
    ∷ (4, λ f. f.unused4)
    ∷ (1, λ f. f.does_not_allow_undo)
    ∷ (3, λ f. f.line_break_mode)
    ∷ (1, λ f. f.unused5)
    ∷ (3, λ f. f.control_tint)
    ∷ (5, λ f. f.unused6)
    ∷ []

-- The fields where GS_WORDS_BIGENDIAN is not 1.
unfoldable pub cell_flags2_little : Layout CellFlags2
cell_flags2_little =
    (5, λ f. f.unused6)
    ∷ (3, λ f. f.control_tint)
    ∷ (1, λ f. f.unused5)
    ∷ (3, λ f. f.line_break_mode)
    ∷ (1, λ f. f.does_not_allow_undo)
    ∷ (4, λ f. f.unused4)
    ∷ (3, λ f. f.control_size)
    ∷ (2, λ f. f.unused3)
    ∷ (1, λ f. f.sends_action_on_end_editing)
    ∷ (1, λ f. f.unused2)
    ∷ (1, λ f. f.allows_mixed_state)
    ∷ (1, λ f. f.refuses_first_responder)
    ∷ (3, λ f. f.alignment)
    ∷ (1, λ f. f.imports_graphics)
    ∷ (1, λ f. f.allows_editing_text_attributes)
    ∷ (1, λ f. f.unused1)
    ∷ []

-- Both orders, with the members read from the values of the fields in each.
unfoldable pub cell_flags2_coding : Coding CellFlags2
cell_flags2_coding = record {
  big_endian = cell_flags2_big;
  little_endian = cell_flags2_little;
  of_big = λ values. record {
    unused1 = field_at 0 values;
    allows_editing_text_attributes = field_at 1 values;
    imports_graphics = field_at 2 values;
    alignment = field_at 3 values;
    refuses_first_responder = field_at 4 values;
    allows_mixed_state = field_at 5 values;
    unused2 = field_at 6 values;
    sends_action_on_end_editing = field_at 7 values;
    unused3 = field_at 8 values;
    control_size = field_at 9 values;
    unused4 = field_at 10 values;
    does_not_allow_undo = field_at 11 values;
    line_break_mode = field_at 12 values;
    unused5 = field_at 13 values;
    control_tint = field_at 14 values;
    unused6 = field_at 15 values;
  };
  of_little = λ values. record {
    unused6 = field_at 0 values;
    control_tint = field_at 1 values;
    unused5 = field_at 2 values;
    line_break_mode = field_at 3 values;
    does_not_allow_undo = field_at 4 values;
    unused4 = field_at 5 values;
    control_size = field_at 6 values;
    unused3 = field_at 7 values;
    sends_action_on_end_editing = field_at 8 values;
    unused2 = field_at 9 values;
    allows_mixed_state = field_at 10 values;
    refuses_first_responder = field_at 11 values;
    alignment = field_at 12 values;
    imports_graphics = field_at 13 values;
    allows_editing_text_attributes = field_at 14 values;
    unused1 = field_at 15 values;
  };
}
