-- ===== src/Cells/Tests.antt =====
-- The theorems on archived cells, at a cell with a bezel, a single line and undo.
use libs_gui.Base.{ℕ, ◌≡◌, Bool, true, false, not, ◌==◌, arith}
use libs_gui.Flags.Coding.{value_of}
use libs_gui.Flags.Words.{coding, cell_flags}
use libs_gui.Cells.Cell.{Cell, mixed}
use libs_gui.Cells.Coding.{first_word}
use libs_gui.Cells.FirstWord.{IsInRange}
use libs_gui.Cells.Structure.{structure_of, first_word-structure_of}

abbrev field_cell : Cell
field_cell = record {
  is_highlighted = false;
  is_disabled = true;
  is_editable = true;
  is_rich_text = true;
  imports_graphics = true;
  shows_first_responder = true;
  refuses_first_responder = false;
  sends_action_on_end_editing = true;
  is_bordered = false;
  is_bezeled = true;
  is_scrollable = true;
  text_align = 4;
  is_selectable = false;
  allows_mixed_state = true;
  type = 1;
  allows_undo = true;
  line_break_mode = 2;
  state = mixed;
  control_tint = 1;
  control_size = 2;
  focus_ring_type = 2;
  uses_single_line_mode = true;
  action_mask = 68;
  has_image = false;
}

field_cell-IsInRange : IsInRange field_cell
field_cell-IsInRange = record {
  focus_range = omega arith;
  type_range = omega arith;
  tint_range = omega arith;
  mode_range = omega arith;
  size_range = omega arith;
  align_range = omega arith;
}

abbrev low_bit : ℕ → Bool
low_bit n = not (n == 0)

first_word-structure_of_example :
    first_word field_cell ≡ value_of (coding cell_flags) true (structure_of field_cell)
first_word-structure_of_example = first_word-structure_of true field_cell field_cell-IsInRange
