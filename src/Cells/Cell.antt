-- ===== src/Cells/Cell.antt =====
-- Headers/AppKit/NSCell.h and Source/NSCell.m: the flags of a cell, and the methods that set them.
use libs_gui.Base.{
  zero, suc, ℤ, pos, negsuc, ℕ, Bool, true, false, not, ◌&&◌, ◌||◌, if◌then◌else◌, ◌==◌,
}

-- NSMixedState, NSOffState and NSOnState.
pub data CellState : Type 0 where
  mixed off on : CellState

-- The flags `_cell`, `_action_mask`, and whether `_cell_image` is not nil.
pub record Cell : Type 0 where
  pub is_highlighted : Bool
  pub is_disabled : Bool
  pub is_editable : Bool
  pub is_rich_text : Bool
  pub imports_graphics : Bool
  pub shows_first_responder : Bool
  pub refuses_first_responder : Bool
  pub sends_action_on_end_editing : Bool
  pub is_bordered : Bool
  pub is_bezeled : Bool
  pub is_scrollable : Bool
  pub text_align : ℕ
  pub is_selectable : Bool
  pub allows_mixed_state : Bool
  pub type : ℕ
  pub allows_undo : Bool
  pub line_break_mode : ℕ
  pub state : CellState
  pub control_tint : ℕ
  pub control_size : ℕ
  pub focus_ring_type : ℕ
  pub uses_single_line_mode : Bool
  pub action_mask : ℕ
  pub has_image : Bool

-- A new cell of NSTextCellType (1), without an image, or of NSImageCellType (2), with one or with nil.
unfoldable pub init_cell : ℕ → Bool → ℕ → Cell
init_cell type image default_focus_ring_type = record {
  is_highlighted = false;
  is_disabled = false;
  is_editable = false;
  is_rich_text = false;
  imports_graphics = false;
  shows_first_responder = false;
  refuses_first_responder = false;
  sends_action_on_end_editing = false;
  is_bordered = false;
  is_bezeled = false;
  is_scrollable = false;
  text_align = 0;
  is_selectable = false;
  allows_mixed_state = false;
  type = type;
  allows_undo = false;
  line_break_mode = 0;
  state = off;
  control_tint = 0;
  control_size = 0;
  focus_ring_type = default_focus_ring_type;
  uses_single_line_mode = false;
  action_mask = 4;
  has_image = image;
}

-- The method `type`: that of a cell of NSImageCellType without an image is NSNullCellType.
unfoldable pub type_of : Cell → ℕ
type_of c = if (c.type == 2) && not c.has_image then 0 else c.type

-- A cell that becomes one of NSImageCellType loses its image.
unfoldable pub set_type : ℕ → Cell → Cell
set_type new_type c = record c {
  type = new_type;
  has_image =
      if c.type == new_type then c.has_image else if new_type == 2 then false else c.has_image;
}

-- The method `setFont:` makes the cell one of NSTextCellType.
unfoldable pub set_font : Cell → Cell
set_font c = if c.type == 1 then c else set_type 1 c

-- The method `setImage:`, with an image.
unfoldable pub set_image : Cell → Cell
set_image c =
    let typed = if c.type == 2 then c else set_type 2 c in record typed { has_image = true }

-- Whether the method `image` answers an image.
unfoldable pub image_of : Cell → Bool
image_of c = if c.type == 2 then c.has_image else false

-- NSLineBreakByWordWrapping or NSLineBreakByCharWrapping.
abbrev pub is_wrapping : ℕ → Bool
is_wrapping mode = (mode == 0) || (mode == 1)

abbrev pub wraps : Cell → Bool
wraps c = is_wrapping c.line_break_mode

unfoldable pub set_line_break_mode : ℕ → Cell → Cell
set_line_break_mode mode c = record c {
  is_scrollable = if is_wrapping mode then false else c.is_scrollable;
  line_break_mode = mode;
}

-- The mode is set where the flag changes, to NSLineBreakByWordWrapping or NSLineBreakByClipping; the
-- former also ends scrolling.
unfoldable pub set_wraps : Bool → Cell → Cell
set_wraps flag c =
    let starts = flag && not (wraps c) in
    let stops = not flag && wraps c in
    record c {
      is_scrollable = if starts then false else c.is_scrollable;
      line_break_mode = if starts then 0 else if stops then 2 else c.line_break_mode;
    }

unfoldable pub set_scrollable : Bool → Cell → Cell
set_scrollable flag c = record c {
  is_scrollable = flag;
  line_break_mode = if flag && wraps c then 2 else c.line_break_mode;
}

unfoldable pub set_selectable : Bool → Cell → Cell
set_selectable flag c = record c {
  is_selectable = flag;
  is_editable = if flag then c.is_editable else false;
}

unfoldable pub set_bezeled : Bool → Cell → Cell
set_bezeled flag c = record c { is_bezeled = flag; is_bordered = false }

unfoldable pub set_bordered : Bool → Cell → Cell
set_bordered flag c = record c { is_bordered = flag; is_bezeled = false }

-- The state that `setState:` stores for a value, where mixed states are allowed or not.
unfoldable pub state_for : Bool → ℤ → CellState
state_for allows (pos zero) = off
state_for allows (pos (suc n)) = on
state_for allows (negsuc n) = if allows then mixed else on

unfoldable pub set_state : ℤ → Cell → Cell
set_state value c = record c { state = state_for c.allows_mixed_state value }

unfoldable pub next_state : Bool → CellState → ℤ
next_state allows on = pos 0
next_state allows off = if allows then negsuc 0 else pos 1
next_state allows mixed = pos 1

abbrev pub is_mixed : CellState → Bool
is_mixed mixed = true
is_mixed off = false
is_mixed on = false

-- Without mixed states, a cell in one goes to the next state.
unfoldable pub set_allows_mixed_state : Bool → Cell → Cell
set_allows_mixed_state flag c = record c {
  allows_mixed_state = flag;
  state =
      if not flag && is_mixed c.state then state_for flag (next_state flag c.state) else c.state;
}

unfoldable pub set_imports_graphics : Bool → Cell → Cell
set_imports_graphics flag c = record c {
  imports_graphics = flag;
  is_rich_text = if flag then true else c.is_rich_text;
}

unfoldable pub set_allows_editing_text_attributes : Bool → Cell → Cell
set_allows_editing_text_attributes flag c = record c {
  is_rich_text = flag;
  imports_graphics = if flag then c.imports_graphics else false;
}
