-- ===== src/Cells/RoundTrip.antt =====
-- Source/NSCell.m: a cell that is written into a keyed archive and read again.
use Prim.Native.Nat.{bit_and}
use libs_gui.Base.{ℕ, ◌==◌, ◌*◌, ◌/◌, ◌%◌, ◌≡◌, Bool, false, not, ◌&&◌, ◌||◌, if◌then◌else◌}
use libs_gui.Cells.Cell.{Cell, off, on, type_of, wraps}
use libs_gui.Cells.Coding.{is_on, is_image, Contents, is_nil, first_type}
use libs_gui.Cells.Actions.{kept_actions}
use libs_gui.Cells.SecondWord.{shared_tint}

-- What the methods that set flags keep: a cell that wraps does not scroll, and one that imports graphics
-- has text attributes to edit.
pub record IsConsistent (c : Cell) : Type 0 where
  pub scrolls_or_wraps : (wraps c && c.is_scrollable) ≡ false
  pub graphics_in_rich_text : (c.imports_graphics && not c.is_rich_text) ≡ false

-- The type that the words and the contents lead to.
abbrev pub read_type : Contents → Cell → ℕ
read_type contents c = if is_nil contents then type_of c else first_type contents

-- What is left of a cell: a font makes it one of text, and an image one of an image.
unfoldable pub archived : (ℕ → Bool) → Bool → Contents → Cell → Cell
archived as_flag has_font contents c = record c {
  is_bezeled = false;
  is_selectable = c.is_selectable || c.is_editable;
  type =
      if c.type == 1
      then (if has_font then 1 else read_type contents c)
      else if (c.type == 2) && c.has_image
      then 2
      else read_type contents c;
  has_image = ((c.type == 2) && c.has_image) || is_image contents;
  allows_undo = false;
  state = if is_on c.state then on else off;
  control_tint = shared_tint c;
  uses_single_line_mode = as_flag (shared_tint c / 2 % 2 * 64);
  action_mask = bit_and c.action_mask kept_actions;
}

-- What is left of it by the words alone.
unfoldable from_words : (ℕ → Bool) → Contents → Cell → Cell
from_words as_flag contents c = record (archived as_flag false contents c) {
  type = read_type contents c;
  has_image = is_image contents;
}
