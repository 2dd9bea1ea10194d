-- ===== src/Cells/Coding.antt =====
-- Source/NSCell.m: the words NSCellFlags and NSCellFlags2 in a keyed archive, written and read.
use libs_gui.Base.{
  pos, ℕ, ◌*◌, ◌/◌, ◌%◌, ◌^◌, Bool, true, false, not, ◌||◌, Option, none, some, if◌then◌else◌, ◌==◌,
}
use Prim.Native.Nat.{bit_and, bit_or}
use libs_gui.Cells.Cell.{
  CellState, mixed, off, on, Cell, init_cell, type_of, set_type, set_font, set_image, image_of,
  wraps, set_line_break_mode, set_wraps, set_scrollable, set_selectable, set_bezeled, set_bordered,
  set_state, set_allows_mixed_state, set_imports_graphics, set_allows_editing_text_attributes,
}

-- The tests `_action_mask & NSLeftMouseUpMask` and so on.
abbrev pub acts_on : ℕ → Cell → Bool
acts_on mask c = not (bit_and c.action_mask mask == 0)

abbrev pub is_on : CellState → Bool
is_on mixed = false
is_on off = false
is_on on = true

-- The word NSCellFlags.
unfoldable pub first_word : Cell → ℕ
first_word c =
    let w = c.focus_ring_type in
    let w = bit_or w (if c.shows_first_responder then 0x4 else 0) in
    let w = bit_or w (if acts_on 4 c then 0 else 0x20) in
    let w = bit_or w (if wraps c then 0x40 else 0) in
    let w = bit_or w (if acts_on 64 c then 0x100 else 0) in
    let w = bit_or w (if acts_on 2 c then 0x40000 else 0) in
    let w = bit_or w (if acts_on 65536 c then 0x80000 else 0) in
    let w = bit_or w (if c.is_scrollable then 0x100000 else 0) in
    let w = bit_or w (if c.is_selectable || c.is_editable then 0x200000 else 0) in
    let w = bit_or w (if c.is_bezeled then 0x400000 else 0) in
    let w = bit_or w (if c.is_bordered then 0x800000 else 0) in
    let w = bit_or w (type_of c * 2 ^ 26) in
    let w = bit_or w (if c.is_editable then 0x10000000 else 0) in
    let w = bit_or w (if c.is_disabled then 0x20000000 else 0) in
    let w = bit_or w (if c.is_highlighted then 0x40000000 else 0) in
    bit_or w (if is_on c.state then 0x80000000 else 0)

-- The word NSCellFlags2.
unfoldable pub second_word : Cell → ℕ
second_word c =
    let w = if c.uses_single_line_mode then 0x40 else 0 in
    let w = bit_or w (if not c.allows_undo then 0x1000 else 0) in
    let w = bit_or w (c.control_tint * 2 ^ 5) in
    let w = bit_or w (c.line_break_mode * 2 ^ 9) in
    let w = bit_or w (c.control_size * 2 ^ 17) in
    let w = bit_or w (if c.sends_action_on_end_editing then 0x400000 else 0) in
    let w = bit_or w (if c.allows_mixed_state then 0x1000000 else 0) in
    let w = bit_or w (if c.refuses_first_responder then 0x2000000 else 0) in
    let w = bit_or w (c.text_align * 2 ^ 26) in
    let w = bit_or w (if c.imports_graphics then 0x20000000 else 0) in
    bit_or w (if c.is_rich_text then 0x40000000 else 0)

-- `(word & mask) == mask`
abbrev pub has : ℕ → ℕ → Bool
has word mask = bit_and word mask == mask

-- The mask of actions that the first word asks for.
unfoldable pub actions : Bool → Bool → Bool → Bool → ℕ
actions up dragged down periodic =
    let m = if up then bit_or 0 4 else 0 in
    let m = if dragged then bit_or m 64 else m in
    let m = if down then bit_or m 2 else m in if periodic then bit_or m 65536 else m

-- The first word, read into a cell; a cell without contents also takes its type from it.
unfoldable pub read_first_word : Bool → ℕ → Cell → Cell
read_first_word contents_nil w c =
    let c = record c { focus_ring_type = bit_and w 0x3 % 4 } in
    let c = record c { shows_first_responder = has w 0x4 } in
    let c = set_wraps (not (has w 0x40)) c in
    let c = record c {
      action_mask = actions (not (has w 0x20)) (has w 0x100) (has w 0x40000) (has w 0x80000);
    } in
    let c = set_scrollable (has w 0x100000) c in
    let c = set_selectable (has w 0x200000) c in
    let c = set_bezeled (has w 0x400000) c in
    let c = set_bordered (has w 0x800000) c in
    let typed = set_type (bit_and w 0xc000000 / 2 ^ 26 % 4) c in
    let c = record c {
      type = if contents_nil then typed.type else c.type;
      has_image = if contents_nil then typed.has_image else c.has_image;
    } in
    let c = record c { is_editable = has w 0x10000000 } in
    let c = record c { is_disabled = has w 0x20000000 } in
    let c = record c { is_highlighted = has w 0x40000000 } in
    set_state (if has w 0x80000000 then pos 1 else pos 0) c

-- The second word. The integer `cFlags2 & 0x40` becomes a BOOL and then one bit, which as_flag does.
unfoldable pub read_second_word : (ℕ → Bool) → ℕ → Cell → Cell
read_second_word as_flag w c =
    let c = record c { uses_single_line_mode = as_flag (bit_and w 0x40) } in
    let c = record c { control_tint = bit_and w 0xe0 / 2 ^ 5 % 8 } in
    let c = set_line_break_mode (bit_and w 0xe00 / 2 ^ 9 % 8) c in
    let c = record c { control_size = bit_and w 0xe0000 / 2 ^ 17 % 4 } in
    let c = record c { sends_action_on_end_editing = has w 0x400000 } in
    let c = set_allows_mixed_state (has w 0x1000000) c in
    let c = record c { refuses_first_responder = has w 0x2000000 } in
    let c = record c { text_align = bit_and w 0x1c000000 / 2 ^ 26 % 8 } in
    let c = set_imports_graphics (has w 0x20000000) c in
    set_allows_editing_text_attributes (has w 0x40000000) c

pub data Contents : Type 0 where
  a_string an_image another_object nil_object : Contents

abbrev pub is_nil : Contents → Bool
is_nil a_string = false
is_nil an_image = false
is_nil another_object = false
is_nil nil_object = true

abbrev pub first_type : Contents → ℕ
first_type a_string = 1
first_type an_image = 2
first_type another_object = 1
first_type nil_object = 1

abbrev pub is_image : Contents → Bool
is_image a_string = false
is_image an_image = true
is_image another_object = false
is_image nil_object = false

-- The object for the key NSSupport.
pub data Support : Type 0 where
  a_font its_image no_support : Support

unfoldable pub support_of : Bool → Cell → Support
support_of has_font c =
    if c.type == 1
    then (if has_font then a_font else no_support)
    else if image_of c
    then its_image
    else no_support

unfoldable pub read_support : Support → Cell → Cell
read_support a_font c = set_font c
read_support its_image c = set_image c
read_support no_support c = c

-- A keyed archive of a cell that may have either word.
unfoldable pub init_with_coder : (ℕ → Bool) → ℕ → Contents → Option ℕ → Option ℕ → Support → Cell
init_with_coder as_flag default_focus_ring_type contents first second support =
    let c = init_cell (first_type contents) (is_image contents) default_focus_ring_type in
    let c : Cell = elim first [ none ↦ c | some w ↦ read_first_word (is_nil contents) w c ] in
    let c : Cell = elim second [ none ↦ c | some w ↦ read_second_word as_flag w c ] in
    read_support support c
