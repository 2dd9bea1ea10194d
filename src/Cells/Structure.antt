-- ===== src/Cells/Structure.antt =====
-- The words of Source/NSCell.m and the structures of Source/GSCodingFlags.h.
use libs_gui.Base.{◌+◌, ◌*◌, ◌%◌, ◌≡◌, refl, sym, ◌∙◌, Bool, true, false, not, ◌||◌, arith}
use libs_gui.Flags.Layout.{pack_from_low}
use libs_gui.Flags.Coding.{value_of}
use libs_gui.Flags.Words.{coding, cell_flags, value_of-any}
use libs_gui.Flags.Cell.{CellFlags, cell_flags_little, cell_flags_coding}
use libs_gui.Cells.Cell.{Cell, type_of, wraps}
use libs_gui.Cells.Coding.{acts_on, is_on, first_word}
use libs_gui.Cells.Fields.{bit, or_fields_lem, joined}
use libs_gui.Cells.FirstWord.{
  IsInRange, first_fields, first_word_lem, first_fields-AllFit, type_of-bound,
}

-- The members for the flags of a cell, the type as the method `type` answers it, and 0 for those that
-- GNUstep does not write.
unfoldable pub structure_of : Cell → CellFlags
structure_of c = record {
  focus_ring_type = c.focus_ring_type;
  shows_first_responder = bit c.shows_first_responder;
  use_user_key_equivalent = 0;
  is_white = 0;
  dont_act_on_mouse_up = bit (not (acts_on 4 c));
  truncate_last_line = bit (wraps c);
  is_loaded = 0;
  act_on_mouse_dragged = bit (acts_on 64 c);
  single_line_mode = 0;
  allows_appearance_effects = 0;
  weak_target_helper_flag = 0;
  line_break_mode = 0;
  invalid_font = 0;
  invalid_object_value = 0;
  is_leaf = 0;
  act_on_mouse_down = bit (acts_on 2 c);
  continuous = bit (acts_on 65536 c);
  scrollable = bit c.is_scrollable;
  selectable = bit (c.is_selectable || c.is_editable);
  bezeled = bit c.is_bezeled;
  bordered = bit c.is_bordered;
  h_centered = 0;
  v_centered = 0;
  type = type_of c;
  editable = bit c.is_editable;
  disabled = bit c.is_disabled;
  highlighted = bit c.is_highlighted;
  state = bit (is_on c.state);
}

bit-mod : (b : Bool) → bit b % 2 ≡ bit b
bit-mod true = refl
bit-mod false = refl

packed :
    (c : Cell)
    → IsInRange c
    → pack_from_low cell_flags_little (structure_of c)
      ≡ c.focus_ring_type + 4 * joined (first_fields c)
unfolding pack_from_low cell_flags_little structure_of joined first_fields
packed c r =
    let focus : c.focus_ring_type % 4 ≡ c.focus_ring_type = omega (arith, r.focus_range) in
    let cell_type : type_of c % 4 ≡ type_of c = omega (arith, type_of-bound c r.type_range) in
    rw
      (
        focus,
        cell_type,
        bit-mod c.shows_first_responder,
        bit-mod (not (acts_on 4 c)),
        bit-mod (wraps c),
        bit-mod (acts_on 64 c),
        bit-mod (acts_on 2 c),
        bit-mod (acts_on 65536 c),
        bit-mod c.is_scrollable,
        bit-mod (c.is_selectable || c.is_editable),
        bit-mod c.is_bezeled,
        bit-mod c.is_bordered,
        bit-mod c.is_editable,
        bit-mod c.is_disabled,
        bit-mod c.is_highlighted,
        bit-mod (is_on c.state),
      )
      (omega arith)

-- The word NSCellFlags that `encodeWithCoder:` puts together with masks, for a cell whose numbers are within
-- their bit-fields, is that of the structure GSCellFlags with these members, on machines of either order.
pub first_word-structure_of :
    (big : Bool) (c : Cell)
    → IsInRange c
    → first_word c ≡ value_of (coding cell_flags) big (structure_of c)
unfolding coding value_of cell_flags_coding
first_word-structure_of false c r =
    first_word_lem c
    ∙ or_fields_lem c.focus_ring_type 2 (first_fields c) r.focus_range (first_fields-AllFit c r)
    ∙ sym (packed c r)
first_word-structure_of true c r =
    first_word_lem c
    ∙ or_fields_lem c.focus_ring_type 2 (first_fields c) r.focus_range (first_fields-AllFit c r)
    ∙ sym (packed c r)
    ∙ sym (value_of-any cell_flags true (structure_of c)).0
