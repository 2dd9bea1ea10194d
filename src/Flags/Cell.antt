-- ===== src/Flags/Cell.antt =====
-- Source/GSCodingFlags.h: GSCellFlags, the flags of a cell, with the two orders of its bit-fields.
use libs_gui.Base.{ℕ, ◌∷◌, []}
use libs_gui.Flags.Coding.{Coding}
use libs_gui.Flags.Layout.{Layout, field_at}

pub record CellFlags : Type 0 where
  pub focus_ring_type : ℕ
  pub shows_first_responder : ℕ
  pub use_user_key_equivalent : ℕ
  pub is_white : ℕ
  pub dont_act_on_mouse_up : ℕ
  pub truncate_last_line : ℕ
  pub is_loaded : ℕ
  pub act_on_mouse_dragged : ℕ
  pub single_line_mode : ℕ
  pub allows_appearance_effects : ℕ
  pub weak_target_helper_flag : ℕ
  pub line_break_mode : ℕ
  pub invalid_font : ℕ
  pub invalid_object_value : ℕ
  pub is_leaf : ℕ
  pub act_on_mouse_down : ℕ
  pub continuous : ℕ
  pub scrollable : ℕ
  pub selectable : ℕ
  pub bezeled : ℕ
  pub bordered : ℕ
  pub h_centered : ℕ
  pub v_centered : ℕ
  pub type : ℕ
  pub editable : ℕ
  pub disabled : ℕ
  pub highlighted : ℕ
  pub state : ℕ

-- The fields where GS_WORDS_BIGENDIAN == 1.
unfoldable pub cell_flags_big : Layout CellFlags
cell_flags_big =
    (1, λ f. f.state)
    ∷ (1, λ f. f.highlighted)
    ∷ (1, λ f. f.disabled)
    ∷ (1, λ f. f.editable)
    ∷ (2, λ f. f.type)
    ∷ (1, λ f. f.v_centered)
    ∷ (1, λ f. f.h_centered)
    ∷ (1, λ f. f.bordered)
    ∷ (1, λ f. f.bezeled)
    ∷ (1, λ f. f.selectable)
    ∷ (1, λ f. f.scrollable)
    ∷ (1, λ f. f.continuous)
    ∷ (1, λ f. f.act_on_mouse_down)
    ∷ (1, λ f. f.is_leaf)
    ∷ (1, λ f. f.invalid_object_value)
    ∷ (1, λ f. f.invalid_font)
    ∷ (3, λ f. f.line_break_mode)
    ∷ (1, λ f. f.weak_target_helper_flag)
    ∷ (1, λ f. f.allows_appearance_effects)
    ∷ (1, λ f. f.single_line_mode)
    ∷ (1, λ f. f.act_on_mouse_dragged)
    ∷ (1, λ f. f.is_loaded)
    ∷ (1, λ f. f.truncate_last_line)
    ∷ (1, λ f. f.dont_act_on_mouse_up)
    ∷ (1, λ f. f.is_white)
    ∷ (1, λ f. f.use_user_key_equivalent)
    ∷ (1, λ f. f.shows_first_responder)
    ∷ (2, λ f. f.focus_ring_type)
    ∷ []

-- The fields where GS_WORDS_BIGENDIAN is not 1.
unfoldable pub cell_flags_little : Layout CellFlags
cell_flags_little =
    (2, λ f. f.focus_ring_type)
    ∷ (1, λ f. f.shows_first_responder)
    ∷ (1, λ f. f.use_user_key_equivalent)
    ∷ (1, λ f. f.is_white)
    ∷ (1, λ f. f.dont_act_on_mouse_up)
    ∷ (1, λ f. f.truncate_last_line)
    ∷ (1, λ f. f.is_loaded)
    ∷ (1, λ f. f.act_on_mouse_dragged)
    ∷ (1, λ f. f.single_line_mode)
    ∷ (1, λ f. f.allows_appearance_effects)
    ∷ (1, λ f. f.weak_target_helper_flag)
    ∷ (3, λ f. f.line_break_mode)
    ∷ (1, λ f. f.invalid_font)
    ∷ (1, λ f. f.invalid_object_value)
    ∷ (1, λ f. f.is_leaf)
    ∷ (1, λ f. f.act_on_mouse_down)
    ∷ (1, λ f. f.continuous)
    ∷ (1, λ f. f.scrollable)
    ∷ (1, λ f. f.selectable)
    ∷ (1, λ f. f.bezeled)
    ∷ (1, λ f. f.bordered)
    ∷ (1, λ f. f.h_centered)
    ∷ (1, λ f. f.v_centered)
    ∷ (2, λ f. f.type)
    ∷ (1, λ f. f.editable)
    ∷ (1, λ f. f.disabled)
    ∷ (1, λ f. f.highlighted)
    ∷ (1, λ f. f.state)
    ∷ []

-- Both orders, with the members read from the values of the fields in each.
unfoldable pub cell_flags_coding : Coding CellFlags
cell_flags_coding = record {
  big_endian = cell_flags_big;
  little_endian = cell_flags_little;
  of_big = λ values. record {
    state = field_at 0 values;
    highlighted = field_at 1 values;
    disabled = field_at 2 values;
    editable = field_at 3 values;
    type = field_at 4 values;
    v_centered = field_at 5 values;
    h_centered = field_at 6 values;
    bordered = field_at 7 values;
    bezeled = field_at 8 values;
    selectable = field_at 9 values;
    scrollable = field_at 10 values;
    continuous = field_at 11 values;
    act_on_mouse_down = field_at 12 values;
    is_leaf = field_at 13 values;
    invalid_object_value = field_at 14 values;
    invalid_font = field_at 15 values;
    line_break_mode = field_at 16 values;
    weak_target_helper_flag = field_at 17 values;
    allows_appearance_effects = field_at 18 values;
    single_line_mode = field_at 19 values;
    act_on_mouse_dragged = field_at 20 values;
    is_loaded = field_at 21 values;
    truncate_last_line = field_at 22 values;
    dont_act_on_mouse_up = field_at 23 values;
    is_white = field_at 24 values;
    use_user_key_equivalent = field_at 25 values;
    shows_first_responder = field_at 26 values;
    focus_ring_type = field_at 27 values;
  };
  of_little = λ values. record {
    focus_ring_type = field_at 0 values;
    shows_first_responder = field_at 1 values;
    use_user_key_equivalent = field_at 2 values;
    is_white = field_at 3 values;
    dont_act_on_mouse_up = field_at 4 values;
    truncate_last_line = field_at 5 values;
    is_loaded = field_at 6 values;
    act_on_mouse_dragged = field_at 7 values;
    single_line_mode = field_at 8 values;
    allows_appearance_effects = field_at 9 values;
    weak_target_helper_flag = field_at 10 values;
    line_break_mode = field_at 11 values;
    invalid_font = field_at 12 values;
    invalid_object_value = field_at 13 values;
    is_leaf = field_at 14 values;
    act_on_mouse_down = field_at 15 values;
    continuous = field_at 16 values;
    scrollable = field_at 17 values;
    selectable = field_at 18 values;
    bezeled = field_at 19 values;
    bordered = field_at 20 values;
    h_centered = field_at 21 values;
    v_centered = field_at 22 values;
    type = field_at 23 values;
    editable = field_at 24 values;
    disabled = field_at 25 values;
    highlighted = field_at 26 values;
    state = field_at 27 values;
  };
}
