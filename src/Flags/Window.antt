-- ===== src/Flags/Window.antt =====
-- Headers/Additions/GNUstepGUI/GSNibLoading.h: GSWindowTemplateFlags, the flags of the template of a window, with the two orders of its bit-fields.
use libs_gui.Base.{ℕ, ◌∷◌, []}
use libs_gui.Flags.Coding.{Coding}
use libs_gui.Flags.Layout.{Layout, field_at}

pub record WindowTemplateFlags : Type 0 where
  pub unused : ℕ
  pub autorecalculates_key_view_loop : ℕ
  pub is_not_shadowed : ℕ
  pub unused2 : ℕ
  pub style : ℕ
  pub save_position : ℕ
  pub auto_position_mask : ℕ
  pub dynamic_depth_limit : ℕ
  pub wants_to_be_color : ℕ
  pub is_visible : ℕ
  pub is_one_shot : ℕ
  pub is_deferred : ℕ
  pub is_not_released_on_close : ℕ
  pub is_hidden_on_deactivate : ℕ

-- The fields where GS_WORDS_BIGENDIAN == 1.
unfoldable pub window_template_flags_big : Layout WindowTemplateFlags
window_template_flags_big =
    (1, λ f. f.is_hidden_on_deactivate)
    ∷ (1, λ f. f.is_not_released_on_close)
    ∷ (1, λ f. f.is_deferred)
    ∷ (1, λ f. f.is_one_shot)
    ∷ (1, λ f. f.is_visible)
    ∷ (1, λ f. f.wants_to_be_color)
    ∷ (1, λ f. f.dynamic_depth_limit)
    ∷ (6, λ f. f.auto_position_mask)
    ∷ (1, λ f. f.save_position)
    ∷ (2, λ f. f.style)
    ∷ (3, λ f. f.unused2)
    ∷ (1, λ f. f.is_not_shadowed)
    ∷ (1, λ f. f.autorecalculates_key_view_loop)
    ∷ (11, λ f. f.unused)
    ∷ []

-- The fields where GS_WORDS_BIGENDIAN is not 1.
unfoldable pub window_template_flags_little : Layout WindowTemplateFlags
window_template_flags_little =
    (11, λ f. f.unused)
    ∷ (1, λ f. f.autorecalculates_key_view_loop)
    ∷ (1, λ f. f.is_not_shadowed)
    ∷ (3, λ f. f.unused2)
    ∷ (2, λ f. f.style)
    ∷ (1, λ f. f.save_position)
    ∷ (6, λ f. f.auto_position_mask)
    ∷ (1, λ f. f.dynamic_depth_limit)
    ∷ (1, λ f. f.wants_to_be_color)
    ∷ (1, λ f. f.is_visible)
    ∷ (1, λ f. f.is_one_shot)
    ∷ (1, λ f. f.is_deferred)
    ∷ (1, λ f. f.is_not_released_on_close)
    ∷ (1, λ f. f.is_hidden_on_deactivate)
    ∷ []

-- Both orders, with the members read from the values of the fields in each.
unfoldable pub window_template_flags_coding : Coding WindowTemplateFlags
window_template_flags_coding = record {
  big_endian = window_template_flags_big;
  little_endian = window_template_flags_little;
  of_big = λ values. record {
    is_hidden_on_deactivate = field_at 0 values;
    is_not_released_on_close = field_at 1 values;
    is_deferred = field_at 2 values;
    is_one_shot = field_at 3 values;
    is_visible = field_at 4 values;
    wants_to_be_color = field_at 5 values;
    dynamic_depth_limit = field_at 6 values;
    auto_position_mask = field_at 7 values;
    save_position = field_at 8 values;
    style = field_at 9 values;
    unused2 = field_at 10 values;
    is_not_shadowed = field_at 11 values;
    autorecalculates_key_view_loop = field_at 12 values;
    unused = field_at 13 values;
  };
  of_little = λ values. record {
    unused = field_at 0 values;
    autorecalculates_key_view_loop = field_at 1 values;
    is_not_shadowed = field_at 2 values;
    unused2 = field_at 3 values;
    style = field_at 4 values;
    save_position = field_at 5 values;
    auto_position_mask = field_at 6 values;
    dynamic_depth_limit = field_at 7 values;
    wants_to_be_color = field_at 8 values;
    is_visible = field_at 9 values;
    is_one_shot = field_at 10 values;
    is_deferred = field_at 11 values;
    is_not_released_on_close = field_at 12 values;
    is_hidden_on_deactivate = field_at 13 values;
  };
}
