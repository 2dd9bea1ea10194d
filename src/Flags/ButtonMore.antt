-- ===== src/Flags/ButtonMore.antt =====
-- Source/GSCodingFlags.h: GSButtonCellFlags2, the second word of flags of the cell of a button, with the two orders of its bit-fields.
use libs_gui.Base.{ℕ, ◌∷◌, []}
use libs_gui.Flags.Coding.{Coding}
use libs_gui.Flags.Layout.{Layout, field_at}

pub record ButtonCellFlags2 : Type 0 where
  pub bezel_style : ℕ
  pub shows_border_only_while_mouse_inside : ℕ
  pub mouse_inside : ℕ
  pub bezel_style2 : ℕ
  pub image_scaling : ℕ
  pub key_equivalent_modifier_mask : ℕ

-- The fields where GS_WORDS_BIGENDIAN == 1.
unfoldable pub button_cell_flags2_big : Layout ButtonCellFlags2
button_cell_flags2_big =
    (24, λ f. f.key_equivalent_modifier_mask)
    ∷ (2, λ f. f.image_scaling)
    ∷ (1, λ f. f.bezel_style2)
    ∷ (1, λ f. f.mouse_inside)
    ∷ (1, λ f. f.shows_border_only_while_mouse_inside)
    ∷ (3, λ f. f.bezel_style)
    ∷ []

-- The fields where GS_WORDS_BIGENDIAN is not 1.
unfoldable pub button_cell_flags2_little : Layout ButtonCellFlags2
button_cell_flags2_little =
    (3, λ f. f.bezel_style)
    ∷ (1, λ f. f.shows_border_only_while_mouse_inside)
    ∷ (1, λ f. f.mouse_inside)
    ∷ (1, λ f. f.bezel_style2)
    ∷ (2, λ f. f.image_scaling)
    ∷ (24, λ f. f.key_equivalent_modifier_mask)
    ∷ []

-- Both orders, with the members read from the values of the fields in each.
unfoldable pub button_cell_flags2_coding : Coding ButtonCellFlags2
button_cell_flags2_coding = record {
  big_endian = button_cell_flags2_big;
  little_endian = button_cell_flags2_little;
  of_big = λ values. record {
    key_equivalent_modifier_mask = field_at 0 values;
    image_scaling = field_at 1 values;
    bezel_style2 = field_at 2 values;
    mouse_inside = field_at 3 values;
    shows_border_only_while_mouse_inside = field_at 4 values;
    bezel_style = field_at 5 values;
  };
  of_little = λ values. record {
    bezel_style = field_at 0 values;
    shows_border_only_while_mouse_inside = field_at 1 values;
    mouse_inside = field_at 2 values;
    bezel_style2 = field_at 3 values;
    image_scaling = field_at 4 values;
    key_equivalent_modifier_mask = field_at 5 values;
  };
}
