-- ===== src/Flags/Button.antt =====
-- Source/GSCodingFlags.h: GSButtonCellFlags, the flags of the cell of a button, with the two orders of its bit-fields.
use libs_gui.Base.{ℕ, ◌∷◌, []}
use libs_gui.Flags.Coding.{Coding}
use libs_gui.Flags.Layout.{Layout, field_at}

pub record ButtonCellFlags : Type 0 where
  pub unused2 : ℕ
  pub use_button_image_source : ℕ
  pub gradient : ℕ
  pub does_not_dim_image : ℕ
  pub inset : ℕ
  pub is_transparent : ℕ
  pub last_state : ℕ
  pub has_key_equiv : ℕ
  pub is_image_size_diff : ℕ
  pub is_image_and_text : ℕ
  pub is_bottom_or_left : ℕ
  pub is_horizontal : ℕ
  pub image_does_overlap : ℕ
  pub is_bordered : ℕ
  pub drawing : ℕ
  pub highlight_by_gray : ℕ
  pub highlight_by_background : ℕ
  pub highlight_by_contents : ℕ
  pub change_gray : ℕ
  pub change_background : ℕ
  pub change_contents : ℕ
  pub is_pushin : ℕ

-- The fields where GS_WORDS_BIGENDIAN == 1.
unfoldable pub button_cell_flags_big : Layout ButtonCellFlags
button_cell_flags_big =
    (1, λ f. f.is_pushin)
    ∷ (1, λ f. f.change_contents)
    ∷ (1, λ f. f.change_background)
    ∷ (1, λ f. f.change_gray)
    ∷ (1, λ f. f.highlight_by_contents)
    ∷ (1, λ f. f.highlight_by_background)
    ∷ (1, λ f. f.highlight_by_gray)
    ∷ (1, λ f. f.drawing)
    ∷ (1, λ f. f.is_bordered)
    ∷ (1, λ f. f.image_does_overlap)
    ∷ (1, λ f. f.is_horizontal)
    ∷ (1, λ f. f.is_bottom_or_left)
    ∷ (1, λ f. f.is_image_and_text)
    ∷ (1, λ f. f.is_image_size_diff)
    ∷ (1, λ f. f.has_key_equiv)
    ∷ (1, λ f. f.last_state)
    ∷ (1, λ f. f.is_transparent)
    ∷ (2, λ f. f.inset)
    ∷ (1, λ f. f.does_not_dim_image)
    ∷ (3, λ f. f.gradient)
    ∷ (1, λ f. f.use_button_image_source)
    ∷ (8, λ f. f.unused2)
    ∷ []

-- The fields where GS_WORDS_BIGENDIAN is not 1.
unfoldable pub button_cell_flags_little : Layout ButtonCellFlags
button_cell_flags_little =
    (8, λ f. f.unused2)
    ∷ (1, λ f. f.use_button_image_source)
    ∷ (3, λ f. f.gradient)
    ∷ (1, λ f. f.does_not_dim_image)
    ∷ (2, λ f. f.inset)
    ∷ (1, λ f. f.is_transparent)
    ∷ (1, λ f. f.last_state)
    ∷ (1, λ f. f.has_key_equiv)
    ∷ (1, λ f. f.is_image_size_diff)
    ∷ (1, λ f. f.is_image_and_text)
    ∷ (1, λ f. f.is_bottom_or_left)
    ∷ (1, λ f. f.is_horizontal)
    ∷ (1, λ f. f.image_does_overlap)
    ∷ (1, λ f. f.is_bordered)
    ∷ (1, λ f. f.drawing)
    ∷ (1, λ f. f.highlight_by_gray)
    ∷ (1, λ f. f.highlight_by_background)
    ∷ (1, λ f. f.highlight_by_contents)
    ∷ (1, λ f. f.change_gray)
    ∷ (1, λ f. f.change_background)
    ∷ (1, λ f. f.change_contents)
    ∷ (1, λ f. f.is_pushin)
    ∷ []

-- Both orders, with the members read from the values of the fields in each.
unfoldable pub button_cell_flags_coding : Coding ButtonCellFlags
button_cell_flags_coding = record {
  big_endian = button_cell_flags_big;
  little_endian = button_cell_flags_little;
  of_big = λ values. record {
    is_pushin = field_at 0 values;
    change_contents = field_at 1 values;
    change_background = field_at 2 values;
    change_gray = field_at 3 values;
    highlight_by_contents = field_at 4 values;
    highlight_by_background = field_at 5 values;
    highlight_by_gray = field_at 6 values;
    drawing = field_at 7 values;
    is_bordered = field_at 8 values;
    image_does_overlap = field_at 9 values;
    is_horizontal = field_at 10 values;
    is_bottom_or_left = field_at 11 values;
    is_image_and_text = field_at 12 values;
    is_image_size_diff = field_at 13 values;
    has_key_equiv = field_at 14 values;
    last_state = field_at 15 values;
    is_transparent = field_at 16 values;
    inset = field_at 17 values;
    does_not_dim_image = field_at 18 values;
    gradient = field_at 19 values;
    use_button_image_source = field_at 20 values;
    unused2 = field_at 21 values;
  };
  of_little = λ values. record {
    unused2 = field_at 0 values;
    use_button_image_source = field_at 1 values;
    gradient = field_at 2 values;
    does_not_dim_image = field_at 3 values;
    inset = field_at 4 values;
    is_transparent = field_at 5 values;
    last_state = field_at 6 values;
    has_key_equiv = field_at 7 values;
    is_image_size_diff = field_at 8 values;
    is_image_and_text = field_at 9 values;
    is_bottom_or_left = field_at 10 values;
    is_horizontal = field_at 11 values;
    image_does_overlap = field_at 12 values;
    is_bordered = field_at 13 values;
    drawing = field_at 14 values;
    highlight_by_gray = field_at 15 values;
    highlight_by_background = field_at 16 values;
    highlight_by_contents = field_at 17 values;
    change_gray = field_at 18 values;
    change_background = field_at 19 values;
    change_contents = field_at 20 values;
    is_pushin = field_at 21 values;
  };
}
