-- ===== src/Flags/TabViewType.antt =====
-- Source/GSCodingFlags.h: GSTabViewTypeFlags, the flags of the type of a tab view, with the two orders of its bit-fields.
use libs_gui.Base.{ℕ, ◌∷◌, []}
use libs_gui.Flags.Coding.{Coding}
use libs_gui.Flags.Layout.{Layout, field_at}

pub record TabViewTypeFlags : Type 0 where
  pub tab_view_border_type : ℕ
  pub tab_position : ℕ
  pub reserved2 : ℕ
  pub control_size : ℕ
  pub control_tint : ℕ
  pub reserved1 : ℕ

-- The fields where GS_WORDS_BIGENDIAN == 1.
unfoldable pub tab_view_type_flags_big : Layout TabViewTypeFlags
tab_view_type_flags_big =
    (1, λ f. f.reserved1)
    ∷ (3, λ f. f.control_tint)
    ∷ (2, λ f. f.control_size)
    ∷ (18, λ f. f.reserved2)
    ∷ (5, λ f. f.tab_position)
    ∷ (3, λ f. f.tab_view_border_type)
    ∷ []

-- The fields where GS_WORDS_BIGENDIAN is not 1.
unfoldable pub tab_view_type_flags_little : Layout TabViewTypeFlags
tab_view_type_flags_little =
    (3, λ f. f.tab_view_border_type)
    ∷ (5, λ f. f.tab_position)
    ∷ (18, λ f. f.reserved2)
    ∷ (2, λ f. f.control_size)
    ∷ (3, λ f. f.control_tint)
    ∷ (1, λ f. f.reserved1)
    ∷ []

-- Both orders, with the members read from the values of the fields in each.
unfoldable pub tab_view_type_flags_coding : Coding TabViewTypeFlags
tab_view_type_flags_coding = record {
  big_endian = tab_view_type_flags_big;
  little_endian = tab_view_type_flags_little;
  of_big = λ values. record {
    reserved1 = field_at 0 values;
    control_tint = field_at 1 values;
    control_size = field_at 2 values;
    reserved2 = field_at 3 values;
    tab_position = field_at 4 values;
    tab_view_border_type = field_at 5 values;
  };
  of_little = λ values. record {
    tab_view_border_type = field_at 0 values;
    tab_position = field_at 1 values;
    reserved2 = field_at 2 values;
    control_size = field_at 3 values;
    control_tint = field_at 4 values;
    reserved1 = field_at 5 values;
  };
}
