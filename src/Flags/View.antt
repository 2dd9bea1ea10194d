-- ===== src/Flags/View.antt =====
-- Source/GSCodingFlags.h: GSvFlags, the flags of a view, with the two orders of its bit-fields.
use libs_gui.Base.{ℕ, ◌∷◌, []}
use libs_gui.Flags.Coding.{Coding}
use libs_gui.Flags.Layout.{Layout, field_at}

pub record ViewFlags : Type 0 where
  pub autoresizing_mask : ℕ
  pub unused7 : ℕ
  pub autoresizes_subviews : ℕ
  pub unused6 : ℕ
  pub unused5 : ℕ
  pub unused4 : ℕ
  pub unused3 : ℕ
  pub unused2 : ℕ
  pub unused1 : ℕ
  pub is_hidden : ℕ

-- The fields where GS_WORDS_BIGENDIAN == 1.
unfoldable pub view_flags_big : Layout ViewFlags
view_flags_big =
    (1, λ f. f.is_hidden)
    ∷ (3, λ f. f.unused1)
    ∷ (4, λ f. f.unused2)
    ∷ (4, λ f. f.unused3)
    ∷ (4, λ f. f.unused4)
    ∷ (4, λ f. f.unused5)
    ∷ (3, λ f. f.unused6)
    ∷ (1, λ f. f.autoresizes_subviews)
    ∷ (2, λ f. f.unused7)
    ∷ (6, λ f. f.autoresizing_mask)
    ∷ []

-- The fields where GS_WORDS_BIGENDIAN is not 1.
unfoldable pub view_flags_little : Layout ViewFlags
view_flags_little =
    (6, λ f. f.autoresizing_mask)
    ∷ (2, λ f. f.unused7)
    ∷ (1, λ f. f.autoresizes_subviews)
    ∷ (3, λ f. f.unused6)
    ∷ (4, λ f. f.unused5)
    ∷ (4, λ f. f.unused4)
    ∷ (4, λ f. f.unused3)
    ∷ (4, λ f. f.unused2)
    ∷ (3, λ f. f.unused1)
    ∷ (1, λ f. f.is_hidden)
    ∷ []

-- Both orders, with the members read from the values of the fields in each.
unfoldable pub view_flags_coding : Coding ViewFlags
view_flags_coding = record {
  big_endian = view_flags_big;
  little_endian = view_flags_little;
  of_big = λ values. record {
    is_hidden = field_at 0 values;
    unused1 = field_at 1 values;
    unused2 = field_at 2 values;
    unused3 = field_at 3 values;
    unused4 = field_at 4 values;
    unused5 = field_at 5 values;
    unused6 = field_at 6 values;
    autoresizes_subviews = field_at 7 values;
    unused7 = field_at 8 values;
    autoresizing_mask = field_at 9 values;
  };
  of_little = λ values. record {
    autoresizing_mask = field_at 0 values;
    unused7 = field_at 1 values;
    autoresizes_subviews = field_at 2 values;
    unused6 = field_at 3 values;
    unused5 = field_at 4 values;
    unused4 = field_at 5 values;
    unused3 = field_at 6 values;
    unused2 = field_at 7 values;
    unused1 = field_at 8 values;
    is_hidden = field_at 9 values;
  };
}
