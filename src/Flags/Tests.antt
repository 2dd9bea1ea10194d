-- ===== src/Flags/Tests.antt =====
-- The theorems on the words of flags, at the flags of a type of tab view, which fill all fields.
use libs_gui.Base.{◌<◌, ◌^◌, ◌≡◌, arith, true, false}
use libs_gui.Flags.Layout.{Fits}
use libs_gui.Flags.Coding.{value_of, flags_of}
use libs_gui.Flags.TabViewType.{
  TabViewTypeFlags, tab_view_type_flags_little, tab_view_type_flags_coding,
}
use libs_gui.Flags.Words.{coding, tab_view_type_flags, flags_of-value_of_any, value_of-any}

abbrev tabs_below : TabViewTypeFlags
tabs_below = record {
  tab_view_border_type = 5;
  tab_position = 19;
  reserved2 = 70000;
  control_size = 2;
  control_tint = 6;
  reserved1 = 1;
}

flags_of-value_of_any_example :
    flags_of
      (coding tab_view_type_flags)
      true
      (value_of (coding tab_view_type_flags) false tabs_below)
    ≡ tabs_below
unfolding coding Fits tab_view_type_flags_little tab_view_type_flags_coding
flags_of-value_of_any_example =
    flags_of-value_of_any tab_view_type_flags true false tabs_below
      (omega arith, (omega arith, (omega arith, (omega arith, (omega arith, (omega arith, tt))))))

value_of-any_example :
    (value_of (coding tab_view_type_flags) true tabs_below
      ≡ value_of (coding tab_view_type_flags) false tabs_below)
    × (value_of (coding tab_view_type_flags) true tabs_below < 2 ^ 32)
value_of-any_example = value_of-any tab_view_type_flags true tabs_below
