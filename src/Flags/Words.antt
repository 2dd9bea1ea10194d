-- ===== src/Flags/Words.antt =====
-- The unions of Source/GSCodingFlags.h: on every machine a structure of flags is the same word.
use libs_gui.Base.{◌<◌, ◌^◌, ◌≡◌, refl, Bool, true, false}
use libs_gui.Flags.Layout.{width, reversed, Fits, field_at}
use libs_gui.Flags.Coding.{
  Coding, IsSound, value_of, flags_of, value_of-endian, value_of-bound, flags_of-value_of,
}
use libs_gui.Flags.Cell.{CellFlags, cell_flags_big, cell_flags_little, cell_flags_coding}
use libs_gui.Flags.CellMore.{CellFlags2, cell_flags2_big, cell_flags2_little, cell_flags2_coding}
use libs_gui.Flags.Button.{
  ButtonCellFlags, button_cell_flags_big, button_cell_flags_little, button_cell_flags_coding,
}
use libs_gui.Flags.ButtonMore.{
  ButtonCellFlags2, button_cell_flags2_big, button_cell_flags2_little, button_cell_flags2_coding,
}
use libs_gui.Flags.View.{ViewFlags, view_flags_big, view_flags_little, view_flags_coding}
use libs_gui.Flags.TabViewType.{
  TabViewTypeFlags, tab_view_type_flags_big, tab_view_type_flags_little, tab_view_type_flags_coding,
}
use libs_gui.Flags.Table.{
  TableViewFlags, table_view_flags_big, table_view_flags_little, table_view_flags_coding,
}
use libs_gui.Flags.Matrix.{MatrixFlags, matrix_flags_big, matrix_flags_little, matrix_flags_coding}
use libs_gui.Flags.Window.{
  WindowTemplateFlags, window_template_flags_big, window_template_flags_little,
  window_template_flags_coding,
}

-- The structures.
pub data Structure : Type 0 where
  cell_flags cell_flags2 button_cell_flags button_cell_flags2 view_flags tab_view_type_flags
        table_view_flags matrix_flags window_template_flags :
      Structure

abbrev pub Flags : Structure → Type 0
Flags cell_flags = CellFlags
Flags cell_flags2 = CellFlags2
Flags button_cell_flags = ButtonCellFlags
Flags button_cell_flags2 = ButtonCellFlags2
Flags view_flags = ViewFlags
Flags tab_view_type_flags = TabViewTypeFlags
Flags table_view_flags = TableViewFlags
Flags matrix_flags = MatrixFlags
Flags window_template_flags = WindowTemplateFlags

unfoldable pub coding : (k : Structure) → Coding (Flags k)
coding cell_flags = cell_flags_coding
coding cell_flags2 = cell_flags2_coding
coding button_cell_flags = button_cell_flags_coding
coding button_cell_flags2 = button_cell_flags2_coding
coding view_flags = view_flags_coding
coding tab_view_type_flags = tab_view_type_flags_coding
coding table_view_flags = table_view_flags_coding
coding matrix_flags = matrix_flags_coding
coding window_template_flags = window_template_flags_coding

cell_flags_IsSound : IsSound cell_flags_coding
unfolding cell_flags_big cell_flags_little cell_flags_coding width reversed field_at
cell_flags_IsSound = record {
  width_big = refl;
  width_little = refl;
  reversed_big = refl;
  of_big_members = λ s. refl;
  of_little_members = λ s. refl;
}

cell_flags2_IsSound : IsSound cell_flags2_coding
unfolding cell_flags2_big cell_flags2_little cell_flags2_coding width reversed field_at
cell_flags2_IsSound = record {
  width_big = refl;
  width_little = refl;
  reversed_big = refl;
  of_big_members = λ s. refl;
  of_little_members = λ s. refl;
}

button_cell_flags_IsSound : IsSound button_cell_flags_coding
unfolding button_cell_flags_big button_cell_flags_little button_cell_flags_coding width reversed
    field_at
button_cell_flags_IsSound = record {
  width_big = refl;
  width_little = refl;
  reversed_big = refl;
  of_big_members = λ s. refl;
  of_little_members = λ s. refl;
}

button_cell_flags2_IsSound : IsSound button_cell_flags2_coding
unfolding button_cell_flags2_big button_cell_flags2_little button_cell_flags2_coding width reversed
    field_at
button_cell_flags2_IsSound = record {
  width_big = refl;
  width_little = refl;
  reversed_big = refl;
  of_big_members = λ s. refl;
  of_little_members = λ s. refl;
}

view_flags_IsSound : IsSound view_flags_coding
unfolding view_flags_big view_flags_little view_flags_coding width reversed field_at
view_flags_IsSound = record {
  width_big = refl;
  width_little = refl;
  reversed_big = refl;
  of_big_members = λ s. refl;
  of_little_members = λ s. refl;
}

tab_view_type_flags_IsSound : IsSound tab_view_type_flags_coding
unfolding tab_view_type_flags_big tab_view_type_flags_little tab_view_type_flags_coding width
    reversed field_at
tab_view_type_flags_IsSound = record {
  width_big = refl;
  width_little = refl;
  reversed_big = refl;
  of_big_members = λ s. refl;
  of_little_members = λ s. refl;
}

table_view_flags_IsSound : IsSound table_view_flags_coding
unfolding table_view_flags_big table_view_flags_little table_view_flags_coding width reversed
    field_at
table_view_flags_IsSound = record {
  width_big = refl;
  width_little = refl;
  reversed_big = refl;
  of_big_members = λ s. refl;
  of_little_members = λ s. refl;
}

matrix_flags_IsSound : IsSound matrix_flags_coding
unfolding matrix_flags_big matrix_flags_little matrix_flags_coding width reversed field_at
matrix_flags_IsSound = record {
  width_big = refl;
  width_little = refl;
  reversed_big = refl;
  of_big_members = λ s. refl;
  of_little_members = λ s. refl;
}

window_template_flags_IsSound : IsSound window_template_flags_coding
unfolding window_template_flags_big window_template_flags_little window_template_flags_coding width
    reversed field_at
window_template_flags_IsSound = record {
  width_big = refl;
  width_little = refl;
  reversed_big = refl;
  of_big_members = λ s. refl;
  of_little_members = λ s. refl;
}

coding-IsSound : (k : Structure) → IsSound (coding k)
unfolding coding
coding-IsSound cell_flags = cell_flags_IsSound
coding-IsSound cell_flags2 = cell_flags2_IsSound
coding-IsSound button_cell_flags = button_cell_flags_IsSound
coding-IsSound button_cell_flags2 = button_cell_flags2_IsSound
coding-IsSound view_flags = view_flags_IsSound
coding-IsSound tab_view_type_flags = tab_view_type_flags_IsSound
coding-IsSound table_view_flags = table_view_flags_IsSound
coding-IsSound matrix_flags = matrix_flags_IsSound
coding-IsSound window_template_flags = window_template_flags_IsSound

-- A structure of any kind, its members within their fields, goes through its word unchanged: the machine
-- that reads the word may have the other order of words than the one that wrote it.
pub flags_of-value_of_any :
    (k : Structure) (reader writer : Bool) (s : Flags k)
    → Fits (coding k).little_endian s
    → flags_of (coding k) reader (value_of (coding k) writer s) ≡ s
flags_of-value_of_any k = flags_of-value_of (coding k) (coding-IsSound k)

-- The word of a structure of any kind is the same on machines of either order, whatever its members are,
-- and is below 2 ^ 32: the fields leave no bit of a uint32_t out and need no more.
pub value_of-any :
    (k : Structure) (big : Bool) (s : Flags k)
    → (value_of (coding k) true s ≡ value_of (coding k) false s)
      × (value_of (coding k) big s < 2 ^ 32)
value_of-any k big s = (
  value_of-endian (coding k) (coding-IsSound k) s,
  value_of-bound (coding k) (coding-IsSound k) big s,
)
