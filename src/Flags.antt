-- ===== src/Flags.antt =====
-- Source/GSCodingFlags.h: the flags of cells, buttons, views and windows in archives.
pub mod Layout
pub mod Coding
pub mod Cell
pub mod CellMore
pub mod Button
pub mod ButtonMore
pub mod View
pub mod TabViewType
pub mod Table
pub mod Matrix
pub mod Window
pub mod Words
pub mod Tests
