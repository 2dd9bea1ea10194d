-- ===== src/Cells.antt =====
-- Source/NSCell.m: the flags of a cell, and the words that they have in an archive.
pub mod Cell
pub mod Coding
pub mod Bits
pub mod Fields
pub mod FirstWord
pub mod SecondWord
pub mod Actions
pub mod RoundTrip
pub mod Structure
pub mod Tests
