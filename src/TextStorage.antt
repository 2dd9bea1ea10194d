-- ===== src/TextStorage.antt =====
-- Source/GSTextStorage.m: an attributed string as characters and runs of attributes.
pub mod Cache
pub mod Store
pub mod Search
pub mod Runs
pub mod Lookup
pub mod AttributesAt
pub mod SetAttributes
pub mod Replace
pub mod Tests
