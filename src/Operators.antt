-- ===== src/Operators.antt =====
-- Headers/AppKit/DPSOperators.h, Headers/AppKit/PSOperators.h and the table of methods between them and a
-- graphics context.
pub mod Values
pub mod Methods
pub mod Context
pub mod Creation
pub mod Dps
pub mod Ps
pub mod Tests
