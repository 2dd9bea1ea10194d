-- ===== src/Events.antt =====
-- Source/NSEvent.m, Headers/AppKit/NSEvent.h and the queue of events in Source/GSDisplayServer.m.
pub mod Types
pub mod Record
pub mod Accessors
pub mod Kinds
pub mod Guards
pub mod Created
pub mod Queue
pub mod Waiting
pub mod Discard
pub mod Missed
pub mod Ignored
pub mod Tests
