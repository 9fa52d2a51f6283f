-- ===== src/Worker.antt =====
-- src/nfc/nfc_worker.hpp and nfc_worker.cpp: the thread that owns the reader. The parts of its
-- state stand in a child each, and Worker/Thread joins them.
pub mod Events
pub mod Commands
pub mod Presence
pub mod Thread
pub mod Lifecycle
pub mod System
