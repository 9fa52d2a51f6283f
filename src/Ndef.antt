-- ===== src/Ndef.antt =====
-- src/nfc/ndef_parser.cpp: the parser of NDEF messages. A cursor is the list of the bytes that it
-- has not read, so a read out of bounds is a branch of the list and not a fault. The declarations
-- stand in the children.
pub mod Result
pub mod Cursor
pub mod Utf8
pub mod Decode
pub mod Parser
pub mod Format
pub mod RoundTrip
pub mod Sound
