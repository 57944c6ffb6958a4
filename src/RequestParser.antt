-- ===== src/RequestParser.antt =====
-- src/request_parser.cc and include/request_parser.h: the parser of an HTTP request header, one
-- character at a time.
pub mod Chars
pub mod Machine
pub mod Parse
pub mod Translate
pub mod Wire
pub mod Pieces
pub mod RoundTrip
pub mod Takes
pub mod Digits
pub mod Lines
pub mod Block
pub mod Sound
pub mod Faults
pub mod Resume
pub mod Whole
