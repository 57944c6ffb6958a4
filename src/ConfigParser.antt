-- ===== src/ConfigParser.antt =====
-- src/config_parser.cc and include/config_parser.h: the nginx-style configuration parser.
pub mod Config
pub mod Token
pub mod Loop
pub mod Source
pub mod Progress
pub mod Tokens
pub mod Shape
pub mod Steady
pub mod Nesting
pub mod Append
pub mod Statements
pub mod RoundTrip
pub mod Quirks
