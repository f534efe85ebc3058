-- ===== src/Parser.antt =====
-- imapgw/parser.py: the incremental parser of client commands.
pub mod Tokens
pub mod Lexer
pub mod Fuel
pub mod Frames
pub mod Rounds
pub mod Chunks
pub mod Bounds
pub mod Print
pub mod Roundtrip
pub mod Cut
