-- ===== src/Responses.antt =====
-- imapgw/responses.py: the lines of the server's responses.
pub mod Encode
pub mod Lines
