-- ===== src/Edn.antt =====
-- edn/: the reader of EDN text. Its parts, in the order of the data's way through them.
pub mod Runes
pub mod Lexer
pub mod Node
pub mod Parser
pub mod Tests
