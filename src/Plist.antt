-- ===== src/Plist.antt =====
-- Libraries/plist: the readers and writers of property lists.
pub mod Object
pub mod Lexer
pub mod Unquote
pub mod Writer
pub mod Serializer
pub mod Parser
pub mod Json
