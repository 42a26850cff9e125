-- ===== src/Text.antt =====
-- utils/string.c.
pub mod Hash
pub mod Search
pub mod Letters
pub mod Trim
pub mod Affix
pub mod Decimal
pub mod Base64
pub mod Tokens
pub mod Path
