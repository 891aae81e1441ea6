-- ===== src/Encoding.antt =====
-- The text encodings of Go's standard library that the cookies and tokens are made of.
pub mod Base64
pub mod Decimal
