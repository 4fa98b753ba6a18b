-- ===== src/GoLib.antt =====
-- What the program uses of Go's standard library: byte strings (package strings, bytes), base64
-- (encoding/base64), the fixed width of int64, and the ways in which a Go call returns.
pub mod Strings
pub mod Base64
pub mod Outcome
pub mod Int64
