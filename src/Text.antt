-- ===== src/Text.antt =====
-- What the operator uses of Go's strings, strconv and encoding/base64. A Go string is a sequence of
-- bytes: a `String` here has one character for each byte, whose code is the byte.
pub mod Bytes
pub mod Base64
pub mod Number
pub mod Lines
