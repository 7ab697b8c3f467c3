-- ===== src/Encoding.antt =====
-- The parts of Go's encoding/hex, encoding/base64 and encoding/base32 that the program calls. A
-- string that the program walks is the list of its bytes.
pub mod Alphabet
pub mod Hex
pub mod Base64
pub mod Base32
pub mod Decimal
pub mod Cut
