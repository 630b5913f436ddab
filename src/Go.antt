-- ===== src/Go.antt =====
-- What the program uses of Go's standard library: `strings`, `strconv` and `encoding/hex`.
pub mod Strings
pub mod Strconv
pub mod Hex
