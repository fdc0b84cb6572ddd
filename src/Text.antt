-- ===== src/Text.antt =====
-- What the program uses of Go's `strconv`, `strings`, `fmt` and `encoding/json`.
pub mod Decimal
pub mod Split
pub mod Json
pub mod Slash
