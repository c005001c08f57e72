-- ===== src/Go.antt =====
-- What the program takes of Go's standard library: byte strings, and times as text.
pub mod Float
pub mod Text
pub mod Time
