-- ===== src/Std.antt =====
-- What the program uses of Rust's standard library to read numbers and addresses from text.
pub mod Number
pub mod Address
pub mod Display
mod Tests
