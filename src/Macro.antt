-- ===== src/Macro.antt =====
-- The macro processor of preprocessor/macro: its values with their operators, and its driver.
pub mod Values
pub mod Operators
pub mod Driver
pub mod Range
pub mod Sets
pub mod Loops
mod Tests
