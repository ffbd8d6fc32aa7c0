-- ===== src/SymbolTable.antt =====
-- preprocessor/SymbolTable.hh and SymbolTable.cc: symbols, their types and their ids.
pub mod State
pub mod Update
pub mod Auxiliary
pub mod WellFormed
pub mod Declared
pub mod Freezing
pub mod Frozen
pub mod Added
pub mod AuxNames
pub mod Reach
mod Tests
