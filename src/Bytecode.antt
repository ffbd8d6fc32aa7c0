-- ===== src/Bytecode.antt =====
-- The bytecode: what preprocessor/ExprNode.cc compiles expressions to, and the stack machine of
-- mex/sources/bytecode/Interpreter.cc that runs it.
pub mod Literals
pub mod Instructions
pub mod Machine
pub mod Variables
pub mod Operators
pub mod Stores
pub mod Run
pub mod Compile
pub mod Steps
pub mod Arithmetic
pub mod Memory
pub mod Pushes
pub mod Correct
pub mod Keeps
pub mod KeepsOperators
pub mod Termination
mod Tests
