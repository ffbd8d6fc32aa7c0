-- ===== src/Derivation.antt =====
-- Symbolic differentiation in preprocessor/ExprNode.cc: the rule of each operation, and what the
-- expressions that the rules build evaluate to.
pub mod DerivIds
pub mod StaticIds
pub mod Compose
pub mod Laws
pub mod Trits
pub mod Tangent
pub mod Reaches
pub mod Unary
pub mod Binary
pub mod Trinary
pub mod Unpack
pub mod Recursion
pub mod Derivative
pub mod Null
pub mod Prepare
pub mod NonNull
pub mod States
pub mod Compute
pub mod Correct
mod Tests
