-- ===== src/DataTree.antt =====
-- preprocessor/DataTree.hh, DataTree.cc and the node classes of ExprNode.cc: expression trees.
pub mod Doubles
pub mod Nodes
pub mod Eval
pub mod Insert
pub mod Build
pub mod Structure
pub mod EvalLaws
pub mod Invariant
pub mod Laws
pub mod Constants
pub mod Negation
pub mod Operations
pub mod Values
pub mod Arithmetic
pub mod NewTree
pub mod Functions
pub mod External
pub mod Queries
pub mod MinLag
pub mod Trits
mod Tests
