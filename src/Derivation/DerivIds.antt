-- ===== src/Derivation/DerivIds.antt =====
-- preprocessor/DataTree.hh: the virtual methods by which the node classes ask the tree's subclass for
-- derivation IDs.
use dynare.Prelude.{Bool, List, ℤ}
use dynare.SymbolTable.State.{SymbolType}
use dynare.DataTree.Nodes.{TreeOutcome}

pub record DerivIds : Type 0 where
  pub is_dynamic : Bool
  -- Of a symbol and a lag.
  pub get_deriv_id : ℤ → ℤ → TreeOutcome ℤ
  pub get_type_by_deriv_id : ℤ → TreeOutcome SymbolType
  pub get_symb_id_by_deriv_id : ℤ → TreeOutcome ℤ
  -- What `addAllParamDerivId` adds.
  pub all_param_deriv_ids : List ℤ
  -- `external_functions_table.getNargs`
  pub external_nargs : ℤ → TreeOutcome ℤ
