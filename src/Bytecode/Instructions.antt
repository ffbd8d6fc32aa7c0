-- ===== src/Bytecode/Instructions.antt =====
-- preprocessor/CodeInterpreter.hh: the instructions that compute a block of the model.
-- FCALL, which calls MATLAB, is not among them, nor are those that only the loader of a file reads.
use dynare.Prelude.{ℕ, ℤ}
use dynare.SymbolTable.State.{SymbolType}
use dynare.DataTree.Nodes.{UnaryOpcode, BinaryOpcode, TrinaryOpcode}

-- enum ExpressionType
pub data ExpressionType : Type 0 where
  temporary_term model_equation : ExpressionType
  first_endo_derivative first_other_endo_derivative first_exo_derivative : ExpressionType
  first_exodet_derivative first_param_derivative : ExpressionType
  second_endo_derivative second_exo_derivative second_exodet_derivative : ExpressionType
  second_param_derivative third_endo_derivative third_exo_derivative : ExpressionType
  third_exodet_derivative third_param_derivative : ExpressionType

-- enum external_function_type
pub data ExternalFunctionType : Type 0 where
  without_derivative with_first_derivative with_first_and_second_derivative : ExternalFunctionType
  numerical_first_derivative first_derivative : ExternalFunctionType
  numerical_second_derivative second_derivative : ExternalFunctionType

-- FNUMEXPR_: what the next instructions compute.
pub record Numexpr : Type 0 where
  pub expression_type : ExpressionType
  pub equation : ℕ
  pub dvariable1 : ℕ
  pub dvariable2 : ℕ
  pub dvariable3 : ℕ
  pub lag1 : ℤ
  pub lag2 : ℤ
  pub lag3 : ℤ

-- enum Tags, each with the arguments of its class.
pub data Instruction (D : Type 0) : Type 0 where
  fldz : Instruction D
  fldc : D → Instruction D
  fldt fldst fstpt fstpst : ℕ → Instruction D
  fldu fldsu fstpu fstpsu : ℕ → Instruction D
  fldv fstpv : SymbolType → ℤ → ℤ → Instruction D
  fldsv fldvs fstpsv : SymbolType → ℤ → Instruction D
  fldr fstpr fstpg : ℕ → Instruction D
  fstpg2 : ℕ → ℕ → Instruction D
  fstpg3 : ℕ → ℕ → ℤ → ℕ → Instruction D
  funary : UnaryOpcode → Instruction D
  fbinary : BinaryOpcode → Instruction D
  ftrinary : TrinaryOpcode → Instruction D
  fcuml fendblock fendequ fpush fpop : Instruction D
  fjmpifeval fjmp : ℕ → Instruction D
  fok : ℤ → Instruction D
  fnumexpr : Numexpr → Instruction D
  fldtef fstptef : ℕ → Instruction D
  fldtefd fstptefd : ℕ → ℤ → Instruction D
