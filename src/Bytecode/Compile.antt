-- ===== src/Bytecode/Compile.antt =====
-- preprocessor/ExprNode.cc: the `compile` methods, which write the instructions of an expression.
use dynare.Prelude.{
  ℕ, zero, suc, Bool, true, false, List, [], ◌∷◌, ◌++◌, none, some, ◌==◌, if◌then◌else◌, Map,
  lookup, Result, ok, throw, throw_if, or_throw, ◌>>=◌, ◌>>◌, ℤ, pos, ◌+ℤ◌, eqb_ℤ,
}
use dynare.NumericalConstants.{get_double}
use dynare.SymbolTable.State.{
  SymbolType, exogenous_det, parameter, model_local_variable, mod_file_local_variable, same_type,
  SymbolTable, TableError, get_type_specific_id, exo_nbr,
}
use dynare.ExternalFunctions.{
  ExternalFunctionsTable, ExternalError, get_first_deriv_symb_id, set_but_no_name_provided,
}
use dynare.DataTree.Doubles.{Doubles}
use dynare.DataTree.Nodes.{
  UnaryOpcode, BinaryOpcode, Node, num_const, variable, unary, binary, trinary, external,
  first_deriv, second_deriv, VariableKey, UnaryKey, BinaryKey, TrinaryKey, ExternalKey, Tree,
  node_at, nat_key, int_key, external_key,
}
use dynare.Bytecode.Instructions.{Instruction}

-- The exceptions of the tables and of `getIndxInTefTerms`, a failed assertion, the call of `exit`, a
-- pointer or an iterator to nothing, which the source follows unchecked, and the end of the fuel.
pub data CompileError : Type 0 where
  symbol : TableError → CompileError
  functions : ExternalError → CompileError
  unknown_function_name_and_args assertion_failed exit_impossible_case : CompileError
  no_such_term dangling out_of_fuel : CompileError

abbrev pub Code {ℓ} : Type ℓ → Type ℓ
Code A = Result CompileError A

abbrev pub from_table {ℓ} : {A : Type ℓ} → Result TableError A → Code A
from_table (ok a) = ok a
from_table (throw e) = throw (CompileError.symbol e)

abbrev pub from_functions {ℓ} : {A : Type ℓ} → Result ExternalError A → Code A
from_functions (ok a) = ok a
from_functions (throw e) = throw (CompileError.functions e)

-- The arguments of `compile` that a whole expression shares, and the table of external functions.
pub record Settings : Type 0 where
  pub lhs_rhs : Bool
  pub dynamic : Bool
  pub temporary_terms : List ℕ
  pub map_idx : Map ℕ ℕ
  pub tef_terms : Map ExternalKey ℕ
  pub external_functions_table : ExternalFunctionsTable

-- `temporary_terms.find(this) != temporary_terms.end()`
unfoldable pub is_term : List ℕ → ℕ → Bool
is_term [] e = false
is_term (x ∷ l) e = let later = is_term l e in if x == e then true else later

-- The position of a variable in the arrays.
unfoldable pub variable_position : SymbolTable → ℤ → SymbolType → Code ℤ
variable_position s symb_id ty = do
  tsid ← from_table (get_type_specific_id s symb_id)
  let after_exo = do n ← from_table (exo_nbr s); ok (tsid +ℤ pos n)
  if same_type ty exogenous_det then after_exo else ok tsid

-- The lead or lag of an instruction that is written without one is 0.
abbrev pub lag_of : SymbolType → ℤ → ℤ
lag_of ty lag = if same_type ty parameter then pos 0 else lag

-- `getIndxInTefTerms`
abbrev pub tef_index : Settings → List ℕ → ℤ → Code ℕ
tef_index w arguments symb_id =
    or_throw (lookup (record { arguments = arguments; symb_id = symb_id }) w.tef_terms)
      unknown_function_name_and_args

-- Whether the value of the node is that of a definition of the model.
abbrev pub is_local : SymbolType → Bool
is_local ty =
    if same_type ty model_local_variable then true else same_type ty mod_file_local_variable

abbrev pub is_steady_state : UnaryOpcode → Bool
is_steady_state UnaryOpcode.steady_state = true
is_steady_state _ = false

module _ (d : Doubles) where
  open d use {Double}

  abbrev pub Codes : Type 0
  Codes = List (Instruction Double)

  -- The load of a temporary term.
  unfoldable pub compile_term : Settings → ℕ → Code Codes
  compile_term w e = do
    i ← or_throw (lookup e w.map_idx) no_such_term
    ok ((if w.dynamic then Instruction.fldt i else Instruction.fldst i) ∷ [])

  unfoldable pub variable_instruction :
      Settings → Bool → SymbolType → ℤ → ℤ → Code (Instruction Double)
  variable_instruction w steady ty tsid lag =
      if w.lhs_rhs
      then (if w.dynamic
          then (if steady
              then throw exit_impossible_case
              else ok (Instruction.fstpv ty tsid (lag_of ty lag)))
          else ok (Instruction.fstpsv ty tsid))
      else if w.dynamic
      then ok
          (if steady then Instruction.fldvs ty tsid else Instruction.fldv ty tsid (lag_of ty lag))
      else ok (Instruction.fldsv ty tsid)

  -- The instruction of an external function, and of its derivatives. A second derivative has no
  -- method of its own, and compiles as the function.
  unfoldable pub compile_external : Settings → List ℕ → ℤ → Code Codes
  compile_external w arguments symb_id = do
    i ← tef_index w arguments symb_id
    ok ((if w.lhs_rhs then Instruction.fstptef i else Instruction.fldtef i) ∷ [])

  unfoldable pub compile_first_deriv : Settings → List ℕ → ℤ → ℤ → Code Codes
  compile_first_deriv w arguments symb_id input_index = do
    f ← from_functions (get_first_deriv_symb_id w.external_functions_table symb_id)
    throw_if (eqb_ℤ f set_but_no_name_provided) assertion_failed
    i ← tef_index w arguments symb_id
    ok (
        (if w.lhs_rhs
          then Instruction.fstptefd i input_index
          else Instruction.fldtefd i input_index)
        ∷ [])

  -- The instruction that precedes the arguments of a derivative of a power: it pushes the order.
  abbrev pub order_code : BinaryOpcode → ℕ → Codes
  order_code BinaryOpcode.power_deriv order = Instruction.fldc (d.of_int order) ∷ []
  order_code _ order = []

  module _ (w : Settings) (t : Tree Double) where
    unfoldable pub compile_variable :
        (ℕ → Bool → Code Codes) → Bool → VariableKey → SymbolType → Code Codes
    compile_variable arg steady k ty = elim (is_local ty) [
      | true ↦ (do e ← or_throw (lookup k.symb_id t.local_variables_table) dangling; arg e steady)
      | false ↦ (do
        tsid ← variable_position t.symbol_table k.symb_id ty
        i ← variable_instruction w steady ty tsid k.lag
        ok (i ∷ []))
    ]

    unfoldable pub compile_unary : (ℕ → Bool → Code Codes) → Bool → UnaryKey → Code Codes
    compile_unary arg steady k = elim (is_steady_state k.op_code) [
      | true ↦ arg k.arg true
      | false ↦ (do c ← arg k.arg steady; ok (c ++ (Instruction.funary k.op_code ∷ [])))
    ]

    unfoldable pub compile_binary : (ℕ → Bool → Code Codes) → Bool → BinaryKey → Code Codes
    compile_binary arg steady k = do
      c1 ← arg k.arg1 steady
      c2 ← arg k.arg2 steady
      ok (
          order_code k.op_code k.power_deriv_order
          ++ (c1 ++ (c2 ++ (Instruction.fbinary k.op_code ∷ []))))

    unfoldable pub compile_trinary : (ℕ → Bool → Code Codes) → Bool → TrinaryKey → Code Codes
    compile_trinary arg steady k = do
      c1 ← arg k.arg1 steady
      c2 ← arg k.arg2 steady
      c3 ← arg k.arg3 steady
      ok (c1 ++ (c2 ++ (c3 ++ (Instruction.ftrinary k.op_code ∷ []))))

    -- One node, where `arg` compiles other nodes. Constants and variables are never looked up among
    -- the temporary terms.
    unfoldable pub compile_node : (ℕ → Bool → Code Codes) → Bool → ℕ → Node → Code Codes
    compile_node arg steady e (num_const id) = do
      v ← or_throw (get_double d t.num_constants id) dangling
      ok (Instruction.fldc v ∷ [])
    compile_node arg steady e (variable k ty) = compile_variable arg steady k ty
    compile_node arg steady e (unary k) =
        if is_term w.temporary_terms e then compile_term w e else compile_unary arg steady k
    compile_node arg steady e (binary k) =
        if is_term w.temporary_terms e then compile_term w e else compile_binary arg steady k
    compile_node arg steady e (trinary k) =
        if is_term w.temporary_terms e then compile_term w e else compile_trinary arg steady k
    compile_node arg steady e (external k) =
        if is_term w.temporary_terms e
        then compile_term w e
        else compile_external w k.arguments k.symb_id
    compile_node arg steady e (first_deriv k) =
        if is_term w.temporary_terms e
        then compile_term w e
        else compile_first_deriv w k.arguments k.symb_id k.input_index
    compile_node arg steady e (second_deriv k) =
        if is_term w.temporary_terms e
        then compile_term w e
        else compile_external w k.arguments k.symb_id

    -- `e->compile(…)`. The fuel bounds the depth of the calls.
    unfoldable pub compile : ℕ → ℕ → Bool → Code Codes
    compile zero e steady = throw out_of_fuel
    compile (suc n) e steady = elim (node_at t.node_list e) [
      | none ↦ throw dangling
      | some node ↦ compile_node (compile n) steady e node
    ]
