-- ===== src/Bytecode/Machine.antt =====
-- mex/sources/bytecode/Interpreter.hh and ErrorHandling.hh: the state of the machine, as far as
-- compute_block_time reads or writes it, and its memory.
use dynare.Prelude.{
  ℕ, Bool, List, [], ◌∷◌, Option, length, get_elem?, set, ltb, if◌then◌else◌, Map, Key, false,
  ℤ-discrete, ℕ_discrete, Result, ok, throw, or_throw, ℤ, pos, negsuc,
}
use dynare.Bytecode.Instructions.{Instruction, ExpressionType, ExternalFunctionType}

-- What the loop can end in other than its end: FatalExceptionHandling, a read or write past the end of
-- an array or of the stack or of the code, none of which the source checks for, and the end of the fuel.
pub data MachineError : Type 0 where
  unknown_unary_operator unknown_binary_operator : MachineError
  impossible_case not_used_yet stack_not_empty unknown_opcode : MachineError
  out_of_range empty_stack past_end out_of_fuel : MachineError

abbrev pub MachineOutcome {ℓ} : Type ℓ → Type ℓ
MachineOutcome A = Result MachineError A

-- The function and the argument of a derivative.
pub record DerivativeKey : Type 0 where
  pub index : ℕ
  pub row : ℤ

unfoldable pub DerivativeKey-discrete : Discrete DerivativeKey
unfolding ℤ-discrete ℕ_discrete
DerivativeKey-discrete = hlevel (ℤ-discrete, ℕ_discrete)

instance abbrev pub derivative_key : Key DerivativeKey
derivative_key = record { dec = DerivativeKey-discrete; before = λ a b. false }

pub record Machine (D : Type 0) : Type 0 where
  -- Arguments of compute_block_time.
  pub per_u : ℤ
  pub evaluate : Bool
  pub block_size : ℤ
  -- Sizes.
  pub it : ℤ
  pub y_size : ℤ
  pub nb_row_x : ℤ
  pub nb_row_xd : ℤ
  pub periods : ℤ
  pub y_kmin : ℤ
  pub y_kmax : ℤ
  pub print_error : Bool
  -- Arrays.
  pub params : List D
  pub y : List D
  pub ya : List D
  pub x : List D
  pub steady_y : List D
  pub temporary : List D
  pub u : List D
  pub r : List D
  pub g1 : List D
  pub jacob : List D
  pub jacob_other_endo : List D
  pub jacob_exo : List D
  pub jacob_exo_det : List D
  -- Results of external functions, and their derivatives.
  pub tef : Map ℤ D
  pub tefd : Map DerivativeKey D
  pub function_type : ExternalFunctionType
  -- The last FNUMEXPR.
  pub eqn_type : Option ExpressionType
  pub eqn_equation : ℕ
  pub eqn_dvar1 : ℕ
  pub eqn_dvar2 : ℕ
  pub eqn_dvar3 : ℕ
  pub eqn_lag1 : ℤ
  pub eqn_lag2 : ℤ
  pub eqn_lag3 : ℤ
  -- Whether an operation was undefined.
  pub res1 : Option D
  -- The instructions from `it_code` on, the stack, its top first, and the flag of the loop.
  pub it_code : List (Instruction D)
  pub stack : List D
  pub go_on : Bool

module _ {D : Type 0} where
  -- `a[i]` and `a[i] = v`
  unfoldable pub read : List D → ℤ → MachineOutcome D
  read a (pos n) = or_throw (get_elem? a n) out_of_range
  read a (negsuc n) = throw out_of_range

  unfoldable pub write : List D → ℤ → D → MachineOutcome (List D)
  write a (pos n) v = if ltb n (length a) then ok (set a n v) else throw out_of_range
  write a (negsuc n) v = throw out_of_range

  -- `Stack.push(v)`, and `Stack.top()` followed by `Stack.pop()`
  abbrev pub push : D → Machine D → Machine D
  push v m = record m { stack = v ∷ m.stack }

  abbrev pub pop : Machine D → MachineOutcome (D × Machine D)
  pop m = elim m.stack [ [] ↦ throw empty_stack | v ∷ s ↦ ok (v, record m { stack = s }) ]

  -- The machine at a place in the code, with a stack.
  abbrev pub at_code : Machine D → List (Instruction D) → List D → Machine D
  at_code m code s = record m { it_code = code; stack = s }
