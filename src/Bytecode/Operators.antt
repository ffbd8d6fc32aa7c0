-- ===== src/Bytecode/Operators.antt =====
-- mex/sources/bytecode/Interpreter.cc: the operators of the machine, and the functions that watch for
-- undefined operations.
use dynare.Prelude.{
  ℕ, Bool, false, not, ◌&&◌, ◌||◌, some, if◌then◌else◌, ok, throw, ◌>>=◌, ℤ, pos, negsuc,
}
use dynare.DataTree.Doubles.{Doubles}
use dynare.DataTree.Nodes.{UnaryOpcode, BinaryOpcode, TrinaryOpcode, normcdf, normpdf}
use dynare.DataTree.Eval.{power_deriv_loop}
use dynare.Bytecode.Literals.{Literals}
use dynare.Bytecode.Machine.{Machine, MachineOutcome, unknown_unary_operator, push, pop}

module _ (d : Doubles) (l : Literals d) where
  open d use {Double, lt, le, eq, of_int, near_zero}

  abbrev pub State : Type 0
  State = Machine Double

  -- A result that is not a number or infinite is replaced, unless errors are reported: then the
  -- exception ends the loop, and the stack is not read again.
  unfoldable pub watched :
      State → Double → Double → (State → Double → MachineOutcome State) → MachineOutcome State
  watched m v replacement then_push =
      if d.is_nan v || d.is_inf v
      then (if m.print_error
          then ok (record m { res1 = some l.nan; go_on = false })
          else then_push (record m { res1 = some l.nan }) replacement)
      else then_push m v

  abbrev pub pushing : State → Double → MachineOutcome State
  pushing m v = ok (push v m)

  -- divide, pow1, log1 and log10_1
  unfoldable pub divide : State → Double → Double → MachineOutcome State
  divide m a b = watched m (d.divide a b) l.huge pushing

  unfoldable pub pow1 :
      State → Double → Double → (State → Double → MachineOutcome State) → MachineOutcome State
  pow1 m a b then_push = watched m (d.pow a b) l.tiny then_push

  unfoldable pub log1 : State → Double → MachineOutcome State
  log1 m a = watched m (d.log a) (d.negate l.huge) pushing

  unfoldable pub log10_1 : State → Double → MachineOutcome State
  log10_1 m a = watched m (d.log a) (d.negate l.huge) pushing

  abbrev pub of_bool : Bool → Double
  of_bool b = if b then of_int 1 else of_int 0

  -- The rounds of `for (int i = 0; i < derivOrder; i++)`
  abbrev pub rounds_of : ℤ → ℕ
  rounds_of (pos n) = n
  rounds_of (negsuc n) = 0

  -- oPowerDeriv, with the order of the derivative below its arguments
  unfoldable pub power_deriv : State → Double → Double → MachineOutcome State
  power_deriv m v1 v2 = do
    (top, m') ← pop m
    let order = l.to_int (d.nearbyint top)
    let is_zero =
        lt (d.fabs v1) near_zero
        && (lt (of_int 0) v2
            && (lt v2 (l.of_ℤ order) && lt (d.fabs (d.minus v2 (d.nearbyint v2))) near_zero))
    let loop =
        λ (m'' : State) (dxp : Double). pushing m'' (power_deriv_loop d (rounds_of order) dxp v2)
    if is_zero then ok (push (of_int 0) m') else pow1 m' v1 (d.minus v2 (l.of_ℤ order)) loop

  -- FBINARY on two numbers that are off the stack
  unfoldable pub binary_operator : State → BinaryOpcode → Double → Double → MachineOutcome State
  binary_operator m BinaryOpcode.plus v1 v2 = ok (push (d.plus v1 v2) m)
  binary_operator m BinaryOpcode.minus v1 v2 = ok (push (d.minus v1 v2) m)
  binary_operator m BinaryOpcode.times v1 v2 = ok (push (d.times v1 v2) m)
  binary_operator m BinaryOpcode.divide v1 v2 = divide m v1 v2
  binary_operator m BinaryOpcode.less v1 v2 = ok (push (of_bool (lt v1 v2)) m)
  binary_operator m BinaryOpcode.greater v1 v2 = ok (push (of_bool (lt v2 v1)) m)
  binary_operator m BinaryOpcode.less_equal v1 v2 = ok (push (of_bool (le v1 v2)) m)
  binary_operator m BinaryOpcode.greater_equal v1 v2 = ok (push (of_bool (le v2 v1)) m)
  binary_operator m BinaryOpcode.equal_equal v1 v2 = ok (push (of_bool (eq v1 v2)) m)
  binary_operator m BinaryOpcode.different v1 v2 = ok (push (of_bool (not (eq v1 v2))) m)
  binary_operator m BinaryOpcode.power v1 v2 = pow1 m v1 v2 pushing
  binary_operator m BinaryOpcode.power_deriv v1 v2 = power_deriv m v1 v2
  binary_operator m BinaryOpcode.max v1 v2 = ok (push (if lt v1 v2 then v2 else v1) m)
  binary_operator m BinaryOpcode.min v1 v2 = ok (push (if lt v2 v1 then v2 else v1) m)
  binary_operator m BinaryOpcode.equal v1 v2 = ok m

  unfoldable pub exec_binary : State → BinaryOpcode → MachineOutcome State
  exec_binary m op = do (v2, m') ← pop m; (v1, m'') ← pop m'; binary_operator m'' op v1 v2

  -- FUNARY on a number that is off the stack
  unfoldable pub unary_operator : State → UnaryOpcode → Double → MachineOutcome State
  unary_operator m UnaryOpcode.uminus v = ok (push (d.negate v) m)
  unary_operator m UnaryOpcode.exp v = ok (push (d.exp v) m)
  unary_operator m UnaryOpcode.log v = log1 m v
  unary_operator m UnaryOpcode.log10 v = log10_1 m v
  unary_operator m UnaryOpcode.cos v = ok (push (d.cos v) m)
  unary_operator m UnaryOpcode.sin v = ok (push (d.sin v) m)
  unary_operator m UnaryOpcode.tan v = ok (push (d.tan v) m)
  unary_operator m UnaryOpcode.acos v = ok (push (d.acos v) m)
  unary_operator m UnaryOpcode.asin v = ok (push (d.asin v) m)
  unary_operator m UnaryOpcode.atan v = ok (push (d.atan v) m)
  unary_operator m UnaryOpcode.cosh v = ok (push (d.cosh v) m)
  unary_operator m UnaryOpcode.sinh v = ok (push (d.sinh v) m)
  unary_operator m UnaryOpcode.tanh v = ok (push (d.tanh v) m)
  unary_operator m UnaryOpcode.acosh v = ok (push (d.acosh v) m)
  unary_operator m UnaryOpcode.asinh v = ok (push (d.asinh v) m)
  unary_operator m UnaryOpcode.atanh v = ok (push (d.atanh v) m)
  unary_operator m UnaryOpcode.sqrt v = ok (push (d.sqrt v) m)
  unary_operator m UnaryOpcode.erf v = ok (push (d.erf v) m)
  unary_operator m _ v = throw unknown_unary_operator

  unfoldable pub exec_unary : State → UnaryOpcode → MachineOutcome State
  exec_unary m op = do (v1, m') ← pop m; unary_operator m' op v1

  -- FTRINARY
  unfoldable pub trinary_operator : TrinaryOpcode → Double → Double → Double → Double
  trinary_operator normcdf v1 v2 v3 =
      d.times d.half (d.plus (of_int 1) (d.erf (d.divide (d.divide (d.minus v1 v2) v3) d.sqrt2)))
  trinary_operator normpdf v1 v2 v3 = d.divide (of_int 1) (
      d.times (d.times v3 (d.sqrt (d.times (of_int 2) d.pi)))
        (d.exp (d.divide (d.pow (d.divide (d.minus v1 v2) v3) (of_int 2)) (of_int 2))))

  unfoldable pub exec_trinary : State → TrinaryOpcode → MachineOutcome State
  exec_trinary m op = do
    (v3, m') ← pop m
    (v2, m'') ← pop m'
    (v1, m''') ← pop m''
    ok (push (trinary_operator op v1 v2 v3) m''')
