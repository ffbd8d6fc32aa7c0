-- ===== src/Bytecode/KeepsOperators.antt =====
-- mex/sources/bytecode/Interpreter.cc, compute_block_time: the operators stay where they are in the
-- code.
use dynare.Prelude.{◌≡◌, refl, false, ◌||◌, ◌&&◌, some, if◌then◌else◌, ok}
use dynare.DataTree.Doubles.{Doubles}
use dynare.DataTree.Nodes.{UnaryOpcode, BinaryOpcode, TrinaryOpcode}
use dynare.DataTree.Eval.{power_deriv_loop}
use dynare.Bytecode.Literals.{Literals}
use dynare.Bytecode.Machine.{Machine, MachineOutcome, push}
use dynare.Bytecode.Operators.{
  pushing, rounds_of, watched, divide, pow1, log1, log10_1, power_deriv, binary_operator,
  exec_binary, unary_operator, exec_unary, exec_trinary,
}
use dynare.Bytecode.Keeps.{Keeps, Keeps-if, Keeps-pop}

module _ (d : Doubles) (l : Literals d) where
  open d use {Double}

  watched-Keeps :
      (m : Machine Double) (v x : Double)
      (k : Machine Double → Double → MachineOutcome (Machine Double))
      → ((m' : Machine Double) (u : Double) → m'.it_code ≡ m.it_code → Keeps m.it_code (k m' u))
      → Keeps m.it_code (watched d l m v x k)
  unfolding watched
  watched-Keeps m v x k h =
      let replaced = record m { res1 = some l.nan } in
      let stopped = ok (record m { res1 = some l.nan; go_on = false }) in
      Keeps-if m.it_code (d.is_nan v || d.is_inf v)
        (if m.print_error then stopped else k replaced x) (k m v)
        (Keeps-if m.it_code m.print_error stopped (k replaced x) refl (h replaced x refl))
        (h m v refl)

  power_deriv-Keeps :
      (m : Machine Double) (v1 v2 : Double) → Keeps m.it_code (power_deriv d l m v1 v2)
  unfolding power_deriv pow1
  power_deriv-Keeps m v1 v2 = Keeps-pop m _ λ top s.
      let m1 : Machine Double = record m { stack = s } in
      let order = l.to_int (d.nearbyint top) in
      let is_zero =
        d.lt (d.fabs v1) d.near_zero
        && (d.lt (d.of_int 0) v2
            && (d.lt v2 (l.of_ℤ order)
                && d.lt (d.fabs (d.minus v2 (d.nearbyint v2))) d.near_zero)) in
      let loop = λ (m' : Machine Double) (dxp : Double).
        pushing d l m' (power_deriv_loop d (rounds_of d l order) dxp v2) in
      let base = d.pow v1 (d.minus v2 (l.of_ℤ order)) in
      Keeps-if m.it_code is_zero (ok (push (d.of_int 0) m1)) (watched d l m1 base l.tiny loop) refl
        (watched-Keeps m1 base l.tiny loop λ m' u e. e)

  binary_operator-Keeps :
      (m : Machine Double) (op : BinaryOpcode) (v1 v2 : Double)
      → Keeps m.it_code (binary_operator d l m op v1 v2)
  unfolding binary_operator divide pow1
  binary_operator-Keeps m BinaryOpcode.plus v1 v2 = refl
  binary_operator-Keeps m BinaryOpcode.minus v1 v2 = refl
  binary_operator-Keeps m BinaryOpcode.times v1 v2 = refl
  binary_operator-Keeps m BinaryOpcode.divide v1 v2 = watched-Keeps m _ _ _ λ m' u e. e
  binary_operator-Keeps m BinaryOpcode.power v1 v2 = watched-Keeps m _ _ _ λ m' u e. e
  binary_operator-Keeps m BinaryOpcode.power_deriv v1 v2 = power_deriv-Keeps m v1 v2
  binary_operator-Keeps m BinaryOpcode.equal v1 v2 = refl
  binary_operator-Keeps m BinaryOpcode.max v1 v2 = refl
  binary_operator-Keeps m BinaryOpcode.min v1 v2 = refl
  binary_operator-Keeps m BinaryOpcode.less v1 v2 = refl
  binary_operator-Keeps m BinaryOpcode.greater v1 v2 = refl
  binary_operator-Keeps m BinaryOpcode.less_equal v1 v2 = refl
  binary_operator-Keeps m BinaryOpcode.greater_equal v1 v2 = refl
  binary_operator-Keeps m BinaryOpcode.equal_equal v1 v2 = refl
  binary_operator-Keeps m BinaryOpcode.different v1 v2 = refl

  unary_operator-Keeps :
      (m : Machine Double) (op : UnaryOpcode) (v : Double)
      → Keeps m.it_code (unary_operator d l m op v)
  unfolding unary_operator log1 log10_1
  unary_operator-Keeps m UnaryOpcode.uminus v = refl
  unary_operator-Keeps m UnaryOpcode.exp v = refl
  unary_operator-Keeps m UnaryOpcode.log v = watched-Keeps m _ _ _ λ m' u e. e
  unary_operator-Keeps m UnaryOpcode.log10 v = watched-Keeps m _ _ _ λ m' u e. e
  unary_operator-Keeps m UnaryOpcode.cos v = refl
  unary_operator-Keeps m UnaryOpcode.sin v = refl
  unary_operator-Keeps m UnaryOpcode.tan v = refl
  unary_operator-Keeps m UnaryOpcode.acos v = refl
  unary_operator-Keeps m UnaryOpcode.asin v = refl
  unary_operator-Keeps m UnaryOpcode.atan v = refl
  unary_operator-Keeps m UnaryOpcode.cosh v = refl
  unary_operator-Keeps m UnaryOpcode.sinh v = refl
  unary_operator-Keeps m UnaryOpcode.tanh v = refl
  unary_operator-Keeps m UnaryOpcode.acosh v = refl
  unary_operator-Keeps m UnaryOpcode.asinh v = refl
  unary_operator-Keeps m UnaryOpcode.atanh v = refl
  unary_operator-Keeps m UnaryOpcode.sqrt v = refl
  unary_operator-Keeps m UnaryOpcode.erf v = refl
  unary_operator-Keeps m _ v = refl

  pub exec_unary-Keeps :
      (m : Machine Double) (op : UnaryOpcode) → Keeps m.it_code (exec_unary d l m op)
  unfolding exec_unary
  exec_unary-Keeps m op = Keeps-pop m _ λ v s. unary_operator-Keeps (record m { stack = s }) op v

  pub exec_binary-Keeps :
      (m : Machine Double) (op : BinaryOpcode) → Keeps m.it_code (exec_binary d l m op)
  unfolding exec_binary
  exec_binary-Keeps m op = Keeps-pop m _ λ v2 s.
      Keeps-pop (record m { stack = s }) _
        λ v1 s'. binary_operator-Keeps (record m { stack = s' }) op v1 v2

  pub exec_trinary-Keeps :
      (m : Machine Double) (op : TrinaryOpcode) → Keeps m.it_code (exec_trinary d l m op)
  unfolding exec_trinary
  exec_trinary-Keeps m op = Keeps-pop m _ λ v3 s.
      Keeps-pop (record m { stack = s }) _
        λ v2 s'. Keeps-pop (record m { stack = s' }) _ λ v1 s''. refl
