-- ===== src/Bytecode/Correct.antt =====
-- The code that the `compile` methods of preprocessor/ExprNode.cc write, run by the machine of
-- mex/sources/bytecode/Interpreter.cc, against `eval`.
use dynare.Prelude.{
  ℕ, zero, if◌then◌else◌, suc, ◌<◌, ◌≡◌, refl, sym, ◌∙◌, inl, inr, Bool, true, false, List, [], ◌∷◌,
  ◌++◌, some, ok, >>=-eq-ok, Bool-cases, lookup, ℤ, arith,
}
use dynare.NumericalConstants.{get_double}
use dynare.SymbolTable.State.{SymbolType}
use dynare.DataTree.Doubles.{Doubles}
use dynare.DataTree.Nodes.{
  Node, num_const, variable, unary, binary, trinary, external, first_deriv, second_deriv,
  VariableKey, UnaryKey, BinaryKey, Tree, node_at, nat_key, int_key,
}
use dynare.DataTree.Eval.{Context, eval, eval_node, eval_unary, eval_binary}
use dynare.DataTree.Structure.{ArgsBelow}
use dynare.DataTree.Constants.{eval_node_eq}
use dynare.DataTree.Invariant.{IsShared}
use dynare.Bytecode.Literals.{Literals, IsFinite, IsExact}
use dynare.Bytecode.Instructions.{Instruction}
use dynare.Bytecode.Machine.{Machine, read, at_code}
use dynare.Bytecode.Run.{exec, step, run, forward}
use dynare.Bytecode.Steps.{run-Steps}
use dynare.Bytecode.Compile.{
  Settings, Code, is_term, is_local, is_steady_state, variable_position, compile_term,
  compile_variable, compile_unary, compile_binary, compile_trinary, compile_node, compile,
}
use dynare.Bytecode.Arithmetic.{
  has_operator, is_power_deriv, is_steady_state-eq, is_power_deriv-eq, order_code-empty,
}
use dynare.Bytecode.Pushes.{
  Codes, Compiled, Compiled-eq, Pushes-exec, or_throw-ok, node_of, term-Compiled, unary-Compiled,
  binary-Compiled, power_deriv-Compiled, trinary-Compiled,
}
use dynare.Bytecode.Memory.{place, term_place, variable_load}

module _ (d : Doubles) (l : Literals d) where
  open d use {Double}

  -- The machine holds the values of a context, whatever the lag: those of the variables, both where they
  -- are loaded from and where they are loaded from under STEADY_STATE, and those of the temporary terms. A
  -- local variable has the value of its definition, which is an earlier node. The machine is at work, and
  -- the code is for loads.
  pub record Agrees (w : Settings) (t : Tree Double) (ctx : Context d) (m : Machine Double)
      : Type 0 where
    pub loads : w.lhs_rhs ≡ false
    pub at_work : m.go_on ≡ true
    pub variables :
        (i : ℕ) (k : VariableKey) (ty : SymbolType) (v : Double) (steady : Bool)
        → node_at t.node_list i ≡ some (variable k ty)
        → is_local ty ≡ false
        → lookup k.symb_id ctx ≡ some v
        → (p : ℤ) × (a : List Double) × (q : ℤ) × (variable_position t.symbol_table k.symb_id ty
            ≡ ok p)
          × (place w steady m ty p k.lag ≡ some (a, q))
          × (read a q ≡ ok v)
    pub locals :
        (i : ℕ) (k : VariableKey) (ty : SymbolType) (v : Double)
        → node_at t.node_list i ≡ some (variable k ty)
        → is_local ty ≡ true
        → lookup k.symb_id ctx ≡ some v
        → (e : ℕ) × (lookup k.symb_id t.local_variables_table ≡ some e)
          × (e < i)
          × (eval d t ctx e ≡ ok v)
    pub terms :
        (e : ℕ) (v : Double)
        → is_term w.temporary_terms e ≡ true
        → eval d t ctx e ≡ ok v
        → (i : ℕ) × (lookup e w.map_idx ≡ some i) × (read m.temporary (term_place w m i) ≡ ok v)

  -- The values are finite, and so are the powers in the derivatives of powers, of an order that
  -- `double` holds; the machine has every operator.
  pub record IsSupported (t : Tree Double) (ctx : Context d) : Type 0 where
    pub finite : (e : ℕ) (v : Double) → eval d t ctx e ≡ ok v → IsFinite d v
    pub operators :
        (e : ℕ) (k : UnaryKey)
        → node_at t.node_list e ≡ some (unary k)
        → is_steady_state k.op_code ≡ false
        → has_operator k.op_code ≡ true
    pub powers :
        (e : ℕ) (k : BinaryKey) (v1 v2 : Double)
        → node_at t.node_list e ≡ some (binary k)
        → is_power_deriv k.op_code ≡ true
        → eval d t ctx k.arg1 ≡ ok v1
        → eval d t ctx k.arg2 ≡ ok v2
        → IsExact d l k.power_deriv_order
          × IsFinite d (d.pow v1 (d.minus v2 (d.of_int k.power_deriv_order)))

  -- A tree that is in order and that the machine can evaluate, and a machine that agrees with a context.
  module _ (w : Settings) (t : Tree Double) (ctx : Context d) (m : Machine Double)
      (a : Agrees w t ctx m) (f : IsSupported t ctx) where
    -- What is known of the arguments of a node.
    abbrev CompilesBelow : ℕ → (ℕ → Bool → Code (Codes d l)) → Type 0
    CompilesBelow e arg =
        (j : ℕ) (steady : Bool) (v : Double)
        → j < e
        → eval d t ctx j ≡ ok v
        → Compiled d l m (arg j steady) v

    variable-Compiled :
        (e : ℕ) (arg : ℕ → Bool → Code (Codes d l)) (steady : Bool) (k : VariableKey)
        (ty : SymbolType) (v : Double)
        → CompilesBelow e arg
        → node_at t.node_list e ≡ some (variable k ty)
        → lookup k.symb_id ctx ≡ some v
        → Compiled d l m (compile_variable d w t arg steady k ty) v
    unfolding compile_variable
    variable-Compiled e arg steady k ty v below h x = elim (Bool-cases (is_local ty)) [
      | inl loc ↦
          (let (j, at, lt, ev) = a.locals e k ty v h loc x in
            Compiled-eq d l m (ground (arith, loc, at)) (below j steady v lt ev))
      | inr loc ↦
          (let (p, b, q, at, pl, rd) = a.variables e k ty v steady h loc x in
            let (i, wr, ex) = variable_load d l w steady m ty p k.lag a.loads pl rd in
            (i ∷ [], ground (arith, loc, at, wr), Pushes-exec d l m i v a.at_work ex))
    ]

    unary_node-Compiled :
        (e : ℕ) (arg : ℕ → Bool → Code (Codes d l)) (steady : Bool) (k : UnaryKey) (v1 v : Double)
        → CompilesBelow e arg
        → node_at t.node_list e ≡ some (unary k)
        → k.arg < e
        → eval d t ctx k.arg ≡ ok v1
        → eval_unary d k.op_code v1 ≡ ok v
        → IsFinite d v
        → Compiled d l m (compile_unary d w t arg steady k) v
    unfolding compile_unary eval_unary
    unary_node-Compiled e arg steady k v1 v below h lt e1 o u =
        elim (Bool-cases (is_steady_state k.op_code)) [
          | inl st ↦
              (let o' = rw (is_steady_state-eq k.op_code st) at o in
                Compiled-eq d l m (ground (arith, st)) (below k.arg true v lt (e1 ∙ o')))
          | inr st ↦ Compiled-eq d l m (ground (arith, st)) (
              unary-Compiled d l m (arg k.arg steady) k.op_code v1 v a.at_work
                (f.operators e k h st) o u (below k.arg steady v1 lt e1))
        ]

    binary_node-Compiled :
        (e : ℕ) (arg : ℕ → Bool → Code (Codes d l)) (steady : Bool) (k : BinaryKey)
        (v1 v2 v : Double)
        → CompilesBelow e arg
        → node_at t.node_list e ≡ some (binary k)
        → (k.arg1 < e) × (k.arg2 < e)
        → eval d t ctx k.arg1 ≡ ok v1
        → eval d t ctx k.arg2 ≡ ok v2
        → eval_binary d v1 k.op_code v2 k.power_deriv_order ≡ ok v
        → IsFinite d v
        → Compiled d l m (compile_binary d w t arg steady k) v
    unfolding compile_binary
    binary_node-Compiled e arg steady k v1 v2 v below h lt e1 e2 o u =
        elim (Bool-cases (is_power_deriv k.op_code)) [
          | inl pd ↦
              (let eq = is_power_deriv-eq k.op_code pd in
                let (x, z) = f.powers e k v1 v2 h pd e1 e2 in
                Compiled-eq d l m (rw eq refl) (
                  power_deriv-Compiled d l m (arg k.arg1 steady) (arg k.arg2 steady) v1 v2 v
                    k.power_deriv_order a.at_work (rw eq at o) x z (below k.arg1 steady v1 lt.0 e1)
                    (below k.arg2 steady v2 lt.1 e2)))
          | inr pd ↦
              Compiled-eq d l m (rw (order_code-empty d k.op_code k.power_deriv_order pd) refl) (
                binary-Compiled d l m (arg k.arg1 steady) (arg k.arg2 steady) k.op_code v1 v2 v
                  k.power_deriv_order a.at_work pd o u (below k.arg1 steady v1 lt.0 e1)
                  (below k.arg2 steady v2 lt.1 e2))
        ]

    or_term :
        (e : ℕ) (v : Double) (r : Code (Codes d l))
        → eval d t ctx e ≡ ok v
        → Compiled d l m r v
        → Compiled d l m (if is_term w.temporary_terms e then compile_term d w e else r) v
    or_term e v r ev p = elim (Bool-cases (is_term w.temporary_terms e)) [
      | inl y ↦
          (let (i, at, rd) = a.terms e v y ev in
            Compiled-eq d l m (ground (arith, y)) (term-Compiled d l w m e i v a.at_work at rd))
      | inr out ↦ Compiled-eq d l m (ground (arith, out)) p
    ]

    node-Compiled :
        (e : ℕ) (arg : ℕ → Bool → Code (Codes d l)) (steady : Bool) (n : Node) (v : Double)
        → CompilesBelow e arg
        → node_at t.node_list e ≡ some n
        → ArgsBelow e n
        → eval d t ctx e ≡ ok v
        → eval_node d t.num_constants ctx n (eval d t ctx) ≡ ok v
        → Compiled d l m (compile_node d w t arg steady e n) v
    unfolding compile_node eval_node exec compile_trinary
    node-Compiled e arg steady (num_const id) v below h b ev q =
        let g = or_throw-ok d l (get_double d t.num_constants id) _ q in
        (Instruction.fldc v ∷ [], rw g refl, Pushes-exec d l m _ v a.at_work λ c s. refl)
    node-Compiled e arg steady (variable k ty) v below h b ev q =
        variable-Compiled e arg steady k ty v below h (or_throw-ok d l (lookup k.symb_id ctx) _ q)
    node-Compiled e arg steady (unary k) v below h b ev q =
        let (v1, e1, o) = >>=-eq-ok (eval d t ctx k.arg) _ q in
        or_term e v _ ev (unary_node-Compiled e arg steady k v1 v below h b e1 o (f.finite e v ev))
    node-Compiled e arg steady (binary k) v below h b ev q =
        let (v1, e1, q1) = >>=-eq-ok (eval d t ctx k.arg1) _ q in
        let (v2, e2, o) = >>=-eq-ok (eval d t ctx k.arg2) _ q1 in
        or_term e v _ ev
          (binary_node-Compiled e arg steady k v1 v2 v below h b e1 e2 o (f.finite e v ev))
    node-Compiled e arg steady (trinary k) v below h b ev q =
        let (v1, e1, q1) = >>=-eq-ok (eval d t ctx k.arg1) _ q in
        let (v2, e2, q2) = >>=-eq-ok (eval d t ctx k.arg2) _ q1 in
        let (v3, e3, o) = >>=-eq-ok (eval d t ctx k.arg3) _ q2 in
        or_term e v _ ev (
          trinary-Compiled d l m (arg k.arg1 steady) (arg k.arg2 steady) (arg k.arg3 steady)
            k.op_code v1 v2 v3 v a.at_work o (below k.arg1 steady v1 b.0 e1)
            (below k.arg2 steady v2 b.1 e2) (below k.arg3 steady v3 b.2 e3))
    node-Compiled e arg steady (external k) v below h b ev q = cc
    node-Compiled e arg steady (first_deriv k) v below h b ev q = cc
    node-Compiled e arg steady (second_deriv k) v below h b ev q = cc

    compile-eval :
        (n e : ℕ) (steady : Bool) (v : Double)
        → IsShared d t
        → e < n
        → eval d t ctx e ≡ ok v
        → Compiled d l m (compile d w t n e steady) v
    unfolding compile
    compile-eval zero e steady v s lt ev = absurd (omega arith)
    compile-eval (suc n) e steady v s lt ev =
        let (node, h) = node_of d l t ctx e v ev in
        Compiled-eq d l m (ground (arith, h)) (
          node-Compiled e (compile d w t n) steady node v
            (λ j st u j_lt. compile-eval n j st u s (omega arith)) h (s.closed e node h) ev
            (sym (eval_node_eq d t ctx e node s h) ∙ ev))

    -- Take a tree in order, settings by which `compile` writes loads (lhs_rhs is false), and a machine that
    -- is at work and holds the values of a context: those of the temporary terms, and those of the
    -- variables at every lag, both in the array that they are loaded from and in the one that they are
    -- loaded from under STEADY_STATE, whether or not the tree has STEADY_STATE, while a local variable has
    -- the value of its definition, an earlier node. Let no value of the tree be infinite or undefined, nor a
    -- power in a derivative of a power, let double hold the orders of those derivatives, and let each unary
    -- operator of the tree be STEADY_STATE or one that the machine computes as `eval` does, so none of log10,
    -- abs, sign, the derivatives of STEADY_STATE and the expectation operator. Then, where `eval` returns a
    -- value for an expression, `compile` writes code for it, given a fuel above its index, and the loop that
    -- runs this code, followed by FENDBLOCK, on an empty stack ends with this value alone on the stack and
    -- every array unchanged, given enough fuel.
    pub run-compile-eval :
        (n e : ℕ) (steady : Bool) (v : Double)
        → IsShared d t
        → e < n
        → eval d t ctx e ≡ ok v
        → (c : Codes d l) × (compile d w t n e steady ≡ ok c)
          × (fuel : ℕ) × (run d l fuel (at_code m (c ++ (Instruction.fendblock ∷ [])) [])
              ≡ ok (record (at_code m [] (v ∷ [])) { go_on = false }))
    unfolding run step exec forward
    run-compile-eval n e steady v s lt ev =
        let (c, q, p) = compile-eval n e steady v s lt ev in
        let (fuel, r) =
          run-Steps d l 2 (p (Instruction.fendblock ∷ []) []) (ground (arith, a.at_work)) in
        (c, q, fuel, r)
