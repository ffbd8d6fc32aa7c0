-- ===== src/Derivation/Derivative.antt =====
-- The derivative of the value of a node of preprocessor/ExprNode.cc by a derivation ID, from the
-- textbook derivatives of its operation: on numbers, and with no tree built.
use dynare.Prelude.{
  ℕ, zero, suc, ◌+◌, ◌≤◌, ◌≡◌, sym, ap, ◌∙◌, inl, inr, Bool, true, false, ◌==◌, some, Option-cases,
  if◌then◌else◌, Result, ok, throw, ◌>>=◌, or_throw, >>=-eq-ok, ok-injective, ℤ, eqb_ℤ, arith,
  Bool-cases,
}
use dynare.DataTree.Doubles.{Doubles}
use dynare.DataTree.Nodes.{
  UnaryOpcode, BinaryOpcode, Node, num_const, variable, unary, binary, trinary, external,
  first_deriv, second_deriv, Tree, TreeOutcome, node_at,
}
use dynare.DataTree.Eval.{
  EvalError, Context, eval, eval_unary, eval_trinary, eval_exception, dangling,
}
use dynare.DataTree.Invariant.{Extends, Extends-refl}
use dynare.Derivation.DerivIds.{DerivIds}
use dynare.Derivation.Tangent.{Derived, tangent_unary, tangent_binary, tangent_trinary}
use dynare.Derivation.Recursion.{is_derivable}

-- ATANH, whose rule in the source multiplies where it should divide, is left out.
abbrev pub is_covered : UnaryOpcode → Bool
is_covered UnaryOpcode.atanh = false
is_covered _ = true

-- The order of derivation of a power is 0.
abbrev pub is_regular : BinaryOpcode → ℕ → Bool
is_regular BinaryOpcode.power order = order == 0
is_regular _ order = true

abbrev pub known_id : TreeOutcome ℤ → Result EvalError ℤ
known_id (ok i) = ok i
known_id (throw e) = throw eval_exception

pub known_id-eq : (r : TreeOutcome ℤ) (own : ℤ) → known_id r ≡ ok own → r ≡ ok own
known_id-eq (ok i) own h = ap ok (ok-injective h)
known_id-eq (throw e) own h = absurd (cc h)

module _ (d : Doubles) (ids : DerivIds) (id : ℤ) where
  open d use {Double, of_int}

  -- From the values and the derivatives of the arguments. A variable has a derivation ID of its own.
  unfoldable pub derivative_node :
      Node → (ℕ → Result EvalError Double) → (ℕ → Derived d) → Derived d
  derivative_node (num_const c) value derivative = ok (of_int 0)
  derivative_node (variable k ty) value derivative =
      if is_derivable ty
      then (do
        own ← known_id (ids.get_deriv_id k.symb_id k.lag)
        ok (if eqb_ℤ id own then of_int 1 else of_int 0))
      else throw eval_exception
  derivative_node (unary k) value derivative =
      if is_covered k.op_code
      then (do
        v ← value k.arg
        dv ← derivative k.arg
        w ← eval_unary d k.op_code v
        tangent_unary d k.op_code v dv)
      else throw eval_exception
  derivative_node (binary k) value derivative =
      if is_regular k.op_code k.power_deriv_order
      then (do
        v1 ← value k.arg1
        dv1 ← derivative k.arg1
        v2 ← value k.arg2
        dv2 ← derivative k.arg2
        tangent_binary d k.op_code v1 v2 dv1 dv2)
      else throw eval_exception
  derivative_node (trinary k) value derivative = do
    v1 ← value k.arg1
    dv1 ← derivative k.arg1
    v2 ← value k.arg2
    dv2 ← derivative k.arg2
    v3 ← value k.arg3
    dv3 ← derivative k.arg3
    w ← eval_trinary d v1 k.op_code v2 v3
    tangent_trinary d k.op_code v1 v2 v3 dv1 dv2 dv3
  derivative_node _ value derivative = throw eval_exception

  -- Of the node `e`, for an expression that is at most `depth` deep.
  unfoldable pub derivative : ℕ → Tree Double → Context d → ℕ → Derived d
  derivative zero t ctx e = throw dangling
  derivative (suc depth) t ctx e = do
    n ← or_throw (node_at t.node_list e) dangling
    derivative_node n (eval d t ctx) (derivative depth t ctx)

  abbrev Refines : (ℕ → Result EvalError Double) → (ℕ → Result EvalError Double) → Type 0
  Refines f g = (i : ℕ) (v : Double) → f i ≡ ok v → g i ≡ ok v

  derivative_node_mono :
      (n : Node) (f f' : ℕ → Result EvalError Double) (g g' : ℕ → Derived d)
      → Refines f f'
      → Refines g g'
      → (z : Double) → derivative_node n f g ≡ ok z
      → derivative_node n f' g' ≡ ok z
  unfolding derivative_node
  derivative_node_mono (num_const c) f f' g g' p q z h = h
  derivative_node_mono (variable k ty) f f' g g' p q z h = h
  derivative_node_mono (unary k) f f' g g' p q z h = elim (Bool-cases (is_covered k.op_code)) [
    | inr c ↦ absurd (cc (rw c at h))
    | inl c ↦
        let (v, e1, h1) = >>=-eq-ok (f k.arg) _ (rw c at h) in
        let (dv, e2, h2) = >>=-eq-ok (g k.arg) _ h1 in rw (c, p k.arg v e1, q k.arg dv e2) h2
  ]
  derivative_node_mono (binary k) f f' g g' p q z h =
      elim (Bool-cases (is_regular k.op_code k.power_deriv_order)) [
        | inr c ↦ absurd (cc (rw c at h))
        | inl c ↦
            let (v1, e1, h1) = >>=-eq-ok (f k.arg1) _ (rw c at h) in
            let (dv1, e2, h2) = >>=-eq-ok (g k.arg1) _ h1 in
            let (v2, e3, h3) = >>=-eq-ok (f k.arg2) _ h2 in
            let (dv2, e4, h4) = >>=-eq-ok (g k.arg2) _ h3 in
            rw (c, p k.arg1 v1 e1, q k.arg1 dv1 e2, p k.arg2 v2 e3, q k.arg2 dv2 e4) h4
      ]
  derivative_node_mono (trinary k) f f' g g' p q z h =
      let (v1, e1, h1) = >>=-eq-ok (f k.arg1) _ h in
      let (dv1, e2, h2) = >>=-eq-ok (g k.arg1) _ h1 in
      let (v2, e3, h3) = >>=-eq-ok (f k.arg2) _ h2 in
      let (dv2, e4, h4) = >>=-eq-ok (g k.arg2) _ h3 in
      let (v3, e5, h5) = >>=-eq-ok (f k.arg3) _ h4 in
      let (dv3, e6, h6) = >>=-eq-ok (g k.arg3) _ h5 in
      rw
        (
          p k.arg1 v1 e1,
          q k.arg1 dv1 e2,
          p k.arg2 v2 e3,
          q k.arg2 dv2 e4,
          p k.arg3 v3 e5,
          q k.arg3 dv3 e6,
        )
        h6
  derivative_node_mono (external k) f f' g g' p q z h = absurd (cc h)
  derivative_node_mono (first_deriv k) f f' g g' p q z h = absurd (cc h)
  derivative_node_mono (second_deriv k) f f' g g' p q z h = absurd (cc h)

  -- The node of a derivative, and what it is made of.
  pub derivative-node :
      (depth : ℕ) (t : Tree Double) (ctx : Context d) (e : ℕ) (z : Double)
      → derivative (suc depth) t ctx e ≡ ok z
      → (n : Node) × (node_at t.node_list e ≡ some n)
        × (derivative_node n (eval d t ctx) (derivative depth t ctx) ≡ ok z)
  unfolding derivative
  derivative-node depth t ctx e z h = elim (Option-cases (node_at t.node_list e)) [
    | inl q ↦ absurd (cc (rw q at h))
    | inr (n, q) ↦ (n, q, rw q at h)
  ]

  -- A derivative stays when the tree grows, and when a deeper expression is allowed.
  pub derivative_mono :
      (depth deeper : ℕ) (t u : Tree Double) (ctx : Context d) (e : ℕ) (z : Double)
      → depth ≤ deeper
      → Extends d t u
      → derivative depth t ctx e ≡ ok z
      → derivative deeper u ctx e ≡ ok z
  unfolding derivative
  derivative_mono zero deeper t u ctx e z l x h = absurd (cc h)
  derivative_mono (suc depth) zero t u ctx e z l x h = absurd (omega arith)
  derivative_mono (suc depth) (suc deeper) t u ctx e z l x h =
      let (n, q, g) = derivative-node depth t ctx e z h in
      rw (x.nodes e n q) (
        derivative_node_mono n _ _ _ _ (λ i v p. x.values ctx i v p)
          (λ i v p. derivative_mono depth deeper t u ctx i v (omega arith) x p) z g)

  -- There is only one.
  pub derivative_unique :
      (depth deeper : ℕ) (t : Tree Double) (ctx : Context d) (e : ℕ) (z y : Double)
      → derivative depth t ctx e ≡ ok z
      → derivative deeper t ctx e ≡ ok y
      → z ≡ y
  derivative_unique depth deeper t ctx e z y h g =
      let x = Extends-refl d t in
      ok-injective (
        sym (derivative_mono depth (depth + deeper) t t ctx e z (omega arith) x h)
        ∙ derivative_mono deeper (depth + deeper) t t ctx e y (omega arith) x g)
