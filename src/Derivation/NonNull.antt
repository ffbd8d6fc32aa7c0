-- ===== src/Derivation/NonNull.antt =====
-- preprocessor/ExprNode.cc: a derivative by an ID outside `non_null_derivatives` is 0.
use dynare.Prelude.{
  ℕ, zero, suc, ◌≡◌, sym, inl, inr, false, List, some, ok, >>=-eq-ok, ok-injective, ℤ, eqb_ℤ,
  Bool-cases, lookup,
}
use mathlib.Core.Path.{subst}
use dynare.DataTree.Doubles.{Doubles}
use dynare.DataTree.Laws.{Laws}
use dynare.DataTree.Nodes.{
  Node, num_const, variable, unary, binary, trinary, external, first_deriv, second_deriv, Tree,
  nat_key,
}
use dynare.DataTree.Eval.{Context, eval, eval_unary, eval_trinary}
use dynare.Derivation.DerivIds.{DerivIds}
use dynare.Derivation.Laws.{DerivativeLaws}
use dynare.Derivation.Derivative.{
  derivative, derivative_node, derivative-node, is_covered, is_regular, known_id, known_id-eq,
}
use dynare.Derivation.Null.{tangent_unary_null, tangent_binary_null, tangent_trinary_null}
use dynare.Derivation.Prepare.{Within, Fits, ArePrepared, eqb_ℤ→eq}
use dynare.Derivation.Recursion.{NonNull, has_id, is_derivable}

module _ (d : Doubles) (laws : Laws d) (more : DerivativeLaws d) (ids : DerivIds)
    (t : Tree d.Double) (ctx : Context d) (id : ℤ) where
  -- From the derivatives of the arguments.
  null_node :
      (depth : ℕ) (p : NonNull) (l : List ℤ) (z : d.Double)
      → has_id id l ≡ false
      → ((b : ℕ) (y : d.Double)
          → Within p b l
          → derivative d ids id depth t ctx b ≡ ok y
          → y ≡ d.of_int 0)
      → (n : Node) → Fits ids p n l
      → derivative_node d ids id n (eval d t ctx) (derivative d ids id depth t ctx) ≡ ok z
      → z ≡ d.of_int 0
  unfolding derivative_node
  null_node depth p l z out here (num_const c) f h = sym (ok-injective h)
  null_node depth p l z out here (variable k ty) f h = elim (Bool-cases (is_derivable ty)) [
    | inr b ↦ absurd (cc (rw b at h))
    | inl b ↦
        let (own, e1, h1) = >>=-eq-ok (known_id (ids.get_deriv_id k.symb_id k.lag)) _ (rw b at h) in
        let e2 = known_id-eq (ids.get_deriv_id k.symb_id k.lag) own e1 in
        let e3 = f own e2 in
        elim (Bool-cases (eqb_ℤ id own)) [
          | inl c ↦ (let q : id ≡ own = eqb_ℤ→eq id own c in absurd (cc))
          | inr c ↦ sym (ok-injective (rw c at h1))
        ]
  ]
  null_node depth p l z out here (unary k) f h = elim (Bool-cases (is_covered k.op_code)) [
    | inr b ↦ absurd (cc (rw b at h))
    | inl b ↦
        let (v, e1, h1) = >>=-eq-ok (eval d t ctx k.arg) _ (rw b at h) in
        let (dv, e2, h2) = >>=-eq-ok (derivative d ids id depth t ctx k.arg) _ h1 in
        let (w, e3, h3) = >>=-eq-ok (eval_unary d k.op_code v) _ h2 in
        let q = here k.arg dv f e2 in tangent_unary_null d laws more k.op_code v dv z q h3
  ]
  null_node depth p l z out here (binary k) f h =
      elim (Bool-cases (is_regular k.op_code k.power_deriv_order)) [
        | inr b ↦ absurd (cc (rw b at h))
        | inl b ↦
            let (v1, e1, h1) = >>=-eq-ok (eval d t ctx k.arg1) _ (rw b at h) in
            let (dv1, e2, h2) = >>=-eq-ok (derivative d ids id depth t ctx k.arg1) _ h1 in
            let (v2, e3, h3) = >>=-eq-ok (eval d t ctx k.arg2) _ h2 in
            let (dv2, e4, h4) = >>=-eq-ok (derivative d ids id depth t ctx k.arg2) _ h3 in
            let q1 = here k.arg1 dv1 f.0 e2 in
            let q2 = here k.arg2 dv2 f.1 e4 in
            tangent_binary_null d laws more k.op_code v1 v2 dv1 dv2 z q1 q2 h4
      ]
  null_node depth p l z out here (trinary k) f h =
      let (v1, e1, h1) = >>=-eq-ok (eval d t ctx k.arg1) _ h in
      let (dv1, e2, h2) = >>=-eq-ok (derivative d ids id depth t ctx k.arg1) _ h1 in
      let (v2, e3, h3) = >>=-eq-ok (eval d t ctx k.arg2) _ h2 in
      let (dv2, e4, h4) = >>=-eq-ok (derivative d ids id depth t ctx k.arg2) _ h3 in
      let (v3, e5, h5) = >>=-eq-ok (eval d t ctx k.arg3) _ h4 in
      let (dv3, e6, h6) = >>=-eq-ok (derivative d ids id depth t ctx k.arg3) _ h5 in
      let (w, e7, h7) = >>=-eq-ok (eval_trinary d v1 k.op_code v2 v3) _ h6 in
      let q1 = here k.arg1 dv1 f.0 e2 in
      let q2 = here k.arg2 dv2 f.1 e4 in
      let q3 = here k.arg3 dv3 f.2 e6 in
      tangent_trinary_null d laws more k.op_code v1 v2 v3 dv1 dv2 dv3 z q1 q2 q3 h7
  null_node depth p l z out here (external k) f h = absurd (cc h)
  null_node depth p l z out here (first_deriv k) f h = absurd (cc h)
  null_node depth p l z out here (second_deriv k) f h = absurd (cc h)

  -- A derivation ID outside the set of a node: its derivative is 0.
  pub derivative_null :
      (depth : ℕ) (p : NonNull) (e : ℕ) (l : List ℤ) (z : d.Double)
      → ArePrepared ids t p
      → lookup e p ≡ some l
      → has_id id l ≡ false
      → derivative d ids id depth t ctx e ≡ ok z
      → z ≡ d.of_int 0
  unfolding derivative
  derivative_null zero p e l z a q out h = absurd (cc h)
  derivative_null (suc depth) p e l z a q out h =
      let (n, at, g) = derivative-node d ids id depth t ctx e z h in
      let (m, at', f) = a e l q in
      let same : m ≡ n = cc in
      null_node depth p l z out
        (λ b y (w : Within p b l) k. derivative_null depth p b w.0 y a w.1 (w.2 id out) k) n
        (subst (λ x. Fits ids p x l) same f) g
