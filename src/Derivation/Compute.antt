-- ===== src/Derivation/Compute.antt =====
-- preprocessor/ExprNode.cc: `computeDerivative` of the node classes, if the calls on the arguments return
-- their derivatives.
use dynare.Prelude.{
  ℕ, ◌<◌, ◌≡◌, ◌≢◌, length, refl, ap, ◌∙◌, inl, inr, true, some, ok, ◌>>=◌, >>=-eq-ok, ok-injective,
  ℤ, eqb_ℤ, arith, Bool-cases,
}
use mathlib.Core.Path.{subst}
use dynare.SymbolTable.State.{SymbolType}
use dynare.DataTree.Doubles.{Doubles}
use dynare.DataTree.Laws.{Laws}
use dynare.DataTree.Nodes.{
  UnaryOpcode, BinaryOpcode, Node, num_const, variable, unary, binary, trinary, external,
  first_deriv, second_deriv, TreeOutcome, node_at, VariableKey, UnaryKey, BinaryKey, TrinaryKey,
  nat_key,
}
use dynare.DataTree.Eval.{Context, eval, eval_node, eval_unary, eval_binary, eval_trinary}
use dynare.DataTree.Structure.{node_at-lt}
use dynare.DataTree.Constants.{eval_node_eq}
use dynare.Derivation.DerivIds.{DerivIds}
use dynare.Derivation.Laws.{DerivativeLaws}
use dynare.Derivation.Reaches.{Later-trans, Has, keep, zero_Has, one_Has}
use dynare.Derivation.Unary.{compose_unary-Reaches}
use dynare.Derivation.Binary.{compose_binary-Reaches}
use dynare.Derivation.Trinary.{compose_trinary-Reaches}
use dynare.Derivation.Derivative.{
  derivative, derivative_node, derivative_mono, is_covered, is_regular, known_id, known_id-eq,
}
use dynare.Derivation.Recursion.{is_derivable, deriv_key, DerivState, compute_derivative}
use dynare.Derivation.States.{Ready, Derives, returned, on_tree-Derives, after}

covered-ne : (op : UnaryOpcode) → is_covered op ≡ true → op ≢ UnaryOpcode.atanh
covered-ne op b q = cc (rw q at b)

regular_order :
    (op : BinaryOpcode) (order : ℕ)
    → op ≡ BinaryOpcode.power
    → is_regular op order ≡ true
    → order ≡ 0
regular_order op order q b = let c = rw q at b in ground arith

module _ (d : Doubles) (ids : DerivIds) (ctx : Context d) (laws : Laws d) (more : DerivativeLaws d)
    (id : ℤ) where
  open d use {Double}

  -- What the calls on the arguments of the node `e` do.
  abbrev pub Calls : (DerivState Double → ℕ → TreeOutcome (ℕ × DerivState Double)) → ℕ → ℕ → Type 0
  Calls rec depth e =
      (u : DerivState Double) (a : ℕ) (y : Double)
      → a < e
      → derivative d ids id depth u.tree ctx a ≡ ok y
      → Ready d ids ctx u
      → Derives d ids ctx u.tree (rec u a) y

  module _ (rec : DerivState Double → ℕ → TreeOutcome (ℕ × DerivState Double)) (depth : ℕ)
      (s : DerivState Double) (e : ℕ) (z : Double) (calls : Calls rec depth e)
      (ready : Ready d ids ctx s) where
    abbrev Known : Node → Type 0
    Known n =
        derivative_node d ids id n (eval d s.tree ctx) (derivative d ids id depth s.tree ctx) ≡ ok z

    abbrev Computes : Node → Type 0
    Computes n =
        node_at s.tree.node_list e ≡ some n
        → Known n
        → Derives d ids ctx s.tree (compute_derivative d ids rec s e id n) z

    argument :
        (a : ℕ) (v : Double)
        → a < e
        → e < length s.tree.node_list
        → eval d s.tree ctx a ≡ ok v
        → Has d ctx s.tree a v
    argument a v lt le h = (omega arith, h)

    -- The values of the node itself.
    own_power :
        (k : BinaryKey) (v1 v2 : Double)
        → is_regular k.op_code k.power_deriv_order ≡ true
        → k.op_code ≡ BinaryOpcode.power
        → node_at s.tree.node_list e ≡ some (binary k)
        → eval d s.tree ctx k.arg1 ≡ ok v1
        → eval d s.tree ctx k.arg2 ≡ ok v2
        → (k.power_deriv_order ≡ 0) × (eval d s.tree ctx e ≡ ok (d.pow v1 v2))
    unfolding eval_node eval_binary
    own_power k v1 v2 b q at e1 e2 = (
      regular_order k.op_code k.power_deriv_order q b,
      eval_node_eq d s.tree ctx e (binary k) ready.in_order.shared at ∙ rw (e1, e2, q) refl,
    )

    own_trinary :
        (k : TrinaryKey) (v1 v2 v3 w : Double)
        → node_at s.tree.node_list e ≡ some (trinary k)
        → eval d s.tree ctx k.arg1 ≡ ok v1
        → eval d s.tree ctx k.arg2 ≡ ok v2
        → eval d s.tree ctx k.arg3 ≡ ok v3
        → eval_trinary d v1 k.op_code v2 v3 ≡ ok w
        → eval d s.tree ctx e ≡ ok w
    unfolding eval_node
    own_trinary k v1 v2 v3 w at e1 e2 e3 h =
        eval_node_eq d s.tree ctx e (trinary k) ready.in_order.shared at ∙ rw (e1, e2, e3) h

    variable-Derives : (k : VariableKey) (ty : SymbolType) → Computes (variable k ty)
    unfolding derivative_node compute_derivative
    variable-Derives k ty at h = elim (Bool-cases (is_derivable ty)) [
      | inr b ↦ absurd (cc (rw b at h))
      | inl b ↦
          let r = ids.get_deriv_id k.symb_id k.lag in
          let (own, e1, h1) = >>=-eq-ok (known_id r) _ (rw b at h) in
          let e2 = known_id-eq r own e1 in
          elim (Bool-cases (eqb_ℤ id own)) [
            | inl c ↦
                let q : d.of_int 1 ≡ z = ok-injective (rw c at h1) in
                rw (b, e2, c)
                  (returned d ids ctx s s.tree.one_node z ready (
                    subst (Has d ctx s.tree s.tree.one_node) q (one_Has d ctx laws ready.in_order)))
            | inr c ↦
                let q : d.of_int 0 ≡ z = ok-injective (rw c at h1) in
                rw (b, e2, c)
                  (returned d ids ctx s s.tree.zero_node z ready (
                    subst (Has d ctx s.tree s.tree.zero_node) q
                      (zero_Has d ctx laws ready.in_order)))
          ]
    ]

    unary-Derives : (k : UnaryKey) → Computes (unary k)
    unfolding derivative_node compute_derivative eval_node
    unary-Derives k at h = elim (Bool-cases (is_covered k.op_code)) [
      | inr b ↦ absurd (cc (rw b at h))
      | inl b ↦
          let lt = ready.in_order.shared.closed e (unary k) at in
          let le = node_at-lt s.tree.node_list e at in
          let (v, e1, h1) = >>=-eq-ok (eval d s.tree ctx k.arg) _ (rw b at h) in
          let (dv, e2, h2) = >>=-eq-ok (derivative d ids id depth s.tree ctx k.arg) _ h1 in
          let (w, e3, h3) = >>=-eq-ok (eval_unary d k.op_code v) _ h2 in
          let own =
            eval_node_eq d s.tree ctx e (unary k) ready.in_order.shared at
            ∙ ap (λ x. x >>= λ y. eval_unary d k.op_code y) e1
            ∙ e3 in
          after d ids ctx _ (calls s k.arg dv lt e2 ready) (λ i u r l g.
            on_tree-Derives d ids ctx u _ z r (
              compose_unary-Reaches d laws more ctx u.tree r.in_order ids id e k i v dv
                (keep d ctx k.arg v l (argument k.arg v lt le e1)) g w z (covered-ne k.op_code b) e3
                (keep d ctx e w l (le, own)) h3))
    ]

    binary-Derives : (k : BinaryKey) → Computes (binary k)
    unfolding derivative_node compute_derivative
    binary-Derives k at h = elim (Bool-cases (is_regular k.op_code k.power_deriv_order)) [
      | inr b ↦ absurd (cc (rw b at h))
      | inl b ↦
          let (lt1, lt2) = ready.in_order.shared.closed e (binary k) at in
          let le = node_at-lt s.tree.node_list e at in
          let (v1, e1, h1) = >>=-eq-ok (eval d s.tree ctx k.arg1) _ (rw b at h) in
          let (dv1, e2, h2) = >>=-eq-ok (derivative d ids id depth s.tree ctx k.arg1) _ h1 in
          let (v2, e3, h3) = >>=-eq-ok (eval d s.tree ctx k.arg2) _ h2 in
          let (dv2, e4, h4) = >>=-eq-ok (derivative d ids id depth s.tree ctx k.arg2) _ h3 in
          after d ids ctx _ (calls s k.arg1 dv1 lt1 e2 ready) (λ i1 u1 r1 l1 g1.
            after d ids ctx _
              (calls u1 k.arg2 dv2 lt2
                (derivative_mono d ids id depth depth s.tree u1.tree ctx k.arg2 dv2 (omega arith)
                  l1.extends e4)
                r1)
              (λ i2 u2 r2 l2 g2.
                let l = Later-trans d l1 l2 in
                on_tree-Derives d ids ctx u2 _ z r2 (
                  compose_binary-Reaches d laws more ctx u2.tree r2.in_order e k i1 i2 v1 v2 dv1 dv2
                    (keep d ctx k.arg1 v1 l (argument k.arg1 v1 lt1 le e1))
                    (keep d ctx k.arg2 v2 l (argument k.arg2 v2 lt2 le e3))
                    (keep d ctx i1 dv1 l2 g1) g2 z
                    (λ q.
                      let (order, own) = own_power k v1 v2 b q at e1 e3 in
                      (order, keep d ctx e (d.pow v1 v2) l (le, own)))
                    h4)))
    ]

    trinary-Derives : (k : TrinaryKey) → Computes (trinary k)
    unfolding derivative_node compute_derivative eval_node
    trinary-Derives k at h =
        let (lt1, lt2, lt3) = ready.in_order.shared.closed e (trinary k) at in
        let le = node_at-lt s.tree.node_list e at in
        let (v1, e1, h1) = >>=-eq-ok (eval d s.tree ctx k.arg1) _ h in
        let (dv1, e2, h2) = >>=-eq-ok (derivative d ids id depth s.tree ctx k.arg1) _ h1 in
        let (v2, e3, h3) = >>=-eq-ok (eval d s.tree ctx k.arg2) _ h2 in
        let (dv2, e4, h4) = >>=-eq-ok (derivative d ids id depth s.tree ctx k.arg2) _ h3 in
        let (v3, e5, h5) = >>=-eq-ok (eval d s.tree ctx k.arg3) _ h4 in
        let (dv3, e6, h6) = >>=-eq-ok (derivative d ids id depth s.tree ctx k.arg3) _ h5 in
        let (w, e7, h7) = >>=-eq-ok (eval_trinary d v1 k.op_code v2 v3) _ h6 in
        let own = own_trinary k v1 v2 v3 w at e1 e3 e5 e7 in
        after d ids ctx _ (calls s k.arg1 dv1 lt1 e2 ready) (λ i1 u1 r1 l1 g1.
          after d ids ctx _
            (calls u1 k.arg2 dv2 lt2
              (derivative_mono d ids id depth depth s.tree u1.tree ctx k.arg2 dv2 (omega arith)
                l1.extends e4)
              r1)
            (λ i2 u2 r2 l2 g2.
              let m2 = Later-trans d l1 l2 in
              after d ids ctx _
                (calls u2 k.arg3 dv3 lt3
                  (derivative_mono d ids id depth depth s.tree u2.tree ctx k.arg3 dv3 (omega arith)
                    m2.extends e6)
                  r2)
                (λ i3 u3 r3 l3 g3.
                  let l = Later-trans d m2 l3 in
                  on_tree-Derives d ids ctx u3 _ z r3 (
                    compose_trinary-Reaches d laws more ctx u3.tree r3.in_order e k i1 i2 i3 v1 v2
                      v3 dv1 dv2 dv3 w z (keep d ctx k.arg1 v1 l (argument k.arg1 v1 lt1 le e1))
                      (keep d ctx k.arg2 v2 l (argument k.arg2 v2 lt2 le e3))
                      (keep d ctx k.arg3 v3 l (argument k.arg3 v3 lt3 le e5))
                      (keep d ctx i1 dv1 (Later-trans d l2 l3) g1) (keep d ctx i2 dv2 l3 g2) g3 e7
                      (keep d ctx e w l (le, own)) h7))))

    pub node-Derives : (n : Node) → Computes n
    unfolding derivative_node compute_derivative
    node-Derives (num_const c) at h = returned d ids ctx s s.tree.zero_node z ready (
        subst (Has d ctx s.tree s.tree.zero_node) (ok-injective h)
          (zero_Has d ctx laws ready.in_order))
    node-Derives (variable k ty) at h = variable-Derives k ty at h
    node-Derives (unary k) at h = unary-Derives k at h
    node-Derives (binary k) at h = binary-Derives k at h
    node-Derives (trinary k) at h = trinary-Derives k at h
    node-Derives (external k) at h = absurd (cc h)
    node-Derives (first_deriv k) at h = absurd (cc h)
    node-Derives (second_deriv k) at h = absurd (cc h)
