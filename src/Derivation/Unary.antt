-- ===== src/Derivation/Unary.antt =====
-- preprocessor/ExprNode.cc: UnaryOpNode::composeDerivatives against the textbook derivatives.
use dynare.Prelude.{ℕ, ◌≡◌, ◌≢◌, refl, ◌∙◌, inl, inr, false, ok, arith, Bool-cases, >>=-eq-ok, ℤ}
use dynare.DataTree.Doubles.{Doubles}
use dynare.DataTree.Laws.{Laws}
use dynare.DataTree.Nodes.{UnaryOpcode, UnaryKey, Tree}
use dynare.DataTree.Eval.{Context, eval_unary}
use dynare.DataTree.Values.{quotient}
use dynare.Derivation.DerivIds.{DerivIds}
use dynare.Derivation.Compose.{unary_rule, compose_unary}
use dynare.Derivation.Laws.{DerivativeLaws}
use dynare.Derivation.Tangent.{tangent_unary}
use dynare.Derivation.Reaches.{
  InOrder, Later-trans, Has, keep, Reaches, bind, as_value, found, zero_Has, one_Has, negates,
  exponential, cosine, sine, hyperbolic_cosine, hyperbolic_sine, square_root, signs,
  decimal_logarithm, sum, subtraction, product, ratio, raised, two_Has, pi_Has,
}

module _ (d : Doubles) (laws : Laws d) (more : DerivativeLaws d) (ctx : Context d) where
  open d use {Double, of_int, eq, lt, negate, plus, minus, times, divide}

  -- A quotient that exists.
  pub quotient_value :
      (v w z : Double) → quotient d v w ≡ ok z → (eq w (of_int 0) ≡ false) × (divide v w ≡ z)
  quotient_value v w z h = ground arith

  module _ (t : Tree Double) (o : InOrder d t) (ids : DerivIds) (id : ℤ) (e : ℕ) (k : UnaryKey)
      (darg : ℕ) (v dv : Double) (ha : Has d ctx t k.arg v) (hd : Has d ctx t darg dv) where
    -- The rule of the operation builds a node with the value of the derivative.
    abbrev Derives : UnaryOpcode → Type 0
    Derives op =
        (w z : Double)
        → eval_unary d op v ≡ ok w
        → Has d ctx t e w
        → tangent_unary d op v dv ≡ ok z
        → Reaches d ctx t (unary_rule d op t ids e k darg id) z

    uminus_rule : Derives UnaryOpcode.uminus
    unfolding unary_rule tangent_unary
    uminus_rule w z ew he h = as_value d ctx z (cc) (negates d ctx laws o darg hd)

    exp_rule : Derives UnaryOpcode.exp
    unfolding unary_rule tangent_unary eval_unary
    exp_rule w z ew he h =
        as_value d ctx z (cc (laws.times_comm dv w)) (product d ctx laws o darg e hd he)

    log_rule : Derives UnaryOpcode.log
    unfolding unary_rule tangent_unary
    log_rule w z ew he h =
        let (ne, q) = quotient_value dv v z h in
        as_value d ctx z q (ratio d ctx laws o darg k.arg hd ha ne)

    log10_rule : Derives UnaryOpcode.log10
    unfolding unary_rule tangent_unary
    log10_rule w z ew he h =
        let (ne, q) : (eq v (of_int 0) ≡ false) × (divide dv (times v (d.log (of_int 10))) ≡ z) =
          ground arith in
        bind d ctx _ (exponential d ctx laws o t.one_node (one_Has d ctx laws o)) (λ i1 u1 l1 h1.
          bind d ctx _ (decimal_logarithm d ctx laws l1.in_order i1 h1 more.exp_one_ne_zero)
            (λ i2 u2 l2 h2.
              let l = Later-trans d l1 l2 in
              bind d ctx _
                (ratio d ctx laws l2.in_order darg k.arg (keep d ctx darg dv l hd)
                  (keep d ctx k.arg v l ha) ne)
                (λ i3 u3 l3 h3.
                  as_value d ctx z (more.log10_e v dv ∙ q)
                    (product d ctx laws l3.in_order i2 i3 (keep d ctx i2 _ l3 h2) h3))))

    cos_rule : Derives UnaryOpcode.cos
    unfolding unary_rule tangent_unary
    cos_rule w z ew he h = bind d ctx _ (sine d ctx laws o k.arg ha) (λ i1 u1 l1 h1.
        bind d ctx _ (negates d ctx laws l1.in_order i1 h1) (λ i2 u2 l2 h2.
          as_value d ctx z (cc (more.times_negate dv (d.sin v), laws.times_comm dv (d.sin v))) (
            product d ctx laws l2.in_order darg i2 (keep d ctx darg dv (Later-trans d l1 l2) hd)
              h2)))

    -- A function applied, and then a product.
    sin_rule : Derives UnaryOpcode.sin
    unfolding unary_rule tangent_unary
    sin_rule w z ew he h = bind d ctx _ (cosine d ctx laws o k.arg ha) (λ i1 u1 l1 h1.
        as_value d ctx z (cc (laws.times_comm dv (d.cos v)))
          (product d ctx laws l1.in_order darg i1 (keep d ctx darg dv l1 hd) h1))

    cosh_rule : Derives UnaryOpcode.cosh
    unfolding unary_rule tangent_unary
    cosh_rule w z ew he h = bind d ctx _ (hyperbolic_sine d ctx laws o k.arg ha) (λ i1 u1 l1 h1.
        as_value d ctx z (cc (laws.times_comm dv (d.sinh v)))
          (product d ctx laws l1.in_order darg i1 (keep d ctx darg dv l1 hd) h1))

    sinh_rule : Derives UnaryOpcode.sinh
    unfolding unary_rule tangent_unary
    sinh_rule w z ew he h = bind d ctx _ (hyperbolic_cosine d ctx laws o k.arg ha) (λ i1 u1 l1 h1.
        as_value d ctx z (cc (laws.times_comm dv (d.cosh v)))
          (product d ctx laws l1.in_order darg i1 (keep d ctx darg dv l1 hd) h1))

    tan_rule : Derives UnaryOpcode.tan
    unfolding unary_rule tangent_unary eval_unary
    tan_rule w z ew he h =
        let s = times w w in
        bind d ctx _ (product d ctx laws o e e he he) (λ i1 u1 l1 h1.
          bind d ctx _
            (sum d ctx laws l1.in_order i1 u1.one_node h1 (one_Has d ctx laws l1.in_order))
            (λ i2 u2 l2 h2.
              as_value d ctx z
                (cc (laws.plus_comm s (of_int 1), laws.times_comm dv (plus (of_int 1) s)))
                (product d ctx laws l2.in_order darg i2
                  (keep d ctx darg dv (Later-trans d l1 l2) hd) h2)))

    tanh_rule : Derives UnaryOpcode.tanh
    unfolding unary_rule tangent_unary eval_unary
    tanh_rule w z ew he h = bind d ctx _ (product d ctx laws o e e he he) (λ i1 u1 l1 h1.
        bind d ctx _
          (subtraction d ctx laws l1.in_order u1.one_node i1 (one_Has d ctx laws l1.in_order) h1)
          (λ i2 u2 l2 h2.
            as_value d ctx z (cc (laws.times_comm dv (minus (of_int 1) (times w w)))) (
              product d ctx laws l2.in_order darg i2 (keep d ctx darg dv (Later-trans d l1 l2) hd)
                h2)))

    -- A function of the node itself, and then a quotient.
    acos_rule : Derives UnaryOpcode.acos
    unfolding unary_rule tangent_unary eval_unary
    acos_rule w z ew he h =
        let s = d.sqrt (minus (of_int 1) (times v v)) in
        let (q, e1, e2) = >>=-eq-ok (quotient d dv s) _ h in
        let (ne, e3) = quotient_value dv s q e1 in
        let at : d.sin w ≡ s = cc (more.sin_acos v) in
        bind d ctx _ (as_value d ctx s at (sine d ctx laws o e he)) (λ i1 u1 l1 h1.
          bind d ctx _ (ratio d ctx laws l1.in_order darg i1 (keep d ctx darg dv l1 hd) h1 ne)
            (λ i2 u2 l2 h2. as_value d ctx z (cc) (negates d ctx laws l2.in_order i2 h2)))

    asin_rule : Derives UnaryOpcode.asin
    unfolding unary_rule tangent_unary eval_unary
    asin_rule w z ew he h =
        let s = d.sqrt (minus (of_int 1) (times v v)) in
        let (ne, q) = quotient_value dv s z h in
        let at : d.cos w ≡ s = cc (more.cos_asin v) in
        bind d ctx _ (as_value d ctx s at (cosine d ctx laws o e he)) (λ i1 u1 l1 h1.
          as_value d ctx z q
            (ratio d ctx laws l1.in_order darg i1 (keep d ctx darg dv l1 hd) h1 ne))

    acosh_rule : Derives UnaryOpcode.acosh
    unfolding unary_rule tangent_unary eval_unary
    acosh_rule w z ew he h =
        let s = d.sqrt (minus (times v v) (of_int 1)) in
        let (ne, q) = quotient_value dv s z h in
        let at : d.sinh w ≡ s = cc (more.sinh_acosh v) in
        bind d ctx _ (as_value d ctx s at (hyperbolic_sine d ctx laws o e he)) (λ i1 u1 l1 h1.
          as_value d ctx z q
            (ratio d ctx laws l1.in_order darg i1 (keep d ctx darg dv l1 hd) h1 ne))

    asinh_rule : Derives UnaryOpcode.asinh
    unfolding unary_rule tangent_unary eval_unary
    asinh_rule w z ew he h =
        let s = d.sqrt (plus (times v v) (of_int 1)) in
        let (ne, q) = quotient_value dv s z h in
        let at : d.cosh w ≡ s = cc (more.cosh_asinh v) in
        bind d ctx _ (as_value d ctx s at (hyperbolic_cosine d ctx laws o e he)) (λ i1 u1 l1 h1.
          as_value d ctx z q
            (ratio d ctx laws l1.in_order darg i1 (keep d ctx darg dv l1 hd) h1 ne))

    sqrt_rule : Derives UnaryOpcode.sqrt
    unfolding unary_rule tangent_unary eval_unary
    sqrt_rule w z ew he h =
        let s = times (of_int 2) (d.sqrt v) in
        let (ne, q) = quotient_value dv s z h in
        let at : plus w w ≡ s = cc (more.plus_self w) in
        bind d ctx _ (as_value d ctx s at (sum d ctx laws o e e he he)) (λ i1 u1 l1 h1.
          as_value d ctx z q
            (ratio d ctx laws l1.in_order darg i1 (keep d ctx darg dv l1 hd) h1 ne))

    -- The square of the argument, a sum, and then a quotient.
    atan_rule : Derives UnaryOpcode.atan
    unfolding unary_rule tangent_unary
    atan_rule w z ew he h =
        let (ne, q) = quotient_value dv (plus (of_int 1) (times v v)) z h in
        bind d ctx _ (product d ctx laws o k.arg k.arg ha ha) (λ i1 u1 l1 h1.
          bind d ctx _
            (sum d ctx laws l1.in_order u1.one_node i1 (one_Has d ctx laws l1.in_order) h1)
            (λ i2 u2 l2 h2. as_value d ctx z q (
              ratio d ctx laws l2.in_order darg i2 (keep d ctx darg dv (Later-trans d l1 l2) hd) h2
                ne)))

    abs_rule : Derives UnaryOpcode.abs
    unfolding unary_rule tangent_unary eval_unary
    abs_rule w z ew he h = elim (Bool-cases (lt (of_int 0) v)) [
      | inl p ↦ bind d ctx _ (signs d ctx laws o k.arg ha (of_int 1) (rw p refl)) (λ i1 u1 l1 h1.
          as_value d ctx z (laws.times_comm (of_int 1) dv ∙ laws.times_one dv ∙ ground arith)
            (product d ctx laws l1.in_order i1 darg h1 (keep d ctx darg dv l1 hd)))
      | inr p ↦ elim (Bool-cases (lt v (of_int 0))) [
        | inl n ↦
            bind d ctx _ (signs d ctx laws o k.arg ha (negate (of_int 1)) (rw (p, n) refl))
              (λ i1 u1 l1 h1.
                as_value d ctx z
                  (laws.times_comm (negate (of_int 1)) dv ∙ laws.times_minus_one dv ∙ ground arith)
                  (product d ctx laws l1.in_order i1 darg h1 (keep d ctx darg dv l1 hd)))
        | inr n ↦ ground arith
      ]
    ]

    sign_rule : Derives UnaryOpcode.sign
    unfolding unary_rule tangent_unary
    sign_rule w z ew he h =
        let q : of_int 0 ≡ z = ground arith in
        as_value d ctx z q (found d ctx t.zero_node o (zero_Has d ctx laws o))

    erf_rule : Derives UnaryOpcode.erf
    unfolding unary_rule tangent_unary
    erf_rule w z ew he h =
        let r = d.sqrt d.pi in
        let s = times v v in
        let (ne, q) : (eq v (of_int 0) ≡ false)
            × (times (times (divide (of_int 2) r) (d.exp (negate s))) dv ≡ z) =
          ground arith in
        bind d ctx _
          (as_value d ctx s (more.pow_two v)
            (raised d ctx laws o k.arg t.two_node ha (two_Has d ctx laws o more) ne))
          (λ i1 u1 l1 h1. bind d ctx _ (exponential d ctx laws l1.in_order i1 h1) (λ i2 u2 l2 h2.
            bind d ctx _
              (square_root d ctx laws l2.in_order u2.pi_node (pi_Has d ctx laws l2.in_order more))
              (λ i3 u3 l3 h3.
                bind d ctx _ (product d ctx laws l3.in_order i3 i2 h3 (keep d ctx i2 _ l3 h2))
                  (λ i4 u4 l4 h4.
                    bind d ctx _
                      (ratio d ctx laws l4.in_order u4.two_node i4
                        (two_Has d ctx laws l4.in_order more) h4 (more.root_pi_exp_ne_zero s))
                      (λ i5 u5 l5 h5.
                        let l =
                          Later-trans d (Later-trans d (Later-trans d (Later-trans d l1 l2) l3) l4)
                            l5 in
                        as_value d ctx z (cc (more.exp_negate (of_int 2) r s))
                          (product d ctx laws l5.in_order i5 darg h5 (keep d ctx darg dv l hd)))))))

    any_rule : (op : UnaryOpcode) → op ≢ UnaryOpcode.atanh → Derives op
    unfolding tangent_unary
    any_rule UnaryOpcode.uminus n = uminus_rule
    any_rule UnaryOpcode.exp n = exp_rule
    any_rule UnaryOpcode.log n = log_rule
    any_rule UnaryOpcode.log10 n = log10_rule
    any_rule UnaryOpcode.cos n = cos_rule
    any_rule UnaryOpcode.sin n = sin_rule
    any_rule UnaryOpcode.tan n = tan_rule
    any_rule UnaryOpcode.acos n = acos_rule
    any_rule UnaryOpcode.asin n = asin_rule
    any_rule UnaryOpcode.atan n = atan_rule
    any_rule UnaryOpcode.cosh n = cosh_rule
    any_rule UnaryOpcode.sinh n = sinh_rule
    any_rule UnaryOpcode.tanh n = tanh_rule
    any_rule UnaryOpcode.acosh n = acosh_rule
    any_rule UnaryOpcode.asinh n = asinh_rule
    any_rule UnaryOpcode.atanh n = absurd (n refl)
    any_rule UnaryOpcode.sqrt n = sqrt_rule
    any_rule UnaryOpcode.abs n = abs_rule
    any_rule UnaryOpcode.sign n = sign_rule
    any_rule UnaryOpcode.steady_state n = λ w z ew he h. cc
    any_rule UnaryOpcode.steady_state_param_deriv n = λ w z ew he h. cc
    any_rule UnaryOpcode.steady_state_param_2nd_deriv n = λ w z ew he h. cc
    any_rule UnaryOpcode.expectation n = λ w z ew he h. cc
    any_rule UnaryOpcode.erf n = erf_rule

    -- In exact arithmetic, on a tree in order: from a node `darg` with the value of the derivative of
    -- the argument, `composeDerivatives` of a unary operation other than ATANH returns a node whose
    -- value is the textbook derivative of the operation, wherever that is given; the tree stays in
    -- order and keeps its nodes and their values.
    pub compose_unary-Reaches :
        (w z : Double)
        → k.op_code ≢ UnaryOpcode.atanh
        → eval_unary d k.op_code v ≡ ok w
        → Has d ctx t e w
        → tangent_unary d k.op_code v dv ≡ ok z
        → Reaches d ctx t (compose_unary d t ids e k darg id) z
    unfolding compose_unary
    compose_unary-Reaches w z n = any_rule k.op_code n w z

    -- In exact arithmetic, on a tree in order: for ATANH, `composeDerivatives` returns a node whose value
    -- is the derivative of the argument times `1 - v²`, for the value `v` of the argument (and not the
    -- quotient by it, the derivative of ATANH).
    pub compose_unary-multiplies :
        k.op_code ≡ UnaryOpcode.atanh
        → Reaches d ctx t
            (compose_unary d t ids e k darg id)
            (times dv (minus (of_int 1) (times v v)))
    unfolding compose_unary unary_rule
    compose_unary-multiplies q = rw q (
        bind d ctx _ (product d ctx laws o k.arg k.arg ha ha) (λ i1 u1 l1 h1.
          bind d ctx _
            (subtraction d ctx laws l1.in_order u1.one_node i1 (one_Has d ctx laws l1.in_order) h1)
            (λ i2 u2 l2 h2.
              product d ctx laws l2.in_order darg i2 (keep d ctx darg dv (Later-trans d l1 l2) hd)
                h2)))
