-- ===== src/Derivation/Binary.antt =====
-- preprocessor/ExprNode.cc: BinaryOpNode::composeDerivatives against the textbook derivatives.
use dynare.Prelude.{
  ℕ, ◌≡◌, refl, sym, ap, ◌∙◌, inl, inr, true, false, ok, arith, Bool-cases, ok-injective, ◌==◌,
}
use dynare.DataTree.Doubles.{Doubles}
use dynare.DataTree.Laws.{Laws}
use dynare.DataTree.Nodes.{BinaryOpcode, BinaryKey, Tree}
use dynare.DataTree.Eval.{Context, eval_binary, power_deriv_loop}
use dynare.DataTree.Insert.{is_num_const}
use dynare.DataTree.Build.{add_greater, add_power_deriv}
use dynare.DataTree.Values.{value_zero}
use dynare.Derivation.Compose.{
  binary_rule, compose_binary, general_divide_rule, general_power_rule, constant_power_rule,
  next_power_rule, choose_rule,
}
use dynare.Derivation.Laws.{DerivativeLaws}
use dynare.Derivation.Tangent.{tangent_binary, tangent_max, tangent_test}
use dynare.Derivation.Reaches.{
  InOrder, Later-trans, Has, keep, Reaches, bind, as_value, as_call, found, zero_Has, one_Has,
  natural_logarithm, sum, subtraction, product, ratio, raised, combines,
}

module _ (d : Doubles) (laws : Laws d) (more : DerivativeLaws d) (ctx : Context d) where
  open d use {Double, of_int, eq, lt, negate, plus, minus, times, divide, pow, log}

  module _ (t : Tree Double) (o : InOrder d t) (e : ℕ) (k : BinaryKey) (darg1 darg2 : ℕ)
      (v1 v2 dv1 dv2 : Double) (h1 : Has d ctx t k.arg1 v1) (h2 : Has d ctx t k.arg2 v2)
      (hd1 : Has d ctx t darg1 dv1) (hd2 : Has d ctx t darg2 dv2) where
    times_rule :
        Reaches d ctx t
          (binary_rule d BinaryOpcode.times t e k darg1 darg2)
          (plus (times dv1 v2) (times v1 dv2))
    unfolding binary_rule
    times_rule = bind d ctx _ (product d ctx laws o darg1 k.arg2 hd1 h2) (λ i1 u1 l1 g1.
        bind d ctx _
          (product d ctx laws l1.in_order darg2 k.arg1 (keep d ctx darg2 dv2 l1 hd2)
            (keep d ctx k.arg1 v1 l1 h1))
          (λ i2 u2 l2 g2.
            as_value d ctx _ (ap (plus (times dv1 v2)) (laws.times_comm dv2 v1))
              (sum d ctx laws l2.in_order i1 i2 (keep d ctx i1 _ l2 g1) g2)))

    -- The quotient by a constant.
    constant_denominator :
        dv2 ≡ of_int 0
        → eq v2 (of_int 0) ≡ false
        → divide dv1 v2 ≡ divide (minus (times dv1 v2) (times v1 dv2)) (times v2 v2)
    constant_denominator q ne =
        let e1 = more.divide_common dv1 v2 ne in
        cc (laws.times_zero v1, laws.minus_zero (times dv1 v2))

    general_divide_rule_lem :
        eq v2 (of_int 0) ≡ false
        → Reaches d ctx t
            (general_divide_rule d t k darg1 darg2)
            (divide (minus (times dv1 v2) (times v1 dv2)) (times v2 v2))
    unfolding general_divide_rule
    general_divide_rule_lem ne =
        bind d ctx _ (product d ctx laws o darg1 k.arg2 hd1 h2) (λ i1 u1 l1 g1.
          bind d ctx _
            (product d ctx laws l1.in_order darg2 k.arg1 (keep d ctx darg2 dv2 l1 hd2)
              (keep d ctx k.arg1 v1 l1 h1))
            (λ i2 u2 l2 g2.
              bind d ctx _ (subtraction d ctx laws l2.in_order i1 i2 (keep d ctx i1 _ l2 g1) g2)
                (λ i3 u3 l3 g3.
                  let g = keep d ctx k.arg2 v2 (Later-trans d (Later-trans d l1 l2) l3) h2 in
                  bind d ctx _ (product d ctx laws l3.in_order k.arg2 k.arg2 g g) (λ i4 u4 l4 g4.
                    as_value d ctx _
                      (ap (λ x. divide (minus (times dv1 v2) x) (times v2 v2))
                        (laws.times_comm dv2 v1))
                      (ratio d ctx laws l4.in_order i3 i4 (keep d ctx i3 _ l4 g3) g4
                        (more.square_ne_zero v2 ne))))))

    divide_rule :
        eq v2 (of_int 0) ≡ false
        → Reaches d ctx t
            (binary_rule d BinaryOpcode.divide t e k darg1 darg2)
            (divide (minus (times dv1 v2) (times v1 dv2)) (times v2 v2))
    unfolding binary_rule
    divide_rule ne = elim (Bool-cases (darg2 == t.zero_node)) [
      | inl z ↦
          let q = value_zero d laws t o.shared o.predefined ctx darg2 z hd2.1 in
          as_call d ctx _
            (as_value d ctx _ (constant_denominator q ne)
              (ratio d ctx laws o darg1 k.arg2 hd1 h2 ne))
            (rw z refl)
      | inr z ↦ as_call d ctx _ (general_divide_rule_lem ne) (rw z refl)
    ]

    module _ (p : lt (of_int 0) v1 ≡ true) where
      -- The textbook derivative of a power.
      abbrev full : Double
      full = times (plus (times dv2 (log v1)) (divide (times dv1 v2) v1)) (pow v1 v2)

      -- If the exponent is constant, it is dv1 * v2 * v1^(v2 - 1).
      constant_exponent :
          dv2 ≡ of_int 0 → times dv1 (times v2 (pow v1 (minus v2 (of_int 1)))) ≡ full
      constant_exponent q =
          let x = pow v1 v2 in
          let y = times dv1 v2 in
          let l : times dv1 (times v2 (pow v1 (minus v2 (of_int 1)))) ≡ divide (times x y) v1 = cc (
            more.pow_pred v1 v2 p,
            more.times_divide v2 x v1,
            more.times_divide dv1 (times v2 x) v1,
            more.times_assoc dv1 v2 x,
            laws.times_comm x y,
          ) in
          let r : full ≡ divide (times x y) v1 = cc (
            laws.times_comm (of_int 0) (log v1),
            laws.times_zero (log v1),
            laws.plus_comm (of_int 0) (divide y v1),
            laws.plus_zero (divide y v1),
            laws.times_comm (divide y v1) x,
            more.times_divide x y v1,
          ) in
          l ∙ sym r

      -- If the base is, too, it is 0.
      constant_power : dv1 ≡ of_int 0 → dv2 ≡ of_int 0 → of_int 0 ≡ full
      constant_power q1 q2 =
          let y = times v2 (pow v1 (minus v2 (of_int 1))) in
          let l : of_int 0 ≡ times dv1 y = cc (laws.times_comm (of_int 0) y, laws.times_zero y) in
          l ∙ constant_exponent q2

      constant_power_rule_lem :
          dv2 ≡ of_int 0 → Reaches d ctx t (constant_power_rule d t k darg1) full
      unfolding constant_power_rule
      constant_power_rule_lem q =
          bind d ctx _ (subtraction d ctx laws o k.arg2 t.one_node h2 (one_Has d ctx laws o))
            (λ i1 u1 l1 g1.
              bind d ctx _
                (raised d ctx laws l1.in_order k.arg1 i1 (keep d ctx k.arg1 v1 l1 h1) g1
                  (more.positive_ne_zero v1 p))
                (λ i2 u2 l2 g2.
                  let l = Later-trans d l1 l2 in
                  bind d ctx _
                    (product d ctx laws l2.in_order k.arg2 i2 (keep d ctx k.arg2 v2 l h2) g2)
                    (λ i3 u3 l3 g3. as_value d ctx _ (constant_exponent q) (
                      product d ctx laws l3.in_order darg1 i3
                        (keep d ctx darg1 dv1 (Later-trans d l l3) hd1) g3))))

      next_power_rule_lem :
          k.power_deriv_order ≡ 0
          → lt (d.fabs v1) d.near_zero ≡ false
          → dv2 ≡ of_int 0
          → Reaches d ctx t (next_power_rule d t k darg1) full
      unfolding next_power_rule add_power_deriv eval_binary power_deriv_loop
      next_power_rule_lem z far q =
          let x = pow v1 (minus v2 (of_int 1)) in
          let e1 = laws.times_comm x v2 in
          rw z (
            bind d ctx _
              (combines d ctx laws o k.arg1 k.arg2 h1 h2 BinaryOpcode.power_deriv 1 (times x v2)
                (rw far refl))
              (λ i1 u1 l1 g1.
                as_value d ctx _ (ap (times dv1) e1 ∙ constant_exponent q)
                  (product d ctx laws l1.in_order darg1 i1 (keep d ctx darg1 dv1 l1 hd1) g1)))

      general_power_rule_lem :
          Has d ctx t e (pow v1 v2) → Reaches d ctx t (general_power_rule d t e k darg1 darg2) full
      unfolding general_power_rule
      general_power_rule_lem he =
          let ne = more.positive_ne_zero v1 p in
          bind d ctx _ (natural_logarithm d ctx laws o k.arg1 h1 ne) (λ i1 u1 l1 g1.
            bind d ctx _ (product d ctx laws l1.in_order darg2 i1 (keep d ctx darg2 dv2 l1 hd2) g1)
              (λ i2 u2 l2 g2.
                let m2 = Later-trans d l1 l2 in
                bind d ctx _
                  (product d ctx laws l2.in_order darg1 k.arg2 (keep d ctx darg1 dv1 m2 hd1)
                    (keep d ctx k.arg2 v2 m2 h2))
                  (λ i3 u3 l3 g3.
                    let m3 = Later-trans d m2 l3 in
                    bind d ctx _
                      (ratio d ctx laws l3.in_order i3 k.arg1 g3 (keep d ctx k.arg1 v1 m3 h1) ne)
                      (λ i4 u4 l4 g4.
                        bind d ctx _
                          (sum d ctx laws l4.in_order i2 i4
                            (keep d ctx i2 _ (Later-trans d l3 l4) g2) g4)
                          (λ i5 u5 l5 g5.
                            let m5 = Later-trans d (Later-trans d m3 l4) l5 in
                            product d ctx laws l5.in_order i5 e g5 (keep d ctx e _ m5 he))))))

      power_rule :
          k.power_deriv_order ≡ 0
          → lt (d.fabs v1) d.near_zero ≡ false
          → Has d ctx t e (pow v1 v2)
          → Reaches d ctx t (binary_rule d BinaryOpcode.power t e k darg1 darg2) full
      unfolding binary_rule
      power_rule z far he = elim (Bool-cases (darg2 == t.zero_node)) [
        | inr g ↦ as_call d ctx _ (general_power_rule_lem he) (rw g refl)
        | inl g ↦
            let q = value_zero d laws t o.shared o.predefined ctx darg2 g hd2.1 in
            elim (Bool-cases (darg1 == t.zero_node)) [
              | inl f ↦
                  let q1 = value_zero d laws t o.shared o.predefined ctx darg1 f hd1.1 in
                  as_call d ctx _
                    (as_value d ctx _ (constant_power q1 q)
                      (found d ctx t.zero_node o (zero_Has d ctx laws o)))
                    (rw (g, f) refl)
              | inr f ↦ elim (Bool-cases (is_num_const t k.arg2)) [
                | inl c ↦ as_call d ctx _ (constant_power_rule_lem q) (rw (g, f, c) refl)
                | inr c ↦ as_call d ctx _ (next_power_rule_lem z far q) (rw (g, f, c) refl)
              ]
            ]
      ]

    -- The rules for the larger and the smaller of the arguments, where 1 or 0 is the value of the test.
    choose_rule_lem :
        (a b : ℕ) (va vb c z : Double)
        → Has d ctx t a va
        → Has d ctx t b vb
        → eval_binary d va BinaryOpcode.greater vb 0 ≡ ok c
        → plus (times (minus (of_int 1) c) dv2) (times c dv1) ≡ z
        → Reaches d ctx t (choose_rule d t a b darg1 darg2) z
    unfolding add_greater
    choose_rule_lem a b va vb c z ga gb f q =
        bind d ctx _ (combines d ctx laws o a b ga gb BinaryOpcode.greater 0 c f) (λ i1 u1 l1 g1.
          bind d ctx _ (product d ctx laws l1.in_order i1 darg1 g1 (keep d ctx darg1 dv1 l1 hd1))
            (λ i2 u2 l2 g2.
              bind d ctx _
                (subtraction d ctx laws l2.in_order u2.one_node i1 (one_Has d ctx laws l2.in_order)
                  (keep d ctx i1 _ l2 g1))
                (λ i3 u3 l3 g3.
                  bind d ctx _
                    (product d ctx laws l3.in_order i3 darg2 g3
                      (keep d ctx darg2 dv2 (Later-trans d (Later-trans d l1 l2) l3) hd2))
                    (λ i4 u4 l4 g4. as_value d ctx z q (
                      sum d ctx laws l4.in_order i4 i2 g4
                        (keep d ctx i2 _ (Later-trans d l3 l4) g2))))))

    chosen_first :
        (v w : Double) → plus (times (minus (of_int 1) (of_int 1)) w) (times (of_int 1) v) ≡ v
    chosen_first v w = cc (
      laws.minus_self (of_int 1),
      laws.times_comm (of_int 0) w,
      laws.times_zero w,
      laws.times_comm (of_int 1) v,
      laws.times_one v,
      laws.plus_comm (of_int 0) v,
      laws.plus_zero v,
    )

    chosen_second :
        (v w : Double) → plus (times (minus (of_int 1) (of_int 0)) w) (times (of_int 0) v) ≡ w
    chosen_second v w = cc (
      laws.minus_zero (of_int 1),
      laws.times_comm (of_int 1) w,
      laws.times_one w,
      laws.times_comm (of_int 0) v,
      laws.times_zero v,
      laws.plus_zero w,
    )

    larger_rule :
        (a b : ℕ) (va vb z : Double)
        → Has d ctx t a va
        → Has d ctx t b vb
        → tangent_max d va vb dv1 dv2 ≡ ok z
        → Reaches d ctx t (choose_rule d t a b darg1 darg2) z
    unfolding eval_binary
    larger_rule a b va vb z ga gb h = elim (Bool-cases (lt va vb)) [
      | inl p ↦
          let n = more.lt_asym va vb p in
          let q : dv2 ≡ z = ground arith in
          choose_rule_lem a b va vb (of_int 0) z ga gb (rw n refl) (chosen_second dv1 dv2 ∙ q)
      | inr p ↦ elim (Bool-cases (lt vb va)) [
        | inl n ↦
            let q : dv1 ≡ z = ground arith in
            choose_rule_lem a b va vb (of_int 1) z ga gb (rw n refl) (chosen_first dv1 dv2 ∙ q)
        | inr n ↦ ground arith
      ]
    ]

    -- The derivative of a comparison.
    zero_rule : (z : Double) → tangent_test d v1 v2 ≡ ok z → Reaches d ctx t (ok (t.zero_node, t)) z
    zero_rule z h =
        let q : of_int 0 ≡ z = ground arith in
        as_value d ctx z q (found d ctx t.zero_node o (zero_Has d ctx laws o))

    abbrev Derives : BinaryOpcode → Type 0
    Derives op =
        (w z : Double)
        → (op ≡ BinaryOpcode.power → (k.power_deriv_order ≡ 0) × Has d ctx t e (pow v1 v2))
        → tangent_binary d op v1 v2 dv1 dv2 ≡ ok z
        → Reaches d ctx t (binary_rule d op t e k darg1 darg2) z

    any_rule : (op : BinaryOpcode) → Derives op
    unfolding tangent_binary binary_rule
    any_rule BinaryOpcode.plus w z p h =
        as_value d ctx z (ok-injective h) (sum d ctx laws o darg1 darg2 hd1 hd2)
    any_rule BinaryOpcode.minus w z p h =
        as_value d ctx z (ok-injective h) (subtraction d ctx laws o darg1 darg2 hd1 hd2)
    any_rule BinaryOpcode.times w z p h = as_value d ctx z (ok-injective h) times_rule
    any_rule BinaryOpcode.divide w z p h = elim (Bool-cases (eq v2 (of_int 0))) [
      | inl b ↦ ground arith
      | inr b ↦
          let q : divide (minus (times dv1 v2) (times v1 dv2)) (times v2 v2) ≡ z = ground arith in
          as_value d ctx z q (divide_rule b)
    ]
    any_rule BinaryOpcode.power w z p h = elim (Bool-cases (lt (of_int 0) v1)) [
      | inr b ↦ ground arith
      | inl b ↦ elim (Bool-cases (lt (d.fabs v1) d.near_zero)) [
        | inl c ↦ ground arith
        | inr c ↦
            let (g, he) = p refl in
            let q : full b ≡ z = ground arith in as_value d ctx z q (power_rule b g c he)
      ]
    ]
    any_rule BinaryOpcode.power_deriv w z p h = cc
    any_rule BinaryOpcode.equal w z p h =
        as_value d ctx z (ok-injective h) (subtraction d ctx laws o darg1 darg2 hd1 hd2)
    any_rule BinaryOpcode.max w z p h = larger_rule k.arg1 k.arg2 v1 v2 z h1 h2 h
    any_rule BinaryOpcode.min w z p h = larger_rule k.arg2 k.arg1 v2 v1 z h2 h1 h
    any_rule BinaryOpcode.less w z p h = zero_rule z h
    any_rule BinaryOpcode.greater w z p h = zero_rule z h
    any_rule BinaryOpcode.less_equal w z p h = zero_rule z h
    any_rule BinaryOpcode.greater_equal w z p h = zero_rule z h
    any_rule BinaryOpcode.equal_equal w z p h = zero_rule z h
    any_rule BinaryOpcode.different w z p h = zero_rule z h

    -- In exact arithmetic, on a tree in order: from nodes with the values of the derivatives of the
    -- arguments, `composeDerivatives` of a binary operation returns a node whose value is the textbook
    -- derivative of the operation, wherever that is given; the tree stays in order and keeps its nodes
    -- and their values. For a power, its order of derivation is 0 and the node itself has its value.
    pub compose_binary-Reaches :
        (z : Double)
        → (k.op_code ≡ BinaryOpcode.power → (k.power_deriv_order ≡ 0) × Has d ctx t e (pow v1 v2))
        → tangent_binary d k.op_code v1 v2 dv1 dv2 ≡ ok z
        → Reaches d ctx t (compose_binary d t e k darg1 darg2) z
    unfolding compose_binary
    compose_binary-Reaches z = any_rule k.op_code z z
