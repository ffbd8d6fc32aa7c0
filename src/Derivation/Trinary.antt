-- ===== src/Derivation/Trinary.antt =====
-- preprocessor/ExprNode.cc: TrinaryOpNode::composeDerivatives against the textbook derivatives of the
-- normal distribution.
use dynare.Prelude.{ℕ, ◌≡◌, ◌≢◌, ap, ◌∙◌, inl, inr, true, false, ok, arith, Bool-cases}
use dynare.DataTree.Doubles.{Doubles}
use dynare.DataTree.Laws.{Laws}
use dynare.DataTree.Nodes.{TrinaryOpcode, TrinaryKey, Tree, normcdf, normpdf}
use dynare.DataTree.Eval.{Context, eval_trinary}
use dynare.Derivation.Compose.{trinary_rule, compose_trinary, normcdf_rest}
use dynare.Derivation.Laws.{DerivativeLaws}
use dynare.Derivation.Tangent.{tangent_trinary, standardized, density, shift}
use dynare.Derivation.Reaches.{
  InOrder, Later, Later-trans, Has, keep, Reaches, bind, as_value, negates, exponential,
  square_root, sum, subtraction, product, ratio, two_Has, pi_Has,
}

module _ (d : Doubles) (laws : Laws d) (more : DerivativeLaws d) (ctx : Context d) where
  open d use {Double, of_int, eq, negate, plus, minus, times, divide, exp, sqrt}

  zero_deviation :
      (op : TrinaryOpcode) (v1 v2 v3 dv1 dv2 dv3 z : Double)
      → eq v3 (of_int 0) ≡ true
      → tangent_trinary d op v1 v2 v3 dv1 dv2 dv3 ≢ ok z
  unfolding tangent_trinary
  zero_deviation normcdf v1 v2 v3 dv1 dv2 dv3 z n h = ground arith
  zero_deviation normpdf v1 v2 v3 dv1 dv2 dv3 z n h = ground arith

  module _ (t : Tree Double) (o : InOrder d t) (e : ℕ) (k : TrinaryKey) (darg1 darg2 darg3 : ℕ)
      (v1 v2 v3 dv1 dv2 dv3 : Double) (h1 : Has d ctx t k.arg1 v1) (h2 : Has d ctx t k.arg2 v2)
      (h3 : Has d ctx t k.arg3 v3) (hd1 : Has d ctx t darg1 dv1) (hd2 : Has d ctx t darg2 dv2)
      (hd3 : Has d ctx t darg3 dv3) (ne : eq v3 (of_int 0) ≡ false) where
    abbrev y : Double
    y = standardized d v1 v2 v3

    -- The two forms of the derivative of the distribution function.
    cdf_value :
        times
          (minus (minus (divide dv1 v3) (divide dv2 v3)) (times (divide y v3) dv3))
          (density d y)
        ≡ times (density d y) (divide (shift d y dv1 dv2 dv3) v3)
    cdf_value =
        let s = divide (shift d y dv1 dv2 dv3) v3 in
        let e1 : times (divide y v3) dv3 ≡ divide (times y dv3) v3 =
          cc (
            laws.times_comm (divide y v3) dv3,
            more.times_divide dv3 y v3,
            laws.times_comm dv3 y,
          ) in
        let e2 : minus (minus (divide dv1 v3) (divide dv2 v3)) (times (divide y v3) dv3) ≡ s =
          cc (more.divide_minus dv1 dv2 v3, more.divide_minus (minus dv1 dv2) (times y dv3) v3) in
        ap (λ x. times x (density d y)) e2 ∙ laws.times_comm s (density d y)

    normcdf_rest_lem :
        (u : Tree Double) (l : Later d t u) (i j : ℕ)
        → Has d ctx u i y
        → Has d ctx u j (density d y)
        → Reaches d ctx u
            (normcdf_rest d u k i j darg1 darg2 darg3)
            (times (density d y) (divide (shift d y dv1 dv2 dv3) v3))
    unfolding normcdf_rest
    normcdf_rest_lem u l i j hi hj =
        let n3 = keep d ctx k.arg3 v3 l h3 in
        bind d ctx _ (ratio d ctx laws l.in_order darg1 k.arg3 (keep d ctx darg1 dv1 l hd1) n3 ne)
          (λ i1 u1 l1 g1.
            bind d ctx _
              (ratio d ctx laws l1.in_order darg2 k.arg3
                (keep d ctx darg2 dv2 (Later-trans d l l1) hd2) (keep d ctx k.arg3 v3 l1 n3) ne)
              (λ i2 u2 l2 g2.
                bind d ctx _ (subtraction d ctx laws l2.in_order i1 i2 (keep d ctx i1 _ l2 g1) g2)
                  (λ i3 u3 l3 g3.
                    let m3 = Later-trans d (Later-trans d l1 l2) l3 in
                    bind d ctx _
                      (ratio d ctx laws l3.in_order i k.arg3 (keep d ctx i y m3 hi)
                        (keep d ctx k.arg3 v3 m3 n3) ne)
                      (λ i4 u4 l4 g4.
                        let m4 = Later-trans d m3 l4 in
                        bind d ctx _
                          (product d ctx laws l4.in_order i4 darg3 g4
                            (keep d ctx darg3 dv3 (Later-trans d l m4) hd3))
                          (λ i5 u5 l5 g5.
                            bind d ctx _
                              (subtraction d ctx laws l5.in_order i3 i5
                                (keep d ctx i3 _ (Later-trans d l4 l5) g3) g5)
                              (λ i6 u6 l6 g6. as_value d ctx _ cdf_value (
                                product d ctx laws l6.in_order i6 j g6 (
                                  keep d ctx j _ (Later-trans d (Later-trans d m4 l5) l6) hj))))))))

    normcdf_rule :
        Reaches d ctx t
          (trinary_rule d TrinaryOpcode.normcdf t e k darg1 darg2 darg3)
          (times (density d y) (divide (shift d y dv1 dv2 dv3) v3))
    unfolding trinary_rule
    normcdf_rule =
        bind d ctx _
          (product d ctx laws o t.two_node t.pi_node (two_Has d ctx laws o more)
            (pi_Has d ctx laws o more))
          (λ i1 u1 l1 g1. bind d ctx _ (square_root d ctx laws l1.in_order i1 g1) (λ i2 u2 l2 g2.
            let m2 = Later-trans d l1 l2 in
            bind d ctx _
              (subtraction d ctx laws l2.in_order k.arg1 k.arg2 (keep d ctx k.arg1 v1 m2 h1)
                (keep d ctx k.arg2 v2 m2 h2))
              (λ i3 u3 l3 g3.
                let m3 = Later-trans d m2 l3 in
                bind d ctx _
                  (ratio d ctx laws l3.in_order i3 k.arg3 g3 (keep d ctx k.arg3 v3 m3 h3) ne)
                  (λ i4 u4 l4 g4.
                    bind d ctx _ (product d ctx laws l4.in_order i4 i4 g4 g4) (λ i5 u5 l5 g5.
                      bind d ctx _ (negates d ctx laws l5.in_order i5 g5) (λ i6 u6 l6 g6.
                        bind d ctx _
                          (ratio d ctx laws l6.in_order i6 u6.two_node g6
                            (two_Has d ctx laws l6.in_order more) more.two_ne_zero)
                          (λ i7 u7 l7 g7.
                            bind d ctx _ (exponential d ctx laws l7.in_order i7 g7) (λ i8 u8 l8 g8.
                              let n8 = Later-trans d (Later-trans d (Later-trans d l5 l6) l7) l8 in
                              let m8 = Later-trans d l4 n8 in
                              bind d ctx _
                                (ratio d ctx laws l8.in_order i8 i2 g8
                                  (keep d ctx i2 _ (Later-trans d l3 m8) g2)
                                  more.root_two_pi_ne_zero)
                                (λ i9 u9 l9 g9.
                                  normcdf_rest_lem u9 (Later-trans d (Later-trans d m3 m8) l9) i4 i9
                                    (keep d ctx i4 _ (Later-trans d n8 l9) g4) g9)))))))))

    -- The two forms of the derivative of the density.
    pdf_value :
        (p : Double)
        → times (divide p v3) (minus (times y (plus (minus dv2 dv1) (times dv3 y))) dv3)
          ≡ negate (times (divide p v3) (plus (times y (shift d y dv1 dv2 dv3)) dv3))
    pdf_value p =
        let s = shift d y dv1 dv2 dv3 in
        let e1 : plus (minus dv2 dv1) (times dv3 y) ≡ negate s = cc (
          laws.times_comm dv3 y,
          laws.plus_comm (minus dv2 dv1) (times y dv3),
          more.minus_minus (times y dv3) dv1 dv2,
          more.negate_minus (minus dv1 dv2) (times y dv3),
        ) in
        let e2 : minus (times y (plus (minus dv2 dv1) (times dv3 y))) dv3
            ≡ negate (plus (times y s) dv3) =
          cc (more.times_negate y s, more.negate_plus (times y s) dv3) in
        ap (times (divide p v3)) e2 ∙ more.times_negate (divide p v3) (plus (times y s) dv3)

    normpdf_rule :
        (p : Double)
        → Has d ctx t e p
        → Reaches d ctx t
            (trinary_rule d TrinaryOpcode.normpdf t e k darg1 darg2 darg3)
            (negate (times (divide p v3) (plus (times y (shift d y dv1 dv2 dv3)) dv3)))
    unfolding trinary_rule
    normpdf_rule p he = bind d ctx _ (subtraction d ctx laws o k.arg1 k.arg2 h1 h2) (λ i1 u1 l1 g1.
        bind d ctx _ (ratio d ctx laws l1.in_order i1 k.arg3 g1 (keep d ctx k.arg3 v3 l1 h3) ne)
          (λ i2 u2 l2 g2.
            let m2 = Later-trans d l1 l2 in
            bind d ctx _ (product d ctx laws l2.in_order darg3 i2 (keep d ctx darg3 dv3 m2 hd3) g2)
              (λ i3 u3 l3 g3.
                let m3 = Later-trans d m2 l3 in
                bind d ctx _
                  (subtraction d ctx laws l3.in_order darg2 darg1 (keep d ctx darg2 dv2 m3 hd2)
                    (keep d ctx darg1 dv1 m3 hd1))
                  (λ i4 u4 l4 g4.
                    bind d ctx _ (sum d ctx laws l4.in_order i4 i3 g4 (keep d ctx i3 _ l4 g3))
                      (λ i5 u5 l5 g5.
                        let n5 = Later-trans d (Later-trans d l3 l4) l5 in
                        bind d ctx _
                          (product d ctx laws l5.in_order i2 i5 (keep d ctx i2 _ n5 g2) g5)
                          (λ i6 u6 l6 g6.
                            let m6 = Later-trans d (Later-trans d m2 n5) l6 in
                            bind d ctx _
                              (subtraction d ctx laws l6.in_order i6 darg3 g6
                                (keep d ctx darg3 dv3 m6 hd3))
                              (λ i7 u7 l7 g7.
                                let m7 = Later-trans d m6 l7 in
                                bind d ctx _
                                  (ratio d ctx laws l7.in_order e k.arg3 (keep d ctx e p m7 he)
                                    (keep d ctx k.arg3 v3 m7 h3) ne)
                                  (λ i8 u8 l8 g8. as_value d ctx _ (pdf_value p) (
                                    product d ctx laws l8.in_order i8 i7 g8
                                      (keep d ctx i7 _ l8 g7))))))))))

    any_rule :
        (op : TrinaryOpcode) (w z : Double)
        → eval_trinary d v1 op v2 v3 ≡ ok w
        → Has d ctx t e w
        → tangent_trinary d op v1 v2 v3 dv1 dv2 dv3 ≡ ok z
        → Reaches d ctx t (trinary_rule d op t e k darg1 darg2 darg3) z
    unfolding tangent_trinary
    any_rule normcdf w z ew he h = as_value d ctx z (ground arith) normcdf_rule
    any_rule normpdf w z ew he h = as_value d ctx z (ground arith) (normpdf_rule w he)

  -- In exact arithmetic, on a tree in order: from nodes with the values of the derivatives of the
  -- arguments, `composeDerivatives` of an operation of three arguments (the distribution function and
  -- the density of a normal distribution) returns a node whose value is the textbook derivative,
  -- wherever the standard deviation is not 0; the tree stays in order and keeps its nodes and their
  -- values.
  pub compose_trinary-Reaches :
      (t : Tree Double)
      → InOrder d t
      → (e : ℕ) (k : TrinaryKey) (darg1 darg2 darg3 : ℕ) (v1 v2 v3 dv1 dv2 dv3 w z : Double)
      → Has d ctx t k.arg1 v1
      → Has d ctx t k.arg2 v2
      → Has d ctx t k.arg3 v3
      → Has d ctx t darg1 dv1
      → Has d ctx t darg2 dv2
      → Has d ctx t darg3 dv3
      → eval_trinary d v1 k.op_code v2 v3 ≡ ok w
      → Has d ctx t e w
      → tangent_trinary d k.op_code v1 v2 v3 dv1 dv2 dv3 ≡ ok z
      → Reaches d ctx t (compose_trinary d t e k darg1 darg2 darg3) z
  unfolding compose_trinary
  compose_trinary-Reaches t o e k a b c v1 v2 v3 dv1 dv2 dv3 w z h1 h2 h3 g1 g2 g3 ew he h =
      elim (Bool-cases (eq v3 (of_int 0))) [
        | inl n ↦ absurd (zero_deviation k.op_code v1 v2 v3 dv1 dv2 dv3 z n h)
        | inr n ↦
            any_rule t o e k a b c v1 v2 v3 dv1 dv2 dv3 h1 h2 h3 g1 g2 g3 n k.op_code w z ew he h
      ]
