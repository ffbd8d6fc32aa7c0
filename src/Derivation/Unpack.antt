-- ===== src/Derivation/Unpack.antt =====
-- preprocessor/ExprNode.cc: `unpackPowerDeriv` keeps the value of a derivative of a power.
use dynare.Prelude.{ℕ, zero, suc, ◌+◌, ◌≡◌, refl, sym, ap, ◌∙◌, false, ok, arith}
use dynare.DataTree.Doubles.{Doubles}
use dynare.DataTree.Laws.{Laws}
use dynare.DataTree.Nodes.{BinaryOpcode, BinaryKey, Tree}
use dynare.DataTree.Eval.{Context, eval_binary, power_deriv_loop}
use dynare.DataTree.Insert.{add_possibly_negative_constant}
use dynare.DataTree.Operations.{add_possibly_negative_constant-Builds}
use dynare.Derivation.Compose.{multiply_factors, unpack_power_deriv}
use dynare.Derivation.Laws.{DerivativeLaws}
use dynare.Derivation.Reaches.{
  InOrder, Later-trans, Has, keep, Reaches, Builds-Reaches, bind, as_value, found, one_Has,
  subtraction, product, raised,
}

module _ (d : Doubles) (laws : Laws d) (more : DerivativeLaws d) (ctx : Context d) where
  open d use {Double, of_int, eq, lt, minus, times, pow}

  -- `p * (v - i) * (v - (i + 1)) * ...`, with `rounds` factors
  falling : ℕ → ℕ → Double → Double → Double
  falling zero i p v = p
  falling (suc rounds) i p v = falling rounds (i + 1) (times p (minus v (of_int i))) v

  number :
      {t : Tree Double}
      → InOrder d t
      → (v : Double) → Reaches d ctx t (add_possibly_negative_constant d t v) v
  number {t} o v =
      Builds-Reaches d ctx t _ _ v o
        (add_possibly_negative_constant-Builds d laws t v o.shared o.predefined) refl

  multiply_factors-Reaches :
      (rounds i : ℕ) (t : Tree Double) (p b : ℕ) (vp vb : Double)
      → InOrder d t
      → Has d ctx t p vp
      → Has d ctx t b vb
      → Reaches d ctx t (multiply_factors d rounds i t p b) (falling rounds i vp vb)
  unfolding multiply_factors falling
  multiply_factors-Reaches zero i t p b vp vb o hp hb = found d ctx p o hp
  multiply_factors-Reaches (suc rounds) i t p b vp vb o hp hb =
      bind d ctx _ (number o (of_int i)) (λ i1 u1 l1 g1.
        bind d ctx _ (subtraction d ctx laws l1.in_order b i1 (keep d ctx b vb l1 hb) g1)
          (λ i2 u2 l2 g2.
            let m2 = Later-trans d l1 l2 in
            bind d ctx _ (product d ctx laws l2.in_order p i2 (keep d ctx p vp m2 hp) g2)
              (λ i3 u3 l3 g3.
                multiply_factors-Reaches rounds (i + 1) u3 i3 b _ vb l3.in_order g3
                  (keep d ctx b vb (Later-trans d m2 l3) hb))))

  -- The loop of `eval_opcode` multiplies by the same numbers.
  falling-loop :
      (rounds i : ℕ) (x v : Double)
      → falling rounds i x v ≡ power_deriv_loop d rounds x (minus v (of_int i))
  unfolding falling power_deriv_loop
  falling-loop zero i x v = refl
  falling-loop (suc rounds) i x v =
      falling-loop rounds (i + 1) (times x (minus v (of_int i))) v
      ∙ ap (power_deriv_loop d rounds (times x (minus v (of_int i)))) (sym (more.minus_suc v i))

  falling-times :
      (rounds i : ℕ) (p x v : Double)
      → times (falling rounds i p v) x ≡ falling rounds i (times p x) v
  unfolding falling
  falling-times zero i p x v = refl
  falling-times (suc rounds) i p x v =
      let a = minus v (of_int i) in
      falling-times rounds (i + 1) (times p a) x v
      ∙ ap (λ y. falling rounds (i + 1) y v)
          (cc (more.times_assoc p a x, laws.times_comm a x, more.times_assoc p x a))

  unpacked : (n : ℕ) (x v : Double) → times (falling n 0 (of_int 1) v) x ≡ power_deriv_loop d n x v
  unpacked n x v =
      falling-times n 0 (of_int 1) x v
      ∙ ap (λ y. falling n 0 y v) (laws.times_comm (of_int 1) x ∙ laws.times_one x)
      ∙ falling-loop n 0 x v
      ∙ ap (power_deriv_loop d n x) (laws.minus_zero v)

  -- In exact arithmetic, on a tree in order, for a base that is neither 0 nor almost 0: from a derivative
  -- of a power, of any order, `unpackPowerDeriv` makes products and a power with the same value as
  -- `eval` gives the derivative.
  pub unpack_power_deriv-Reaches :
      (t : Tree Double) (k : BinaryKey) (v1 v2 z : Double)
      → InOrder d t
      → Has d ctx t k.arg1 v1
      → Has d ctx t k.arg2 v2
      → eq v1 (of_int 0) ≡ false
      → lt (d.fabs v1) d.near_zero ≡ false
      → eval_binary d v1 BinaryOpcode.power_deriv v2 k.power_deriv_order ≡ ok z
      → Reaches d ctx t (unpack_power_deriv d t k) z
  unfolding unpack_power_deriv eval_binary
  unpack_power_deriv-Reaches t k v1 v2 z o h1 h2 ne far h =
      let n = k.power_deriv_order in
      let x = pow v1 (minus v2 (of_int n)) in
      let q : power_deriv_loop d n x v2 ≡ z = ground arith in
      bind d ctx _
        (multiply_factors-Reaches n 0 t t.one_node k.arg2 (of_int 1) v2 o (one_Has d ctx laws o) h2)
        (λ i1 u1 l1 g1. bind d ctx _ (number l1.in_order (of_int n)) (λ i2 u2 l2 g2.
          let m2 = Later-trans d l1 l2 in
          bind d ctx _
            (subtraction d ctx laws l2.in_order k.arg2 i2 (keep d ctx k.arg2 v2 m2 h2) g2)
            (λ i3 u3 l3 g3.
              let m3 = Later-trans d m2 l3 in
              bind d ctx _
                (raised d ctx laws l3.in_order k.arg1 i3 (keep d ctx k.arg1 v1 m3 h1) g3 ne)
                (λ i4 u4 l4 g4. as_value d ctx z (unpacked n x v2 ∙ q) (
                  product d ctx laws l4.in_order i1 i4
                    (keep d ctx i1 _ (Later-trans d (Later-trans d l2 l3) l4) g1) g4)))))
