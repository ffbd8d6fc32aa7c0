-- ===== src/DataTree/Values.antt =====
-- The values of what the arithmetic methods of preprocessor/DataTree.cc build.
use dynare.Prelude.{
  ℕ, ◌≡◌, sym, ap, ◌∙◌, inl, inr, true, not, ◌&&◌, Result, ok, throw, ◌>>=◌, >>=-eq-ok,
  ok-injective, arith, Bool-cases, ◌==◌, if◌then◌else◌,
}
use dynare.DataTree.Doubles.{Doubles}
use dynare.DataTree.Laws.{Laws}
use dynare.DataTree.Nodes.{BinaryOpcode, Tree, TreeOutcome}
use dynare.DataTree.Eval.{
  EvalError, Context, eval, eval_node, eval_unary, eval_binary, eval_exception,
}
use dynare.DataTree.Insert.{add_uminus}
use dynare.DataTree.Build.{add_minus, binary_key_of, add_plain_binary}
use dynare.DataTree.Structure.{node_at-lt}
use dynare.DataTree.Invariant.{IsShared, HasSpecials, Extends-refl, Builds, Builds-node, Valid}
use dynare.DataTree.Constants.{Meaning, Builds-from, eval_node_eq, eval_text, binary_meaning}
use dynare.DataTree.Negation.{negated, eval_zero}
use dynare.DataTree.Operations.{add_uminus-Builds, add_binary_op-Builds}

module _ (d : Doubles) where
  open d use {Double, of_int, negate, plus, minus, times, divide, pow, lt, eq}

  -- The values of two nodes, combined by a partial operation.
  abbrev pub combined :
      Tree Double → ℕ → ℕ → (Double → Double → Result EvalError Double) → Meaning d
  combined t a b f ctx = do v ← eval d t ctx a; w ← eval d t ctx b; f v w

  -- A quotient by a number other than 0.
  abbrev pub quotient : Double → Double → Result EvalError Double
  quotient v w = if eq w (of_int 0) then throw eval_exception else ok (divide v w)

  -- A power, where 0 has positive powers only.
  abbrev pub power_of : Double → Double → Result EvalError Double
  power_of v w =
      if eq v (of_int 0) && not (lt (of_int 0) w) then throw eval_exception else ok (pow v w)

  -- A method that returns a node of the tree.
  pub returns_node :
      (t : Tree Double) (e : ℕ) (r : TreeOutcome (ℕ × Tree Double)) (V : Meaning d)
      → r ≡ ok (e, t)
      → IsShared d t
      → Valid d t e
      → ((ctx : Context d) (w : Double) → V ctx ≡ ok w → eval d t ctx e ≡ ok w)
      → Builds d t r V
  returns_node t e r V h s v f =
      Builds-from d t t r (ok (e, t)) V V (Extends-refl d t) h (Builds-node d t e V s v f)
        (λ ctx w g. g)

  -- A method that calls another one.
  pub calls :
      (t : Tree Double) (r r' : TreeOutcome (ℕ × Tree Double)) (V W : Meaning d)
      → r ≡ r'
      → Builds d t r' W
      → ((ctx : Context d) (w : Double) → V ctx ≡ ok w → W ctx ≡ ok w)
      → Builds d t r V
  calls t r r' V W h b f = Builds-from d t t r r' V W (Extends-refl d t) h b f

  abbrev Op : Type 0
  Op = Double → Double → Result EvalError Double

  -- The values of the two arguments, from the value of the result.
  pub parts :
      (t : Tree Double) (ctx : Context d) (a b : ℕ) (f : Op) (w : Double)
      → combined t a b f ctx ≡ ok w
      → (v : Double) × (u : Double) × (eval d t ctx a ≡ ok v)
        × (eval d t ctx b ≡ ok u)
        × (f v u ≡ ok w)
  parts t ctx a b f w g =
      let (v, e, e') = >>=-eq-ok (eval d t ctx a) _ g in
      let (u, p, p') = >>=-eq-ok (eval d t ctx b) _ e' in (v, u, e, p, p')

  module _ (laws : Laws d) (t : Tree Double) (s : IsShared d t) (h : HasSpecials d t) where
    pub zero-Valid : Valid d t t.zero_node
    zero-Valid = node_at-lt t.node_list t.zero_node h.zero.1

    pub one-Valid : Valid d t t.one_node
    one-Valid = node_at-lt t.node_list t.one_node h.one.1

    pub eval_one : (ctx : Context d) → eval d t ctx t.one_node ≡ ok (of_int 1)
    eval_one ctx = eval_text d t ctx t.one_node _ s h.one ∙ ap ok laws.text_one

    pub value_zero :
        (ctx : Context d) (e : ℕ) {v : Double}
        → (e == t.zero_node) ≡ true
        → eval d t ctx e ≡ ok v
        → v ≡ of_int 0
    value_zero ctx e z g =
        let q : e ≡ t.zero_node = ground arith in
        ok-injective (sym g ∙ ap (eval d t ctx) q ∙ eval_zero d laws t ctx s h)

    pub value_one :
        (ctx : Context d) (e : ℕ) {v : Double}
        → (e == t.one_node) ≡ true
        → eval d t ctx e ≡ ok v
        → v ≡ of_int 1
    value_one ctx e z g =
        let q : e ≡ t.one_node = ground arith in
        ok-injective (sym g ∙ ap (eval d t ctx) q ∙ eval_one ctx)

    pub value_minus_one :
        (ctx : Context d) (e : ℕ) {v : Double}
        → (e == t.minus_one_node) ≡ true
        → eval d t ctx e ≡ ok v
        → v ≡ negate (of_int 1)
    unfolding eval_node eval_unary
    value_minus_one ctx e z g =
        let q : e ≡ t.minus_one_node = ground arith in
        ok-injective (
          sym g
          ∙ ap (eval d t ctx) q
          ∙ eval_node_eq d t ctx t.minus_one_node _ s h.minus_one
          ∙ rw (eval_one ctx))

    module _ (a b : ℕ) (va : Valid d t a) (vb : Valid d t b) where
      pub same_value :
          (ctx : Context d) {v u : Double}
          → (a == b) ≡ true
          → eval d t ctx a ≡ ok v
          → eval d t ctx b ≡ ok u
          → v ≡ u
      same_value ctx z g k =
          let q : a ≡ b = ground arith in ok-injective (sym g ∙ ap (eval d t ctx) q ∙ k)

      -- In exact arithmetic, on a tree that is in order with its predefined nodes, and for nodes of it:
      -- `AddMinus` returns a node whose value is the difference of the values of its arguments.
      pub add_minus-Builds : Builds d t (add_minus d t a b) (combined t a b (λ v w. ok (minus v w)))
      unfolding add_minus eval_binary
      add_minus-Builds = elim (Bool-cases (b == t.zero_node)) [
        | inl bz ↦ returns_node t a _ _ (ground arith) s va (λ ctx w g.
            let (v, u, e, p, f) = parts t ctx a b _ w g in
            let z = value_zero ctx b bz p in e ∙ cc (laws.minus_zero v))
        | inr bn ↦ elim (Bool-cases (a == t.zero_node)) [
          | inl az ↦
              calls t _ (add_uminus d t b) _ (negated d t b) (ground arith)
                (add_uminus-Builds d laws t b s h vb)
                (λ ctx w g.
                  let (v, u, e, p, f) = parts t ctx a b _ w g in
                  let z = value_zero ctx a az e in rw p (cc (laws.zero_minus u)))
          | inr an ↦ elim (Bool-cases (a == b)) [
            | inl ab ↦ returns_node t t.zero_node _ _ (ground arith) s zero-Valid (λ ctx w g.
                let (v, u, e, p, f) = parts t ctx a b _ w g in
                let z = same_value ctx ab e p in
                eval_zero d laws t ctx s h ∙ cc (laws.minus_self v))
            | inr ne ↦
                calls t _ (add_plain_binary d t BinaryOpcode.minus a b) _
                  (binary_meaning d t (binary_key_of d BinaryOpcode.minus a b)) (ground arith)
                  (add_binary_op-Builds d laws t _ s h va vb) (λ ctx w g. g)
          ]
        ]
      ]
