-- ===== src/DataTree/Negation.antt =====
-- `AddUMinus` and `AddPossiblyNegativeConstant` of preprocessor/DataTree.cc and DataTree.hh.
use dynare.Prelude.{
  ℕ, suc, ◌<◌, ◌≡◌, refl, sym, ap, ◌∙◌, inl, inr, true, false, none, some, ◌==◌, ◌||◌, lookup, ok,
  ◌>>=◌, >>=-eq-ok, arith, codes, Option-cases, Bool-cases,
}
use dynare.DataTree.Doubles.{Doubles}
use dynare.DataTree.Laws.{Laws}
use dynare.DataTree.Nodes.{
  Node, num_const, unary, UnaryOpcode, UnaryKey, node_at, Tree, TreeOutcome, nat_key, int_key,
  unary_key, binary_key, trinary_key, variable_key,
}
use dynare.DataTree.Eval.{Context, eval, eval_node, eval_unary}
use dynare.DataTree.Insert.{
  plain, is_num_const, uminus_arg, uminus_of, new_unary, next_idx, add_constant, uminus_by,
  possibly_negative_by, unary_rounds,
}
use dynare.DataTree.Structure.{node_at-lt}
use dynare.DataTree.Invariant.{
  IsShared, HasSpecials, Extends-refl, HasSpecials-Extends, Builds, Builds-node, Valid,
}
use dynare.DataTree.Constants.{
  Meaning, unary_meaning, Builds-from, eval_node_eq, eval_text, add_constant-Builds,
  add_constant-IsText, is_num_const-IsText, shared_unary, new_unary-Builds,
}

module _ (d : Doubles) where
  open d use {Double, strtod, negate, of_int, le, lt, is_nan, is_inf, print}

  -- The negation of the value of a node.
  abbrev pub negated : Tree Double → ℕ → Meaning d
  negated t e ctx = do v ← eval d t ctx e; ok (negate v)

  -- The shape of `AddUnaryOp` with its last arguments left out.
  abbrev pub Adder : Type 0
  Adder = Tree Double → UnaryOpcode → ℕ → TreeOutcome (ℕ × Tree Double)

  abbrev pub rounds : ℕ → Adder
  rounds n u op e = unary_rounds d n u (plain op e)

  -- A negated constant is stored as it is.
  pub negated_constant :
      (n : ℕ) (t : Tree Double) (e : ℕ)
      → IsShared d t
      → Valid d t e
      → is_num_const t e ≡ true
      → Builds d t (rounds (suc n) t UnaryOpcode.uminus e) (negated t e)
  unfolding unary_rounds eval_unary
  negated_constant n t e s v c =
      let k = plain UnaryOpcode.uminus e in
      elim (Option-cases (lookup k t.unary_op_node_map)) [
        | inl fresh ↦
            Builds-from d t t _ (ok (next_idx t, new_unary t k)) _ (unary_meaning d t k)
              (Extends-refl d t) (ground arith) (new_unary-Builds d t k s v fresh) (λ ctx w h. h)
        | inr (i, found) ↦
            Builds-from d t t _ (ok (i, t)) _ (unary_meaning d t k) (Extends-refl d t)
              (ground arith) (shared_unary d t k i s found) (λ ctx w h. h)
      ]

  module _ (laws : Laws d) where
    -- The node `Zero` has the value 0.
    pub eval_zero :
        (t : Tree Double) (ctx : Context d)
        → IsShared d t
        → HasSpecials d t
        → eval d t ctx t.zero_node ≡ ok (of_int 0)
    eval_zero t ctx s h = eval_text d t ctx t.zero_node _ s h.zero ∙ ap ok laws.text_zero

    negated_zero :
        (t : Tree Double) (ctx : Context d) (e : ℕ) (w : Double)
        → IsShared d t
        → HasSpecials d t
        → (e == t.zero_node) ≡ true
        → negated t e ctx ≡ ok w
        → eval d t ctx t.zero_node ≡ ok w
    negated_zero t ctx e w s h z g =
        let q : e ≡ t.zero_node = ground arith in
        ground (arith, eval_zero t ctx s h, laws.negate_zero, ap (eval d t ctx) q)

    pub uminus_arg_node :
        (t : Tree Double) (e a : ℕ)
        → uminus_arg t e ≡ some a
        → (k : UnaryKey) × (node_at t.node_list e ≡ some (unary k))
          × (k.op_code ≡ UnaryOpcode.uminus)
          × (k.arg ≡ a)
    uminus_arg_node t e a h = elim (Option-cases (node_at t.node_list e)) [
      | inl no_node ↦ absurd (ground arith)
      | inr (n, at) ↦ let (k, q, r, z) = at_node n (ground arith) in (k, at ∙ ap some q, r, z)
    ]
      where
        at_node :
            (n : Node)
            → uminus_of n ≡ some a
            → (k : UnaryKey) × (n ≡ unary k) × (k.op_code ≡ UnaryOpcode.uminus) × (k.arg ≡ a)
        at_node (unary k) g = (k, refl, ground arith, ground arith)
        at_node (num_const id) g = cc
        at_node _ g = cc

    -- A doubly negated node has the value of the node.
    double_negation :
        (t : Tree Double) (ctx : Context d) (e a : ℕ) (w : Double)
        → IsShared d t
        → uminus_arg t e ≡ some a
        → negated t e ctx ≡ ok w
        → eval d t ctx a ≡ ok w
    unfolding eval_node eval_unary
    double_negation t ctx e a w s h g =
        let (k, at, op, arg) = uminus_arg_node t e a h in
        let (v, f, f') = >>=-eq-ok (eval d t ctx e) _ g in
        let (u, m, m') =
          >>=-eq-ok (eval d t ctx k.arg) _ (sym (eval_node_eq d t ctx e (unary k) s at) ∙ f) in
        let o : eval_unary d k.op_code u ≡ ok (negate u) = ap (λ x. eval_unary d x u) op in
        cc (laws.negate_negate u)

    -- `AddUMinus` negates, if `AddUnaryOp` does.
    pub uminus_by-Builds :
        (add : Adder) (t : Tree Double) (e : ℕ)
        → IsShared d t
        → HasSpecials d t
        → Valid d t e
        → (uminus_arg t e ≡ none → Builds d t (add t UnaryOpcode.uminus e) (negated t e))
        → Builds d t (uminus_by d add t e) (negated t e)
    unfolding uminus_by
    uminus_by-Builds add t e s h v b = elim (Bool-cases (e == t.zero_node)) [
      | inl z ↦
          Builds-from d t t _ (ok (t.zero_node, t)) _ (negated t e) (Extends-refl d t)
            (ground arith)
            (Builds-node d t t.zero_node _ s (node_at-lt t.node_list t.zero_node h.zero.1)
              (λ ctx w g. negated_zero t ctx e w s h z g))
            (λ ctx w g. g)
      | inr nz ↦ elim (Option-cases (uminus_arg t e)) [
        | inl fresh ↦
            Builds-from d t t _ (add t UnaryOpcode.uminus e) _ (negated t e) (Extends-refl d t)
              (ground arith) (b fresh) (λ ctx w g. g)
        | inr (a, found) ↦
            Builds-from d t t _ (ok (a, t)) _ (negated t e) (Extends-refl d t) (ground arith)
              (Builds-node d t a _ s (arg_valid a found)
                (λ ctx w g. double_negation t ctx e a w s found g))
              (λ ctx w g. g)
      ]
    ]
      where
        arg_valid : (a : ℕ) → uminus_arg t e ≡ some a → Valid d t a
        arg_valid a found =
            let (k, at, op, arg) = uminus_arg_node t e a found in
            let below : k.arg < e = s.closed e (unary k) at in omega arith

    -- The text of a number that is not negative can be added, and has its value.
    printed :
        (v : Double)
        → is_nan v ≡ false
        → lt v (of_int 0) ≡ false
        → (strtod (print v) ≡ v)
          × ((le (of_int 0) (strtod (print v)) || is_nan (strtod (print v))) ≡ true)
    printed v n l = let e = laws.text_print v n l in (e, rw (e, laws.lt_or_le v n l) refl)

    eval_minus_infinity :
        (t : Tree Double) (ctx : Context d)
        → IsShared d t
        → HasSpecials d t
        → eval d t ctx t.minus_infinity_node ≡ ok (negate (strtod (codes "Inf")))
    unfolding eval_node eval_unary
    eval_minus_infinity t ctx s h =
        eval_node_eq d t ctx t.minus_infinity_node _ s h.minus_infinity
        ∙ rw (eval_text d t ctx t.infinity_node _ s h.infinity)

    negative_step :
        (minus : Tree Double → ℕ → TreeOutcome (ℕ × Tree Double)) (t u : Tree Double) (v : Double)
        (e : ℕ)
        → is_nan v ≡ false
        → is_inf v ≡ false
        → lt v (of_int 0) ≡ true
        → add_constant d t (print (negate v)) ≡ ok (e, u)
        → possibly_negative_by d minus t v ≡ minus u e
    unfolding possibly_negative_by
    negative_step minus t u v e n i l a = ground arith

    -- `AddPossiblyNegativeConstant` returns a node with the given value, if `AddUMinus` negates
    -- constants.
    pub possibly_negative_by-Builds :
        (minus : Tree Double → ℕ → TreeOutcome (ℕ × Tree Double)) (t : Tree Double) (v : Double)
        → IsShared d t
        → HasSpecials d t
        → ((u : Tree Double) (e : ℕ)
            → IsShared d u
            → HasSpecials d u
            → Valid d u e
            → is_num_const u e ≡ true
            → Builds d u (minus u e) (negated u e))
        → Builds d t (possibly_negative_by d minus t v) (λ ctx. ok v)
    unfolding possibly_negative_by
    possibly_negative_by-Builds minus t v s h b = elim (Bool-cases (is_nan v)) [
      | inl n ↦
          Builds-from d t t _ (ok (t.nan_node, t)) _ (λ ctx. ok v) (Extends-refl d t) (ground arith)
            (Builds-node d t t.nan_node _ s (node_at-lt t.node_list t.nan_node h.nan.1)
              (λ ctx w g. eval_text d t ctx t.nan_node _ s h.nan ∙ ap ok (laws.text_nan v n) ∙ g))
            (λ ctx w g. g)
      | inr n ↦ elim (Bool-cases (is_inf v)) [
        | inl i ↦ elim (Bool-cases (lt v (of_int 0))) [
          | inl l ↦
              Builds-from d t t _ (ok (t.minus_infinity_node, t)) _ (λ ctx. ok v) (Extends-refl d t)
                (ground arith)
                (Builds-node d t t.minus_infinity_node _ s
                  (node_at-lt t.node_list t.minus_infinity_node h.minus_infinity)
                  (λ ctx w g.
                    eval_minus_infinity t ctx s h ∙ ap ok (laws.text_minus_infinity v i l) ∙ g))
                (λ ctx w g. g)
          | inr l ↦
              Builds-from d t t _ (ok (t.infinity_node, t)) _ (λ ctx. ok v) (Extends-refl d t)
                (ground arith)
                (Builds-node d t t.infinity_node _ s
                  (node_at-lt t.node_list t.infinity_node h.infinity.1)
                  (λ ctx w g.
                    eval_text d t ctx t.infinity_node _ s h.infinity
                    ∙ ap ok (laws.text_infinity v i l)
                    ∙ g))
                (λ ctx w g. g)
        ]
        | inr i ↦ elim (Bool-cases (lt v (of_int 0))) [
          | inl l ↦
              let (same, fits) =
                printed (negate v) (laws.negate_nan v n) (laws.negate_negative v l) in
              let c = add_constant-Builds d t (print (negate v)) s fits in
              let const =
                is_num_const-IsText d c.tree c.idx (print (negate v))
                  (add_constant-IsText d t (print (negate v)) s fits c.returns) in
              let hs = HasSpecials-Extends d t c.tree c.extends h in
              Builds-from d t c.tree _ (minus c.tree c.idx) _ (negated c.tree c.idx) c.extends
                (negative_step minus t c.tree v c.idx n i l c.returns)
                (b c.tree c.idx c.is_shared hs c.valid const)
                (λ ctx w g.
                  rw (c.value ctx (strtod (print (negate v))) refl, same, laws.negate_negate v) g)
          | inr l ↦
              let (same, fits) = printed v n l in
              Builds-from d t t _ (add_constant d t (print v)) _ (λ ctx. ok (strtod (print v)))
                (Extends-refl d t) (ground arith) (add_constant-Builds d t (print v) s fits)
                (λ ctx w g. ap ok same ∙ g)
        ]
      ]
    ]
