-- ===== src/Derivation/Reaches.antt =====
-- What a chain of the node-building methods of preprocessor/DataTree.cc returns: the values of the nodes
-- in one context, followed through the chain.
use dynare.Prelude.{
  ℕ, ◌≡◌, refl, ap, ◌∙◌, inl, inr, false, ok, ◌>>=◌, ◌==◌, arith, Bool-cases, codes, Bytes,
}
use dynare.DataTree.Doubles.{Doubles}
use dynare.DataTree.Laws.{Laws}
use dynare.DataTree.Nodes.{Tree, TreeOutcome, UnaryOpcode, BinaryOpcode}
use dynare.DataTree.Eval.{Context, eval, eval_unary, eval_binary}
use dynare.DataTree.Insert.{add_uminus, add_binary_op, plain}
use dynare.DataTree.Build.{
  add_minus, add_plus, add_times, add_divide, add_power, add_exp, add_log, add_log10, add_cos,
  add_sin, add_cosh, add_sinh, add_sqrt, add_sign,
}
use dynare.DataTree.Structure.{node_at-lt}
use dynare.DataTree.Invariant.{
  IsText, IsShared, HasSpecials, HasSpecials-Extends, Extends, Extends-trans, Builds, Valid,
  Extends-refl,
}
use dynare.DataTree.Constants.{Meaning, eval_text, unary_meaning}
use dynare.DataTree.Negation.{eval_zero}
use dynare.DataTree.Operations.{add_uminus-Builds, add_binary_op-Builds}
use dynare.DataTree.Functions.{functions-Applies, logarithms-Applies}
use dynare.DataTree.Values.{add_minus-Builds, value_zero, zero-Valid, one-Valid, eval_one}
use dynare.DataTree.Arithmetic.{
  add_plus-Builds, add_times-Builds, add_divide-Builds, add_power-Builds,
}
use dynare.Derivation.Laws.{DerivativeLaws}

module _ (d : Doubles) where
  open d use {Double}

  -- A tree that is in order, with all its predefined nodes.
  pub record InOrder (t : Tree Double) : Type 0 where
    pub shared : IsShared d t
    pub predefined : HasSpecials d t

  pub record Later (t u : Tree Double) : Type 0 where
    pub in_order : InOrder u
    pub extends : Extends d t u

  pub InOrder-Extends : (t u : Tree Double) → InOrder t → IsShared d u → Extends d t u → InOrder u
  InOrder-Extends t u o s x = record {
    shared = s;
    predefined = HasSpecials-Extends d t u x o.predefined;
  }

  pub Later-trans : {t u w : Tree Double} → Later t u → Later u w → Later t w
  Later-trans p q = record { in_order = q.in_order; extends = Extends-trans d p.extends q.extends }

module _ (d : Doubles) (ctx : Context d) where
  open d use {Double}

  -- The node `e` of the tree has the value `v`.
  abbrev pub Has : Tree Double → ℕ → Double → Type 0
  Has t e v = Valid d t e × (eval d t ctx e ≡ ok v)

  pub keep : {t u : Tree Double} (e : ℕ) (v : Double) → Later d t u → Has t e v → Has u e v
  keep e v l (lt, q) = let s = l.extends.size in (omega arith, l.extends.values ctx e v q)

  -- The method `r`, called on the tree `t`, returns a node with the value `w`, on a tree that grew.
  pub record Reaches (t : Tree Double) (r : TreeOutcome (ℕ × Tree Double)) (w : Double)
      : Type 0 where
    pub idx : ℕ
    pub tree : Tree Double
    pub returns : r ≡ ok (idx, tree)
    pub later : Later d t tree
    pub has : Has tree idx w

  pub Builds-Reaches :
      (t : Tree Double) (r : TreeOutcome (ℕ × Tree Double)) (V : Meaning d) (w : Double)
      → InOrder d t
      → Builds d t r V
      → V ctx ≡ ok w
      → Reaches t r w
  Builds-Reaches t r V w o b h = record {
    idx = b.idx;
    tree = b.tree;
    returns = b.returns;
    later = record {
      in_order = InOrder-Extends d t b.tree o b.is_shared b.extends;
      extends = b.extends;
    };
    has = (b.valid, b.value ctx w h);
  }

  pub bind :
      {t : Tree Double} {r : TreeOutcome (ℕ × Tree Double)} {w z : Double}
      (k : ℕ × Tree Double → TreeOutcome (ℕ × Tree Double))
      → Reaches t r w
      → ((i : ℕ) (u : Tree Double) → Later d t u → Has u i w → Reaches u (k (i, u)) z)
      → Reaches t (r >>= k) z
  bind k m f =
      let n = f m.idx m.tree m.later m.has in
      record {
        idx = n.idx;
        tree = n.tree;
        returns = ap (λ x. x >>= k) m.returns ∙ n.returns;
        later = Later-trans d m.later n.later;
        has = n.has;
      }

  -- A value in another form, and a method that calls another one.
  pub as_value :
      {t : Tree Double} {r : TreeOutcome (ℕ × Tree Double)} {w : Double} (z : Double)
      → w ≡ z
      → Reaches t r w
      → Reaches t r z
  as_value z e m = record {
    idx = m.idx;
    tree = m.tree;
    returns = m.returns;
    later = m.later;
    has = (m.has.0, m.has.1 ∙ ap ok e);
  }

  pub as_call :
      {t : Tree Double} {r : TreeOutcome (ℕ × Tree Double)} {w : Double}
      (r' : TreeOutcome (ℕ × Tree Double))
      → Reaches t r w
      → r' ≡ r
      → Reaches t r' w
  as_call r' m e = record {
    idx = m.idx;
    tree = m.tree;
    returns = e ∙ m.returns;
    later = m.later;
    has = m.has;
  }

  -- A node that is there already.
  pub found :
      {t : Tree Double} (e : ℕ) {v : Double} → InOrder d t → Has t e v → Reaches t (ok (e, t)) v
  found {t} e o h = record {
    idx = e;
    tree = t;
    returns = refl;
    later = record { in_order = o; extends = Extends-refl d t };
    has = h;
  }

  -- The methods on nodes with values.
  module _ (laws : Laws d) {t : Tree Double} (o : InOrder d t) where
    pub zero_Has : Has t t.zero_node (d.of_int 0)
    zero_Has =
        (zero-Valid d laws t o.shared o.predefined, eval_zero d laws t ctx o.shared o.predefined)

    pub one_Has : Has t t.one_node (d.of_int 1)
    one_Has =
        (one-Valid d laws t o.shared o.predefined, eval_one d laws t o.shared o.predefined ctx)

    text_Has : (e : ℕ) (s : Bytes) → IsText d t e s → Has t e (d.strtod s)
    text_Has e s x = (node_at-lt t.node_list e x.1, eval_text d t ctx e s o.shared x)

    -- A node whose value is not 0 is not `Zero`.
    pub not_zero_node :
        (e : ℕ) (v : Double) → Has t e v → d.eq v (d.of_int 0) ≡ false → (e == t.zero_node) ≡ false
    not_zero_node e v (lt, q) ne = elim (Bool-cases (e == t.zero_node)) [
      | inl z ↦
          let p = value_zero d laws t o.shared o.predefined ctx e z q in
          let e0 = ap (λ x. d.eq x (d.of_int 0)) p in cc (laws.eq_self)
      | inr z ↦ z
    ]

    module _ (a : ℕ) {v : Double} (ha : Has t a v) where
      pub negates : Reaches t (add_uminus d t a) (d.negate v)
      unfolding eval_unary
      negates =
          Builds-Reaches t _ _ _ o (add_uminus-Builds d laws t a o.shared o.predefined ha.0)
            (rw (ha.1) refl)

      -- A method that applies a function.
      pub applies :
          (op : UnaryOpcode) (r : TreeOutcome (ℕ × Tree Double)) {w : Double}
          → Builds d t r (unary_meaning d t (plain op a))
          → eval_unary d op v ≡ ok w
          → Reaches t r w
      applies op r b f = Builds-Reaches t r _ _ o b (rw (ha.1) f)

      pub exponential : Reaches t (add_exp d t a) (d.exp v)
      unfolding eval_unary
      exponential =
          applies UnaryOpcode.exp _ (functions-Applies d laws t o.shared o.predefined a ha.0).0 refl

      pub cosine : Reaches t (add_cos d t a) (d.cos v)
      unfolding eval_unary
      cosine =
          applies UnaryOpcode.cos _ (functions-Applies d laws t o.shared o.predefined a ha.0).1 refl

      pub sine : Reaches t (add_sin d t a) (d.sin v)
      unfolding eval_unary
      sine =
          applies UnaryOpcode.sin _ (functions-Applies d laws t o.shared o.predefined a ha.0).2 refl

      pub hyperbolic_cosine : Reaches t (add_cosh d t a) (d.cosh v)
      unfolding eval_unary
      hyperbolic_cosine =
          applies UnaryOpcode.cosh _ (functions-Applies d laws t o.shared o.predefined a ha.0).7
            refl

      pub hyperbolic_sine : Reaches t (add_sinh d t a) (d.sinh v)
      unfolding eval_unary
      hyperbolic_sine =
          applies UnaryOpcode.sinh _ (functions-Applies d laws t o.shared o.predefined a ha.0).8
            refl

      pub square_root : Reaches t (add_sqrt d t a) (d.sqrt v)
      unfolding eval_unary
      square_root =
          applies UnaryOpcode.sqrt _ (functions-Applies d laws t o.shared o.predefined a ha.0).13
            refl

      pub signs :
          (w : Double) → eval_unary d UnaryOpcode.sign v ≡ ok w → Reaches t (add_sign d t a) w
      signs w =
          applies UnaryOpcode.sign _ (functions-Applies d laws t o.shared o.predefined a ha.0).15

      module _ (ne : d.eq v (d.of_int 0) ≡ false) where
        pub natural_logarithm : Reaches t (add_log d t a) (d.log v)
        unfolding eval_unary
        natural_logarithm =
            applies UnaryOpcode.log _
              (logarithms-Applies d laws t o.shared o.predefined a ha.0 (not_zero_node a v ha ne)).0
              refl

        pub decimal_logarithm : Reaches t (add_log10 d t a) (d.log10 v)
        unfolding eval_unary
        decimal_logarithm =
            applies UnaryOpcode.log10 _
              (logarithms-Applies d laws t o.shared o.predefined a ha.0 (not_zero_node a v ha ne)).1
              refl

    module _ (a b : ℕ) {v w : Double} (ha : Has t a v) (hb : Has t b w) where
      pub sum : Reaches t (add_plus d t a b) (d.plus v w)
      sum =
          Builds-Reaches t _ _ _ o (add_plus-Builds d laws t o.shared o.predefined a b ha.0 hb.0)
            (rw (ha.1, hb.1) refl)

      pub subtraction : Reaches t (add_minus d t a b) (d.minus v w)
      subtraction =
          Builds-Reaches t _ _ _ o (add_minus-Builds d laws t o.shared o.predefined a b ha.0 hb.0)
            (rw (ha.1, hb.1) refl)

      pub product : Reaches t (add_times d t a b) (d.times v w)
      product =
          Builds-Reaches t _ _ _ o (add_times-Builds d laws t o.shared o.predefined a b ha.0 hb.0)
            (rw (ha.1, hb.1) refl)

      pub ratio : d.eq w (d.of_int 0) ≡ false → Reaches t (add_divide d t a b) (d.divide v w)
      ratio ne =
          Builds-Reaches t _ _ _ o
            (add_divide-Builds d laws t o.shared o.predefined a b ha.0 hb.0
              (not_zero_node b w hb ne))
            (rw (ha.1, hb.1, ne) refl)

      pub raised : d.eq v (d.of_int 0) ≡ false → Reaches t (add_power d t a b) (d.pow v w)
      raised ne =
          Builds-Reaches t _ _ _ o (add_power-Builds d laws t o.shared o.predefined a b ha.0 hb.0)
            (rw (ha.1, hb.1, ne) refl)

      -- A binary node without simplifications, but for constants.
      pub combines :
          (op : BinaryOpcode) (order : ℕ) (z : Double)
          → eval_binary d v op w order ≡ ok z
          → Reaches t
              (add_binary_op d t
                (record { arg1 = a; arg2 = b; power_deriv_order = order; op_code = op }))
              z
      combines op order z f =
          Builds-Reaches t _ _ _ o
            (add_binary_op-Builds d laws t
              (record { arg1 = a; arg2 = b; power_deriv_order = order; op_code = op }) o.shared
              o.predefined ha.0 hb.0)
            (rw (ha.1, hb.1) f)

    module _ (more : DerivativeLaws d) where
      pub two_Has : Has t t.two_node (d.of_int 2)
      two_Has =
          let (lt, q) = text_Has t.two_node (codes "2") o.predefined.two in
          (lt, q ∙ ap ok more.text_two)

      pub pi_Has : Has t t.pi_node d.pi
      pi_Has =
          let (lt, q) = text_Has t.pi_node (codes "3.141592653589793") o.predefined.pi in
          (lt, q ∙ ap ok more.text_pi)
