-- ===== src/DataTree/Functions.antt =====
-- The values of the functions of one argument that preprocessor/DataTree.cc builds.
use dynare.Prelude.{
  ℕ, ◌≡◌, refl, sym, ap, ◌∙◌, inl, inr, true, false, ok, throw, >>=-eq-ok, arith, Bool-cases, ◌==◌,
}
use dynare.DataTree.Doubles.{Doubles}
use dynare.DataTree.Laws.{Laws}
use dynare.DataTree.Nodes.{
  UnaryOpcode, Tree, TreeOutcome, TreeError, exit_division_by_zero, exit_log_of_zero,
  exit_log10_of_zero,
}
use dynare.DataTree.Eval.{Context, eval, eval_unary}
use dynare.DataTree.Insert.{plain, add_plain}
use dynare.DataTree.Build.{
  unless_zero, unless_one, unless_zero_one, logarithm, add_divide, add_exp, add_log, add_log10,
  add_cos, add_sin, add_tan, add_acos, add_asin, add_atan, add_cosh, add_sinh, add_tanh, add_acosh,
  add_asinh, add_atanh, add_sqrt, add_abs, add_sign, add_erf,
}
use dynare.DataTree.Invariant.{IsShared, HasSpecials, Builds, Valid}
use dynare.DataTree.Constants.{unary_meaning}
use dynare.DataTree.Negation.{eval_zero}
use dynare.DataTree.Operations.{add_unary_op-Builds}
use dynare.DataTree.NewTree.{distinct, one_ne_zero}
use dynare.DataTree.Values.{
  returns_node, calls, zero-Valid, one-Valid, eval_one, value_zero, value_one,
}

module _ (d : Doubles) (laws : Laws d) (t : Tree d.Double) (s : IsShared d t) (h : HasSpecials d t)
    (a : ℕ) (va : Valid d t a) where
  open d use {Double, of_int}

  -- The method returns a node whose value is the operation's on the value of the argument.
  abbrev pub Applies : UnaryOpcode → TreeOutcome (ℕ × Tree Double) → Type 0
  Applies op r = Builds d t r (unary_meaning d t (plain op a))

  plain-Applies : (op : UnaryOpcode) → Applies op (add_plain d t op a)
  plain-Applies op = add_unary_op-Builds d laws t (plain op a) s h va

  -- A predefined node instead of the operation on another one.
  known :
      (op : UnaryOpcode) (e : ℕ) (r : TreeOutcome (ℕ × Tree Double)) (x y : Double)
      → r ≡ ok (e, t)
      → Valid d t e
      → ((ctx : Context d) → eval d t ctx e ≡ ok y)
      → ((ctx : Context d) (v : Double) → eval d t ctx a ≡ ok v → v ≡ x)
      → eval_unary d op x ≡ ok y
      → Applies op r
  known op e r x y q ve value is_x f = returns_node d t e r _ q s ve (λ ctx w g.
      let (v, p, p') = >>=-eq-ok (eval d t ctx a) _ g in
      let z = is_x ctx v p in value ctx ∙ sym f ∙ cc)

  unless_zero-Applies :
      (op : UnaryOpcode) (e : ℕ) (y : Double)
      → Valid d t e
      → ((ctx : Context d) → eval d t ctx e ≡ ok y)
      → eval_unary d op (of_int 0) ≡ ok y
      → Applies op (unless_zero d t op a e)
  unless_zero-Applies op e y ve value f = elim (Bool-cases (a == t.zero_node)) [
    | inl z ↦
        known op e _ (of_int 0) y (rw z refl) ve value
          (λ ctx v p. value_zero d laws t s h ctx a z p) f
    | inr z ↦ calls d t _ (add_plain d t op a) _ _ (rw z refl) (plain-Applies op) (λ ctx w g. g)
  ]

  -- A function that is 0 at 0, and one that is 1 there.
  keeps_zero :
      (op : UnaryOpcode)
      → eval_unary d op (of_int 0) ≡ ok (of_int 0)
      → Applies op (unless_zero d t op a t.zero_node)
  keeps_zero op f =
      unless_zero-Applies op t.zero_node (of_int 0) (zero-Valid d laws t s h)
        (λ ctx. eval_zero d laws t ctx s h) f

  one_at_zero :
      (op : UnaryOpcode)
      → eval_unary d op (of_int 0) ≡ ok (of_int 1)
      → Applies op (unless_zero d t op a t.one_node)
  one_at_zero op f =
      unless_zero-Applies op t.one_node (of_int 1) (one-Valid d laws t s h) (eval_one d laws t s h)
        f

  zero_at_one :
      (op : UnaryOpcode) (r : TreeOutcome (ℕ × Tree Double))
      → (a == t.one_node) ≡ true
      → r ≡ ok (t.zero_node, t)
      → eval_unary d op (of_int 1) ≡ ok (of_int 0)
      → Applies op r
  zero_at_one op r z q f =
      known op t.zero_node r (of_int 1) (of_int 0) q (zero-Valid d laws t s h)
        (λ ctx. eval_zero d laws t ctx s h) (λ ctx v p. value_one d laws t s h ctx a z p) f

  unless_one-Applies :
      (op : UnaryOpcode)
      → eval_unary d op (of_int 1) ≡ ok (of_int 0)
      → Applies op (unless_one d t op a)
  unless_one-Applies op f = elim (Bool-cases (a == t.one_node)) [
    | inl z ↦ zero_at_one op _ z (rw z refl) f
    | inr z ↦ calls d t _ (add_plain d t op a) _ _ (rw z refl) (plain-Applies op) (λ ctx w g. g)
  ]

  unless_zero_one-Applies :
      (op : UnaryOpcode)
      → eval_unary d op (of_int 0) ≡ ok (of_int 0)
      → eval_unary d op (of_int 1) ≡ ok (of_int 1)
      → Applies op (unless_zero_one d t op a)
  unless_zero_one-Applies op f g = elim (Bool-cases (a == t.zero_node)) [
    | inl z ↦
        known op t.zero_node _ (of_int 0) (of_int 0) (rw z refl) (zero-Valid d laws t s h)
          (λ ctx. eval_zero d laws t ctx s h) (λ ctx v p. value_zero d laws t s h ctx a z p) f
    | inr z ↦ elim (Bool-cases (a == t.one_node)) [
      | inl o ↦
          known op t.one_node _ (of_int 1) (of_int 1) (rw (z, o) refl) (one-Valid d laws t s h)
            (eval_one d laws t s h) (λ ctx v p. value_one d laws t s h ctx a o p) g
      | inr o ↦
          calls d t _ (add_plain d t op a) _ _ (rw (z, o) refl) (plain-Applies op) (λ ctx w g. g)
    ]
  ]

  -- In exact arithmetic, on a tree that is in order with its predefined nodes, and for a node of it:
  -- the functions of one argument return a node whose value is the function's at the value of the
  -- argument, with the values at `Zero` and `One` that the code knows.
  pub functions-Applies :
      Applies UnaryOpcode.exp (add_exp d t a)
      × Applies UnaryOpcode.cos (add_cos d t a)
      × Applies UnaryOpcode.sin (add_sin d t a)
      × Applies UnaryOpcode.tan (add_tan d t a)
      × Applies UnaryOpcode.acos (add_acos d t a)
      × Applies UnaryOpcode.asin (add_asin d t a)
      × Applies UnaryOpcode.atan (add_atan d t a)
      × Applies UnaryOpcode.cosh (add_cosh d t a)
      × Applies UnaryOpcode.sinh (add_sinh d t a)
      × Applies UnaryOpcode.tanh (add_tanh d t a)
      × Applies UnaryOpcode.acosh (add_acosh d t a)
      × Applies UnaryOpcode.asinh (add_asinh d t a)
      × Applies UnaryOpcode.atanh (add_atanh d t a)
      × Applies UnaryOpcode.sqrt (add_sqrt d t a)
      × Applies UnaryOpcode.abs (add_abs d t a)
      × Applies UnaryOpcode.sign (add_sign d t a)
      × Applies UnaryOpcode.erf (add_erf d t a)
  unfolding eval_unary add_exp add_cos add_sin add_tan add_acos add_asin add_atan add_cosh add_sinh
      add_tanh add_acosh add_asinh add_atanh add_sqrt add_abs add_sign add_erf
  functions-Applies = (
    one_at_zero UnaryOpcode.exp (ap ok laws.exp_zero),
    one_at_zero UnaryOpcode.cos (ap ok laws.cos_zero),
    keeps_zero UnaryOpcode.sin (ap ok laws.sin_zero),
    keeps_zero UnaryOpcode.tan (ap ok laws.tan_zero),
    unless_one-Applies UnaryOpcode.acos (ap ok laws.acos_one),
    keeps_zero UnaryOpcode.asin (ap ok laws.asin_zero),
    keeps_zero UnaryOpcode.atan (ap ok laws.atan_zero),
    one_at_zero UnaryOpcode.cosh (ap ok laws.cosh_zero),
    keeps_zero UnaryOpcode.sinh (ap ok laws.sinh_zero),
    keeps_zero UnaryOpcode.tanh (ap ok laws.tanh_zero),
    unless_one-Applies UnaryOpcode.acosh (ap ok laws.acosh_one),
    keeps_zero UnaryOpcode.asinh (ap ok laws.asinh_zero),
    keeps_zero UnaryOpcode.atanh (ap ok laws.atanh_zero),
    keeps_zero UnaryOpcode.sqrt (ap ok laws.sqrt_zero),
    unless_zero_one-Applies UnaryOpcode.abs (ap ok laws.abs_zero) (ap ok laws.abs_one),
    unless_zero_one-Applies UnaryOpcode.sign (rw (laws.sign_zero) refl) (rw (laws.sign_one) refl),
    keeps_zero UnaryOpcode.erf (ap ok laws.erf_zero),
  )

  -- In exact arithmetic, on a tree that is in order with its predefined nodes, and for a node of it:
  -- the logarithms of a node other than `Zero` have the logarithm as their value.
  pub logarithms-Applies :
      (a == t.zero_node) ≡ false
      → Applies UnaryOpcode.log (add_log d t a) × Applies UnaryOpcode.log10 (add_log10 d t a)
  unfolding eval_unary add_log add_log10
  logarithms-Applies z = (
    of_logarithm UnaryOpcode.log exit_log_of_zero (ap ok laws.log_one),
    of_logarithm UnaryOpcode.log10 exit_log10_of_zero (ap ok laws.log10_one),
  )
    where
      of_logarithm :
          (op : UnaryOpcode) (e : TreeError)
          → eval_unary d op (of_int 1) ≡ ok (of_int 0)
          → Applies op (logarithm d t op a e)
      of_logarithm op e f = elim (Bool-cases (a == t.one_node)) [
        | inl o ↦ zero_at_one op _ o (rw (z, o) refl) f
        | inr o ↦
            calls d t _ (add_plain d t op a) _ _ (rw (z, o) refl) (plain-Applies op) (λ ctx w g. g)
      ]

-- In a tree with its predefined nodes, the logarithms of `Zero`, and quotients by it, stop the program, each with its error: `One` is
-- another node.
pub errors_at_zero :
    (d : Doubles) (t : Tree d.Double) (a : ℕ)
    → HasSpecials d t
    → (add_log d t t.zero_node ≡ throw exit_log_of_zero)
      × (add_log10 d t t.zero_node ≡ throw exit_log10_of_zero)
      × (add_divide d t a t.zero_node ≡ throw exit_division_by_zero)
unfolding add_log add_log10 add_divide
errors_at_zero d t a h =
    let ne = distinct d t t.zero_node t.one_node _ _ h.zero h.one (λ e. one_ne_zero d (sym e)) in
    let eq : (t.zero_node == t.zero_node) ≡ true = ground arith in
    (rw (ne, eq) refl, rw (ne, eq) refl, rw (ne, eq) refl)
