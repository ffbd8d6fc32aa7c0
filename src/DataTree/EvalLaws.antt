-- ===== src/DataTree/EvalLaws.antt =====
-- `eval` of preprocessor/ExprNode.cc on a list of nodes in which arguments come first.
use dynare.Prelude.{
  ℕ, ◌<◌, ◌≡◌, refl, sym, ◌∙◌, inl, inr, true, false, List, [], ◌∷◌, some, length, ◌==◌, lookup,
  Result, ok, arith, ℤ, >>=-eq-ok, Bool-cases,
}
use dynare.NumericalConstants.{NumericalConstants, get_double}
use dynare.DataTree.Doubles.{Doubles}
use mathlib.Core.Path.{subst₂}
use dynare.DataTree.Nodes.{
  Node, num_const, variable, unary, binary, trinary, external, first_deriv, second_deriv, node_at,
  int_key,
}
use dynare.DataTree.Eval.{EvalError, Context, eval_in, eval_node}
use dynare.DataTree.Structure.{ArgsBelow, node_at-lt, node_at-cons, node_at-old}

-- Every node comes after its arguments.
abbrev pub Closed : List Node → Type 0
Closed l = (i : ℕ) (n : Node) → node_at l i ≡ some n → ArgsBelow i n

pub Closed-tail : (l : List Node) (n : Node) → Closed (n ∷ l) → Closed l
Closed-tail l n c i m h = c i m (node_at-old l n i (node_at-lt l i h) ∙ h)

pub Closed-cons : (l : List Node) (n : Node) → Closed l → ArgsBelow (length l) n → Closed (n ∷ l)
Closed-cons l n c a i m h = elim (node_at-cons l n i h) [
  | inl (e, q) ↦ subst₂ ArgsBelow (sym e) q a
  | inr e ↦ c i m e
]

module _ (d : Doubles) where
  open d use {Double}

  -- What an evaluation of the arguments returns.
  abbrev Values : Type 0
  Values = ℕ → Result EvalError Double

  eval_node_congr :
      (c : NumericalConstants Double) (ctx : Context d) (n : Node) (i : ℕ) (f g : Values)
      → ((j : ℕ) → j < i → f j ≡ g j)
      → ArgsBelow i n
      → eval_node d c ctx n f ≡ eval_node d c ctx n g
  unfolding eval_node
  eval_node_congr c ctx (num_const id) i f g e a = refl
  eval_node_congr c ctx (variable k ty) i f g e a = refl
  eval_node_congr c ctx (unary k) i f g e a = rw (e k.arg a)
  eval_node_congr c ctx (binary k) i f g e a = rw (e k.arg1 a.0, e k.arg2 a.1)
  eval_node_congr c ctx (trinary k) i f g e a = rw (e k.arg1 a.0, e k.arg2 a.1, e k.arg3 a.2)
  eval_node_congr c ctx (external k) i f g e a = refl
  eval_node_congr c ctx (first_deriv k) i f g e a = refl
  eval_node_congr c ctx (second_deriv k) i f g e a = refl

  -- A new node changes the value of no other.
  pub eval_in-old :
      (c : NumericalConstants Double) (ctx : Context d) (l : List Node) (n : Node) (i : ℕ)
      → i < length l
      → eval_in d c ctx (n ∷ l) i ≡ eval_in d c ctx l i
  unfolding eval_in
  eval_in-old c ctx l n i h = ground arith

  eval_in-new :
      (c : NumericalConstants Double) (ctx : Context d) (l : List Node) (n : Node)
      → eval_in d c ctx (n ∷ l) (length l) ≡ eval_node d c ctx n (eval_in d c ctx l)
  unfolding eval_in
  eval_in-new c ctx l n = ground arith

  -- The value of a node, from the values of its arguments.
  pub eval_in-node :
      (c : NumericalConstants Double) (ctx : Context d) (l : List Node) (i : ℕ) (n : Node)
      → Closed l
      → node_at l i ≡ some n
      → eval_in d c ctx l i ≡ eval_node d c ctx n (eval_in d c ctx l)
  unfolding node_at
  eval_in-node c ctx [] i n closed h = cc
  eval_in-node c ctx (m ∷ l) i n closed h = elim (node_at-cons l m i h) [
    | inl (e, q) ↦
        let a = subst₂ ArgsBelow e (sym q) (closed i n h) in
        rw (e, ← q)
          (eval_in-new c ctx l m
            ∙ eval_node_congr c ctx m (length l) _ _ (λ j b. sym (eval_in-old c ctx l m j b)) a)
    | inr e ↦
        let lt = node_at-lt l i e in
        eval_in-old c ctx l m i lt
        ∙ eval_in-node c ctx l i n (Closed-tail l m closed) e
        ∙ eval_node_congr c ctx n i _ _ (λ j b. sym (eval_in-old c ctx l m j (omega arith)))
            (closed i n h)
  ]

  hit :
      (c : NumericalConstants Double) (ctx : Context d) (l : List Node) (n : Node) (i : ℕ)
      → (i == length l) ≡ true
      → eval_node d c ctx n (eval_in d c ctx l) ≡ eval_in d c ctx (n ∷ l) i
  unfolding eval_in
  hit c ctx l n i e = ground arith

  miss :
      (c : NumericalConstants Double) (ctx : Context d) (l : List Node) (n : Node) (i : ℕ)
      → (i == length l) ≡ false
      → eval_in d c ctx l i ≡ eval_in d c ctx (n ∷ l) i
  unfolding eval_in
  miss c ctx l n i e = ground arith

  -- Only a node has a value.
  pub eval_in-lt :
      (c : NumericalConstants Double) (ctx : Context d) (l : List Node) (i : ℕ) (v : Double)
      → eval_in d c ctx l i ≡ ok v
      → i < length l
  unfolding eval_in
  eval_in-lt c ctx [] i v h = cc
  eval_in-lt c ctx (n ∷ l) i v h = elim (Bool-cases (i == length l)) [
    | inl e ↦ ground arith
    | inr e ↦ let b = eval_in-lt c ctx l i v (miss c ctx l n i e ∙ h) in omega arith
  ]

  -- `c'` has every constant that `c` has.
  abbrev pub MoreConstants : NumericalConstants Double → NumericalConstants Double → Type 0
  MoreConstants c c' = (i : ℕ) (v : Double) → get_double d c i ≡ some v → get_double d c' i ≡ some v

  -- `g` returns every value that `f` returns.
  abbrev Refines : Values → Values → Type 0
  Refines f g = (j : ℕ) (v : Double) → f j ≡ ok v → g j ≡ ok v

  eval_node_mono :
      (c c' : NumericalConstants Double) (ctx ctx' : Context d) (n : Node) (f g : Values)
      → MoreConstants c c'
      → ((s : ℤ) (v : Double) → lookup s ctx ≡ some v → lookup s ctx' ≡ some v)
      → Refines f g
      → {w : Double} → eval_node d c ctx n f ≡ ok w
      → eval_node d c' ctx' n g ≡ ok w
  unfolding eval_node
  eval_node_mono c c' ctx ctx' (num_const id) f g m k r {w} h = ground (arith, m id w)
  eval_node_mono c c' ctx ctx' (variable x ty) f g m k r {w} h = ground (arith, k x.symb_id w)
  eval_node_mono c c' ctx ctx' (unary x) f g m k r {w} h =
      let (v, e, e') = >>=-eq-ok (f x.arg) _ h in rw (r x.arg v e) e'
  eval_node_mono c c' ctx ctx' (binary x) f g m k r {w} h =
      let (v, e, e') = >>=-eq-ok (f x.arg1) _ h in
      let (u, p, p') = >>=-eq-ok (f x.arg2) _ e' in rw (r x.arg1 v e, r x.arg2 u p) p'
  eval_node_mono c c' ctx ctx' (trinary x) f g m k r {w} h =
      let (v, e, e') = >>=-eq-ok (f x.arg1) _ h in
      let (u, p, p') = >>=-eq-ok (f x.arg2) _ e' in
      let (y, q, q') = >>=-eq-ok (f x.arg3) _ p' in rw (r x.arg1 v e, r x.arg2 u p, r x.arg3 y q) q'
  eval_node_mono c c' ctx ctx' (external x) f g m k r h = h
  eval_node_mono c c' ctx ctx' (first_deriv x) f g m k r h = h
  eval_node_mono c c' ctx ctx' (second_deriv x) f g m k r h = h

  -- A value stays when constants are added and when more symbols get values.
  pub eval_in_mono :
      (c c' : NumericalConstants Double) (ctx ctx' : Context d) (l : List Node) (i : ℕ)
      → MoreConstants c c'
      → ((s : ℤ) (v : Double) → lookup s ctx ≡ some v → lookup s ctx' ≡ some v)
      → (w : Double) → eval_in d c ctx l i ≡ ok w
      → eval_in d c' ctx' l i ≡ ok w
  unfolding eval_in
  eval_in_mono c c' ctx ctx' [] i m k w h = cc
  eval_in_mono c c' ctx ctx' (n ∷ l) i m k w h = elim (Bool-cases (i == length l)) [
    | inl e ↦
        sym (hit c' ctx' l n i e)
        ∙ eval_node_mono c c' ctx ctx' n _ _ m k (λ j v g. eval_in_mono c c' ctx ctx' l j m k v g)
            (hit c ctx l n i e ∙ h)
    | inr e ↦
        sym (miss c' ctx' l n i e) ∙ eval_in_mono c c' ctx ctx' l i m k w (miss c ctx l n i e ∙ h)
  ]
