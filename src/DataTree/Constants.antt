-- ===== src/DataTree/Constants.antt =====
-- `AddNonNegativeConstant` of preprocessor/DataTree.cc, and the sharing of nodes, meet their
-- specification.
use dynare.Prelude.{
  ℕ, ◌≡◌, refl, sym, ap, ◌∙◌, inl, inr, true, [], none, some, ◌||◌, lookup, Result, ok, ◌>>=◌,
  >>=-eq-ok, ok-injective, arith, Bytes, Option-cases,
}
use dynare.NumericalConstants.{
  NumericalConstants, IsTable, get, get_double, add_non_negative_constant,
  add_non_negative_constant_lem, add_non_negative_constant_total, add_non_negative_constant-texts,
}
use mathlib.Core.Path.{subst}
use dynare.DataTree.Doubles.{Doubles}
use dynare.DataTree.Nodes.{
  Node, num_const, unary, UnaryKey, BinaryKey, TrinaryKey, node_at, Tree, TreeOutcome, nat_key,
  int_key, unary_key, binary_key, trinary_key, variable_key,
}
use dynare.DataTree.Eval.{
  EvalError, Context, eval, eval_node, eval_unary, eval_binary, eval_trinary,
}
use dynare.DataTree.Insert.{is_num_const, new_num_const, new_unary, next_idx, add_constant}
use dynare.DataTree.Structure.{node_at-lt, node_at-new}
use dynare.DataTree.EvalLaws.{eval_in_mono, eval_in-node}
use dynare.DataTree.Invariant.{
  IsShared, Extends, Extends-trans, Builds, Builds-node, Builds-push, push-Extends, Valid, IsText,
  new_num_const-IsShared, new_unary-IsShared,
}

module _ (d : Doubles) where
  open d use {Double, strtod, negate, of_int, le, lt, is_nan, is_inf, print}

  abbrev pub Meaning : Type 0
  Meaning = Context d → Result EvalError Double

  -- The value that a method ought to give to its result, from the values of its arguments.
  abbrev pub unary_meaning : Tree Double → UnaryKey → Meaning
  unary_meaning t k ctx = do v ← eval d t ctx k.arg; eval_unary d k.op_code v

  abbrev pub binary_meaning : Tree Double → BinaryKey → Meaning
  binary_meaning t k ctx = do
    v1 ← eval d t ctx k.arg1
    v2 ← eval d t ctx k.arg2
    eval_binary d v1 k.op_code v2 k.power_deriv_order

  abbrev pub trinary_meaning : Tree Double → TrinaryKey → Meaning
  trinary_meaning t k ctx = do
    v1 ← eval d t ctx k.arg1
    v2 ← eval d t ctx k.arg2
    v3 ← eval d t ctx k.arg3
    eval_trinary d v1 k.op_code v2 v3

  -- A call that comes after others.
  pub Builds-from :
      (t u : Tree Double) (r r' : TreeOutcome (ℕ × Tree Double)) (V W : Meaning)
      → Extends d t u
      → r ≡ r'
      → Builds d u r' W
      → ((ctx : Context d) (w : Double) → V ctx ≡ ok w → W ctx ≡ ok w)
      → Builds d t r V
  Builds-from t u r r' V W x e b h = record {
    idx = b.idx;
    tree = b.tree;
    returns = e ∙ b.returns;
    is_shared = b.is_shared;
    extends = Extends-trans d x b.extends;
    valid = b.valid;
    value = λ ctx w g. b.value ctx w (h ctx w g);
  }

  pub eval_node_eq :
      (t : Tree Double) (ctx : Context d) (e : ℕ) (n : Node)
      → IsShared d t
      → node_at t.node_list e ≡ some n
      → eval d t ctx e ≡ eval_node d t.num_constants ctx n (eval d t ctx)
  unfolding eval
  eval_node_eq t ctx e n s h = eval_in-node d t.num_constants ctx t.node_list e n s.closed h

  pub eval_text :
      (t : Tree Double) (ctx : Context d) (e : ℕ) (s : Bytes)
      → IsShared d t
      → IsText d t e s
      → eval d t ctx e ≡ ok (strtod s)
  unfolding eval_node get get_double
  eval_text t ctx e s sh (id, n, g) =
      eval_node_eq t ctx e (num_const id) sh n ∙ ground (arith, sh.constants.value_of_id s id g)

  -- A value under the empty context is the value under every context.
  pub eval_empty :
      (t : Tree Double) (ctx : Context d) (e : ℕ) (v : Double)
      → eval d t [] e ≡ ok v
      → eval d t ctx e ≡ ok v
  unfolding eval lookup
  eval_empty t ctx e v h =
      eval_in_mono d t.num_constants t.num_constants [] ctx t.node_list e (λ i w g. g) (λ i w g. cc)
        v h

  with_constants :
      (t : Tree Double) (c : NumericalConstants Double)
      → IsTable d c
      → IsShared d t
      → IsShared d (record t { num_constants = c })
  with_constants t c i s = record {
    constants = i;
    closed = s.closed;
    num_consts = s.num_consts;
    variables = s.variables;
    unaries = s.unaries;
    binaries = s.binaries;
    trinaries = s.trinaries;
  }

  add_constant_new :
      (t : Tree Double) (s : Bytes) (id : ℕ) (c : NumericalConstants Double)
      → add_non_negative_constant d t.num_constants s ≡ some (id, c)
      → lookup id t.num_const_node_map ≡ none
      → add_constant d t s ≡ ok (next_idx t, new_num_const (record t { num_constants = c }) id)
  unfolding add_constant
  add_constant_new t s id c e f = ground arith

  add_constant_old :
      (t : Tree Double) (s : Bytes) (id : ℕ) (c : NumericalConstants Double) (i : ℕ)
      → add_non_negative_constant d t.num_constants s ≡ some (id, c)
      → lookup id t.num_const_node_map ≡ some i
      → add_constant d t s ≡ ok (i, record t { num_constants = c })
  unfolding add_constant
  add_constant_old t s id c i e f = ground arith

  module _ (t : Tree Double) (s : Bytes) (sh : IsShared d t)
      (positive : (le (of_int 0) (strtod s) || is_nan (strtod s)) ≡ true) where
    grown :
        (id : ℕ) (c : NumericalConstants Double)
        → add_non_negative_constant d t.num_constants s ≡ some (id, c)
        → ((i : ℕ) (v : Double)
            → get_double d t.num_constants i ≡ some v
            → get_double d c i ≡ some v)
        → Extends d t (record t { num_constants = c })
    unfolding eval
    grown id c e more = record {
      nodes = λ i n h. h;
      texts = add_non_negative_constant-texts d t.num_constants s e;
      values =
          λ ctx i v h. eval_in_mono d t.num_constants c ctx ctx t.node_list i more (λ j w g. g) v h;
      same_specials = refl;
      size = omega arith;
    }

    -- `AddNonNegativeConstant` returns a constant node with the value of the text.
    pub add_constant-Builds : Builds d t (add_constant d t s) (λ ctx. ok (strtod s))
    add_constant-Builds =
        let ((id, c), e) = add_non_negative_constant_total d t.num_constants s positive in
        let (table, text, double, more, again) =
          add_non_negative_constant_lem d t.num_constants s sh.constants e in
        let u : Tree Double = record t { num_constants = c } in
        let su = with_constants t c table sh in
        let x : Extends d t u = grown id c e more in
        elim (Option-cases (lookup id t.num_const_node_map)) [
          | inl fresh ↦
              let s' = new_num_const-IsShared d u id fresh su in
              Builds-from t u _ (ok (next_idx t, new_num_const u id)) _ (λ ctx. ok (strtod s)) x
                (add_constant_new t s id c e fresh)
                (Builds-push d u (new_num_const u id) (num_const id) _ refl refl refl s' (λ ctx w h.
                  eval_text (new_num_const u id) ctx (next_idx t) s s'
                    (id, node_at-new t.node_list (num_const id), text)
                  ∙ h))
                (λ ctx w h. h)
          | inr (i, found) ↦
              let (n, at, is) = su.num_consts.sound id i found in
              Builds-from t u _ (ok (i, u)) _ (λ ctx. ok (strtod s)) x
                (add_constant_old t s id c i e found)
                (Builds-node d u i _ su (node_at-lt t.node_list i at)
                  (λ ctx w h. eval_text u ctx i s su (id, at ∙ ap some is, text) ∙ h))
                (λ ctx w h. h)
        ]

    -- The node that it returns is the constant of that text.
    pub add_constant-IsText :
        {e : ℕ} {u : Tree Double} → add_constant d t s ≡ ok (e, u) → IsText d u e s
    add_constant-IsText {e} {u} h =
        let ((id, c), p) = add_non_negative_constant_total d t.num_constants s positive in
        let text = (add_non_negative_constant_lem d t.num_constants s sh.constants p).1 in
        elim (Option-cases (lookup id t.num_const_node_map)) [
          | inl fresh ↦
              subst (λ (q : ℕ × Tree Double). IsText d q.1 q.0 s)
                (ok-injective (sym (add_constant_new t s id c p fresh) ∙ h))
                (id, node_at-new t.node_list (num_const id), text)
          | inr (i, found) ↦
              let (n, at, is) = sh.num_consts.sound id i found in
              subst (λ (q : ℕ × Tree Double). IsText d q.1 q.0 s)
                (ok-injective (sym (add_constant_old t s id c i p found) ∙ h))
                (id, at ∙ ap some is, text)
        ]

  pub is_num_const-IsText :
      (t : Tree Double) (e : ℕ) (s : Bytes) → IsText d t e s → is_num_const t e ≡ true
  is_num_const-IsText t e s (id, n, g) = ground arith

  -- A node that the map holds under its key.
  pub shared_unary :
      (t : Tree Double) (k : UnaryKey) (i : ℕ)
      → IsShared d t
      → lookup k t.unary_op_node_map ≡ some i
      → Builds d t (ok (i, t)) (unary_meaning t k)
  unfolding eval_node
  shared_unary t k i s found =
      let (n, at, is) = s.unaries.sound k i found in
      Builds-node d t i _ s (node_at-lt t.node_list i at)
        (λ ctx w h. eval_node_eq t ctx i (unary k) s (at ∙ ap some is) ∙ h)

  pub new_unary-Builds :
      (t : Tree Double) (k : UnaryKey)
      → IsShared d t
      → Valid d t k.arg
      → lookup k t.unary_op_node_map ≡ none
      → Builds d t (ok (next_idx t, new_unary t k)) (unary_meaning t k)
  unfolding eval_node
  new_unary-Builds t k s v fresh =
      let s' = new_unary-IsShared d t k fresh v s in
      let x = push-Extends d t (new_unary t k) (unary k) refl refl refl in
      Builds-push d t (new_unary t k) (unary k) _ refl refl refl s' (λ ctx w h.
        let (u, e, f) = >>=-eq-ok (eval d t ctx k.arg) _ h in
        eval_node_eq (new_unary t k) ctx (next_idx t) (unary k) s'
          (node_at-new t.node_list (unary k))
        ∙ rw (x.values ctx k.arg u e) f)
