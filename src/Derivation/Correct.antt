-- ===== src/Derivation/Correct.antt =====
-- preprocessor/ExprNode.cc: `getDerivative` returns a node with the value of the derivative.
use dynare.Prelude.{
  ℕ, zero, suc, ◌<◌, ◌≡◌, refl, sym, ◌∙◌, inl, inr, true, false, none, some, Option-cases, ok,
  ◌>>=◌, ℤ, arith, Bool-cases, lookup, insert, lookup-insert_self, lookup-insert_ne,
}
use mathlib.Core.Path.{subst}
use dynare.DataTree.Doubles.{Doubles}
use dynare.DataTree.Laws.{Laws}
use dynare.DataTree.Nodes.{Node, Tree, TreeOutcome, node_at, nat_key}
use dynare.DataTree.Eval.{Context}
use dynare.Derivation.DerivIds.{DerivIds}
use dynare.Derivation.Laws.{DerivativeLaws}
use dynare.Derivation.Reaches.{Has, zero_Has}
use dynare.Derivation.Derivative.{derivative, derivative-node, derivative_mono, derivative_unique}
use dynare.Derivation.Recursion.{
  NonNull, non_null, has_id, DerivKey, deriv_key, DerivKey-discrete, DerivState, prepare,
  compute_derivative, get_derivative,
}
use dynare.Derivation.Prepare.{prepare-Done, non_null-eq}
use dynare.Derivation.States.{Ready, Derives, IsDerivative, returned, after}
use dynare.Derivation.Compute.{node-Derives}
use dynare.Derivation.NonNull.{derivative_null}

module _ (d : Doubles) (ids : DerivIds) (ctx : Context d) (laws : Laws d) (more : DerivativeLaws d)
    (id : ℤ) where
  open d use {Double}

  -- The three ways through `getDerivative`, after d ids ctx the preparation.
  module _ (fuel : ℕ) (s : DerivState Double) (e : ℕ) (p : NonNull)
      (prepared : prepare ids (suc fuel) s.tree s.prepared e ≡ ok p) where
    abbrev key : DerivKey
    key = record { node = e; deriv_id = id }

    abbrev marked : DerivState Double
    marked = record s { prepared = p }

    abbrev recursive : DerivState Double → ℕ → TreeOutcome (ℕ × DerivState Double)
    recursive u a = get_derivative d ids fuel u a id

    -- The end of the third one: the node goes to the cache.
    abbrev store : ℕ × DerivState Double → TreeOutcome (ℕ × DerivState Double)
    store q = ok (q.0, record q.1 { derivatives = insert key q.0 q.1.derivatives })

    null_way :
        has_id id (non_null p e) ≡ false
        → get_derivative d ids (suc fuel) s e id ≡ ok (marked.tree.zero_node, marked)
    unfolding get_derivative
    null_way h = rw (prepared, h) refl

    cached_way :
        (i : ℕ)
        → has_id id (non_null p e) ≡ true
        → lookup key s.derivatives ≡ some i
        → get_derivative d ids (suc fuel) s e id ≡ ok (i, marked)
    unfolding get_derivative
    cached_way i h q = rw (prepared, h) (ground arith)

    computed_way :
        (n : Node)
        → has_id id (non_null p e) ≡ true
        → lookup key s.derivatives ≡ none
        → node_at s.tree.node_list e ≡ some n
        → get_derivative d ids (suc fuel) s e id
          ≡ (compute_derivative d ids recursive marked e id n >>= store)
    unfolding get_derivative
    computed_way n h q at = rw (prepared, h) (ground arith)

  -- The cache with a new derivative.
  stored :
      (s : DerivState Double) (k : DerivKey) (i : ℕ)
      → Ready d ids ctx s
      → IsDerivative d ids ctx s.tree k i
      → Ready d ids ctx (record s { derivatives = insert k i s.derivatives })
  unfolding DerivKey-discrete
  stored s k i r h = record {
    in_order = r.in_order;
    prepared = r.prepared;
    cached = λ j a g. elim (DerivKey-discrete k j) [
      | yes q ↦ let i_eq : i ≡ a = cc (lookup-insert_self k i s.derivatives) in rw (← q, ← i_eq) h
      | no q ↦ r.cached j a (sym (lookup-insert_ne k j i s.derivatives q) ∙ g)
    ];
  }

  as_returned :
      {t : Tree Double} {r r' : TreeOutcome (ℕ × DerivState Double)} {z : Double}
      → Derives d ids ctx t r z
      → r' ≡ r
      → Derives d ids ctx t r' z
  as_returned m e = record {
    idx = m.idx;
    state = m.state;
    returns = e ∙ m.returns;
    ready = m.ready;
    later = m.later;
    has = m.has;
  }

  -- In exact arithmetic, for a node whose expression has a derivative by the derivation ID that follows from
  -- the textbook rules, in a context that gives the values of its symbols, from a state in order: with more
  -- fuel than the node's index, `getDerivative` returns a node that evaluates to this derivative. The state
  -- stays in order: the tree only grows, and what is marked as prepared and what is cached stays right. The
  -- rules give no derivative to an expression with ATANH, STEADY_STATE or its derivatives, the expectation
  -- operator, a local variable, an external function or a derivative of a power; they give one to a power
  -- only where its base is positive and not almost 0, to erf only away from 0, and to max, min, abs, sign and
  -- comparisons only where these do not jump or bend.
  pub get_derivative-Derives :
      (fuel depth : ℕ) (s : DerivState Double) (e : ℕ) (z : Double)
      → e < fuel
      → derivative d ids id depth s.tree ctx e ≡ ok z
      → Ready d ids ctx s
      → Derives d ids ctx s.tree (get_derivative d ids fuel s e id) z
  unfolding derivative
  get_derivative-Derives zero depth s e z lt h r = absurd (omega arith)
  get_derivative-Derives (suc fuel) zero s e z lt h r = absurd (cc h)
  get_derivative-Derives (suc fuel) (suc depth) s e z lt h r =
      let closed = r.in_order.shared.closed in
      let m =
        prepare-Done d ids s.tree ctx id closed (suc fuel) (suc depth) s.prepared e z lt h
          r.prepared in
      let s' = marked fuel s e m.sets m.returns in
      let r' : Ready d ids ctx s' = record {
        in_order = r.in_order;
        prepared = m.prepared;
        cached = r.cached;
      } in
      let k : DerivKey = record { node = e; deriv_id = id } in
      let own = non_null-eq m.sets e m.own m.found in
      elim (Bool-cases (has_id id (non_null m.sets e))) [
        | inr out ↦
            let q =
              derivative_null d laws more ids s.tree ctx id (suc depth) m.sets e m.own z m.prepared
                m.found (rw own at out) h in
            as_returned
              (returned d ids ctx s' s.tree.zero_node z r' (
                subst (Has d ctx s.tree s.tree.zero_node) (sym q) (zero_Has d ctx laws r.in_order)))
              (null_way fuel s e m.sets m.returns out)
        | inl inside ↦ elim (Option-cases (lookup k s.derivatives)) [
          | inr (i, c) ↦
              let (deep, y, g, hv) = r.cached k i c in
              let q = derivative_unique d ids id deep (suc depth) s.tree ctx e y z g h in
              as_returned (returned d ids ctx s' i z r' (subst (Has d ctx s.tree i) q hv))
                (cached_way fuel s e m.sets m.returns i inside c)
          | inl c ↦
              let (n, at, g) = derivative-node d ids id depth s.tree ctx e z h in
              let w =
                node-Derives d ids ctx laws more id (λ u a. get_derivative d ids fuel u a id) depth
                  s' e z
                  (λ u a y lt' g' o. get_derivative-Derives fuel depth u a y (omega arith) g' o) r'
                  n at g in
              as_returned
                (after d ids ctx _ w (λ i u o l hv.
                  returned d ids ctx (record u { derivatives = insert k i u.derivatives }) i z
                    (stored u k i o (
                      suc depth,
                      z,
                      derivative_mono d ids id (suc depth) (suc depth) s.tree u.tree ctx e z
                          (omega arith) l.extends h,
                      hv,
                    ))
                    hv))
                (computed_way fuel s e m.sets m.returns n inside c at)
        ]
      ]
