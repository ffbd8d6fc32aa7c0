-- ===== src/Derivation/States.antt =====
-- The state of `getDerivative` of preprocessor/ExprNode.cc in order, and calls that keep it so.
use dynare.Prelude.{ℕ, ◌≡◌, refl, ap, ◌∙◌, some, ok, ◌>>=◌, arith, lookup}
use dynare.DataTree.Doubles.{Doubles}
use dynare.DataTree.Nodes.{Tree, TreeOutcome, nat_key}
use dynare.DataTree.Eval.{Context}
use dynare.DataTree.Invariant.{Extends-refl}
use dynare.Derivation.DerivIds.{DerivIds}
use dynare.Derivation.Reaches.{InOrder, Later, Later-trans, Has, keep, Reaches}
use dynare.Derivation.Derivative.{derivative, derivative_mono}
use dynare.Derivation.Recursion.{DerivKey, deriv_key, DerivState, on_tree}
use dynare.Derivation.Prepare.{ArePrepared}

module _ (d : Doubles) (ids : DerivIds) (ctx : Context d) where
  open d use {Double}

  -- The node `i` has the value of a derivative.
  abbrev pub IsDerivative : Tree Double → DerivKey → ℕ → Type 0
  IsDerivative t k i =
      (depth : ℕ) × (z : Double) × (derivative d ids k.deriv_id depth t ctx k.node ≡ ok z)
      × Has d ctx t i z

  -- The tree is in order, the sets that are there are right, and the cache holds derivatives.
  pub record Ready (s : DerivState Double) : Type 0 where
    pub in_order : InOrder d s.tree
    pub prepared : ArePrepared ids s.tree s.prepared
    pub cached : (k : DerivKey) (i : ℕ) → lookup k s.derivatives ≡ some i → IsDerivative s.tree k i

  -- The call `r` returns a node with the value `z`, on a tree that grew.
  pub record Derives (t : Tree Double) (r : TreeOutcome (ℕ × DerivState Double)) (z : Double)
      : Type 0 where
    pub idx : ℕ
    pub state : DerivState Double
    pub returns : r ≡ ok (idx, state)
    pub ready : Ready state
    pub later : Later d t state.tree
    pub has : Has d ctx state.tree idx z

  pub IsDerivative-Later :
      (t u : Tree Double) (k : DerivKey) (i : ℕ)
      → Later d t u
      → IsDerivative t k i
      → IsDerivative u k i
  IsDerivative-Later t u k i l (depth, z, h, g) = (
    depth,
    z,
    derivative_mono d ids k.deriv_id depth depth t u ctx k.node z (omega arith) l.extends h,
    keep d ctx i z l g,
  )

  -- The state after the tree grew.
  Ready-Later :
      (s : DerivState Double) (u : Tree Double)
      → Ready s
      → Later d s.tree u
      → Ready (record s { tree = u })
  Ready-Later s u r l = record {
    in_order = l.in_order;
    prepared = λ e m h. let (n, at, f) = r.prepared e m h in (n, l.extends.nodes e n at, f);
    cached = λ k i h. IsDerivative-Later s.tree u k i l (r.cached k i h);
  }

  same_tree : (t : Tree Double) → InOrder d t → Later d t t
  same_tree t o = record { in_order = o; extends = Extends-refl d t }

  -- A node that is there already.
  pub returned :
      (s : DerivState Double) (i : ℕ) (z : Double)
      → Ready s
      → Has d ctx s.tree i z
      → Derives s.tree (ok (i, s)) z
  returned s i z r h = record {
    idx = i;
    state = s;
    returns = refl;
    ready = r;
    later = same_tree s.tree r.in_order;
    has = h;
  }

  pub on_tree-Derives :
      (s : DerivState Double) (r : TreeOutcome (ℕ × Tree Double)) (z : Double)
      → Ready s
      → Reaches d ctx s.tree r z
      → Derives s.tree (on_tree d ids s r) z
  on_tree-Derives s r z ready m = record {
    idx = m.idx;
    state = record s { tree = m.tree };
    returns = ap (λ x. on_tree d ids s x) m.returns;
    ready = Ready-Later s m.tree ready m.later;
    later = m.later;
    has = m.has;
  }

  pub after :
      {t : Tree Double} {r : TreeOutcome (ℕ × DerivState Double)} {y z : Double}
      (k : ℕ × DerivState Double → TreeOutcome (ℕ × DerivState Double))
      → Derives t r y
      → ((i : ℕ) (u : DerivState Double)
          → Ready u
          → Later d t u.tree
          → Has d ctx u.tree i y
          → Derives u.tree (k (i, u)) z)
      → Derives t (r >>= k) z
  after k m f =
      let n = f m.idx m.state m.ready m.later m.has in
      record {
        idx = n.idx;
        state = n.state;
        returns = ap (λ x. x >>= k) m.returns ∙ n.returns;
        ready = n.ready;
        later = Later-trans d m.later n.later;
        has = n.has;
      }
