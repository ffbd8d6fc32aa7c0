-- ===== src/Derivation/Prepare.antt =====
-- preprocessor/ExprNode.cc: `prepareForDerivation` finds all derivation IDs by which a derivative is not 0.
use dynare.Prelude.{
  ℕ, zero, suc, ◌<◌, ◌≤◌, ◌≡◌, refl, sym, ◌∙◌, inl, inr, true, false, List, [], ◌∷◌, ◌++◌, none,
  some, Option-cases, if◌then◌else◌, ◌==◌, ok, >>=-eq-ok, ok-injective, ℤ, pos, negsuc, eqb_ℤ,
  arith, Bool-cases, lookup, insert, lookup-insert_self, lookup-insert_ne,
}
use mathlib.Core.Path.{subst}
use dynare.SymbolTable.State.{SymbolType}
use dynare.DataTree.Doubles.{Doubles}
use dynare.DataTree.Nodes.{
  Node, num_const, variable, unary, binary, trinary, external, first_deriv, second_deriv, Tree,
  TreeOutcome, node_at, nat_key, VariableKey, UnaryKey, BinaryKey, TrinaryKey,
}
use dynare.DataTree.Eval.{Context, eval}
use dynare.DataTree.EvalLaws.{Closed}
use dynare.Derivation.DerivIds.{DerivIds}
use dynare.Derivation.Derivative.{
  derivative, derivative_node, derivative-node, is_covered, is_regular, known_id, known_id-eq,
}
use dynare.Derivation.Recursion.{
  NonNull, non_null, has_id, is_derivable, has_steady_state, prepare, prepare_node,
}

-- The set of the node `a` is there, and is a subset of `l`.
abbrev pub Within : NonNull → ℕ → List ℤ → Type 0
Within p a l =
    (s : List ℤ) × (lookup a p ≡ some s) × ((x : ℤ) → has_id x l ≡ false → has_id x s ≡ false)

-- `l` may be the set of a node.
abbrev pub Fits : DerivIds → NonNull → Node → List ℤ → Type 0
Fits ids p (num_const c) l = Unit {0}
Fits ids p (variable k ty) l =
    (own : ℤ) → ids.get_deriv_id k.symb_id k.lag ≡ ok own → has_id own l ≡ true
Fits ids p (unary k) l = Within p k.arg l
Fits ids p (binary k) l = Within p k.arg1 l × Within p k.arg2 l
Fits ids p (trinary k) l = Within p k.arg1 l × Within p k.arg2 l × Within p k.arg3 l
Fits ids p _ l = Unit {0}

-- The sets that are there belong to nodes and are right.
abbrev pub ArePrepared : {D : Type 0} → DerivIds → Tree D → NonNull → Type 0
ArePrepared ids t p =
    (e : ℕ) (l : List ℤ)
    → lookup e p ≡ some l
    → (n : Node) × (node_at t.node_list e ≡ some n) × Fits ids p n l

-- Sets that were there stay.
abbrev pub Keeps : NonNull → NonNull → Type 0
Keeps p q = (a : ℕ) (s : List ℤ) → lookup a p ≡ some s → lookup a q ≡ some s

Within-Keeps : (p q : NonNull) (a : ℕ) (l : List ℤ) → Keeps p q → Within p a l → Within q a l
Within-Keeps p q a l k (s, h, sub) = (s, k a s h, sub)

Fits-Keeps :
    (ids : DerivIds) (p q : NonNull) (n : Node) (l : List ℤ)
    → Keeps p q
    → Fits ids p n l
    → Fits ids q n l
Fits-Keeps ids p q (num_const c) l k f = tt
Fits-Keeps ids p q (variable x ty) l k f = f
Fits-Keeps ids p q (unary x) l k f = Within-Keeps p q x.arg l k f
Fits-Keeps ids p q (binary x) l k f =
    (Within-Keeps p q x.arg1 l k f.0, Within-Keeps p q x.arg2 l k f.1)
Fits-Keeps ids p q (trinary x) l k f = (
  Within-Keeps p q x.arg1 l k f.0,
  Within-Keeps p q x.arg2 l k f.1,
  Within-Keeps p q x.arg3 l k f.2,
)
Fits-Keeps ids p q (external x) l k f = tt
Fits-Keeps ids p q (first_deriv x) l k f = tt
Fits-Keeps ids p q (second_deriv x) l k f = tt

has_id-append :
    (x : ℤ) (l m : List ℤ) → has_id x (l ++ m) ≡ false → (has_id x l ≡ false) × (has_id x m ≡ false)
unfolding has_id
has_id-append x [] m h = (refl, h)
has_id-append x (y ∷ l) m h = ground (arith, has_id-append x l m)

-- A new set.
new_set :
    {D : Type 0} (ids : DerivIds) (t : Tree D) (p : NonNull) (e : ℕ) (n : Node) (l : List ℤ)
    → lookup e p ≡ none
    → node_at t.node_list e ≡ some n
    → ArePrepared ids t p
    → Fits ids p n l
    → ArePrepared ids t (insert e l p) × Keeps p (insert e l p) × (lookup e (insert e l p) ≡ some l)
new_set ids t p e n l fresh at a f =
    let k : Keeps p (insert e l p) = λ b s h. elim (Bool-cases (e == b)) [
      | inl q ↦ (let q' : e ≡ b = ground arith in absurd (cc (rw q' at fresh)))
      | inr q ↦ lookup-insert_ne e b l p (λ z. ground arith) ∙ h
    ] in
    (
      λ b m h. elim (Bool-cases (e == b)) [
        | inl q ↦
            let b_eq : e ≡ b = ground arith in
            let l_eq : l ≡ m = cc (lookup-insert_self e l p) in
            (
              n,
              rw (← b_eq) at,
              subst (Fits ids (insert e l p) n) l_eq (Fits-Keeps ids p (insert e l p) n l k f),
            )
        | inr q ↦
            let (o, g, f') = a b m (sym (lookup-insert_ne e b l p (λ z. ground arith)) ∙ h) in
            (o, g, Fits-Keeps ids p (insert e l p) o m k f')
      ],
      k,
      lookup-insert_self e l p,
    )

pub non_null-eq : (p : NonNull) (a : ℕ) (s : List ℤ) → lookup a p ≡ some s → non_null p a ≡ s
non_null-eq p a s h = ground arith

-- The union of sets.
in_first :
    (p : NonNull) (a : ℕ) (s m : List ℤ) → lookup a p ≡ some s → Within p a (non_null p a ++ m)
in_first p a s m h = (s, h, λ x g. (has_id-append x s m (rw (non_null-eq p a s h) at g)).0)

in_second :
    (p : NonNull) (a : ℕ) (s m : List ℤ) → lookup a p ≡ some s → Within p a (m ++ non_null p a)
in_second p a s m h = (s, h, λ x g. (has_id-append x m s (rw (non_null-eq p a s h) at g)).1)

grown : (p : NonNull) (a : ℕ) (l m : List ℤ) → Within p a l → Within p a (l ++ m)
grown p a l m (s, h, sub) = (s, h, λ x g. sub x (has_id-append x l m g).0)

pub eqb_ℤ→eq : (a b : ℤ) → eqb_ℤ a b ≡ true → a ≡ b
eqb_ℤ→eq a b h = ground arith

module _ (d : Doubles) (ids : DerivIds) (t : Tree d.Double) where
  -- The call `r` prepares the node `e` and nodes before it, and keeps the sets right.
  pub record Done (p : NonNull) (r : TreeOutcome NonNull) (e : ℕ) : Type 0 where
    pub sets : NonNull
    pub returns : r ≡ ok sets
    pub prepared : ArePrepared ids t sets
    pub keeps : Keeps p sets
    pub others : (b : ℕ) → e < b → lookup b sets ≡ lookup b p
    pub own : List ℤ
    pub found : lookup e sets ≡ some own

  -- The last step of a node, after its arguments.
  mark :
      (p q : NonNull) (r : TreeOutcome NonNull) (e : ℕ) (n : Node) (l : List ℤ)
      → lookup e p ≡ none
      → node_at t.node_list e ≡ some n
      → ArePrepared ids t q
      → Keeps p q
      → ((b : ℕ) → e ≤ b → lookup b q ≡ lookup b p)
      → r ≡ ok (insert e l q)
      → Fits ids q n l
      → Done p r e
  mark p q r e n l fresh at a k o h f =
      let (a', k', s) = new_set ids t q e n l (o e (omega arith) ∙ fresh) at a f in
      record {
        sets = insert e l q;
        returns = h;
        prepared = a';
        keeps = λ b m g. k' b m (k b m g);
        others = λ b lt. lookup-insert_ne e b l q (λ z. omega arith) ∙ o b (omega arith);
        own = l;
        found = s;
      }

  module _ (ctx : Context d) (id : ℤ) (closed : Closed t.node_list) where
    -- What the calls on the arguments of the node `e` do.
    abbrev Calls : (NonNull → ℕ → TreeOutcome NonNull) → ℕ → ℕ → Type 0
    Calls rec depth e =
        (q : NonNull) (a : ℕ) (z : d.Double)
        → a < e
        → derivative d ids id depth t ctx a ≡ ok z
        → ArePrepared ids t q
        → Done q (rec q a) a

    has_own : (own : ℤ) → has_id own (own ∷ []) ≡ true
    unfolding has_id
    has_own (pos a) = ground arith
    has_own (negsuc a) = ground arith

    variable-Done :
        (rec : NonNull → ℕ → TreeOutcome NonNull) (depth : ℕ) (p : NonNull) (e : ℕ)
        (k : VariableKey) (ty : SymbolType) (z : d.Double)
        → lookup e p ≡ none
        → node_at t.node_list e ≡ some (variable k ty)
        → derivative_node d ids id (variable k ty) (eval d t ctx) (derivative d ids id depth t ctx)
          ≡ ok z
        → ArePrepared ids t p
        → Done p (prepare_node ids rec t p e (variable k ty)) e
    unfolding derivative_node prepare_node
    variable-Done rec depth p e k ty z fresh at h a = elim (Bool-cases (is_derivable ty)) [
      | inr b ↦ absurd (cc (rw b at h))
      | inl b ↦
          let (own, e1, h1) =
            >>=-eq-ok (known_id (ids.get_deriv_id k.symb_id k.lag)) _ (rw b at h) in
          let e2 = known_id-eq (ids.get_deriv_id k.symb_id k.lag) own e1 in
          mark p p _ e (variable k ty) (own ∷ []) fresh at a (λ c m g. g) (λ c lt. refl)
            (rw (b, e2) refl) (λ other g. rw (ok-injective (sym g ∙ e2)) (has_own own))
    ]

    unary-Done :
        (rec : NonNull → ℕ → TreeOutcome NonNull) (depth : ℕ) (p : NonNull) (e : ℕ) (k : UnaryKey)
        (z : d.Double)
        → Calls rec depth e
        → lookup e p ≡ none
        → node_at t.node_list e ≡ some (unary k)
        → derivative_node d ids id (unary k) (eval d t ctx) (derivative d ids id depth t ctx) ≡ ok z
        → ArePrepared ids t p
        → Done p (prepare_node ids rec t p e (unary k)) e
    unfolding derivative_node prepare_node
    unary-Done rec depth p e k z calls fresh at h a = elim (Bool-cases (is_covered k.op_code)) [
      | inr b ↦ absurd (cc (rw b at h))
      | inl b ↦
          let lt = closed e (unary k) at in
          let (v, e1, h1) = >>=-eq-ok (eval d t ctx k.arg) _ (rw b at h) in
          let (dv, e2, h2) = >>=-eq-ok (derivative d ids id depth t ctx k.arg) _ h1 in
          let r = calls p k.arg dv lt e2 a in
          let extra = if has_steady_state k.op_code then ids.all_param_deriv_ids else [] in
          mark p r.sets _ e (unary k) (non_null r.sets k.arg ++ extra) fresh at r.prepared r.keeps
            (λ c le. r.others c (omega arith)) (rw (r.returns) refl)
            (in_first r.sets k.arg r.own _ r.found)
    ]

    binary-Done :
        (rec : NonNull → ℕ → TreeOutcome NonNull) (depth : ℕ) (p : NonNull) (e : ℕ) (k : BinaryKey)
        (z : d.Double)
        → Calls rec depth e
        → lookup e p ≡ none
        → node_at t.node_list e ≡ some (binary k)
        → derivative_node d ids id (binary k) (eval d t ctx) (derivative d ids id depth t ctx)
          ≡ ok z
        → ArePrepared ids t p
        → Done p (prepare_node ids rec t p e (binary k)) e
    unfolding derivative_node prepare_node
    binary-Done rec depth p e k z calls fresh at h a =
        elim (Bool-cases (is_regular k.op_code k.power_deriv_order)) [
          | inr b ↦ absurd (cc (rw b at h))
          | inl b ↦
              let (lt1, lt2) = closed e (binary k) at in
              let (v1, e1, h1) = >>=-eq-ok (eval d t ctx k.arg1) _ (rw b at h) in
              let (dv1, e2, h2) = >>=-eq-ok (derivative d ids id depth t ctx k.arg1) _ h1 in
              let (v2, e3, h3) = >>=-eq-ok (eval d t ctx k.arg2) _ h2 in
              let (dv2, e4, h4) = >>=-eq-ok (derivative d ids id depth t ctx k.arg2) _ h3 in
              let r1 = calls p k.arg1 dv1 lt1 e2 a in
              let r2 = calls r1.sets k.arg2 dv2 lt2 e4 r1.prepared in
              let s = r2.sets in
              mark p s _ e (binary k) _ fresh at r2.prepared
                (λ c m g. r2.keeps c m (r1.keeps c m g))
                (λ c le. r2.others c (omega arith) ∙ r1.others c (omega arith))
                (rw (r1.returns, r2.returns) refl)
                (
                  in_first s k.arg1 r1.own _ (r2.keeps k.arg1 r1.own r1.found),
                  in_second s k.arg2 r2.own _ r2.found,
                )
        ]

    trinary-Done :
        (rec : NonNull → ℕ → TreeOutcome NonNull) (depth : ℕ) (p : NonNull) (e : ℕ) (k : TrinaryKey)
        (z : d.Double)
        → Calls rec depth e
        → lookup e p ≡ none
        → node_at t.node_list e ≡ some (trinary k)
        → derivative_node d ids id (trinary k) (eval d t ctx) (derivative d ids id depth t ctx)
          ≡ ok z
        → ArePrepared ids t p
        → Done p (prepare_node ids rec t p e (trinary k)) e
    unfolding derivative_node prepare_node
    trinary-Done rec depth p e k z calls fresh at h a =
        let (lt1, lt2, lt3) = closed e (trinary k) at in
        let (v1, e1, h1) = >>=-eq-ok (eval d t ctx k.arg1) _ h in
        let (dv1, e2, h2) = >>=-eq-ok (derivative d ids id depth t ctx k.arg1) _ h1 in
        let (v2, e3, h3) = >>=-eq-ok (eval d t ctx k.arg2) _ h2 in
        let (dv2, e4, h4) = >>=-eq-ok (derivative d ids id depth t ctx k.arg2) _ h3 in
        let (v3, e5, h5) = >>=-eq-ok (eval d t ctx k.arg3) _ h4 in
        let (dv3, e6, h6) = >>=-eq-ok (derivative d ids id depth t ctx k.arg3) _ h5 in
        let r1 = calls p k.arg1 dv1 lt1 e2 a in
        let r2 = calls r1.sets k.arg2 dv2 lt2 e4 r1.prepared in
        let r3 = calls r2.sets k.arg3 dv3 lt3 e6 r2.prepared in
        let s = r3.sets in
        let f1 = r3.keeps k.arg1 r1.own (r2.keeps k.arg1 r1.own r1.found) in
        let f2 = r3.keeps k.arg2 r2.own r2.found in
        mark p s _ e (trinary k) _ fresh at r3.prepared
          (λ c m g. r3.keeps c m (r2.keeps c m (r1.keeps c m g)))
          (λ c le.
            r3.others c (omega arith) ∙ r2.others c (omega arith) ∙ r1.others c (omega arith))
          (rw (r1.returns, r2.returns, r3.returns) refl)
          (
            grown s k.arg1 (non_null s k.arg1 ++ non_null s k.arg2) _
                (in_first s k.arg1 r1.own _ f1),
            grown s k.arg2 (non_null s k.arg1 ++ non_null s k.arg2) _
                (in_second s k.arg2 r2.own _ f2),
            in_second s k.arg3 r3.own _ r3.found,
          )

    node-Done :
        (rec : NonNull → ℕ → TreeOutcome NonNull) (depth : ℕ) (p : NonNull) (e : ℕ) (n : Node)
        (z : d.Double)
        → Calls rec depth e
        → lookup e p ≡ none
        → node_at t.node_list e ≡ some n
        → derivative_node d ids id n (eval d t ctx) (derivative d ids id depth t ctx) ≡ ok z
        → ArePrepared ids t p
        → Done p (prepare_node ids rec t p e n) e
    unfolding derivative_node prepare_node
    node-Done rec depth p e (num_const c) z calls fresh at h a =
        mark p p _ e (num_const c) [] fresh at a (λ b m g. g) (λ b lt. refl) refl tt
    node-Done rec depth p e (variable k ty) z calls fresh at h a =
        variable-Done rec depth p e k ty z fresh at h a
    node-Done rec depth p e (unary k) z calls fresh at h a =
        unary-Done rec depth p e k z calls fresh at h a
    node-Done rec depth p e (binary k) z calls fresh at h a =
        binary-Done rec depth p e k z calls fresh at h a
    node-Done rec depth p e (trinary k) z calls fresh at h a =
        trinary-Done rec depth p e k z calls fresh at h a
    node-Done rec depth p e (external k) z calls fresh at h a = absurd (cc h)
    node-Done rec depth p e (first_deriv k) z calls fresh at h a = absurd (cc h)
    node-Done rec depth p e (second_deriv k) z calls fresh at h a = absurd (cc h)

    prepare_fresh :
        (fuel : ℕ) (p : NonNull) (e : ℕ) (n : Node)
        → lookup e p ≡ none
        → node_at t.node_list e ≡ some n
        → prepare ids (suc fuel) t p e ≡ prepare_node ids (λ r b. prepare ids fuel t r b) t p e n
    unfolding prepare
    prepare_fresh fuel p e n q at = ground arith

    prepare_again :
        (fuel : ℕ) (p : NonNull) (e : ℕ) (l : List ℤ)
        → lookup e p ≡ some l
        → prepare ids (suc fuel) t p e ≡ ok p
    unfolding prepare
    prepare_again fuel p e l q = ground arith

    -- An expression with a derivative: with more fuel than its index, `prepareForDerivation` returns, and
    -- the sets are right, the one of the node among them; sets that were there stay.
    pub prepare-Done :
        (fuel depth : ℕ) (p : NonNull) (e : ℕ) (z : d.Double)
        → e < fuel
        → derivative d ids id depth t ctx e ≡ ok z
        → ArePrepared ids t p
        → Done p (prepare ids fuel t p e) e
    unfolding prepare derivative
    prepare-Done zero depth p e z lt h a = absurd (omega arith)
    prepare-Done (suc fuel) zero p e z lt h a = absurd (cc h)
    prepare-Done (suc fuel) (suc depth) p e z lt h a = elim (Option-cases (lookup e p)) [
      | inr (l, q) ↦ record {
        sets = p;
        returns = prepare_again fuel p e l q;
        prepared = a;
        keeps = λ b m g. g;
        others = λ b g. refl;
        own = l;
        found = q;
      }
      | inl q ↦
          let (n, at, g) = derivative-node d ids id depth t ctx e z h in
          let m =
            node-Done (λ r b. prepare ids fuel t r b) depth p e n z
              (λ r b y lt' g' a'. prepare-Done fuel depth r b y (omega arith) g' a') q at g a in
          record {
            sets = m.sets;
            returns = prepare_fresh fuel p e n q at ∙ m.returns;
            prepared = m.prepared;
            keeps = m.keeps;
            others = m.others;
            own = m.own;
            found = m.found;
          }
    ]
