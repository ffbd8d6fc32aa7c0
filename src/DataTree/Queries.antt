-- ===== src/DataTree/Queries.antt =====
-- preprocessor/DataTree.cc: the questions that are asked of the maps of a tree.
use dynare.Prelude.{
  ◌↔◌, List, ap, ◌∙◌, ℕ, ◌≡◌, refl, inl, inr, Bool, true, false, ◌&&◌, [], ◌∷◌, none, some, ite,
  if◌then◌else◌, Map, Key, lookup, arith, ℤ, pos, eqb_ℤ, ltb_ℤ, Bool-cases,
}
use dynare.DataTree.Doubles.{Doubles}
use dynare.DataTree.Nodes.{
  UnaryOpcode, BinaryOpcode, TrinaryOpcode, VariableKey, UnaryKey, BinaryKey, TrinaryKey,
  ExternalKey, FirstDerivKey, SecondDerivKey, Node, node_at, unary, binary, trinary, Tree,
  unary_key, binary_key, trinary_key, int_key,
}
use dynare.DataTree.Structure.{Indexes}
use dynare.DataTree.Invariant.{IsShared}

-- The loop over a map that returns `true` at the first key that passes the test.
unfoldable any_key : {K V : Type 0} → (K → Bool) → Map K V → Bool
any_key f [] = false
any_key f ((k, v) ∷ m) = if f k then true else any_key f m

UnaryOpcode-discrete : Discrete UnaryOpcode
UnaryOpcode-discrete = hlevel

BinaryOpcode-discrete : Discrete BinaryOpcode
BinaryOpcode-discrete = hlevel

TrinaryOpcode-discrete : Discrete TrinaryOpcode
TrinaryOpcode-discrete = hlevel

-- The loop of `minLagForSymbol`.
unfoldable pub min_lag : ℤ → ℤ → Map VariableKey ℕ → ℤ
min_lag symb_id r [] = r
min_lag symb_id r ((k, e) ∷ m) =
    min_lag symb_id (if eqb_ℤ k.symb_id symb_id && ltb_ℤ k.lag r then k.lag else r) m

module _ {D : Type 0} where
  abbrev has_local_value : Tree D → ℤ → Bool
  has_local_value t symb_id = elim (lookup symb_id t.local_variables_table) [
    | none ↦ false
    | some e ↦ true
  ]

  -- `isSymbolUsed`
  unfoldable is_symbol_used : Tree D → ℤ → Bool
  is_symbol_used t symb_id =
      if any_key (λ (k : VariableKey). eqb_ℤ k.symb_id symb_id) t.variable_node_map
      then true
      else has_local_value t symb_id

  pub is_unary_op_used : Tree D → UnaryOpcode → Bool
  is_unary_op_used t op =
      any_key (λ (k : UnaryKey). ite (UnaryOpcode-discrete k.op_code op) true false)
        t.unary_op_node_map

  pub is_binary_op_used : Tree D → BinaryOpcode → Bool
  is_binary_op_used t op =
      any_key (λ (k : BinaryKey). ite (BinaryOpcode-discrete k.op_code op) true false)
        t.binary_op_node_map

  pub is_trinary_op_used : Tree D → TrinaryOpcode → Bool
  is_trinary_op_used t op =
      any_key (λ (k : TrinaryKey). ite (TrinaryOpcode-discrete k.op_code op) true false)
        t.trinary_op_node_map

  unfoldable is_external_function_used : Tree D → ℤ → Bool
  is_external_function_used t symb_id =
      any_key (λ (k : ExternalKey). eqb_ℤ k.symb_id symb_id) t.external_function_node_map

  unfoldable is_first_deriv_external_function_used : Tree D → ℤ → Bool
  is_first_deriv_external_function_used t symb_id =
      any_key (λ (k : FirstDerivKey). eqb_ℤ k.symb_id symb_id) t.first_deriv_node_map

  unfoldable is_second_deriv_external_function_used : Tree D → ℤ → Bool
  is_second_deriv_external_function_used t symb_id =
      any_key (λ (k : SecondDerivKey). eqb_ℤ k.symb_id symb_id) t.second_deriv_node_map

  unfoldable pub min_lag_for_symbol : Tree D → ℤ → ℤ
  min_lag_for_symbol t symb_id = min_lag symb_id (pos 0) t.variable_node_map

module _ {K V : Type 0} ⦃o : Key K⦄ (f : K → Bool) where
  any_key-lookup :
      (m : Map K V) (k : K) {v : V} → lookup k m ≡ some v → f k ≡ true → any_key f m ≡ true
  unfolding any_key lookup
  any_key-lookup [] k h p = cc
  any_key-lookup ((j, w) ∷ m) k {v} h p = elim (Bool-cases (f j)) [
    | inl q ↦ rw q refl
    | inr q ↦ elim (o.dec j k) [
      | yes e ↦ absurd (cc)
      | no ne ↦ rw q (any_key-lookup m k {v = v} (ground (arith, ne)) p)
    ]
  ]

  any_key-found :
      (m : Map K V) → any_key f m ≡ true → (k : K) × (v : V) × (lookup k m ≡ some v) × (f k ≡ true)
  unfolding any_key lookup
  any_key-found [] h = cc
  any_key-found ((j, w) ∷ m) h = elim (Bool-cases (f j)) [
    | inl q ↦ (j, w, ground arith, q)
    | inr q ↦
        (let (k, v, l, p) = any_key-found m (rw q at h) in
          (k, v, elim (o.dec j k) [ yes e ↦ absurd (cc) | no ne ↦ ground (arith, ne, l) ], p))
  ]

module _ {O : Type 0} (eq : Discrete O) where
  abbrev is_op : O → O → Bool
  is_op a b = ite (eq a b) true false

  is_op-eq : (a b : O) → (is_op a b ≡ true) ↔ (a ≡ b)
  is_op-eq a b = elim (eq a b) as (λ x. (ite x true false ≡ true) ↔ (a ≡ b)) [
    | yes p ↦ (λ h. p, λ e. refl)
    | no ne ↦ (λ h. cc, λ e. absurd (ne e))
  ]

-- A map that holds just the nodes of its class has a key of an operation exactly if there is a node of
-- the operation.
module _ {K O : Type 0} ⦃o : Key K⦄ (eq : Discrete O) (op_of : K → O) (class : K → Node)
    {m : Map K ℕ} {l : List Node} (v : Indexes (λ k n. n ≡ class k) m l) where
  any_key-node_at :
      (op : O)
      → (any_key (λ (k : K). ite (eq (op_of k) op) true false) m ≡ true)
        ↔ ((i : ℕ) × (k : K) × (node_at l i ≡ some (class k)) × (op_of k ≡ op))
  any_key-node_at op = (
    λ h.
        let (k, i, found, p) = any_key-found _ m h in
        let (n, at, is) = v.sound k i found in
        (i, k, at ∙ ap some is, (is_op-eq eq (op_of k) op).0 p),
    λ x.
        any_key-lookup _ m x.1 {v = x.0} (v.complete x.1 x.0 _ x.2 refl)
          ((is_op-eq eq (op_of x.1) op).1 x.3),
  )

-- In a tree that is in order, an operation of one, two or three arguments is reported as used exactly if
-- the tree has a node of this operation.
pub is_op_used-node_at :
    (d : Doubles) (t : Tree d.Double) (op1 : UnaryOpcode) (op2 : BinaryOpcode) (op3 : TrinaryOpcode)
    → IsShared d t
    → ((is_unary_op_used t op1 ≡ true)
        ↔ ((i : ℕ) × (k : UnaryKey) × (node_at t.node_list i ≡ some (unary k)) × (k.op_code ≡ op1)))
      × ((is_binary_op_used t op2 ≡ true) ↔ (
          (i : ℕ) × (k : BinaryKey) × (node_at t.node_list i ≡ some (binary k))
          × (k.op_code ≡ op2)))
      × ((is_trinary_op_used t op3 ≡ true) ↔ (
          (i : ℕ) × (k : TrinaryKey) × (node_at t.node_list i ≡ some (trinary k))
          × (k.op_code ≡ op3)))
unfolding is_unary_op_used is_binary_op_used is_trinary_op_used
is_op_used-node_at d t op1 op2 op3 s = (
  any_key-node_at UnaryOpcode-discrete (λ k. k.op_code) unary s.unaries op1,
  any_key-node_at BinaryOpcode-discrete (λ k. k.op_code) binary s.binaries op2,
  any_key-node_at TrinaryOpcode-discrete (λ k. k.op_code) trinary s.trinaries op3,
)
