-- ===== src/Derivation/Recursion.antt =====
-- preprocessor/ExprNode.cc: `prepareForDerivation`, `computeDerivative` and `getDerivative` of the node
-- classes. A call that the source makes on another node is made with less fuel.
use dynare.Prelude.{
  ℕ, zero, suc, ◌+◌, Bool, true, false, not, ◌||◌, List, [], ◌∷◌, ◌++◌, none, some, if◌then◌else◌,
  ok, throw, ◌>>=◌, ◌>>◌, throw_if, or_throw, ℤ, ℤ-discrete, pos, eqb_ℤ, ltb_ℤ, Map, Key, lookup,
  insert, ℕ_discrete,
}
use dynare.SymbolTable.State.{
  SymbolType, endogenous, exogenous, exogenous_det, parameter, trend, model_local_variable,
  mod_file_local_variable, external_function, statement_declared_variable,
}
use dynare.DataTree.Doubles.{Doubles}
use dynare.DataTree.Nodes.{
  UnaryOpcode, Node, num_const, variable, unary, binary, trinary, external, first_deriv,
  second_deriv, VariableKey, UnaryKey, BinaryKey, TrinaryKey, Tree, TreeOutcome, assertion_failed,
  exit_not_derivable, exit_impossible_case, exit_third_derivative, null_pointer, out_of_fuel,
  node_at, nat_key, int_key,
}
use dynare.DataTree.Build.{add_plus, add_times}
use dynare.DataTree.External.{
  add_first_deriv_external_function_node, add_second_deriv_external_function_node,
}
use dynare.Derivation.DerivIds.{DerivIds}
use dynare.Derivation.Compose.{compose_unary, compose_binary, compose_trinary}

unfoldable pub has_id : ℤ → List ℤ → Bool
has_id x [] = false
has_id x (y ∷ l) = eqb_ℤ x y || has_id x l

-- `preparedForDerivation` and then `non_null_derivatives`, a set, of the nodes; `set_union` is an append.
abbrev pub NonNull : Type 0
NonNull = Map ℕ (List ℤ)

abbrev pub non_null : NonNull → ℕ → List ℤ
non_null p e = elim (lookup e p) [ some l ↦ l | none ↦ [] ]

-- A node and a derivation ID, of which the node's map `derivatives` has the derivative.
pub record DerivKey : Type 0 where
  pub node : ℕ
  pub deriv_id : ℤ

unfoldable pub DerivKey-discrete : Discrete DerivKey
unfolding ℤ-discrete ℕ_discrete
DerivKey-discrete = hlevel (ℤ-discrete, ℕ_discrete)

abbrev any_order : DerivKey → DerivKey → Bool
any_order a b = false

instance abbrev pub deriv_key : Key DerivKey
deriv_key = record { dec = DerivKey-discrete; before = any_order }

pub record DerivState (D : Type 0) : Type 0 where
  pub tree : Tree D
  pub prepared : NonNull
  pub derivatives : Map DerivKey ℕ

-- The types of the symbols that have derivation IDs.
abbrev pub is_derivable : SymbolType → Bool
is_derivable endogenous = true
is_derivable exogenous = true
is_derivable exogenous_det = true
is_derivable parameter = true
is_derivable trend = true
is_derivable model_local_variable = false
is_derivable mod_file_local_variable = false
is_derivable external_function = false
is_derivable statement_declared_variable = false

abbrev pub has_steady_state : UnaryOpcode → Bool
has_steady_state UnaryOpcode.steady_state = true
has_steady_state UnaryOpcode.steady_state_param_deriv = true
has_steady_state UnaryOpcode.steady_state_param_2nd_deriv = true
has_steady_state _ = false

-- `prepareForDerivation` of the node classes, for a node that is not prepared. The source raises the flag
-- first in most of them, which shows only where a local variable stands in its own value.
abbrev Prepares : Type 0
Prepares = TreeOutcome NonNull

-- VariableNode::prepareForDerivation, for a symbol without a derivation ID
unfoldable pub prepare_other :
    {D : Type 0}
    → (NonNull → ℕ → Prepares)
    → Tree D
    → NonNull
    → ℕ
    → VariableKey
    → SymbolType
    → Prepares
prepare_other rec t p e k model_local_variable = elim (lookup k.symb_id t.local_variables_table) [
  | none ↦ throw null_pointer
  | some value ↦ (do q ← rec p value; ok (insert e (non_null q value) q))
]
prepare_other rec t p e k external_function = throw exit_impossible_case
prepare_other rec t p e k ty = ok (insert e [] p)

-- The arguments of an external function, and their union
unfoldable pub prepare_arguments :
    (NonNull → ℕ → Prepares) → NonNull → List ℕ → TreeOutcome (List ℤ × NonNull)
prepare_arguments rec p [] = ok ([], p)
prepare_arguments rec p (a ∷ rest) = do
  q ← rec p a
  (l, r) ← prepare_arguments rec q rest
  ok (non_null r a ++ l, r)

unfoldable pub prepare_external : (NonNull → ℕ → Prepares) → NonNull → ℕ → List ℕ → Prepares
prepare_external rec p e [] = throw assertion_failed
prepare_external rec p e (a ∷ rest) = do
  (l, q) ← prepare_arguments rec p (a ∷ rest)
  ok (insert e l q)

unfoldable pub prepare_unary :
    DerivIds → (NonNull → ℕ → Prepares) → NonNull → ℕ → UnaryKey → Prepares
prepare_unary ids rec p e k = do
  q ← rec p k.arg
  ok (
      insert e
        (non_null q k.arg ++ (if has_steady_state k.op_code then ids.all_param_deriv_ids else []))
        q)

unfoldable pub prepare_binary : (NonNull → ℕ → Prepares) → NonNull → ℕ → BinaryKey → Prepares
prepare_binary rec p e k = do
  q ← rec p k.arg1
  r ← rec q k.arg2
  ok (insert e (non_null r k.arg1 ++ non_null r k.arg2) r)

unfoldable pub prepare_trinary : (NonNull → ℕ → Prepares) → NonNull → ℕ → TrinaryKey → Prepares
prepare_trinary rec p e k = do
  q ← rec p k.arg1
  r ← rec q k.arg2
  s ← rec r k.arg3
  ok (insert e ((non_null s k.arg1 ++ non_null s k.arg2) ++ non_null s k.arg3) s)

module _ {D : Type 0} (ids : DerivIds) where
  unfoldable pub prepare_variable :
      (NonNull → ℕ → Prepares) → Tree D → NonNull → ℕ → VariableKey → SymbolType → Prepares
  prepare_variable rec t p e k ty =
      if is_derivable ty
      then (do own ← ids.get_deriv_id k.symb_id k.lag; ok (insert e (own ∷ []) p))
      else prepare_other rec t p e k ty

  unfoldable pub prepare_node : (NonNull → ℕ → Prepares) → Tree D → NonNull → ℕ → Node → Prepares
  unfolding prepare_variable prepare_unary prepare_binary prepare_trinary
  prepare_node rec t p e (num_const id) = ok (insert e [] p)
  prepare_node rec t p e (variable k ty) = prepare_variable rec t p e k ty
  prepare_node rec t p e (unary k) = prepare_unary ids rec p e k
  prepare_node rec t p e (binary k) = prepare_binary rec p e k
  prepare_node rec t p e (trinary k) = prepare_trinary rec p e k
  prepare_node rec t p e (external k) = prepare_external rec p e k.arguments
  prepare_node rec t p e (first_deriv k) = prepare_external rec p e k.arguments
  prepare_node rec t p e (second_deriv k) = prepare_external rec p e k.arguments

  -- `e->prepareForDerivation()`
  unfoldable pub prepare : ℕ → Tree D → NonNull → ℕ → Prepares
  prepare zero t p e = throw out_of_fuel
  prepare (suc fuel) t p e =
      let rec = λ (q : NonNull) (a : ℕ). prepare fuel t q a in
      elim (lookup e p) [
        | some l ↦ ok p
        | none ↦ (do n ← or_throw (node_at t.node_list e) null_pointer; prepare_node rec t p e n)
      ]

module _ (d : Doubles) (ids : DerivIds) where
  open d use {Double}

  abbrev Computed : Type 0
  Computed = TreeOutcome (ℕ × DerivState Double)

  -- A method of the tree, called on the state.
  abbrev pub on_tree : DerivState Double → TreeOutcome (ℕ × Tree Double) → Computed
  on_tree s r = do (i, t) ← r; ok (i, record s { tree = t })

  -- VariableNode::computeDerivative, for a symbol without a derivation ID
  unfoldable pub compute_other :
      (DerivState Double → ℕ → Computed) → DerivState Double → VariableKey → SymbolType → Computed
  compute_other rec s k model_local_variable =
      elim (lookup k.symb_id s.tree.local_variables_table) [
        | none ↦ throw null_pointer
        | some value ↦ rec s value
      ]
  compute_other rec s k external_function = throw exit_impossible_case
  compute_other rec s k ty = throw exit_not_derivable

  -- The derivatives of the arguments of an external function
  unfoldable pub derive_arguments :
      (DerivState Double → ℕ → Computed)
      → DerivState Double
      → List ℕ
      → TreeOutcome (List ℕ × DerivState Double)
  derive_arguments rec s [] = ok ([], s)
  derive_arguments rec s (a ∷ rest) = do
    (darg, s1) ← rec s a
    (dargs, s2) ← derive_arguments rec s1 rest
    ok (darg ∷ dargs, s2)

  -- The products of the first loop of composeDerivatives, where `add_deriv` adds the node of a
  -- derivative of the function by the argument with the given number
  unfoldable pub products :
      (Tree Double → ℤ → TreeOutcome (ℕ × Tree Double))
      → Tree Double
      → ℕ
      → List ℕ
      → TreeOutcome (List ℕ × Tree Double)
  products add_deriv t i [] = ok ([], t)
  products add_deriv t i (darg ∷ dargs) = do
    (f, u1) ← add_deriv t (pos (i + 1))
    (p, u2) ← add_times d u1 darg f
    (ps, u3) ← products add_deriv u2 (i + 1) dargs
    ok (p ∷ ps, u3)

  -- The sum of the second loop
  unfoldable pub sum_nodes : Tree Double → ℕ → List ℕ → TreeOutcome (ℕ × Tree Double)
  sum_nodes t total [] = ok (total, t)
  sum_nodes t total (p ∷ ps) = do (r, u) ← add_plus d t total p; sum_nodes u r ps

  -- ExternalFunctionNode::composeDerivatives, and the one of the first derivatives
  unfoldable pub compose_external :
      (Tree Double → ℤ → TreeOutcome (ℕ × Tree Double))
      → Tree Double
      → List ℕ
      → TreeOutcome (ℕ × Tree Double)
  compose_external add_deriv t dargs = do
    (ps, u) ← products add_deriv t 0 dargs
    sum_nodes u u.zero_node ps

  -- ExternalFunctionNode::computeDerivative
  unfoldable pub compute_external :
      (DerivState Double → ℕ → Computed)
      → DerivState Double
      → ℤ
      → List ℕ
      → (Tree Double → ℤ → TreeOutcome (ℕ × Tree Double))
      → Computed
  compute_external rec s symb_id arguments add_deriv = do
    nargs ← ids.external_nargs symb_id
    throw_if (not (ltb_ℤ (pos 0) nargs)) assertion_failed
    (dargs, s1) ← derive_arguments rec s arguments
    on_tree s1 (compose_external add_deriv s1.tree dargs)

  -- `computeDerivative(id)` of the node classes, where `rec` is `getDerivative(id)`
  unfoldable pub compute_variable :
      (DerivState Double → ℕ → Computed)
      → DerivState Double
      → ℤ
      → VariableKey
      → SymbolType
      → Computed
  compute_variable rec s id k ty =
      if is_derivable ty
      then (do
        own ← ids.get_deriv_id k.symb_id k.lag
        ok (if eqb_ℤ id own then s.tree.one_node else s.tree.zero_node, s))
      else compute_other rec s k ty

  unfoldable pub compute_unary :
      (DerivState Double → ℕ → Computed) → DerivState Double → ℕ → ℤ → UnaryKey → Computed
  compute_unary rec s e id k = do
    (darg, s1) ← rec s k.arg
    on_tree s1 (compose_unary d s1.tree ids e k darg id)

  unfoldable pub compute_binary :
      (DerivState Double → ℕ → Computed) → DerivState Double → ℕ → BinaryKey → Computed
  compute_binary rec s e k = do
    (darg1, s1) ← rec s k.arg1
    (darg2, s2) ← rec s1 k.arg2
    on_tree s2 (compose_binary d s2.tree e k darg1 darg2)

  unfoldable pub compute_trinary :
      (DerivState Double → ℕ → Computed) → DerivState Double → ℕ → TrinaryKey → Computed
  compute_trinary rec s e k = do
    (darg1, s1) ← rec s k.arg1
    (darg2, s2) ← rec s1 k.arg2
    (darg3, s3) ← rec s2 k.arg3
    on_tree s3 (compose_trinary d s3.tree e k darg1 darg2 darg3)

  -- Of the node `e`
  unfoldable pub compute_derivative :
      (DerivState Double → ℕ → Computed) → DerivState Double → ℕ → ℤ → Node → Computed
  unfolding compute_variable compute_unary compute_binary compute_trinary
  compute_derivative rec s e id (num_const c) = ok (s.tree.zero_node, s)
  compute_derivative rec s e id (variable k ty) = compute_variable rec s id k ty
  compute_derivative rec s e id (unary k) = compute_unary rec s e id k
  compute_derivative rec s e id (binary k) = compute_binary rec s e k
  compute_derivative rec s e id (trinary k) = compute_trinary rec s e k
  compute_derivative rec s e id (external k) =
      compute_external rec s k.symb_id k.arguments
        (λ t i. add_first_deriv_external_function_node t k.symb_id k.arguments i)
  compute_derivative rec s e id (first_deriv k) =
      compute_external rec s k.symb_id k.arguments
        (λ t i. add_second_deriv_external_function_node t k.symb_id k.arguments k.input_index i)
  compute_derivative rec s e id (second_deriv k) = throw exit_third_derivative

  -- `e->getDerivative(id)`
  unfoldable pub get_derivative : ℕ → DerivState Double → ℕ → ℤ → Computed
  get_derivative zero s e id = throw out_of_fuel
  get_derivative (suc fuel) s e id =
      let rec = λ (r : DerivState Double) (a : ℕ). get_derivative fuel r a id in
      (do
        p ← prepare ids (suc fuel) s.tree s.prepared e
        let s1 = record s { prepared = p }
        let k : DerivKey = record { node = e; deriv_id = id }
        if not (has_id id (non_null p e))
            then ok (s1.tree.zero_node, s1)
            else (elim (lookup k s1.derivatives) [
              | some i ↦ ok (i, s1)
              | none ↦ (do
                n ← or_throw (node_at s1.tree.node_list e) null_pointer
                (i, s2) ← compute_derivative rec s1 e id n
                ok (i, record s2 { derivatives = insert k i s2.derivatives }))
            ]))
