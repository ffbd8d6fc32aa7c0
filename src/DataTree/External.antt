-- ===== src/DataTree/External.antt =====
-- preprocessor/DataTree.cc and the constructors in ExprNode.cc: the nodes of external functions and of
-- their derivatives.
use dynare.Prelude.{
  ℕ, ◌≡◌, refl, not, lookup-insert_self, >>=-eq-ok, ok-injective, List, ◌∷◌, none, some, lookup,
  insert, ok, ◌>>=◌, ◌>>◌, throw_if, ℤ,
}
use mathlib.Core.Path.{subst}
use dynare.SymbolTable.State.{external_function, same_type, get_type}
use dynare.DataTree.Nodes.{
  external, first_deriv, second_deriv, ExternalKey, FirstDerivKey, SecondDerivKey, Tree,
  TreeOutcome, assertion_failed, node_at, external_key, first_deriv_key, second_deriv_key,
}
use dynare.DataTree.Insert.{next_idx, symbol_error}
use dynare.DataTree.Structure.{node_at-new}

module _ {D : Type 0} where
  abbrev new_external : Tree D → ExternalKey → Tree D
  new_external t k = record t {
    node_list = external k ∷ t.node_list;
    external_function_node_map = insert k (next_idx t) t.external_function_node_map;
  }

  -- The assertion of the three methods.
  abbrev assert_external : Tree D → ℤ → TreeOutcome (Unit {0})
  assert_external t symb_id = do
    ty ← symbol_error (get_type t.symbol_table symb_id)
    throw_if (not (same_type ty external_function)) assertion_failed

  -- `AddExternalFunction`
  unfoldable pub add_external_function_node : Tree D → ℤ → List ℕ → TreeOutcome (ℕ × Tree D)
  add_external_function_node t symb_id arguments =
      let k : ExternalKey = record { arguments = arguments; symb_id = symb_id } in
      (do
        assert_external t symb_id
        elim (lookup k t.external_function_node_map) [
          | some e ↦ ok (e, t)
          | none ↦ ok (next_idx t, new_external t k)
        ])

  -- The constructor of FirstDerivExternalFunctionNode, and before it the one of its base class, which
  -- enters the node in the map of the functions.
  abbrev new_first_deriv : Tree D → FirstDerivKey → Tree D
  new_first_deriv t k = record t {
    node_list = first_deriv k ∷ t.node_list;
    external_function_node_map =
        insert (record { arguments = k.arguments; symb_id = k.symb_id }) (next_idx t)
          t.external_function_node_map;
    first_deriv_node_map = insert k (next_idx t) t.first_deriv_node_map;
  }

  abbrev new_second_deriv : Tree D → SecondDerivKey → Tree D
  new_second_deriv t k = record t {
    node_list = second_deriv k ∷ t.node_list;
    external_function_node_map =
        insert (record { arguments = k.arguments; symb_id = k.symb_id }) (next_idx t)
          t.external_function_node_map;
    second_deriv_node_map = insert k (next_idx t) t.second_deriv_node_map;
  }

  -- `AddFirstDerivExternalFunctionNode`
  unfoldable pub add_first_deriv_external_function_node :
      Tree D → ℤ → List ℕ → ℤ → TreeOutcome (ℕ × Tree D)
  add_first_deriv_external_function_node t symb_id arguments input_index =
      let k : FirstDerivKey = record {
        arguments = arguments;
        input_index = input_index;
        symb_id = symb_id;
      } in
      (do
        assert_external t symb_id
        elim (lookup k t.first_deriv_node_map) [
          | some e ↦ ok (e, t)
          | none ↦ ok (next_idx t, new_first_deriv t k)
        ])

  -- `AddSecondDerivExternalFunctionNode`
  unfoldable pub add_second_deriv_external_function_node :
      Tree D → ℤ → List ℕ → ℤ → ℤ → TreeOutcome (ℕ × Tree D)
  add_second_deriv_external_function_node t symb_id arguments input_index1 input_index2 =
      let k : SecondDerivKey = record {
        arguments = arguments;
        input_index1 = input_index1;
        input_index2 = input_index2;
        symb_id = symb_id;
      } in
      (do
        assert_external t symb_id
        elim (lookup k t.second_deriv_node_map) [
          | some e ↦ ok (e, t)
          | none ↦ ok (next_idx t, new_second_deriv t k)
        ])

-- The tree after that constructor.
after_new_first_deriv :
    {D : Type 0} (t : Tree D) (k : FirstDerivKey) (passed : Unit {0})
    → assert_external t k.symb_id ≡ ok passed
    → (add_external_function_node (new_first_deriv t k) k.symb_id k.arguments
        ≡ ok (next_idx t, new_first_deriv t k))
      × (node_at (new_first_deriv t k).node_list (next_idx t) ≡ some (first_deriv k))
unfolding add_external_function_node
after_new_first_deriv t k passed checked =
    let f : ExternalKey = record { arguments = k.arguments; symb_id = k.symb_id } in
    (
      rw (checked, lookup-insert_self f (next_idx t) t.external_function_node_map) refl,
      node_at-new t.node_list (first_deriv k),
    )

-- The node of a first derivative of an external function, when it is made, takes the place of the
-- function's own node: `AddExternalFunction` with the same function and arguments then returns the node
-- of the derivative, the newest one, and adds nothing.
pub add_external_function_node-after_first_deriv :
    {D : Type 0} (t u : Tree D) (symb_id : ℤ) (arguments : List ℕ) (input_index : ℤ) (e : ℕ)
    → lookup
        (record { arguments = arguments; input_index = input_index; symb_id = symb_id })
        t.first_deriv_node_map
      ≡ none
    → add_first_deriv_external_function_node t symb_id arguments input_index ≡ ok (e, u)
    → (add_external_function_node u symb_id arguments ≡ ok (e, u))
      × (node_at u.node_list e
          ≡ some (
              first_deriv
                (record { arguments = arguments; input_index = input_index; symb_id = symb_id })))
unfolding add_first_deriv_external_function_node
add_external_function_node-after_first_deriv {D} t u symb_id arguments input_index e fresh made =
    let k : FirstDerivKey = record {
      arguments = arguments;
      input_index = input_index;
      symb_id = symb_id;
    } in
    let (passed, checked, made') = >>=-eq-ok (assert_external t symb_id) _ made in
    let q = ok-injective (rw fresh at made') in
    subst
      (λ (p : ℕ × Tree D).
        (add_external_function_node p.1 symb_id arguments ≡ ok p)
        × (node_at p.1.node_list p.0 ≡ some (first_deriv k)))
      q (after_new_first_deriv t k passed checked)
