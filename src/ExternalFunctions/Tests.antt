-- ===== src/ExternalFunctions/Tests.antt =====
-- The theorem on preprocessor/ExternalFunctionsTable.cc at a table with one function.
use dynare.Prelude.{◌≡◌, refl, true, [], ◌∷◌, ok, pos, lookup, insert}
use dynare.DataTree.Nodes.{int_key}
use dynare.ExternalFunctions.{
  ExternalFunctionOptions, ExternalFunctionsTable, IsConsistent, add_external_function,
  check_derivatives, check_overwrite, add_external_function-IsConsistent, set_but_no_name_provided,
}

abbrev by_itself : ExternalFunctionOptions
by_itself = record {
  nargs = pos 2;
  first_deriv_symb_id = set_but_no_name_provided;
  second_deriv_symb_id = set_but_no_name_provided;
}

abbrev one_function : ExternalFunctionsTable
one_function =
    (pos 4, record { nargs = pos 2; first_deriv_symb_id = pos 4; second_deriv_symb_id = pos 4 })
    ∷ []

nothing-IsConsistent : IsConsistent []
unfolding lookup
nothing-IsConsistent = record { derivatives = λ k o h. cc; named = λ k o h. cc }

added : add_external_function [] (pos 4) by_itself true ≡ ok one_function
unfolding add_external_function check_derivatives check_overwrite lookup insert
added = refl

add_external_function-IsConsistent_example : IsConsistent one_function
add_external_function-IsConsistent_example =
    add_external_function-IsConsistent [] (pos 4) by_itself true nothing-IsConsistent added
