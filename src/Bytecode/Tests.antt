-- ===== src/Bytecode/Tests.antt =====
-- The theorems on the bytecode at a small model: x(-1) + exp(x(-1)), where exp(x(-1)) is a temporary term.
use dynare.Prelude.{
  ℕ, ◌≡◌, refl, ap, Bool, true, false, List, [], ◌∷◌, ◌++◌, some, none, ok, lookup, codes, ℤ, pos,
  negsuc, ◌+ℤ◌, ◌*ℤ◌, arith, ℤ-discrete, ℕ_discrete,
}
use dynare.NumericalConstants.{no_constants, no_constants-IsTable}
use dynare.SymbolTable.State.{
  SymbolTable, SymbolType, endogenous, empty_table, get_type_specific_id, SymbolType-discrete,
}
use dynare.DataTree.Nodes.{
  variable, unary, binary, VariableKey, UnaryKey, BinaryKey, UnaryOpcode, BinaryOpcode, Tree,
  node_at, nat_key, int_key, unary_key, binary_key, variable_key,
}
use dynare.DataTree.Insert.{plain, new_variable, new_unary, new_binary}
use dynare.DataTree.Build.{bare}
use dynare.DataTree.Eval.{Context, eval, eval_in, eval_node, eval_unary, eval_binary}
use dynare.DataTree.Invariant.{
  IsShared, new_variable-IsShared, new_unary-IsShared, new_binary-IsShared,
}
use dynare.DataTree.NewTree.{bare-IsShared}
use dynare.DataTree.Trits.{Trit, one, nought, minus_one, trits, add, root_at_one}
use dynare.Bytecode.Literals.{Literals}
use dynare.Bytecode.Instructions.{Instruction, ExternalFunctionType}
use dynare.Bytecode.Machine.{Machine, read, at_code, push}
use dynare.Bytecode.Compile.{is_local, Settings, is_term, variable_position, compile}
use dynare.Bytecode.Memory.{place, term_place}
use dynare.Bytecode.Run.{run}
use dynare.Bytecode.Operators.{unary_operator}
use dynare.Bytecode.Arithmetic.{unary_operator-eval_unary}
use dynare.Bytecode.Termination.{Ends, run-terminates}
use dynare.Bytecode.Correct.{Agrees, IsSupported, run-compile-eval}

abbrev trit_literals : Literals trits
trit_literals = record {
  nan = nought;
  huge = one;
  tiny = nought;
  to_int = λ v. pos 0;
  of_ℤ = λ z. nought;
}

abbrev model_symbols : SymbolTable
model_symbols = record empty_table {
  frozen = true;
  size = 1;
  symbol_table = (codes "x", 0) ∷ [];
  name_table = codes "x" ∷ [];
  tex_name_table = codes "x" ∷ [];
  type_table = endogenous ∷ [];
  type_specific_ids = pos 0 ∷ [];
  endo_ids = 0 ∷ [];
}

abbrev empty_model : Tree Trit
empty_model = bare trits model_symbols no_constants

abbrev with_x : Tree Trit
with_x = new_variable empty_model (record { symb_id = pos 0; lag = negsuc 0 }) endogenous

abbrev with_exp : Tree Trit
with_exp = new_unary with_x (plain UnaryOpcode.exp 0)

abbrev model : Tree Trit
model =
    new_binary with_exp
      (record { arg1 = 0; op_code = BinaryOpcode.plus; arg2 = 1; power_deriv_order = 0 })

model-IsShared : IsShared trits model
unfolding lookup
model-IsShared = new_binary-IsShared trits with_exp _ refl (omega arith) (omega arith) (
    new_unary-IsShared trits with_x _ refl (omega arith) (
      new_variable-IsShared trits empty_model _ endogenous refl
        (bare-IsShared trits model_symbols no_constants (no_constants-IsTable trits))))

abbrev x_is_one : Context trits
x_is_one = (pos 0, one) ∷ []

abbrev settings : Settings
settings = record {
  lhs_rhs = false;
  dynamic = true;
  temporary_terms = 1 ∷ [];
  map_idx = (1, 0) ∷ [];
  tef_terms = [];
  external_functions_table = [];
}

abbrev machine : Machine Trit
machine = record {
  per_u = pos 0;
  evaluate = false;
  block_size = pos 1;
  it = pos 1;
  y_size = pos 1;
  nb_row_x = pos 3;
  nb_row_xd = pos 0;
  periods = pos 1;
  y_kmin = pos 1;
  y_kmax = pos 1;
  print_error = true;
  params = [];
  y = one ∷ nought ∷ nought ∷ [];
  ya = [];
  x = [];
  steady_y = one ∷ [];
  temporary = nought ∷ one ∷ nought ∷ [];
  u = [];
  r = [];
  g1 = [];
  jacob = [];
  jacob_other_endo = [];
  jacob_exo = [];
  jacob_exo_det = [];
  tef = [];
  tefd = [];
  function_type = ExternalFunctionType.without_derivative;
  eqn_type = none;
  eqn_equation = 0;
  eqn_dvar1 = 0;
  eqn_dvar2 = 0;
  eqn_dvar3 = 0;
  eqn_lag1 = pos 0;
  eqn_lag2 = pos 0;
  eqn_lag3 = pos 0;
  res1 = none;
  it_code = [];
  stack = [];
  go_on = true;
}

value_of_sum : eval trits model x_is_one 2 ≡ ok minus_one
unfolding eval eval_in eval_node eval_unary eval_binary lookup add ℤ-discrete
value_of_sum = refl

abbrev x_key : VariableKey
x_key = record { symb_id = pos 0; lag = negsuc 0 }

the_variable :
    (i : ℕ) (k : VariableKey) (ty : SymbolType)
    → node_at model.node_list i ≡ some (variable k ty)
    → (k ≡ x_key) × (ty ≡ endogenous)
unfolding node_at
the_variable i k ty h = ground arith

the_unary :
    (i : ℕ) (k : UnaryKey)
    → node_at model.node_list i ≡ some (unary k)
    → k.op_code ≡ UnaryOpcode.exp
unfolding node_at
the_unary i k h = ground arith

the_binary :
    (i : ℕ) (k : BinaryKey)
    → node_at model.node_list i ≡ some (binary k)
    → k.op_code ≡ BinaryOpcode.plus
unfolding node_at
the_binary i k h = ground arith

the_term : (e : ℕ) → is_term settings.temporary_terms e ≡ true → e ≡ 1
unfolding is_term
the_term e h = ground arith

value_of_exp : eval trits model x_is_one 1 ≡ ok one
unfolding eval eval_in eval_node eval_unary lookup ℤ-discrete
value_of_exp = refl

x_position : variable_position model_symbols (pos 0) endogenous ≡ ok (pos 0)
unfolding variable_position get_type_specific_id SymbolType-discrete
x_position = refl

one_of_x : (v : Trit) → lookup (pos 0) x_is_one ≡ some v → one ≡ v
unfolding lookup ℤ-discrete
one_of_x v h = cc

x_held :
    (steady : Bool) (v : Trit)
    → lookup (pos 0) x_is_one ≡ some v
    → (p : ℤ) × (a : List Trit) × (q : ℤ) × (variable_position model_symbols (pos 0) endogenous
        ≡ ok p)
      × (place settings steady machine endogenous p (negsuc 0) ≡ some (a, q))
      × (read a q ≡ ok v)
unfolding read ◌+ℤ◌ ◌*ℤ◌
x_held true v h = (pos 0, one ∷ [], pos 0, x_position, refl, ap ok (one_of_x v h))
x_held false v h =
    (pos 0, one ∷ nought ∷ nought ∷ [], pos 0, x_position, refl, ap ok (one_of_x v h))

term_held :
    (v : Trit)
    → eval trits model x_is_one 1 ≡ ok v
    → (i : ℕ) × (lookup 1 settings.map_idx ≡ some i)
      × (read machine.temporary (term_place settings machine i) ≡ ok v)
unfolding lookup ℕ_discrete read ◌+ℤ◌ ◌*ℤ◌
term_held v h = (0, refl, cc value_of_exp)

not_local : ¬ (is_local endogenous ≡ true)
unfolding SymbolType-discrete
not_local h = ground arith

machine-Agrees : Agrees trits trit_literals settings model x_is_one machine
unfolding lookup read
machine-Agrees = record {
  loads = refl;
  at_work = refl;
  variables = λ i k ty v steady h loc x.
      let (ek, et) = the_variable i k ty h in rw (ek, et) (x_held steady v (rw ek at x));
  locals =
      λ i k ty v h loc x. let (ek, et) = the_variable i k ty h in absurd (not_local (rw et at loc));
  terms = λ e v h x. let eq = the_term e h in rw eq (term_held v (rw eq at x));
}

model-IsSupported : IsSupported trits trit_literals model x_is_one
model-IsSupported = record {
  finite = λ e v h. (refl, refl);
  operators = λ e k h st. rw (the_unary e k h) refl;
  powers = λ e k v1 v2 h x e1 e2. let eq = the_binary e k h in cc;
}

run-compile-eval_example :
    (c : List (Instruction Trit)) × (compile trits settings model 3 2 false ≡ ok c)
    × (fuel : ℕ) × (run trits trit_literals fuel
          (at_code machine (c ++ (Instruction.fendblock ∷ [])) [])
        ≡ ok (record (at_code machine [] (minus_one ∷ [])) { go_on = false }))
run-compile-eval_example =
    run-compile-eval trits trit_literals settings model x_is_one machine machine-Agrees
      model-IsSupported 3 2 false minus_one model-IsShared (omega arith) value_of_sum

-- FJMPIFEVAL, which jumps over FLDZ when the machine evaluates.
abbrev jumping : List (Instruction Trit)
jumping = Instruction.fjmpifeval 1 ∷ Instruction.fldz ∷ Instruction.fendblock ∷ []

run-terminates_example : Ends (run trits trit_literals 4 (at_code machine jumping []))
run-terminates_example =
    run-terminates trits trit_literals 4 (at_code machine jumping []) (omega arith)
      (omega arith, (omega arith, refl))

-- Where the natural logarithm is -1 and the other one is 0, the machine pushes -1.
unary_operator-eval_unary_example :
    unary_operator trits trit_literals machine UnaryOpcode.log10 minus_one
    ≡ ok (push minus_one machine)
unfolding eval_unary root_at_one
unary_operator-eval_unary_example =
    unary_operator-eval_unary trits trit_literals machine UnaryOpcode.log10 minus_one refl refl
      (refl, refl) (λ q. (refl, refl))
