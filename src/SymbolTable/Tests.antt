-- ===== src/SymbolTable/Tests.antt =====
-- The theorems on preprocessor/SymbolTable.cc at concrete tables.
use dynare.Prelude.{
  ℕ, ◌<◌, ◌≡◌, ◌≢◌, refl, true, false, [], ◌∷◌, arith, ok, throw, ℤ, pos, negsuc, Bytes, codes,
  lookup, bytes_key, Bytes-discrete, none, some, print_ℤ, if◌then◌else◌,
}
use dynare.SymbolTable.State.{
  SymbolTable, SymbolType, endogenous, exogenous, parameter, model_local_variable, empty_table,
  AuxVarType, get_name, get_type, get_id, get_tex_name, get_type_by_name, get_type_specific_id,
  get_id_by_type, exists, search_failed, frozen_exception, same_type, already_declared, exit_rename,
}
use dynare.SymbolTable.Update.{
  appended, add_symbol, add_symbol_tex, default_tex_name, change_type, freeze, mark_predetermined,
  add_observed_variable, freeze_loop,
}
use dynare.SymbolTable.Auxiliary.{
  push_aux, add_auxiliary, lag_name, add_lag_auxiliary_var_internal, search_auxiliary_vars,
  search_in,
}
use dynare.SymbolTable.WellFormed.{WellFormed, empty_table-WellFormed, appended-WellFormed}
use dynare.SymbolTable.Frozen.{
  IsFrozen, freeze_total, freeze-get_type_specific_id, freeze-get_id_by_type, freeze-refuses,
}
use dynare.SymbolTable.Reach.{Reach, here, next, declares, freezes, Reach-WellFormed, Reach-get_id}
use dynare.SymbolTable.AuxNames.{lag_name-injective, search_auxiliary_vars-add_lag}

abbrev one_symbol : SymbolTable
one_symbol = appended empty_table (codes "x") endogenous (codes "x")

abbrev two_symbols : SymbolTable
two_symbols = appended one_symbol (codes "r_e") model_local_variable (codes "r\\_e")

abbrev symbols : SymbolTable
symbols = appended two_symbols (codes "y") endogenous (codes "y")

one_symbol-WellFormed : WellFormed one_symbol
unfolding empty_table lookup
one_symbol-WellFormed =
    appended-WellFormed empty_table (codes "x") endogenous (codes "x") empty_table-WellFormed refl

two_symbols-WellFormed : WellFormed two_symbols
unfolding empty_table lookup Bytes-discrete dynare.Prelude.insert dynare.Prelude.bytes_before
two_symbols-WellFormed =
    appended-WellFormed one_symbol (codes "r_e") model_local_variable (codes "r\\_e")
      one_symbol-WellFormed refl

symbols-WellFormed : WellFormed symbols
unfolding empty_table lookup Bytes-discrete dynare.Prelude.insert dynare.Prelude.bytes_before
symbols-WellFormed =
    appended-WellFormed two_symbols (codes "y") endogenous (codes "y") two_symbols-WellFormed refl

abbrev frozen_symbols : SymbolTable
frozen_symbols = record symbols {
  frozen = true;
  endo_ids = 0 ∷ 2 ∷ [];
  type_specific_ids = pos 0 ∷ negsuc 0 ∷ pos 1 ∷ [];
}

frozen : freeze symbols ≡ ok frozen_symbols
unfolding freeze freeze_loop get_type empty_table
frozen = refl

adds :
    add_symbol_tex one_symbol (codes "r_e") model_local_variable (codes "r\\_e")
    ≡ ok (1, two_symbols)
unfolding add_symbol_tex exists lookup empty_table Bytes-discrete dynare.Prelude.insert
    dynare.Prelude.bytes_before
adds = refl

adds_default : add_symbol one_symbol (codes "r_e") model_local_variable ≡ ok (1, two_symbols)
unfolding add_symbol add_symbol_tex default_tex_name exists lookup empty_table Bytes-discrete
    dynare.Prelude.insert dynare.Prelude.bytes_before
adds_default = refl

abbrev log_symbol : SymbolTable
log_symbol = record two_symbols { type_table = endogenous ∷ parameter ∷ [] }

retypes : change_type two_symbols (pos 1) parameter ≡ ok log_symbol
unfolding change_type empty_table
retypes = refl

marks :
    mark_predetermined symbols (pos 2) ≡ ok (record symbols { predetermined_variables = 2 ∷ [] })
unfolding mark_predetermined get_type empty_table dynare.SymbolTable.State.SymbolType-discrete
    dynare.Prelude.set_insert
marks = refl

observes : add_observed_variable symbols (pos 2) ≡ ok (record symbols { varobs = 2 ∷ [] })
unfolding add_observed_variable get_type empty_table dynare.SymbolTable.State.SymbolType-discrete
observes = refl

is_named : print_ℤ (negsuc 1204) ≡ codes "-1205"
unfolding print_ℤ
is_named = refl

abbrev lagged : SymbolTable
lagged =
    push_aux
      (record {
        symb_id = 3;
        type = AuxVarType.endo_lag;
        orig_symb_id = pos 0;
        orig_lead_lag = negsuc 1;
        equation_number_for_multiplier = pos 0;
      })
      (appended symbols (codes "AUX_ENDO_LAG_0_2") endogenous (codes "AUX\\_ENDO\\_LAG\\_0\\_2"))

lags : add_lag_auxiliary_var_internal symbols true (pos 0) (negsuc 1) ≡ ok (3, lagged)
unfolding add_lag_auxiliary_var_internal add_auxiliary lag_name print_ℤ add_symbol add_symbol_tex
    default_tex_name exists lookup empty_table Bytes-discrete dynare.Prelude.insert
    dynare.Prelude.bytes_before dynare.Prelude.neg
lags = refl

is_endogenous : get_type symbols (pos 2) ≡ ok endogenous
unfolding get_type empty_table
is_endogenous = refl

is_local : get_type symbols (pos 1) ≡ ok model_local_variable
unfolding get_type empty_table
is_local = refl

leads_to : get_id_by_type frozen_symbols endogenous (pos 1) ≡ ok 2
unfolding get_id_by_type empty_table
leads_to = refl

leads_first : get_id_by_type frozen_symbols endogenous (pos 0) ≡ ok 0
unfolding get_id_by_type empty_table
leads_first = refl

freeze-get_type_specific_id_example :
    (k : ℕ) × (get_type_specific_id frozen_symbols (pos 2) ≡ ok (pos k))
    × (get_id_by_type frozen_symbols endogenous (pos k) ≡ ok 2)
freeze-get_type_specific_id_example =
    freeze-get_type_specific_id symbols frozen_symbols symbols-WellFormed frozen 2 endogenous
      is_endogenous refl

freeze-get_id_by_type_example :
    (get_type symbols (pos 2) ≡ ok endogenous)
    × (get_type_specific_id frozen_symbols (pos 2) ≡ ok (pos 1))
freeze-get_id_by_type_example =
    freeze-get_id_by_type symbols frozen_symbols symbols-WellFormed frozen endogenous 1 2 leads_to

freeze-refuses_example :
    (freeze frozen_symbols ≡ throw frozen_exception)
    × ((name : Bytes) (ty : SymbolType)
        → add_symbol frozen_symbols name ty ≡ throw frozen_exception)
    × ((id : ℤ) (ty : SymbolType) → change_type frozen_symbols id ty ≡ throw frozen_exception)
    × ((id : ℕ)
        → id < symbols.size
        → mark_predetermined frozen_symbols (pos id) ≡ throw frozen_exception)
freeze-refuses_example = freeze-refuses symbols frozen_symbols symbols-WellFormed frozen

freeze_total_example : (t' : SymbolTable) × (freeze symbols ≡ ok t') × IsFrozen symbols t'
unfolding empty_table
freeze_total_example = freeze_total symbols symbols-WellFormed refl

lag_name-injective_example : (true ≡ true) × (pos 0 ≡ pos 0) × (negsuc 1 ≡ negsuc 1)
lag_name-injective_example = lag_name-injective true true (pos 0) (negsuc 1) (pos 0) (negsuc 1) refl

search_fails :
    search_auxiliary_vars symbols (pos 0) (negsuc 1) ≡ throw (search_failed (pos 0) (negsuc 1))
unfolding search_auxiliary_vars search_in empty_table
search_fails = refl

search_finds : search_auxiliary_vars lagged (pos 0) (negsuc 1) ≡ ok 3
unfolding search_auxiliary_vars search_in empty_table
search_finds = refl

search_auxiliary_vars-add_lag_example : search_auxiliary_vars lagged (pos 0) (negsuc 1) ≡ ok 3
search_auxiliary_vars-add_lag_example =
    search_auxiliary_vars-add_lag symbols true (pos 0) (negsuc 1) search_fails lags

abbrev twice_lagged : SymbolTable
twice_lagged =
    push_aux
      (record {
        symb_id = 4;
        type = AuxVarType.expectation;
        orig_symb_id = pos 1;
        orig_lead_lag = pos 0;
        equation_number_for_multiplier = pos 0;
      })
      (appended lagged (codes "E") endogenous (codes "E"))

expects :
    add_auxiliary lagged (codes "E") AuxVarType.expectation (pos 1) (pos 0) (pos 0)
    ≡ ok (4, twice_lagged)
unfolding add_auxiliary add_symbol add_symbol_tex default_tex_name exists lookup empty_table
    Bytes-discrete dynare.Prelude.insert dynare.Prelude.bytes_before
expects = refl

adds_first : add_symbol_tex empty_table (codes "x") endogenous (codes "x") ≡ ok (0, one_symbol)
unfolding add_symbol_tex exists lookup empty_table Bytes-discrete dynare.Prelude.insert
    dynare.Prelude.bytes_before
adds_first = refl

adds_third : add_symbol_tex two_symbols (codes "y") endogenous (codes "y") ≡ ok (2, symbols)
unfolding add_symbol_tex exists lookup empty_table Bytes-discrete dynare.Prelude.insert
    dynare.Prelude.bytes_before
adds_third = refl

-- x, r_e and y are declared, and the table is frozen.
declared : Reach empty_table one_symbol
declared = next here (declares (codes "x") endogenous (codes "x") 0 adds_first)

declared_and_frozen : Reach one_symbol frozen_symbols
declared_and_frozen =
    next
      (next (next here (declares (codes "r_e") model_local_variable (codes "r\\_e") 1 adds))
        (declares (codes "y") endogenous (codes "y") 2 adds_third))
      (freezes frozen)

Reach-WellFormed_example : WellFormed one_symbol
Reach-WellFormed_example = Reach-WellFormed declared

Reach-get_id_example :
    (get_id frozen_symbols (codes "x") ≡ ok 0) × (get_name frozen_symbols (pos 0) ≡ ok (codes "x"))
unfolding get_id lookup Bytes-discrete dynare.Prelude.insert empty_table
Reach-get_id_example = Reach-get_id (codes "x") 0 one_symbol-WellFormed declared_and_frozen refl
