-- ===== src/SymbolTable/Auxiliary.antt =====
-- preprocessor/SymbolTable.cc: the auxiliary variables, their names and the search among them.
use dynare.Prelude.{
  bytes_key, ◌>>=◌, ℕ, suc, Bool, true, false, List, [], ◌∷◌, ◌++◌, snoc, if◌then◌else◌, ◌&&◌, ok,
  throw, catch, ℤ, pos, negsuc, neg, eqb_ℤ, ◌+ℤ◌, Bytes, codes, print_ℤ, print_ℕ,
}
use dynare.SymbolTable.State.{
  endogenous, AuxVarType, endo_lead, endo_lag, exo_lead, exo_lag, expectation, multiplier,
  AuxVarInfo, SymbolTable, TableError, already_declared, search_failed, exit_rename, Outcome,
}
use dynare.SymbolTable.Update.{add_symbol}

-- `catch (AlreadyDeclaredException &e) { cerr << ...; exit(EXIT_FAILURE); }`
abbrev pub exit_if_declared : Bytes → TableError → Outcome (ℕ × SymbolTable)
exit_if_declared name (already_declared _ _) = throw (exit_rename name)
exit_if_declared name e = throw e

abbrev pub push_aux : AuxVarInfo → SymbolTable → SymbolTable
push_aux a t = record t { aux_vars = snoc t.aux_vars a }

-- The part that all `add...AuxiliaryVar` methods share: declare an endogenous variable of the given
-- name, and record what it stands for.
unfoldable pub add_auxiliary :
    SymbolTable → Bytes → AuxVarType → ℤ → ℤ → ℤ → Outcome (ℕ × SymbolTable)
add_auxiliary t name type orig lead_lag eq = do
  (symb_id, t') ← catch (add_symbol t name endogenous) (exit_if_declared name)
  ok (
    symb_id,
    push_aux
        (record {
          symb_id = symb_id;
          type = type;
          orig_symb_id = orig;
          orig_lead_lag = lead_lag;
          equation_number_for_multiplier = eq;
        })
        t',
  )

unfoldable pub lead_name : Bool → ℤ → Bytes
lead_name true index = codes "AUX_ENDO_LEAD_" ++ print_ℤ index
lead_name false index = codes "AUX_EXO_LEAD_" ++ print_ℤ index

unfoldable pub lag_name : Bool → ℤ → ℤ → Bytes
lag_name true orig lead_lag =
    codes "AUX_ENDO_LAG_" ++ (print_ℤ orig ++ b'_' ∷ print_ℤ (neg lead_lag))
lag_name false orig lead_lag =
    codes "AUX_EXO_LAG_" ++ (print_ℤ orig ++ b'_' ∷ print_ℤ (neg lead_lag))

unfoldable pub expectation_name : ℤ → ℤ → Bytes
expectation_name (pos s) index = codes "AUX_EXPECT_LEAD_" ++ (print_ℕ s ++ b'_' ∷ print_ℤ index)
expectation_name (negsuc s) index =
    codes "AUX_EXPECT_LAG_" ++ (print_ℕ (suc s) ++ b'_' ∷ print_ℤ index)

unfoldable pub add_lead_auxiliary_var_internal : SymbolTable → Bool → ℤ → Outcome (ℕ × SymbolTable)
add_lead_auxiliary_var_internal t endo index =
    add_auxiliary t (lead_name endo index) (if endo then endo_lead else exo_lead) (pos 0) (pos 0)
      (pos 0)

unfoldable pub add_lag_auxiliary_var_internal :
    SymbolTable → Bool → ℤ → ℤ → Outcome (ℕ × SymbolTable)
add_lag_auxiliary_var_internal t endo orig lead_lag =
    add_auxiliary t (lag_name endo orig lead_lag) (if endo then endo_lag else exo_lag) orig lead_lag
      (pos 0)

unfoldable pub add_endo_lead_auxiliary_var : SymbolTable → ℤ → Outcome (ℕ × SymbolTable)
add_endo_lead_auxiliary_var t index = add_lead_auxiliary_var_internal t true index

unfoldable pub add_endo_lag_auxiliary_var : SymbolTable → ℤ → ℤ → Outcome (ℕ × SymbolTable)
add_endo_lag_auxiliary_var t orig lead_lag = add_lag_auxiliary_var_internal t true orig lead_lag

unfoldable pub add_exo_lead_auxiliary_var : SymbolTable → ℤ → Outcome (ℕ × SymbolTable)
add_exo_lead_auxiliary_var t index = add_lead_auxiliary_var_internal t false index

unfoldable pub add_exo_lag_auxiliary_var : SymbolTable → ℤ → ℤ → Outcome (ℕ × SymbolTable)
add_exo_lag_auxiliary_var t orig lead_lag = add_lag_auxiliary_var_internal t false orig lead_lag

unfoldable pub add_expectation_auxiliary_var : SymbolTable → ℤ → ℤ → Outcome (ℕ × SymbolTable)
add_expectation_auxiliary_var t information_set index =
    add_auxiliary t (expectation_name information_set index) expectation (pos 0) (pos 0) (pos 0)

unfoldable pub add_multiplier_auxiliary_var : SymbolTable → ℤ → Outcome (ℕ × SymbolTable)
add_multiplier_auxiliary_var t index =
    add_auxiliary t (codes "MULT_" ++ print_ℤ (index +ℤ pos 1)) multiplier (pos 0) (pos 0) index

-- The record of a log or power variable has the type of a multiplier, as in the source.
unfoldable pub add_log_auxiliary_var : SymbolTable → ℤ → Outcome (ℕ × SymbolTable)
add_log_auxiliary_var t index =
    add_auxiliary t (codes "AUX_LOG_" ++ print_ℤ (index +ℤ pos 1)) multiplier (pos 0) (pos 0) index

unfoldable pub add_pow_auxiliary_var : SymbolTable → ℤ → Outcome (ℕ × SymbolTable)
add_pow_auxiliary_var t index =
    add_auxiliary t (codes "AUX_POW_" ++ print_ℤ (index +ℤ pos 1)) multiplier (pos 0) (pos 0) index

abbrev pub is_lag : AuxVarType → Bool
is_lag endo_lag = true
is_lag exo_lag = true
is_lag _ = false

unfoldable pub search_in : List AuxVarInfo → ℤ → ℤ → Outcome ℕ
search_in [] orig lead_lag = throw (search_failed orig lead_lag)
search_in (a ∷ v) orig lead_lag =
    if is_lag a.type && eqb_ℤ a.orig_symb_id orig && eqb_ℤ a.orig_lead_lag lead_lag
    then ok a.symb_id
    else search_in v orig lead_lag

unfoldable pub search_auxiliary_vars : SymbolTable → ℤ → ℤ → Outcome ℕ
search_auxiliary_vars t orig lead_lag = search_in t.aux_vars orig lead_lag
