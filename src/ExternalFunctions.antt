-- ===== src/ExternalFunctions.antt =====
-- preprocessor/ExternalFunctionsTable.cc and .hh: the external functions of a model, and the functions
-- that compute their derivatives.
mod Tests
use dynare.Prelude.{
  ℕ, suc, ◌<◌, ◌≡◌, ◌≢◌, refl, sym, ap, ◌∙◌, inl, inr, ◌⊎◌, Bool, true, false, not, ◌&&◌, ◌||◌,
  List, [], ◌∷◌, Option, none, some, if◌then◌else◌, Map, lookup, insert, lookup-insert_self,
  lookup-insert_ne, Result, ok, throw, throw_if, or_throw, ◌>>=◌, ◌>>◌, ℤ, pos, negsuc, eqb_ℤ,
  ltb_ℤ, ℤ-discrete, Bool-cases, Option-cases, arith,
}
use mathlib.Core.Path.{subst, subst₂}
use dynare.DataTree.Nodes.{int_key}

-- eExtFunSetButNoNameProvided and eExtFunNotSet
abbrev pub set_but_no_name_provided : ℤ
set_but_no_name_provided = negsuc 1

abbrev pub not_set : ℤ
not_set = negsuc 0

pub record ExternalFunctionOptions : Type 0 where
  pub nargs : ℤ
  pub first_deriv_symb_id : ℤ
  pub second_deriv_symb_id : ℤ

abbrev pub ExternalFunctionsTable : Type 0
ExternalFunctionsTable = Map ℤ ExternalFunctionOptions

-- The exception, a failed assertion, and the errors that stop the program, in the order of the source.
pub data ExternalError : Type 0 where
  unknown_external_function : ℤ → ExternalError
  assertion_failed : ExternalError
  exit_second_without_first exit_second_by_other exit_second_only exit_same_function : ExternalError
  exit_nargs exit_first_deriv exit_second_deriv : ExternalError

abbrev pub ExternalOutcome {ℓ} : Type ℓ → Type ℓ
ExternalOutcome A = Result ExternalError A

-- `exists`, `getNargs`, `getFirstDerivSymbID` and `getSecondDerivSymbID`
unfoldable pub exists_function : ExternalFunctionsTable → ℤ → Bool
exists_function t symb_id = elim (lookup symb_id t) [ none ↦ false | some o ↦ true ]

unfoldable pub get_nargs : ExternalFunctionsTable → ℤ → ExternalOutcome ℤ
get_nargs t symb_id = do
  o ← or_throw (lookup symb_id t) (unknown_external_function symb_id)
  ok (o.nargs)

unfoldable pub get_first_deriv_symb_id : ExternalFunctionsTable → ℤ → ExternalOutcome ℤ
get_first_deriv_symb_id t symb_id = do
  o ← or_throw (lookup symb_id t) (unknown_external_function symb_id)
  ok (o.first_deriv_symb_id)

unfoldable pub get_second_deriv_symb_id : ExternalFunctionsTable → ℤ → ExternalOutcome ℤ
get_second_deriv_symb_id t symb_id = do
  o ← or_throw (lookup symb_id t) (unknown_external_function symb_id)
  ok (o.second_deriv_symb_id)

-- `get_total_number_of_unique_model_block_external_functions`
unfoldable number_of_model_block_functions : ExternalFunctionsTable → ℕ
number_of_model_block_functions [] = 0
number_of_model_block_functions ((k, o) ∷ t) =
    let n = number_of_model_block_functions t in if ltb_ℤ (pos 0) o.nargs then suc n else n

-- The options as they are stored.
abbrev pub changed : ℤ → ExternalFunctionOptions → Bool → ExternalFunctionOptions
changed symb_id o track_nargs = record {
  nargs = if track_nargs then o.nargs else not_set;
  first_deriv_symb_id =
      if eqb_ℤ o.first_deriv_symb_id set_but_no_name_provided
      then symb_id
      else o.first_deriv_symb_id;
  second_deriv_symb_id =
      if eqb_ℤ o.second_deriv_symb_id set_but_no_name_provided
      then symb_id
      else o.second_deriv_symb_id;
}

-- "Ensure 1st & 2nd deriv option consistency"
unfoldable pub check_derivatives : ℤ → ExternalFunctionOptions → ExternalOutcome (Unit {0})
check_derivatives symb_id o = do
  throw_if (eqb_ℤ o.second_deriv_symb_id symb_id && not (eqb_ℤ o.first_deriv_symb_id symb_id))
      exit_second_without_first
  throw_if
      (not (eqb_ℤ o.second_deriv_symb_id symb_id)
        && (eqb_ℤ o.first_deriv_symb_id symb_id && not (eqb_ℤ o.second_deriv_symb_id not_set)))
      exit_second_by_other
  throw_if (not (eqb_ℤ o.second_deriv_symb_id not_set) && eqb_ℤ o.first_deriv_symb_id not_set)
      exit_second_only
  throw_if
      (eqb_ℤ o.second_deriv_symb_id o.first_deriv_symb_id
        && (not (eqb_ℤ o.first_deriv_symb_id symb_id) && not (eqb_ℤ o.first_deriv_symb_id not_set)))
      exit_same_function

-- "Ensure that if we're overwriting something, we mean to do it"
unfoldable pub check_overwrite :
    Option ExternalFunctionOptions → ExternalFunctionOptions → ExternalOutcome (Unit {0})
check_overwrite none o = ok tt
check_overwrite (some old) o = if eqb_ℤ old.nargs not_set then ok tt else (do
  throw_if (not (eqb_ℤ o.nargs old.nargs)) exit_nargs
  throw_if (not (eqb_ℤ o.first_deriv_symb_id old.first_deriv_symb_id)) exit_first_deriv
  throw_if (not (eqb_ℤ o.second_deriv_symb_id old.second_deriv_symb_id)) exit_second_deriv)

-- `addExternalFunction`
unfoldable pub add_external_function :
    ExternalFunctionsTable
    → ℤ
    → ExternalFunctionOptions
    → Bool
    → ExternalOutcome ExternalFunctionsTable
add_external_function t symb_id o track_nargs = do
  throw_if (ltb_ℤ symb_id (pos 0)) assertion_failed
  throw_if (not (ltb_ℤ (pos 0) o.nargs)) assertion_failed
  let o' = changed symb_id o track_nargs
  done ← check_derivatives symb_id o'
  checked ← check_overwrite (lookup symb_id t) o'
  ok (insert symb_id o' t)

-- What the derivatives of a function may be: none; the first one, by the function itself or another
-- one; or both, by the function itself or by two others, one for each.
pub data DerivativesOf (symb_id : ℤ) (o : ExternalFunctionOptions) : Type 0 where
  no_derivative :
      o.first_deriv_symb_id ≡ not_set → o.second_deriv_symb_id ≡ not_set → DerivativesOf symb_id o
  first_only :
      o.first_deriv_symb_id ≢ not_set → o.second_deriv_symb_id ≡ not_set → DerivativesOf symb_id o
  both_by_itself :
      o.first_deriv_symb_id ≡ symb_id → o.second_deriv_symb_id ≡ symb_id → DerivativesOf symb_id o
  both_by_others :
      o.first_deriv_symb_id ≢ symb_id
      → o.second_deriv_symb_id ≢ symb_id
      → o.first_deriv_symb_id ≢ o.second_deriv_symb_id
      → o.first_deriv_symb_id ≢ not_set
      → DerivativesOf symb_id o

abbrev pub Named : ExternalFunctionOptions → Type 0
Named o =
    (o.first_deriv_symb_id ≢ set_but_no_name_provided)
    × (o.second_deriv_symb_id ≢ set_but_no_name_provided)

-- Each function of the table has consistent derivatives, and each of them has a name.
pub record IsConsistent (t : ExternalFunctionsTable) : Type 0 where
  pub derivatives : (k : ℤ) (o : ExternalFunctionOptions) → lookup k t ≡ some o → DerivativesOf k o
  pub named : (k : ℤ) (o : ExternalFunctionOptions) → lookup k t ≡ some o → Named o

eqb_ℤ→eq : (a b : ℤ) → eqb_ℤ a b ≡ true → a ≡ b
eqb_ℤ→eq (pos a) (pos b) h = ground arith
eqb_ℤ→eq (negsuc a) (negsuc b) h = ground arith
eqb_ℤ→eq (pos a) (negsuc b) h = cc
eqb_ℤ→eq (negsuc a) (pos b) h = cc

eqb_ℤ→ne : (a b : ℤ) → eqb_ℤ a b ≡ false → a ≢ b
eqb_ℤ→ne (pos a) (pos b) h e = ground arith
eqb_ℤ→ne (negsuc a) (negsuc b) h e = ground arith
eqb_ℤ→ne (pos a) (negsuc b) h e = cc
eqb_ℤ→ne (negsuc a) (pos b) h e = cc

-- A decision on two ids, with the test that the code makes.
eqb_ℤ-cases : (a b : ℤ) → ((eqb_ℤ a b ≡ true) × (a ≡ b)) ⊎ ((eqb_ℤ a b ≡ false) × (a ≢ b))
eqb_ℤ-cases a b = elim (Bool-cases (eqb_ℤ a b)) [
  | inl h ↦ inl (h, eqb_ℤ→eq a b h)
  | inr h ↦ inr (h, eqb_ℤ→ne a b h)
]

module _ (k : ℤ) (o : ExternalFunctionOptions) (h : check_derivatives k o ≡ ok tt) where
  -- The third check.
  first_is_set : eqb_ℤ o.second_deriv_symb_id not_set ≡ false → o.first_deriv_symb_id ≢ not_set
  unfolding check_derivatives
  first_is_set q = elim (eqb_ℤ-cases o.first_deriv_symb_id not_set) [
    | inl (q1, e1) ↦ absurd (ground arith)
    | inr (q1, e1) ↦ e1
  ]

  check_derivatives_lem : DerivativesOf k o
  unfolding check_derivatives
  check_derivatives_lem = elim (eqb_ℤ-cases o.second_deriv_symb_id not_set) [
    | inl (q2, e2) ↦ elim (eqb_ℤ-cases o.first_deriv_symb_id not_set) [
      | inl (q1, e1) ↦ no_derivative e1 e2
      | inr (q1, e1) ↦ first_only e1 e2
    ]
    | inr (q2, e2) ↦ elim (eqb_ℤ-cases o.second_deriv_symb_id k) [
      | inl (q, e) ↦ elim (eqb_ℤ-cases o.first_deriv_symb_id k) [
        | inl (q1, e1) ↦ both_by_itself e1 e
        | inr (q1, e1) ↦ absurd (ground arith)
      ]
      | inr (q, e) ↦ elim (eqb_ℤ-cases o.first_deriv_symb_id k) [
        | inl (q1, e1) ↦ absurd (ground arith)
        | inr (q1, e1) ↦ elim (eqb_ℤ-cases o.second_deriv_symb_id o.first_deriv_symb_id) [
          | inl (q3, e3) ↦ absurd (ground arith)
          | inr (q3, e3) ↦ both_by_others e1 e (λ p. e3 (sym p)) (first_is_set q2)
        ]
      ]
    ]
  ]

-- What an addition that succeeds has checked, and what it stores.
add_external_function_ok :
    (t : ExternalFunctionsTable) (k : ℤ) (o : ExternalFunctionOptions) (b : Bool)
    {t' : ExternalFunctionsTable}
    → add_external_function t k o b ≡ ok t'
    → (ltb_ℤ k (pos 0) ≡ false)
      × (check_derivatives k (changed k o b) ≡ ok tt)
      × (t' ≡ insert k (changed k o b) t)
unfolding add_external_function
add_external_function_ok t k o b h = (ground arith, ground arith, ground arith)

not_below_zero : (k : ℤ) → ltb_ℤ k (pos 0) ≡ false → k ≢ set_but_no_name_provided
not_below_zero (pos n) h e = cc
not_below_zero (negsuc n) h e = ground arith

named_after :
    (k a : ℤ)
    → k ≢ set_but_no_name_provided
    → (if eqb_ℤ a set_but_no_name_provided then k else a) ≢ set_but_no_name_provided
named_after k a h = elim (eqb_ℤ-cases a set_but_no_name_provided) [
  | inl (q, e) ↦ rw q h
  | inr (q, e) ↦ rw q e
]

-- Every addition that succeeds keeps the table consistent: no function gets the second derivative
-- alone, or one of two derivatives by itself, or both by one other function, and none is left without
-- a name.
pub add_external_function-IsConsistent :
    (t : ExternalFunctionsTable) (k : ℤ) (o : ExternalFunctionOptions) (b : Bool)
    {t' : ExternalFunctionsTable}
    → IsConsistent t
    → add_external_function t k o b ≡ ok t'
    → IsConsistent t'
add_external_function-IsConsistent t k o b {t'} c h =
    let (q, d, e) = add_external_function_ok t k o b h in
    subst IsConsistent (sym e) (record {
      derivatives = λ j p l. elim (ℤ-discrete k j) [
        | yes r ↦
            subst₂ DerivativesOf r (stored_here j p r l) (check_derivatives_lem k (changed k o b) d)
        | no r ↦ c.derivatives j p (sym (lookup-insert_ne k j (changed k o b) t r) ∙ l)
      ];
      named = λ j p l. elim (ℤ-discrete k j) [
        | yes r ↦ subst Named (stored_here j p r l) (
          named_after k o.first_deriv_symb_id (not_below_zero k q),
          named_after k o.second_deriv_symb_id (not_below_zero k q),
        )
        | no r ↦ c.named j p (sym (lookup-insert_ne k j (changed k o b) t r) ∙ l)
      ];
    })
  where
    stored_here :
        (j : ℤ) (p : ExternalFunctionOptions)
        → k ≡ j
        → lookup j (insert k (changed k o b) t) ≡ some p
        → changed k o b ≡ p
    stored_here j p r l = cc (lookup-insert_self k (changed k o b) t)
