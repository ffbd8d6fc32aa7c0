-- ===== src/Derivation/StaticIds.antt =====
-- preprocessor/StaticModel.cc: the derivation IDs of a static model. The endogenous variables come first, and
-- then the parameters.
use dynare.Prelude.{
  ℕ, zero, suc, ◌+◌, ◌<◌, ◌≡◌, ◌⊎◌, inl, inr, refl, ap, ◌∙◌, true, false, List, [], ◌∷◌, length,
  if◌then◌else◌, ok, throw, ◌>>=◌, ℤ, pos, negsuc, ◌+ℤ◌, ◌-ℤ◌, ltb_ℤ, arith,
}
use dynare.SymbolTable.State.{
  SymbolTable, SymbolType, endogenous, parameter, same_type, get_type, get_type_specific_id,
  get_id_by_type, endo_nbr, param_nbr, SymbolType-discrete,
}
use dynare.SymbolTable.Update.{freeze}
use dynare.SymbolTable.WellFormed.{WellFormed}
use dynare.SymbolTable.Frozen.{freeze-get_type_specific_id, freeze-get_type, freeze-frozen}
use dynare.DataTree.Nodes.{TreeOutcome, unknown_deriv_id}
use dynare.DataTree.Insert.{symbol_error}
use dynare.Derivation.DerivIds.{DerivIds}

-- StaticModel::getTypeByDerivID
unfoldable pub static_type_by_deriv_id : SymbolTable → ℤ → TreeOutcome SymbolType
static_type_by_deriv_id t deriv_id = do
  endos ← symbol_error (endo_nbr t)
  params ← symbol_error (param_nbr t)
  if ltb_ℤ deriv_id (pos endos)
      then ok endogenous
      else if ltb_ℤ deriv_id (pos (endos + params))
      then ok parameter
      else throw unknown_deriv_id

-- StaticModel::getSymbIDByDerivID
unfoldable pub static_symb_id_by_deriv_id : SymbolTable → ℤ → TreeOutcome ℤ
static_symb_id_by_deriv_id t deriv_id = do
  endos ← symbol_error (endo_nbr t)
  params ← symbol_error (param_nbr t)
  if ltb_ℤ deriv_id (pos endos)
      then (do id ← symbol_error (get_id_by_type t endogenous deriv_id); ok (pos id))
      else if ltb_ℤ deriv_id (pos (endos + params))
      then (do id ← symbol_error (get_id_by_type t parameter (deriv_id -ℤ pos endos)); ok (pos id))
      else throw unknown_deriv_id

-- StaticModel::getDerivID
unfoldable pub static_deriv_id : SymbolTable → ℤ → ℤ → TreeOutcome ℤ
static_deriv_id t symb_id lag = do
  ty ← symbol_error (get_type t symb_id)
  if same_type ty endogenous
      then symbol_error (get_type_specific_id t symb_id)
      else if same_type ty parameter
      then (do
        tsid ← symbol_error (get_type_specific_id t symb_id)
        endos ← symbol_error (endo_nbr t)
        ok (tsid +ℤ pos endos))
      else ok (negsuc 0)

-- The loop of StaticModel::addAllParamDerivId, from `i` on
unfoldable pub param_ids_from : ℕ → ℕ → ℕ → List ℤ
param_ids_from zero i endos = []
param_ids_from (suc rounds) i endos = pos (i + endos) ∷ param_ids_from rounds (suc i) endos

unfoldable pub static_param_deriv_ids : SymbolTable → TreeOutcome (List ℤ)
static_param_deriv_ids t = do
  endos ← symbol_error (endo_nbr t)
  params ← symbol_error (param_nbr t)
  ok (param_ids_from params 0 endos)

abbrev ids_or_none : TreeOutcome (List ℤ) → List ℤ
ids_or_none (ok l) = l
ids_or_none (throw e) = []

-- What a static model on a frozen table answers.
abbrev pub static_deriv_ids : SymbolTable → (ℤ → TreeOutcome ℤ) → DerivIds
static_deriv_ids t nargs = record {
  is_dynamic = false;
  get_deriv_id = static_deriv_id t;
  get_type_by_deriv_id = static_type_by_deriv_id t;
  get_symb_id_by_deriv_id = static_symb_id_by_deriv_id t;
  all_param_deriv_ids = ids_or_none (static_param_deriv_ids t);
  external_nargs = nargs;
}

add_forth : (k n : ℕ) → pos k +ℤ pos n ≡ pos (k + n)
unfolding ◌+ℤ◌
add_forth k n = ground arith

sub_back : (k n : ℕ) → pos (k + n) -ℤ pos n ≡ pos k
unfolding ◌-ℤ◌
sub_back k n = ground arith

module _ (t t' : SymbolTable) (w : WellFormed t) (h : freeze t ≡ ok t') where
  -- Only a type specific id in the vector leads to a symbol.
  tsid_lt :
      (k id : ℕ)
      → (get_id_by_type t' endogenous (pos k) ≡ ok id → k < length t'.endo_ids)
        × (get_id_by_type t' parameter (pos k) ≡ ok id → k < length t'.param_ids)
  unfolding get_id_by_type
  tsid_lt k id = (λ e. ground arith, λ e. ground arith)

  endos : endo_nbr t' ≡ ok (length t'.endo_ids)
  unfolding endo_nbr
  endos = rw (freeze-frozen t t' w h) refl

  params : param_nbr t' ≡ ok (length t'.param_ids)
  unfolding param_nbr
  params = rw (freeze-frozen t t' w h) refl

  -- The ID `n` belongs to the symbol.
  abbrev LeadsBack : ℕ → ℤ → SymbolType → ℕ → Type 0
  LeadsBack id lag ty n =
      (static_deriv_id t' (pos id) lag ≡ ok (pos n))
      × (static_symb_id_by_deriv_id t' (pos n) ≡ ok (pos id))
      × (static_type_by_deriv_id t' (pos n) ≡ ok ty)

  endogenous_id :
      (id : ℕ) (lag : ℤ) (k : ℕ)
      → get_type t' (pos id) ≡ ok endogenous
      → get_type_specific_id t' (pos id) ≡ ok (pos k)
      → get_id_by_type t' endogenous (pos k) ≡ ok id
      → LeadsBack id lag endogenous k
  unfolding static_deriv_id static_symb_id_by_deriv_id static_type_by_deriv_id SymbolType-discrete
  endogenous_id id lag k e f g =
      let lt = (tsid_lt k id).0 g in
      let below : ltb_ℤ (pos k) (pos (length t'.endo_ids)) ≡ true = ground arith in
      (rw (e, f) refl, rw (endos, params, below, g) refl, rw (endos, params, below) refl)

  parameter_id :
      (id : ℕ) (lag : ℤ) (k : ℕ)
      → get_type t' (pos id) ≡ ok parameter
      → get_type_specific_id t' (pos id) ≡ ok (pos k)
      → get_id_by_type t' parameter (pos k) ≡ ok id
      → LeadsBack id lag parameter (k + length t'.endo_ids)
  unfolding static_deriv_id static_symb_id_by_deriv_id static_type_by_deriv_id SymbolType-discrete
  parameter_id id lag k e f g =
      let n = length t'.endo_ids in
      let lt = (tsid_lt k id).1 g in
      let above : ltb_ℤ (pos (k + n)) (pos n) ≡ false = ground arith in
      let below : ltb_ℤ (pos (k + n)) (pos (n + length t'.param_ids)) ≡ true = ground arith in
      let back = sub_back k n in
      (
        rw (e, f, endos) (ap ok (add_forth k n)),
        rw (endos, params, above, below, back, g) refl,
        rw (endos, params, above, below) refl,
      )

  -- After `freeze`, in a static model: an endogenous variable and a parameter have a derivation ID,
  -- whatever the lag, and the ID leads back to the symbol and to its type.
  pub static_deriv_id-leads_back :
      (id : ℕ) (lag : ℤ) (ty : SymbolType)
      → get_type t (pos id) ≡ ok ty
      → (ty ≡ endogenous) ⊎ (ty ≡ parameter)
      → (n : ℕ) × (static_deriv_id t' (pos id) lag ≡ ok (pos n))
        × (static_symb_id_by_deriv_id t' (pos n) ≡ ok (pos id))
        × (static_type_by_deriv_id t' (pos n) ≡ ok ty)
  static_deriv_id-leads_back id lag ty e (inl c) =
      let (k, f, g) = freeze-get_type_specific_id t t' w h id ty e (rw c refl) in
      let (a, b, d) =
        endogenous_id id lag k (freeze-get_type t t' w h (pos id) ∙ e ∙ ap ok c) f (rw c at g) in
      rw c (k, a, b, d)
  static_deriv_id-leads_back id lag ty e (inr c) =
      let (k, f, g) = freeze-get_type_specific_id t t' w h id ty e (rw c refl) in
      let (a, b, d) =
        parameter_id id lag k (freeze-get_type t t' w h (pos id) ∙ e ∙ ap ok c) f (rw c at g) in
      rw c (k + length t'.endo_ids, a, b, d)
