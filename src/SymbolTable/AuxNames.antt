-- ===== src/SymbolTable/AuxNames.antt =====
-- The auxiliary variables of preprocessor/SymbolTable.cc: their names, and the search for them.
use dynare.Prelude.{
  ℕ, zero, suc, ◌≡◌, refl, sym, ap, ◌∙◌, Bool, true, false, List, [], ◌∷◌, ◌++◌, arith, ok, throw,
  ℤ, pos, negsuc, neg, neg-neg, eqb_ℤ, Bytes, codes, bytes_key, print_ℤ, print_ℤ-injective,
  print_ℤ-Lacks, separated-injective, append-cancel, snoc,
}
use dynare.SymbolTable.State.{AuxVarType, AuxVarInfo, SymbolTable, search_failed}
use dynare.SymbolTable.Update.{add_symbol, add_symbol_tex}
use dynare.SymbolTable.Auxiliary.{
  add_auxiliary, lag_name, add_lag_auxiliary_var_internal, search_in, search_auxiliary_vars,
}

abbrev byte_at : Bytes → ℕ → ℕ
byte_at [] i = 0
byte_at (c ∷ s) zero = c
byte_at (c ∷ s) (suc i) = byte_at s i

lag_part :
    (o l p m : ℤ)
    → print_ℤ o ++ b'_' ∷ print_ℤ (neg l) ≡ print_ℤ p ++ b'_' ∷ print_ℤ (neg m)
    → (o ≡ p) × (l ≡ m)
lag_part o l p m e =
    let (a, b) =
      separated-injective b'_' _ _ _ _ (print_ℤ-Lacks b'_' (omega arith) o)
        (print_ℤ-Lacks b'_' (omega arith) p) e in
    (
      print_ℤ-injective o p a,
      sym (neg-neg l) ∙ ap neg (print_ℤ-injective (neg l) (neg m) b) ∙ neg-neg m,
    )

-- Two auxiliary variables for lags have the same name only if they are for the same kind of
-- variable, the same symbol and the same lag.
pub lag_name-injective :
    (d e : Bool) (o l p m : ℤ) → lag_name d o l ≡ lag_name e p m → (d ≡ e) × (o ≡ p) × (l ≡ m)
unfolding lag_name
lag_name-injective true true o l p m h =
    let (a, b) = lag_part o l p m (append-cancel (codes "AUX_ENDO_LAG_") _ _ h) in (refl, a, b)
lag_name-injective false false o l p m h =
    let (a, b) = lag_part o l p m (append-cancel (codes "AUX_EXO_LAG_") _ _ h) in (refl, a, b)
lag_name-injective true false o l p m h = absurd (omega (arith, ap (λ (v : Bytes). byte_at v 5) h))
lag_name-injective false true o l p m h = absurd (omega (arith, ap (λ (v : Bytes). byte_at v 5) h))

search_in-snoc :
    (v : List AuxVarInfo) (a : AuxVarInfo) (o l : ℤ)
    → search_in v o l ≡ throw (search_failed o l)
    → search_in (v ++ a ∷ []) o l ≡ search_in (a ∷ []) o l
unfolding search_in
search_in-snoc [] a o l h = refl
search_in-snoc (b ∷ v) a o l h = ground (arith, search_in-snoc v a o l)

search_in-old :
    (v : List AuxVarInfo) (a : AuxVarInfo) (o l : ℤ) {id : ℕ}
    → search_in v o l ≡ ok id
    → search_in (v ++ a ∷ []) o l ≡ ok id
unfolding search_in
search_in-old [] a o l h = cc
search_in-old (b ∷ v) a o l {id} h = ground (arith, search_in-old v a o l {id = id})

eqb_ℤ-refl : (a : ℤ) → eqb_ℤ a a ≡ true
eqb_ℤ-refl (pos n) = ground arith
eqb_ℤ-refl (negsuc n) = ground arith

add_auxiliary-aux_vars :
    (t : SymbolTable) (name : Bytes) (type : AuxVarType) (o l eq : ℤ) {id : ℕ} {t' : SymbolTable}
    → add_auxiliary t name type o l eq ≡ ok (id, t')
    → t'.aux_vars
      ≡ snoc t.aux_vars (record {
        symb_id = id;
        type = type;
        orig_symb_id = o;
        orig_lead_lag = l;
        equation_number_for_multiplier = eq;
      })
unfolding add_auxiliary add_symbol add_symbol_tex
add_auxiliary-aux_vars t name type o l eq h = ground arith

-- A lag variable that was not there before is found, after it was added, under its symbol and lag.
pub search_auxiliary_vars-add_lag :
    (t : SymbolTable) (endo : Bool) (o l : ℤ) {id : ℕ} {t' : SymbolTable}
    → search_auxiliary_vars t o l ≡ throw (search_failed o l)
    → add_lag_auxiliary_var_internal t endo o l ≡ ok (id, t')
    → search_auxiliary_vars t' o l ≡ ok id
unfolding search_auxiliary_vars add_lag_auxiliary_var_internal search_in
search_auxiliary_vars-add_lag t endo o l h e =
    rw (add_auxiliary-aux_vars t (lag_name endo o l) _ o l (pos 0) e)
      (search_in-snoc t.aux_vars _ o l h ∙ ground (arith, eqb_ℤ-refl o, eqb_ℤ-refl l))

-- What the search finds, it still finds after any auxiliary variable was added.
pub search_auxiliary_vars-keeps :
    (t : SymbolTable) (name : Bytes) (type : AuxVarType) (o l eq : ℤ) {id : ℕ} {t' : SymbolTable}
    (p m : ℤ) {old : ℕ}
    → add_auxiliary t name type o l eq ≡ ok (id, t')
    → search_auxiliary_vars t p m ≡ ok old
    → search_auxiliary_vars t' p m ≡ ok old
unfolding search_auxiliary_vars
search_auxiliary_vars-keeps t name type o l eq p m e g =
    rw (add_auxiliary-aux_vars t name type o l eq e) (search_in-old t.aux_vars _ p m g)
