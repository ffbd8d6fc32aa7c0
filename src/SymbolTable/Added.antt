-- ===== src/SymbolTable/Added.antt =====
-- What the methods of preprocessor/SymbolTable.cc that add an auxiliary variable share.
use dynare.Prelude.{
  ℕ, ◌⊎◌, ◌≡◌, refl, sym, ◌∙◌, true, false, [], ◌∷◌, ◌++◌, arith, ok, throw, ℤ, Bytes, lookup,
  bytes_key, inl, inr, Bool-cases, Option-cases, if◌then◌else◌,
}
use dynare.SymbolTable.State.{
  endogenous, AuxVarType, SymbolTable, exists, get_id, Outcome, unknown_symbol_name,
  frozen_exception, exit_rename,
}
use dynare.SymbolTable.Update.{appended, default_tex_name}
use dynare.SymbolTable.Auxiliary.{push_aux, add_auxiliary}
use dynare.SymbolTable.WellFormed.{WellFormed}
use dynare.SymbolTable.Declared.{add_symbol_cases, get_type_by_name_total, Declares, Escapes}

exists_id :
    (t : SymbolTable) (name : Bytes) → exists t name ≡ true → (id : ℕ) × (get_id t name ≡ ok id)
unfolding exists get_id
exists_id t name h = elim (Option-cases (lookup name t.symbol_table)) [
  | inl e ↦ absurd (ground arith)
  | inr (id, e) ↦ (id, ground arith)
]

module _ (t : SymbolTable) (name : Bytes) (type : AuxVarType) (orig lead_lag eq : ℤ)
    (w : WellFormed t) where
  abbrev recorded : ℕ × SymbolTable
  recorded = (
    t.size,
    push_aux
        (record {
          symb_id = t.size;
          type = type;
          orig_symb_id = orig;
          orig_lead_lag = lead_lag;
          equation_number_for_multiplier = eq;
        })
        (appended t name endogenous (default_tex_name name)),
  )

  add_auxiliary-frozen :
      t.frozen ≡ true → add_auxiliary t name type orig lead_lag eq ≡ throw frozen_exception
  unfolding add_auxiliary
  add_auxiliary-frozen f = rw ((add_symbol_cases t name endogenous w).0 f) refl

  add_auxiliary-taken :
      t.frozen ≡ false
      → exists t name ≡ true
      → add_auxiliary t name type orig lead_lag eq ≡ throw (exit_rename name)
  unfolding add_auxiliary
  add_auxiliary-taken f g =
      let (id, found) = exists_id t name g in
      let (old, e) = get_type_by_name_total t name w found in
      rw ((add_symbol_cases t name endogenous w).1 old f e) refl

  add_auxiliary-new :
      t.frozen ≡ false
      → exists t name ≡ false
      → add_auxiliary t name type orig lead_lag eq ≡ ok recorded
  unfolding add_auxiliary
  add_auxiliary-new f g = rw ((add_symbol_cases t name endogenous w).2 f g) refl

-- The three cases as one equation.
pub add_auxiliary_eq :
    (t : SymbolTable) (name : Bytes) (type : AuxVarType) (orig lead_lag eq : ℤ)
    → WellFormed t
    → add_auxiliary t name type orig lead_lag eq ≡ (
        if t.frozen
        then throw frozen_exception
        else if exists t name
        then throw (exit_rename name)
        else ok (
          t.size,
          push_aux
              (record {
                symb_id = t.size;
                type = type;
                orig_symb_id = orig;
                orig_lead_lag = lead_lag;
                equation_number_for_multiplier = eq;
              })
              (appended t name endogenous (default_tex_name name)),
        ))
add_auxiliary_eq t name type orig lead_lag eq w = elim (Bool-cases t.frozen) [
  | inl f ↦ add_auxiliary-frozen t name type orig lead_lag eq w f ∙ sym (simp f)
  | inr f ↦ elim (Bool-cases (exists t name)) [
    | inl g ↦ add_auxiliary-taken t name type orig lead_lag eq w f g ∙ sym (simp (f, g))
    | inr g ↦ add_auxiliary-new t name type orig lead_lag eq w f g ∙ sym (simp (f, g))
  ]
]

-- What the addition of an auxiliary variable can end in.
abbrev pub Addition :
    SymbolTable → Bytes → AuxVarType → ℤ → ℤ → ℤ → Outcome (ℕ × SymbolTable) → Type 0
Addition t name type orig lead_lag eq r =
    ((t.frozen ≡ true) × (r ≡ throw frozen_exception))
    ⊎ (((t.frozen ≡ false) × ((id : ℕ) × (get_id t name ≡ ok id) × (r ≡ throw (exit_rename name))))
        ⊎ ((t.frozen ≡ false)
            × (get_id t name ≡ throw (unknown_symbol_name name))
            × ((t' : SymbolTable) × (tex : Bytes) × (r ≡ ok (t.size, t'))
                × Escapes name tex
                × Declares t name endogenous tex t'
                × (t'.aux_vars
                    ≡ t.aux_vars
                      ++ (record {
                        symb_id = t.size;
                        type = type;
                        orig_symb_id = orig;
                        orig_lead_lag = lead_lag;
                        equation_number_for_multiplier = eq;
                      })
                        ∷ []))))
