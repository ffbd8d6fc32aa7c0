-- ===== src/SymbolTable/WellFormed.antt =====
-- The well-formedness of a symbol table, kept by every operation of preprocessor/SymbolTable.cc.
use dynare.Prelude.{
  ℕ, suc, ◌<◌, ◌≡◌, refl, sym, ap, ◌∙◌, inl, inr, false, [], ◌∷◌, none, some, arith, length, set,
  snoc, get_elem?, length-snoc, length-set, get_elem?-snoc, get_elem?-snoc_cases,
  get_elem?-append_some, ok, lookup, insert, lookup-insert_self, lookup-insert_ne, ℤ, pos, negsuc,
  Bytes, bytes_key, Bytes-discrete,
}
use mathlib.Core.Path.{subst}
use dynare.SymbolTable.State.{
  get_id, get_type, SymbolType, SymbolTable, exists, empty_table, checked_id,
}
use dynare.SymbolTable.Update.{
  add_symbol_tex, add_symbol, default_tex_name, change_type, appended, mark_predetermined,
  add_observed_variable,
}

-- No type specific id has been given out.
abbrev pub NoIds : SymbolTable → Type 0
NoIds t =
    (t.type_specific_ids ≡ [])
    × (t.endo_ids ≡ [])
    × (t.exo_ids ≡ [])
    × (t.exo_det_ids ≡ [])
    × (t.param_ids ≡ [])

-- The three vectors have one entry for each id, and names and ids are in bijection.
-- Before `freeze` there are no type specific ids.
pub record WellFormed (t : SymbolTable) : Type 0 where
  pub names : length t.name_table ≡ t.size
  pub tex_names : length t.tex_name_table ≡ t.size
  pub types : length t.type_table ≡ t.size
  pub name_of_id :
      (name : Bytes) (id : ℕ)
      → lookup name t.symbol_table ≡ some id
      → get_elem? t.name_table id ≡ some name
  pub id_of_name :
      (name : Bytes) (id : ℕ)
      → get_elem? t.name_table id ≡ some name
      → lookup name t.symbol_table ≡ some id
  pub thawed : t.frozen ≡ false → NoIds t

pub empty_table-WellFormed : WellFormed empty_table
unfolding empty_table lookup
empty_table-WellFormed = record {
  names = refl;
  tex_names = refl;
  types = refl;
  name_of_id = λ name id h. cc;
  id_of_name = λ name id h. cc;
  thawed = λ h. (refl, refl, refl, refl, refl);
}

module _ (t : SymbolTable) (name : Bytes) (ty : SymbolType) (tex : Bytes) (w : WellFormed t)
    (fresh : lookup name t.symbol_table ≡ none) where
  appended-name_of_id :
      (n : Bytes) (id : ℕ)
      → lookup n (insert name t.size t.symbol_table) ≡ some id
      → get_elem? (snoc t.name_table name) id ≡ some n
  appended-name_of_id n id h = elim (Bytes-discrete name n) [
    | yes e ↦
        cc
          (lookup-insert_self name t.size t.symbol_table, get_elem?-snoc t.name_table name, w.names)
    | no ne ↦
        get_elem?-append_some t.name_table (name ∷ []) id
          (w.name_of_id n id (sym (lookup-insert_ne name n t.size t.symbol_table ne) ∙ h))
  ]

  appended-id_of_name :
      (n : Bytes) (id : ℕ)
      → get_elem? (snoc t.name_table name) id ≡ some n
      → lookup n (insert name t.size t.symbol_table) ≡ some id
  appended-id_of_name n id h = elim (get_elem?-snoc_cases t.name_table name id h) [
    | inl (e, l) ↦
        lookup-insert_ne name n t.size t.symbol_table (λ p. cc (w.id_of_name n id e))
        ∙ w.id_of_name n id e
    | inr (e, p) ↦ cc (lookup-insert_self name t.size t.symbol_table, w.names)
  ]

  pub appended-WellFormed : WellFormed (appended t name ty tex)
  appended-WellFormed = record {
    names = length-snoc t.name_table name ∙ ap suc w.names;
    tex_names = length-snoc t.tex_name_table tex ∙ ap suc w.tex_names;
    types = length-snoc t.type_table ty ∙ ap suc w.types;
    name_of_id = appended-name_of_id;
    id_of_name = appended-id_of_name;
    thawed = w.thawed;
  }

-- What a successful declaration met and did.
pub add_symbol_tex_ok :
    (t : SymbolTable) (name : Bytes) (ty : SymbolType) (tex : Bytes) {id : ℕ} {t' : SymbolTable}
    → add_symbol_tex t name ty tex ≡ ok (id, t')
    → (t.frozen ≡ false)
      × (lookup name t.symbol_table ≡ none)
      × (id ≡ t.size)
      × (t' ≡ appended t name ty tex)
unfolding add_symbol_tex exists get_id
add_symbol_tex_ok t name ty tex h = ground arith

-- Every declaration that succeeds keeps the table well formed.
pub add_symbol-WellFormed :
    (t : SymbolTable) (name : Bytes) (ty : SymbolType) {id : ℕ} {t' : SymbolTable}
    → WellFormed t
    → add_symbol t name ty ≡ ok (id, t')
    → WellFormed t'
unfolding add_symbol
add_symbol-WellFormed t name ty w h =
    let (thaw, fresh, at_size, new) = add_symbol_tex_ok t name ty (default_tex_name name) h in
    subst WellFormed (sym new) (appended-WellFormed t name ty (default_tex_name name) w fresh)

-- A change of what the invariant does not speak of.
pub same_ids :
    (t t' : SymbolTable)
    → t'.size ≡ t.size
    → t'.symbol_table ≡ t.symbol_table
    → t'.name_table ≡ t.name_table
    → t'.tex_name_table ≡ t.tex_name_table
    → length t'.type_table ≡ length t.type_table
    → (t'.frozen ≡ false → NoIds t')
    → WellFormed t
    → WellFormed t'
same_ids t t' s m n x y f w = record {
  names = rw (n, s) w.names;
  tex_names = rw (x, s) w.tex_names;
  types = rw (y, s) w.types;
  name_of_id = rw (m, n) w.name_of_id;
  id_of_name = rw (m, n) w.id_of_name;
  thawed = f;
}

checked_id_pos :
    (t : SymbolTable) (id : ℤ) {i : ℕ} → checked_id t id ≡ ok i → (id ≡ pos i) × (i < t.size)
checked_id_pos t (pos n) h = ground arith
checked_id_pos t (negsuc n) h = cc

pub change_type_ok :
    (t : SymbolTable) (id : ℤ) (ty : SymbolType) {t' : SymbolTable}
    → change_type t id ty ≡ ok t'
    → (i : ℕ) × (t.frozen ≡ false)
      × (id ≡ pos i)
      × (i < t.size)
      × (t' ≡ record t { type_table = set t.type_table i ty })
unfolding change_type
change_type_ok t (negsuc n) ty h = ground arith
change_type_ok t (pos n) ty h = (n, ground arith, refl, ground arith, ground arith)

-- A change of type that succeeds keeps the table well formed.
pub change_type-WellFormed :
    (t : SymbolTable) (id : ℤ) (ty : SymbolType) {t' : SymbolTable}
    → WellFormed t
    → change_type t id ty ≡ ok t'
    → WellFormed t'
change_type-WellFormed t id ty w h =
    let (i, f, p, l, e) = change_type_ok t id ty h in
    subst WellFormed (sym e) (
      same_ids t (record t { type_table = set t.type_table i ty }) refl refl refl refl
        (length-set t.type_table i ty) w.thawed w)

pub mark_predetermined_ok :
    (t : SymbolTable) (id : ℤ) {t' : SymbolTable}
    → mark_predetermined t id ≡ ok t'
    → t' ≡ record t { predetermined_variables = t'.predetermined_variables }
unfolding mark_predetermined get_type
mark_predetermined_ok t (negsuc n) h = ground arith
mark_predetermined_ok t (pos n) h = ground arith

-- A variable that was marked as predetermined leaves the table well formed.
pub mark_predetermined-WellFormed :
    (t : SymbolTable) (id : ℤ) {t' : SymbolTable}
    → WellFormed t
    → mark_predetermined t id ≡ ok t'
    → WellFormed t'
mark_predetermined-WellFormed t id {t'} w h =
    subst WellFormed (sym (mark_predetermined_ok t id h)) (
      same_ids t (record t { predetermined_variables = t'.predetermined_variables }) refl refl refl
        refl refl w.thawed w)

pub add_observed_variable_ok :
    (t : SymbolTable) (id : ℤ) {t' : SymbolTable}
    → add_observed_variable t id ≡ ok t'
    → t' ≡ record t { varobs = t'.varobs }
unfolding add_observed_variable get_type
add_observed_variable_ok t (negsuc n) h = ground arith
add_observed_variable_ok t (pos n) h = ground arith

-- An observed variable that was added leaves the table well formed.
pub add_observed_variable-WellFormed :
    (t : SymbolTable) (id : ℤ) {t' : SymbolTable}
    → WellFormed t
    → add_observed_variable t id ≡ ok t'
    → WellFormed t'
add_observed_variable-WellFormed t id {t'} w h =
    subst WellFormed (sym (add_observed_variable_ok t id h))
      (same_ids t (record t { varobs = t'.varobs }) refl refl refl refl refl w.thawed w)
