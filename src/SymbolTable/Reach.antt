-- ===== src/SymbolTable/Reach.antt =====
-- The states that the operations of preprocessor/SymbolTable.cc lead to.
use mathlib.Core.Path.{subst}
use dynare.Prelude.{
  ℕ, ◌≡◌, get_elem?-lt, refl, sym, ap, ◌∙◌, ok, ℤ, pos, negsuc, Bytes, bytes_key, lookup, arith,
  none,
}
use dynare.SymbolTable.State.{
  SymbolType, endogenous, SymbolTable, AuxVarInfo, AuxVarType, empty_table, get_name, get_id,
  exists,
}
use dynare.SymbolTable.Update.{
  add_symbol_tex, change_type, freeze, mark_predetermined, add_observed_variable, appended,
  default_tex_name,
}
use dynare.SymbolTable.Auxiliary.{add_auxiliary, push_aux}
use dynare.SymbolTable.WellFormed.{
  WellFormed, empty_table-WellFormed, add_symbol_tex_ok, appended-WellFormed, change_type_ok,
  change_type-WellFormed, mark_predetermined_ok, mark_predetermined-WellFormed,
  add_observed_variable_ok, add_observed_variable-WellFormed, same_ids,
}
use dynare.SymbolTable.Declared.{get_name-appended, get_id-appended_old}
use dynare.SymbolTable.Freezing.{Rest}
use dynare.SymbolTable.Frozen.{freeze-WellFormed, freeze-IsFrozen}
use dynare.SymbolTable.Added.{add_auxiliary_eq}

-- One call that returns. The methods that add auxiliary variables all share `add_auxiliary`.
pub data Step (t t' : SymbolTable) : Type 0 where
  declares :
      (name : Bytes) (ty : SymbolType) (tex : Bytes) (id : ℕ)
      → add_symbol_tex t name ty tex ≡ ok (id, t')
      → Step t t'
  retypes : (id : ℤ) (ty : SymbolType) → change_type t id ty ≡ ok t' → Step t t'
  marks : (id : ℤ) → mark_predetermined t id ≡ ok t' → Step t t'
  observes : (id : ℤ) → add_observed_variable t id ≡ ok t' → Step t t'
  freezes : freeze t ≡ ok t' → Step t t'
  adds_auxiliary :
      (name : Bytes) (type : AuxVarType) (orig lead_lag eq : ℤ) (id : ℕ)
      → add_auxiliary t name type orig lead_lag eq ≡ ok (id, t')
      → Step t t'

pub data Reach (t : SymbolTable) : SymbolTable → Type 0 where
  here : Reach t t
  next : {u v : SymbolTable} → Reach t u → Step u v → Reach t v

-- The auxiliary variable that was added is declared, and recorded.
add_auxiliary_ok :
    (t : SymbolTable) (name : Bytes) (type : AuxVarType) (orig lead_lag eq : ℤ) {id : ℕ}
    {t' : SymbolTable}
    → WellFormed t
    → add_auxiliary t name type orig lead_lag eq ≡ ok (id, t')
    → (a : AuxVarInfo) × (lookup name t.symbol_table ≡ none)
      × (t' ≡ push_aux a (appended t name endogenous (default_tex_name name)))
unfolding exists get_id
add_auxiliary_ok t name type orig lead_lag eq w h =
    let g = sym (add_auxiliary_eq t name type orig lead_lag eq w) ∙ h in
    let a : AuxVarInfo = record {
      symb_id = t.size;
      type = type;
      orig_symb_id = orig;
      orig_lead_lag = lead_lag;
      equation_number_for_multiplier = eq;
    } in
    (a, ground arith, ground arith)

-- What was declared keeps its id and its name, and a frozen table stays frozen.
pub record Extends (t t' : SymbolTable) : Type 0 where
  pub names : (i : ℤ) (n : Bytes) → get_name t i ≡ ok n → get_name t' i ≡ ok n
  pub ids : (n : Bytes) (i : ℕ) → get_id t n ≡ ok i → get_id t' n ≡ ok i

same_names :
    (t t' : SymbolTable)
    → t'.size ≡ t.size
    → t'.symbol_table ≡ t.symbol_table
    → t'.name_table ≡ t.name_table
    → Extends t t'
unfolding get_name get_id
same_names t t' s m n = record { names = λ i x h. name_kept i h; ids = λ x i h. rw m h }
  where
    name_kept : (i : ℤ) {x : Bytes} → get_name t i ≡ ok x → get_name t' i ≡ ok x
    name_kept (pos i) h = rw (s, n) h
    name_kept (negsuc i) h = h

Step-WellFormed : {t t' : SymbolTable} → Step t t' → WellFormed t → WellFormed t'
Step-WellFormed {t} (declares name ty tex id h) w =
    let (thaw, fresh, at_size, new) = add_symbol_tex_ok t name ty tex h in
    subst WellFormed (sym new) (appended-WellFormed t name ty tex w fresh)
Step-WellFormed {t} (retypes id ty h) w = change_type-WellFormed t id ty w h
Step-WellFormed {t} (marks id h) w = mark_predetermined-WellFormed t id w h
Step-WellFormed {t} (observes id h) w = add_observed_variable-WellFormed t id w h
Step-WellFormed {t} (freezes h) w = freeze-WellFormed t w h
Step-WellFormed {t} (adds_auxiliary name type orig lead_lag eq id h) w =
    let (a, fresh, new) = add_auxiliary_ok t name type orig lead_lag eq w h in
    let u = appended t name endogenous (default_tex_name name) in
    let v = appended-WellFormed t name endogenous (default_tex_name name) w fresh in
    subst WellFormed (sym new) (same_ids u (push_aux a u) refl refl refl refl refl v.thawed v)

appended-Extends :
    (t : SymbolTable) (name : Bytes) (ty : SymbolType) (tex : Bytes)
    → lookup name t.symbol_table ≡ none
    → Extends t (appended t name ty tex)
appended-Extends t name ty tex fresh = record {
  names = get_name-appended t name ty tex;
  ids = get_id-appended_old t name ty tex fresh;
}

Extends-trans : {t u v : SymbolTable} → Extends t u → Extends u v → Extends t v
Extends-trans e f = record {
  names = λ i n h. f.names i n (e.names i n h);
  ids = λ n i h. f.ids n i (e.ids n i h);
}

Step-Extends : {t t' : SymbolTable} → Step t t' → WellFormed t → Extends t t'
Step-Extends {t} (declares name ty tex id h) w =
    let (thaw, fresh, at_size, new) = add_symbol_tex_ok t name ty tex h in
    subst (Extends t) (sym new) (appended-Extends t name ty tex fresh)
Step-Extends {t} (retypes id ty h) w =
    let (i, thaw, p, lt, new) = change_type_ok t id ty h in
    subst (Extends t) (sym new) (same_names t _ refl refl refl)
Step-Extends {t} (marks id h) w =
    subst (Extends t) (sym (mark_predetermined_ok t id h)) (same_names t _ refl refl refl)
Step-Extends {t} (observes id h) w =
    subst (Extends t) (sym (add_observed_variable_ok t id h)) (same_names t _ refl refl refl)
Step-Extends {t} {t'} (freezes h) w =
    let v = freeze-IsFrozen t w h in
    same_names t t' (sym (ap (λ (r : Rest). r.0) v.kept)) (sym (ap (λ (r : Rest). r.5) v.kept))
      (sym (ap (λ (r : Rest). r.3) v.kept))
Step-Extends {t} (adds_auxiliary name type orig lead_lag eq id h) w =
    let (a, fresh, new) = add_auxiliary_ok t name type orig lead_lag eq w h in
    let tex = default_tex_name name in
    let u = appended t name endogenous tex in
    subst (Extends t) (sym new) (
      Extends-trans (appended-Extends t name endogenous tex fresh)
        (same_names u (push_aux a u) refl refl refl))

-- Every table that calls of its operations lead to, from the empty one, is well formed: its tables have
-- the size of the table, names and ids are inverse to each other, and no type specific id is given out
-- before the table is frozen.
pub Reach-WellFormed : {t : SymbolTable} → Reach empty_table t → WellFormed t
Reach-WellFormed here = empty_table-WellFormed
Reach-WellFormed (next r s) = Step-WellFormed s (Reach-WellFormed r)

both : {t u : SymbolTable} → WellFormed t → Reach t u → WellFormed u × Extends t u
both w here = (w, record { names = λ i n h. h; ids = λ n i h. h })
both w (next r s) =
    let (v, e) = both w r in (Step-WellFormed s v, Extends-trans e (Step-Extends s v))

get_name-get_id :
    (u : SymbolTable) (name : Bytes) (id : ℕ)
    → WellFormed u
    → get_id u name ≡ ok id
    → get_name u (pos id) ≡ ok name
unfolding get_id get_name
get_name-get_id u name id v h =
    let at = v.name_of_id name id (ground arith) in
    let lt = get_elem?-lt u.name_table id at in ground (arith, v.names)

-- Whatever calls come between, a symbol that a well-formed table has keeps its id, and an id its name.
pub Reach-get_id :
    {t u : SymbolTable} (name : Bytes) (id : ℕ)
    → WellFormed t
    → Reach t u
    → get_id t name ≡ ok id
    → (get_id u name ≡ ok id) × (get_name u (pos id) ≡ ok name)
Reach-get_id {t} {u} name id w r h =
    let (v, e) = both w r in let g = e.ids name id h in (g, get_name-get_id u name id v g)
