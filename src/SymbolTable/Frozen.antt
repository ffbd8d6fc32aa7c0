-- ===== src/SymbolTable/Frozen.antt =====
-- The table after `freeze` (preprocessor/SymbolTable.cc): ids, type specific ids and back.
use dynare.Prelude.{
  ℕ, ◌<◌, ◌≡◌, refl, sym, ap, ◌∙◌, true, false, some, arith, Bool-cases, length, get_elem?,
  get_elem?-lt, ok, throw, ℤ, pos, negsuc, Bytes, inl, inr,
}
use mathlib.Core.Path.{subst}
use dynare.SymbolTable.State.{
  SymbolType, SymbolTable, get_type, get_type_specific_id, get_id_by_type, frozen_exception,
}
use dynare.SymbolTable.Update.{freeze, add_symbol, add_symbol_tex, change_type, mark_predetermined}
use dynare.SymbolTable.WellFormed.{WellFormed}
use dynare.SymbolTable.Freezing.{
  has_ids, vector, Rest, rest, FrozenUpTo, NoIds-FrozenUpTo, freeze_loop_total,
}

-- What holds of the table that `freeze` returns.
pub record IsFrozen (t t' : SymbolTable) : Type 0 where
  pub all : FrozenUpTo t'.size t'
  pub kept : rest (record t { frozen = true }) ≡ rest t'

-- `freeze` never fails on a well-formed table that is not frozen yet.
pub freeze_total :
    (t : SymbolTable)
    → WellFormed t
    → t.frozen ≡ false
    → (t' : SymbolTable) × (freeze t ≡ ok t') × IsFrozen t t'
unfolding freeze
freeze_total t w f =
    let u : SymbolTable = record t { frozen = true } in
    let (t', r, v, same) =
      freeze_loop_total t.size 0 u (NoIds-FrozenUpTo u (w.thawed f)) w.types (omega arith) in
    (t', rw f r, record { all = v; kept = same })

freeze_thawed : (t : SymbolTable) {t' : SymbolTable} → freeze t ≡ ok t' → t.frozen ≡ false
unfolding freeze
freeze_thawed t h = elim (Bool-cases t.frozen) [ inl e ↦ absurd (ground arith) | inr e ↦ e ]

pub freeze-IsFrozen :
    (t : SymbolTable) {t' : SymbolTable} → WellFormed t → freeze t ≡ ok t' → IsFrozen t t'
freeze-IsFrozen t w h =
    let (t'', e, v) = freeze_total t w (freeze_thawed t h) in subst (IsFrozen t) (cc) v

-- The invariant holds of the frozen table.
pub freeze-WellFormed :
    (t : SymbolTable) {t' : SymbolTable} → WellFormed t → freeze t ≡ ok t' → WellFormed t'
freeze-WellFormed t {t'} w h =
    let v = freeze-IsFrozen t w h in
    let s : t.size ≡ t'.size = ap (λ (r : Rest). r.0) v.kept in
    let f : true ≡ t'.frozen = ap (λ (r : Rest). r.1) v.kept in
    let y : t.type_table ≡ t'.type_table = ap (λ (r : Rest). r.2) v.kept in
    let n : t.name_table ≡ t'.name_table = ap (λ (r : Rest). r.3) v.kept in
    let x : t.tex_name_table ≡ t'.tex_name_table = ap (λ (r : Rest). r.4) v.kept in
    let m : t.symbol_table ≡ t'.symbol_table = ap (λ (r : Rest). r.5) v.kept in
    record {
      names = rw (← n, ← s) w.names;
      tex_names = rw (← x, ← s) w.tex_names;
      types = rw (← y, ← s) w.types;
      name_of_id = rw (← m, ← n) w.name_of_id;
      id_of_name = rw (← m, ← n) w.id_of_name;
      thawed = λ e. cc;
    }

module _ (t t' : SymbolTable) (w : WellFormed t) (h : freeze t ≡ ok t') where
  frozen_facts :
      (t'.frozen ≡ true)
      × (t.size ≡ t'.size)
      × (t.type_table ≡ t'.type_table)
      × (length t'.type_specific_ids ≡ t'.size)
  frozen_facts =
      let v = freeze-IsFrozen t w h in
      (
        sym (ap (λ (r : Rest). r.1) v.kept),
        ap (λ (r : Rest). r.0) v.kept,
        ap (λ (r : Rest). r.2) v.kept,
        v.all.count,
      )

  get_type_eq : (id : ℤ) → get_type t id ≡ get_type t' id
  unfolding get_type
  get_type_eq (pos n) = ground (arith, frozen_facts)
  get_type_eq (negsuc n) = refl

  pub freeze-get_type : (id : ℤ) → get_type t' id ≡ get_type t id
  freeze-get_type id = sym (get_type_eq id)

  pub freeze-frozen : t'.frozen ≡ true
  freeze-frozen = frozen_facts.0

  -- The lookups of a frozen table in terms of its vectors.
  get_tsid_of_entry :
      (id : ℕ) (z : ℤ)
      → get_elem? t'.type_specific_ids id ≡ some z
      → get_type_specific_id t' (pos id) ≡ ok z
  unfolding get_type_specific_id
  get_tsid_of_entry id z e = ground (arith, frozen_facts, get_elem?-lt t'.type_specific_ids id e)

  get_id_of_entry :
      (ty : SymbolType) (k j : ℕ)
      → get_elem? (vector t' ty) k ≡ some j
      → get_id_by_type t' ty (pos k) ≡ ok j
  unfolding get_id_by_type
  get_id_of_entry ty k j e = ground (arith, frozen_facts, get_elem?-lt (vector t' ty) k e)

  entry_of_get_id :
      (ty : SymbolType) (k j : ℕ)
      → get_id_by_type t' ty (pos k) ≡ ok j
      → get_elem? (vector t' ty) k ≡ some j
  unfolding get_id_by_type
  entry_of_get_id ty k j e = ground (arith, frozen_facts)

  get_type_of_entry :
      (id : ℕ) (ty : SymbolType) {z : ℤ}
      → get_elem? t'.type_table id ≡ some ty
      → get_elem? t'.type_specific_ids id ≡ some z
      → get_type t' (pos id) ≡ ok ty
  unfolding get_type
  get_type_of_entry id ty a b = ground (arith, frozen_facts, get_elem?-lt t'.type_specific_ids id b)

  entry_of_get_type :
      (id : ℕ) (ty : SymbolType)
      → get_type t (pos id) ≡ ok ty
      → (get_elem? t'.type_table id ≡ some ty) × (id < t'.size)
  unfolding get_type
  entry_of_get_type id ty e = ground (arith, frozen_facts)

  -- After `freeze`, a symbol of a type with ids of its own (endogenous, exogenous, exogenous
  -- deterministic, parameter) has a type specific id, and that id leads back to the symbol.
  pub freeze-get_type_specific_id :
      (id : ℕ) (ty : SymbolType)
      → get_type t (pos id) ≡ ok ty
      → has_ids ty ≡ true
      → (k : ℕ) × (get_type_specific_id t' (pos id) ≡ ok (pos k))
        × (get_id_by_type t' ty (pos k) ≡ ok id)
  freeze-get_type_specific_id id ty e s =
      let (entry, l) = entry_of_get_type id ty e in
      let (k, a, b) = (freeze-IsFrozen t w h).all.tsid_of_id id ty entry l s in
      (k, get_tsid_of_entry id (pos k) a, get_id_of_entry ty k id b)

  -- After `freeze`, the symbol that a type and a type specific id lead to has that type, and has
  -- that type specific id.
  pub freeze-get_id_by_type :
      (ty : SymbolType) (k id : ℕ)
      → get_id_by_type t' ty (pos k) ≡ ok id
      → (get_type t (pos id) ≡ ok ty) × (get_type_specific_id t' (pos id) ≡ ok (pos k))
  freeze-get_id_by_type ty k id e =
      let (a, b) = (freeze-IsFrozen t w h).all.id_of_tsid ty k id (entry_of_get_id ty k id e) in
      (get_type_eq (pos id) ∙ get_type_of_entry id ty a b, get_tsid_of_entry id (pos k) b)

  -- After `freeze`, a greater type specific id of a type leads to a greater symbol id: the ids of a
  -- type are in the order of declaration.
  pub freeze-ascending :
      (ty : SymbolType) (k l id j : ℕ)
      → get_id_by_type t' ty (pos k) ≡ ok id
      → get_id_by_type t' ty (pos l) ≡ ok j
      → k < l
      → id < j
  freeze-ascending ty k l id j e g lt =
      (freeze-IsFrozen t w h).all.ascending ty k l id j (entry_of_get_id ty k id e)
        (entry_of_get_id ty l j g) lt

  -- After `freeze`, a symbol of any other type has the type specific id -1.
  pub freeze-no_type_specific_id :
      (id : ℕ) (ty : SymbolType)
      → get_type t (pos id) ≡ ok ty
      → has_ids ty ≡ false
      → get_type_specific_id t' (pos id) ≡ ok (negsuc 0)
  freeze-no_type_specific_id id ty e s =
      let (entry, l) = entry_of_get_type id ty e in
      get_tsid_of_entry id (negsuc 0) ((freeze-IsFrozen t w h).all.no_tsid id ty entry l s)

  -- After `freeze`, symbols can be neither added nor changed, and `freeze` fails.
  pub freeze-refuses :
      (freeze t' ≡ throw frozen_exception)
      × ((name : Bytes) (ty : SymbolType) → add_symbol t' name ty ≡ throw frozen_exception)
      × ((id : ℤ) (ty : SymbolType) → change_type t' id ty ≡ throw frozen_exception)
      × ((id : ℕ) → id < t.size → mark_predetermined t' (pos id) ≡ throw frozen_exception)
  unfolding freeze add_symbol add_symbol_tex change_type mark_predetermined
  freeze-refuses =
      let f = frozen_facts.0 in
      (rw f, λ name ty. rw f, λ id ty. rw f, λ id l. ground (arith, frozen_facts))
