-- ===== src/SymbolTable/State.antt =====
-- preprocessor/SymbolTable.hh: the state of the symbol table, its exceptions and its lookups.
-- An id that the table hands out is a number; an id that a caller passes is any `int`.
use dynare.Prelude.{
  bytes_key, ◌>>=◌, ◌>>◌, ℕ, Bool, true, false, List, [], Option, none, some, ite, ltb,
  if◌then◌else◌, length, get_elem?, Result, ok, throw, throw_if, or_throw, Map, lookup, ℤ, pos,
  negsuc, ◌-ℤ◌, Bytes, not,
}

-- enum SymbolType (CodeInterpreter.hh)
pub data SymbolType : Type 0 where
  endogenous exogenous exogenous_det parameter model_local_variable : SymbolType
  mod_file_local_variable external_function trend statement_declared_variable : SymbolType

unfoldable pub SymbolType-discrete : Discrete SymbolType
SymbolType-discrete = hlevel

-- `a == b` on symbol types
abbrev pub same_type : SymbolType → SymbolType → Bool
same_type a b = ite (SymbolType-discrete a b) true false

-- enum aux_var_t
pub data AuxVarType : Type 0 where
  endo_lead endo_lag exo_lead exo_lag expectation multiplier : AuxVarType

pub record AuxVarInfo : Type 0 where
  pub symb_id : ℕ
  pub type : AuxVarType
  pub orig_symb_id : ℤ
  pub orig_lead_lag : ℤ
  pub equation_number_for_multiplier : ℤ

pub record SymbolTable : Type 0 where
  pub frozen : Bool
  pub size : ℕ
  pub symbol_table : Map Bytes ℕ
  pub name_table : List Bytes
  pub tex_name_table : List Bytes
  pub type_table : List SymbolType
  pub type_specific_ids : List ℤ
  pub endo_ids : List ℕ
  pub exo_ids : List ℕ
  pub exo_det_ids : List ℕ
  pub param_ids : List ℕ
  pub aux_vars : List AuxVarInfo
  pub predetermined_variables : List ℕ
  pub varobs : List ℕ

-- What an operation can end in other than a value: the exceptions of the class, `exit`, a failed
-- `assert`, and an access past the end of a vector, which the class never checks for.
pub data TableError : Type 0 where
  unknown_symbol_name : Bytes → TableError
  unknown_symbol_id : ℤ → TableError
  unknown_type_specific_id : ℤ → SymbolType → TableError
  already_declared : Bytes → Bool → TableError
  frozen_exception not_yet_frozen : TableError
  search_failed : ℤ → ℤ → TableError
  exit_rename : Bytes → TableError
  assertion_failed out_of_range : TableError

abbrev pub Outcome {ℓ} : Type ℓ → Type ℓ
Outcome A = Result TableError A

unfoldable pub empty_table : SymbolTable
empty_table = record {
  frozen = false;
  size = 0;
  symbol_table = [];
  name_table = [];
  tex_name_table = [];
  type_table = [];
  type_specific_ids = [];
  endo_ids = [];
  exo_ids = [];
  exo_det_ids = [];
  param_ids = [];
  aux_vars = [];
  predetermined_variables = [];
  varobs = [];
}

-- `if (id < 0 || id >= size) throw UnknownSymbolIDException(id);`
abbrev pub checked_id : SymbolTable → ℤ → Outcome ℕ
checked_id t (pos n) = if ltb n t.size then ok n else throw (unknown_symbol_id (pos n))
checked_id t (negsuc n) = throw (unknown_symbol_id (negsuc n))

-- `v[i]`
abbrev pub at {ℓ} : {A : Type ℓ} → List A → ℕ → Outcome A
at v i = or_throw (get_elem? v i) out_of_range

unfoldable pub exists : SymbolTable → Bytes → Bool
exists t name = elim (lookup name t.symbol_table) [ none ↦ false | some id ↦ true ]

unfoldable pub get_name : SymbolTable → ℤ → Outcome Bytes
get_name t id = do i ← checked_id t id; at t.name_table i

unfoldable pub get_tex_name : SymbolTable → ℤ → Outcome Bytes
get_tex_name t id = do i ← checked_id t id; at t.tex_name_table i

unfoldable pub get_type : SymbolTable → ℤ → Outcome SymbolType
get_type t id = do i ← checked_id t id; at t.type_table i

unfoldable pub get_id : SymbolTable → Bytes → Outcome ℕ
get_id t name = or_throw (lookup name t.symbol_table) (unknown_symbol_name name)

unfoldable pub get_type_by_name : SymbolTable → Bytes → Outcome SymbolType
get_type_by_name t name = do id ← get_id t name; get_type t (pos id)

unfoldable pub get_type_specific_id : SymbolTable → ℤ → Outcome ℤ
get_type_specific_id t id = do
  throw_if (not t.frozen) not_yet_frozen
  i ← checked_id t id
  at t.type_specific_ids i

unfoldable pub get_type_specific_id_by_name : SymbolTable → Bytes → Outcome ℤ
get_type_specific_id_by_name t name = do id ← get_id t name; get_type_specific_id t (pos id)

-- The vector of one of the four types that have ids of their own.
abbrev pub ids_of : SymbolTable → SymbolType → Option (List ℕ)
ids_of t endogenous = some t.endo_ids
ids_of t exogenous = some t.exo_ids
ids_of t exogenous_det = some t.exo_det_ids
ids_of t parameter = some t.param_ids
ids_of t _ = none

-- `if (tsid < 0 || tsid >= (int) ids.size()) throw ...; else return ids[tsid];`
abbrev pub checked_tsid : List ℕ → SymbolType → ℤ → Outcome ℕ
checked_tsid ids ty (pos n) =
    if ltb n (length ids) then at ids n else throw (unknown_type_specific_id (pos n) ty)
checked_tsid ids ty (negsuc n) = throw (unknown_type_specific_id (negsuc n) ty)

unfoldable pub get_id_by_type : SymbolTable → SymbolType → ℤ → Outcome ℕ
get_id_by_type t ty tsid = do
  throw_if (not t.frozen) not_yet_frozen
  elim (ids_of t ty) [
    | none ↦ throw (unknown_type_specific_id tsid ty)
    | some ids ↦ checked_tsid ids ty tsid
  ]

unfoldable pub endo_nbr : SymbolTable → Outcome ℕ
endo_nbr t = do throw_if (not t.frozen) not_yet_frozen; ok (length t.endo_ids)

unfoldable pub exo_nbr : SymbolTable → Outcome ℕ
exo_nbr t = do throw_if (not t.frozen) not_yet_frozen; ok (length t.exo_ids)

unfoldable pub exo_det_nbr : SymbolTable → Outcome ℕ
exo_det_nbr t = do throw_if (not t.frozen) not_yet_frozen; ok (length t.exo_det_ids)

unfoldable pub param_nbr : SymbolTable → Outcome ℕ
param_nbr t = do throw_if (not t.frozen) not_yet_frozen; ok (length t.param_ids)

unfoldable pub max_id : SymbolTable → ℤ
max_id t = pos t.size -ℤ pos 1

unfoldable pub orig_endo_nbr : SymbolTable → Outcome ℤ
orig_endo_nbr t = do n ← endo_nbr t; ok (pos n -ℤ pos (length t.aux_vars))
