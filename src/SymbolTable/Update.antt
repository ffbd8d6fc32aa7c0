-- ===== src/SymbolTable/Update.antt =====
-- preprocessor/SymbolTable.cc: the operations that change the symbol table. Each returns the new
-- table; where one throws, the table of the caller is unchanged, since no change precedes a throw.
use dynare.Prelude.{
  bytes_key, ◌>>=◌, ◌>>◌, ℕ, zero, suc, Bool, true, false, List, [], ◌∷◌, ◌==◌, if◌then◌else◌,
  length, set, snoc, ok, throw, throw_if, Map, insert, ℤ, pos, negsuc, Bytes, set_insert, contains,
  not,
}
use dynare.SymbolTable.State.{
  SymbolType, endogenous, exogenous, exogenous_det, parameter, trend, same_type, SymbolTable,
  already_declared, frozen_exception, assertion_failed, Outcome, checked_id, at, exists, get_id,
  get_type,
}

-- `getType(id) == type`, where `id` is in the table
abbrev pub has_type : SymbolTable → ℕ → SymbolType → Outcome Bool
has_type t id ty = do ty' ← get_type t (pos id); ok (same_type ty' ty)

abbrev pub appended : SymbolTable → Bytes → SymbolType → Bytes → SymbolTable
appended t name ty tex_name = record t {
  size = suc t.size;
  symbol_table = insert name t.size t.symbol_table;
  type_table = snoc t.type_table ty;
  name_table = snoc t.name_table name;
  tex_name_table = snoc t.tex_name_table tex_name;
}

-- The exception for a name that is taken.
abbrev pub declared_before : SymbolTable → Bytes → SymbolType → Outcome (ℕ × SymbolTable)
declared_before t name ty = do
  id ← get_id t name
  ty' ← at t.type_table id
  throw (already_declared name (same_type ty' ty))

-- `addSymbol(name, type, tex_name)`
unfoldable pub add_symbol_tex : SymbolTable → Bytes → SymbolType → Bytes → Outcome (ℕ × SymbolTable)
add_symbol_tex t name ty tex_name = do
  throw_if t.frozen frozen_exception
  if exists t name then declared_before t name ty else ok (t.size, appended t name ty tex_name)

-- An antislash before each underscore.
unfoldable pub default_tex_name : Bytes → Bytes
default_tex_name [] = []
default_tex_name (c ∷ s) =
    if c == b'_' then b'\\' ∷ b'_' ∷ default_tex_name s else c ∷ default_tex_name s

-- `addSymbol(name, type)`
unfoldable pub add_symbol : SymbolTable → Bytes → SymbolType → Outcome (ℕ × SymbolTable)
add_symbol t name ty = add_symbol_tex t name ty (default_tex_name name)

-- The body of the loop of `freeze`, the `switch` on the type first.
abbrev pub freeze_type : SymbolTable → ℕ → SymbolType → SymbolTable
freeze_type t i endogenous = record t {
  endo_ids = snoc t.endo_ids i;
  type_specific_ids = snoc t.type_specific_ids (pos (length t.endo_ids));
}
freeze_type t i exogenous = record t {
  exo_ids = snoc t.exo_ids i;
  type_specific_ids = snoc t.type_specific_ids (pos (length t.exo_ids));
}
freeze_type t i exogenous_det = record t {
  exo_det_ids = snoc t.exo_det_ids i;
  type_specific_ids = snoc t.type_specific_ids (pos (length t.exo_det_ids));
}
freeze_type t i parameter = record t {
  param_ids = snoc t.param_ids i;
  type_specific_ids = snoc t.type_specific_ids (pos (length t.param_ids));
}
freeze_type t i _ = record t { type_specific_ids = snoc t.type_specific_ids (negsuc 0) }

-- `for (int i = 0; i < size; i++)`, by the rounds that are left
unfoldable pub freeze_loop : ℕ → ℕ → SymbolTable → Outcome SymbolTable
freeze_loop zero i t = ok t
freeze_loop (suc n) i t = do ty ← get_type t (pos i); freeze_loop n (suc i) (freeze_type t i ty)

unfoldable pub freeze : SymbolTable → Outcome SymbolTable
freeze t = do throw_if t.frozen frozen_exception; freeze_loop t.size 0 (record t { frozen = true })

unfoldable pub change_type : SymbolTable → ℤ → SymbolType → Outcome SymbolTable
change_type t id newtype = do
  throw_if t.frozen frozen_exception
  i ← checked_id t id
  ok (record t { type_table = set t.type_table i newtype })

unfoldable pub mark_predetermined : SymbolTable → ℤ → Outcome SymbolTable
mark_predetermined t id = do
  i ← checked_id t id
  throw_if t.frozen frozen_exception
  endo ← has_type t i endogenous
  throw_if (not endo) assertion_failed
  ok (record t { predetermined_variables = set_insert i t.predetermined_variables })

unfoldable pub is_predetermined : SymbolTable → ℤ → Outcome Bool
is_predetermined t id = do i ← checked_id t id; ok (contains i t.predetermined_variables)

unfoldable pub predetermined_nbr : SymbolTable → ℕ
predetermined_nbr t = length t.predetermined_variables

unfoldable pub add_observed_variable : SymbolTable → ℤ → Outcome SymbolTable
add_observed_variable t id = do
  i ← checked_id t id
  endo ← has_type t i endogenous
  throw_if (not endo) assertion_failed
  ok (record t { varobs = snoc t.varobs i })

unfoldable pub observed_variables_nbr : SymbolTable → ℕ
observed_variables_nbr t = length t.varobs

-- An id that is negative is in no list of ids.
unfoldable pub is_observed_variable : SymbolTable → ℤ → Bool
is_observed_variable t (pos i) = contains i t.varobs
is_observed_variable t (negsuc n) = false

-- `find(v.begin(), v.end(), i) - v.begin()`
unfoldable pub position : ℕ → List ℕ → Outcome ℕ
position i [] = throw assertion_failed
position i (j ∷ v) = let rest = (do k ← position i v; ok (suc k)) in if j == i then ok 0 else rest

unfoldable pub get_observed_variable_index : SymbolTable → ℤ → Outcome ℕ
get_observed_variable_index t (pos i) = position i t.varobs
get_observed_variable_index t (negsuc n) = throw assertion_failed

-- The loop over the name map that the three collecting methods share: the ids of one type, in the
-- order of the names.
unfoldable pub ids_with_type : SymbolTable → SymbolType → Map Bytes ℕ → Outcome (List ℕ)
ids_with_type t ty [] = ok []
ids_with_type t ty ((name, id) ∷ m) = do
  rest ← ids_with_type t ty m
  this ← has_type t id ty
  ok (if this then id ∷ rest else rest)

abbrev pub to_set : List ℕ → List ℕ
to_set [] = []
to_set (i ∷ v) = set_insert i (to_set v)

unfoldable pub get_trend_var_ids : SymbolTable → Outcome (List ℕ)
get_trend_var_ids t = ids_with_type t trend t.symbol_table

unfoldable pub get_exogenous : SymbolTable → Outcome (List ℕ)
get_exogenous t = do v ← ids_with_type t exogenous t.symbol_table; ok (to_set v)

unfoldable pub get_endogenous : SymbolTable → Outcome (List ℕ)
get_endogenous t = do v ← ids_with_type t endogenous t.symbol_table; ok (to_set v)
