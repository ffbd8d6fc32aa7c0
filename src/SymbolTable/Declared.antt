-- ===== src/SymbolTable/Declared.antt =====
-- What `addSymbol` and `changeType` of preprocessor/SymbolTable.cc do to later lookups.
use dynare.Prelude.{
  ℕ, suc, ◌↔◌, ◌==◌, Bool, ◌<◌, ◌≡◌, refl, sym, ap, ◌≢◌, true, false, [], ◌∷◌, none, arith, set,
  get_elem?-snoc, get_elem?-append_some, get_elem?-lt, get_elem?-total, get_elem?-set_self,
  get_elem?-set_ne, ok, throw, inl, inr, ◌⊎◌, Bool-cases, Option-cases, lookup, lookup-insert_self,
  lookup-insert_ne, ℤ, pos, negsuc, Bytes, bytes_key,
}
use mathlib.Core.Path.{subst₂}
use dynare.SymbolTable.State.{
  SymbolType, SymbolTable, exists, get_name, get_type, get_id, get_type_by_name, get_tex_name,
  Outcome, same_type, unknown_symbol_name, already_declared, frozen_exception,
}
use dynare.SymbolTable.Update.{appended, add_symbol_tex, add_symbol, change_type, default_tex_name}
use dynare.SymbolTable.WellFormed.{WellFormed, change_type_ok}

get_id-appended :
    (t : SymbolTable) (name : Bytes) (ty : SymbolType) (tex : Bytes)
    → get_id (appended t name ty tex) name ≡ ok t.size
unfolding get_id
get_id-appended t name ty tex = rw (lookup-insert_self name t.size t.symbol_table)

module _ (t : SymbolTable) (name : Bytes) (ty : SymbolType) (tex : Bytes) where
  pub get_name-appended :
      (i : ℤ) (n : Bytes) → get_name t i ≡ ok n → get_name (appended t name ty tex) i ≡ ok n
  unfolding get_name
  get_name-appended (negsuc k) n h = cc
  get_name-appended (pos k) n h =
      ground (arith, get_elem?-append_some t.name_table (name ∷ []) k {x = n})

  get_type-appended :
      (i : ℤ) (u : SymbolType) → get_type t i ≡ ok u → get_type (appended t name ty tex) i ≡ ok u
  unfolding get_type
  get_type-appended (negsuc k) u h = cc
  get_type-appended (pos k) u h =
      ground (arith, get_elem?-append_some t.type_table (ty ∷ []) k {x = u})

  get_tex_name-appended :
      (i : ℤ) (n : Bytes) → get_tex_name t i ≡ ok n → get_tex_name (appended t name ty tex) i ≡ ok n
  unfolding get_tex_name
  get_tex_name-appended (negsuc k) n h = cc
  get_tex_name-appended (pos k) n h =
      ground (arith, get_elem?-append_some t.tex_name_table (tex ∷ []) k {x = n})

  pub get_id-appended_old :
      lookup name t.symbol_table ≡ none
      → (n : Bytes) (i : ℕ) → get_id t n ≡ ok i
      → get_id (appended t name ty tex) n ≡ ok i
  unfolding get_id
  get_id-appended_old fresh n i h =
      rw (lookup-insert_ne name n t.size t.symbol_table (λ p. declared_ne p)) h
    where
      declared_ne : name ≡ n → ⊥
      declared_ne p = ground (arith, ap (λ (m : Bytes). lookup m t.symbol_table) p)

-- The table `t'` has one more symbol than `t`, under the next id, with its name, its TeX name and its
-- type; what was known of the other symbols it still finds, and the rest of its state is that of `t`.
pub record Declares (t : SymbolTable) (new : Bytes) (ty : SymbolType) (tex : Bytes)
    (t' : SymbolTable) : Type 0 where
  pub one_more : t'.size ≡ suc t.size
  pub id : get_id t' new ≡ ok t.size
  pub name : get_name t' (pos t.size) ≡ ok new
  pub tex_name : get_tex_name t' (pos t.size) ≡ ok tex
  pub type : get_type t' (pos t.size) ≡ ok ty
  pub old_ids : (n : Bytes) (i : ℕ) → get_id t n ≡ ok i → get_id t' n ≡ ok i
  pub old_names : (i : ℤ) (n : Bytes) → get_name t i ≡ ok n → get_name t' i ≡ ok n
  pub old_tex_names : (i : ℤ) (n : Bytes) → get_tex_name t i ≡ ok n → get_tex_name t' i ≡ ok n
  pub old_types : (i : ℤ) (u : SymbolType) → get_type t i ≡ ok u → get_type t' i ≡ ok u
  pub frozen : t'.frozen ≡ t.frozen
  pub type_specific_ids : t'.type_specific_ids ≡ t.type_specific_ids
  pub predetermined : t'.predetermined_variables ≡ t.predetermined_variables
  pub observed : t'.varobs ≡ t.varobs

-- A new name that is appended.
pub appended-Declares :
    (t : SymbolTable) (name : Bytes) (ty : SymbolType) (tex : Bytes)
    → WellFormed t
    → lookup name t.symbol_table ≡ none
    → Declares t name ty tex (appended t name ty tex)
unfolding get_name get_tex_name get_type
appended-Declares t name ty tex w fresh = record {
  one_more = refl;
  id = get_id-appended t name ty tex;
  name = ground (arith, get_elem?-snoc t.name_table name, w.names);
  tex_name = ground (arith, get_elem?-snoc t.tex_name_table tex, w.tex_names);
  type = ground (arith, get_elem?-snoc t.type_table ty, w.types);
  old_ids = get_id-appended_old t name ty tex fresh;
  old_names = get_name-appended t name ty tex;
  old_tex_names = get_tex_name-appended t name ty tex;
  old_types = get_type-appended t name ty tex;
  frozen = refl;
  type_specific_ids = refl;
  predetermined = refl;
  observed = refl;
}

-- The second text is the first one with an antislash before each underscore.
pub data Escapes : Bytes → Bytes → Type 0 where
  nothing : Escapes [] []
  underscore : (c : ℕ) {s t : Bytes} → c ≡ b'_' → Escapes s t → Escapes (c ∷ s) (b'\\' ∷ c ∷ t)
  other : (c : ℕ) {s t : Bytes} → c ≢ b'_' → Escapes s t → Escapes (c ∷ s) (c ∷ t)

pub default_tex_name-Escapes : (s : Bytes) → Escapes s (default_tex_name s)
unfolding default_tex_name
default_tex_name-Escapes [] = Escapes.nothing
default_tex_name-Escapes (c ∷ s) = elim (Bool-cases (c == b'_')) [
  | inl q ↦
      (let e : c ≡ b'_' = ground arith in
        rw e (Escapes.underscore b'_' refl (default_tex_name-Escapes s)))
  | inr q ↦ rw q (Escapes.other c (λ e. ground arith) (default_tex_name-Escapes s))
]

-- In a well-formed table a declared name has a type.
pub get_type_by_name_total :
    (t : SymbolTable) (name : Bytes) {id : ℕ}
    → WellFormed t
    → get_id t name ≡ ok id
    → (ty : SymbolType) × (get_type_by_name t name ≡ ok ty)
unfolding get_type_by_name get_type get_id
get_type_by_name_total t name {id} w h =
    let l = get_elem?-lt t.name_table id (w.name_of_id name id (ground arith)) in
    let (ty, e) = get_elem?-total t.type_table id (omega (arith, l, w.names, w.types)) in
    (ty, ground arith)

-- The three cases of a declaration.
pub add_symbol_cases :
    (t : SymbolTable) (name : Bytes) (ty : SymbolType)
    → WellFormed t
    → (t.frozen ≡ true → add_symbol t name ty ≡ throw frozen_exception)
      × ((old : SymbolType)
          → t.frozen ≡ false
          → get_type_by_name t name ≡ ok old
          → add_symbol t name ty ≡ throw (already_declared name (same_type old ty)))
      × (t.frozen ≡ false
          → exists t name ≡ false
          → add_symbol t name ty ≡ ok (t.size, appended t name ty (default_tex_name name)))
unfolding add_symbol add_symbol_tex exists get_type_by_name get_type get_id
add_symbol_cases t name ty w = (λ f. ground arith, λ old f g. ground arith, λ f g. ground arith)

pub declared_cases :
    (t : SymbolTable) (name : Bytes)
    → ((exists t name ≡ false) × (get_type_by_name t name ≡ throw (unknown_symbol_name name)))
      ⊎ ((id : ℕ) × (get_id t name ≡ ok id))
unfolding exists get_id get_type_by_name
declared_cases t name = elim (Option-cases (lookup name t.symbol_table)) [
  | inl e ↦ inl (ground arith, ground arith)
  | inr (id, e) ↦ inr (id, ground arith)
]

-- What a declaration of a name and a type can end in.
abbrev pub Declaration : SymbolTable → Bytes → SymbolType → Outcome (ℕ × SymbolTable) → Type 0
Declaration t name ty r =
    ((t.frozen ≡ true) × (r ≡ throw frozen_exception))
    ⊎ (((t.frozen ≡ false)
          × ((old : SymbolType) × (same : Bool) × (get_type_by_name t name ≡ ok old)
              × ((same ≡ true) ↔ (old ≡ ty))
              × (r ≡ throw (already_declared name same))))
        ⊎ ((t.frozen ≡ false)
            × (get_id t name ≡ throw (unknown_symbol_name name))
            × ((t' : SymbolTable) × (tex : Bytes) × (r ≡ ok (t.size, t'))
                × Escapes name tex
                × Declares t name ty tex t'
                × (t'.aux_vars ≡ t.aux_vars))))

module _ (t : SymbolTable) (k : ℕ) (ty : SymbolType) where
  abbrev retyped : SymbolTable
  retyped = record t { type_table = set t.type_table k ty }

  get_type-retyped_other : (j : ℤ) → j ≢ pos k → get_type retyped j ≡ get_type t j
  unfolding get_type
  get_type-retyped_other (negsuc m) h = refl
  get_type-retyped_other (pos m) h =
      ground (arith, get_elem?-set_ne t.type_table k m ty (λ e. h (ap pos (sym e))))

  get_name-retyped : (j : ℤ) → get_name retyped j ≡ get_name t j
  unfolding get_name
  get_name-retyped (negsuc m) = refl
  get_name-retyped (pos m) = refl

  get_type-retyped : WellFormed t → k < t.size → get_type retyped (pos k) ≡ ok ty
  unfolding get_type
  get_type-retyped w l = ground (arith, get_elem?-set_self t.type_table k ty (rw w.types l))

-- `changeType` changes the type of its symbol and of no other, and no name.
pub change_type-get_type :
    (t : SymbolTable) (id : ℤ) (ty : SymbolType) {t' : SymbolTable}
    → WellFormed t
    → change_type t id ty ≡ ok t'
    → (get_type t' id ≡ ok ty)
      × ((j : ℤ) → j ≢ id → get_type t' j ≡ get_type t j)
      × ((j : ℤ) → get_name t' j ≡ get_name t j)
change_type-get_type t id ty w h =
    let (i, f, p, l, e) = change_type_ok t id ty h in
    subst₂
      (λ u v.
        (get_type u v ≡ ok ty)
        × ((j : ℤ) → j ≢ v → get_type u j ≡ get_type t j)
        × ((j : ℤ) → get_name u j ≡ get_name t j))
      (sym e) (sym p)
      (get_type-retyped t i ty w l, get_type-retyped_other t i ty, get_name-retyped t i ty)
