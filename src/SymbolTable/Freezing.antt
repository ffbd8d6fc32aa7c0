-- ===== src/SymbolTable/Freezing.antt =====
-- `freeze` of preprocessor/SymbolTable.cc: the loop that gives out the type specific ids.
use dynare.Prelude.{
  ℕ, zero, suc, ◌+◌, ◌<◌, ◌≡◌, refl, sym, ap, ◌∙◌, ◌≢◌, ◌⊎◌, inl, inr, Bool, true, false, List, [],
  ◌∷◌, ◌++◌, none, some, arith, ℕ_discrete, Bool-cases, length, snoc, get_elem?, length-snoc,
  get_elem?-snoc, get_elem?-snoc_cases, get_elem?-append_some, get_elem?-lt, get_elem?-total, ok,
  Map, Bytes, ℤ, pos, negsuc, if◌then◌else◌,
}
use mathlib.Core.Path.{subst, subst₂}
use dynare.SymbolTable.State.{
  SymbolType, endogenous, exogenous, exogenous_det, parameter, SymbolType-discrete, SymbolTable,
  get_type, ids_of,
}
use dynare.SymbolTable.Update.{freeze_type, freeze_loop}
use dynare.SymbolTable.WellFormed.{NoIds}

abbrev pub has_ids : SymbolType → Bool
has_ids endogenous = true
has_ids exogenous = true
has_ids exogenous_det = true
has_ids parameter = true
has_ids _ = false

-- The symbol ids of one type, at their type specific ids.
abbrev pub vector : SymbolTable → SymbolType → List ℕ
vector t ty = elim (ids_of t ty) [ none ↦ [] | some v ↦ v ]

abbrev next_tsid : SymbolTable → SymbolType → ℤ
next_tsid t ty = if has_ids ty then pos (length (vector t ty)) else negsuc 0

module _ (t : SymbolTable) (i : ℕ) where
  freeze_type-tsids :
      (ty : SymbolType)
      → (freeze_type t i ty).type_specific_ids ≡ snoc t.type_specific_ids (next_tsid t ty)
  freeze_type-tsids endogenous = refl
  freeze_type-tsids _ = refl

  freeze_type-types : (ty : SymbolType) → (freeze_type t i ty).type_table ≡ t.type_table
  freeze_type-types endogenous = refl
  freeze_type-types _ = refl

  freeze_type-size : (ty : SymbolType) → (freeze_type t i ty).size ≡ t.size
  freeze_type-size endogenous = refl
  freeze_type-size _ = refl

  freeze_type-vector_self :
      (ty : SymbolType) → has_ids ty ≡ true → vector (freeze_type t i ty) ty ≡ snoc (vector t ty) i
  freeze_type-vector_self endogenous h = refl
  freeze_type-vector_self exogenous h = refl
  freeze_type-vector_self exogenous_det h = refl
  freeze_type-vector_self parameter h = refl
  freeze_type-vector_self _ h = cc

  freeze_type-vector_other :
      (ty u : SymbolType) → ty ≢ u → vector (freeze_type t i ty) u ≡ vector t u
  freeze_type-vector_other endogenous u h = ground arith
  freeze_type-vector_other _ u h = ground arith

-- The loop after its first `i` rounds.
pub record FrozenUpTo (i : ℕ) (t : SymbolTable) : Type 0 where
  pub count : length t.type_specific_ids ≡ i
  pub tsid_of_id :
      (j : ℕ) (ty : SymbolType)
      → get_elem? t.type_table j ≡ some ty
      → j < i
      → has_ids ty ≡ true
      → (k : ℕ) × (get_elem? t.type_specific_ids j ≡ some (pos k))
        × (get_elem? (vector t ty) k ≡ some j)
  pub no_tsid :
      (j : ℕ) (ty : SymbolType)
      → get_elem? t.type_table j ≡ some ty
      → j < i
      → has_ids ty ≡ false
      → get_elem? t.type_specific_ids j ≡ some (negsuc 0)
  pub id_of_tsid :
      (ty : SymbolType) (k j : ℕ)
      → get_elem? (vector t ty) k ≡ some j
      → (get_elem? t.type_table j ≡ some ty) × (get_elem? t.type_specific_ids j ≡ some (pos k))
  pub ascending :
      (ty : SymbolType) (k l j m : ℕ)
      → get_elem? (vector t ty) k ≡ some j
      → get_elem? (vector t ty) l ≡ some m
      → k < l
      → j < m

vector-nil : (t : SymbolTable) (ty : SymbolType) → has_ids ty ≡ false → vector t ty ≡ []
vector-nil t ty h = ground arith

vector-NoIds : (t : SymbolTable) (ty : SymbolType) → NoIds t → vector t ty ≡ []
vector-NoIds t ty n = ground arith

pub NoIds-FrozenUpTo : (t : SymbolTable) → NoIds t → FrozenUpTo 0 t
NoIds-FrozenUpTo t n = record {
  count = rw n.0;
  tsid_of_id = λ j ty e l h. elim l [ ];
  no_tsid = λ j ty e l h. elim l [ ];
  id_of_tsid = λ ty k j e. absurd (nothing ty k j e);
  ascending = λ ty k l j m e f h. absurd (nothing ty k j e);
}
  where
    nothing : (ty : SymbolType) (k j : ℕ) → get_elem? (vector t ty) k ≡ some j → ⊥
    nothing ty k j e = ground (arith, ap (λ (v : List ℕ). get_elem? v k) (vector-NoIds t ty n))

module _ (t : SymbolTable) (i : ℕ) (ty : SymbolType) (inv : FrozenUpTo i t)
    (here : get_elem? t.type_table i ≡ some ty) where
  abbrev next : SymbolTable
  next = freeze_type t i ty

  -- What a vector holds after the round.
  vector_cases :
      (u : SymbolType) (k j : ℕ)
      → get_elem? (vector next u) k ≡ some j
      → ((get_elem? (vector t u) k ≡ some j) × (j < i))
        ⊎ ((u ≡ ty) × (j ≡ i) × (k ≡ length (vector t ty)) × (has_ids ty ≡ true))
  vector_cases u k j e = elim (SymbolType-discrete ty u) [
    | no p ↦ inl (
        old u k j
          (subst (λ (v : List ℕ). get_elem? v k ≡ some j) (freeze_type-vector_other t i ty u p) e))
    | yes p ↦ elim (Bool-cases (has_ids ty)) [
      | inl h ↦ elim (get_elem?-snoc_cases (vector t ty) i k (self u k j e p h)) [
        | inl (f, l) ↦
            inl (old u k j (subst (λ (v : SymbolType). get_elem? (vector t v) k ≡ some j) p f))
        | inr (f, q) ↦ inr (sym p, sym q, f, h)
      ]
      | inr h ↦ absurd (get_elem?-nil u k j (subst (λ (v : SymbolType). has_ids v ≡ false) p h) e)
    ]
  ]
    where
      self :
          (u : SymbolType) (k j : ℕ)
          → get_elem? (vector next u) k ≡ some j
          → ty ≡ u
          → has_ids ty ≡ true
          → get_elem? (vector t ty ++ i ∷ []) k ≡ some j
      self u k j e p h =
          subst (λ (v : List ℕ). get_elem? v k ≡ some j) (freeze_type-vector_self t i ty h)
            (subst (λ (v : SymbolType). get_elem? (vector next v) k ≡ some j) (sym p) e)

      old :
          (u : SymbolType) (k j : ℕ)
          → get_elem? (vector t u) k ≡ some j
          → (get_elem? (vector t u) k ≡ some j) × (j < i)
      old u k j f = (
        f,
        omega (arith, get_elem?-lt t.type_specific_ids j (inv.id_of_tsid u k j f).1, inv.count),
      )

      get_elem?-nil :
          (u : SymbolType) (k j : ℕ) → has_ids u ≡ false → get_elem? (vector next u) k ≡ some j → ⊥
      get_elem?-nil u k j h f =
          ground (arith, ap (λ (v : List ℕ). get_elem? v k) (vector-nil next u h))

  old_tsid :
      (j : ℕ) (z : ℤ)
      → get_elem? t.type_specific_ids j ≡ some z
      → get_elem? next.type_specific_ids j ≡ some z
  old_tsid j z e = rw (freeze_type-tsids t i ty) (get_elem?-append_some t.type_specific_ids _ j e)

  new_tsid : get_elem? next.type_specific_ids i ≡ some (next_tsid t ty)
  new_tsid = rw (freeze_type-tsids t i ty) (
      subst (λ n. get_elem? (snoc t.type_specific_ids (next_tsid t ty)) n ≡ some (next_tsid t ty))
        inv.count (get_elem?-snoc t.type_specific_ids (next_tsid t ty)))

  next_types :
      (j : ℕ) {u : SymbolType}
      → get_elem? next.type_table j ≡ some u
      → get_elem? t.type_table j ≡ some u
  next_types j e = rw (freeze_type-types t i ty) at e

  old_vector :
      (u : SymbolType) (k j : ℕ)
      → get_elem? (vector t u) k ≡ some j
      → get_elem? (vector next u) k ≡ some j
  old_vector u k j e = elim (SymbolType-discrete ty u) [
    | no p ↦ rw (freeze_type-vector_other t i ty u p) e
    | yes p ↦ elim (Bool-cases (has_ids u)) [
      | inl h ↦ self u k j e p h
      | inr h ↦ absurd (ground (arith, ap (λ (v : List ℕ). get_elem? v k) (vector-nil t u h)))
    ]
  ]
    where
      self :
          (u : SymbolType) (k j : ℕ)
          → get_elem? (vector t u) k ≡ some j
          → ty ≡ u
          → has_ids u ≡ true
          → get_elem? (vector next u) k ≡ some j
      self u k j e p h =
          subst (λ (v : SymbolType). get_elem? (vector next v) k ≡ some j) p
            (rw
              (freeze_type-vector_self t i ty
                (subst (λ (v : SymbolType). has_ids v ≡ true) (sym p) h))
              (get_elem?-append_some (vector t ty) (i ∷ []) k
                (subst (λ (v : SymbolType). get_elem? (vector t v) k ≡ some j) (sym p) e)))

  new_vector : has_ids ty ≡ true → get_elem? (vector next ty) (length (vector t ty)) ≡ some i
  new_vector h = rw (freeze_type-vector_self t i ty h) (get_elem?-snoc (vector t ty) i)

  -- The entry of the type table that the round reads.
  at_here :
      (P : ℕ → SymbolType → Type 0)
      → P i ty
      → (j : ℕ) (u : SymbolType) → get_elem? next.type_table j ≡ some u
      → j ≡ i
      → P j u
  at_here P h j u e p = let q : u ≡ ty = cc (next_types j e, here) in subst₂ P (sym p) (sym q) h

  new_tsid_pos :
      has_ids ty ≡ true → get_elem? next.type_specific_ids i ≡ some (pos (length (vector t ty)))
  new_tsid_pos h =
      subst
        (λ b.
          get_elem? next.type_specific_ids i
          ≡ some (if b then pos (length (vector t ty)) else negsuc 0))
        h new_tsid

  new_tsid_none : has_ids ty ≡ false → get_elem? next.type_specific_ids i ≡ some (negsuc 0)
  new_tsid_none h =
      subst
        (λ b.
          get_elem? next.type_specific_ids i
          ≡ some (if b then pos (length (vector t ty)) else negsuc 0))
        h new_tsid

  next-tsid_of_id :
      (j : ℕ) (u : SymbolType)
      → get_elem? next.type_table j ≡ some u
      → j < suc i
      → has_ids u ≡ true
      → (k : ℕ) × (get_elem? next.type_specific_ids j ≡ some (pos k))
        × (get_elem? (vector next u) k ≡ some j)
  next-tsid_of_id j u e l h = elim (ℕ_discrete j i) [
    | no ne ↦
        let (k, f, g) = inv.tsid_of_id j u (next_types j e) (omega arith) h in
        (k, old_tsid j (pos k) f, old_vector u k j g)
    | yes eq ↦
        at_here
          (λ n v.
            has_ids v ≡ true
            → (k : ℕ) × (get_elem? next.type_specific_ids n ≡ some (pos k))
              × (get_elem? (vector next v) k ≡ some n))
          (λ g. (length (vector t ty), new_tsid_pos g, new_vector g)) j u e eq h
  ]

  next-no_tsid :
      (j : ℕ) (u : SymbolType)
      → get_elem? next.type_table j ≡ some u
      → j < suc i
      → has_ids u ≡ false
      → get_elem? next.type_specific_ids j ≡ some (negsuc 0)
  next-no_tsid j u e l h = elim (ℕ_discrete j i) [
    | no ne ↦ old_tsid j (negsuc 0) (inv.no_tsid j u (next_types j e) (omega arith) h)
    | yes eq ↦
        at_here (λ n v. has_ids v ≡ false → get_elem? next.type_specific_ids n ≡ some (negsuc 0))
          new_tsid_none j u e eq h
  ]

  next-id_of_tsid :
      (u : SymbolType) (k j : ℕ)
      → get_elem? (vector next u) k ≡ some j
      → (get_elem? next.type_table j ≡ some u) × (get_elem? next.type_specific_ids j ≡ some (pos k))
  next-id_of_tsid u k j e = elim (vector_cases u k j e) [
    | inl (f, l) ↦
        let (a, b) = inv.id_of_tsid u k j f in
        (rw (freeze_type-types t i ty) a, old_tsid j (pos k) b)
    | inr (p, q, r, h) ↦ (rw (freeze_type-types t i ty) (cc here), cc (new_tsid_pos h))
  ]

  next-ascending :
      (u : SymbolType) (k l j m : ℕ)
      → get_elem? (vector next u) k ≡ some j
      → get_elem? (vector next u) l ≡ some m
      → k < l
      → j < m
  next-ascending u k l j m e f h = elim (vector_cases u k j e) [
    | inl (e', b) ↦ elim (vector_cases u l m f) [
      | inl (f', c) ↦ inv.ascending u k l j m e' f' h
      | inr (p, q, r, g) ↦ omega arith
    ]
    | inr (p, q, r, g) ↦ elim (vector_cases u l m f) [
      | inl (f', c) ↦
          absurd (omega (arith, get_elem?-lt (vector t u) l f', ap (λ v. length (vector t v)) p))
      | inr (p', q', r', g') ↦ absurd (omega arith)
    ]
  ]

  next-FrozenUpTo : FrozenUpTo (suc i) next
  next-FrozenUpTo = record {
    count =
        rw (freeze_type-tsids t i ty)
          (length-snoc t.type_specific_ids (next_tsid t ty) ∙ ap suc inv.count);
    tsid_of_id = next-tsid_of_id;
    no_tsid = next-no_tsid;
    id_of_tsid = next-id_of_tsid;
    ascending = next-ascending;
  }

-- What `freeze` does not write.
abbrev pub Rest : Type 0
Rest = ℕ × Bool × List SymbolType × List Bytes × List Bytes × Map Bytes ℕ

abbrev pub rest : SymbolTable → Rest
rest t = (t.size, t.frozen, t.type_table, t.name_table, t.tex_name_table, t.symbol_table)

freeze_type-rest : (t : SymbolTable) (i : ℕ) (ty : SymbolType) → rest t ≡ rest (freeze_type t i ty)
freeze_type-rest t i endogenous = refl
freeze_type-rest t i _ = refl

get_type_total :
    (t : SymbolTable) (i : ℕ)
    → length t.type_table ≡ t.size
    → i < t.size
    → (ty : SymbolType) × (get_elem? t.type_table i ≡ some ty) × (get_type t (pos i) ≡ ok ty)
unfolding get_type
get_type_total t i w l =
    let (ty, e) = get_elem?-total t.type_table i (rw w l) in (ty, e, ground arith)

-- The loop ends with a value, whatever the types are, and leaves the rest of the table alone.
pub freeze_loop_total :
    (n i : ℕ) (t : SymbolTable)
    → FrozenUpTo i t
    → length t.type_table ≡ t.size
    → i + n ≡ t.size
    → (t' : SymbolTable) × (freeze_loop n i t ≡ ok t') × FrozenUpTo t'.size t' × (rest t ≡ rest t')
unfolding freeze_loop
freeze_loop_total zero i t v w e = (t, refl, subst (λ k. FrozenUpTo k t) (omega arith) v, refl)
freeze_loop_total (suc n) i t v w e =
    let (ty, e', g) = get_type_total t i w (omega arith) in
    let (t', r, v', same) =
      freeze_loop_total n (suc i) (freeze_type t i ty) (next-FrozenUpTo t i ty v e')
        (rw (freeze_type-types t i ty, freeze_type-size t i ty) w)
        (rw (freeze_type-size t i ty) (omega arith)) in
    (t', rw g r, v', freeze_type-rest t i ty ∙ same)
