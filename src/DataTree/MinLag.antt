-- ===== src/DataTree/MinLag.antt =====
-- `minLagForSymbol` of preprocessor/DataTree.cc: the loop over the variables of a tree.
use dynare.Prelude.{
  leb_ℤ, sym, ◌⊎◌, negsuc, ap, ◌∙◌, ℕ, ◌≡◌, refl, inl, inr, true, ◌&&◌, [], ◌∷◌, some,
  if◌then◌else◌, Map, lookup, arith, ℤ, pos, eqb_ℤ, ltb_ℤ, Bool-cases,
}
use dynare.SymbolTable.State.{SymbolType}
use dynare.DataTree.Doubles.{Doubles}
use dynare.DataTree.Nodes.{variable, VariableKey, VariableKey-discrete, variable_key, node_at, Tree}
use dynare.DataTree.Invariant.{IsShared}
use dynare.DataTree.Queries.{min_lag, min_lag_for_symbol}

module _ (symb_id : ℤ) where
  min_lag-le : (r : ℤ) (m : Map VariableKey ℕ) → leb_ℤ (min_lag symb_id r m) r ≡ true
  unfolding min_lag
  min_lag-le r [] = ground arith
  min_lag-le r ((k, e) ∷ m) =
      ground (arith, min_lag-le (if eqb_ℤ k.symb_id symb_id && ltb_ℤ k.lag r then k.lag else r) m)

  eqb_ℤ-eq : (a b : ℤ) → eqb_ℤ a b ≡ true → a ≡ b
  eqb_ℤ-eq (pos a) (pos b) h = ground arith
  eqb_ℤ-eq (negsuc a) (negsuc b) h = ground arith
  eqb_ℤ-eq (pos a) (negsuc b) h = cc
  eqb_ℤ-eq (negsuc a) (pos b) h = cc

  eqb_ℤ-self : (a : ℤ) → eqb_ℤ a a ≡ true
  eqb_ℤ-self (pos a) = ground arith
  eqb_ℤ-self (negsuc a) = ground arith

  min_lag-lookup :
      (r : ℤ) (m : Map VariableKey ℕ) (k : VariableKey) {v : ℕ}
      → lookup k m ≡ some v
      → k.symb_id ≡ symb_id
      → leb_ℤ (min_lag symb_id r m) k.lag ≡ true
  unfolding min_lag lookup
  min_lag-lookup r [] k h e = cc
  min_lag-lookup r ((j, w) ∷ m) k {v} h e =
      let r' : ℤ = if eqb_ℤ j.symb_id symb_id && ltb_ℤ j.lag r then j.lag else r in
      elim (VariableKey-discrete j k) [
        | yes q ↦ ground (arith, min_lag-le r' m, q, e, eqb_ℤ-self symb_id)
        | no ne ↦ min_lag-lookup r' m k {v = v} (ground (arith, ne)) e
      ]

  -- Where the loop finds its result.
  abbrev FoundIn : ℤ → Map VariableKey ℕ → ℤ → Type 0
  FoundIn r m l =
      (l ≡ r)
      ⊎ ((k : VariableKey) × (v : ℕ) × (lookup k m ≡ some v) × (k.symb_id ≡ symb_id) × (k.lag ≡ l))

  FoundIn-cons :
      (r l : ℤ) (j : VariableKey) (w : ℕ) (m : Map VariableKey ℕ)
      → FoundIn r m l
      → FoundIn r ((j, w) ∷ m) l
  unfolding lookup
  FoundIn-cons r l j w m (inl e) = inl e
  FoundIn-cons r l j w m (inr (k, v, h, e, q)) = elim (VariableKey-discrete j k) [
    | yes p ↦ inr (k, w, ground (arith, p), e, q)
    | no ne ↦ inr (k, v, ground (arith, ne), e, q)
  ]

  min_lag-FoundIn : (r : ℤ) (m : Map VariableKey ℕ) → FoundIn r m (min_lag symb_id r m)
  unfolding min_lag lookup
  min_lag-FoundIn r [] = inl refl
  min_lag-FoundIn r ((j, w) ∷ m) = elim (Bool-cases (eqb_ℤ j.symb_id symb_id && ltb_ℤ j.lag r)) [
    | inr n ↦ rw n (FoundIn-cons r _ j w m (min_lag-FoundIn r m))
    | inl y ↦ rw y (elim (FoundIn-cons j.lag _ j w m (min_lag-FoundIn j.lag m)) [
      | inl e ↦ inr (j, w, ground arith, eqb_ℤ-eq j.symb_id symb_id (ground arith), sym e)
      | inr f ↦ inr f
    ])
  ]

-- In a tree that is in order, `minLagForSymbol` is at most 0 and at most the lag of each variable node of
-- the symbol, and it is 0 or the lag of such a node.
pub min_lag_for_symbol_lem :
    (d : Doubles) (t : Tree d.Double) (symb_id : ℤ)
    → IsShared d t
    → (leb_ℤ (min_lag_for_symbol t symb_id) (pos 0) ≡ true)
      × ((i : ℕ) (k : VariableKey) (ty : SymbolType)
          → node_at t.node_list i ≡ some (variable k ty)
          → k.symb_id ≡ symb_id
          → leb_ℤ (min_lag_for_symbol t symb_id) k.lag ≡ true)
      × ((min_lag_for_symbol t symb_id ≡ pos 0)
          ⊎ ((i : ℕ) × (k : VariableKey) × (ty : SymbolType) × (node_at t.node_list i
                ≡ some (variable k ty))
              × (k.symb_id ≡ symb_id)
              × (k.lag ≡ min_lag_for_symbol t symb_id)))
unfolding min_lag_for_symbol
min_lag_for_symbol_lem d t symb_id s = (
  min_lag-le symb_id (pos 0) t.variable_node_map,
  λ i k ty h e.
      min_lag-lookup symb_id (pos 0) t.variable_node_map k {v = i}
        (s.variables.complete k i _ h (ty, refl)) e,
  elim (min_lag-FoundIn symb_id (pos 0) t.variable_node_map) [
    | inl e ↦ inl e
    | inr (k, i, h, e, q) ↦
        (let (n, at, (ty, is)) = s.variables.sound k i h in inr (i, k, ty, at ∙ ap some is, e, q))
  ],
)
