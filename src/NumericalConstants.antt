-- ===== src/NumericalConstants.antt =====
-- preprocessor/NumericalConstants.cc: the table of the numerical constants of a model.
use dynare.Prelude.{
  ℕ, suc, ◌≡◌, refl, sym, ◌∙◌, ap, inl, inr, arith, true, List, [], ◌∷◌, Option, none, some, length,
  snoc, get_elem?, ◌||◌, if◌then◌else◌, Map, lookup, insert, lookup-insert_self, lookup-insert_ne,
  Bytes, Bytes-discrete, bytes_key, Option-cases, length-snoc, get_elem?-snoc, get_elem?-snoc_cases,
  get_elem?-append_some,
}
use dynare.DataTree.Doubles.{Doubles}

pub record NumericalConstants (D : Type 0) : Type 0 where
  pub numerical_constants : List Bytes
  pub double_vals : List D
  pub num_constants_index : Map Bytes ℕ

abbrev pub no_constants : {D : Type 0} → NumericalConstants D
no_constants = record { numerical_constants = []; double_vals = []; num_constants_index = [] }

module _ (d : Doubles) where
  open d use {Double, is_nan, le, of_int, strtod}

  -- The table after a constant that it did not hold.
  abbrev pub stored : NumericalConstants Double → Bytes → NumericalConstants Double
  stored c s = record {
    numerical_constants = snoc c.numerical_constants s;
    double_vals = snoc c.double_vals (strtod s);
    num_constants_index = insert s (length c.numerical_constants) c.num_constants_index;
  }

  -- `AddNonNegativeConstant`. `none` is the failed assertion that the value is not negative.
  unfoldable pub add_non_negative_constant :
      NumericalConstants Double → Bytes → Option (ℕ × NumericalConstants Double)
  add_non_negative_constant c s = elim (lookup s c.num_constants_index) [
    | some id ↦ some (id, c)
    | none ↦
        if le (of_int 0) (strtod s) || is_nan (strtod s)
        then some (length c.numerical_constants, stored c s)
        else none
  ]

  -- `get` and `getDouble`. `none` is the failed assertion that the id is in the table.
  unfoldable pub get : NumericalConstants Double → ℕ → Option Bytes
  get c id = get_elem? c.numerical_constants id

  unfoldable pub get_double : NumericalConstants Double → ℕ → Option Double
  get_double c id = get_elem? c.double_vals id

  -- Each text has one id, and each id has the text's value.
  pub record IsTable (c : NumericalConstants Double) : Type 0 where
    pub sizes : length c.double_vals ≡ length c.numerical_constants
    pub text_of_id :
        (s : Bytes) (id : ℕ)
        → lookup s c.num_constants_index ≡ some id
        → get_elem? c.numerical_constants id ≡ some s
    pub id_of_text :
        (s : Bytes) (id : ℕ)
        → get_elem? c.numerical_constants id ≡ some s
        → lookup s c.num_constants_index ≡ some id
    pub value_of_id :
        (s : Bytes) (id : ℕ)
        → get_elem? c.numerical_constants id ≡ some s
        → get_elem? c.double_vals id ≡ some (strtod s)

  pub no_constants-IsTable : IsTable no_constants
  unfolding lookup
  no_constants-IsTable = record {
    sizes = refl;
    text_of_id = λ s id h. cc;
    id_of_text = λ s id h. cc;
    value_of_id = λ s id h. cc;
  }

  module _ (c : NumericalConstants Double) (s : Bytes) (t : IsTable c)
      (fresh : lookup s c.num_constants_index ≡ none) where
    stored-text_of_id :
        (r : Bytes) (id : ℕ)
        → lookup r (stored c s).num_constants_index ≡ some id
        → get_elem? (stored c s).numerical_constants id ≡ some r
    stored-text_of_id r id h = elim (Bytes-discrete s r) [
      | yes e ↦ cc (
        lookup-insert_self s (length c.numerical_constants) c.num_constants_index,
        get_elem?-snoc c.numerical_constants s,
      )
      | no ne ↦
          get_elem?-append_some c.numerical_constants (s ∷ []) id
            (t.text_of_id r id (sym (lookup-insert_ne s r _ c.num_constants_index ne) ∙ h))
    ]

    stored-id_of_text :
        (r : Bytes) (id : ℕ)
        → get_elem? (stored c s).numerical_constants id ≡ some r
        → lookup r (stored c s).num_constants_index ≡ some id
    stored-id_of_text r id h = elim (get_elem?-snoc_cases c.numerical_constants s id h) [
      | inl (e, l) ↦
          lookup-insert_ne s r _ c.num_constants_index (λ p. cc (t.id_of_text r id e))
          ∙ t.id_of_text r id e
      | inr (e, p) ↦ cc (lookup-insert_self s (length c.numerical_constants) c.num_constants_index)
    ]

    stored-value_of_id :
        (r : Bytes) (id : ℕ)
        → get_elem? (stored c s).numerical_constants id ≡ some r
        → get_elem? (stored c s).double_vals id ≡ some (strtod r)
    stored-value_of_id r id h = elim (get_elem?-snoc_cases c.numerical_constants s id h) [
      | inl (e, l) ↦ get_elem?-append_some c.double_vals (strtod s ∷ []) id (t.value_of_id r id e)
      | inr (e, p) ↦ cc (get_elem?-snoc c.double_vals (strtod s), t.sizes)
    ]

    pub stored-IsTable : IsTable (stored c s)
    stored-IsTable = record {
      sizes =
          length-snoc c.double_vals (strtod s)
          ∙ ap suc t.sizes
          ∙ sym (length-snoc c.numerical_constants s);
      text_of_id = stored-text_of_id;
      id_of_text = stored-id_of_text;
      value_of_id = stored-value_of_id;
    }

  -- A constant that was added keeps the table in order, its id has its value, and the ids given out
  -- before keep theirs. A text that is there already gets its old id, and the table stays as it is.
  pub add_non_negative_constant_lem :
      (c : NumericalConstants Double) (s : Bytes) {id : ℕ} {c' : NumericalConstants Double}
      → IsTable c
      → add_non_negative_constant c s ≡ some (id, c')
      → IsTable c'
        × (get c' id ≡ some s)
        × (get_double c' id ≡ some (strtod s))
        × ((i : ℕ) (v : Double) → get_double c i ≡ some v → get_double c' i ≡ some v)
        × ((i : ℕ) → get c i ≡ some s → (id ≡ i) × (c' ≡ c))
  unfolding add_non_negative_constant get get_double
  add_non_negative_constant_lem c s {id} {c'} t h =
      elim (Option-cases (lookup s c.num_constants_index)) [
        | inl fresh ↦
            let (i, n) : (id ≡ length c.numerical_constants) × (c' ≡ stored c s) = ground arith in
            rw (n, i)
              (
                stored-IsTable c s t fresh,
                get_elem?-snoc c.numerical_constants s,
                stored-value_of_id c s t fresh s _ (get_elem?-snoc c.numerical_constants s),
                λ j v e. get_elem?-append_some c.double_vals (strtod s ∷ []) j e,
                λ j e. absurd (cc (t.id_of_text s j e)),
              )
        | inr (j, found) ↦
            let (i, n) : (id ≡ j) × (c' ≡ c) = ground arith in
            rw (n, i)
              (
                t,
                t.text_of_id s j found,
                t.value_of_id s j (t.text_of_id s j found),
                λ k v e. e,
                λ k e. (cc (t.id_of_text s k e), refl),
              )
      ]

  -- The texts of the ids given out before stay too.
  pub add_non_negative_constant-texts :
      (c : NumericalConstants Double) (s : Bytes) {id : ℕ} {c' : NumericalConstants Double}
      → add_non_negative_constant c s ≡ some (id, c')
      → (i : ℕ) (r : Bytes) → get c i ≡ some r
      → get c' i ≡ some r
  unfolding add_non_negative_constant get
  add_non_negative_constant-texts c s {id} {c'} h i r e =
      ground (arith, get_elem?-append_some c.numerical_constants (s ∷ []) i {x = r})

  -- A text whose value is not negative, or is not a number, can always be added.
  pub add_non_negative_constant_total :
      (c : NumericalConstants Double) (s : Bytes)
      → (le (of_int 0) (strtod s) || is_nan (strtod s)) ≡ true
      → (r : ℕ × NumericalConstants Double) × (add_non_negative_constant c s ≡ some r)
  unfolding add_non_negative_constant
  add_non_negative_constant_total c s h = elim (Option-cases (lookup s c.num_constants_index)) [
    | inl e ↦ ((length c.numerical_constants, stored c s), ground arith)
    | inr (j, e) ↦ ((j, c), ground arith)
  ]
