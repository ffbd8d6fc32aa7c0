-- ===== src/Macro/Sets.antt =====
-- Arrays of the macro language as sets: preprocessor/macro/MacroValue.cc.
use mathlib.Core.List.{Memᴰ}
use mathlib.Core.List.Memᴰ
use dynare.Prelude.{
  sym, Bool, if◌then◌else◌, ◌≡◌, ◌⊎◌, refl, ap, true, false, not, ◌&&◌, ◌||◌, List, [], ◌∷◌, ◌++◌,
  ok, ◌>>=◌, ℤ, ℤ-discrete, Bytes, Bytes-discrete, inl, inr, arith,
}
use dynare.Macro.Values.{MacroValue, MacroOutcome, int, string, ints, strings, of_bool}
use dynare.Macro.Operators.{same, member, difference, plus, minus, is_in}

module _ {A : Type 0} (eq : Discrete A) where
  same_cases : (x y : A) → ((x ≡ y) × (same eq x y ≡ true)) ⊎ (same eq x y ≡ false)
  same_cases x y = decided (eq x y)
    where
      decided :
          (c : Dec (x ≡ y))
          → ((x ≡ y) × (elim c [ yes e ↦ true | no e ↦ false ] ≡ true))
            ⊎ (elim c [ yes e ↦ true | no e ↦ false ] ≡ false)
      decided (yes e) = inl (e, refl)
      decided (no e) = inr refl

  member-difference :
      (x : A) (v w : List A)
      → member eq x (difference eq v w) ≡ (member eq x v && not (member eq x w))
  unfolding member difference
  member-difference x [] w = refl
  member-difference x (y ∷ v) w = elim (same_cases y x) [
    | inl (e, t) ↦ ground (arith, member-difference x v w, ap (λ z. member eq z w) e, t)
    | inr t ↦ ground (arith, member-difference x v w, t)
  ]

  member-append : (x : A) (v w : List A) → member eq x (v ++ w) ≡ (member eq x v || member eq x w)
  unfolding member
  member-append x [] w = refl
  member-append x (y ∷ v) w = ground (arith, member-append x v w)

-- The test `b` tells whether `P` holds.
abbrev pub Tells : Bool → Type 0 → Type 0
Tells b P = (P × (b ≡ true)) ⊎ ((¬ P) × (b ≡ false))

-- The operator returns 1 if `P` holds, and else 0.
abbrev pub Decides : MacroOutcome MacroValue → Type 0 → Type 0
Decides r P = (b : Bool) × (r ≡ ok (of_bool b)) × Tells b P

Tells-or : {b c : Bool} {P Q : Type 0} → Tells b P → Tells c Q → Tells (b || c) (P ⊎ Q)
Tells-or (inl (p, e)) q = inl (inl p, rw e refl)
Tells-or (inr (n, e)) (inl (q, f)) = inl (inr q, rw (e, f) refl)
Tells-or (inr (n, e)) (inr (k, f)) = inr (λ x. elim x [ inl p ↦ n p | inr q ↦ k q ], rw (e, f) refl)

Tells-and_not : {b c : Bool} {P Q : Type 0} → Tells b P → Tells c Q → Tells (b && not c) (P × (¬ Q))
Tells-and_not (inr (n, e)) q = inr (λ x. n x.0, rw e refl)
Tells-and_not (inl (p, e)) (inl (q, f)) = inr (λ x. x.1 q, rw (e, f) refl)
Tells-and_not (inl (p, e)) (inr (k, f)) = inl ((p, k), rw (e, f) refl)

module _ {A : Type 0} (eq : Discrete A) where
  member-Tells : (x : A) (v : List A) → Tells (member eq x v) (Memᴰ x v)
  unfolding member
  member-Tells x [] = inr (λ m. elim m [ ], refl)
  member-Tells x (y ∷ v) =
      elim (eq y x)
        as (λ c.
          Tells (if elim c [ yes e ↦ true | no e ↦ false ] then true else member eq x v)
            (Memᴰ x (y ∷ v))) [
              | yes e ↦ inl (Memᴰ.head (sym e), refl)
              | no ne ↦ elim (member-Tells x v) [
                | inl (m, e) ↦ inl (Memᴰ.tail m, e)
                | inr (n, e) ↦
                    inr (λ m. elim (Memᴰ.cases_cons m) [ inl p ↦ ne (sym p) | inr k ↦ n k ], e)
              ]
            ]

-- On arrays of integers and of strings, `in` returns 1 for what occurs in the array and 0 for all else;
-- what is in a sum of two arrays is in one of them, and what is in a difference is in the first and not in
-- the second.
pub is_in-plus_minus :
    (a : ℤ) (v w : List ℤ) (s : Bytes) (x y : List Bytes)
    → Decides (is_in (int a) (ints v)) (Memᴰ a v)
      × Decides (plus (ints v) (ints w) >>= is_in (int a)) (Memᴰ a v ⊎ Memᴰ a w)
      × Decides (minus (ints v) (ints w) >>= is_in (int a)) (Memᴰ a v × (¬ Memᴰ a w))
      × Decides (is_in (string s) (strings x)) (Memᴰ s x)
      × Decides (plus (strings x) (strings y) >>= is_in (string s)) (Memᴰ s x ⊎ Memᴰ s y)
      × Decides (minus (strings x) (strings y) >>= is_in (string s)) (Memᴰ s x × (¬ Memᴰ s y))
unfolding plus minus is_in
is_in-plus_minus a v w s x y =
    let av = member-Tells ℤ-discrete a v in
    let aw = member-Tells ℤ-discrete a w in
    let sx = member-Tells Bytes-discrete s x in
    let sy = member-Tells Bytes-discrete s y in
    (
      (_, refl, av),
      (_, rw (member-append ℤ-discrete a v w) refl, Tells-or av aw),
      (_, rw (member-difference ℤ-discrete a v w) refl, Tells-and_not av aw),
      (_, refl, sx),
      (_, rw (member-append Bytes-discrete s x y) refl, Tells-or sx sy),
      (_, rw (member-difference Bytes-discrete s x y) refl, Tells-and_not sx sy),
    )
