-- ===== src/Prelude/Maps.antt =====
-- `std::map` as an association list in the order of its keys, and `std::set<int>`.
use Prim.Native.Nat.{ℕ}
use mathlib.Core.Path.{◌≡◌, refl}
use mathlib.Core.Logic.{ite, ◌≢◌}
use mathlib.Core.Bool.{Bool, true, false}
use mathlib.Core.List.{List, [], ◌∷◌}
use mathlib.Core.Option.{Option, none, some}
use native.Mathlib.Omega.{arith}
use dynare.Prelude.Tests.{if◌then◌else◌, ltb, ◌==◌}

-- The key's equality, and the order in which the map is walked.
pub record Key {ℓ} (K : Type ℓ) : Type ℓ where
  pub dec : Discrete K
  pub before : K → K → Bool

abbrev pub Map {ℓ} : Type ℓ → Type ℓ → Type ℓ
Map K V = List (K × V)

module _ {ℓ} {K V : Type ℓ} ⦃o : Key K⦄ where
  -- `m.find(k)`
  unfoldable pub lookup : K → Map K V → Option V
  lookup k [] = none
  lookup k ((j, v) ∷ m) = ite (o.dec j k) (some v) (lookup k m)

  -- `m[k] = v`
  unfoldable pub insert : K → V → Map K V → Map K V
  insert k v [] = (k, v) ∷ []
  insert k v ((j, w) ∷ m) =
      ite (o.dec j k) ((k, v) ∷ m)
        (if o.before k j then (k, v) ∷ (j, w) ∷ m else (j, w) ∷ insert k v m)

  pub lookup-insert_self : (k : K) (v : V) (m : Map K V) → lookup k (insert k v m) ≡ some v
  unfolding lookup insert
  lookup-insert_self k v [] = ground arith
  lookup-insert_self k v ((j, w) ∷ m) = ground (arith, lookup-insert_self k v m)

  pub lookup-insert_ne :
      (k j : K) (v : V) (m : Map K V) → k ≢ j → lookup j (insert k v m) ≡ lookup j m
  unfolding lookup insert
  lookup-insert_ne k j v [] h = ground arith
  lookup-insert_ne k j v ((i, w) ∷ m) h = ground (arith, lookup-insert_ne k j v m h)

-- `s.insert(i)`
unfoldable pub set_insert : ℕ → List ℕ → List ℕ
set_insert i [] = i ∷ []
set_insert i (j ∷ s) = if i == j then j ∷ s else if ltb i j then i ∷ j ∷ s else j ∷ set_insert i s

-- `find(v.begin(), v.end(), i) != v.end()`, also of a set.
unfoldable pub contains : ℕ → List ℕ → Bool
contains i [] = false
contains i (j ∷ s) = if j == i then true else contains i s

pub contains-set_insert :
    (i j : ℕ) (s : List ℕ) → contains j (set_insert i s) ≡ (if i == j then true else contains j s)
unfolding contains set_insert
contains-set_insert i j [] = refl
contains-set_insert i j (k ∷ s) = ground (arith, contains-set_insert i j s)
