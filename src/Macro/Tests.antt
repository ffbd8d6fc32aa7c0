-- ===== src/Macro/Tests.antt =====
-- The theorems on preprocessor/macro at small values.
use mathlib.Core.List.{Memᴰ}
use dynare.Prelude.{
  ◌⊎◌, ◌≡◌, refl, false, List, [], ◌∷◌, map, ok, ◌>>=◌, ℤ, pos, negsuc, ◌+ℤ◌, Bytes, codes,
}
use dynare.Macro.Values.{int, string, ints, strings}
use dynare.Macro.Operators.{plus, minus, is_in, new_range}
use dynare.Macro.Driver.{MacroDriver, init_loop, set_variable}
use dynare.Macro.Range.{IsRange, new_range-IsRange}
use dynare.Macro.Sets.{Decides, is_in-plus_minus}
use dynare.Macro.Loops.{Passes, init_loop-Passes}

new_range-IsRange_example :
    (v : List ℤ) × (new_range (int (negsuc 0)) (int (pos 2)) ≡ ok (ints v))
    × IsRange (negsuc 0) (pos 2) v
unfolding ◌+ℤ◌
new_range-IsRange_example = new_range-IsRange (negsuc 0) (pos 2) refl refl

abbrev countries : List Bytes
countries = codes "fr" ∷ codes "us" ∷ []

is_in-plus_minus_example :
    Decides (is_in (int (pos 2)) (ints (pos 1 ∷ []))) (Memᴰ (pos 2) (pos 1 ∷ []))
    × Decides
        (plus (ints (pos 1 ∷ [])) (ints (pos 2 ∷ [])) >>= is_in (int (pos 2)))
        (Memᴰ (pos 2) (pos 1 ∷ []) ⊎ Memᴰ (pos 2) (pos 2 ∷ []))
    × Decides
        (minus (ints (pos 1 ∷ [])) (ints (pos 2 ∷ [])) >>= is_in (int (pos 2)))
        (Memᴰ (pos 2) (pos 1 ∷ []) × (¬ Memᴰ (pos 2) (pos 2 ∷ [])))
    × Decides (is_in (string (codes "us")) (strings countries)) (Memᴰ (codes "us") countries)
    × Decides
        (plus (strings countries) (strings []) >>= is_in (string (codes "us")))
        (Memᴰ (codes "us") countries ⊎ Memᴰ (codes "us") [])
    × Decides
        (minus (strings countries) (strings []) >>= is_in (string (codes "us")))
        (Memᴰ (codes "us") countries × (¬ Memᴰ (codes "us") []))
is_in-plus_minus_example =
    is_in-plus_minus (pos 2) (pos 1 ∷ []) (pos 2 ∷ []) (codes "us") countries []

abbrev driver : MacroDriver
driver = record { env = []; loop_stack = []; last_if = false }

-- A body that defines a variable.
abbrev defining : MacroDriver → MacroDriver
defining d = set_variable d (codes "seen") (int (pos 1))

defining-keeps : (d : MacroDriver) → (defining d).loop_stack ≡ d.loop_stack
unfolding set_variable
defining-keeps d = refl

init_loop-Passes_example :
    ((d1 : MacroDriver) × (init_loop driver (codes "i") (ints (pos 4 ∷ pos 7 ∷ [])) ≡ ok d1)
      × Passes defining (codes "i") (map int (pos 4 ∷ pos 7 ∷ [])) [] d1)
    × ((d2 : MacroDriver) × (init_loop driver (codes "i") (strings countries) ≡ ok d2)
        × Passes defining (codes "i") (map string countries) [] d2)
init_loop-Passes_example =
    init_loop-Passes defining driver (codes "i") (pos 4 ∷ pos 7 ∷ []) countries defining-keeps
