-- ===== src/Bytecode/Literals.antt =====
-- What mex/sources/bytecode/Interpreter.cc asks of `double` beyond what the expression trees do: a
-- parameter of the model.
use dynare.Prelude.{ℕ, false, ◌≡◌, ℤ, pos}
use dynare.DataTree.Doubles.{Doubles}

pub record Literals (d : Doubles) : Type 0 where
  -- NAN, 1e70 and 1e-25
  pub nan : d.Double
  pub huge : d.Double
  pub tiny : d.Double
  -- The conversions between `double` and `int`.
  pub to_int : d.Double → ℤ
  pub of_ℤ : ℤ → d.Double

-- Neither undefined nor infinite.
abbrev pub IsFinite : (d : Doubles) → d.Double → Type 0
IsFinite d v = (d.is_nan v ≡ false) × (d.is_inf v ≡ false)

-- An integer that `double` holds exactly.
pub record IsExact (d : Doubles) (l : Literals d) (n : ℕ) : Type 0 where
  pub order : l.to_int (d.nearbyint (d.of_int n)) ≡ pos n
  pub value : l.of_ℤ (pos n) ≡ d.of_int n
