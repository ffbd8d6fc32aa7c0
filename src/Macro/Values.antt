-- ===== src/Macro/Values.antt =====
-- preprocessor/macro/MacroValue.hh: the values of the macro language and the exceptions.
use dynare.Prelude.{
  Bool, ◌&&◌, ◌^◌, ◌-◌, List, Result, ok, throw, if◌then◌else◌, ℤ, pos, negsuc, ltb_ℤ, leb_ℤ, Bytes,
  codes, ◌++◌,
}

-- IntMV, StringMV, ArrayMV<int> and ArrayMV<string>
pub data MacroValue : Type 0 where
  int : ℤ → MacroValue
  string : Bytes → MacroValue
  ints : List ℤ → MacroValue
  strings : List Bytes → MacroValue

-- TypeError, OutOfBoundsError, UnknownVariable, the throw of `iter_loop`, behaviour that C++ leaves
-- undefined, and the end of the fuel.
pub data MacroError : Type 0 where
  type_error : Bytes → MacroError
  out_of_bounds : MacroError
  unknown_variable : Bytes → MacroError
  no_loop undefined out_of_fuel : MacroError

abbrev pub MacroOutcome {ℓ} : Type ℓ → Type ℓ
MacroOutcome A = Result MacroError A

-- The bounds of `int`.
abbrev pub fits : ℤ → Bool
fits a = ltb_ℤ a (pos (2 ^ 31)) && leb_ℤ (negsuc (2 ^ 31 - 1)) a

-- The result of an operation on `int`, whose overflow is undefined.
unfoldable pub checked_int : ℤ → MacroOutcome ℤ
checked_int a = if fits a then ok a else throw undefined

abbrev pub of_bool : Bool → MacroValue
of_bool b = int (if b then pos 1 else pos 0)

abbrev pub mismatch {ℓ} : {A : Type ℓ} → Bytes → MacroOutcome A
mismatch op =
    throw (type_error (codes "Type mismatch for operands of " ++ (op ++ codes " operator")))

abbrev pub no_operator {ℓ} : {A : Type ℓ} → Bytes → MacroOutcome A
no_operator op =
    throw (type_error (codes "Operator " ++ (op ++ codes " does not exist for this type")))

abbrev pub no_unary_operator {ℓ} : {A : Type ℓ} → Bytes → MacroOutcome A
no_unary_operator op =
    throw (type_error (codes "Unary operator " ++ (op ++ codes " does not exist for this type")))
