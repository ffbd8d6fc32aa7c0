-- ===== src/Macro/Operators.antt =====
-- preprocessor/macro/MacroValue.cc and MacroValue.hh: the operators of the macro language.
use dynare.Prelude.{
  ℕ, zero, suc, Bool, true, false, not, ◌&&◌, ◌||◌, List, [], ◌∷◌, ◌++◌, length, get_elem?,
  if◌then◌else◌, ◌==◌, ok, throw, throw_if, or_throw, ◌>>=◌, ◌>>◌, ℤ, pos, ◌+ℤ◌, ◌-ℤ◌, ◌*ℤ◌, ◌/ℤ◌,
  neg, ltb_ℤ, leb_ℤ, eqb_ℤ, pos_part, ℤ-discrete, Bytes, Bytes-discrete, codes, print_ℤ, snoc,
}
use dynare.Macro.Values.{
  MacroValue, MacroOutcome, int, string, ints, strings, type_error, out_of_bounds, undefined,
  out_of_fuel, checked_int, of_bool, mismatch, no_operator, no_unary_operator,
}

module _ {A : Type 0} (eq : Discrete A) where
  abbrev pub same : A → A → Bool
  same x y = elim (eq x y) [ yes e ↦ true | no e ↦ false ]

  -- `in`
  unfoldable pub member : A → List A → Bool
  member x [] = false
  member x (y ∷ v) = let later = member x v in if same y x then true else later

  -- The difference of arrays: what is left of the first one.
  unfoldable pub difference : List A → List A → List A
  difference [] w = []
  difference (x ∷ v) w = let rest = difference v w in if member x w then rest else x ∷ rest

  unfoldable pub same_lists : List A → List A → Bool
  same_lists [] [] = true
  same_lists (x ∷ v) (y ∷ w) = let rest = same_lists v w in if same x y then rest else false
  same_lists _ _ = false

module _ {A : Type 0} where
  -- An element, counted from 1.
  unfoldable pub element : List A → ℤ → MacroOutcome A
  element v i = do
    throw_if (ltb_ℤ i (pos 1) || ltb_ℤ (pos (length v)) i) out_of_bounds
    or_throw (get_elem? v (pos_part (i -ℤ pos 1))) undefined

  -- The loop of ArrayMV::operator[]
  unfoldable pub elements : List A → List ℤ → MacroOutcome (List A)
  elements v [] = ok []
  elements v (i ∷ indices) = do x ← element v i; rest ← elements v indices; ok (x ∷ rest)

-- `new ArrayMV<T>`, or the one value of a result of one element.
abbrev pub of_ints : List ℤ → MacroValue
of_ints (a ∷ []) = int a
of_ints v = ints v

abbrev pub of_strings : List Bytes → MacroValue
of_strings (s ∷ []) = string s
of_strings v = strings v

abbrev as_int : MacroOutcome ℤ → MacroOutcome MacroValue
as_int r = do a ← r; ok (int a)

unfoldable pub plus : MacroValue → MacroValue → MacroOutcome MacroValue
plus (int a) (int b) = as_int (checked_int (a +ℤ b))
plus (string s) (string t) = ok (string (s ++ t))
plus (ints v) (ints w) = ok (ints (v ++ w))
plus (strings v) (strings w) = ok (strings (v ++ w))
plus _ _ = mismatch (codes "+")

unfoldable pub unary_plus : MacroValue → MacroOutcome MacroValue
unary_plus (int a) = ok (int a)
unary_plus _ = no_unary_operator (codes "+")

unfoldable pub minus : MacroValue → MacroValue → MacroOutcome MacroValue
minus (int a) (int b) = as_int (checked_int (a -ℤ b))
minus (ints v) (ints w) = ok (ints (difference ℤ-discrete v w))
minus (strings v) (strings w) = ok (strings (difference Bytes-discrete v w))
minus (string s) _ = no_operator (codes "-")
minus _ _ = mismatch (codes "-")

unfoldable pub unary_minus : MacroValue → MacroOutcome MacroValue
unary_minus (int a) = as_int (checked_int (neg a))
unary_minus _ = no_unary_operator (codes "-")

unfoldable pub times : MacroValue → MacroValue → MacroOutcome MacroValue
times (int a) (int b) = as_int (checked_int (a *ℤ b))
times (int a) _ = mismatch (codes "*")
times _ _ = no_operator (codes "*")

-- A division by zero is undefined.
unfoldable pub divide : MacroValue → MacroValue → MacroOutcome MacroValue
divide (int a) (int b) = do throw_if (eqb_ℤ b (pos 0)) undefined; as_int (checked_int (a /ℤ b))
divide (int a) _ = mismatch (codes "/")
divide _ _ = no_operator (codes "/")

unfoldable pub less : MacroValue → MacroValue → MacroOutcome MacroValue
less (int a) (int b) = ok (of_bool (ltb_ℤ a b))
less (int a) _ = mismatch (codes "<")
less _ _ = no_operator (codes "<")

unfoldable pub greater : MacroValue → MacroValue → MacroOutcome MacroValue
greater (int a) (int b) = ok (of_bool (ltb_ℤ b a))
greater (int a) _ = mismatch (codes ">")
greater _ _ = no_operator (codes ">")

unfoldable pub less_equal : MacroValue → MacroValue → MacroOutcome MacroValue
less_equal (int a) (int b) = ok (of_bool (leb_ℤ a b))
less_equal (int a) _ = mismatch (codes "<=")
less_equal _ _ = no_operator (codes "<=")

unfoldable pub greater_equal : MacroValue → MacroValue → MacroOutcome MacroValue
greater_equal (int a) (int b) = ok (of_bool (leb_ℤ b a))
greater_equal (int a) _ = mismatch (codes ">=")
greater_equal _ _ = no_operator (codes ">=")

-- Values of different types are different.
unfoldable pub equal : MacroValue → MacroValue → MacroValue
equal (int a) (int b) = of_bool (eqb_ℤ a b)
equal (string s) (string t) = of_bool (same Bytes-discrete s t)
equal (ints v) (ints w) = of_bool (same_lists ℤ-discrete v w)
equal (strings v) (strings w) = of_bool (same_lists Bytes-discrete v w)
equal _ _ = of_bool false

unfoldable pub different : MacroValue → MacroValue → MacroValue
different (int a) (int b) = of_bool (not (eqb_ℤ a b))
different (string s) (string t) = of_bool (not (same Bytes-discrete s t))
different (ints v) (ints w) = of_bool (not (same_lists ℤ-discrete v w))
different (strings v) (strings w) = of_bool (not (same_lists Bytes-discrete v w))
different _ _ = of_bool true

abbrev pub is_true : ℤ → Bool
is_true a = not (eqb_ℤ a (pos 0))

unfoldable pub and : MacroValue → MacroValue → MacroOutcome MacroValue
and (int a) (int b) = ok (of_bool (is_true a && is_true b))
and (int a) _ = mismatch (codes "&&")
and _ _ = no_operator (codes "&&")

unfoldable pub or : MacroValue → MacroValue → MacroOutcome MacroValue
or (int a) (int b) = ok (of_bool (is_true a || is_true b))
or (int a) _ = mismatch (codes "||")
or _ _ = no_operator (codes "||")

unfoldable pub negation : MacroValue → MacroOutcome MacroValue
negation (int a) = ok (of_bool (not (is_true a)))
negation _ = no_operator (codes "!")

-- The loop of StringMV::operator[]. The call `result.append(&c)` reads characters behind `c` until one
-- is 0, which is defined only if `c` is.
unfoldable pub characters : Bytes → List ℤ → MacroOutcome (Unit {0})
characters s [] = ok tt
characters s (i ∷ indices) = do
  c ← element s i
  throw_if (not (c == 0)) undefined
  characters s indices

unfoldable pub subscript : MacroValue → MacroValue → MacroOutcome MacroValue
subscript (int a) _ = no_operator (codes "[]")
subscript (string s) (ints i) = do done ← characters s i; ok (string [])
subscript (ints v) (ints i) = do w ← elements v i; ok (of_ints w)
subscript (strings v) (ints i) = do w ← elements v i; ok (of_strings w)
subscript _ _ = throw (type_error (codes "Expression inside [] must be an integer array"))

unfoldable pub concat_with {ℓ} : {A : Type ℓ} → (A → Bytes) → List A → Bytes
concat_with f [] = []
concat_with f (x ∷ v) = f x ++ concat_with f v

unfoldable pub to_string : MacroValue → Bytes
to_string (int a) = print_ℤ a
to_string (string s) = s
to_string (ints v) = concat_with print_ℤ v
to_string (strings v) = concat_with (λ s. s) v

unfoldable pub to_array : MacroValue → MacroValue
to_array (int a) = ints (a ∷ [])
to_array (string s) = strings (s ∷ [])
to_array v = v

-- `append`, whose first argument is the value.
unfoldable pub append : MacroValue → MacroValue → MacroOutcome MacroValue
append (int a) (ints v) = ok (ints (snoc v a))
append (string s) (strings v) = ok (strings (snoc v s))
append (int a) _ = throw (type_error (codes "Type mismatch for append operation"))
append (string s) _ = throw (type_error (codes "Type mismatch for append operation"))
append _ _ = throw (
    type_error
      (codes "Cannot append an array at the end of another one. Should use concatenation."))

unfoldable pub is_in : MacroValue → MacroValue → MacroOutcome MacroValue
is_in (int a) (ints v) = ok (of_bool (member ℤ-discrete a v))
is_in (string s) (strings v) = ok (of_bool (member Bytes-discrete s v))
is_in (int a) _ = throw (type_error (codes "Type mismatch for 'in' operator"))
is_in (string s) _ = throw (type_error (codes "Type mismatch for 'in' operator"))
is_in _ _ = throw (type_error (codes "First argument of 'in' operator cannot be an array"))

-- `for (; v1 <= v2; v1++) result.push_back(v1);`. The fuel bounds the rounds.
unfoldable pub range_loop : ℕ → ℤ → ℤ → MacroOutcome (List ℤ)
range_loop zero v1 v2 = throw out_of_fuel
range_loop (suc n) v1 v2 = elim (leb_ℤ v1 v2) [
  | true ↦ (do next ← checked_int (v1 +ℤ pos 1); rest ← range_loop n next v2; ok (v1 ∷ rest))
  | false ↦ ok []
]

-- The elements of a range, and one round more for the last test.
abbrev pub rounds : ℤ → ℤ → ℕ
rounds v1 v2 = suc (pos_part (v2 +ℤ pos 1 -ℤ v1))

unfoldable pub new_range : MacroValue → MacroValue → MacroOutcome MacroValue
new_range (int v1) (int v2) = do v ← range_loop (rounds v1 v2) v1 v2; ok (ints v)
new_range _ _ = throw (type_error (codes "Arguments of range operator (:) must be integers"))
