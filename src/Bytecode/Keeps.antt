-- ===== src/Bytecode/Keeps.antt =====
-- mex/sources/bytecode/Interpreter.cc, compute_block_time: the instructions that stay where they are in
-- the code.
use dynare.Prelude.{
  ℕ, ◌≡◌, refl, Bool, true, false, List, [], ◌∷◌, length, Option, none, some, if◌then◌else◌, ok,
  throw, or_throw, ◌>>=◌, ℤ, pos, negsuc, ltb, get_elem?, set,
}
use dynare.SymbolTable.State.{SymbolType}
use dynare.Bytecode.Instructions.{Instruction, ExpressionType, Numexpr}
use dynare.Bytecode.Machine.{
  Machine, MachineError, MachineOutcome, past_end, out_of_fuel, read, write, pop,
}
use dynare.Bytecode.Variables.{load_variable, load_static_variable, load_steady_variable}
use dynare.Bytecode.Stores.{
  store_variable, store_static_variable, store_term, store_u, store_r, store_g, store_g2_value,
  store_g3_value, store_g2, store_g3, is_numerical, set_fields, store_tef, store_tefd,
  set_expression,
}

-- The end of the code, and of the fuel.
abbrev pub leaves_code : MachineError → Bool
leaves_code past_end = true
leaves_code out_of_fuel = true
leaves_code _ = false

-- What is returned stands at a place of the code, and what is thrown comes from an instruction.
abbrev pub Keeps : {D : Type 0} → List (Instruction D) → MachineOutcome (Machine D) → Type 0
Keeps c (ok m) = m.it_code ≡ c
Keeps c (throw e) = leaves_code e ≡ false

module _ {D : Type 0} where
  Keeps-or_throw :
      {A : Type 0} (c : List (Instruction D)) (o : Option A) (e : MachineError)
      (f : A → MachineOutcome (Machine D))
      → leaves_code e ≡ false
      → ((v : A) → Keeps c (f v))
      → Keeps c (or_throw o e >>= f)
  Keeps-or_throw c none e f n h = n
  Keeps-or_throw c (some v) e f n h = h v

  pub Keeps-read :
      (c : List (Instruction D)) (a : List D) (i : ℤ) (f : D → MachineOutcome (Machine D))
      → ((v : D) → Keeps c (f v))
      → Keeps c (read a i >>= f)
  unfolding read
  Keeps-read c a (pos n) f h = Keeps-or_throw c (get_elem? a n) _ f (refl) h
  Keeps-read c a (negsuc n) f h = refl

  pub Keeps-if :
      (c : List (Instruction D)) (b : Bool) (x y : MachineOutcome (Machine D))
      → Keeps c x
      → Keeps c y
      → Keeps c (if b then x else y)
  Keeps-if c true x y h k = h
  Keeps-if c false x y h k = k

  Keeps-checked :
      (c : List (Instruction D)) (b : Bool) (a : List D) (f : List D → MachineOutcome (Machine D))
      → Keeps c (f a)
      → Keeps c ((if b then ok a else throw MachineError.out_of_range) >>= f)
  Keeps-checked c true a f h = h
  Keeps-checked c false a f h = refl

  Keeps-write :
      (c : List (Instruction D)) (a : List D) (i : ℤ) (v : D)
      (f : List D → MachineOutcome (Machine D))
      → ((b : List D) → Keeps c (f b))
      → Keeps c (write a i v >>= f)
  unfolding write
  Keeps-write c a (pos n) v f h = Keeps-checked c (ltb n (length a)) (set a n v) f (h _)
  Keeps-write c a (negsuc n) v f h = refl

  pub Keeps-pop :
      (m : Machine D) (f : D × Machine D → MachineOutcome (Machine D))
      → ((v : D) (s : List D) → Keeps m.it_code (f (v, record m { stack = s })))
      → Keeps m.it_code (pop m >>= f)
  Keeps-pop m f h =
      elim m.stack
        as (λ s. Keeps m.it_code (
          elim s [ [] ↦ throw MachineError.empty_stack | v ∷ s' ↦ ok (v, record m { stack = s' }) ]
          >>= f)) [ [] ↦ refl | v ∷ s ↦ h v s ]

  pub load_variable-Keeps :
      (m : Machine D) (ty : SymbolType) (var lag : ℤ) → Keeps m.it_code (load_variable m ty var lag)
  unfolding load_variable
  load_variable-Keeps m SymbolType.parameter var lag = Keeps-read m.it_code _ _ _ λ v. refl
  load_variable-Keeps m SymbolType.endogenous var lag = Keeps-read m.it_code _ _ _ λ v. refl
  load_variable-Keeps m SymbolType.exogenous var lag = Keeps-read m.it_code _ _ _ λ v. refl
  load_variable-Keeps m SymbolType.exogenous_det var lag = Keeps-read m.it_code _ _ _ λ v. refl
  load_variable-Keeps m _ var lag = refl

  pub load_static_variable-Keeps :
      (m : Machine D) (ty : SymbolType) (var : ℤ) → Keeps m.it_code (load_static_variable m ty var)
  unfolding load_static_variable
  load_static_variable-Keeps m SymbolType.parameter var = Keeps-read m.it_code _ _ _ λ v. refl
  load_static_variable-Keeps m SymbolType.endogenous var = Keeps-read m.it_code _ _ _ λ v. refl
  load_static_variable-Keeps m SymbolType.exogenous var = Keeps-read m.it_code _ _ _ λ v. refl
  load_static_variable-Keeps m SymbolType.exogenous_det var = Keeps-read m.it_code _ _ _ λ v. refl
  load_static_variable-Keeps m _ var = refl

  pub load_steady_variable-Keeps :
      (m : Machine D) (ty : SymbolType) (var : ℤ) → Keeps m.it_code (load_steady_variable m ty var)
  unfolding load_steady_variable
  load_steady_variable-Keeps m SymbolType.parameter var = Keeps-read m.it_code _ _ _ λ v. refl
  load_steady_variable-Keeps m SymbolType.endogenous var = Keeps-read m.it_code _ _ _ λ v. refl
  load_steady_variable-Keeps m SymbolType.exogenous var = Keeps-read m.it_code _ _ _ λ v. refl
  load_steady_variable-Keeps m SymbolType.exogenous_det var = Keeps-read m.it_code _ _ _ λ v. refl
  load_steady_variable-Keeps m _ var = refl

  pub store_variable-Keeps :
      (m : Machine D) (ty : SymbolType) (var lag : ℤ)
      → Keeps m.it_code (store_variable m ty var lag)
  unfolding store_variable
  store_variable-Keeps m SymbolType.parameter var lag =
      Keeps-pop m _ λ v s. Keeps-write m.it_code _ _ _ _ λ a. refl
  store_variable-Keeps m SymbolType.endogenous var lag =
      Keeps-pop m _ λ v s. Keeps-write m.it_code _ _ _ _ λ a. refl
  store_variable-Keeps m SymbolType.exogenous var lag =
      Keeps-pop m _ λ v s. Keeps-write m.it_code _ _ _ _ λ a. refl
  store_variable-Keeps m SymbolType.exogenous_det var lag =
      Keeps-pop m _ λ v s. Keeps-write m.it_code _ _ _ _ λ a. refl
  store_variable-Keeps m _ var lag = refl

  pub store_static_variable-Keeps :
      (m : Machine D) (ty : SymbolType) (var : ℤ) → Keeps m.it_code (store_static_variable m ty var)
  unfolding store_static_variable
  store_static_variable-Keeps m SymbolType.parameter var =
      Keeps-pop m _ λ v s. Keeps-write m.it_code _ _ _ _ λ a. refl
  store_static_variable-Keeps m SymbolType.endogenous var =
      Keeps-pop m _ λ v s. Keeps-write m.it_code _ _ _ _ λ a. refl
  store_static_variable-Keeps m SymbolType.exogenous var =
      Keeps-pop m _ λ v s. Keeps-write m.it_code _ _ _ _ λ a. refl
  store_static_variable-Keeps m SymbolType.exogenous_det var =
      Keeps-pop m _ λ v s. Keeps-write m.it_code _ _ _ _ λ a. refl
  store_static_variable-Keeps m _ var = refl

  pub store_term-Keeps : (m : Machine D) (i : ℤ) → Keeps m.it_code (store_term m i)
  unfolding store_term
  store_term-Keeps m i = Keeps-pop m _ λ v s. Keeps-write m.it_code _ _ _ _ λ a. refl

  pub store_u-Keeps : (m : Machine D) (i : ℤ) → Keeps m.it_code (store_u m i)
  unfolding store_u
  store_u-Keeps m i = Keeps-pop m _ λ v s. Keeps-write m.it_code _ _ _ _ λ a. refl

  pub store_r-Keeps : (m : Machine D) (i : ℕ) → Keeps m.it_code (store_r m i)
  unfolding store_r
  store_r-Keeps m i = Keeps-pop m _ λ v s. Keeps-write m.it_code _ _ _ _ λ a. refl

  pub store_g-Keeps : (m : Machine D) (i : ℕ) → Keeps m.it_code (store_g m i)
  unfolding store_g
  store_g-Keeps m i = Keeps-pop m _ λ v s. Keeps-write m.it_code _ _ _ _ λ a. refl

  pub store_tef-Keeps : (m : Machine D) (n : ℕ) → Keeps m.it_code (store_tef m n)
  unfolding store_tef
  store_tef-Keeps m n = Keeps-pop m _ λ v s. refl

  pub store_tefd-Keeps :
      (m : Machine D) (index : ℕ) (row : ℤ) → Keeps m.it_code (store_tefd m index row)
  unfolding store_tefd
  store_tefd-Keeps m index row =
      Keeps-if m.it_code (is_numerical m.function_type) _ (ok m) (Keeps-pop m _ λ v s. refl) refl

  pub store_g2_value-Keeps :
      (m : Machine D) (row col : ℕ) (v : D) (ty : Option ExpressionType)
      → Keeps m.it_code (store_g2_value m row col v ty)
  unfolding store_g2_value
  store_g2_value-Keeps m row col v none = refl
  store_g2_value-Keeps m row col v (some ExpressionType.first_endo_derivative) =
      Keeps-write m.it_code _ _ _ _ λ a. refl
  store_g2_value-Keeps m row col v (some _) = refl

  pub store_g2-Keeps : (m : Machine D) (row col : ℕ) → Keeps m.it_code (store_g2 m row col)
  unfolding store_g2
  store_g2-Keeps m row col = Keeps-pop m _ λ v s. store_g2_value-Keeps m row col v m.eqn_type

  pub store_g3_value-Keeps :
      (m : Machine D) (row col_pos : ℕ) (v : D) (ty : Option ExpressionType)
      → Keeps m.it_code (store_g3_value m row col_pos v ty)
  unfolding store_g3_value
  store_g3_value-Keeps m row col_pos v none = refl
  store_g3_value-Keeps m row col_pos v (some ExpressionType.first_endo_derivative) =
      Keeps-write m.it_code _ _ _ _ λ a. refl
  store_g3_value-Keeps m row col_pos v (some ExpressionType.first_other_endo_derivative) =
      Keeps-write m.it_code _ _ _ _ λ a. refl
  store_g3_value-Keeps m row col_pos v (some ExpressionType.first_exo_derivative) =
      Keeps-write m.it_code _ _ _ _ λ a. refl
  store_g3_value-Keeps m row col_pos v (some ExpressionType.first_exodet_derivative) =
      Keeps-write m.it_code _ _ _ _ λ a. refl
  store_g3_value-Keeps m row col_pos v (some _) = refl

  pub store_g3-Keeps : (m : Machine D) (row col_pos : ℕ) → Keeps m.it_code (store_g3 m row col_pos)
  unfolding store_g3
  store_g3-Keeps m row col_pos =
      Keeps-pop m _ λ v s. store_g3_value-Keeps (record m { stack = s }) row col_pos v m.eqn_type

  set_fields-it_code :
      (m : Machine D) (e : Numexpr) (ty : ExpressionType) → (set_fields m e ty).it_code ≡ m.it_code
  unfolding set_fields
  set_fields-it_code m e ExpressionType.temporary_term = refl
  set_fields-it_code m e ExpressionType.model_equation = refl
  set_fields-it_code m e ExpressionType.first_endo_derivative = refl
  set_fields-it_code m e ExpressionType.first_other_endo_derivative = refl
  set_fields-it_code m e ExpressionType.first_exo_derivative = refl
  set_fields-it_code m e ExpressionType.first_exodet_derivative = refl
  set_fields-it_code m e ExpressionType.first_param_derivative = refl
  set_fields-it_code m e ExpressionType.second_endo_derivative = refl
  set_fields-it_code m e ExpressionType.second_exo_derivative = refl
  set_fields-it_code m e ExpressionType.second_exodet_derivative = refl
  set_fields-it_code m e ExpressionType.second_param_derivative = refl
  set_fields-it_code m e ExpressionType.third_endo_derivative = refl
  set_fields-it_code m e ExpressionType.third_exo_derivative = refl
  set_fields-it_code m e ExpressionType.third_exodet_derivative = refl
  set_fields-it_code m e ExpressionType.third_param_derivative = refl

  pub set_expression-it_code :
      (m : Machine D) (e : Numexpr) → (set_expression m e).it_code ≡ m.it_code
  unfolding set_expression
  set_expression-it_code m e = set_fields-it_code m e e.expression_type
