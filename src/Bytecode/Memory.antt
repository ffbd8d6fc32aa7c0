-- ===== src/Bytecode/Memory.antt =====
-- Where the machine of mex/sources/bytecode/Interpreter.cc keeps the values of the variables and of the
-- temporary terms, and when they are those of a context.
use dynare.Prelude.{
  ℕ, ◌≡◌, Bool, false, List, ◌∷◌, Option, none, some, if◌then◌else◌, ok, ℤ, pos, ◌+ℤ◌, ◌*ℤ◌, arith,
  Bool-cases, inl, inr,
}
use dynare.SymbolTable.State.{
  SymbolType, endogenous, exogenous, exogenous_det, parameter, SymbolType-discrete,
}
use dynare.DataTree.Doubles.{Doubles}
use dynare.DataTree.Nodes.{nat_key, int_key}
use dynare.Bytecode.Literals.{Literals}
use dynare.Bytecode.Instructions.{Instruction}
use dynare.Bytecode.Machine.{Machine, read, at_code}
use dynare.Bytecode.Variables.{
  load_variable, load_static_variable, load_steady_variable, term_at, pushed,
}
use dynare.Bytecode.Run.{exec}
use dynare.Bytecode.Compile.{Settings, variable_instruction, lag_of}

module _ {D : Type 0} where
  -- The array and the index of a variable: in a static model; in a steady state of a dynamic model; and
  -- in a period of a dynamic model, where a parameter has no lag.
  abbrev pub static_place : Machine D → SymbolType → ℤ → Option (List D × ℤ)
  static_place m parameter p = some (m.params, p)
  static_place m endogenous p = some (if m.evaluate then m.ya else m.y, p)
  static_place m exogenous p = some (m.x, p)
  static_place m exogenous_det p = some (m.x, p)
  static_place m _ p = none

  abbrev pub steady_place : Machine D → SymbolType → ℤ → Option (List D × ℤ)
  steady_place m parameter p = some (m.params, p)
  steady_place m endogenous p = some (m.steady_y, p)
  steady_place m exogenous p = some (m.x, p)
  steady_place m exogenous_det p = some (m.x, p)
  steady_place m _ p = none

  abbrev pub dynamic_place : Machine D → SymbolType → ℤ → ℤ → Option (List D × ℤ)
  dynamic_place m parameter p lag = some (m.params, p)
  dynamic_place m endogenous p lag =
      some (if m.evaluate then m.ya else m.y, (m.it +ℤ lag) *ℤ m.y_size +ℤ p)
  dynamic_place m exogenous p lag = some (m.x, m.it +ℤ lag +ℤ p *ℤ m.nb_row_x)
  dynamic_place m exogenous_det p lag = some (m.x, m.it +ℤ lag +ℤ p *ℤ m.nb_row_xd)
  dynamic_place m _ p lag = none

  abbrev pub place : Settings → Bool → Machine D → SymbolType → ℤ → ℤ → Option (List D × ℤ)
  place w steady m ty p lag =
      if w.dynamic
      then (if steady then steady_place m ty p else dynamic_place m ty p lag)
      else static_place m ty p

  abbrev pub term_place : Settings → Machine D → ℕ → ℤ
  term_place w m i = if w.dynamic then term_at m i else pos i

module _ (d : Doubles) (l : Literals d) where
  open d use {Double}

  pushed-read :
      (m : Machine Double) (c : List (Instruction Double)) (s a : List Double) (p : ℤ)
      {b : List Double} {q : ℤ} {v : Double}
      → ◌≡◌ {A = Option (List Double × ℤ)} (some (a, p)) (some (b, q))
      → read b q ≡ ok v
      → pushed (at_code m c s) a p ≡ ok (at_code m c (v ∷ s))
  pushed-read m c s a p h r = cc

  static_load :
      (m : Machine Double) (ty : SymbolType) (p : ℤ) (c : List (Instruction Double))
      (s : List Double) {a : List Double} {q : ℤ} {v : Double}
      → static_place m ty p ≡ some (a, q)
      → read a q ≡ ok v
      → load_static_variable (at_code m c s) ty p ≡ ok (at_code m c (v ∷ s))
  unfolding load_static_variable
  static_load m SymbolType.endogenous p c s h r =
      pushed-read m c s (if m.evaluate then m.ya else m.y) p h r
  static_load m SymbolType.exogenous p c s h r = pushed-read m c s m.x p h r
  static_load m SymbolType.exogenous_det p c s h r = pushed-read m c s m.x p h r
  static_load m SymbolType.parameter p c s h r = pushed-read m c s m.params p h r
  static_load m SymbolType.model_local_variable p c s h r = cc
  static_load m SymbolType.mod_file_local_variable p c s h r = cc
  static_load m SymbolType.external_function p c s h r = cc
  static_load m SymbolType.trend p c s h r = cc
  static_load m SymbolType.statement_declared_variable p c s h r = cc

  steady_load :
      (m : Machine Double) (ty : SymbolType) (p : ℤ) (c : List (Instruction Double))
      (s : List Double) {a : List Double} {q : ℤ} {v : Double}
      → steady_place m ty p ≡ some (a, q)
      → read a q ≡ ok v
      → load_steady_variable (at_code m c s) ty p ≡ ok (at_code m c (v ∷ s))
  unfolding load_steady_variable
  steady_load m SymbolType.endogenous p c s h r = pushed-read m c s m.steady_y p h r
  steady_load m SymbolType.exogenous p c s h r = pushed-read m c s m.x p h r
  steady_load m SymbolType.exogenous_det p c s h r = pushed-read m c s m.x p h r
  steady_load m SymbolType.parameter p c s h r = pushed-read m c s m.params p h r
  steady_load m SymbolType.model_local_variable p c s h r = cc
  steady_load m SymbolType.mod_file_local_variable p c s h r = cc
  steady_load m SymbolType.external_function p c s h r = cc
  steady_load m SymbolType.trend p c s h r = cc
  steady_load m SymbolType.statement_declared_variable p c s h r = cc

  dynamic_load :
      (m : Machine Double) (ty : SymbolType) (p : ℤ) (lag : ℤ) (c : List (Instruction Double))
      (s : List Double) {a : List Double} {q : ℤ} {v : Double}
      → dynamic_place m ty p lag ≡ some (a, q)
      → read a q ≡ ok v
      → load_variable (at_code m c s) ty p (lag_of ty lag) ≡ ok (at_code m c (v ∷ s))
  unfolding load_variable SymbolType-discrete
  dynamic_load m SymbolType.endogenous p lag c s h r =
      pushed-read m c s (if m.evaluate then m.ya else m.y) ((m.it +ℤ lag) *ℤ m.y_size +ℤ p) h r
  dynamic_load m SymbolType.exogenous p lag c s h r =
      pushed-read m c s m.x (m.it +ℤ lag +ℤ p *ℤ m.nb_row_x) h r
  dynamic_load m SymbolType.exogenous_det p lag c s h r =
      pushed-read m c s m.x (m.it +ℤ lag +ℤ p *ℤ m.nb_row_xd) h r
  dynamic_load m SymbolType.parameter p lag c s h r = pushed-read m c s m.params p h r
  dynamic_load m SymbolType.model_local_variable p lag c s h r = cc
  dynamic_load m SymbolType.mod_file_local_variable p lag c s h r = cc
  dynamic_load m SymbolType.external_function p lag c s h r = cc
  dynamic_load m SymbolType.trend p lag c s h r = cc
  dynamic_load m SymbolType.statement_declared_variable p lag c s h r = cc

  -- The instruction that loads a variable.
  pub variable_load :
      (w : Settings) (steady : Bool) (m : Machine Double) (ty : SymbolType) (p lag : ℤ)
      {a : List Double} {q : ℤ} {v : Double}
      → w.lhs_rhs ≡ false
      → place w steady m ty p lag ≡ some (a, q)
      → read a q ≡ ok v
      → (i : Instruction Double) × (variable_instruction d w steady ty p lag ≡ ok i)
        × ((c : List (Instruction Double)) (s : List Double)
            → exec d l i (at_code m c s) ≡ ok (at_code m c (v ∷ s)))
  unfolding variable_instruction exec
  variable_load w steady m ty p lag o h r = elim (Bool-cases w.dynamic) [
    | inl dy ↦ (elim (Bool-cases steady) [
      | inl st ↦
          (Instruction.fldvs ty p, ground arith, λ c s. steady_load m ty p c s (rw (dy, st) at h) r)
      | inr st ↦ (
        Instruction.fldv ty p (lag_of ty lag),
        ground arith,
        λ c s. dynamic_load m ty p lag c s (rw (dy, st) at h) r,
      )
    ])
    | inr dy ↦ (Instruction.fldsv ty p, ground arith, λ c s. static_load m ty p c s (rw dy at h) r)
  ]
