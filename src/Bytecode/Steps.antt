-- ===== src/Bytecode/Steps.antt =====
-- The rounds of the loop of compute_block_time in mex/sources/bytecode/Interpreter.cc as a relation.
use dynare.Prelude.{ℕ, suc, ◌≡◌, refl, ◌∙◌, true, List, ◌∷◌, ok, arith}
use dynare.DataTree.Doubles.{Doubles}
use dynare.Bytecode.Literals.{Literals}
use dynare.Bytecode.Instructions.{Instruction}
use dynare.Bytecode.Machine.{Machine, at_code}
use dynare.Bytecode.Run.{exec, step, run, forward}

module _ (d : Doubles) (l : Literals d) where
  open d use {Double}

  -- Some rounds lead from one state of the machine to another.
  pub data Steps (m : Machine Double) : Machine Double → Type 0 where
    here : Steps m m
    next :
        {m' m'' : Machine Double}
        → Steps m m'
        → m'.go_on ≡ true
        → step d l m' ≡ ok m''
        → Steps m m''

  pub Steps-trans : {a b c : Machine Double} → Steps a b → Steps b c → Steps a c
  Steps-trans p here = p
  Steps-trans p (next q g e) = next (Steps-trans p q) g e

  -- The round of an instruction that changes the stack only.
  pub Steps-exec :
      (m : Machine Double) (i : Instruction Double) (rest : List (Instruction Double))
      (s s' : List Double)
      → m.go_on ≡ true
      → exec d l i (at_code m (i ∷ rest) s) ≡ ok (at_code m (i ∷ rest) s')
      → Steps (at_code m (i ∷ rest) s) (at_code m rest s')
  unfolding step forward
  Steps-exec m i rest s s' g e = next here g (rw e refl)

  run-step :
      (n : ℕ) (m : Machine Double) {m' : Machine Double}
      → m.go_on ≡ true
      → step d l m ≡ ok m'
      → run d l (suc n) m ≡ run d l n m'
  unfolding run
  run-step n m g e = ground arith

  -- The loop goes through the states of the relation.
  pub run-Steps :
      {m m' : Machine Double} (n : ℕ) {r : Machine Double}
      → Steps m m'
      → run d l n m' ≡ ok r
      → (k : ℕ) × (run d l k m ≡ ok r)
  run-Steps n here h = (n, h)
  run-Steps n (next {m' = m1} p g e) h = run-Steps (suc n) p (run-step n m1 g e ∙ h)
