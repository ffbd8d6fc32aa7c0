-- ===== src/Bytecode/Termination.antt =====
-- The loop of compute_block_time in mex/sources/bytecode/Interpreter.cc ends: its jumps go forward.
use mathlib.Core.Path.{subst}
use dynare.Prelude.{
  ℕ, ap, ◌∙◌, inl, inr, ◌⊎◌, zero, suc, ◌<◌, ◌≤◌, ◌≡◌, refl, Bool, true, false, List, [], ◌∷◌,
  length, if◌then◌else◌, ok, throw, ◌>>=◌, arith,
}
use dynare.DataTree.Doubles.{Doubles}
use dynare.Bytecode.Literals.{Literals}
use dynare.Bytecode.Instructions.{Instruction}
use dynare.Bytecode.Machine.{Machine, MachineError, MachineOutcome, past_end}
use dynare.Bytecode.Stores.{load_tef, load_tefd}
use dynare.Bytecode.Run.{forward, exec, step, run}
use dynare.Bytecode.KeepsOperators.{exec_unary-Keeps, exec_binary-Keeps, exec_trinary-Keeps}
use dynare.Bytecode.Keeps.{
  leaves_code, Keeps, Keeps-read, Keeps-pop, load_variable-Keeps, load_static_variable-Keeps,
  load_steady_variable-Keeps, store_variable-Keeps, store_static_variable-Keeps, store_term-Keeps,
  store_u-Keeps, store_r-Keeps, store_g-Keeps, store_tef-Keeps, store_tefd-Keeps, store_g2-Keeps,
  store_g3-Keeps, set_expression-it_code,
}

-- How far an instruction jumps.
abbrev jump_of : {D : Type 0} → Instruction D → ℕ
jump_of (Instruction.fjmpifeval n) = n
jump_of (Instruction.fjmp n) = n
jump_of _ = 0

-- The code ends with FENDBLOCK, and no jump leads behind it.
abbrev pub IsClosed : {D : Type 0} → List (Instruction D) → Type 0
IsClosed [] = ⊥
IsClosed (i ∷ []) = i ≡ Instruction.fendblock
IsClosed (i ∷ j ∷ c) = (jump_of i < length (j ∷ c)) × IsClosed (j ∷ c)

-- The machine has stopped, or an instruction threw.
abbrev pub Ends : {D : Type 0} → MachineOutcome (Machine D) → Type 0
Ends (ok m) = m.go_on ≡ false
Ends (throw e) = leaves_code e ≡ false

module _ {D : Type 0} where
  -- The same as `Keeps`, with jumps.
  abbrev Moves : ℕ → List (Instruction D) → MachineOutcome (Machine D) → Type 0
  Moves n c (ok m) = (k : ℕ) × (k ≤ n) × (m.it_code ≡ forward k c)
  Moves n c (throw e) = leaves_code e ≡ false

  stays : {n : ℕ} (c : List (Instruction D)) → (k : ℕ) × (k ≤ n) × (c ≡ forward k c)
  unfolding forward
  stays c = (0, omega arith, refl)

  Keeps-Moves :
      (n : ℕ) (c : List (Instruction D)) (r : MachineOutcome (Machine D)) → Keeps c r → Moves n c r
  unfolding forward
  Keeps-Moves n c (ok m) h = (0, omega arith, h)
  Keeps-Moves n c (throw e) h = h

  length-forward : (n : ℕ) (c : List (Instruction D)) → length (forward n c) ≤ length c
  unfolding forward
  length-forward zero c = omega arith
  length-forward (suc n) [] = omega arith
  length-forward (suc n) (i ∷ c) = omega (arith, length-forward n c)

  -- `it_code++` after a jump
  forward-forward : (k : ℕ) (c : List (Instruction D)) → forward 1 (forward k c) ≡ forward (suc k) c
  unfolding forward
  forward-forward zero c = refl
  forward-forward (suc k) [] = refl
  forward-forward (suc k) (i ∷ c) = forward-forward k c

  forward-IsClosed :
      (n : ℕ) (c : List (Instruction D)) → n < length c → IsClosed c → IsClosed (forward n c)
  unfolding forward
  forward-IsClosed zero c lt h = h
  forward-IsClosed (suc n) [] lt h = absurd h
  forward-IsClosed (suc n) (i ∷ []) lt h = absurd (omega arith)
  forward-IsClosed (suc n) (i ∷ j ∷ c) lt h = forward-IsClosed n (j ∷ c) (omega arith) h.1

  IsClosed-length : (c : List (Instruction D)) → IsClosed c → 0 < length c
  IsClosed-length [] h = absurd h
  IsClosed-length (i ∷ c) h = omega arith

  if_forward :
      (b : Bool) (n : ℕ) (m : Machine D)
      → (k : ℕ) × (k ≤ n)
        × ((if b then record m { it_code = forward n m.it_code } else m).it_code
            ≡ forward k m.it_code)
  unfolding forward
  if_forward true n m = (n, omega arith, refl)
  if_forward false n m = (0, omega arith, refl)

module _ (d : Doubles) (l : Literals d) where
  open d use {Double}

  exec-Moves :
      (i : Instruction Double) (m : Machine Double) → Moves (jump_of i) m.it_code (exec d l i m)
  unfolding forward exec load_tef load_tefd
  exec-Moves (Instruction.fldz) m = stays m.it_code
  exec-Moves (Instruction.fldc v) m = stays m.it_code
  exec-Moves (Instruction.fldt n) m =
      Keeps-Moves 0 m.it_code _ (Keeps-read m.it_code _ _ _ λ v. refl)
  exec-Moves (Instruction.fldst n) m =
      Keeps-Moves 0 m.it_code _ (Keeps-read m.it_code _ _ _ λ v. refl)
  exec-Moves (Instruction.fstpt n) m = Keeps-Moves 0 m.it_code _ (store_term-Keeps m _)
  exec-Moves (Instruction.fstpst n) m = Keeps-Moves 0 m.it_code _ (store_term-Keeps m _)
  exec-Moves (Instruction.fldu n) m =
      Keeps-Moves 0 m.it_code _ (Keeps-read m.it_code _ _ _ λ v. refl)
  exec-Moves (Instruction.fldsu n) m =
      Keeps-Moves 0 m.it_code _ (Keeps-read m.it_code _ _ _ λ v. refl)
  exec-Moves (Instruction.fstpu n) m = Keeps-Moves 0 m.it_code _ (store_u-Keeps m _)
  exec-Moves (Instruction.fstpsu n) m = Keeps-Moves 0 m.it_code _ (store_u-Keeps m _)
  exec-Moves (Instruction.fldv ty var lag) m =
      Keeps-Moves 0 m.it_code _ (load_variable-Keeps m ty var lag)
  exec-Moves (Instruction.fstpv ty var lag) m =
      Keeps-Moves 0 m.it_code _ (store_variable-Keeps m ty var lag)
  exec-Moves (Instruction.fldsv ty var) m =
      Keeps-Moves 0 m.it_code _ (load_static_variable-Keeps m ty var)
  exec-Moves (Instruction.fldvs ty var) m =
      Keeps-Moves 0 m.it_code _ (load_steady_variable-Keeps m ty var)
  exec-Moves (Instruction.fstpsv ty var) m =
      Keeps-Moves 0 m.it_code _ (store_static_variable-Keeps m ty var)
  exec-Moves (Instruction.fldr n) m =
      Keeps-Moves 0 m.it_code _ (Keeps-read m.it_code _ _ _ λ v. refl)
  exec-Moves (Instruction.fstpr n) m = Keeps-Moves 0 m.it_code _ (store_r-Keeps m n)
  exec-Moves (Instruction.fstpg n) m = Keeps-Moves 0 m.it_code _ (store_g-Keeps m n)
  exec-Moves (Instruction.fstpg2 row col) m = Keeps-Moves 0 m.it_code _ (store_g2-Keeps m row col)
  exec-Moves (Instruction.fstpg3 row col lag col_pos) m =
      Keeps-Moves 0 m.it_code _ (store_g3-Keeps m row col_pos)
  exec-Moves (Instruction.funary op) m = Keeps-Moves 0 m.it_code _ (exec_unary-Keeps d l m op)
  exec-Moves (Instruction.fbinary op) m = Keeps-Moves 0 m.it_code _ (exec_binary-Keeps d l m op)
  exec-Moves (Instruction.ftrinary op) m = Keeps-Moves 0 m.it_code _ (exec_trinary-Keeps d l m op)
  exec-Moves (Instruction.fcuml) m =
      Keeps-Moves 0 m.it_code _
        (Keeps-pop m _ λ v1 s. Keeps-pop (record m { stack = s }) _ λ v2 s'. refl)
  exec-Moves (Instruction.fendblock) m = stays m.it_code
  exec-Moves (Instruction.fendequ) m = stays m.it_code
  exec-Moves (Instruction.fpush) m = stays m.it_code
  exec-Moves (Instruction.fpop) m = refl
  exec-Moves (Instruction.fjmpifeval n) m = if_forward m.evaluate n m
  exec-Moves (Instruction.fjmp n) m = (n, omega arith, refl)
  exec-Moves (Instruction.fok n) m =
      elim m.stack
        as (λ s.
          Moves 0 m.it_code (elim s [ [] ↦ ok m | v ∷ s' ↦ throw MachineError.stack_not_empty ])) [
            | [] ↦ stays m.it_code
            | v ∷ s ↦ refl
          ]
  exec-Moves (Instruction.fnumexpr e) m = (0, omega arith, set_expression-it_code m e)
  exec-Moves (Instruction.fldtef n) m = stays m.it_code
  exec-Moves (Instruction.fstptef n) m = Keeps-Moves 0 m.it_code _ (store_tef-Keeps m n)
  exec-Moves (Instruction.fldtefd n row) m = stays m.it_code
  exec-Moves (Instruction.fstptefd n row) m = Keeps-Moves 0 m.it_code _ (store_tefd-Keeps m n row)

  -- A round, `it_code++` included, stops the machine or makes the code that is left shorter.
  abbrev Goes : ℕ → MachineOutcome (Machine Double) → Type 0
  Goes n (ok m) = (m.go_on ≡ false) ⊎ ((length m.it_code < n) × IsClosed m.it_code)
  Goes n (throw e) = leaves_code e ≡ false

  abbrev incremented : MachineOutcome (Machine Double) → MachineOutcome (Machine Double)
  incremented r = r >>= λ m. ok (record m { it_code = forward 1 m.it_code })

  increment-Goes :
      (i : Instruction Double) (c : List (Instruction Double)) (r : MachineOutcome (Machine Double))
      → jump_of i < length c
      → IsClosed c
      → Moves (jump_of i) (i ∷ c) r
      → Goes (suc (length c)) (incremented r)
  unfolding forward
  increment-Goes i c (ok m) lt h (k, le, eq) =
      let next : forward 1 m.it_code ≡ forward k c =
        ap (forward 1) eq ∙ forward-forward k (i ∷ c) in
      inr (rw next (omega (arith, length-forward k c), forward-IsClosed k c (omega arith) h))
  increment-Goes i c (throw e) lt h p = p

  step_of-Goes :
      (m : Machine Double) (c : List (Instruction Double))
      → m.it_code ≡ c
      → IsClosed c
      → Goes (length c) (elim c [
        | [] ↦ throw past_end
        | i ∷ code ↦ (do m' ← exec d l i m; ok (record m' { it_code = forward 1 m'.it_code }))
      ])
  unfolding exec
  step_of-Goes m [] at h = absurd h
  step_of-Goes m (i ∷ []) at h = rw h (inl refl)
  step_of-Goes m (i ∷ j ∷ c) at h =
      increment-Goes i (j ∷ c) (exec d l i m) h.0 h.1
        (subst (λ x. Moves (jump_of i) x (exec d l i m)) at (exec-Moves i m))

  step-Goes : (m : Machine Double) → IsClosed m.it_code → Goes (length m.it_code) (step d l m)
  unfolding step
  step-Goes m h = step_of-Goes m m.it_code refl h

  -- The test of the loop.
  test-Ends :
      (n : ℕ) (m : Machine Double) (g : Bool)
      → m.go_on ≡ g
      → (g ≡ true → Ends (step d l m >>= run d l n))
      → Ends (elim g [ true ↦ step d l m >>= run d l n | false ↦ ok m ])
  test-Ends n m true h k = k refl
  test-Ends n m false h k = h

  stopped-Ends : (n : ℕ) (m : Machine Double) → 0 < n → m.go_on ≡ false → Ends (run d l n m)
  unfolding run
  stopped-Ends zero m lt h = absurd (omega arith)
  stopped-Ends (suc n) m lt h = test-Ends n m m.go_on refl (λ g. absurd (cc))

  rest-Ends :
      (n k : ℕ) (r : MachineOutcome (Machine Double))
      → Goes k r
      → k < suc n
      → 0 < k
      → ((m : Machine Double) → length m.it_code < n → IsClosed m.it_code → Ends (run d l n m))
      → Ends (r >>= run d l n)
  rest-Ends n k (ok m) (inl h) lt pos rest = stopped-Ends n m (omega arith) h
  rest-Ends n k (ok m) (inr (less, h)) lt pos rest = rest m (omega arith) h
  rest-Ends n k (throw e) h lt pos rest = h

  -- For code that ends with FENDBLOCK, where no jump leads behind it, and a fuel above the number of
  -- instructions: the loop over the instructions ends, with a machine that has stopped or in an error of an
  -- instruction (an exception of the source, or an access outside the stack or an array, which the source
  -- does not check), and neither by a lack of fuel nor behind the end of the code.
  pub run-terminates :
      (n : ℕ) (m : Machine Double) → length m.it_code < n → IsClosed m.it_code → Ends (run d l n m)
  unfolding run
  run-terminates zero m lt h = absurd (omega arith)
  run-terminates (suc n) m lt h = test-Ends n m m.go_on refl (λ g.
      rest-Ends n (length m.it_code) (step d l m) (step-Goes m h) lt (IsClosed-length m.it_code h)
        (run-terminates n))
