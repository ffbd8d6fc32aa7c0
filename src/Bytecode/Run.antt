-- ===== src/Bytecode/Run.antt =====
-- mex/sources/bytecode/Interpreter.cc, compute_block_time: the loop over the instructions.
use dynare.Prelude.{
  ℕ, zero, suc, true, false, List, [], ◌∷◌, if◌then◌else◌, ok, throw, ◌>>=◌, pos, ◌+ℤ◌,
}
use dynare.DataTree.Doubles.{Doubles}
use dynare.Bytecode.Literals.{Literals}
use dynare.Bytecode.Instructions.{Instruction}
use dynare.Bytecode.Machine.{
  Machine, MachineOutcome, stack_not_empty, unknown_opcode, past_end, out_of_fuel, push, pop,
}
use dynare.Bytecode.Variables.{
  load_variable, load_static_variable, load_steady_variable, pushed, term_at,
}
use dynare.Bytecode.Operators.{exec_unary, exec_binary, exec_trinary}
use dynare.Bytecode.Stores.{
  store_variable, store_static_variable, store_term, store_u, store_r, store_g, store_g2, store_g3,
  store_tef, store_tefd, load_tef, load_tefd, set_expression,
}

-- `it_code += n`
unfoldable pub forward {ℓ} : {A : Type ℓ} → ℕ → List A → List A
forward zero code = code
forward (suc n) [] = []
forward (suc n) (i ∷ code) = forward n code

module _ (d : Doubles) (l : Literals d) where
  open d use {Double}

  abbrev jump : Machine Double → ℕ → Machine Double
  jump m n = record m { it_code = forward n m.it_code }

  unfoldable pub exec : Instruction Double → Machine Double → MachineOutcome (Machine Double)
  exec (Instruction.fldz) m = ok (push (d.of_int 0) m)
  exec (Instruction.fldc v) m = ok (push v m)
  exec (Instruction.fldt n) m = pushed m m.temporary (term_at m n)
  exec (Instruction.fldst n) m = pushed m m.temporary (pos n)
  exec (Instruction.fstpt n) m = store_term m (term_at m n)
  exec (Instruction.fstpst n) m = store_term m (pos n)
  exec (Instruction.fldu n) m = pushed m m.u (pos n +ℤ m.per_u)
  exec (Instruction.fldsu n) m = pushed m m.u (pos n)
  exec (Instruction.fstpu n) m = store_u m (pos n +ℤ m.per_u)
  exec (Instruction.fstpsu n) m = store_u m (pos n)
  exec (Instruction.fldv ty var lag) m = load_variable m ty var lag
  exec (Instruction.fstpv ty var lag) m = store_variable m ty var lag
  exec (Instruction.fldsv ty var) m = load_static_variable m ty var
  exec (Instruction.fldvs ty var) m = load_steady_variable m ty var
  exec (Instruction.fstpsv ty var) m = store_static_variable m ty var
  exec (Instruction.fldr n) m = pushed m m.r (pos n)
  exec (Instruction.fstpr n) m = store_r m n
  exec (Instruction.fstpg n) m = store_g m n
  exec (Instruction.fstpg2 row col) m = store_g2 m row col
  exec (Instruction.fstpg3 row col lag col_pos) m = store_g3 m row col_pos
  exec (Instruction.funary op) m = exec_unary d l m op
  exec (Instruction.fbinary op) m = exec_binary d l m op
  exec (Instruction.ftrinary op) m = exec_trinary d l m op
  exec (Instruction.fcuml) m = do (v1, m') ← pop m; (v2, m'') ← pop m'; ok (push (d.plus v1 v2) m'')
  exec (Instruction.fendblock) m = ok (record m { go_on = false })
  exec (Instruction.fendequ) m = ok m
  exec (Instruction.fpush) m = ok m
  exec (Instruction.fpop) m = throw unknown_opcode
  exec (Instruction.fjmpifeval n) m = ok (if m.evaluate then jump m n else m)
  exec (Instruction.fjmp n) m = ok (jump m n)
  exec (Instruction.fok n) m = elim m.stack [ [] ↦ ok m | v ∷ s ↦ throw stack_not_empty ]
  exec (Instruction.fnumexpr e) m = ok (set_expression m e)
  exec (Instruction.fldtef n) m = ok (load_tef d m n)
  exec (Instruction.fstptef n) m = store_tef m n
  exec (Instruction.fldtefd n row) m = ok (load_tefd d m n row)
  exec (Instruction.fstptefd n row) m = store_tefd m n row

  -- One round of the loop, the `it_code++` at its end included.
  unfoldable pub step : Machine Double → MachineOutcome (Machine Double)
  step m = elim m.it_code [
    | [] ↦ throw past_end
    | i ∷ code ↦ (do m' ← exec i m; ok (record m' { it_code = forward 1 m'.it_code }))
  ]

  unfoldable pub run : ℕ → Machine Double → MachineOutcome (Machine Double)
  run zero m = throw out_of_fuel
  run (suc n) m = elim m.go_on [ true ↦ (do m' ← step m; run n m') | false ↦ ok m ]
