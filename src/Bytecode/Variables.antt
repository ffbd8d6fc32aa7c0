-- ===== src/Bytecode/Variables.antt =====
-- mex/sources/bytecode/Interpreter.cc, compute_block_time: the instructions that load a variable.
use dynare.Prelude.{ℕ, List, if◌then◌else◌, ok, ◌>>=◌, ℤ, pos, ◌+ℤ◌, ◌*ℤ◌}
use dynare.SymbolTable.State.{SymbolType, endogenous, exogenous, exogenous_det, parameter}
use dynare.Bytecode.Machine.{Machine, MachineOutcome, read, push}

module _ {D : Type 0} where
  -- What is read; `none` where nothing is pushed.
  abbrev pub pushed : Machine D → List D → ℤ → MachineOutcome (Machine D)
  pushed m a i = do v ← read a i; ok (push v m)

  -- FLDV. For a local variable nothing is loaded, and other types only print a message.
  unfoldable pub load_variable : Machine D → SymbolType → ℤ → ℤ → MachineOutcome (Machine D)
  load_variable m parameter var lag = pushed m m.params var
  load_variable m endogenous var lag =
      pushed m (if m.evaluate then m.ya else m.y) ((m.it +ℤ lag) *ℤ m.y_size +ℤ var)
  load_variable m exogenous var lag = pushed m m.x (m.it +ℤ lag +ℤ var *ℤ m.nb_row_x)
  load_variable m exogenous_det var lag = pushed m m.x (m.it +ℤ lag +ℤ var *ℤ m.nb_row_xd)
  load_variable m _ var lag = ok m

  -- FLDSV
  unfoldable pub load_static_variable : Machine D → SymbolType → ℤ → MachineOutcome (Machine D)
  load_static_variable m parameter var = pushed m m.params var
  load_static_variable m endogenous var = pushed m (if m.evaluate then m.ya else m.y) var
  load_static_variable m exogenous var = pushed m m.x var
  load_static_variable m exogenous_det var = pushed m m.x var
  load_static_variable m _ var = ok m

  -- FLDVS
  unfoldable pub load_steady_variable : Machine D → SymbolType → ℤ → MachineOutcome (Machine D)
  load_steady_variable m parameter var = pushed m m.params var
  load_steady_variable m endogenous var = pushed m m.steady_y var
  load_steady_variable m exogenous var = pushed m m.x var
  load_steady_variable m exogenous_det var = pushed m m.x var
  load_steady_variable m _ var = ok m

  -- The place of a temporary term of a dynamic model.
  abbrev pub term_at : Machine D → ℕ → ℤ
  term_at m var = pos var *ℤ (m.periods +ℤ m.y_kmin +ℤ m.y_kmax) +ℤ m.it
