-- ===== src/Macro/Driver.antt =====
-- preprocessor/macro/MacroDriver.cc: the variables, the stack of loops and the conditions.
use dynare.Prelude.{
  ℕ, zero, suc, Bool, true, false, List, [], ◌∷◌, Option, none, some, get_elem?, Map, lookup,
  insert, ok, throw, or_throw, ◌>>=◌, pos, Bytes, bytes_key, codes,
}
use dynare.Macro.Values.{
  MacroValue, MacroOutcome, int, string, ints, strings, type_error, unknown_variable, no_loop,
  out_of_fuel,
}
use dynare.Macro.Operators.{is_true}

-- A loop: its variable, its array and the next index.
pub record Loop : Type 0 where
  pub name : Bytes
  pub value : MacroValue
  pub index : ℕ

pub record MacroDriver : Type 0 where
  pub env : Map Bytes MacroValue
  pub loop_stack : List Loop
  pub last_if : Bool

unfoldable pub set_variable : MacroDriver → Bytes → MacroValue → MacroDriver
set_variable d name value = record d { env = insert name value d.env }

unfoldable pub get_variable : MacroDriver → Bytes → MacroOutcome MacroValue
get_variable d name = or_throw (lookup name d.env) (unknown_variable name)

abbrev pub started : MacroDriver → Bytes → MacroValue → MacroDriver
started d name value = record d {
  loop_stack = record { name = name; value = value; index = 0 } ∷ d.loop_stack;
}

unfoldable pub init_loop : MacroDriver → Bytes → MacroValue → MacroOutcome MacroDriver
init_loop d name (ints v) = ok (started d name (ints v))
init_loop d name (strings v) = ok (started d name (strings v))
init_loop d name _ = throw (type_error (codes "Argument of @#for loop must be an array expression"))

-- The value of an array at an index. No loop is at a value that is no array.
abbrev pub at_index : MacroValue → ℕ → Option MacroValue
at_index (ints v) i = elim (get_elem? v i) [ none ↦ none | some a ↦ some (int a) ]
at_index (strings v) i = elim (get_elem? v i) [ none ↦ none | some s ↦ some (string s) ]
at_index _ i = none

unfoldable pub iter_loop : MacroDriver → MacroOutcome (Bool × MacroDriver)
iter_loop d = elim d.loop_stack [
  | [] ↦ throw no_loop
  | loop ∷ below ↦ (elim (at_index loop.value loop.index) [
    | none ↦ ok (false, record d { loop_stack = below })
    | some v ↦ ok (
      true,
      record d {
        env = insert loop.name v d.env;
        loop_stack = record loop { index = suc loop.index } ∷ below;
      },
    )
  ])
]

-- The passes of the body of a loop, with the drivers at the start of each, and the driver at the end. What
-- the lexer and the parser do with the body is `body`. The fuel bounds the calls of `iter_loop`.
unfoldable pub for_loop :
    (MacroDriver → MacroDriver) → ℕ → MacroDriver → MacroOutcome (List MacroDriver × MacroDriver)
for_loop body zero d = throw out_of_fuel
for_loop body (suc n) d = do
  (more, d1) ← iter_loop d
  elim more [
    | false ↦ ok ([], d1)
    | true ↦ (do (passes, d2) ← for_loop body n (body d1); ok (d1 ∷ passes, d2))
  ]

unfoldable pub begin_if : MacroDriver → MacroValue → MacroOutcome MacroDriver
begin_if d (int a) = ok (record d { last_if = is_true a })
begin_if d _ = throw (type_error (codes "Argument of @#if must be an integer"))

unfoldable pub begin_ifdef : MacroDriver → Bytes → MacroOutcome MacroDriver
begin_ifdef d name = elim (get_variable d name) [
  | ok v ↦ begin_if d (int (pos 1))
  | throw e ↦ begin_if d (int (pos 0))
]

unfoldable pub begin_ifndef : MacroDriver → Bytes → MacroOutcome MacroDriver
begin_ifndef d name = elim (get_variable d name) [
  | ok v ↦ begin_if d (int (pos 0))
  | throw e ↦ begin_if d (int (pos 1))
]
