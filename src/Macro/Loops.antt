-- ===== src/Macro/Loops.antt =====
-- The @#for loops of preprocessor/macro/MacroDriver.cc and MacroFlex.ll.
use dynare.Prelude.{
  ℕ, zero, suc, ◌+◌, ◌≡◌, refl, sym, ap, ◌∙◌, insert, true, false, List, [], ◌∷◌, none, some,
  length, map, get_elem?, lookup, lookup-insert_self, ok, ℤ, Bytes, bytes_key, arith,
}
use dynare.Macro.Values.{MacroValue, int, string, ints, strings}
use dynare.Macro.Driver.{Loop, MacroDriver, init_loop, started, at_index, iter_loop, for_loop}

-- The passes of a loop end; each pass finds the next value in the variable of the loop, and the stack is
-- afterwards what it was below the loop.
pub record Passes (body : MacroDriver → MacroDriver) (name : Bytes) (vals : List MacroValue)
    (below : List Loop) (d : MacroDriver) : Type 0 where
  pub passes : List MacroDriver
  pub end : MacroDriver
  pub returns : for_loop body (suc (length vals)) d ≡ ok (passes, end)
  pub values : map (λ (e : MacroDriver). lookup name e.env) passes ≡ map some vals
  pub stack : end.loop_stack ≡ below

module _ (body : MacroDriver → MacroDriver)
    (keeps : (d : MacroDriver) → (body d).loop_stack ≡ d.loop_stack) (name : Bytes)
    (value : MacroValue) (below : List Loop) where
  abbrev loop_at : ℕ → Loop
  loop_at i = record { name = name; value = value; index = i }

  -- The driver that a pass of the body finds.
  abbrev entered : MacroDriver → MacroValue → ℕ → MacroDriver
  entered d v i = record d { env = insert name v d.env; loop_stack = loop_at (suc i) ∷ below }

  iter_loop-more :
      (d : MacroDriver) (i : ℕ) (v : MacroValue)
      → d.loop_stack ≡ loop_at i ∷ below
      → at_index value i ≡ some v
      → iter_loop d ≡ ok (true, entered d v i)
  unfolding iter_loop
  iter_loop-more d i v s h = cc

  iter_loop-end :
      (d : MacroDriver) (i : ℕ)
      → d.loop_stack ≡ loop_at i ∷ below
      → at_index value i ≡ none
      → iter_loop d ≡ ok (false, record d { loop_stack = below })
  unfolding iter_loop
  iter_loop-end d i s h = cc

  at_start : (i : ℕ) → at_index value i ≡ at_index value (i + 0)
  at_start i = ap (at_index value) (omega arith)

  loop-Passes :
      (vals : List MacroValue) (i : ℕ) (d : MacroDriver)
      → ((j : ℕ) → get_elem? vals j ≡ at_index value (i + j))
      → d.loop_stack ≡ loop_at i ∷ below
      → Passes body name vals below d
  unfolding for_loop
  loop-Passes [] i d at s = record {
    passes = [];
    end = record d { loop_stack = below };
    returns = rw (iter_loop-end d i s (at_start i ∙ sym (at 0))) refl;
    values = refl;
    stack = refl;
  }
  loop-Passes (v ∷ vals) i d at s =
      let e = iter_loop-more d i v s (at_start i ∙ sym (at 0)) in
      let d1 = entered d v i in
      let r =
        loop-Passes vals (suc i) (body d1) (λ j. at (suc j) ∙ ap (at_index value) (omega arith))
          (keeps d1) in
      record {
        passes = d1 ∷ r.passes;
        end = r.end;
        returns = rw (e, r.returns) refl;
        values = rw (lookup-insert_self name v d.env, r.values) refl;
        stack = r.stack;
      }

ints_at : (l : List ℤ) (j : ℕ) → get_elem? (map int l) j ≡ at_index (ints l) j
ints_at [] j = refl
ints_at (a ∷ l) zero = refl
ints_at (a ∷ l) (suc j) = ints_at l j

strings_at : (l : List Bytes) (j : ℕ) → get_elem? (map string l) j ≡ at_index (strings l) j
strings_at [] j = refl
strings_at (a ∷ l) zero = refl
strings_at (a ∷ l) (suc j) = strings_at l j

-- Let the body of a loop leave the stack of loops as it finds it. A loop over an array, of integers or of
-- strings, ends after as many passes as the array has elements; the passes find the elements in the
-- variable of the loop, in their order; and afterwards the stack is what it was before the loop.
pub init_loop-Passes :
    (body : MacroDriver → MacroDriver) (d : MacroDriver) (name : Bytes) (l : List ℤ)
    (m : List Bytes)
    → ((e : MacroDriver) → (body e).loop_stack ≡ e.loop_stack)
    → ((d1 : MacroDriver) × (init_loop d name (ints l) ≡ ok d1)
        × Passes body name (map int l) d.loop_stack d1)
      × ((d2 : MacroDriver) × (init_loop d name (strings m) ≡ ok d2)
          × Passes body name (map string m) d.loop_stack d2)
unfolding init_loop
init_loop-Passes body d name l m keeps = (
  (
    started d name (ints l),
    refl,
    loop-Passes body keeps name (ints l) d.loop_stack (map int l) 0 (started d name (ints l))
        (λ j. ints_at l j ∙ ap (at_index (ints l)) (omega arith)) refl,
  ),
  (
    started d name (strings m),
    refl,
    loop-Passes body keeps name (strings m) d.loop_stack (map string m) 0
        (started d name (strings m)) (λ j. strings_at m j ∙ ap (at_index (strings m)) (omega arith))
        refl,
  ),
)
