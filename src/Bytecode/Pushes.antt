-- ===== src/Bytecode/Pushes.antt =====
-- The code that the `compile` methods of preprocessor/ExprNode.cc write for one node, run by the machine
-- of mex/sources/bytecode/Interpreter.cc.
use mathlib.Core.List.{append_assoc}
use dynare.Prelude.{
  ℕ, ◌<◌, ◌==◌, length, ◌≡◌, refl, ◌∙◌, inl, inr, true, false, List, [], ◌∷◌, ◌++◌, Option, none,
  some, ok, or_throw, ◌>>=◌, Bool-cases, lookup, arith,
}
use dynare.DataTree.Doubles.{Doubles}
use dynare.DataTree.Nodes.{
  UnaryOpcode, BinaryOpcode, TrinaryOpcode, Node, Tree, node_at, nat_key, int_key,
}
use dynare.DataTree.Eval.{Context, eval, eval_unary, eval_binary, eval_trinary}
use dynare.DataTree.EvalLaws.{eval_in-lt}
use dynare.Bytecode.Literals.{Literals, IsFinite, IsExact}
use dynare.Bytecode.Instructions.{Instruction}
use dynare.Bytecode.Machine.{Machine, read, at_code}
use dynare.Bytecode.Operators.{exec_unary, exec_binary, exec_trinary, binary_operator}
use dynare.Bytecode.Run.{exec}
use dynare.Bytecode.Steps.{Steps, Steps-trans, Steps-exec}
use dynare.Bytecode.Compile.{Settings, Code, compile_term}
use dynare.Bytecode.Arithmetic.{
  has_operator, is_power_deriv, unary_operator-eval, binary_operator-eval, power_deriv-eval,
  trinary_operator-eval,
}
use dynare.Bytecode.Memory.{term_place}

module _ (d : Doubles) (l : Literals d) where
  open d use {Double}

  abbrev pub Codes : Type 0
  Codes = List (Instruction Double)

  -- The code pushes the value, whatever follows it and whatever is on the stack.
  abbrev pub Pushes : Machine Double → Codes → Double → Type 0
  Pushes m c v =
      (rest : Codes) (s : List Double)
      → Steps d l (at_code m (c ++ rest) s) (at_code m rest (v ∷ s))

  abbrev pub Compiled : Machine Double → Code Codes → Double → Type 0
  Compiled m r v = (c : Codes) × (r ≡ ok c) × Pushes m c v

  pub Compiled-eq :
      (m : Machine Double) {r r' : Code Codes} {v : Double}
      → r ≡ r'
      → Compiled m r' v
      → Compiled m r v
  Compiled-eq m q (c, e, p) = (c, q ∙ e, p)

  pub Pushes-exec :
      (m : Machine Double) (i : Instruction Double) (v : Double)
      → m.go_on ≡ true
      → ((c : Codes) (s : List Double) → exec d l i (at_code m c s) ≡ ok (at_code m c (v ∷ s)))
      → Pushes m (i ∷ []) v
  Pushes-exec m i v g e rest s = Steps-exec d l m i rest s (v ∷ s) g (e (i ∷ rest) s)

  pub or_throw-ok :
      {E : Type 0} {A : Type 0} (o : Option A) (e : E) {v : A} → or_throw o e ≡ ok v → o ≡ some v
  or_throw-ok none h = cc
  or_throw-ok (some a) h = cc

  node_at-some : (l : List Node) (i : ℕ) → i < length l → (n : Node) × (node_at l i ≡ some n)
  unfolding node_at
  node_at-some [] i h = absurd (omega arith)
  node_at-some (n ∷ l) i h = elim (Bool-cases (i == length l)) [
    | inl e ↦ (n, ground arith)
    | inr e ↦ let r = node_at-some l i (ground arith) in (r.0, ground (arith, r.1))
  ]

  pub node_of :
      (t : Tree Double) (ctx : Context d) (e : ℕ) (v : Double)
      → eval d t ctx e ≡ ok v
      → (n : Node) × (node_at t.node_list e ≡ some n)
  unfolding eval
  node_of t ctx e v h =
      node_at-some t.node_list e (eval_in-lt d t.num_constants ctx t.node_list e v h)

  pub term-Compiled :
      (w : Settings) (m : Machine Double) (e i : ℕ) (v : Double)
      → m.go_on ≡ true
      → lookup e w.map_idx ≡ some i
      → read m.temporary (term_place w m i) ≡ ok v
      → Compiled m (compile_term d w e) v
  unfolding compile_term exec
  term-Compiled w m e i v g h r = elim (Bool-cases w.dynamic) [
    | inl dy ↦ (Instruction.fldt i ∷ [], ground arith, Pushes-exec m _ v g λ c s. cc (rw dy at r))
    | inr dy ↦ (Instruction.fldst i ∷ [], ground arith, Pushes-exec m _ v g λ c s. cc (rw dy at r))
  ]

  pub unary-Compiled :
      (m : Machine Double) (r : Code Codes) (op : UnaryOpcode) (v v' : Double)
      → m.go_on ≡ true
      → has_operator op ≡ true
      → eval_unary d op v ≡ ok v'
      → IsFinite d v'
      → Compiled m r v
      → Compiled m (do c ← r; ok (c ++ (Instruction.funary op ∷ []))) v'
  unfolding exec exec_unary
  unary-Compiled m r op v v' g o h f (c, e, p) = (
    c ++ (Instruction.funary op ∷ []),
    rw e refl,
    λ rest s. rw append_assoc (
        Steps-trans d l (p _ s) (
          Steps-exec d l m (Instruction.funary op) rest (v ∷ s) (v' ∷ s) g
            (unary_operator-eval d l (at_code m _ s) op v o h f))),
  )

  pub binary-Compiled :
      (m : Machine Double) (r1 r2 : Code Codes) (op : BinaryOpcode) (v1 v2 v' : Double) (order : ℕ)
      → m.go_on ≡ true
      → is_power_deriv op ≡ false
      → eval_binary d v1 op v2 order ≡ ok v'
      → IsFinite d v'
      → Compiled m r1 v1
      → Compiled m r2 v2
      → Compiled m (do c1 ← r1; c2 ← r2; ok (c1 ++ (c2 ++ (Instruction.fbinary op ∷ [])))) v'
  unfolding exec exec_binary
  binary-Compiled m r1 r2 op v1 v2 v' order g o h f (c1, e1, p1) (c2, e2, p2) = (
    c1 ++ (c2 ++ (Instruction.fbinary op ∷ [])),
    rw (e1, e2) refl,
    λ rest s.
        rw (append_assoc, append_assoc)
          (Steps-trans d l (p1 _ s) (
            Steps-trans d l (p2 _ (v1 ∷ s)) (
              Steps-exec d l m (Instruction.fbinary op) rest (v2 ∷ v1 ∷ s) (v' ∷ s) g
                (binary_operator-eval d l (at_code m _ s) op v1 v2 order o h f)))),
  )

  pub power_deriv-Compiled :
      (m : Machine Double) (r1 r2 : Code Codes) (v1 v2 v' : Double) (order : ℕ)
      → m.go_on ≡ true
      → eval_binary d v1 BinaryOpcode.power_deriv v2 order ≡ ok v'
      → IsExact d l order
      → IsFinite d (d.pow v1 (d.minus v2 (d.of_int order)))
      → Compiled m r1 v1
      → Compiled m r2 v2
      → Compiled m
          (do
            c1 ← r1
            c2 ← r2
            ok (
                Instruction.fldc (d.of_int order)
                ∷ (c1 ++ (c2 ++ (Instruction.fbinary BinaryOpcode.power_deriv ∷ [])))))
          v'
  unfolding exec exec_binary binary_operator
  power_deriv-Compiled m r1 r2 v1 v2 v' order g h x f (c1, e1, p1) (c2, e2, p2) = (
    Instruction.fldc (d.of_int order)
        ∷ (c1 ++ (c2 ++ (Instruction.fbinary BinaryOpcode.power_deriv ∷ []))),
    rw (e1, e2) refl,
    λ rest s.
        rw (append_assoc, append_assoc)
          (Steps-trans d l
            (Steps-exec d l m (Instruction.fldc (d.of_int order)) _ s (d.of_int order ∷ s) g refl)
            (Steps-trans d l (p1 _ (d.of_int order ∷ s)) (
              Steps-trans d l (p2 _ (v1 ∷ d.of_int order ∷ s)) (
                Steps-exec d l m (Instruction.fbinary BinaryOpcode.power_deriv) rest
                  (v2 ∷ v1 ∷ d.of_int order ∷ s) (v' ∷ s) g
                  (power_deriv-eval d l m _ s v1 v2 order h x f))))),
  )

  pub trinary-Compiled :
      (m : Machine Double) (r1 r2 r3 : Code Codes) (op : TrinaryOpcode) (v1 v2 v3 v' : Double)
      → m.go_on ≡ true
      → eval_trinary d v1 op v2 v3 ≡ ok v'
      → Compiled m r1 v1
      → Compiled m r2 v2
      → Compiled m r3 v3
      → Compiled m
          (do c1 ← r1; c2 ← r2; c3 ← r3; ok (c1 ++ (c2 ++ (c3 ++ (Instruction.ftrinary op ∷ [])))))
          v'
  unfolding exec exec_trinary
  trinary-Compiled m r1 r2 r3 op v1 v2 v3 v' g h (c1, e1, p1) (c2, e2, p2) (c3, e3, p3) = (
    c1 ++ (c2 ++ (c3 ++ (Instruction.ftrinary op ∷ []))),
    rw (e1, e2, e3) refl,
    λ rest s.
        rw (append_assoc, append_assoc, append_assoc)
          (Steps-trans d l (p1 _ s) (
            Steps-trans d l (p2 _ (v1 ∷ s)) (
              Steps-trans d l (p3 _ (v2 ∷ v1 ∷ s)) (
                Steps-exec d l m (Instruction.ftrinary op) rest (v3 ∷ v2 ∷ v1 ∷ s) (v' ∷ s) g
                  (rw (trinary_operator-eval d l op v1 v2 v3 h) refl))))),
  )
