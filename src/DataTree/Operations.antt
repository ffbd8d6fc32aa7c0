-- ===== src/DataTree/Operations.antt =====
-- `AddUnaryOp`, `AddBinaryOp` and `AddTrinaryOp` of preprocessor/DataTree.hh, with the sharing of nodes
-- and the folding of constants, and `AddUMinus` and `AddPossiblyNegativeConstant` on them.
use dynare.Prelude.{
  ℕ, suc, ◌≡◌, refl, sym, ap, ◌∙◌, inl, inr, ◌&&◌, [], none, some, lookup, Result, ok, throw,
  >>=-eq-ok, ok-injective, arith, Option-cases, Bool-cases, ◌⊎◌,
}
use dynare.DataTree.Doubles.{Doubles}
use dynare.DataTree.Laws.{Laws}
use dynare.DataTree.Nodes.{
  binary, trinary, UnaryOpcode, UnaryKey, BinaryKey, TrinaryKey, Tree, unary_key, binary_key,
  trinary_key,
}
use dynare.DataTree.Eval.{Context, eval, eval_node, eval_unary}
use dynare.DataTree.Insert.{
  plain, is_uminus, is_num_const, new_unary, new_binary, new_trinary, next_idx, uminus_by,
  possibly_negative_by, unary_rounds, fold_unary, fold_binary, fold_trinary, add_uminus,
  add_possibly_negative_constant, add_unary_op, add_binary_op, add_trinary_op,
}
use dynare.DataTree.Structure.{node_at-lt, node_at-new}
use dynare.DataTree.Invariant.{
  IsShared, HasSpecials, Extends-refl, Builds, Builds-node, Builds-push, push-Extends, Valid,
  new_binary-IsShared, new_trinary-IsShared,
}
use dynare.DataTree.Constants.{
  unary_meaning, binary_meaning, trinary_meaning, Builds-from, eval_node_eq, eval_empty,
  shared_unary, new_unary-Builds,
}
use dynare.DataTree.Negation.{
  negated, negated_constant, uminus_by-Builds, possibly_negative_by-Builds, rounds,
}

pub Result-cases {ℓ} :
    {E : Type 0} {A : Type ℓ} (r : Result E A) → ((a : A) × (r ≡ ok a)) ⊎ ((e : E) × (r ≡ throw e))
Result-cases (ok a) = inl (a, refl)
Result-cases (throw e) = inr (e, refl)

module _ (d : Doubles) where
  open d use {Double}

  -- Folding under the empty context gives the value under every context.
  folded_unary :
      (t : Tree Double) (ctx : Context d) (k : UnaryKey) (v w : Double)
      → fold_unary d t k ≡ ok v
      → unary_meaning d t k ctx ≡ ok w
      → v ≡ w
  unfolding fold_unary
  folded_unary t ctx k v w f g =
      let (u, e, e') = >>=-eq-ok (eval d t [] k.arg) _ f in
      ok-injective (sym e' ∙ sym (rw (eval_empty d t ctx k.arg u e)) ∙ g)

  folded_binary :
      (t : Tree Double) (ctx : Context d) (k : BinaryKey) (v w : Double)
      → fold_binary d t k ≡ ok v
      → binary_meaning d t k ctx ≡ ok w
      → v ≡ w
  unfolding fold_binary
  folded_binary t ctx k v w f g =
      let (u, e, e') = >>=-eq-ok (eval d t [] k.arg1) _ f in
      let (x, p, p') = >>=-eq-ok (eval d t [] k.arg2) _ e' in
      ok-injective
        (sym p' ∙ sym (rw (eval_empty d t ctx k.arg1 u e, eval_empty d t ctx k.arg2 x p)) ∙ g)

  folded_trinary :
      (t : Tree Double) (ctx : Context d) (k : TrinaryKey) (v w : Double)
      → fold_trinary d t k ≡ ok v
      → trinary_meaning d t k ctx ≡ ok w
      → v ≡ w
  unfolding fold_trinary
  folded_trinary t ctx k v w f g =
      let (u, e, e') = >>=-eq-ok (eval d t [] k.arg1) _ f in
      let (x, p, p') = >>=-eq-ok (eval d t [] k.arg2) _ e' in
      let (y, q, q') = >>=-eq-ok (eval d t [] k.arg3) _ p' in
      ok-injective (
        sym q'
        ∙ sym (
            rw (
              eval_empty d t ctx k.arg1 u e,
              eval_empty d t ctx k.arg2 x p,
              eval_empty d t ctx k.arg3 y q,
            ))
        ∙ g)

  -- A binary node that the map holds, and a new one.
  shared_binary :
      (t : Tree Double) (k : BinaryKey) (i : ℕ)
      → IsShared d t
      → lookup k t.binary_op_node_map ≡ some i
      → Builds d t (ok (i, t)) (binary_meaning d t k)
  unfolding eval_node
  shared_binary t k i s found =
      let (n, at, is) = s.binaries.sound k i found in
      Builds-node d t i _ s (node_at-lt t.node_list i at)
        (λ ctx w h. eval_node_eq d t ctx i (binary k) s (at ∙ ap some is) ∙ h)

  new_binary-Builds :
      (t : Tree Double) (k : BinaryKey)
      → IsShared d t
      → Valid d t k.arg1
      → Valid d t k.arg2
      → lookup k t.binary_op_node_map ≡ none
      → Builds d t (ok (next_idx t, new_binary t k)) (binary_meaning d t k)
  unfolding eval_node
  new_binary-Builds t k s v1 v2 fresh =
      let s' = new_binary-IsShared d t k fresh v1 v2 s in
      let x = push-Extends d t (new_binary t k) (binary k) refl refl refl in
      Builds-push d t (new_binary t k) (binary k) _ refl refl refl s' (λ ctx w h.
        let (u, e, e') = >>=-eq-ok (eval d t ctx k.arg1) _ h in
        let (y, p, p') = >>=-eq-ok (eval d t ctx k.arg2) _ e' in
        eval_node_eq d (new_binary t k) ctx (next_idx t) (binary k) s'
          (node_at-new t.node_list (binary k))
        ∙ rw (x.values ctx k.arg1 u e, x.values ctx k.arg2 y p) p')

  shared_trinary :
      (t : Tree Double) (k : TrinaryKey) (i : ℕ)
      → IsShared d t
      → lookup k t.trinary_op_node_map ≡ some i
      → Builds d t (ok (i, t)) (trinary_meaning d t k)
  unfolding eval_node
  shared_trinary t k i s found =
      let (n, at, is) = s.trinaries.sound k i found in
      Builds-node d t i _ s (node_at-lt t.node_list i at)
        (λ ctx w h. eval_node_eq d t ctx i (trinary k) s (at ∙ ap some is) ∙ h)

  new_trinary-Builds :
      (t : Tree Double) (k : TrinaryKey)
      → IsShared d t
      → Valid d t k.arg1
      → Valid d t k.arg2
      → Valid d t k.arg3
      → lookup k t.trinary_op_node_map ≡ none
      → Builds d t (ok (next_idx t, new_trinary t k)) (trinary_meaning d t k)
  unfolding eval_node
  new_trinary-Builds t k s v1 v2 v3 fresh =
      let s' = new_trinary-IsShared d t k fresh v1 v2 v3 s in
      let x = push-Extends d t (new_trinary t k) (trinary k) refl refl refl in
      Builds-push d t (new_trinary t k) (trinary k) _ refl refl refl s' (λ ctx w h.
        let (u, e, e') = >>=-eq-ok (eval d t ctx k.arg1) _ h in
        let (y, p, p') = >>=-eq-ok (eval d t ctx k.arg2) _ e' in
        let (z, q, q') = >>=-eq-ok (eval d t ctx k.arg3) _ p' in
        eval_node_eq d (new_trinary t k) ctx (next_idx t) (trinary k) s'
          (node_at-new t.node_list (trinary k))
        ∙ rw (x.values ctx k.arg1 u e, x.values ctx k.arg2 y p, x.values ctx k.arg3 z q) q')

  module _ (laws : Laws d) where
    possibly_negative_of :
        (n : ℕ) (t : Tree Double) (v : Double)
        → IsShared d t
        → HasSpecials d t
        → Builds d t (possibly_negative_by d (uminus_by d (rounds d (suc n))) t v) (λ ctx. ok v)
    possibly_negative_of n t v s h =
        possibly_negative_by-Builds d laws (uminus_by d (rounds d (suc n))) t v s h
          (λ u e su hu vu c.
            uminus_by-Builds d laws (rounds d (suc n)) u e su hu vu
              (λ f. negated_constant d n u e su vu c))

    unary_rounds-Builds :
        (n : ℕ) (t : Tree Double) (k : UnaryKey)
        → IsShared d t
        → HasSpecials d t
        → Valid d t k.arg
        → Builds d t (unary_rounds d (suc (suc n)) t k) (unary_meaning d t k)
    unfolding unary_rounds
    unary_rounds-Builds n t k s h v = elim (Option-cases (lookup k t.unary_op_node_map)) [
      | inr (i, found) ↦
          Builds-from d t t _ (ok (i, t)) _ (unary_meaning d t k) (Extends-refl d t) (ground arith)
            (shared_unary d t k i s found) (λ ctx w g. g)
      | inl fresh ↦ elim (Bool-cases (is_uminus k.op_code && is_num_const t k.arg)) [
        | inl c ↦
            Builds-from d t t _ (ok (next_idx t, new_unary t k)) _ (unary_meaning d t k)
              (Extends-refl d t) (ground arith) (new_unary-Builds d t k s v fresh) (λ ctx w g. g)
        | inr c ↦ elim (Result-cases (fold_unary d t k)) [
          | inr (e, no_value) ↦
              Builds-from d t t _ (ok (next_idx t, new_unary t k)) _ (unary_meaning d t k)
                (Extends-refl d t) (ground arith) (new_unary-Builds d t k s v fresh) (λ ctx w g. g)
          | inl (x, folded) ↦
              Builds-from d t t _ (possibly_negative_by d (uminus_by d (rounds d (suc n))) t x) _
                (λ ctx. ok x) (Extends-refl d t) (ground arith) (possibly_negative_of n t x s h)
                (λ ctx w g. ap ok (folded_unary t ctx k x w folded g))
        ]
      ]
    ]

    -- In exact arithmetic, on a tree that is in order with its predefined nodes: `AddUnaryOp` returns a node with the value of the operation on the
    -- value of its argument, and keeps the tree in order. In particular the fuel is enough.
    pub add_unary_op-Builds :
        (t : Tree Double) (k : UnaryKey)
        → IsShared d t
        → HasSpecials d t
        → Valid d t k.arg
        → Builds d t (add_unary_op d t k) (unary_meaning d t k)
    add_unary_op-Builds = unary_rounds-Builds 0

    -- In exact arithmetic, on a tree that is in order with its predefined nodes: `AddUMinus` returns a node with the negation of the value of its
    -- argument, and keeps the tree in order.
    pub add_uminus-Builds :
        (t : Tree Double) (e : ℕ)
        → IsShared d t
        → HasSpecials d t
        → Valid d t e
        → Builds d t (add_uminus d t e) (negated d t e)
    unfolding add_uminus eval_unary
    add_uminus-Builds t e s h v =
        uminus_by-Builds d laws (rounds d 2) t e s h v
          (λ f. unary_rounds-Builds 0 t (plain UnaryOpcode.uminus e) s h v)

    -- In exact arithmetic, on a tree that is in order with its predefined nodes: `AddPossiblyNegativeConstant` returns a node whose value is the
    -- constant, whatever its sign, infinite or NaN, and keeps the tree in order.
    pub add_possibly_negative_constant-Builds :
        (t : Tree Double) (v : Double)
        → IsShared d t
        → HasSpecials d t
        → Builds d t (add_possibly_negative_constant d t v) (λ ctx. ok v)
    unfolding add_possibly_negative_constant add_uminus
    add_possibly_negative_constant-Builds = possibly_negative_of 1

    -- In exact arithmetic, on a tree that is in order with its predefined nodes: `AddBinaryOp` returns a node with the value of the operation on the
    -- values of its arguments, and keeps the tree in order.
    pub add_binary_op-Builds :
        (t : Tree Double) (k : BinaryKey)
        → IsShared d t
        → HasSpecials d t
        → Valid d t k.arg1
        → Valid d t k.arg2
        → Builds d t (add_binary_op d t k) (binary_meaning d t k)
    unfolding add_binary_op
    add_binary_op-Builds t k s h v1 v2 = elim (Option-cases (lookup k t.binary_op_node_map)) [
      | inr (i, found) ↦
          Builds-from d t t _ (ok (i, t)) _ (binary_meaning d t k) (Extends-refl d t) (ground arith)
            (shared_binary t k i s found) (λ ctx w g. g)
      | inl fresh ↦ elim (Result-cases (fold_binary d t k)) [
        | inr (e, no_value) ↦
            Builds-from d t t _ (ok (next_idx t, new_binary t k)) _ (binary_meaning d t k)
              (Extends-refl d t) (ground arith) (new_binary-Builds t k s v1 v2 fresh) (λ ctx w g. g)
        | inl (x, folded) ↦
            Builds-from d t t _ (add_possibly_negative_constant d t x) _ (λ ctx. ok x)
              (Extends-refl d t) (ground arith) (add_possibly_negative_constant-Builds t x s h)
              (λ ctx w g. ap ok (folded_binary t ctx k x w folded g))
      ]
    ]

    -- In exact arithmetic, on a tree that is in order with its predefined nodes: `AddTrinaryOp` returns a node with the value of the operation on the
    -- values of its arguments, and keeps the tree in order.
    pub add_trinary_op-Builds :
        (t : Tree Double) (k : TrinaryKey)
        → IsShared d t
        → HasSpecials d t
        → Valid d t k.arg1
        → Valid d t k.arg2
        → Valid d t k.arg3
        → Builds d t (add_trinary_op d t k) (trinary_meaning d t k)
    unfolding add_trinary_op
    add_trinary_op-Builds t k s h v1 v2 v3 = elim (Option-cases (lookup k t.trinary_op_node_map)) [
      | inr (i, found) ↦
          Builds-from d t t _ (ok (i, t)) _ (trinary_meaning d t k) (Extends-refl d t)
            (ground arith) (shared_trinary t k i s found) (λ ctx w g. g)
      | inl fresh ↦ elim (Result-cases (fold_trinary d t k)) [
        | inr (e, no_value) ↦
            Builds-from d t t _ (ok (next_idx t, new_trinary t k)) _ (trinary_meaning d t k)
              (Extends-refl d t) (ground arith) (new_trinary-Builds t k s v1 v2 v3 fresh)
              (λ ctx w g. g)
        | inl (x, folded) ↦
            Builds-from d t t _ (add_possibly_negative_constant d t x) _ (λ ctx. ok x)
              (Extends-refl d t) (ground arith) (add_possibly_negative_constant-Builds t x s h)
              (λ ctx w g. ap ok (folded_trinary t ctx k x w folded g))
      ]
    ]
