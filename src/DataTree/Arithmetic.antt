-- ===== src/DataTree/Arithmetic.antt =====
-- The values of the sums, products, quotients and powers that preprocessor/DataTree.cc builds.
use dynare.Prelude.{
  ℕ, ◌≡◌, refl, sym, ap, ◌∙◌, ◌⊎◌, inl, inr, true, false, some, ok, >>=-eq-ok, arith, Option-cases,
  Bool-cases, ◌==◌, ltb,
}
use dynare.DataTree.Doubles.{Doubles}
use dynare.DataTree.Laws.{Laws}
use dynare.DataTree.Nodes.{unary, BinaryOpcode, Tree}
use dynare.DataTree.Eval.{Context, eval, eval_node, eval_unary, eval_binary}
use dynare.DataTree.Insert.{uminus_arg, add_uminus}
use dynare.DataTree.Build.{
  add_plus, add_minus, add_times, add_divide, add_power, binary_key_of, add_plain_binary,
  add_sorted,
}
use dynare.DataTree.Invariant.{IsShared, HasSpecials, Builds, Valid}
use dynare.DataTree.Constants.{Meaning, eval_node_eq, binary_meaning}
use dynare.DataTree.Negation.{negated, eval_zero, uminus_arg_node}
use dynare.DataTree.Operations.{add_uminus-Builds, add_binary_op-Builds}
use dynare.DataTree.Values.{
  combined, quotient, power_of, returns_node, calls, parts, zero-Valid, one-Valid, eval_one,
  value_zero, value_one, value_minus_one, same_value, add_minus-Builds,
}

module _ (d : Doubles) (laws : Laws d) (t : Tree d.Double) (s : IsShared d t)
    (h : HasSpecials d t) where
  open d use {Double, of_int, negate, plus, minus, times, divide, pow, lt, eq}

  -- The node that a node `-c` negates.
  uminus_arg_value :
      (e c : ℕ)
      → uminus_arg t e ≡ some c
      → Valid d t e
      → Valid d t c × ((ctx : Context d) → eval d t ctx e ≡ negated d t c ctx)
  unfolding eval_node eval_unary
  uminus_arg_value e c q v =
      let (k, n, o, a) = uminus_arg_node d laws t e c q in
      let below = s.closed e (unary k) n in
      (ground arith, λ ctx. eval_node_eq d t ctx e (unary k) s n ∙ rw (o, a) refl)

  module _ (a b : ℕ) (va : Valid d t a) (vb : Valid d t b) where
    -- The arguments in either order.
    add_sorted-Builds :
        (op : BinaryOpcode) (V : Meaning d)
        → ((ctx : Context d) (w : Double)
            → V ctx ≡ ok w
            → binary_meaning d t (binary_key_of d op a b) ctx ≡ ok w)
        → ((ctx : Context d) (w : Double)
            → V ctx ≡ ok w
            → binary_meaning d t (binary_key_of d op b a) ctx ≡ ok w)
        → Builds d t (add_sorted d t op a b) V
    add_sorted-Builds op V f g = elim (Bool-cases (ltb b a)) [
      | inl l ↦
          calls d t _ (add_plain_binary d t op b a) V (binary_meaning d t (binary_key_of d op b a))
            (rw l refl) (add_binary_op-Builds d laws t _ s h vb va) g
      | inr l ↦
          calls d t _ (add_plain_binary d t op a b) V (binary_meaning d t (binary_key_of d op a b))
            (rw l refl) (add_binary_op-Builds d laws t _ s h va vb) f
    ]

    -- In exact arithmetic, on a tree that is in order with its predefined nodes, and for nodes of it:
    -- `AddPlus` returns a node whose value is the sum of the values of its arguments.
    pub add_plus-Builds : Builds d t (add_plus d t a b) (combined d t a b (λ v w. ok (plus v w)))
    unfolding add_plus eval_binary
    add_plus-Builds = elim (Bool-cases (a == t.zero_node)) [
      | inl az ↦ elim (Bool-cases (b == t.zero_node)) [
        | inl bz ↦
            returns_node d t t.zero_node _ _ (ground arith) s (zero-Valid d laws t s h) (λ ctx w g.
              let (v, u, e, p, f) = parts d t ctx a b _ w g in
              let z = value_zero d laws t s h ctx a az e in
              let y = value_zero d laws t s h ctx b bz p in
              eval_zero d laws t ctx s h ∙ cc (laws.plus_zero (of_int 0)))
        | inr bn ↦ returns_node d t b _ _ (ground arith) s vb (λ ctx w g.
            let (v, u, e, p, f) = parts d t ctx a b _ w g in
            let z = value_zero d laws t s h ctx a az e in
            p ∙ cc (laws.plus_zero u, laws.plus_comm u v))
      ]
      | inr an ↦ elim (Bool-cases (b == t.zero_node)) [
        | inl bz ↦ returns_node d t a _ _ (ground arith) s va (λ ctx w g.
            let (v, u, e, p, f) = parts d t ctx a b _ w g in
            let y = value_zero d laws t s h ctx b bz p in e ∙ cc (laws.plus_zero v))
        | inr bn ↦ elim (Option-cases (uminus_arg t b)) [
          | inl no_uminus ↦
              calls d t _ (add_sorted d t BinaryOpcode.plus a b) _ _ (rw (an, bn, no_uminus) refl)
                (add_sorted-Builds BinaryOpcode.plus _ (λ ctx w g. g)
                  (λ ctx w g.
                    let (v, u, e, p, f) = parts d t ctx a b _ w g in
                    rw (p, e) (cc (laws.plus_comm u v))))
                (λ ctx w g. g)
          | inr (c, q) ↦
              let (vc, value) = uminus_arg_value b c q vb in
              calls d t _ (add_minus d t a c) _ (combined d t a c (λ v w. ok (minus v w)))
                (rw (an, bn, q) refl) (add_minus-Builds d laws t s h a c va vc)
                (λ ctx w g.
                  let (v, u, e, p, f) = parts d t ctx a b _ w g in
                  let (x, ex, fx) = >>=-eq-ok (eval d t ctx c) _ (sym (value ctx) ∙ p) in
                  rw (e, ex) (cc (laws.plus_negate v x)))
        ]
      ]
    ]

    -- In exact arithmetic, on a tree that is in order with its predefined nodes, and for nodes of it:
    -- `AddDivide` returns a node whose value is the quotient of the values of its arguments, where that
    -- of the second is not 0, if the second is not `Zero`.
    pub add_divide-Builds :
        (b == t.zero_node) ≡ false → Builds d t (add_divide d t a b) (combined d t a b (quotient d))
    unfolding add_divide eval_binary
    add_divide-Builds bn = elim (Bool-cases (b == t.one_node)) [
      | inl bo ↦ returns_node d t a _ _ (rw bo refl) s va (λ ctx w g.
          let (v, u, e, p, f) = parts d t ctx a b _ w g in
          let (ne0, q) : (eq u (of_int 0) ≡ false) × (divide v u ≡ w) = ground arith in
          let o = value_one d laws t s h ctx b bo p in e ∙ cc (laws.divide_one v))
      | inr bo ↦ elim (Bool-cases (a == t.zero_node)) [
        | inl az ↦
            returns_node d t t.zero_node _ _ (rw (bo, bn, az) refl) s (zero-Valid d laws t s h)
              (λ ctx w g.
                let (v, u, e, p, f) = parts d t ctx a b _ w g in
                let (ne0, q) : (eq u (of_int 0) ≡ false) × (divide v u ≡ w) = ground arith in
                let z = value_zero d laws t s h ctx a az e in
                eval_zero d laws t ctx s h ∙ cc (laws.zero_divide u ne0))
        | inr an ↦ elim (Bool-cases (a == b)) [
          | inl ab ↦
              returns_node d t t.one_node _ _ (rw (bo, bn, an, ab) refl) s (one-Valid d laws t s h)
                (λ ctx w g.
                  let (v, u, e, p, f) = parts d t ctx a b _ w g in
                  let (ne0, q) : (eq u (of_int 0) ≡ false) × (divide v u ≡ w) = ground arith in
                  let z = same_value d laws t s h a b va vb ctx ab e p in
                  eval_one d laws t s h ctx ∙ cc (laws.divide_self u ne0))
          | inr ne ↦
              calls d t _ (add_plain_binary d t BinaryOpcode.divide a b) _
                (binary_meaning d t (binary_key_of d BinaryOpcode.divide a b))
                (rw (bo, bn, an, ne) refl) (add_binary_op-Builds d laws t _ s h va vb)
                (λ ctx w g.
                  let (v, u, e, p, f) = parts d t ctx a b _ w g in
                  let (ne0, q) : (eq u (of_int 0) ≡ false) × (divide v u ≡ w) = ground arith in
                  rw (e, p) (ap ok q))
        ]
      ]
    ]

    abbrev product : Meaning d
    product = combined d t a b (λ v w. ok (times v w))

    times_zero_node :
        add_times d t a b ≡ ok (t.zero_node, t)
        → ((a == t.zero_node) ≡ true) ⊎ ((b == t.zero_node) ≡ true)
        → Builds d t (add_times d t a b) product
    times_zero_node q z = returns_node d t t.zero_node _ _ q s (zero-Valid d laws t s h) (λ ctx w g.
        let (v, u, e, p, r) = parts d t ctx a b _ w g in
        let o : times v u ≡ of_int 0 = elim z [
          | inl az ↦
              let y = value_zero d laws t s h ctx a az e in
              cc (laws.times_comm v u, laws.times_zero u)
          | inr bz ↦ let y = value_zero d laws t s h ctx b bz p in cc (laws.times_zero v)
        ] in
        eval_zero d laws t ctx s h ∙ cc)

    times_by_one :
        (a == t.minus_one_node) ≡ false
        → (b == t.minus_one_node) ≡ false
        → (a == t.one_node) ≡ true
        → Builds d t (add_times d t a b) product
    unfolding add_times
    times_by_one am bm ao = elim (Bool-cases (b == t.one_node)) [
      | inl bo ↦
          returns_node d t t.one_node _ _ (ground arith) s (one-Valid d laws t s h) (λ ctx w g.
            let (v, u, e, p, r) = parts d t ctx a b _ w g in
            let x = value_one d laws t s h ctx a ao e in
            let y = value_one d laws t s h ctx b bo p in
            eval_one d laws t s h ctx ∙ cc (laws.times_one v))
      | inr bo ↦ elim (Bool-cases (b == t.zero_node)) [
        | inl bz ↦ times_zero_node (ground arith) (inr bz)
        | inr bz ↦ returns_node d t b _ _ (ground arith) s vb (λ ctx w g.
            let (v, u, e, p, r) = parts d t ctx a b _ w g in
            let x = value_one d laws t s h ctx a ao e in
            p ∙ cc (laws.times_comm v u, laws.times_one u))
      ]
    ]

    times_plain :
        (a == t.minus_one_node) ≡ false
        → (b == t.minus_one_node) ≡ false
        → (a == t.one_node) ≡ false
        → Builds d t (add_times d t a b) product
    unfolding add_times eval_binary
    times_plain am bm ao = elim (Bool-cases (a == t.zero_node)) [
      | inl az ↦ times_zero_node (ground arith) (inl az)
      | inr az ↦ elim (Bool-cases (b == t.one_node)) [
        | inl bo ↦ returns_node d t a _ _ (ground arith) s va (λ ctx w g.
            let (v, u, e, p, r) = parts d t ctx a b _ w g in
            let y = value_one d laws t s h ctx b bo p in e ∙ cc (laws.times_one v))
        | inr bo ↦ elim (Bool-cases (b == t.zero_node)) [
          | inl bz ↦ times_zero_node (ground arith) (inr bz)
          | inr bz ↦
              calls d t _ (add_sorted d t BinaryOpcode.times a b) _ _ (ground arith)
                (add_sorted-Builds BinaryOpcode.times _ (λ ctx w g. g)
                  (λ ctx w g.
                    let (v, u, e, p, f) = parts d t ctx a b _ w g in
                    rw (p, e) (cc (laws.times_comm u v))))
                (λ ctx w g. g)
        ]
      ]
    ]

    -- In exact arithmetic, on a tree that is in order with its predefined nodes, and for nodes of it:
    -- `AddTimes` returns a node whose value is the product of the values of its arguments.
    pub add_times-Builds : Builds d t (add_times d t a b) (combined d t a b (λ v w. ok (times v w)))
    unfolding add_times eval_binary
    add_times-Builds = elim (Bool-cases (a == t.minus_one_node)) [
      | inl am ↦
          calls d t _ (add_uminus d t b) _ (negated d t b) (rw am refl)
            (add_uminus-Builds d laws t b s h vb)
            (λ ctx w g.
              let (v, u, e, p, f) = parts d t ctx a b _ w g in
              let m = value_minus_one d laws t s h ctx a am e in
              rw p (cc (laws.times_comm v u, laws.times_minus_one u)))
      | inr am ↦ elim (Bool-cases (b == t.minus_one_node)) [
        | inl bm ↦
            calls d t _ (add_uminus d t a) _ (negated d t a) (rw (am, bm) refl)
              (add_uminus-Builds d laws t a s h va)
              (λ ctx w g.
                let (v, u, e, p, f) = parts d t ctx a b _ w g in
                let m = value_minus_one d laws t s h ctx b bm p in
                rw e (cc (laws.times_minus_one v)))
        | inr bm ↦ elim (Bool-cases (a == t.one_node)) [
          | inl ao ↦ times_by_one am bm ao
          | inr ao ↦ times_plain am bm ao
        ]
      ]
    ]

    power_value :
        (v u : Double) {w : Double}
        → power_of d v u ≡ ok w
        → (pow v u ≡ w) × (eq v (of_int 0) ≡ true → lt (of_int 0) u ≡ true)
    power_value v u g = elim (Bool-cases (eq v (of_int 0))) [
      | inl z ↦ elim (Bool-cases (lt (of_int 0) u)) [
        | inl l ↦ (ground arith, λ q. l)
        | inr l ↦ absurd (ground arith)
      ]
      | inr z ↦ (ground arith, λ q. absurd (cc))
    ]

    -- In exact arithmetic, on a tree that is in order with its predefined nodes, and for nodes of it:
    -- `AddPower` returns a node whose value is the power of the values of its
    -- arguments; 0 has positive powers only.
    pub add_power-Builds : Builds d t (add_power d t a b) (combined d t a b (power_of d))
    unfolding add_power eval_binary
    add_power-Builds = elim (Bool-cases (a == t.one_node)) [
      | inl ao ↦
          returns_node d t t.one_node _ _ (ground arith) s (one-Valid d laws t s h) (λ ctx w g.
            let (v, u, e, p, f) = parts d t ctx a b _ w g in
            let x = value_one d laws t s h ctx a ao e in
            eval_one d laws t s h ctx ∙ cc ((power_value v u f).0, laws.one_pow u))
      | inr ao ↦ elim (Bool-cases (b == t.one_node)) [
        | inl bo ↦ returns_node d t a _ _ (ground arith) s va (λ ctx w g.
            let (v, u, e, p, f) = parts d t ctx a b _ w g in
            let y = value_one d laws t s h ctx b bo p in
            e ∙ cc ((power_value v u f).0, laws.pow_one v))
        | inr bo ↦ elim (Bool-cases (b == t.zero_node)) [
          | inl bz ↦
              returns_node d t t.one_node _ _ (ground arith) s (one-Valid d laws t s h) (λ ctx w g.
                let (v, u, e, p, f) = parts d t ctx a b _ w g in
                let y = value_zero d laws t s h ctx b bz p in
                eval_one d laws t s h ctx ∙ cc ((power_value v u f).0, laws.pow_zero v))
          | inr bz ↦ elim (Bool-cases (a == t.zero_node)) [
            | inl az ↦
                returns_node d t t.zero_node _ _ (ground arith) s (zero-Valid d laws t s h)
                  (λ ctx w g.
                    let (v, u, e, p, f) = parts d t ctx a b _ w g in
                    let x = value_zero d laws t s h ctx a az e in
                    let (q, l) = power_value v u f in
                    let z = laws.zero_pow u (l (ap (λ y. eq y (of_int 0)) x ∙ laws.eq_self)) in
                    eval_zero d laws t ctx s h ∙ cc)
            | inr az ↦
                calls d t _ (add_plain_binary d t BinaryOpcode.power a b) _
                  (binary_meaning d t (binary_key_of d BinaryOpcode.power a b)) (ground arith)
                  (add_binary_op-Builds d laws t _ s h va vb)
                  (λ ctx w g.
                    let (v, u, e, p, f) = parts d t ctx a b _ w g in
                    rw (e, p) (ap ok (power_value v u f).0))
          ]
        ]
      ]
    ]
