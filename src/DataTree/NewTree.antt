-- ===== src/DataTree/NewTree.antt =====
-- The constructor of DataTree in preprocessor/DataTree.cc, and the nodes it predefines.
use dynare.Prelude.{
  ℕ, ◌≡◌, ◌≢◌, refl, sym, ap, ◌∙◌, inl, inr, true, false, ◌||◌, some, Option-cases, Bool-cases,
  ◌==◌, lookup, ok, ◌>>=◌, arith, Bytes, codes,
}
use dynare.NumericalConstants.{NumericalConstants, IsTable}
use dynare.SymbolTable.State.{SymbolTable}
use dynare.DataTree.Doubles.{Doubles}
use dynare.DataTree.Nodes.{num_const, unary, UnaryOpcode, node_at, Tree, TreeOutcome, unary_key}
use dynare.DataTree.Insert.{
  plain, next_idx, new_unary, add_constant, add_uminus, uminus_by, unary_rounds,
}
use dynare.DataTree.Build.{bare, new_tree}
use dynare.DataTree.Structure.{node_at-lt, node_at-new}
use dynare.DataTree.Invariant.{
  IsText, IsShared, HasSpecials, Specials, specials, Extends, Extends-refl, IsText-Extends,
  push-Extends, new_unary-IsShared,
}
use dynare.DataTree.Constants.{add_constant-Builds, add_constant-IsText}

-- The text is read as a number that is not negative, or as NaN.
abbrev pub IsRead : (d : Doubles) → Bytes → Type 0
IsRead d s = (d.le (d.of_int 0) (d.strtod s) || d.is_nan (d.strtod s)) ≡ true

-- What the constructor relies on in `strtod`.
pub record ReadsTexts (d : Doubles) : Type 0 where
  pub zero : IsRead d (codes "0")
  pub one : IsRead d (codes "1")
  pub two : IsRead d (codes "2")
  pub nan : IsRead d (codes "NaN")
  pub infinity : IsRead d (codes "Inf")
  pub pi : IsRead d (codes "3.141592653589793")

module _ (d : Doubles) where
  open d use {Double, le, of_int, strtod, is_nan}

  -- A call in the constructor: it returns a node of which `Is` holds, and keeps the tree in order.
  record Step (t : Tree Double) (r : TreeOutcome (ℕ × Tree Double)) (Is : Tree Double → ℕ → Type 0)
      : Type 0 where
    pub idx : ℕ
    pub tree : Tree Double
    pub returns : r ≡ ok (idx, tree)
    pub is_shared : IsShared d tree
    pub extends : Extends d t tree
    pub here : Is tree idx

  constant_step :
      (t : Tree Double) (s : Bytes)
      → IsShared d t
      → (le (of_int 0) (strtod s) || is_nan (strtod s)) ≡ true
      → Step t (add_constant d t s) (λ u e. IsText d u e s)
  constant_step t s sh p =
      let b = add_constant-Builds d t s sh p in
      record {
        idx = b.idx;
        tree = b.tree;
        returns = b.returns;
        is_shared = b.is_shared;
        extends = b.extends;
        here = add_constant-IsText d t s sh p b.returns;
      }

  -- The negation of a constant other than `Zero` is a node of its own.
  uminus_step :
      (t : Tree Double) (e : ℕ)
      → IsShared d t
      → (e == t.zero_node) ≡ false
      → (id : ℕ) × (node_at t.node_list e ≡ some (num_const id))
      → Step t
          (add_uminus d t e)
          (λ u i. node_at u.node_list i ≡ some (unary (plain UnaryOpcode.uminus e)))
  unfolding add_uminus uminus_by unary_rounds
  uminus_step t e s nz (id, n) =
      let k = plain UnaryOpcode.uminus e in
      elim (Option-cases (lookup k t.unary_op_node_map)) [
        | inl fresh ↦ record {
          idx = next_idx t;
          tree = new_unary t k;
          returns = ground arith;
          is_shared = new_unary-IsShared d t k fresh (node_at-lt t.node_list e n) s;
          extends = push-Extends d t (new_unary t k) (unary k) refl refl refl;
          here = node_at-new t.node_list (unary k);
        }
        | inr (i, found) ↦
            let (m, at, is) = s.unaries.sound k i found in
            record {
              idx = i;
              tree = t;
              returns = ground arith;
              is_shared = s;
              extends = Extends-refl d t;
              here = at ∙ ap some is;
            }
      ]

  pub distinct :
      (t : Tree Double) (e e' : ℕ) (s s' : Bytes)
      → IsText d t e s
      → IsText d t e' s'
      → s ≢ s'
      → (e == e') ≡ false
  distinct t e e' s s' (i, n, g) (j, m, f) ne = elim (Bool-cases (e == e')) [
    | inl q ↦ let r : e ≡ e' = ground arith in absurd (ne (cc))
    | inr q ↦ q
  ]

  -- The pointers to the predefined nodes are not part of the order.
  reset :
      (t u : Tree Double)
      → u.num_constants ≡ t.num_constants
      → u.node_list ≡ t.node_list
      → u.num_const_node_map ≡ t.num_const_node_map
      → u.variable_node_map ≡ t.variable_node_map
      → u.unary_op_node_map ≡ t.unary_op_node_map
      → u.binary_op_node_map ≡ t.binary_op_node_map
      → u.trinary_op_node_map ≡ t.trinary_op_node_map
      → IsShared d t
      → IsShared d u
  reset t u c l m v o b r s = record {
    constants = rw c s.constants;
    closed = rw l s.closed;
    num_consts = rw (m, l) s.num_consts;
    variables = rw (v, l) s.variables;
    unaries = rw (o, l) s.unaries;
    binaries = rw (b, l) s.binaries;
    trinaries = rw (r, l) s.trinaries;
  }

  pub bare-IsShared :
      (st : SymbolTable) (c : NumericalConstants Double) → IsTable d c → IsShared d (bare d st c)
  unfolding lookup node_at
  bare-IsShared st c i = record {
    constants = i;
    closed = λ j n h. cc;
    num_consts = record { sound = λ k j h. cc; complete = λ k j n h x. cc };
    variables = record { sound = λ k j h. cc; complete = λ k j n h x. cc };
    unaries = record { sound = λ k j h. cc; complete = λ k j n h x. cc };
    binaries = record { sound = λ k j h. cc; complete = λ k j n h x. cc };
    trinaries = record { sound = λ k j h. cc; complete = λ k j n h x. cc };
  }

  -- The rest of the constructor returns a tree that is in order, with its predefined nodes.
  abbrev Finishes : TreeOutcome (Tree Double) → Type 0
  Finishes r = (t : Tree Double) × (r ≡ ok t) × IsShared d t × HasSpecials d t

  then :
      {t : Tree Double} {r : TreeOutcome (ℕ × Tree Double)} {Is : Tree Double → ℕ → Type 0}
      (k : ℕ × Tree Double → TreeOutcome (Tree Double))
      → Step t r Is
      → ((e : ℕ) (u : Tree Double) → IsShared d u → Extends d t u → Is u e → Finishes (k (e, u)))
      → Finishes (r >>= k)
  then k st f =
      let (t, e, s, h) = f st.idx st.tree st.is_shared st.extends st.here in
      (t, ap (λ x. x >>= k) st.returns ∙ e, s, h)

  -- A predefined text, and a predefined negation, in a tree that grew.
  keeps :
      {t u : Tree Double} (f : Specials → ℕ) {s : Bytes}
      → Extends d t u
      → IsText d t (f (specials t)) s
      → IsText d u (f (specials u)) s
  keeps f {s} x h = rw x.same_specials (IsText-Extends d _ s x h)

  abbrev IsNegation : Tree Double → ℕ → ℕ → Type 0
  IsNegation t e a = node_at t.node_list e ≡ some (unary (plain UnaryOpcode.uminus a))

  keeps_IsNegation :
      {t u : Tree Double} (f g : Specials → ℕ)
      → Extends d t u
      → IsNegation t (f (specials t)) (g (specials t))
      → IsNegation u (f (specials u)) (g (specials u))
  keeps_IsNegation f g x h = rw x.same_specials (x.nodes _ _ h)

  text_number :
      (t : Tree Double) (e : ℕ) {s : Bytes}
      → IsText d t e s
      → (id : ℕ) × (node_at t.node_list e ≡ some (num_const id))
  text_number t e (id, n, g) = (id, n)

  pub one_ne_zero : codes "1" ≢ codes "0"
  one_ne_zero e = ground arith

  infinity_ne_zero : codes "Inf" ≢ codes "0"
  infinity_ne_zero e = ground arith

  -- The last four steps.
  module _ (reads : ReadsTexts d) where
    add_pi :
        (t : Tree Double)
        → IsShared d t
        → IsText d t t.zero_node (codes "0")
        → IsText d t t.one_node (codes "1")
        → IsText d t t.two_node (codes "2")
        → IsNegation t t.minus_one_node t.one_node
        → IsText d t t.nan_node (codes "NaN")
        → IsText d t t.infinity_node (codes "Inf")
        → IsNegation t t.minus_infinity_node t.infinity_node
        → Finishes (do
          (pi_node, t₈) ← add_constant d t (codes "3.141592653589793")
          ok (record t₈ { pi_node = pi_node }))
    add_pi t s zero one two minus_one nan inf minus_inf =
        then _ (constant_step t _ s reads.pi) (λ e u su x is. (
          record u { pi_node = e },
          refl,
          reset u _ refl refl refl refl refl refl refl su,
          record {
            zero = keeps (λ p. p.0) x zero;
            one = keeps (λ p. p.1) x one;
            minus_one = keeps_IsNegation (λ p. p.2) (λ p. p.1) x minus_one;
            nan = keeps (λ p. p.3) x nan;
            infinity = keeps (λ p. p.4) x inf;
            minus_infinity = keeps_IsNegation (λ p. p.5) (λ p. p.4) x minus_inf;
            two = keeps (λ p. p.6) x two;
            pi = is;
          },
        ))

    add_infinities :
        (t : Tree Double)
        → IsShared d t
        → IsText d t t.zero_node (codes "0")
        → IsText d t t.one_node (codes "1")
        → IsText d t t.two_node (codes "2")
        → IsNegation t t.minus_one_node t.one_node
        → IsText d t t.nan_node (codes "NaN")
        → Finishes (do
          (infinity_node, t₆) ← add_constant d t (codes "Inf")
          (minus_infinity_node, t₇) ←
              add_uminus d (record t₆ { infinity_node = infinity_node }) infinity_node
          (pi_node, t₈) ←
              add_constant d
                (record t₇ { minus_infinity_node = minus_infinity_node })
                (codes "3.141592653589793")
          ok (record t₈ { pi_node = pi_node }))
    add_infinities t s zero one two minus_one nan =
        then _ (constant_step t _ s reads.infinity) (λ i u su x inf.
          let zero_u = keeps (λ p. p.0) x zero in
          let one_u = keeps (λ p. p.1) x one in
          let two_u = keeps (λ p. p.6) x two in
          let minus_u = keeps_IsNegation (λ p. p.2) (λ p. p.1) x minus_one in
          let nan_u = keeps (λ p. p.3) x nan in
          then _
            (uminus_step (record u { infinity_node = i }) i
              (reset u _ refl refl refl refl refl refl refl su)
              (distinct u i u.zero_node _ _ inf zero_u infinity_ne_zero) (text_number u i inf))
            (λ m w sw y neg.
              add_pi (record w { minus_infinity_node = m })
                (reset w _ refl refl refl refl refl refl refl sw) (keeps (λ p. p.0) y zero_u)
                (keeps (λ p. p.1) y one_u) (keeps (λ p. p.6) y two_u)
                (keeps_IsNegation (λ p. p.2) (λ p. p.1) y minus_u) (keeps (λ p. p.3) y nan_u)
                (keeps (λ p. p.4) y inf)
                (neg
                  ∙ ap (λ p. some (unary (plain UnaryOpcode.uminus p.4))) (sym y.same_specials))))

    -- The constructor returns a tree that is in order, in which Zero, One, Two, NaN, Infinity and Pi are
    -- the constants of their texts, and MinusOne and MinusInfinity the negations of One and Infinity,
    -- whatever the table of constants, itself in order, holds already, if `strtod` reads the texts of the
    -- constants as numbers that are not negative, or as NaN.
    pub new_tree-HasSpecials :
        (st : SymbolTable) (c : NumericalConstants Double)
        → IsTable d c
        → (t : Tree Double) × (new_tree d st c ≡ ok t) × IsShared d t × HasSpecials d t
    unfolding new_tree
    new_tree-HasSpecials st c i =
        then _ (constant_step (bare d st c) _ (bare-IsShared st c i) reads.zero)
          (λ e0 u0 s0 x0 zero0.
            then _
              (constant_step (record u0 { zero_node = e0 }) _
                (reset u0 _ refl refl refl refl refl refl refl s0) reads.one)
              (λ e1 u1 s1 x1 one1.
                let zero1 = keeps (λ p. p.0) x1 zero0 in
                then _
                  (constant_step (record u1 { one_node = e1 }) _
                    (reset u1 _ refl refl refl refl refl refl refl s1) reads.two)
                  (λ e2 u2 s2 x2 two2.
                    let zero2 = keeps (λ p. p.0) x2 zero1 in
                    let one2 = keeps (λ p. p.1) x2 one1 in
                    then _
                      (uminus_step (record u2 { two_node = e2 }) e1
                        (reset u2 _ refl refl refl refl refl refl refl s2)
                        (distinct u2 e1 u2.zero_node _ _ (IsText-Extends d e1 _ x2 one1) zero2
                          one_ne_zero)
                        (text_number u2 e1 (IsText-Extends d e1 _ x2 one1)))
                      (λ e3 u3 s3 x3 minus3.
                        let zero3 = keeps (λ p. p.0) x3 zero2 in
                        let one3 = keeps (λ p. p.1) x3 one2 in
                        let two3 = keeps (λ p. p.6) x3 two2 in
                        let is_one : u3.one_node ≡ e1 =
                          ap (λ p. p.1) x3.same_specials ∙ ap (λ p. p.1) x2.same_specials in
                        then _
                          (constant_step (record u3 { minus_one_node = e3 }) _
                            (reset u3 _ refl refl refl refl refl refl refl s3) reads.nan)
                          (λ e4 u4 s4 x4 nan4.
                            add_infinities (record u4 { nan_node = e4 })
                              (reset u4 _ refl refl refl refl refl refl refl s4)
                              (keeps (λ p. p.0) x4 zero3) (keeps (λ p. p.1) x4 one3)
                              (keeps (λ p. p.6) x4 two3)
                              (keeps_IsNegation (λ p. p.2) (λ p. p.1) x4
                                (minus3
                                  ∙ ap (λ a. some (unary (plain UnaryOpcode.uminus a)))
                                      (sym is_one)))
                              nan4)))))
