-- ===== src/DataTree/Structure.antt =====
-- The structure of an expression tree of preprocessor/DataTree.hh: which nodes its maps hold, and that
-- the arguments of a node come before it.
use dynare.Prelude.{
  ℕ, ◌<◌, ◌≡◌, sym, ◌∙◌, inl, inr, ◌⊎◌, List, [], ◌∷◌, none, some, length, Map, Key, lookup, insert,
  lookup-insert_self, lookup-insert_ne, arith,
}
use mathlib.Core.Path.{subst}
use dynare.DataTree.Nodes.{Node, unary, binary, trinary, node_at}

-- The arguments of a node have smaller indices than `i`.
abbrev pub ArgsBelow : ℕ → Node → Type 0
ArgsBelow i (unary k) = k.arg < i
ArgsBelow i (binary k) = (k.arg1 < i) × (k.arg2 < i)
ArgsBelow i (trinary k) = (k.arg1 < i) × (k.arg2 < i) × (k.arg3 < i)
ArgsBelow i _ = Unit {0}

pub node_at-lt : (l : List Node) (i : ℕ) {n : Node} → node_at l i ≡ some n → i < length l
unfolding node_at
node_at-lt [] i h = cc
node_at-lt (m ∷ l) i {n} h = ground (arith, node_at-lt l i {n = n})

pub node_at-new : (l : List Node) (n : Node) → node_at (n ∷ l) (length l) ≡ some n
unfolding node_at
node_at-new l n = ground arith

pub node_at-old :
    (l : List Node) (n : Node) (i : ℕ) → i < length l → node_at (n ∷ l) i ≡ node_at l i
unfolding node_at
node_at-old l n i h = ground arith

pub node_at-cons :
    (l : List Node) (n : Node) (i : ℕ) {m : Node}
    → node_at (n ∷ l) i ≡ some m
    → ((i ≡ length l) × (n ≡ m)) ⊎ (node_at l i ≡ some m)
unfolding node_at
node_at-cons l n i h = ground arith

-- A map of the tree holds just the nodes of its class, each under its key.
pub record Indexes {K : Type 0} ⦃o : Key K⦄ (Is : K → Node → Type 0) (m : Map K ℕ) (l : List Node)
    : Type 0 where
  pub sound : (k : K) (i : ℕ) → lookup k m ≡ some i → (n : Node) × (node_at l i ≡ some n) × Is k n
  pub complete : (k : K) (i : ℕ) (n : Node) → node_at l i ≡ some n → Is k n → lookup k m ≡ some i

module _ {K : Type 0} ⦃o : Key K⦄ (Is : K → Node → Type 0) (m : Map K ℕ) (l : List Node) (n : Node)
    (v : Indexes Is m l) where
  -- A node of another class.
  pub Indexes-other : ((k : K) → Is k n → ⊥) → Indexes Is m (n ∷ l)
  Indexes-other not_here = record {
    sound =
        λ k i h. let (x, e, p) = v.sound k i h in (x, node_at-old l n i (node_at-lt l i e) ∙ e, p);
    complete = λ k i x h p. elim (node_at-cons l n i h) [
      | inl (e, q) ↦ absurd (not_here k (subst (Is k) (sym q) p))
      | inr e ↦ v.complete k i x e p
    ];
  }

  -- A new node of the class.
  pub Indexes-new :
      (k : K)
      → lookup k m ≡ none
      → Is k n
      → ((j : K) → Is j n → k ≡ j)
      → Indexes Is (insert k (length l) m) (n ∷ l)
  Indexes-new k fresh here unique = record {
    sound = λ j i h. elim (o.dec k j) [
      | yes e ↦ (n, found j i e h, subst (λ x. Is x n) e here)
      | no ne ↦
          let (x, f, p) = v.sound j i (sym (lookup-insert_ne k j (length l) m ne) ∙ h) in
          (x, node_at-old l n i (node_at-lt l i f) ∙ f, p)
    ];
    complete = λ j i x h p. elim (node_at-cons l n i h) [
      | inl (e, q) ↦ placed j i (unique j (subst (Is j) (sym q) p)) e
      | inr e ↦
          lookup-insert_ne k j (length l) m (λ q. clash j i q (v.complete j i x e p))
          ∙ v.complete j i x e p
    ];
  }
    where
      found :
          (j : K) (i : ℕ)
          → k ≡ j
          → lookup j (insert k (length l) m) ≡ some i
          → node_at (n ∷ l) i ≡ some n
      found j i e h = cc (lookup-insert_self k (length l) m, node_at-new l n)

      placed : (j : K) (i : ℕ) → k ≡ j → i ≡ length l → lookup j (insert k (length l) m) ≡ some i
      placed j i e f = cc (lookup-insert_self k (length l) m)

      clash : (j : K) (i : ℕ) → k ≡ j → lookup j m ≡ some i → ⊥
      clash j i e f = cc
