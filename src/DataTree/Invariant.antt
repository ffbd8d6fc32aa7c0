-- ===== src/DataTree/Invariant.antt =====
-- The invariant of an expression tree of preprocessor/DataTree.hh, what it means that a tree grew, and
-- the total specification of a method that builds a node.
use dynare.Prelude.{
  ℕ, ◌<◌, ◌≤◌, ◌≡◌, refl, ap, ◌∙◌, ◌∷◌, none, some, length, lookup, Result, ok, arith, Bytes, codes,
}
use dynare.NumericalConstants.{IsTable, get}
use dynare.DataTree.Doubles.{Doubles}
use dynare.SymbolTable.State.{SymbolType}
use dynare.DataTree.Nodes.{
  Node, num_const, variable, unary, binary, trinary, UnaryOpcode, UnaryKey, BinaryKey, TrinaryKey,
  VariableKey, node_at, Tree, TreeOutcome, nat_key, int_key, unary_key, binary_key, trinary_key,
  variable_key,
}
use dynare.DataTree.Eval.{EvalError, Context, eval}
use dynare.DataTree.Insert.{plain, new_num_const, new_variable, new_unary, new_binary, new_trinary}
use dynare.DataTree.Structure.{Indexes, Indexes-other, Indexes-new, node_at-lt, node_at-old}
use dynare.DataTree.EvalLaws.{Closed, Closed-cons, eval_in-old, eval_in-lt}

-- The node of a class with a key.
abbrev pub IsConst : ℕ → Node → Type 0
IsConst id n = n ≡ num_const id

abbrev pub IsVariable : VariableKey → Node → Type 0
IsVariable k n = (ty : SymbolType) × (n ≡ variable k ty)

abbrev pub IsUnary : UnaryKey → Node → Type 0
IsUnary k n = n ≡ unary k

abbrev pub IsBinary : BinaryKey → Node → Type 0
IsBinary k n = n ≡ binary k

abbrev pub IsTrinary : TrinaryKey → Node → Type 0
IsTrinary k n = n ≡ trinary k

abbrev pub Specials : Type 0
Specials = ℕ × ℕ × ℕ × ℕ × ℕ × ℕ × ℕ × ℕ

-- The predefined nodes that the simplifications use.
abbrev pub specials : {D : Type 0} → Tree D → Specials
specials t = (
  t.zero_node, t.one_node, t.minus_one_node, t.nan_node, t.infinity_node, t.minus_infinity_node,
  t.two_node, t.pi_node,
)

module _ (d : Doubles) where
  open d use {Double}

  abbrev pub Valid : Tree Double → ℕ → Type 0
  Valid t e = e < length t.node_list

  -- The node `e` is the constant of the given text.
  abbrev pub IsText : Tree Double → ℕ → Bytes → Type 0
  IsText t e s =
      (id : ℕ) × (node_at t.node_list e ≡ some (num_const id)) × (get d t.num_constants id ≡ some s)

  -- Each map holds just the nodes of its class, arguments come before the nodes that use them, and
  -- the table of constants is in order.
  pub record IsShared (t : Tree Double) : Type 0 where
    pub constants : IsTable d t.num_constants
    pub closed : Closed t.node_list
    pub num_consts : Indexes IsConst t.num_const_node_map t.node_list
    pub variables : Indexes IsVariable t.variable_node_map t.node_list
    pub unaries : Indexes IsUnary t.unary_op_node_map t.node_list
    pub binaries : Indexes IsBinary t.binary_op_node_map t.node_list
    pub trinaries : Indexes IsTrinary t.trinary_op_node_map t.node_list

  -- The predefined nodes are what their names say.
  pub record HasSpecials (t : Tree Double) : Type 0 where
    pub zero : IsText t t.zero_node (codes "0")
    pub one : IsText t t.one_node (codes "1")
    pub minus_one :
        node_at t.node_list t.minus_one_node ≡ some (unary (plain UnaryOpcode.uminus t.one_node))
    pub nan : IsText t t.nan_node (codes "NaN")
    pub infinity : IsText t t.infinity_node (codes "Inf")
    pub minus_infinity :
        node_at t.node_list t.minus_infinity_node
        ≡ some (unary (plain UnaryOpcode.uminus t.infinity_node))
    pub two : IsText t t.two_node (codes "2")
    pub pi : IsText t t.pi_node (codes "3.141592653589793")

  pub record Extends (t t' : Tree Double) : Type 0 where
    pub nodes :
        (i : ℕ) (n : Node) → node_at t.node_list i ≡ some n → node_at t'.node_list i ≡ some n
    pub texts :
        (i : ℕ) (s : Bytes) → get d t.num_constants i ≡ some s → get d t'.num_constants i ≡ some s
    pub values :
        (ctx : Context d) (i : ℕ) (v : Double) → eval d t ctx i ≡ ok v → eval d t' ctx i ≡ ok v
    pub same_specials : specials t' ≡ specials t
    pub size : length t.node_list ≤ length t'.node_list

  pub Extends-refl : (t : Tree Double) → Extends t t
  Extends-refl t = record {
    nodes = λ i n h. h;
    texts = λ i s h. h;
    values = λ ctx i v h. h;
    same_specials = refl;
    size = omega arith;
  }

  pub Extends-trans : {t u w : Tree Double} → Extends t u → Extends u w → Extends t w
  Extends-trans p q = record {
    nodes = λ i n h. q.nodes i n (p.nodes i n h);
    texts = λ i s h. q.texts i s (p.texts i s h);
    values = λ ctx i v h. q.values ctx i v (p.values ctx i v h);
    same_specials = q.same_specials ∙ p.same_specials;
    size = omega arith;
  }

  pub IsText-Extends :
      {t t' : Tree Double} (e : ℕ) (s : Bytes) → Extends t t' → IsText t e s → IsText t' e s
  IsText-Extends e s x (id, n, g) = (id, x.nodes e (num_const id) n, x.texts id s g)

  pub HasSpecials-Extends : (t t' : Tree Double) → Extends t t' → HasSpecials t → HasSpecials t'
  HasSpecials-Extends t t' x h =
      let e0 = ap (λ (p : Specials). p.0) x.same_specials in
      let e1 = ap (λ (p : Specials). p.1) x.same_specials in
      let e2 = ap (λ (p : Specials). p.2) x.same_specials in
      let e3 = ap (λ (p : Specials). p.3) x.same_specials in
      let e4 = ap (λ (p : Specials). p.4) x.same_specials in
      let e5 = ap (λ (p : Specials). p.5) x.same_specials in
      let e6 = ap (λ (p : Specials). p.6) x.same_specials in
      let e7 = ap (λ (p : Specials). p.7) x.same_specials in
      record {
        zero = rw e0 (IsText-Extends _ _ x h.zero);
        one = rw e1 (IsText-Extends _ _ x h.one);
        minus_one = rw (e2, e1) (x.nodes _ _ h.minus_one);
        nan = rw e3 (IsText-Extends _ _ x h.nan);
        infinity = rw e4 (IsText-Extends _ _ x h.infinity);
        minus_infinity = rw (e5, e4) (x.nodes _ _ h.minus_infinity);
        two = rw e6 (IsText-Extends _ _ x h.two);
        pi = rw e7 (IsText-Extends _ _ x h.pi);
      }

  -- The method `r`, called on the tree `t`, returns: a node of a tree that is in order and extends
  -- `t`, and under each context in which `V` has a value the node has that value.
  pub record Builds (t : Tree Double) (r : TreeOutcome (ℕ × Tree Double))
      (V : Context d → Result EvalError Double) : Type 0 where
    pub idx : ℕ
    pub tree : Tree Double
    pub returns : r ≡ ok (idx, tree)
    pub is_shared : IsShared tree
    pub extends : Extends t tree
    pub valid : Valid tree idx
    pub value : (ctx : Context d) (w : Double) → V ctx ≡ ok w → eval d tree ctx idx ≡ ok w

  -- A node that is there already.
  pub Builds-node :
      (t : Tree Double) (e : ℕ) (V : Context d → Result EvalError Double)
      → IsShared t
      → Valid t e
      → ((ctx : Context d) (w : Double) → V ctx ≡ ok w → eval d t ctx e ≡ ok w)
      → Builds t (ok (e, t)) V
  Builds-node t e V s v h = record {
    idx = e;
    tree = t;
    returns = refl;
    is_shared = s;
    extends = Extends-refl t;
    valid = v;
    value = h;
  }

  -- A new node, and what stands in the way of the tree's invariant.
  pub push-Extends :
      (t t' : Tree Double) (n : Node)
      → t'.node_list ≡ n ∷ t.node_list
      → t'.num_constants ≡ t.num_constants
      → specials t' ≡ specials t
      → Extends t t'
  unfolding eval
  push-Extends t t' n e c s = record {
    nodes = λ i m h. rw e (node_at-old t.node_list n i (node_at-lt t.node_list i h) ∙ h);
    texts = λ i x h. rw c h;
    values = λ ctx i v h.
        rw (e, c)
          (eval_in-old d t.num_constants ctx t.node_list n i
              (eval_in-lt d t.num_constants ctx t.node_list i v h)
            ∙ h);
    same_specials = s;
    size = rw e (omega arith);
  }

  -- The constructors of the node classes keep the invariant, if the key is new and the arguments are
  -- nodes.
  pub new_num_const-IsShared :
      (t : Tree Double) (id : ℕ)
      → lookup id t.num_const_node_map ≡ none
      → IsShared t
      → IsShared (new_num_const t id)
  new_num_const-IsShared t id fresh s = record {
    constants = s.constants;
    closed = Closed-cons t.node_list _ s.closed tt;
    num_consts = Indexes-new IsConst _ t.node_list _ s.num_consts id fresh refl (λ j e. cc);
    variables = Indexes-other IsVariable _ t.node_list _ s.variables (λ k e. cc (e.1));
    unaries = Indexes-other IsUnary _ t.node_list _ s.unaries (λ k e. cc);
    binaries = Indexes-other IsBinary _ t.node_list _ s.binaries (λ k e. cc);
    trinaries = Indexes-other IsTrinary _ t.node_list _ s.trinaries (λ k e. cc);
  }

  pub new_variable-IsShared :
      (t : Tree Double) (k : VariableKey) (ty : SymbolType)
      → lookup k t.variable_node_map ≡ none
      → IsShared t
      → IsShared (new_variable t k ty)
  new_variable-IsShared t k ty fresh s = record {
    constants = s.constants;
    closed = Closed-cons t.node_list _ s.closed tt;
    num_consts = Indexes-other IsConst _ t.node_list _ s.num_consts (λ j e. cc);
    variables =
        Indexes-new IsVariable _ t.node_list _ s.variables k fresh (ty, refl) (λ j e. cc (e.1));
    unaries = Indexes-other IsUnary _ t.node_list _ s.unaries (λ j e. cc);
    binaries = Indexes-other IsBinary _ t.node_list _ s.binaries (λ j e. cc);
    trinaries = Indexes-other IsTrinary _ t.node_list _ s.trinaries (λ j e. cc);
  }

  pub new_unary-IsShared :
      (t : Tree Double) (k : UnaryKey)
      → lookup k t.unary_op_node_map ≡ none
      → Valid t k.arg
      → IsShared t
      → IsShared (new_unary t k)
  new_unary-IsShared t k fresh v s = record {
    constants = s.constants;
    closed = Closed-cons t.node_list _ s.closed v;
    num_consts = Indexes-other IsConst _ t.node_list _ s.num_consts (λ j e. cc);
    variables = Indexes-other IsVariable _ t.node_list _ s.variables (λ j e. cc (e.1));
    unaries = Indexes-new IsUnary _ t.node_list _ s.unaries k fresh refl (λ j e. cc);
    binaries = Indexes-other IsBinary _ t.node_list _ s.binaries (λ j e. cc);
    trinaries = Indexes-other IsTrinary _ t.node_list _ s.trinaries (λ j e. cc);
  }

  pub new_binary-IsShared :
      (t : Tree Double) (k : BinaryKey)
      → lookup k t.binary_op_node_map ≡ none
      → Valid t k.arg1
      → Valid t k.arg2
      → IsShared t
      → IsShared (new_binary t k)
  new_binary-IsShared t k fresh v w s = record {
    constants = s.constants;
    closed = Closed-cons t.node_list _ s.closed (v, w);
    num_consts = Indexes-other IsConst _ t.node_list _ s.num_consts (λ j e. cc);
    variables = Indexes-other IsVariable _ t.node_list _ s.variables (λ j e. cc (e.1));
    unaries = Indexes-other IsUnary _ t.node_list _ s.unaries (λ j e. cc);
    binaries = Indexes-new IsBinary _ t.node_list _ s.binaries k fresh refl (λ j e. cc);
    trinaries = Indexes-other IsTrinary _ t.node_list _ s.trinaries (λ j e. cc);
  }

  pub new_trinary-IsShared :
      (t : Tree Double) (k : TrinaryKey)
      → lookup k t.trinary_op_node_map ≡ none
      → Valid t k.arg1
      → Valid t k.arg2
      → Valid t k.arg3
      → IsShared t
      → IsShared (new_trinary t k)
  new_trinary-IsShared t k fresh v w x s = record {
    constants = s.constants;
    closed = Closed-cons t.node_list _ s.closed (v, w, x);
    num_consts = Indexes-other IsConst _ t.node_list _ s.num_consts (λ j e. cc);
    variables = Indexes-other IsVariable _ t.node_list _ s.variables (λ j e. cc (e.1));
    unaries = Indexes-other IsUnary _ t.node_list _ s.unaries (λ j e. cc);
    binaries = Indexes-other IsBinary _ t.node_list _ s.binaries (λ j e. cc);
    trinaries = Indexes-new IsTrinary _ t.node_list _ s.trinaries k fresh refl (λ j e. cc);
  }

  -- A new node whose value is `V`.
  pub Builds-push :
      (t t' : Tree Double) (n : Node) (V : Context d → Result EvalError Double)
      → t'.node_list ≡ n ∷ t.node_list
      → t'.num_constants ≡ t.num_constants
      → specials t' ≡ specials t
      → IsShared t'
      → ((ctx : Context d) (w : Double) → V ctx ≡ ok w → eval d t' ctx (length t.node_list) ≡ ok w)
      → Builds t (ok (length t.node_list, t')) V
  Builds-push t t' n V e c s sh h = record {
    idx = length t.node_list;
    tree = t';
    returns = refl;
    is_shared = sh;
    extends = push-Extends t t' n e c s;
    valid = rw e (omega arith);
    value = h;
  }
