-- ===== src/Prelude/Text.antt =====
-- `std::string` as its bytes, and the digits that `ostream << int` writes.
use Prim.Native.Nat.{ℕ, zero, suc, ◌+◌, ◌-◌, ◌*◌, ◌/◌, ◌%◌, ◌<◌}
use Prim.Native.Char.{code}
use Prim.Native.String.{String}
use mathlib.Core.Path.{◌≡◌, refl, sym, ap, subst, ◌∙◌}
use mathlib.Core.Logic.{◌≢◌, ◌⊎◌, inl, inr}
use mathlib.Core.Bool.{Bool, true, false}
use mathlib.Core.List.{List, [], ◌∷◌, ◌++◌}
use native.Mathlib.Omega.{arith}
use native.Mathlib.Decide.{ℕ_discrete}
use dynare.Prelude.Tests.{if◌then◌else◌, ltb, ◌==◌, Bool-cases}
use dynare.Prelude.Maps.{Key}
use dynare.Prelude.Int.{ℤ, pos, negsuc}

abbrev pub Bytes : Type 0
Bytes = List ℕ

abbrev pub codes : String → Bytes
codes String.[] = []
codes (String.◌∷◌ c s) = code c ∷ codes s

-- `operator<` of `std::string`
unfoldable pub bytes_before : Bytes → Bytes → Bool
bytes_before a [] = false
bytes_before [] (y ∷ b) = true
bytes_before (x ∷ a) (y ∷ b) = if ltb x y then true else if x == y then bytes_before a b else false

unfoldable pub Bytes-discrete : Discrete Bytes
unfolding ℕ_discrete
Bytes-discrete = hlevel ℕ_discrete

instance abbrev pub bytes_key : Key Bytes
bytes_key = record { dec = Bytes-discrete; before = bytes_before }

-- No byte of the text is `c`.
abbrev pub Lacks : ℕ → Bytes → Type 0
Lacks c [] = Unit {0}
Lacks c (x ∷ s) = (x ≢ c) × Lacks c s

pub Lacks-append : (c : ℕ) (s t : Bytes) → Lacks c s → Lacks c t → Lacks c (s ++ t)
Lacks-append c [] t h k = k
Lacks-append c (x ∷ s) t h k = (h.0, Lacks-append c s t h.1 k)

print_digits : ℕ → ℕ → Bytes
print_digits zero n = []
print_digits (suc f) n =
    let rest = print_digits f (n / 10) ++ (48 + n % 10) ∷ [] in
    if ltb n 10 then (48 + n) ∷ [] else rest

-- The decimal digits of a number, as `ostream << int` writes them.
unfoldable pub print_ℕ : ℕ → Bytes
unfolding print_digits
print_ℕ n = print_digits (suc n) n

unfoldable pub print_ℤ : ℤ → Bytes
unfolding print_ℕ
print_ℤ (pos n) = print_ℕ n
print_ℤ (negsuc n) = b'-' ∷ print_ℕ (suc n)

value : ℕ → Bytes → ℕ
value acc [] = acc
value acc (d ∷ s) = value (acc * 10 + (d - 48)) s

value-snoc : (acc : ℕ) (s : Bytes) (d : ℕ) → value acc (s ++ d ∷ []) ≡ value acc s * 10 + (d - 48)
unfolding value
value-snoc acc [] d = refl
value-snoc acc (x ∷ s) d = value-snoc (acc * 10 + (x - 48)) s d

value-print_digits : (f n : ℕ) → n < f → value 0 (print_digits f n) ≡ n
unfolding print_digits
value-print_digits zero n h = elim h [ ]
value-print_digits (suc f) n h = elim (Bool-cases (ltb n 10)) [
  | inl e ↦ rw e (unfold value in omega arith)
  | inr e ↦
      rw (e, value-snoc 0 (print_digits f (n / 10)) (48 + n % 10))
        (rw (value-print_digits f (n / 10) (ground arith)) (omega arith))
]

-- No digit is the byte `c`.
abbrev NoDigit : ℕ → Type 0
NoDigit c = (c < 48) ⊎ (57 < c)

print_digits-Lacks : (c : ℕ) → NoDigit c → (f n : ℕ) → Lacks c (print_digits f n)
unfolding print_digits
print_digits-Lacks c k zero n = tt
print_digits-Lacks c k (suc f) n = elim (Bool-cases (ltb n 10)) [
  | inl e ↦ rw e ((ground arith), tt)
  | inr e ↦ rw e (Lacks-append c _ _ (print_digits-Lacks c k f (n / 10)) ((omega arith), tt))
]

pub print_ℤ-Lacks : (c : ℕ) → 57 < c → (a : ℤ) → Lacks c (print_ℤ a)
unfolding print_ℤ
print_ℤ-Lacks c k (pos n) = print_digits-Lacks c (inr k) (suc n) n
print_ℤ-Lacks c k (negsuc n) = (omega arith, print_digits-Lacks c (inr k) (suc (suc n)) (suc n))

print_ℕ-ne-minus : (n : ℕ) (s : Bytes) → print_ℕ n ≢ b'-' ∷ s
unfolding print_ℕ
print_ℕ-ne-minus n s e =
    (subst (Lacks b'-') e (print_digits-Lacks b'-' (inl (omega arith)) (suc n) n)).0 refl

pub print_ℕ-injective : (m n : ℕ) → print_ℕ m ≡ print_ℕ n → m ≡ n
unfolding print_ℕ
print_ℕ-injective m n e =
    sym (value-print_digits (suc m) m (omega arith))
    ∙ ap (value 0) e
    ∙ value-print_digits (suc n) n (omega arith)

-- Different integers are written differently.
pub print_ℤ-injective : (a b : ℤ) → print_ℤ a ≡ print_ℤ b → a ≡ b
unfolding print_ℤ
print_ℤ-injective (pos m) (pos n) e = ap pos (print_ℕ-injective m n e)
print_ℤ-injective (pos m) (negsuc n) e = absurd (print_ℕ-ne-minus m _ e)
print_ℤ-injective (negsuc m) (pos n) e = absurd (print_ℕ-ne-minus n _ (sym e))
print_ℤ-injective (negsuc m) (negsuc n) e =
    let h = print_ℕ-injective (suc m) (suc n) (cc) in ground (arith, h)

-- The part of a text before the first `c` and the part after it.
before_sep : ℕ → Bytes → Bytes
before_sep c [] = []
before_sep c (x ∷ s) = if x == c then [] else x ∷ before_sep c s

after_sep : ℕ → Bytes → Bytes
after_sep c [] = []
after_sep c (x ∷ s) = if x == c then s else after_sep c s

before_sep-append : (c : ℕ) (s t : Bytes) → Lacks c s → before_sep c (s ++ c ∷ t) ≡ s
unfolding before_sep
before_sep-append c [] t h = ground arith
before_sep-append c (x ∷ s) t h = ground (arith, h.0, before_sep-append c s t h.1)

after_sep-append : (c : ℕ) (s t : Bytes) → Lacks c s → after_sep c (s ++ c ∷ t) ≡ t
unfolding after_sep
after_sep-append c [] t h = ground arith
after_sep-append c (x ∷ s) t h = ground (arith, h.0, after_sep-append c s t h.1)

-- Two parts joined by a separator that the first lacks can be told apart again.
pub separated-injective :
    (c : ℕ) (s s' t t' : Bytes)
    → Lacks c s
    → Lacks c s'
    → s ++ c ∷ t ≡ s' ++ c ∷ t'
    → (s ≡ s') × (t ≡ t')
separated-injective c s s' t t' h h' e = (
  sym (before_sep-append c s t h) ∙ ap (before_sep c) e ∙ before_sep-append c s' t' h',
  sym (after_sep-append c s t h) ∙ ap (after_sep c) e ∙ after_sep-append c s' t' h',
)

pub append-cancel : (p s t : Bytes) → p ++ s ≡ p ++ t → s ≡ t
append-cancel [] s t e = e
append-cancel (x ∷ p) s t e = append-cancel p s t (cc)
