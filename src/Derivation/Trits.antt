-- ===== src/Derivation/Trits.antt =====
-- Arithmetic modulo 3 obeys the laws that the derivation rules of preprocessor/ExprNode.cc rely on.
use dynare.Prelude.{ℕ, ◌+◌, ◌≡◌, refl, Bytes-discrete}
use dynare.DataTree.Trits.{
  Trit, nought, one, minus_one, trits, add, opposite, product, below, same, at_most, power,
  root_at_one, of_ℕ, printed, read,
}
use native.Mathlib.Numerals.{add-one}
use dynare.Derivation.Laws.{DerivativeLaws}

-- By the three numbers.
each {ℓ} : (P : Trit → Type ℓ) → P nought → P one → P minus_one → (v : Trit) → P v
each P a b c nought = a
each P a b c one = b
each P a b c minus_one = c

less : (v w : Trit) → add (add v (opposite w)) minus_one ≡ add v (opposite (add one w))
unfolding add opposite
less = each _ (each _ refl refl refl) (each _ refl refl refl) (each _ refl refl refl)

less_one :
    (v : Trit) (n : ℕ) → add (add v (opposite (of_ℕ n))) minus_one ≡ add v (opposite (of_ℕ (n + 1)))
unfolding of_ℕ
less_one v n = rw add-one (less v (of_ℕ n))

pub trits-DerivativeLaws : DerivativeLaws trits
unfolding read printed below add opposite product same power at_most root_at_one of_ℕ Bytes-discrete
trits-DerivativeLaws = record {
  text_two = refl;
  text_pi = refl;
  two_ne_zero = refl;
  positive_ne_zero = each _ (λ h. cc) (λ h. refl) (λ h. cc);
  lt_asym =
      each _ (each _ (λ h. cc) (λ h. refl) (λ h. cc)) (each _ (λ h. cc) (λ h. cc) (λ h. cc))
        (each _ (λ h. refl) (λ h. refl) (λ h. cc));
  plus_self = each _ refl refl refl;
  minus_suc = less_one;
  minus_minus =
      each _ (each _ (each _ refl refl refl) (each _ refl refl refl) (each _ refl refl refl))
        (each _ (each _ refl refl refl) (each _ refl refl refl) (each _ refl refl refl))
        (each _ (each _ refl refl refl) (each _ refl refl refl) (each _ refl refl refl));
  negate_minus = each _ (each _ refl refl refl) (each _ refl refl refl) (each _ refl refl refl);
  negate_plus = each _ (each _ refl refl refl) (each _ refl refl refl) (each _ refl refl refl);
  times_negate = each _ (each _ refl refl refl) (each _ refl refl refl) (each _ refl refl refl);
  times_assoc =
      each _ (each _ (each _ refl refl refl) (each _ refl refl refl) (each _ refl refl refl))
        (each _ (each _ refl refl refl) (each _ refl refl refl) (each _ refl refl refl))
        (each _ (each _ refl refl refl) (each _ refl refl refl) (each _ refl refl refl));
  times_divide =
      each _ (each _ (each _ refl refl refl) (each _ refl refl refl) (each _ refl refl refl))
        (each _ (each _ refl refl refl) (each _ refl refl refl) (each _ refl refl refl))
        (each _ (each _ refl refl refl) (each _ refl refl refl) (each _ refl refl refl));
  divide_minus =
      each _ (each _ (each _ refl refl refl) (each _ refl refl refl) (each _ refl refl refl))
        (each _ (each _ refl refl refl) (each _ refl refl refl) (each _ refl refl refl))
        (each _ (each _ refl refl refl) (each _ refl refl refl) (each _ refl refl refl));
  divide_common =
      each _ (each _ (λ h. cc) (λ h. refl) (λ h. refl)) (each _ (λ h. cc) (λ h. refl) (λ h. refl))
        (each _ (λ h. cc) (λ h. refl) (λ h. refl));
  square_ne_zero = each _ (λ h. cc) (λ h. refl) (λ h. refl);
  pow_two = each _ refl refl refl;
  pow_pred =
      each _ (each _ (λ h. cc) (λ h. cc) (λ h. cc)) (each _ (λ h. refl) (λ h. refl) (λ h. refl))
        (each _ (λ h. cc) (λ h. cc) (λ h. cc));
  log10_e = each _ (each _ refl refl refl) (each _ refl refl refl) (each _ refl refl refl);
  sin_acos = λ v. refl;
  cos_asin = λ v. refl;
  sinh_acosh = λ v. refl;
  cosh_asinh = λ v. refl;
  exp_negate =
      each _ (each _ (λ x. refl) (λ x. refl) (λ x. refl))
        (each _ (λ x. refl) (λ x. refl) (λ x. refl)) (each _ (λ x. refl) (λ x. refl) (λ x. refl));
  exp_one_ne_zero = refl;
  root_pi_exp_ne_zero = λ v. refl;
  root_two_pi_ne_zero = refl;
}
