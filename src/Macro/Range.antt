-- ===== src/Macro/Range.antt =====
-- The ranges of preprocessor/macro/MacroValue.cc.
use dynare.Prelude.{
  ℕ, zero, suc, ◌<◌, ◌≡◌, refl, sym, ap, ◌∙◌, inl, inr, true, false, List, [], ◌∷◌, length,
  get_elem?, some, ok, ℤ, pos, ◌+ℤ◌, ◌-ℤ◌, pos_part, leb_ℤ, Bool-cases, arith,
}
use dynare.Macro.Values.{int, ints, fits, checked_int}
use dynare.Macro.Operators.{range_loop, rounds, new_range}

-- The integers from `a` to `b`, in their order.
abbrev pub IsRange : ℤ → ℤ → List ℤ → Type 0
IsRange a b v =
    (length v ≡ pos_part (b +ℤ pos 1 -ℤ a))
    × ((i : ℕ) → i < length v → get_elem? v i ≡ some (a +ℤ pos i))

next_fits :
    (a b : ℤ)
    → fits a ≡ true
    → fits (b +ℤ pos 1) ≡ true
    → leb_ℤ a b ≡ true
    → fits (a +ℤ pos 1) ≡ true
unfolding ◌+ℤ◌
next_fits a b h k l = ground arith

fewer_rounds :
    (a b : ℤ)
    → leb_ℤ a b ≡ true
    → suc (pos_part (b +ℤ pos 1 -ℤ (a +ℤ pos 1))) ≡ pos_part (b +ℤ pos 1 -ℤ a)
unfolding ◌+ℤ◌ ◌-ℤ◌
fewer_rounds a b l = ground arith

none_left : (a b : ℤ) → leb_ℤ a b ≡ false → pos_part (b +ℤ pos 1 -ℤ a) ≡ 0
unfolding ◌+ℤ◌ ◌-ℤ◌
none_left a b l = ground arith

next_at : (a : ℤ) (i : ℕ) → a +ℤ pos 1 +ℤ pos i ≡ a +ℤ pos (suc i)
unfolding ◌+ℤ◌
next_at a i = ground arith

start_at : (a : ℤ) → a ≡ a +ℤ pos 0
unfolding ◌+ℤ◌
start_at a = ground arith

range_loop_lem :
    (n : ℕ) (a b : ℤ)
    → fits a ≡ true
    → fits (b +ℤ pos 1) ≡ true
    → pos_part (b +ℤ pos 1 -ℤ a) < n
    → (v : List ℤ) × (range_loop n a b ≡ ok v) × IsRange a b v
unfolding range_loop checked_int
range_loop_lem zero a b h k lt = absurd (omega arith)
range_loop_lem (suc n) a b h k lt = elim (Bool-cases (leb_ℤ a b)) [
  | inl l ↦
      (let f = next_fits a b h k l in
        let c = fewer_rounds a b l in
        let (v, e, r) = range_loop_lem n (a +ℤ pos 1) b f k (omega arith) in
        (a ∷ v, ground (arith, l, f, e), (ap suc (r.0) ∙ c, at_of a v (r.1))))
  | inr l ↦ ([], ground (arith, l), (sym (none_left a b l), λ i p. absurd (omega arith)))
]
  where
    at_of :
        (a : ℤ) (v : List ℤ)
        → ((i : ℕ) → i < length v → get_elem? v i ≡ some (a +ℤ pos 1 +ℤ pos i))
        → (i : ℕ) → i < suc (length v)
        → get_elem? (a ∷ v) i ≡ some (a +ℤ pos i)
    at_of a v at zero p = ap some (start_at a)
    at_of a v at (suc i) p = at i (omega arith) ∙ ap some (next_at a i)

-- For two values of `int`, the second of which is not the greatest, the loop of `new_range` ends, without an
-- overflow, and returns the array of all integers from the first to the second, in their order: as many as
-- there are, and none if the second is smaller.
pub new_range-IsRange :
    (a b : ℤ)
    → fits a ≡ true
    → fits (b +ℤ pos 1) ≡ true
    → (v : List ℤ) × (new_range (int a) (int b) ≡ ok (ints v)) × IsRange a b v
unfolding new_range
new_range-IsRange a b h k =
    let (v, e, r) = range_loop_lem (rounds a b) a b h k (omega arith) in (v, rw e refl, r)
