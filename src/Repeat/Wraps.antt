-- ===== src/Repeat/Wraps.antt =====
-- Repeat where its doubling wraps around.
use gbuf.Base.{
  ℕ, zero, suc, ◌+◌, ◌-◌, ◌*◌, ◌^◌, ◌≤◌, ◌<◌, ◌≡◌, refl, sym, ap, ◌∙◌, List, arith, panic, length,
  take, replicate, splice, copy_into-ok, length-replicate, lt→ltb, le→ltb,
}
use Prim.Native.Nat.pow
use native.Mathlib.Nat.{mul-le-mul_left, mul-le-mul_right}
use gbuf.Base.Pointwise.{length-splice}
use gbuf.Base.Int.{pos, max_int}
use gbuf.Repeat.{double_loop, repeat}
use gbuf.Repeat.Refines.{repeat-double_loop}

power_suc : (k : ℕ) → 2 ^ suc k ≡ 2 ^ k * 2
power_suc k = pow.suc 2 k

exponent_below : (k : ℕ) → k < 2 ^ k
exponent_below zero = omega arith
exponent_below (suc k) = omega (arith, power_suc k, exponent_below k)

-- One doubling moves from the exponent to the factor.
doubled_once : (m k : ℕ) → m * 2 ^ suc k ≡ (m * 2) * 2 ^ k
doubled_once m k = ap (λ x. m * x) (power_suc k) ∙ omega arith

factor_bound : (m k n : ℕ) → m * 2 ^ k ≡ n → m ≤ n
factor_bound m k n e = omega (
  arith,
  e,
  exponent_below k,
  mul-le-mul_left {m = 1} {n = 2 ^ k} m (omega (arith, exponent_below k)),
)

exponent_bound : (m k n : ℕ) → m * 2 ^ k ≡ n → 0 < n → k < n
exponent_bound zero k n e h = omega (arith, e)
exponent_bound (suc m) k n e h =
    omega (arith, e, exponent_below k, mul-le-mul_right {m = 1} {n = suc m} (2 ^ k) (omega arith))

module _ {T : Type 0} where
  length-round :
      (nb : List T) (m : ℕ) → length (splice nb m (take (length nb - m) (take m nb))) ≡ length nb
  length-round nb m = length-splice nb m (take (length nb - m) (take m nb))

  -- The loop doubles its index up to 2 ^ 62, and once more to a negative one.
  double_loop_wraps :
      (k fuel : ℕ) (nb : List T) (m : ℕ)
      → m * 2 ^ k ≡ 2 ^ 62
      → 2 ^ 62 < length nb
      → k + 1 < fuel
      → double_loop fuel nb (pos m) ≡ panic
  unfolding double_loop
  double_loop_wraps k zero nb m e h f = absurd (omega arith)
  double_loop_wraps k (suc zero) nb m e h f = absurd (omega arith)
  double_loop_wraps zero (suc (suc fuel)) nb m e h f =
      let top : m ≡ 2 ^ 62 = omega (arith, e) in
      rw
        (
          lt→ltb {a = m} {b = length nb} (omega arith),
          copy_into-ok nb m (length nb) (take m nb) (omega arith) (omega arith),
          le→ltb {a = m * 2} {b = 2 ^ 63} (omega arith),
          top,
        )
        refl
  double_loop_wraps (suc k) (suc (suc fuel)) nb m e h f =
      let e' : (m * 2) * 2 ^ k ≡ 2 ^ 62 = sym (doubled_once m k) ∙ e in
      let below : m * 2 ≤ 2 ^ 62 = factor_bound (m * 2) k (2 ^ 62) e' in
      rw
        (
          lt→ltb {a = m} {b = length nb} (omega arith),
          copy_into-ok nb m (length nb) (take m nb) (omega arith) (omega arith),
          lt→ltb {a = m * 2} {b = 2 ^ 63} (omega arith),
        )
        (double_loop_wraps k (suc fuel) (splice nb m (take (length nb - m) (take m nb))) (m * 2) e'
          (omega (arith, length-round nb m)) (omega arith))

-- Repeat of a slice whose length is a power of two, by a count whose product with the length fits an
-- int and is above 2 ^ 62, panics.
pub repeat_wraps :
    {T : Type 0} (z : T) (b : List T) (count k : ℕ)
    → length b * 2 ^ k ≡ 2 ^ 62
    → 2 ^ 62 < length b * count
    → length b * count ≤ max_int
    → repeat z b (pos count) ≡ panic
repeat_wraps z b zero k e h h' = absurd (omega arith)
repeat_wraps z b (suc n) k e h h' =
    let size = length b * suc n in
    repeat-double_loop z b n h'
    ∙ double_loop_wraps k (size + 1) (splice (replicate size z) 0 (take (size - 0) b)) (length b) e
        (omega
          (arith, length-splice (replicate size z) 0 (take (size - 0) b), length-replicate size z))
        (omega (arith, exponent_bound (length b) k (2 ^ 62) e (omega arith)))
