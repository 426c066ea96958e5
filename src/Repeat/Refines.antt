-- ===== src/Repeat/Refines.antt =====
-- Repeat against the list repeated.
use native.Mathlib.Nat.{mod-eq_of_lt, mul-div_cancel}
use gbuf.Base.{
  ℕ, zero, suc, ◌+◌, ◌-◌, ◌*◌, ◌%◌, ◌^◌, ◌≤◌, ◌<◌, ◌≡◌, refl, true, false, List, [], ◌++◌, arith,
  ◌==◌, length, get_elem?, take, replicate, splice, copy_into-ok, length-append, length-replicate,
  lt→ltb, min,
}
use gbuf.Base.Int.{pos, eqb_ℤ, max_int}
use gbuf.Repeat.{double_loop, repeat, wrapped_quotient}

module _ {T : Type 0} where
  -- `count` copies of the list, one after the other.
  abbrev pub copies : ℕ → List T → List T
  copies zero b = []
  copies (suc count) b = b ++ copies count b

  length-copies : (count : ℕ) (b : List T) → length (copies count b) ≡ length b * count
  length-copies zero b = omega arith
  length-copies (suc count) b =
      omega (arith, length-append b (copies count b), length-copies count b)

  -- An entry is the one `m` before it.
  abbrev HasPeriod : List T → ℕ → Type 0
  HasPeriod r m = (i : ℕ) → m ≤ i → i < length r → get_elem? r i ≡ get_elem? r (i - m)

  module _ (r : List T) where
    -- The first `m` entries of `nb` are those of `r`.
    abbrev Agrees : List T → ℕ → Type 0
    Agrees nb m = (i : ℕ) → i < m → i < length r → get_elem? nb i ≡ get_elem? r i

-- The quotient that Repeat tests gives the length back just where the product fits an int.
wrapped_quotient_fits :
    (n count : ℕ)
    → 0 < count
    → n * count ≤ max_int
    → eqb_ℤ (wrapped_quotient n count) (pos n) ≡ true
wrapped_quotient_fits n count p h =
    let small : (n * count) % 2 ^ 64 ≡ n * count = mod-eq_of_lt (omega arith) in
    let back = mul-div_cancel n p in
    rw (small, lt→ltb {a = n * count} {b = 2 ^ 63} (omega arith), back) (ground arith)

-- What Repeat does where the product fits an int: it copies the slice once and runs the loop.
pub repeat-double_loop :
    {T : Type 0} (z : T) (b : List T) (n : ℕ)
    → length b * suc n ≤ max_int
    → repeat z b (pos (suc n))
      ≡ double_loop
          (length b * suc n + 1)
          (splice (replicate (length b * suc n) z) 0 (take (length b * suc n - 0) b))
          (pos (length b))
unfolding repeat
repeat-double_loop z b n h =
    let count = suc n in
    let size = length b * count in
    let length_zeros = length-replicate size z in
    let room : length b ≤ size =
      omega (arith, length-copies count b, length-append b (copies n b)) in
    let positive : (count == 0) ≡ false = ground arith in
    let copied : min (size - 0) (length b) ≡ length b = omega arith in
    let fits = wrapped_quotient_fits (length b) count (omega arith) h in
    rw
      (
        fits,
        copy_into-ok (replicate size z) 0 size b (omega arith) (omega (arith, length_zeros)),
        copied,
        positive,
      )
      refl
