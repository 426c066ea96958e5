-- ===== src/Repeat.antt =====
-- items.go: Repeat, which doubles what it has copied until the result is full.
pub mod Refines
pub mod Wraps
mod Tests
use gbuf.Base.{
  ℕ, zero, suc, ◌+◌, ◌-◌, ◌*◌, ◌/◌, ◌%◌, ◌^◌, Bool, true, false, List, [], ltb, ◌==◌, if◌then◌else◌,
  Run, ok, panic, out_of_fuel, ◌>>=◌, length, take, replicate, copy_into,
}
use gbuf.Base.Int.{ℤ, pos, negsuc, sub_ℕ, eqb_ℤ, wrap_int64}

-- `n*count/count` of Go's int, where `n*count` wraps around and `/` rounds towards 0.
abbrev pub wrapped_quotient : ℕ → ℕ → ℤ
wrapped_quotient n count =
    let p = (n * count) % 2 ^ 64 in
    if ltb p (2 ^ 63) then pos (p / count) else sub_ℕ 0 ((2 ^ 64 - p) / count)

module _ {T : Type 0} where
  -- `for bp < len(nb)`, where `bp *= 2` wraps around. A negative `bp` is below the length, and
  -- `nb[bp:]` panics.
  unfoldable pub double_loop : ℕ → List T → ℤ → Run (List T)
  double_loop zero nb bp = out_of_fuel
  double_loop (suc fuel) nb (negsuc n) = panic
  double_loop (suc fuel) nb (pos bp) =
      let step = copy_into nb bp (length nb) (take bp nb) >>= λ (nb', _).
      double_loop fuel nb' (wrap_int64 (pos (bp * 2))) in
      if ltb bp (length nb) then step else ok nb

module _ {T : Type 0} (zero_value : T) where
  -- The loop has enough fuel with one more than the length of the result.
  unfoldable pub repeat : List T → ℤ → Run (List T)
  unfolding double_loop
  repeat b (negsuc n) = panic
  repeat b (pos count) =
      let size = length b * count in
      let filled : Run (List T) = do
        (nb, bp) ← copy_into (replicate size zero_value) 0 size b
        double_loop (size + 1) nb (pos bp)
      in if count == 0
        then ok []
        else if eqb_ℤ (wrapped_quotient (length b) count) (pos (length b))
        then filled
        else panic
