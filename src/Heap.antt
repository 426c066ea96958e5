-- ===== src/Heap.antt =====
-- heap.go: the heap operations over a client's slice, which the code sees through the interface
-- Heap[T] (sort.Interface with Push and Pop).
pub mod Items
pub mod Order
pub mod Down
pub mod Up
pub mod Push
pub mod Pop
pub mod Fix
mod Tests
use gbuf.Base.{
  ℕ, zero, suc, ◌+◌, ◌-◌, ◌*◌, ◌/◌, Bool, true, false, ltb, ◌==◌, if◌then◌else◌, Run, ok,
  out_of_fuel, ◌>>=◌,
}
use gbuf.Base.Int.{ℤ, pos, negsuc, ◌-ℤ◌, pos_part, eqb_ℤ, ltb_ℤ, leb_ℤ}

-- The interface Heap[T]. The methods may panic, as a slice does at an index out of range.
pub record Interface (H T : Type 0) : Type 0 where
  pub len : H → ℕ
  pub less : H → ℤ → ℤ → Run Bool
  pub swap : H → ℤ → ℤ → Run H
  pub push : H → T → Run H
  pub pop : H → Run (T × H)

module _ {H T : Type 0} (heap : Interface H T) where
  -- Go's `(j - 1) / 2` is 0 at 0, as here.
  unfoldable up_loop : ℕ → H → ℕ → Run H
  up_loop zero h j = out_of_fuel
  up_loop (suc fuel) h j =
      let i = (j - 1) / 2 in
      let rise = heap.swap h (pos i) (pos j) >>= λ h'. up_loop fuel h' i in
      let step = heap.less h (pos j) (pos i) >>= λ less. if less then rise else ok h in
      if i == j then ok h else step

  unfoldable pub up : H → ℕ → Run H
  unfolding up_loop
  up h j = up_loop (j + 1) h j

  -- The smaller child; the right one, if there is one, is at `j1 + 1`.
  unfoldable smaller_child : H → ℕ → ℤ → Run ℕ
  smaller_child h j1 n =
      if ltb_ℤ (pos (j1 + 1)) n
      then heap.less h (pos (j1 + 1)) (pos j1) >>= (λ less. ok (if less then j1 + 1 else j1))
      else ok j1

  -- The index at the end, and the heap.
  unfoldable down_loop : ℕ → H → ℕ → ℤ → Run (ℕ × H)
  down_loop zero h i n = out_of_fuel
  down_loop (suc fuel) h i n =
      let sink = λ (j : ℕ). heap.swap h (pos i) (pos j) >>= λ h'. down_loop fuel h' j n in
      let step : Run (ℕ × H) = do
        j ← smaller_child h (2 * i + 1) n
        less ← heap.less h (pos j) (pos i)
        elim less [ true ↦ sink j | false ↦ ok (i, h) ]
      in if leb_ℤ n (pos (2 * i + 1)) then ok (i, h) else step

  unfoldable pub down : H → ℕ → ℤ → Run (Bool × H)
  unfolding down_loop smaller_child
  down h i0 n = down_loop (pos_part n + 1) h i0 n >>= λ (i, h'). ok (ltb i0 i, h')

  -- The loop of Init, from `i - 1` down to 0.
  unfoldable pub init_loop : ℕ → H → ℤ → Run H
  unfolding down
  init_loop zero h n = ok h
  init_loop (suc i) h n = down h i n >>= λ (_, h'). init_loop i h' n

  unfoldable pub init : H → Run H
  unfolding init_loop
  init h = init_loop (heap.len h / 2) h (pos (heap.len h))

  unfoldable pub push : H → T → Run H
  unfolding up
  push h x = do h' ← heap.push h x; up h' (heap.len h' - 1)

  unfoldable pub pop : H → Run (T × H)
  unfolding down
  pop h = do
    let n = pos (heap.len h) -ℤ pos 1
    h1 ← heap.swap h (pos 0) n
    (_, h2) ← down h1 0 n
    heap.pop h2

  -- `if !down(h, i, n) { up(h, i) }`
  unfoldable pub fix_to : H → ℕ → ℤ → Run H
  unfolding up down
  fix_to h i n = down h i n >>= λ (moved, h'). if moved then ok h' else up h' i

  unfoldable pub remove : H → ℕ → Run (T × H)
  unfolding fix_to
  remove h i = do
    let n = pos (heap.len h) -ℤ pos 1
    let moved : Run H = heap.swap h (pos i) n >>= λ h1. fix_to h1 i n
    h2 ← if eqb_ℤ n (pos i) then ok h else moved
    heap.pop h2

  unfoldable pub fix : H → ℕ → Run H
  unfolding fix_to
  fix h i = fix_to h i (pos (heap.len h))
