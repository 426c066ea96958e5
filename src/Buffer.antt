-- ===== src/Buffer.antt =====
-- buffer.go: Buffer, a growing buffer over a slice. `array` is what the slice's backing array holds
-- from the slice's start on, up to its capacity, and `size` the slice's length. An operation returns
-- what the Go method returns, and the new state.
pub mod Read
pub mod Write
pub mod Contents
pub mod Truncate
pub mod Stream
mod Tests
use gbuf.Base.{
  ℕ, ◌+◌, ◌-◌, ◌*◌, ◌/◌, ◌^◌, Bool, true, false, not, List, [], ltb, leb, ◌==◌, ◌&&◌, ◌||◌,
  if◌then◌else◌, Run, ok, panic, ◌>>=◌, ◌>>◌, require, length, replicate, copy_into, slice,
}
use gbuf.Base.Int.{ℤ, pos, negsuc, max_int}

pub record Buffer (T : Type 0) : Type 0 where
  pub array : List T
  pub size : ℕ
  pub off : ℕ
  pub is_reading : Bool
  -- Whether the slice is nil.
  pub is_nil : Bool

abbrev pub small_buffer_size : ℕ
small_buffer_size = 64

module _ {T : Type 0} where
  -- `NewBuffer(nil)` is the case of `[]` with `is_nil` set; the buffer takes the slice `buf` over.
  unfoldable pub new_buffer : List T → ℕ → Bool → Buffer T
  new_buffer array size is_nil = record {
    array = array;
    size = size;
    off = 0;
    is_reading = false;
    is_nil = is_nil;
  }

  unfoldable pub value : Buffer T → Run (List T)
  value b = slice b.array b.off b.size

  unfoldable pub empty : Buffer T → Bool
  empty b = leb b.size b.off

  -- `off` never passes `size` (Contents), so the difference is that of the integers.
  unfoldable pub len : Buffer T → ℕ
  len b = b.size - b.off

  unfoldable pub cap : Buffer T → ℕ
  cap b = length b.array

  unfoldable pub reset : Buffer T → Buffer T
  reset b = record b { size = 0; off = 0; is_reading = false }

  unfoldable pub truncate : Buffer T → ℤ → Run (Buffer T)
  unfolding reset len
  truncate b (negsuc n) = panic
  truncate b (pos n) =
      if n == 0
      then ok (reset b)
      else if ltb (len b) n
      then panic
      else ok (record b { size = b.off + n; is_reading = false })

  -- The index where the new items start, whether there is room for them, and the state.
  unfoldable pub try_grow_by_reslice : Buffer T → ℕ → ℕ × Bool × Buffer T
  try_grow_by_reslice b n =
      if leb (b.size + n) (length b.array)
      then (b.size, true, record b { size = b.size + n })
      else (0, false, b)

-- `append` of `c` items to nil makes an array of `rounded c` items.
module _ {T : Type 0} (zero_value : T) (rounded : ℕ → ℕ) where
  -- The array of the result, whose slice is as long as `b`; `cap_b` is the capacity of `b`.
  unfoldable pub grow_slice : List T → ℕ → ℕ → Run (List T)
  grow_slice b cap_b n =
      let c : ℕ = if ltb (length b + n) (2 * cap_b) then 2 * cap_b else length b + n in
      copy_into (replicate (rounded c) zero_value) 0 c b >>= λ (array, _). ok array

  -- The last part of `grow`, where a reslice does not do.
  unfoldable pub regrow : Buffer T → ℕ → ℕ → Run (ℕ × Buffer T)
  unfolding grow_slice
  regrow b m n = do
    unread ← slice b.array b.off b.size
    let c = length b.array
    let slide : Run (List T) = copy_into b.array 0 b.size unread >>= (λ (array, _). ok array)
    let bigger : Run (List T) =
        if ltb max_int (c + c + n) then panic else grow_slice unread (c - b.off) (b.off + n)
    array ← if leb (n + m) (c / 2) then slide else bigger
    require (leb (m + n) (length array))
    ok (m, record b { array = array; size = m + n; off = 0; is_nil = false })

  unfoldable pub grow : Buffer T → ℕ → Run (ℕ × Buffer T)
  unfolding len reset try_grow_by_reslice regrow
  grow b0 n =
      let m = len b0 in
      let b : Buffer T = if m == 0 && not (b0.off == 0) then reset b0 else b0 in
      let (i, fits, b') = try_grow_by_reslice b n in
      if fits
      then ok (i, b')
      else if b.is_nil && leb n small_buffer_size
      then ok
          (0, record b { array = replicate small_buffer_size zero_value; size = n; is_nil = false })
      else regrow b m n

  unfoldable pub grow_by : Buffer T → ℤ → Run (Buffer T)
  unfolding grow
  grow_by b (negsuc n) = panic
  grow_by b (pos n) = grow b n >>= λ (m, b'). ok (record b' { size = m })
