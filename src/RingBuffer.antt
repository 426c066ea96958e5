-- ===== src/RingBuffer.antt =====
-- ringbuffer.go: the state of RingBuffer, what it reports of itself, and the operations that move
-- its indices. An operation returns what the Go method returns, and the new state.
pub mod Write
pub mod Read
pub mod Contents
pub mod Stored
pub mod Advance
pub mod Clear
pub mod Seek
pub mod Stream
pub mod Queue
mod Tests
use gbuf.Base.{
  ℕ, ◌+◌, ◌-◌, ◌<◌, Bool, true, false, ◌&&◌, ◌||◌, Option, none, some, List, ltb, leb, ◌==◌,
  if◌then◌else◌, Run, ok, panic, ◌>>=◌, ◌>>◌, length, replicate, copy_into,
}
use gbuf.Base.Int.{ℤ, pos, negsuc, ◌+ℤ◌, ◌-ℤ◌, eqb_ℤ, ltb_ℤ, leb_ℤ, index, rem, wrap_int64}
use gbuf.Errors.{Error, ring_buffer_unread_item, ring_filter_invalid_whence}

-- `write` is only ever set to a length or a remainder; `read` can become negative.
pub record RingBuffer (T : Type 0) : Type 0 where
  pub full : Bool
  pub write : ℕ
  pub read : ℤ
  pub items : List T

abbrev pub default_buffer_size : ℕ
default_buffer_size = 256

-- `whence` of a Seek.
abbrev pub seek_start : ℤ
seek_start = pos 0

abbrev pub seek_current : ℤ
seek_current = pos 1

abbrev pub seek_end : ℤ
seek_end = pos 2

module _ {T : Type 0} where
  unfoldable pub cap : RingBuffer T → ℕ
  cap r = length r.items

  unfoldable pub len : RingBuffer T → Run ℤ
  len r =
      if r.full
      then ok (pos (length r.items))
      else rem (pos (length r.items) +ℤ (pos r.write -ℤ r.read)) (length r.items)

  unfoldable pub unread_item : RingBuffer T → Run (Option Error × RingBuffer T)
  unread_item r =
      if r.full
      then ok (some ring_buffer_unread_item, r)
      else do read ← rem (r.read -ℤ pos 1) (length r.items); ok (none, record r { read = read })

  -- `offset` is an int64, and so is the sum with the index.
  unfoldable pub seek : RingBuffer T → ℤ → ℤ → Run (ℤ × Option Error × RingBuffer T)
  seek r offset whence =
      let to : ℤ → Run (ℤ × Option Error × RingBuffer T) = λ from.
        rem (wrap_int64 (from +ℤ offset)) (length r.items) >>= λ abs.
        ok (abs, none, record r { read = abs }) in
      if eqb_ℤ whence seek_end
      then to (pos r.write)
      else if eqb_ℤ whence seek_current || eqb_ℤ whence seek_start
      then to r.read
      else ok (pos 0, some ring_filter_invalid_whence, r)

module _ {T : Type 0} (zero_value : T) where
  unfoldable pub new_ring_buffer : ℤ → RingBuffer T
  new_ring_buffer size =
      let n : ℕ = elim size [
        | pos k ↦ (if k == 0 then default_buffer_size else k)
        | negsuc k ↦ default_buffer_size
      ] in
      record { full = false; write = 0; read = pos 0; items = replicate n zero_value }

  unfoldable pub reset : RingBuffer T → RingBuffer T
  reset r = record {
    full = false;
    write = 0;
    read = pos 0;
    items = replicate (length r.items) zero_value;
  }

  -- `clear(r.items[r.read : r.read+n])` sets those items to the zero value.
  unfoldable pub truncate : RingBuffer T → ℤ → Run (RingBuffer T)
  unfolding len reset
  truncate r n = if leb_ℤ n (pos 0) then ok (reset r) else do
    unread ← len r
    if ltb_ℤ unread n then ok (reset r) else do
      lo ← index r.read
      hi ← index (r.read +ℤ n)
      (items, _) ← copy_into r.items lo hi (replicate (hi - lo) zero_value)
      ok (record r { items = items })
