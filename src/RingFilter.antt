-- ===== src/RingFilter.antt =====
-- ringfilter.go: the state of RingFilter, what it reports of itself, and the operations that move
-- its indices. The process function is the caller's: it has a state of its own, which the operations
-- pass on.
pub mod Write
pub mod Read
pub mod Stream
pub mod Same
pub mod Clear
pub mod Filtered
mod Tests
use gbuf.Base.{
  ℕ, ◌+◌, ◌-◌, Bool, true, false, ◌||◌, Option, none, some, List, ltb, ◌==◌, if◌then◌else◌, Run, ok,
  panic, ◌>>=◌, length, replicate, copy_into,
}
use gbuf.Base.Int.{ℤ, pos, negsuc, ◌+ℤ◌, ◌-ℤ◌, eqb_ℤ, ltb_ℤ, leb_ℤ, index, rem, wrap_int64}
use gbuf.Errors.{Error, ring_filter_unread_item, ring_filter_invalid_whence}
use gbuf.RingBuffer.{RingBuffer, default_buffer_size, seek_start, seek_current, seek_end}

-- `func([]T) error`, on the state that it works on.
abbrev pub Filter : Type 0 → Type 0 → Type 0
Filter S T = S → List T → Option Error × S

pub record RingFilter (S T : Type 0) : Type 0 where
  pub full : Bool
  pub write : ℕ
  pub read : ℤ
  pub fn : Filter S T
  pub items : List T

module _ {S T : Type 0} where
  unfoldable pub unimplemented_filter : Filter S T
  unimplemented_filter s p = (none, s)

  -- The part of a filter that a RingBuffer has too.
  abbrev pub ring_of : RingFilter S T → RingBuffer T
  ring_of r = record { full = r.full; write = r.write; read = r.read; items = r.items }

  -- The filter with that part replaced.
  abbrev pub with_ring : RingFilter S T → RingBuffer T → RingFilter S T
  with_ring r b = record {
    full = b.full;
    write = b.write;
    read = b.read;
    fn = r.fn;
    items = b.items;
  }

  unfoldable pub cap : RingFilter S T → ℕ
  cap r = length r.items

  unfoldable pub len : RingFilter S T → Run ℤ
  len r =
      if r.full
      then ok (pos (length r.items))
      else rem (pos (length r.items) +ℤ (pos r.write -ℤ r.read)) (length r.items)

  unfoldable pub unread_item : RingFilter S T → Run (Option Error × RingFilter S T)
  unread_item r =
      if eqb_ℤ r.read (pos r.write)
      then ok (some ring_filter_unread_item, r)
      else do at ← rem (r.read -ℤ pos 1) (length r.items); ok (none, record r { read = at })

  unfoldable pub seek : RingFilter S T → ℤ → ℤ → Run (ℤ × Option Error × RingFilter S T)
  seek r offset whence =
      let to : ℤ → Run (ℤ × Option Error × RingFilter S T) = λ from.
        rem (wrap_int64 (from +ℤ offset)) (length r.items) >>= λ abs.
        ok (abs, none, record r { read = abs }) in
      if eqb_ℤ whence seek_end
      then to (pos r.write)
      else if eqb_ℤ whence seek_current || eqb_ℤ whence seek_start
      then to r.read
      else ok (pos 0, some ring_filter_invalid_whence, r)

module _ {S T : Type 0} (zero_value : T) where
  unfoldable pub new_ring_filter : ℤ → Option (Filter S T) → RingFilter S T
  unfolding unimplemented_filter
  new_ring_filter size process =
      let n : ℕ = elim size [
        | pos k ↦ (if k == 0 then default_buffer_size else k)
        | negsuc k ↦ default_buffer_size
      ] in
      let fn : Filter S T = elim process [ none ↦ unimplemented_filter | some f ↦ f ] in
      record { full = false; write = 0; read = pos 0; fn = fn; items = replicate n zero_value }

  -- Unlike that of RingBuffer, it leaves `full` as it is.
  unfoldable pub reset : RingFilter S T → RingFilter S T
  reset r = record r { write = 0; read = pos 0; items = replicate (length r.items) zero_value }

  unfoldable pub truncate : RingFilter S T → ℤ → Run (RingFilter S T)
  unfolding len reset
  truncate r n = if leb_ℤ n (pos 0) then ok (reset r) else do
    unread ← len r
    if ltb_ℤ unread n then ok (reset r) else do
      lo ← index r.read
      hi ← index (r.read +ℤ n)
      (items, _) ← copy_into r.items lo hi (replicate (hi - lo) zero_value)
      ok (record r { items = items })
