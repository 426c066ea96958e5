-- ===== src/RingBuffer/Write.antt =====
-- ringbuffer.go: Write with its helpers, and WriteItem.
pub mod Refines
pub mod Item
pub mod Large
use gbuf.Base.{
  ℕ, ◌+◌, ◌-◌, ◌%◌, Bool, true, ◌&&◌, ◌||◌, Option, none, List, ltb, leb, ◌==◌, if◌then◌else◌, Run,
  ok, ◌>>=◌, ◌>>◌, require, length, set, drop, copy_into, slice,
}
use gbuf.Base.Int.{pos, eqb_ℤ, ltb_ℤ, leb_ℤ, rem_ℕ}
use gbuf.Errors.{Error}
use gbuf.RingBuffer.{RingBuffer}

module _ {T : Type 0} where
  unfoldable pub write_within_bounds :
      RingBuffer T → List T → ℕ → Run (ℕ × Option Error × RingBuffer T)
  write_within_bounds r p end = do
    (items, n) ← copy_into r.items r.write end p
    let full = r.full || (ltb_ℤ (pos r.write) r.read && leb_ℤ r.read (pos end))
    let read = if full then pos end else r.read
    ok (n, none, record { full = full; write = end; read = read; items = items })

  unfoldable pub write_wrapped : RingBuffer T → List T → ℕ → Run (ℕ × Option Error × RingBuffer T)
  write_wrapped r p end = do
    end_wrapped ← rem_ℕ end (length r.items)
    (items, n) ← copy_into r.items r.write (length r.items) p
    rest ← slice p n (length p)
    (items', m) ← copy_into items 0 end_wrapped rest
    let full = r.full || (ltb_ℤ (pos r.write) r.read && leb_ℤ r.read (pos end))
    let overtaken = full || leb_ℤ r.read (pos end_wrapped)
    let read = if overtaken then pos end_wrapped else r.read
    ok (n + m, none, record { full = overtaken; write = end_wrapped; read = read; items = items' })

  unfoldable pub write_within_capacity :
      RingBuffer T → List T → Run (ℕ × Option Error × RingBuffer T)
  unfolding write_within_bounds write_wrapped
  write_within_capacity r p =
      let end = r.write + length p in
      if ltb end (length r.items) then write_within_bounds r p end else write_wrapped r p end

  unfoldable pub write : RingBuffer T → List T → Run (ℕ × Option Error × RingBuffer T)
  unfolding write_within_capacity
  write r p = if ltb (length p) (length r.items) then write_within_capacity r p else do
    last ← slice p (length p - length r.items) (length p)
    (items, _) ← copy_into r.items 0 (length r.items) last
    ok (length r.items, none, record r { full = true; read = pos r.write; items = items })

  unfoldable pub write_item : RingBuffer T → T → Run (Option Error × RingBuffer T)
  write_item r item = do
    next ← rem_ℕ (r.write + 1) (length r.items)
    let moved : RingBuffer T =
        if r.full
        then record r { read = pos next }
        else if eqb_ℤ (pos next) r.read
        then record r { full = true }
        else r
    require (ltb r.write (length r.items))
    ok (none, record moved { write = next; items = set r.items r.write item })
