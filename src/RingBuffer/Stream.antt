-- ===== src/RingBuffer/Stream.antt =====
-- ringbuffer.go: ReadFrom and WriteTo.
pub mod ReadFrom
pub mod WriteTo
mod Tests
use gbuf.Base.{
  ℕ, zero, suc, ◌+◌, Bool, true, false, ◌&&◌, ◌||◌, Option, none, some, List, if◌then◌else◌, Run,
  ok, out_of_fuel, ◌>>=◌, length, take, slice, splice,
}
use gbuf.Base.Int.{ℤ, pos, negsuc, ◌+ℤ◌, ◌-ℤ◌, eqb_ℤ, ltb_ℤ, leb_ℤ, index, rem, rem_ℕ}
use gbuf.Errors.{Error, some_eof, ring_filter_negative_read, ring_buffer_negative_read}
use gbuf.Streams.{Source, Sink}
use gbuf.RingBuffer.{RingBuffer}

-- The count of the items so far, the error, the buffer, and the state of the other end.
abbrev pub Outcome : Type 0 → Type 0 → Type 0
Outcome S T = ℕ × Option Error × RingBuffer T × S

-- A round of a loop returns from the function, or goes on with a count and the states.
pub data Round (S T : Type 0) : Type 0 where
  return : Outcome S T → Round S T
  continue : ℕ → RingBuffer T → S → Round S T

module _ {S T : Type 0} where
  -- The part of a round after the read, at a count that is not negative; `r` holds what was read.
  unfoldable pub after_read : RingBuffer T → ℕ → Option Error → ℕ → S → Run (Round S T)
  after_read r num err n s =
      let passes = ltb_ℤ (pos r.write) r.read && leb_ℤ r.read (pos (r.write + num)) in
      let r1 : RingBuffer T = record r { full = r.full || passes } in
      if some_eof err then ok (return (n, none, r1, s)) else elim err [
        | some e ↦ ok (return (n, some e, r1, s))
        | none ↦
            let size = length r.items in
            let fills = eqb_ℤ (pos size -ℤ (pos r.write -ℤ r.read)) (pos num) in
            let full = r1.full || fills in
            rem_ℕ (r.write + num) size >>= λ write.
            let read = if full then pos write else if fills then pos r.write else r.read in
            ok (
              continue (n + num)
                (record { full = full; write = write; read = read; items = r.items }) s)
      ]

  -- The reader was given `room` items from the write index on, and wrote `p` into them.
  unfoldable pub received : RingBuffer T → ℕ → ℕ → ℤ × Option Error × List T × S → Run (Round S T)
  unfolding after_read
  received r room n (pos m, err, p, s) =
      after_read (record r { items = splice r.items r.write (take room p) }) m err n s
  received r room n (negsuc m, err, p, s) =
      let filled : RingBuffer T = record r { items = splice r.items r.write (take room p) } in
      ok (return (n, some ring_filter_negative_read, filled, s))

module _ {S T : Type 0} (source : Source S T) where
  unfoldable pub read_round : RingBuffer T → ℕ → S → Run (Round S T)
  unfolding received
  read_round r n s = do
    free ← slice r.items r.write (length r.items)
    received r (length free) n (source s free)

  unfoldable pub read_from_loop : ℕ → RingBuffer T → ℕ → S → Run (Outcome S T)
  read_from_loop zero r n s = out_of_fuel
  read_from_loop (suc fuel) r n s = read_round r n s >>= λ round. elim round [
    | return out ↦ ok out
    | continue n' r' s' ↦ read_from_loop fuel r' n' s'
  ]

  unfoldable pub read_from : ℕ → RingBuffer T → S → Run (Outcome S T)
  read_from fuel r s = read_from_loop fuel r 0 s

module _ {S T : Type 0} where
  -- The part after the write, which moves the read index.
  unfoldable pub sent : RingBuffer T → ℕ → ℤ × Option Error × S → Run (Round S T)
  sent r n (negsuc m, err, s) = ok (return (n, some ring_buffer_negative_read, r, s))
  sent r n (pos m, err, s) = do
    read ← rem (r.read +ℤ pos m) (length r.items)
    let r' : RingBuffer T = record r { full = false; read = read }
    if some_eof err then ok (return (n + m, none, r', s)) else elim err [
      | some e ↦ ok (return (n + m, some e, r', s))
      | none ↦ ok (continue (n + m) r' s)
    ]

module _ {S T : Type 0} (sink : Sink S T) where
  -- Write `r.items[r.read:hi]`.
  unfoldable pub write_part : RingBuffer T → ℕ → ℕ → S → Run (Round S T)
  unfolding sent
  write_part r hi n s = do lo ← index r.read; part ← slice r.items lo hi; sent r n (sink s part)

  -- The default case, which the first one falls through to.
  unfoldable pub write_last : Round S T → Run (Outcome S T)
  unfolding write_part
  write_last (return out) = ok out
  write_last (continue n r s) = write_part r r.write n s >>= λ round. elim round [
    | return out ↦ ok out
    | continue n' r' s' ↦ ok (n', none, r', s')
  ]

  unfoldable pub write_to : RingBuffer T → S → Run (Outcome S T)
  write_to r s =
      if leb_ℤ (pos r.write) r.read
      then write_part r (length r.items) 0 s >>= write_last
      else write_last (continue 0 r s)
