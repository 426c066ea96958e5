-- ===== src/Peek/PeekBuffer.antt =====
-- peek_buffer.go: PeekBuffer, a Buffer with the three operations as methods.
use gbuf.Base.{
  ℕ, Bool, true, false, ◌||◌, Option, none, some, List, ◌==◌, if◌then◌else◌, Run, ok, ◌>>=◌, length,
  copy_into, slice, ◌/◌, ◌-◌,
}
use gbuf.Base.Int.{ℤ, pos, eqb_ℤ, ltb_ℤ, leb_ℤ, index}
use gbuf.Errors.{Error, eof, peek_buffer_index_out_of_bounds}
use gbuf.Buffer.{Buffer, empty, reset, new_buffer}
use gbuf.Peek.{reverse_loop}

pub record PeekBuffer (T : Type 0) : Type 0 where
  pub buffer : Buffer T

-- The results are n and err, what the slice `p` holds after the call, and the new state.
abbrev pub PeekRun : Type 0 → Type 0
PeekRun T = Run (ℕ × Option Error × List T × PeekBuffer T)

module _ {T : Type 0} where
  unfoldable pub new_peek_buffer : List T → ℕ → Bool → PeekBuffer T
  unfolding new_buffer
  new_peek_buffer array size is_nil = record { buffer = new_buffer array size is_nil }

  unfoldable pub as_peek_buffer : Buffer T → PeekBuffer T
  as_peek_buffer buf = record { buffer = buf }

  -- The case of an empty buffer, which all of them share.
  unfoldable pub peek_empty : List T → PeekBuffer T → PeekRun T
  unfolding reset
  peek_empty p b =
      ok (0, (if length p == 0 then none else some eof), p, record { buffer = reset b.buffer })

  unfoldable pub peek : PeekBuffer T → List T → PeekRun T
  unfolding empty peek_empty
  peek b p =
      let buf = b.buffer in
      if empty buf then peek_empty p b else (do
        unread ← slice buf.array buf.off buf.size
        (p', n) ← copy_into p 0 (length p) unread
        ok (n, none, p', b))

  unfoldable pub peek_from : PeekBuffer T → ℤ → List T → PeekRun T
  unfolding empty peek_empty
  peek_from b idx p =
      let buf = b.buffer in
      if ltb_ℤ idx (pos 0) || leb_ℤ (pos buf.size) idx
      then ok (0, some peek_buffer_index_out_of_bounds, p, b)
      else if empty buf
      then peek_empty p b
      else (do
        lo ← index idx
        items ← slice buf.array lo buf.size
        (p', n) ← copy_into p 0 (length p) items
        ok (n, none, p', b))

  -- The part of PeekRange past its tests, with the bounds as they are then.
  unfoldable pub copy_range : PeekBuffer T → ℤ → ℤ → Bool → List T → PeekRun T
  unfolding empty peek_empty reverse_loop
  copy_range b from to invert p =
      let buf = b.buffer in
      if empty buf then peek_empty p b else (do
        lo ← index to
        hi ← index from
        items ← slice buf.array lo hi
        (p', n) ← copy_into p 0 (length p) items
        ok (n, none, (if invert then reverse_loop (length p' / 2) 0 (length p' - 1) p' else p'), b))

  unfoldable pub peek_range : PeekBuffer T → ℤ → ℤ → List T → PeekRun T
  unfolding copy_range
  peek_range b from to p =
      if eqb_ℤ from to
      then ok (0, none, p, b)
      else if ltb_ℤ from (pos 0) || leb_ℤ (pos b.buffer.size) from
      then ok (0, some peek_buffer_index_out_of_bounds, p, b)
      else if ltb_ℤ to (pos 0) || leb_ℤ (pos b.buffer.size) to
      then ok (0, some peek_buffer_index_out_of_bounds, p, b)
      else if ltb_ℤ to from
      then copy_range b to from true p
      else copy_range b from to false p
