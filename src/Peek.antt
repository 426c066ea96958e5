-- ===== src/Peek.antt =====
-- peek.go: Peek, PeekFrom and PeekRange of a buffer, which may be nil.
pub mod PeekBuffer
pub mod Refines
mod Tests
use gbuf.Base.{
  ℕ, zero, suc, ◌+◌, ◌-◌, ◌/◌, Bool, true, false, ◌||◌, Option, none, some, List, ltb, ◌==◌,
  if◌then◌else◌, Run, ok, panic, ◌>>=◌, length, get_elem?, set, copy_into, slice,
}
use gbuf.Base.Int.{ℤ, pos, eqb_ℤ, ltb_ℤ, leb_ℤ, index}
use gbuf.Errors.{Error, eof, index_out_of_bounds, peek_buffer_index_out_of_bounds}
use gbuf.Buffer.{Buffer, empty, reset}

-- The results are n and err, what the slice `p` holds after the call, and the buffer.
abbrev pub PeekRun : Type 0 → Type 0
PeekRun T = Run (ℕ × Option Error × List T × Buffer T)

module _ {T : Type 0} where
  -- The loop that swaps `p[i]` and `p[j]`, for `k` more rounds.
  unfoldable pub reverse_loop : ℕ → ℕ → ℕ → List T → List T
  reverse_loop zero i j p = p
  reverse_loop (suc k) i j p =
      let swapped : List T = elim (get_elem? p i) [
        | none ↦ p
        | some x ↦ elim (get_elem? p j) [ none ↦ p | some y ↦ set (set p i y) j x ]
      ] in
      reverse_loop k (i + 1) (j - 1) swapped

  -- The case of an empty buffer, which all of them share.
  unfoldable pub peek_empty : List T → Buffer T → PeekRun T
  unfolding reset
  peek_empty p b = ok (0, (if length p == 0 then none else some eof), p, reset b)

  unfoldable pub peek : List T → Buffer T → PeekRun T
  unfolding empty peek_empty
  peek p b = if empty b then peek_empty p b else (do
    unread ← slice b.array b.off b.size
    (p', n) ← copy_into p 0 (length p) unread
    ok (n, none, p', b))

  unfoldable pub peek_from : ℤ → List T → Buffer T → PeekRun T
  unfolding empty peek_empty
  peek_from idx p b =
      if ltb_ℤ idx (pos 0) || leb_ℤ (pos b.size) idx
      then ok (0, some peek_buffer_index_out_of_bounds, p, b)
      else if empty b
      then peek_empty p b
      else (do
        lo ← index idx
        items ← slice b.array lo b.size
        (p', n) ← copy_into p 0 (length p) items
        ok (n, none, p', b))

  -- The part of PeekRange past its tests, with the bounds as they are then; `b.buf[to:from]`.
  unfoldable pub copy_range : ℤ → ℤ → Bool → List T → Buffer T → PeekRun T
  unfolding empty peek_empty reverse_loop
  copy_range from to invert p b = if empty b then peek_empty p b else (do
    lo ← index to
    hi ← index from
    items ← slice b.array lo hi
    (p', n) ← copy_into p 0 (length p) items
    ok (n, none, (if invert then reverse_loop (length p' / 2) 0 (length p' - 1) p' else p'), b))

  -- The error wraps the one here.
  unfoldable pub peek_range : ℤ → ℤ → List T → Buffer T → PeekRun T
  unfolding copy_range
  peek_range from to p b =
      if eqb_ℤ from to
      then ok (0, none, p, b)
      else if ltb_ℤ from (pos 0) || leb_ℤ (pos b.size) from
      then ok (0, some index_out_of_bounds, p, b)
      else if ltb_ℤ to (pos 0) || leb_ℤ (pos b.size) to
      then ok (0, some index_out_of_bounds, p, b)
      else if ltb_ℤ to from
      then copy_range to from true p b
      else copy_range from to false p b

  -- The three take a pointer, and return `0, nil` at a nil one.
  unfoldable pub or_nil :
      (Buffer T → PeekRun T)
      → List T
      → Option (Buffer T)
      → Run (ℕ × Option Error × List T × Option (Buffer T))
  or_nil f p none = ok (0, none, p, none)
  or_nil f p (some b) = f b >>= λ (n, err, p', b'). ok (n, err, p', some b')
