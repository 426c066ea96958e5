-- ===== src/Peek/Refines.antt =====
-- The peeks against the items of the buffer.
use gbuf.Base.{
  ℕ, ◌-◌, ◌<◌, ◌≡◌, ◌≢◌, refl, none, some, List, arith, ltb, leb, if◌then◌else◌, ok, panic, ◌>>=◌,
  length, take, drop, min, slice, slice-ok, copy_into-ok, length-take, length-drop, lt-or-le, inl,
  inr, le→leb, lt→leb, le→ltb, lt→ltb,
}
use gbuf.Base.Int.{ℤ, pos}
use gbuf.Errors.{peek_buffer_index_out_of_bounds}
use gbuf.Reader.Refines.{filled, splice-filled}
use gbuf.Buffer.{Buffer, reset}
use gbuf.Buffer.Contents.{IsWithin}
use gbuf.Buffer.Read
use gbuf.Peek.{peek, peek_from, peek_range}
use gbuf.Peek.PeekBuffer
use gbuf.Peek.PeekBuffer.{PeekBuffer}

module _ {T : Type 0} where
  -- Peek returns what Read of the same slice returns, with the same items in the slice, and keeps
  -- the offset; the mark of the last operation stays too. Of an empty buffer, which it resets, it
  -- leaves what Read leaves.
  pub peek_lem :
      (p : List T) (b : Buffer T)
      → peek p b ≡ (
          gbuf.Buffer.Read.read b p >>= λ (n, err, p', b').
          ok (n, err, p', (if leb b.size b.off then b' else b)))
  unfolding peek gbuf.Buffer.Read.read
  peek_lem p b = ground arith

  -- PeekFrom of a buffer that is not empty, at an index within its slice, copies the items from
  -- there on, as many as fit, and changes nothing. The index counts from the start of the slice, so
  -- that one below the offset gives items that were read before. An index outside is an error.
  pub peek_from_lem :
      (p : List T) (b : Buffer T) (idx : ℕ)
      → IsWithin b
      → b.off < b.size
      → peek_from (pos idx) p b ≡ (
          if ltb idx b.size
          then ok (
            min (length p) (b.size - idx),
            none,
            filled p (take (b.size - idx) (drop idx b.array)),
            b,
          )
          else ok (0, some peek_buffer_index_out_of_bounds, p, b))
  unfolding peek_from
  peek_from_lem p b idx (ho, hs, hz) h =
      let items = take (b.size - idx) (drop idx b.array) in
      let whole : length p - 0 ≡ length p = omega arith in
      let size = length-take (b.size - idx) (drop idx b.array) in
      let size' = length-drop idx b.array in
      let count : min (length p - 0) (length items) ≡ min (length p) (b.size - idx) =
        omega (arith, size, size', hs) in
      elim (lt-or-le idx b.size) [
        | inl q ↦
            rw
              (
                lt→ltb q,
                le→ltb {a = idx} {b = 0} (omega arith),
                lt→leb q,
                lt→leb h,
                slice-ok b.array idx b.size (omega arith) hs,
                copy_into-ok p 0 (length p) items (omega arith) (omega arith),
                count,
                whole,
                splice-filled p items,
              )
              refl
        | inr q ↦ rw (le→ltb q, le→ltb {a = idx} {b = 0} (omega arith), le→leb q) refl
      ]

  -- PeekRange, the function and the method, panics at any two different indices within the slice of a
  -- buffer that is not empty: it slices from the larger to the smaller one, whichever comes first.
  pub peek_range-panics :
      (p : List T) (b : Buffer T) (from to : ℕ)
      → b.off < b.size
      → from < b.size
      → to < b.size
      → from ≢ to
      → (peek_range (pos from) (pos to) p b ≡ panic)
        × (PeekBuffer.peek_range (record { buffer = b }) (pos from) (pos to) p ≡ panic)
  unfolding peek_range slice gbuf.Peek.PeekBuffer.peek_range
  peek_range-panics p b from to h hf ht other = (ground arith, ground arith)

  -- The methods of PeekBuffer, at any state, return what the functions return of its buffer, and
  -- leave what they leave, for Peek and PeekFrom.
  pub peek_buffer_lem :
      (b : Buffer T) (idx : ℤ) (p : List T)
      → (PeekBuffer.peek (record { buffer = b }) p
          ≡ (peek p b >>= λ (n, err, p', b'). ok (n, err, p', record { buffer = b' })))
        × (PeekBuffer.peek_from (record { buffer = b }) idx p
            ≡ (peek_from idx p b >>= λ (n, err, p', b'). ok (n, err, p', record { buffer = b' })))
  unfolding peek peek_from gbuf.Peek.PeekBuffer.peek gbuf.Peek.PeekBuffer.peek_from
  peek_buffer_lem b idx p = (ground arith, ground arith)
