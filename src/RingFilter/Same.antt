-- ===== src/RingFilter/Same.antt =====
-- ringfilter.go against ringbuffer.go: the operations that do not call the process function.
use gbuf.Base.{◌≡◌, refl, Bool, List, arith, ok, ◌>>=◌, replicate}
use gbuf.Base.Int.{ℤ, pos, negsuc}
use gbuf.RingBuffer
use gbuf.RingBuffer.Read
use gbuf.RingFilter.{RingFilter, ring_of, with_ring, len, seek}
use gbuf.RingFilter.Read.{read, read_item, value, next, read_items}

module _ {S T : Type 0} where
  len_lem : (r : RingFilter S T) → len r ≡ gbuf.RingBuffer.len (ring_of r)
  unfolding len gbuf.RingBuffer.len
  len_lem r = refl

  read_item_lem :
      (r : RingFilter S T)
      → read_item r ≡ (
          gbuf.RingBuffer.Read.read_item (ring_of r) >>= λ (item, err, b).
          ok (item, err, with_ring r b))
  unfolding read_item gbuf.RingBuffer.Read.read_item
  read_item_lem r = ground arith

  read_lem :
      (r : RingFilter S T) (p : List T)
      → read r p ≡ (
          gbuf.RingBuffer.Read.read (ring_of r) p >>= λ (n, err, p', b).
          ok (n, err, p', with_ring r b))
  unfolding read gbuf.RingBuffer.Read.read
  read_lem r p = ground arith

  seek_lem :
      (r : RingFilter S T) (offset whence : ℤ)
      → seek r offset whence ≡ (
          gbuf.RingBuffer.seek (ring_of r) offset whence >>= λ (abs, err, b).
          ok (abs, err, with_ring r b))
  unfolding seek gbuf.RingBuffer.seek
  seek_lem r offset whence = ground arith

  read_items_lem :
      (r : RingFilter S T) (delim : T → Bool)
      → read_items r delim ≡ (
          gbuf.RingBuffer.Read.read_items (ring_of r) delim >>= λ (line, err, b).
          ok (line, err, with_ring r b))
  unfolding read_items gbuf.RingBuffer.Read.read_items
  read_items_lem r delim = ground arith

  value_lem :
      (z : T) (r : RingFilter S T)
      → value z r
        ≡ (gbuf.RingBuffer.Read.value z (ring_of r) >>= λ (line, b). ok (line, with_ring r b))
  unfolding value gbuf.RingBuffer.Read.value
  value_lem z r = ground arith

  next_lem :
      (z : T) (r : RingFilter S T) (n : ℤ)
      → next z r n
        ≡ (gbuf.RingBuffer.Read.next z (ring_of r) n >>= λ (line, b). ok (line, with_ring r b))
  unfolding next gbuf.RingBuffer.Read.next
  next_lem z r (pos n) = ground (arith, len_lem r, value_lem z r, read_lem r (replicate n z))
  next_lem z r (negsuc n) = refl

  -- Read, ReadItem, ReadItems, Value, Next and Seek of a RingFilter, at any state, do and return what
  -- those of a RingBuffer do and return on its ring, and do not call or change the process function.
  pub reads_lem :
      (z : T) (r : RingFilter S T) (p : List T) (delim : T → Bool) (n offset whence : ℤ)
      → (read r p ≡ (
          gbuf.RingBuffer.Read.read (ring_of r) p >>= λ (n, err, p', b).
          ok (n, err, p', with_ring r b)))
        × (read_item r ≡ (
            gbuf.RingBuffer.Read.read_item (ring_of r) >>= λ (item, err, b).
            ok (item, err, with_ring r b)))
        × (read_items r delim ≡ (
            gbuf.RingBuffer.Read.read_items (ring_of r) delim >>= λ (line, err, b).
            ok (line, err, with_ring r b)))
        × (value z r
            ≡ (gbuf.RingBuffer.Read.value z (ring_of r) >>= λ (line, b). ok (line, with_ring r b)))
        × (next z r n
            ≡ (gbuf.RingBuffer.Read.next z (ring_of r) n >>= λ (line, b). ok (line, with_ring r b)))
        × (seek r offset whence ≡ (
            gbuf.RingBuffer.seek (ring_of r) offset whence >>= λ (abs, err, b).
            ok (abs, err, with_ring r b)))
  reads_lem z r p delim n offset whence = (
    read_lem r p,
    read_item_lem r,
    read_items_lem r delim,
    value_lem z r,
    next_lem z r n,
    seek_lem r offset whence,
  )
