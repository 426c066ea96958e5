-- ===== src/RingBuffer/Seek.antt =====
-- Seek: the index that it sets, and what is unread afterwards.
use gbuf.Base.{
  ℕ, zero, suc, lt→leb, lt→ltb, ◌>>=◌, ◌+◌, ◌%◌, ◌^◌, ◌≤◌, ◌<◌, ◌≡◌, refl, false, Option, none,
  some, arith, ok, length, drop, Returns, returns, Returns-of_eq, Returns-bind,
}
use gbuf.Base.Int.{ℤ, pos, negsuc, ◌+ℤ◌, sub_ℕ, rem, wrap_int64}
use native.Mathlib.Nat.{mod-lt}
use gbuf.Errors.{Error, ring_filter_invalid_whence}
use gbuf.RingBuffer.{RingBuffer, seek, seek_current}
use gbuf.RingBuffer.Contents.{
  rem-wrap, ring, wrap, unread_count, IsValid, valid, contents, Holds, length-contents,
}
use gbuf.RingBuffer.Advance.{contents-advance}

-- Strictly between `-n` and `n`.
abbrev pub IsWithin : ℕ → ℤ → Type 0
IsWithin n (pos a) = a < n
IsWithin n (negsuc a) = a + 1 < n

rem-IsWithin : (z : ℤ) (n : ℕ) → 0 < n → Returns (IsWithin n) (rem z n)
rem-IsWithin (pos a) n h = Returns-of_eq {result = pos (a % n)} (ground arith) (mod-lt a h)
rem-IsWithin (negsuc a) n h =
    Returns-of_eq {result = sub_ℕ 0 ((a + 1) % n)} (ground arith)
      (below_zero ((a + 1) % n) (mod-lt (a + 1) h))
  where
    below_zero : (c : ℕ) → c < n → IsWithin n (sub_ℕ 0 c)
    below_zero zero h' = h
    below_zero (suc c) h' = rw (lt→leb {a = suc c} {b = 0} (omega arith)) (omega arith)

-- No error, an index strictly between minus the capacity and the capacity, and a state that differs
-- by the read index only.
abbrev pub SeekSpec : {T : Type 0} → RingBuffer T → ℤ × Option Error × RingBuffer T → Type 0
SeekSpec r (abs, err, r') =
    IsWithin (length r.items) abs × (err ≡ none) × (r' ≡ record r { read = abs })

-- Seek from the start, the read index or the write index, by any offset, returns no error and an
-- index between minus the capacity and the capacity, and sets the read index to it, and nothing else.
seek-IsWithin :
    {T : Type 0} {r : RingBuffer T} (offset : ℤ) (m : ℕ)
    → IsValid r
    → m < 3
    → Returns (SeekSpec r) (seek r offset (pos m))
unfolding seek
seek-IsWithin offset m (valid f w k xs hw hk at) h = from m h
  where
    to :
        (z : ℤ)
        → Returns
            (SeekSpec (ring f w k xs))
            (rem z (length xs) >>= λ abs. ok (abs, none, record (ring f w k xs) { read = abs }))
    to z = Returns-bind (rem-IsWithin z (length xs) (omega arith)) λ abs p. returns (p, refl, refl)

    from :
        (m : ℕ) → m < 3 → Returns (SeekSpec (ring f w k xs)) (seek (ring f w k xs) offset (pos m))
    from zero h = to (wrap_int64 (pos k +ℤ offset))
    from (suc zero) h = to (wrap_int64 (pos k +ℤ offset))
    from (suc (suc zero)) h = to (wrap_int64 (pos w +ℤ offset))
    from (suc (suc (suc m))) h = absurd (omega arith)

-- Any other `whence` gives an error and changes nothing.
pub seek-invalid :
    {T : Type 0} (r : RingBuffer T) (offset : ℤ) (m : ℕ)
    → (seek r offset (pos (3 + m)) ≡ ok (pos 0, some ring_filter_invalid_whence, r))
      × (seek r offset (negsuc m) ≡ ok (pos 0, some ring_filter_invalid_whence, r))
unfolding seek
seek-invalid r offset m = ground arith

-- Seek forward from the read index, by a count of at most the unread items, on a buffer that is not
-- full, drops as many of the oldest.
pub seek-forward :
    {T : Type 0} {r : RingBuffer T} (m : ℕ)
    → IsValid r
    → r.full ≡ false
    → 0 < m
    → m ≤ length (contents r)
    → length r.items ≤ 2 ^ 62
    → Returns
        (λ (abs, err, r'). (err ≡ none) × Holds (length r.items) (drop m (contents r)) r')
        (seek r (pos m) seek_current)
unfolding seek
seek-forward m (valid f w k xs hw hk at) e h le small =
    let le' : m ≤ unread_count f w k (length xs) = rw (length-contents f w k xs hw hk at) at le in
    let to = wrap (length xs) (k + m) in
    rw
      (
        lt→ltb {a = k + m} {b = 2 ^ 63} (ground arith),
        rem-wrap (k + m) (length xs) (ground arith),
        e,
      )
      (returns (
        refl,
        (
          valid false w to xs hw (ground arith) (ground arith),
          refl,
          rw e at (contents-advance f w k xs hw hk at m h le'),
        ),
      ))
