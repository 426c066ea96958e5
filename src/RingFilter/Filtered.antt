-- ===== src/RingFilter/Filtered.antt =====
-- ringfilter.go against ringbuffer.go: the writes, which call the process function.
use gbuf.Base.{
  ◌<◌, ◌++◌, Returns, returns, Returns-bind, lt→leb, ℕ, ◌≡◌, refl, Option, none, some, List, [],
  ◌∷◌, arith, ok, ◌>>=◌, length, leb, if◌then◌else◌,
}
use gbuf.Errors.{Error}
use gbuf.RingBuffer.{RingBuffer}
use gbuf.RingBuffer.Write
use gbuf.RingBuffer.Write.Refines.{write_refines}
use gbuf.RingBuffer.Contents.{IsValid, contents, last_n, Holds}
use gbuf.RingFilter.{RingFilter, ring_of, with_ring}
use gbuf.RingFilter.Write.{WriteRun, write, write_item}

module _ {S T : Type 0} where
  -- What Write returns of the RingBuffer's Write and the process function: the count is lost where
  -- the function fails on a slice that does not fit.
  abbrev pub filtered :
      RingFilter S T → List T → ℕ → Option Error × S → Option Error × RingBuffer T → WriteRun S T
  filtered r p n (none, s') (err', b) = ok (n, none, with_ring r b, s')
  filtered r p n (some e, s') (err', b) =
      ok ((if leb (length r.items) (length p) then 0 else n), some e, with_ring r b, s')

  pub write_lem :
      (r : RingFilter S T) (p : List T) (s : S)
      → write r p s ≡ (
          gbuf.RingBuffer.Write.write (ring_of r) p >>= λ (n, err, b).
          filtered r p n (r.fn s p) (err, b))
  unfolding write gbuf.RingBuffer.Write.write
  write_lem r p s = ground arith

  pub write_item_lem :
      (r : RingFilter S T) (item : T) (s : S)
      → write_item r item s ≡ (
          gbuf.RingBuffer.Write.write_item (ring_of r) item >>= λ (err, b).
          ok ((r.fn s (item ∷ [])).0, with_ring r b, (r.fn s (item ∷ [])).1))
  unfolding write_item gbuf.RingBuffer.Write.write_item
  write_item_lem r item s = ground arith

  -- What Write owes its caller, at the process function's answer.
  abbrev pub WriteSpec :
      RingFilter S T → List T → Option Error × S → ℕ × Option Error × RingFilter S T × S → Type 0
  WriteSpec r p answer (n, err, r', s') =
      (n ≡ length p)
      × ((err, s') ≡ answer)
      × Holds (length r.items) (last_n (length r.items) (contents (ring_of r) ++ p)) (ring_of r')

  filtered-Returns :
      (r : RingFilter S T) (p : List T) (answer : Option Error × S) (err : Option Error)
      (b : RingBuffer T)
      → length p < length r.items
      → Holds (length r.items) (last_n (length r.items) (contents (ring_of r) ++ p)) b
      → Returns (WriteSpec r p answer) (filtered r p (length p) answer (err, b))
  filtered-Returns r p (none, s') err b h holds = returns (refl, refl, holds)
  filtered-Returns r p (some e, s') err b h holds = rw (lt→leb h) (returns (refl, refl, holds))

  -- A Write of fewer items than the capacity calls the process function once, with the slice, and
  -- returns the slice's length and the function's error. Whatever that is, it leaves the last items
  -- of the unread ones followed by the written ones, as many as the capacity allows.
  pub filter_write_refines :
      (r : RingFilter S T) (p : List T) (s : S)
      → IsValid (ring_of r)
      → length p < length r.items
      → Returns (WriteSpec r p (r.fn s p)) (write r p s)
  filter_write_refines r p s v h = rw (write_lem r p s) (
      Returns-bind (write_refines p v h) λ (n, err, b) (count, no_error, holds).
        rw count (filtered-Returns r p (r.fn s p) err b h holds))
