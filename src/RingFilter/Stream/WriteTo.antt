-- ===== src/RingFilter/Stream/WriteTo.antt =====
-- ringfilter.go: WriteTo against that of ringbuffer.go.
use gbuf.Base.{ℕ, ◌≡◌, refl, Bool, Option, List, arith, Run, ok, panic, out_of_fuel, ◌>>=◌, length}
use gbuf.Base.Int.{ℤ, pos}
use gbuf.Errors.{Error}
use gbuf.Streams.{Sink}
use gbuf.RingBuffer.{RingBuffer}
use gbuf.RingBuffer.Stream
use gbuf.RingFilter.{Filter}
use gbuf.RingFilter.Stream.{Outcome, Round, return, continue, write_part, write_last, write_to}

-- A writer that never returns a negative count.
abbrev pub writer : {S T : Type 0} → (S → List T → ℕ × Option Error × S) → Sink S T
writer counted s b = (pos (counted s b).0, (counted s b).1, (counted s b).2)

module _ {F S T : Type 0} (fn : Filter F T) (t : F) where
  -- The filter's result at that of the RingBuffer.
  abbrev pub with_outcome : gbuf.RingBuffer.Stream.Outcome S T → Outcome F S T
  with_outcome (n, err, b, s) = (
    n,
    err,
    record { full = b.full; write = b.write; read = b.read; fn = fn; items = b.items },
    t,
    s,
  )

  abbrev with_round : gbuf.RingBuffer.Stream.Round S T → Round F S T
  with_round (gbuf.RingBuffer.Stream.return out) = return (with_outcome out)
  with_round (gbuf.RingBuffer.Stream.continue n b s) =
      continue n
        (record { full = b.full; write = b.write; read = b.read; fn = fn; items = b.items }) t s

  module _ (counted : S → List T → ℕ × Option Error × S) where
    write_part_lem :
        (f : Bool) (w : ℕ) (k : ℤ) (xs : List T) (hi n : ℕ) (s : S)
        → write_part
            (writer counted)
            (record { full = f; write = w; read = k; fn = fn; items = xs })
            hi
            n
            t
            s
          ≡ (gbuf.RingBuffer.Stream.write_part
                (writer counted)
                (record { full = f; write = w; read = k; items = xs })
                hi
                n
                s
              >>= λ round. ok (with_round round))
    unfolding write_part gbuf.RingBuffer.Stream.write_part
    write_part_lem f w k xs hi n s = ground arith

    write_last_lem :
        (round : gbuf.RingBuffer.Stream.Round S T)
        → write_last (writer counted) (with_round round) ≡ (
            gbuf.RingBuffer.Stream.write_last (writer counted) round >>= λ out.
            ok (with_outcome out))
    unfolding write_last gbuf.RingBuffer.Stream.write_last
    write_last_lem (gbuf.RingBuffer.Stream.return out) = refl
    write_last_lem (gbuf.RingBuffer.Stream.continue n b s) =
        rw (write_part_lem b.full b.write b.read b.items b.write n s) (ground arith)

    after_first :
        (first : Run (gbuf.RingBuffer.Stream.Round S T))
        → (first >>= (λ round. ok (with_round round)) >>= write_last (writer counted)) ≡ (
            first >>= gbuf.RingBuffer.Stream.write_last (writer counted) >>= λ out.
            ok (with_outcome out))
    after_first panic = refl
    after_first out_of_fuel = refl
    after_first (ok round) = write_last_lem round

    pub write_to_lem :
        (f : Bool) (w : ℕ) (k : ℤ) (xs : List T) (s : S)
        → write_to
            (writer counted)
            (record { full = f; write = w; read = k; fn = fn; items = xs })
            t
            s
          ≡ (gbuf.RingBuffer.Stream.write_to
                (writer counted)
                (record { full = f; write = w; read = k; items = xs })
                s
              >>= λ out. ok (with_outcome out))
    unfolding write_to gbuf.RingBuffer.Stream.write_to
    write_to_lem f w k xs s =
        let b : RingBuffer T = record { full = f; write = w; read = k; items = xs } in
        ground (
          arith,
          write_part_lem f w k xs (length xs) 0 s,
          after_first (gbuf.RingBuffer.Stream.write_part (writer counted) b (length xs) 0 s),
          write_last_lem (gbuf.RingBuffer.Stream.continue 0 b s),
        )
