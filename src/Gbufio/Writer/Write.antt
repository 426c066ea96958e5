-- ===== src/Gbufio/Writer/Write.antt =====
-- Write of a Writer, for a writer that does what the interface asks.
use gbuf.Base.{
  ℕ, suc, ◌+◌, ◌-◌, ◌≤◌, ◌<◌, ◌≡◌, refl, sym, ap, ◌∙◌, ◌⊎◌, inl, inr, Option, none, some, List,
  ◌++◌, arith, ok, length, take, drop, min, splice, slice-ok, slice, copy_into-ok, length-drop,
  take_all, lt-or-le, lt→ltb, le→ltb, pos→==, Returns, returns, Returns-map, Returns-bind_two,
  ◌>>=◌,
}
use mathlib.Core.List.{append-nil, append_assoc}
use gbuf.Base.Pointwise.{length-splice}
use gbuf.Base.Int.{pos, ◌-ℤ◌}
use gbuf.Errors.{Error}
use gbuf.Streams.{Sink}
use gbuf.Gbufio.Writer.{Writer, flush, write_round, write_rest, write_loop, write, overflows}
use gbuf.Gbufio.Writer.Rounds.{appended, WriteSpec, continued, stopped}
use gbuf.Gbufio.Writer.Flush.{Honest, writer, IsWithin, flush_lem}

module _ {S T : Type 0} {sink : Sink S T} {out : S → List T} (honest : Honest sink out) where
  -- A round of the loop.
  write_loop_round :
      (xs : List T) (k : ℕ) (p : List T) (nn fuel : ℕ) (s : S)
      → length xs - k < length p
      → k ≤ length xs
      → write_loop (suc fuel) (writer none xs k sink) p nn s ≡ (do
        (n, b', s') ← write_round (writer none xs k sink) p s
        p' ← slice p n (length p)
        write_loop fuel b' p' (nn + n) s')
  unfolding write_loop overflows
  write_loop_round xs k p nn fuel s long hk =
      let room : (pos (length xs) -ℤ pos k) ≡ pos (length xs - k) = ground arith in
      rw (room, lt→ltb long) refl

  rest_lem :
      (xs : List T) (k : ℕ) (p : List T) (nn : ℕ) (s : S)
      → k ≤ length xs
      → length p ≤ length xs - k
      → Returns
          (WriteSpec out (writer none xs k sink) p nn s)
          (write_rest (writer none xs k sink) p nn s)
  unfolding write_rest
  rest_lem xs k p nn s hk fits =
      let n = min (length xs - k) (length p) in
      let all : nn + n - nn ≡ n = omega arith in
      let size = length-splice xs k (take (length xs - k) p) in
      rw (copy_into-ok xs k (length xs) p hk (omega arith)) (
        returns (
          omega arith,
          omega arith,
          rw all (
              ap (λ c. out s ++ c) (appended xs p k hk)
              ∙ sym (append_assoc (out s) (take k xs) (take n p))),
          (refl, omega (arith, size)),
          size,
          refl,
          refl,
          inl (refl, omega arith),
        ))

  -- The loop ends at an error.
  failed :
      (b : Writer S T) (p : List T) (nn fuel : ℕ) (s : S) (e : Error)
      → b.err ≡ some e
      → write_loop (suc fuel) b p nn s ≡ ok (nn, some e, b, s)
  unfolding write_loop
  failed b p nn fuel s e h = rw h refl

  fitting :
      (xs : List T) (k : ℕ) (p : List T) (nn fuel : ℕ) (s : S)
      → k ≤ length xs
      → length p ≤ length xs - k
      → Returns
          (WriteSpec out (writer none xs k sink) p nn s)
          (write_loop (suc fuel) (writer none xs k sink) p nn s)
  unfolding write_loop overflows
  fitting xs k p nn fuel s hk fits =
      let room : (pos (length xs) -ℤ pos k) ≡ pos (length xs - k) = ground arith in
      rw (room, le→ltb fits) (rest_lem xs k p nn s hk fits)

  direct_call :
      (xs p : List T) (s : S)
      → write_round (writer none xs 0 sink) p s
        ≡ ok (honest.count s p, writer (honest.fail s p) xs 0 sink, honest.after s p)
  unfolding write_round
  direct_call xs p s = rw (honest.answers s p) refl

  direct_rest :
      (xs p : List T) (nn fuel : ℕ) (s : S) (fail : Option Error)
      → length xs < length p
      → honest.fail s p ≡ fail
      → Returns
          (WriteSpec out
            (writer fail xs 0 sink)
            (drop (honest.count s p) p)
            (nn + honest.count s p)
            (honest.after s p))
          (write_loop
            (suc fuel)
            (writer fail xs 0 sink)
            (drop (honest.count s p) p)
            (nn + honest.count s p)
            (honest.after s p))
  direct_rest xs p nn fuel s none long e =
      let m = honest.count s p in
      fitting xs 0 (drop m p) (nn + m) fuel (honest.after s p) (omega arith)
        (omega (arith, honest.whole s p e, length-drop m p))
  direct_rest xs p nn fuel s (some f) long e =
      let m = honest.count s p in
      rw (failed (writer (some f) xs 0 sink) (drop m p) (nn + m) fuel (honest.after s p) f refl) (
        returns (
          stopped out (writer (some f) xs 0 sink) (drop m p) (nn + m) (honest.after s p) f refl
            (refl, omega arith)))

  direct :
      (xs p : List T) (nn fuel : ℕ) (s : S) (fail : Option Error)
      → length xs < length p
      → honest.fail s p ≡ fail
      → Returns (WriteSpec out (writer none xs 0 sink) p nn s) (
          write_loop
            (suc fuel)
            (writer fail xs 0 sink)
            (take (length p - honest.count s p) (drop (honest.count s p) p))
            (nn + honest.count s p)
            (honest.after s p))
  direct xs p nn fuel s fail long e =
      let m = honest.count s p in
      let fits = honest.fits s p in
      let rest : take (length p - m) (drop m p) ≡ drop m p =
        take_all (length p - m) (drop m p) (omega (arith, length-drop m p)) in
      rw rest (
        Returns-map (direct_rest xs p nn fuel s fail long e) (
          continued out (writer none xs 0 sink) (writer fail xs 0 sink) p nn m s (honest.after s p)
            fits
            (append-nil (out (honest.after s p))
              ∙ honest.logs s p
              ∙ ap (λ c. c ++ take m p) (sym (append-nil (out s))))
            refl refl))

  from_empty :
      (xs p : List T) (nn fuel : ℕ) (s : S)
      → Returns
          (WriteSpec out (writer none xs 0 sink) p nn s)
          (write_loop (suc (suc fuel)) (writer none xs 0 sink) p nn s)
  from_empty xs p nn fuel s = elim (lt-or-le (length xs) (length p)) [
    | inr fits ↦ fitting xs 0 p nn (suc fuel) s (omega arith) (omega arith)
    | inl long ↦
        let round = write_loop_round xs 0 p nn (suc fuel) s (omega arith) (omega arith) in
        rw
          (
            round,
            direct_call xs p s,
            slice-ok p (honest.count s p) (length p) (honest.fits s p) (omega arith),
          )
          (direct xs p nn fuel s (honest.fail s p) long refl)
  ]

  -- A round that fills the buffer and sends it.
  through_call :
      (xs : List T) (k : ℕ) (p : List T) (s : S)
      → k ≤ length xs
      → 0 < k
      → write_round (writer none xs k sink) p s ≡ (do
        (_, b', s') ←
            flush
              (writer none
                (splice xs k (take (length xs - k) p))
                (k + min (length xs - k) (length p))
                sink)
              s
        ok (min (length xs - k) (length p), b', s'))
  unfolding write_round
  through_call xs k p s hk p0 =
      rw (pos→== p0, copy_into-ok xs k (length xs) p hk (omega arith)) refl

  through_rest :
      (xs p : List T) (nn fuel : ℕ) (s : S) (b : Writer S T) (fail : Option Error)
      → b.err ≡ fail
      → b.wr ≡ sink
      → IsWithin b
      → (fail ≡ none) × (b.n ≡ pos 0) ⊎ (e : Error) × (fail ≡ some e)
      → Returns (WriteSpec out b p nn s) (write_loop (suc (suc fuel)) b p nn s)
  through_rest xs p nn fuel s b fail kept same within (inl (fine, empty)) =
      let fresh : b ≡ writer none b.buf 0 sink =
        λ i. record { err = (kept ∙ fine) i; buf = b.buf; n = empty i; wr = same i } in
      rw fresh (from_empty b.buf p nn fuel s)
  through_rest xs p nn fuel s b fail kept same within (inr (e, broken)) =
      rw (failed b p nn (suc fuel) s e (kept ∙ broken))
        (returns (stopped out b p nn s e (kept ∙ broken) within))

  loop_lem :
      (xs : List T) (k : ℕ) (p : List T) (nn fuel : ℕ) (s : S)
      → k ≤ length xs
      → Returns
          (WriteSpec out (writer none xs k sink) p nn s)
          (write_loop (suc (suc (suc fuel))) (writer none xs k sink) p nn s)
  loop_lem xs k p nn fuel s hk = elim (lt-or-le (length xs - k) (length p)) [
    | inr fits ↦ fitting xs k p nn (suc (suc fuel)) s hk fits
    | inl long ↦ elim (lt-or-le 0 k) [
      | inr empty ↦ let e : k ≡ 0 = omega arith in rw e (from_empty xs p nn (suc fuel) s)
      | inl p0 ↦
          let m = min (length xs - k) (length p) in
          let full = splice xs k (take (length xs - k) p) in
          let same_size : length full ≡ length xs = length-splice xs k (take (length xs - k) p) in
          let rest : take (length p - m) (drop m p) ≡ drop m p =
            take_all (length p - m) (drop m p) (omega (arith, length-drop m p)) in
          rw (write_loop_round xs k p nn (suc (suc fuel)) s long hk, through_call xs k p s hk p0)
            (Returns-bind_two _ _ (flush_lem honest full (k + m) s (omega arith))
              λ (err, b', s') (sent, within, size, same, kept, end).
                rw (slice-ok p m (length p) (omega arith) (omega arith), rest)
                  (Returns-map
                    (through_rest xs (drop m p) (nn + m) fuel s' b' err kept same within end)
                    (continued out (writer none xs k sink) b' p nn m s s' (omega arith)
                      (sent
                        ∙ ap (λ c. out s ++ c) (appended xs p k hk)
                        ∙ sym (append_assoc (out s) (take k xs) (take m p)))
                      (size ∙ same_size) same)))
    ]
  ]

  -- Write of a Writer with no error, to a writer that does what the interface asks: three rounds
  -- of the loop are enough for every slice, every item that is counted was either sent or waits, in
  -- order and after all those before it, and the count is the slice's unless there is an error.
  pub writer_write_refines :
      (xs : List T) (k : ℕ) (p : List T) (fuel : ℕ) (s : S)
      → k ≤ length xs
      → Returns
          (WriteSpec out (writer none xs k sink) p 0 s)
          (write (suc (suc (suc fuel))) (writer none xs k sink) p s)
  unfolding write
  writer_write_refines xs k p fuel s hk = loop_lem xs k p 0 fuel s hk
