-- ===== src/Gbufio/Writer/Fetch.antt =====
-- gbufio/writer.go: ReadFrom of a Writer. The fuel counts rounds of its loop.
use gbuf.Base.{
  ℕ, zero, suc, Option, none, some, if◌then◌else◌, Run, ok, out_of_fuel, ◌>>=◌, length, slice,
  splice,
}
use gbuf.Base.Int.{ℤ, pos, ◌+ℤ◌, eqb_ℤ, index}
use gbuf.Errors.{Error, no_progress, exactly_eof}
use gbuf.Streams.{Source}
use gbuf.Gbufio.Sizes.{max_consecutive_empty_reads}
use gbuf.Gbufio.Writer.{Writer, flush, available, buffered}

module _ {S T : Type 0} (source : Source S T) where
  -- The inner loop of ReadFrom, with the number of tries left: the count and the error of the last
  -- call of Read, or `none` if all gave neither.
  unfoldable pub try_reads : ℕ → Writer S T → S → Run (Option (ℤ × Option Error) × Writer S T × S)
  try_reads zero b s = ok (none, b, s)
  try_reads (suc tries) b s = do
    from ← index b.n
    p ← slice b.buf from (length b.buf)
    let (m, err, held, s') = source s p
    let b' : Writer S T = record b { buf = splice b.buf from held }
    let rest = try_reads tries b' s'
    elim err [
      | some e ↦ ok (some (m, some e), b', s')
      | none ↦ if eqb_ℤ m (pos 0) then rest else ok (some (m, none), b', s')
    ]

  unfoldable pub flush_if_full : Writer S T → S → Run (Option Error × Writer S T × S)
  unfolding flush available
  flush_if_full b s = if eqb_ℤ (available b) (pos 0) then flush b s else ok (none, b, s)

  -- The lines of ReadFrom after the loop, at an error of the caller's reader.
  unfoldable pub read_end : ℤ → Error → Writer S T → S → Run (ℤ × Option Error × Writer S T × S)
  unfolding flush_if_full
  read_end n e b s =
      let ended = do (err, b', s') ← flush_if_full b s; ok (n, err, b', s')
      in if exactly_eof (some e) then ended else ok (n, some e, b, s)

  -- The method ReadFrom of the caller's writer, where it has one, on that reader.
  unfoldable pub read_from_loop :
      ℕ
      → Option (S → ℤ × Option Error × S)
      → Writer S T
      → ℤ
      → S
      → Run (ℤ × Option Error × Writer S T × S)
  unfolding flush_if_full try_reads read_end buffered
  read_from_loop zero reads_from b n s = out_of_fuel
  read_from_loop (suc fuel) reads_from b n s =
      let buffer = λ (b' : Writer S T) (s' : S). do
        (got, b'', s'') ← try_reads max_consecutive_empty_reads b' s'
        elim got [
          | none ↦ ok (n, some no_progress, b'', s'')
          | some (m, err) ↦
              let more : Writer S T = record b'' { n = b''.n +ℤ m } in
              let rest = read_from_loop fuel reads_from more (n +ℤ m) s'' in
              elim err [ none ↦ rest | some e ↦ read_end (n +ℤ m) e more s'' ]
        ]
      in let go_on = λ (call : S → ℤ × Option Error × S) (b' : Writer S T) (s' : S).
        let (nn, err, s'') = call s' in
        if eqb_ℤ (buffered b') (pos 0)
        then ok (n +ℤ nn, err, record b' { err = err }, s'')
        else buffer b' s' in
        flush_if_full b s >>= λ (err, b', s'). elim err [
          | some e ↦ ok (n, some e, b', s')
          | none ↦ elim reads_from [ none ↦ buffer b' s' | some call ↦ go_on call b' s' ]
        ]

  unfoldable pub read_from :
      ℕ
      → Option (S → ℤ × Option Error × S)
      → Writer S T
      → S
      → Run (ℤ × Option Error × Writer S T × S)
  unfolding read_from_loop
  read_from fuel reads_from b s = elim b.err [
    | some e ↦ ok (pos 0, some e, b, s)
    | none ↦ read_from_loop fuel reads_from b (pos 0) s
  ]
