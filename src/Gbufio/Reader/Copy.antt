-- ===== src/Gbufio/Reader/Copy.antt =====
-- gbufio/reader.go: WriteTo of a Reader. The fuel counts rounds of its loop.
use gbuf.Base.{
  ℕ, zero, suc, ◌+◌, false, Option, none, some, ltb, if◌then◌else◌, Run, ok, out_of_fuel, ◌>>=◌,
  length, slice,
}
use gbuf.Base.Int.{ℤ, pos, ◌+ℤ◌, ltb_ℤ, index}
use gbuf.Errors.{Error, exactly_eof}
use gbuf.Streams.{Sink}
use gbuf.Gbufio.Reader.{Reader, buffered, fill, read_err}

module _ {S T : Type 0} where
  unfoldable pub write_buf : Reader S T → Sink S T → S → Run (ℕ × Option Error × Reader S T × S)
  write_buf b sink s = do
    items ← slice b.buf b.r b.w
    let (n, err, s') = sink s items
    m ← index n
    ok (m, err, record b { r = b.r + m }, s')

  -- The loop of WriteTo and the lines after it.
  unfoldable pub write_to_loop :
      ℕ → Reader S T → Sink S T → ℕ → S → Run (ℤ × Option Error × Reader S T × S)
  unfolding write_buf fill read_err
  write_to_loop zero b sink n s = out_of_fuel
  write_to_loop (suc fuel) b sink n s =
      let step = do
        (m, err, b', s') ← write_buf b sink s
        let more = do (b'', s'') ← fill b' s'; write_to_loop fuel b'' sink (n + m) s''
        elim err [ some e ↦ ok (pos (n + m), some e, b', s') | none ↦ more ]
      in let (e, done) = read_err (if exactly_eof b.err then record b { err = none } else b) in
        if ltb b.r b.w then step else ok (pos n, e, done, s)

  unfoldable pub filled_if_room : Reader S T → S → Run (Reader S T × S)
  unfolding fill buffered
  filled_if_room b s = if ltb_ℤ (buffered b) (pos (length b.buf)) then fill b s else ok (b, s)

  -- The methods WriteTo of the caller's reader and ReadFrom of the writer, where they have them, on
  -- that writer and that reader.
  unfoldable pub write_to :
      ℕ
      → Option (S → ℤ × Option Error × S)
      → Option (S → ℤ × Option Error × S)
      → Reader S T
      → Sink S T
      → S
      → Run (ℤ × Option Error × Reader S T × S)
  unfolding write_buf write_to_loop filled_if_room
  write_to fuel writes_to reads_from b sink s = do
    (n, err, b', s') ← write_buf (record b { last_item = false }) sink s
    let delegated = λ (call : S → ℤ × Option Error × S).
        let (m, err', s'') = call s' in ok (pos n +ℤ m, err', b', s'')
    let copied = do (b'', s'') ← filled_if_room b' s'; write_to_loop fuel b'' sink n s''
    elim err [
      | some e ↦ ok (pos n, some e, b', s')
      | none ↦ elim writes_to [
        | some call ↦ delegated call
        | none ↦ elim reads_from [ some call ↦ delegated call | none ↦ copied ]
      ]
    ]
