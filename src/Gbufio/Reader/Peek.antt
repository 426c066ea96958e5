-- ===== src/Gbufio/Reader/Peek.antt =====
-- gbufio/reader.go: Peek and Discard of a Reader. The fuel counts rounds of a loop.
use gbuf.Base.{
  ℕ, zero, suc, ◌+◌, false, ◌&&◌, Option, none, some, List, [], ltb, ◌==◌, if◌then◌else◌, Run, ok,
  out_of_fuel, ◌>>=◌, length, slice,
}
use gbuf.Base.Int.{ℤ, pos, negsuc, pos_part, ◌-ℤ◌, ◌+ℤ◌, ltb_ℤ, eqb_ℤ, index}
use gbuf.Errors.{Error, buffer_full, gbufio_negative_count}
use gbuf.Gbufio.Reader.{Reader, is_nil, buffered, fill, read_err}

module _ {S T : Type 0} where
  -- The loop of Peek.
  unfoldable pub peek_loop : ℕ → Reader S T → ℕ → S → Run (Reader S T × S)
  unfolding fill buffered
  peek_loop zero b n s = out_of_fuel
  peek_loop (suc fuel) b n s =
      let step = do (b', s') ← fill b s; peek_loop fuel b' n s'
      in if ltb_ℤ (buffered b) (pos n) && ltb_ℤ (buffered b) (pos (length b.buf)) && is_nil b.err
        then step
        else ok (b, s)

  -- The lines of Peek after its loop.
  unfoldable pub peek_rest : Reader S T → ℕ → S → Run (List T × Option Error × Reader S T × S)
  unfolding read_err buffered
  peek_rest b n s =
      let too_long = do items ← slice b.buf b.r b.w; ok (items, some buffer_full, b, s)
      in let short = do
        avail ← index (buffered b)
        let (err, b') = read_err b
        items ← slice b'.buf b'.r (b'.r + avail)
        ok (items, (elim err [ none ↦ some buffer_full | some e ↦ some e ]), b', s)
        in let enough = do items ← slice b.buf b.r (b.r + n); ok (items, none, b, s)
          in if ltb (length b.buf) n
            then too_long
            else if ltb_ℤ (buffered b) (pos n)
            then short
            else enough

  unfoldable pub peek : ℕ → Reader S T → ℤ → S → Run (List T × Option Error × Reader S T × S)
  unfolding peek_loop peek_rest
  peek fuel b (negsuc n) s = ok ([], some gbufio_negative_count, b, s)
  peek fuel b (pos n) s = do
    (b', s') ← peek_loop fuel (record b { last_item = false }) n s
    peek_rest b' n s'

  unfoldable pub filled_if_empty : Reader S T → S → Run (Reader S T × S)
  unfolding fill buffered
  filled_if_empty b s = if eqb_ℤ (buffered b) (pos 0) then fill b s else ok (b, s)

  -- The loop of Discard, with what remains of `n`.
  unfoldable pub discard_loop : ℕ → Reader S T → ℕ → ℤ → S → Run (ℤ × Option Error × Reader S T × S)
  unfolding filled_if_empty buffered read_err
  discard_loop zero b n remain s = out_of_fuel
  discard_loop (suc fuel) b n remain s = do
    (b', s') ← filled_if_empty b s
    let skip = if ltb_ℤ remain (buffered b') then remain else buffered b'
    let passed = record b' { r = pos_part (pos b'.r +ℤ skip) }
    let rest = discard_loop fuel passed n (remain -ℤ skip) s'
    let unless_failed : Run (ℤ × Option Error × Reader S T × S) = elim passed.err [
      | none ↦ rest
      | some e ↦ ok (pos n -ℤ (remain -ℤ skip), (read_err passed).0, (read_err passed).1, s')
    ]
    if eqb_ℤ (remain -ℤ skip) (pos 0) then ok (pos n, none, passed, s') else unless_failed

  unfoldable pub discard : ℕ → Reader S T → ℤ → S → Run (ℤ × Option Error × Reader S T × S)
  unfolding discard_loop
  discard fuel b (negsuc n) s = ok (pos 0, some gbufio_negative_count, b, s)
  discard fuel b (pos n) s =
      let work = discard_loop fuel (record b { last_item = false }) n (pos n) s in
      if n == 0 then ok (pos 0, none, b, s) else work
