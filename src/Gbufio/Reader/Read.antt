-- ===== src/Gbufio/Reader/Read.antt =====
-- gbufio/reader.go: Read, ReadItem and UnreadItem of a Reader. The fuel counts rounds of a loop.
use gbuf.Base.{
  ℕ, zero, suc, ◌+◌, true, ◌&&◌, ◌||◌, Option, none, some, List, ltb, leb, ◌==◌, if◌then◌else◌, Run,
  ok, panic, out_of_fuel, ◌>>=◌, ◌>>◌, require, length, get_elem?, splice, copy_into, slice,
}
use gbuf.Base.Int.{pos, ltb_ℤ, index}
use gbuf.Errors.{Error, invalid_unread_item}
use gbuf.Gbufio.Reader.{Reader, buffered, fill, read_at, read_err}

module _ {S T : Type 0} where
  -- The last lines of Read, where the buffer is not empty.
  unfoldable pub hand_over :
      Reader S T → List T → S → Run (ℕ × Option Error × List T × Reader S T × S)
  hand_over b p s = do
    items ← slice b.buf b.r b.w
    (p', n) ← copy_into p 0 (length p) items
    ok (n, none, p', record b { r = b.r + n; last_item = true }, s)

  -- Read where the buffer is empty and there is no error: one call of the caller's Read.
  unfoldable pub read_direct :
      Reader S T → List T → S → Run (ℕ × Option Error × List T × Reader S T × S)
  unfolding read_err
  read_direct b p s =
      let (n, err, p', s') = b.rd s p in
      do
        m ← index n
        require (leb m (length p))
        let (e, b') = read_err (record b { err = err; last_item = ltb 0 m || b.last_item })
        ok (m, e, splice p 0 p', b', s')

  unfoldable pub read_once :
      Reader S T → List T → S → Run (ℕ × Option Error × List T × Reader S T × S)
  unfolding read_at read_err hand_over
  read_once b p s = do
    (n, err, b', s') ← read_at (record b { r = 0; w = 0 }) 0 s
    let got = record b' { err = err }
    let (e, emptied) = read_err got
    if n == 0 then ok (0, e, p, emptied, s') else hand_over (record got { w = n }) p s'

  -- With `p`, what it holds after the call.
  unfoldable pub read : Reader S T → List T → S → Run (ℕ × Option Error × List T × Reader S T × S)
  unfolding buffered read_err hand_over read_direct read_once
  read b p s =
      let (e, cleared) = read_err b in
      let nothing =
        if ltb_ℤ (pos 0) (buffered b) then ok (0, none, p, b, s) else ok (0, e, p, cleared, s) in
      let ask = if leb (length b.buf) (length p) then read_direct b p s else read_once b p s in
      let from_empty : Run (ℕ × Option Error × List T × Reader S T × S) = elim b.err [
        | some e' ↦ ok (0, e, p, cleared, s)
        | none ↦ ask
      ] in
      if length p == 0 then nothing else if b.r == b.w then from_empty else hand_over b p s

  -- `b.buf[b.r]` and the lines after it in ReadItem.
  unfoldable pub take_item : Reader S T → S → Run (T × Option Error × Reader S T × S)
  take_item b s = elim (get_elem? b.buf b.r) [
    | none ↦ panic
    | some c ↦ ok (c, none, record b { r = b.r + 1; last_item = true }, s)
  ]

  unfoldable pub read_item : ℕ → T → Reader S T → S → Run (T × Option Error × Reader S T × S)
  unfolding fill read_err take_item
  read_item zero zero_value b s = out_of_fuel
  read_item (suc fuel) zero_value b s =
      let step = do (b', s') ← fill b s; read_item fuel zero_value b' s'
      in let from_empty : Run (T × Option Error × Reader S T × S) = elim b.err [
        | some e ↦ ok (zero_value, (read_err b).0, (read_err b).1, s)
        | none ↦ step
      ] in
        if b.r == b.w then from_empty else take_item b s

  -- Where the first test fails, lastItem is nil, and `*b.lastItem` panics.
  unfoldable pub unread_item : Reader S T → Run (Option Error × Reader S T)
  unread_item b =
      if b.last_item || (b.r == 0) && ltb 0 b.w then ok (some invalid_unread_item, b) else panic
