-- ===== src/Gbufio/Reader.antt =====
-- gbufio/reader.go: Reader, a buffer in front of a caller's reader. The state of the latter is
-- passed on by each operation. Of the pointer lastItem only whether it is nil is kept: UnreadItem
-- alone follows it, and only where it is nil.
pub mod Peek
pub mod Read
pub mod Copy
pub mod Stream
pub mod Fill
pub mod Items
pub mod Slices
pub mod Ahead
mod Tests
use gbuf.Base.{
  ℕ, zero, suc, ◌+◌, ◌-◌, Bool, true, false, ◌&&◌, ◌||◌, not, Option, none, some, List, [], ltb,
  leb, ◌==◌, if◌then◌else◌, Run, ok, panic, out_of_fuel, ◌>>=◌, ◌>>◌, require, length, get_elem?,
  take, drop, replicate, splice, copy_into, slice, min,
}
use gbuf.Base.Int.{ℤ, pos, negsuc, pos_part, ◌-ℤ◌, ◌+ℤ◌, ltb_ℤ, leb_ℤ, eqb_ℤ, index}
use gbuf.Errors.{
  Error, no_progress, buffer_full, invalid_unread_item, gbufio_negative_count, exactly_eof,
}
use gbuf.Streams.{Source, Sink}
use gbuf.Gbufio.Sizes.{default_buf_size, min_read_buffer_size, max_consecutive_empty_reads}

-- `last_item` says whether lastItem points to an item.
pub record Reader (S T : Type 0) : Type 0 where
  pub buf : List T
  pub rd : Source S T
  pub r : ℕ
  pub w : ℕ
  pub err : Option Error
  pub last_item : Bool

abbrev pub is_nil : Option Error → Bool
is_nil none = true
is_nil (some e) = false

module _ {S T : Type 0} where
  abbrev pub reset_to : List T → Source S T → Reader S T
  reset_to buf rd = record { buf = buf; rd = rd; r = 0; w = 0; err = none; last_item = false }

  unfoldable pub size : Reader S T → ℕ
  size b = length b.buf

  -- A caller's writer that counts too many items can leave `r` beyond `w`.
  unfoldable pub buffered : Reader S T → ℤ
  buffered b = pos b.w -ℤ pos b.r

module _ {S T : Type 0} (zero_value : T) where
  -- `b` is the reader given, if that is a Reader already.
  unfoldable pub new_reader : Option (Reader S T) → Source S T → ℤ → Reader S T
  new_reader b rd size =
      let room : ℕ =
        if ltb_ℤ size (pos min_read_buffer_size) then min_read_buffer_size else pos_part size in
      let fresh : Reader S T = reset_to (replicate room zero_value) rd in
      elim b [ none ↦ fresh | some b' ↦ if leb_ℤ size (pos (length b'.buf)) then b' else fresh ]

  -- The reader given is another one, or `none` for `b` itself; a nil `buf` is an empty one.
  unfoldable pub reset : Reader S T → Option (Source S T) → Reader S T
  reset b none = b
  reset b (some rd) =
      reset_to (if length b.buf == 0 then replicate default_buf_size zero_value else b.buf) rd

module _ {S T : Type 0} where
  -- The first lines of fill: the items that are left move to the beginning.
  unfoldable pub slide : Reader S T → Run (Reader S T)
  slide b =
      let moved = do
        items ← slice b.buf b.r b.w
        (buf, _) ← copy_into b.buf 0 (length b.buf) items
        ok (record b { buf = buf; w = b.w - b.r; r = 0 })
      in if ltb 0 b.r then moved else ok b

  -- A call of the caller's Read with a part of the buffer, from an index on.
  unfoldable pub read_at : Reader S T → ℕ → S → Run (ℕ × Option Error × Reader S T × S)
  read_at b at s = do
    p ← slice b.buf at (length b.buf)
    let (n, err, held, s') = b.rd s p
    m ← index n
    ok (m, err, record b { buf = splice b.buf at held }, s')

  -- The loop of fill, with the number of tries left.
  unfoldable pub try_reads : ℕ → Reader S T → S → Run (Reader S T × S)
  unfolding read_at
  try_reads zero b s = ok (record b { err = some no_progress }, s)
  try_reads (suc i) b s = do
    (n, err, b', s') ← read_at b b.w s
    let got = record b' { w = b.w + n }
    let rest = try_reads i got s'
    elim err [
      | some e ↦ ok (record got { err = some e }, s')
      | none ↦ if ltb 0 n then ok (got, s') else rest
    ]

  unfoldable pub fill : Reader S T → S → Run (Reader S T × S)
  unfolding slide
  fill b s = do
    b' ← slide b
    require (ltb b'.w (length b'.buf))
    try_reads max_consecutive_empty_reads b' s

  unfoldable pub read_err : Reader S T → Option Error × Reader S T
  read_err b = (b.err, record b { err = none })
