-- ===== src/Gbufio/Writer.antt =====
-- gbufio/writer.go: Writer, a buffer in front of a caller's writer. The state of the latter is passed
-- on by each operation.
pub mod Stream
pub mod Flush
pub mod Rounds
pub mod Write
pub mod Item
pub mod Fetch
mod Tests
use gbuf.Base.{
  ℕ, zero, suc, ◌+◌, ◌-◌, Bool, true, false, ◌&&◌, Option, none, some, List, [], ltb, leb, ◌==◌,
  if◌then◌else◌, Run, ok, panic, out_of_fuel, ◌>>=◌, ◌>>◌, require, length, take, drop, set,
  replicate, copy_into, slice,
}
use gbuf.Base.Int.{ℤ, pos, negsuc, ◌+ℤ◌, ◌-ℤ◌, eqb_ℤ, ltb_ℤ, leb_ℤ, index}
use gbuf.Errors.{Error, short_write}
use gbuf.Streams.{Sink}
use gbuf.Gbufio.Sizes.{default_buf_size}

-- `n` items of `buf` wait to be written; a writer that returns a wrong count can make it negative.
pub record Writer (S T : Type 0) : Type 0 where
  pub err : Option Error
  pub buf : List T
  pub n : ℤ
  pub wr : Sink S T

module _ {S T : Type 0} (zero_value : T) where
  -- `w` is a Writer already, or another writer.
  unfoldable pub new_writer : Option (Writer S T) → Sink S T → ℤ → Writer S T
  new_writer w wr size =
      let fresh : Writer S T =
        let room : ℕ = elim size [
          | pos k ↦ (if k == 0 then default_buf_size else k)
          | negsuc k ↦ default_buf_size
        ] in
        record { err = none; buf = replicate room zero_value; n = pos 0; wr = wr } in
      elim w [ none ↦ fresh | some b ↦ if leb_ℤ size (pos (length b.buf)) then b else fresh ]

  -- The writer given is another one, or `none` for `b` itself; a nil `buf` is an empty one.
  unfoldable pub reset : Writer S T → Option (Sink S T) → Writer S T
  reset b none = b
  reset b (some wr) = record {
    err = none;
    buf = if length b.buf == 0 then replicate default_buf_size zero_value else b.buf;
    n = pos 0;
    wr = wr;
  }

module _ {S T : Type 0} where
  unfoldable pub size : Writer S T → ℕ
  size b = length b.buf

  unfoldable pub available : Writer S T → ℤ
  available b = pos (length b.buf) -ℤ b.n

  -- An empty slice, whose capacity is the room that is left.
  unfoldable pub available_buffer : Writer S T → Run (List T)
  available_buffer b = do k ← index b.n; room ← slice b.buf k (length b.buf); slice room 0 0

  unfoldable pub buffered : Writer S T → ℤ
  buffered b = b.n

  -- The part of Flush after the write, where there are `k` items in the buffer.
  unfoldable pub flushed :
      Writer S T → ℕ → ℤ × Option Error × S → Run (Option Error × Writer S T × S)
  flushed b k (n, err, s) =
      let err' : Option Error = elim err [
        | none ↦ if ltb_ℤ n (pos k) then some short_write else none
        | some e ↦ some e
      ] in
      elim err' [
        | none ↦ ok (none, record b { n = pos 0 }, s)
        | some e ↦
            let fail = λ (items : List T).
              ok (some e, record b { err = some e; buf = items; n = b.n -ℤ n }, s) in
            let slide = do
              m ← index n
              rest ← slice b.buf m k
              (items, _) ← copy_into b.buf 0 (k - m) rest
              fail items
            in if ltb_ℤ (pos 0) n && ltb_ℤ n (pos k) then slide else fail b.buf
      ]

  unfoldable pub flush : Writer S T → S → Run (Option Error × Writer S T × S)
  unfolding flushed
  flush b s = elim b.err [
    | some e ↦ ok (some e, b, s)
    | none ↦
        if eqb_ℤ b.n (pos 0)
        then ok (none, b, s)
        else (do k ← index b.n; items ← slice b.buf 0 k; flushed b k (b.wr s items))
  ]

  -- A round of the loop of Write: the count of the round, and the states.
  unfoldable pub write_round : Writer S T → List T → S → Run (ℕ × Writer S T × S)
  unfolding flush buffered
  write_round b p s =
      let direct =
        let (n, err, s') = b.wr s p in index n >>= λ m. ok (m, record b { err = err }, s') in
      let through = do
        k ← index b.n
        (buf, m) ← copy_into b.buf k (length b.buf) p
        (_, b', s') ← flush (record b { buf = buf; n = b.n +ℤ pos m }) s
        ok (m, b', s')
      in if eqb_ℤ (buffered b) (pos 0) then direct else through

  -- Whether the loop of Write goes on.
  unfoldable pub overflows : Writer S T → List T → Bool
  unfolding available
  overflows b p = elim b.err [ some e ↦ false | none ↦ ltb_ℤ (available b) (pos (length p)) ]

  -- The part of Write after the loop.
  unfoldable pub write_rest : Writer S T → List T → ℕ → S → Run (ℕ × Option Error × Writer S T × S)
  write_rest b p nn s = elim b.err [
    | some e ↦ ok (nn, some e, b, s)
    | none ↦ index b.n >>= λ k. copy_into b.buf k (length b.buf) p >>= λ (buf, n).
        ok (nn + n, none, record b { buf = buf; n = b.n +ℤ pos n }, s)
  ]

  unfoldable pub write_loop :
      ℕ → Writer S T → List T → ℕ → S → Run (ℕ × Option Error × Writer S T × S)
  unfolding write_round overflows write_rest
  write_loop zero b p nn s = out_of_fuel
  write_loop (suc fuel) b p nn s =
      let step = do
        (n, b', s') ← write_round b p s
        p' ← slice p n (length p)
        write_loop fuel b' p' (nn + n) s'
      in if overflows b p then step else write_rest b p nn s

  unfoldable pub write : ℕ → Writer S T → List T → S → Run (ℕ × Option Error × Writer S T × S)
  unfolding write_loop
  write fuel b p s = write_loop fuel b p 0 s

  -- The last lines of WriteItem.
  unfoldable pub store_item : Writer S T → T → S → Run (Option Error × Writer S T × S)
  store_item b c s = do
    k ← index b.n
    require (ltb k (length b.buf))
    ok (none, record b { buf = set b.buf k c; n = b.n +ℤ pos 1 }, s)

  unfoldable pub write_item : Writer S T → T → S → Run (Option Error × Writer S T × S)
  unfolding flush available store_item
  write_item b c s =
      let make_room = do
        (err, b', s') ← flush b s
        elim err [ some e ↦ ok (b'.err, b', s') | none ↦ store_item b' c s' ]
      in elim b.err [
        | some e ↦ ok (some e, b, s)
        | none ↦ if leb_ℤ (available b) (pos 0) then make_room else store_item b c s
      ]
