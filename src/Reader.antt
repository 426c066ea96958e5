-- ===== src/Reader.antt =====
-- reader.go: Reader, a cursor over a slice. An operation returns what the Go method returns, and the
-- new state; the slice that Read and ReadAt fill is returned too.
pub mod Refines
mod Tests
use gbuf.Base.{
  ℕ, ◌+◌, ◌-◌, Bool, true, false, Option, none, some, List, ltb, leb, ◌==◌, if◌then◌else◌, Run, ok,
  panic, ◌>>=◌, length, get_elem?, copy_into, slice,
}
use gbuf.Base.Int.{ℤ, pos, negsuc, ◌+ℤ◌, ◌-ℤ◌, eqb_ℤ, ltb_ℤ, leb_ℤ, index, wrap_int64}
use gbuf.Errors.{
  Error, eof, short_write, reader_at_the_beginning, reader_invalid_whence, reader_negative_position,
  reader_negative_offset, reader_negative_count,
}
use gbuf.Streams.{Sink}

-- `i` is the index that is read next. A writer that returns a negative count can make it negative.
pub record Reader (T : Type 0) : Type 0 where
  pub s : List T
  pub i : ℤ
  pub prev_rune : ℤ

-- `whence` of a Seek, as the package gio numbers it.
abbrev pub seek_start : ℤ
seek_start = pos 0

abbrev pub seek_current : ℤ
seek_current = pos 1

abbrev pub seek_end : ℤ
seek_end = pos 2

module _ {T : Type 0} where
  unfoldable pub new_reader : List T → Reader T
  new_reader b = record { s = b; i = pos 0; prev_rune = negsuc 0 }

  unfoldable pub reset : Reader T → List T → Reader T
  reset r b = record { s = b; i = pos 0; prev_rune = negsuc 0 }

  unfoldable pub len : Reader T → ℤ
  len r = if leb_ℤ (pos (length r.s)) r.i then pos 0 else pos (length r.s) -ℤ r.i

  unfoldable pub size : Reader T → ℕ
  size r = length r.s

  unfoldable pub read : Reader T → List T → Run (ℕ × Option Error × List T × Reader T)
  read r b = if leb_ℤ (pos (length r.s)) r.i then ok (0, some eof, b, r) else do
    lo ← index r.i
    rest ← slice r.s lo (length r.s)
    (b', n) ← copy_into b 0 (length b) rest
    ok (n, none, b', record { s = r.s; i = r.i +ℤ pos n; prev_rune = negsuc 0 })

  unfoldable pub read_at : Reader T → List T → ℤ → Run (ℕ × Option Error × List T)
  read_at r b off =
      if ltb_ℤ off (pos 0)
      then ok (0, some reader_negative_offset, b)
      else if leb_ℤ (pos (length r.s)) off
      then ok (0, some eof, b)
      else (do
        lo ← index off
        rest ← slice r.s lo (length r.s)
        (b', n) ← copy_into b 0 (length b) rest
        ok (n, (if ltb n (length b) then some eof else none), b'))

  unfoldable pub unread_item : Reader T → Option Error × Reader T
  unread_item r =
      if leb_ℤ r.i (pos 0)
      then (some reader_at_the_beginning, r)
      else (none, record { s = r.s; i = r.i -ℤ pos 1; prev_rune = negsuc 0 })

  -- `offset` is an int64, and so are the sums.
  unfoldable pub seek : Reader T → ℤ → ℤ → ℤ × Option Error × Reader T
  seek r offset whence =
      let r' : Reader T = record r { prev_rune = negsuc 0 } in
      let to : ℤ → ℤ × Option Error × Reader T = λ abs.
        if ltb_ℤ abs (pos 0)
        then (pos 0, some reader_negative_position, r')
        else (abs, none, record r' { i = abs }) in
      if eqb_ℤ whence seek_start
      then to offset
      else if eqb_ℤ whence seek_current
      then to (wrap_int64 (r.i +ℤ offset))
      else if eqb_ℤ whence seek_end
      then to (wrap_int64 (pos (length r.s) +ℤ offset))
      else (pos 0, some reader_invalid_whence, r')

module _ {T : Type 0} (zero_value : T) where
  unfoldable pub read_item : Reader T → Run (T × Option Error × Reader T)
  read_item r =
      let r' : Reader T = record r { prev_rune = negsuc 0 } in
      if leb_ℤ (pos (length r.s)) r.i then ok (zero_value, some eof, r') else do
        lo ← index r.i
        b ← elim (get_elem? r.s lo) [ none ↦ panic | some x ↦ ok x ]
        ok (b, none, record r' { i = r.i +ℤ pos 1 })

-- `if m != len(b) && err == nil { err = io.ErrShortWrite }`
unfoldable pub shortfall : ℤ → ℕ → Option Error → Option Error
shortfall m n (some e) = some e
shortfall m n none = if eqb_ℤ m (pos n) then none else some short_write

module _ {S T : Type 0} where
  -- The part of WriteTo after the write of `b`.
  unfoldable pub written :
      Reader T → List T → ℤ × Option Error × S → ℤ × Option Error × Reader T × S
  unfolding shortfall
  written r b (m, err, s) =
      if ltb_ℤ (pos (length b)) m
      then (pos 0, some reader_negative_count, r, s)
      else let r' : Reader T = record r { i = r.i +ℤ m } in (m, shortfall m (length b) err, r', s)

  unfoldable pub write_to : Sink S T → Reader T → S → Run (ℤ × Option Error × Reader T × S)
  unfolding written
  write_to sink r s =
      let r' : Reader T = record r { prev_rune = negsuc 0 } in
      if leb_ℤ (pos (length r.s)) r.i
      then ok (pos 0, none, r', s)
      else do lo ← index r.i; b ← slice r.s lo (length r.s); ok (written r' b (sink s b))
