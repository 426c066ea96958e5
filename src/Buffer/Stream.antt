-- ===== src/Buffer/Stream.antt =====
-- buffer.go: ReadFrom and WriteTo.
pub mod WriteTo
use gbuf.Base.{
  ℕ, zero, suc, ◌+◌, Bool, true, false, Option, none, some, List, ltb, leb, ◌==◌, if◌then◌else◌,
  Run, ok, panic, out_of_fuel, ◌>>=◌, ◌>>◌, require, length, take, slice, splice,
}
use gbuf.Base.Int.{ℤ, pos, negsuc}
use gbuf.Errors.{Error, some_eof, short_write}
use gbuf.Streams.{Source}
use gbuf.Buffer.{Buffer, len, reset, grow}

-- The count of the items, the error, the buffer, and the state of the other end.
abbrev pub Outcome : Type 0 → Type 0 → Type 0
Outcome S T = ℕ × Option Error × Buffer T × S

-- A round of the loop returns from the function, or goes on with a count and the states.
pub data Round (S T : Type 0) : Type 0 where
  return : Outcome S T → Round S T
  continue : ℕ → Buffer T → S → Round S T

abbrev pub min_read : ℕ
min_read = 512

module _ {S T : Type 0} where
  -- The part of a round after the read, which was given all from the index `i` on and wrote `p` there.
  unfoldable pub received : Buffer T → ℕ → ℕ → ℤ × Option Error × List T × S → Run (Round S T)
  received b i n (negsuc m, err, p, s) = panic
  received b i n (pos m, err, p, s) = do
    require (leb (i + m) (length b.array))
    let array = splice b.array i (take (length b.array) p)
    let b' : Buffer T = record b { array = array; size = i + m }
    if some_eof err then ok (return (n + m, none, b', s)) else elim err [
      | some e ↦ ok (return (n + m, some e, b', s))
      | none ↦ ok (continue (n + m) b' s)
    ]

module _ {S T : Type 0} (zero_value : T) (rounded : ℕ → ℕ) (source : Source S T) where
  unfoldable pub read_round : Buffer T → ℕ → S → Run (Round S T)
  unfolding received grow
  read_round b n s = do
    (i, b') ← grow zero_value rounded b min_read
    free ← slice b'.array i (length b'.array)
    received (record b' { size = i }) i n (source s free)

  unfoldable pub read_from_loop : ℕ → Buffer T → ℕ → S → Run (Outcome S T)
  unfolding read_round
  read_from_loop zero b n s = out_of_fuel
  read_from_loop (suc fuel) b n s = read_round b n s >>= λ round. elim round [
    | return out ↦ ok out
    | continue n' b' s' ↦ read_from_loop fuel b' n' s'
  ]

  unfoldable pub read_from : ℕ → Buffer T → S → Run (Outcome S T)
  unfolding read_from_loop
  read_from fuel b s = read_from_loop fuel (record b { is_reading = false }) 0 s

-- The writer's count is not negative, as its interface asks.
module _ {S T : Type 0} (counted : S → List T → ℕ × Option Error × S) where
  -- The part after the write of `n_items` items.
  unfoldable pub sent : Buffer T → ℕ → ℕ × Option Error × S → Run (Outcome S T)
  unfolding reset
  sent b n_items (m, err, s) =
      let b' : Buffer T = record b { off = b.off + m } in
      if ltb n_items m then panic else elim err [
        | some e ↦ ok (m, some e, b', s)
        | none ↦ if m == n_items then ok (m, none, reset b', s) else ok (m, some short_write, b', s)
      ]

  unfoldable pub write_to : Buffer T → S → Run (Outcome S T)
  unfolding len reset sent
  write_to b s =
      let b1 : Buffer T = record b { is_reading = false } in
      if ltb 0 (len b1)
      then (do unread ← slice b1.array b1.off b1.size; sent b1 (len b1) (counted s unread))
      else ok (0, none, reset b1, s)
