-- ===== src/RingFilter/Stream.antt =====
-- ringfilter.go: ReadFrom and WriteTo.
pub mod WriteTo
pub mod ReadFrom
use gbuf.Base.{
  ℕ, zero, suc, ◌+◌, ◌-◌, Bool, true, false, ◌&&◌, ◌||◌, Option, none, some, List, if◌then◌else◌,
  Run, ok, out_of_fuel, ◌>>=◌, length, take, slice, splice,
}
use gbuf.Base.Int.{ℤ, pos, negsuc, ◌+ℤ◌, ◌-ℤ◌, eqb_ℤ, ltb_ℤ, leb_ℤ, index, rem, rem_ℕ}
use gbuf.Errors.{Error, some_eof, ring_filter_negative_read}
use gbuf.Streams.{Source, Sink}
use gbuf.RingFilter.{RingFilter}

-- The count of the items so far, the error, the filter, and the states of the process function and
-- of the other end.
abbrev pub Outcome : Type 0 → Type 0 → Type 0 → Type 0
Outcome F S T = ℕ × Option Error × RingFilter F T × F × S

-- A round of a loop returns from the function, or goes on with a count and the states.
pub data Round (F S T : Type 0) : Type 0 where
  return : Outcome F S T → Round F S T
  continue : ℕ → RingFilter F T → F → S → Round F S T

module _ {F S T : Type 0} where
  -- The part of a round from the call of the process function on.
  unfoldable pub filter_chunk : RingFilter F T → ℕ → ℕ → F → S → Run (Round F S T)
  filter_chunk r num n t s = do
    chunk ← slice r.items r.write (r.write + num)
    let (err, t') = r.fn t chunk
    elim err [
      | some e ↦ ok (return (n + num, some e, r, t', s))
      | none ↦ rem_ℕ (r.write + num) (length r.items) >>= λ write.
          let read = if r.full then pos write else r.read in
          ok (continue (n + num) (record r { write = write; read = read }) t' s)
    ]

  -- The part after the read, at a count that is not negative; `r` holds what was read.
  unfoldable pub after_read : RingFilter F T → ℕ → Option Error → ℕ → F → S → Run (Round F S T)
  unfolding filter_chunk
  after_read r num err n t s =
      let passes = ltb_ℤ (pos r.write) r.read && leb_ℤ r.read (pos (r.write + num)) in
      let r1 : RingFilter F T = record r { full = r.full || passes } in
      if some_eof err then ok (return (n, none, r1, t, s)) else elim err [
        | some e ↦ ok (return (n, some e, r1, t, s))
        | none ↦
            let fills = eqb_ℤ (pos (length r.items) -ℤ (pos r.write -ℤ r.read)) (pos num) in
            let read = if fills then pos r.write else r.read in
            filter_chunk (record r1 { full = r1.full || fills; read = read }) num n t s
      ]

  -- The reader was given `room` items from the write index on, and wrote `p` into them.
  unfoldable pub received :
      RingFilter F T → ℕ → ℕ → F → ℤ × Option Error × List T × S → Run (Round F S T)
  unfolding after_read
  received r room n t (pos m, err, p, s) =
      after_read (record r { items = splice r.items r.write (take room p) }) m err n t s
  received r room n t (negsuc m, err, p, s) =
      let filled : RingFilter F T = record r { items = splice r.items r.write (take room p) } in
      ok (return (n, some ring_filter_negative_read, filled, t, s))

module _ {F S T : Type 0} (source : Source S T) where
  unfoldable pub read_round : RingFilter F T → ℕ → F → S → Run (Round F S T)
  unfolding received
  read_round r n t s = do
    free ← slice r.items r.write (length r.items)
    received r (length free) n t (source s free)

  unfoldable pub read_from_loop : ℕ → RingFilter F T → ℕ → F → S → Run (Outcome F S T)
  read_from_loop zero r n t s = out_of_fuel
  read_from_loop (suc fuel) r n t s = read_round r n t s >>= λ round. elim round [
    | return out ↦ ok out
    | continue n' r' t' s' ↦ read_from_loop fuel r' n' t' s'
  ]

  unfoldable pub read_from : ℕ → RingFilter F T → F → S → Run (Outcome F S T)
  read_from fuel r t s = read_from_loop fuel r 0 t s

module _ {F S T : Type 0} where
  -- The part after the write, which moves the read index.
  unfoldable pub sent : RingFilter F T → ℕ → F → ℤ × Option Error × S → Run (Round F S T)
  sent r n t (negsuc m, err, s) = ok (return (n, some ring_filter_negative_read, r, t, s))
  sent r n t (pos m, err, s) = do
    read ← rem (r.read +ℤ pos m) (length r.items)
    let r' : RingFilter F T = record r { full = false; read = read }
    if some_eof err then ok (return (n + m, none, r', t, s)) else elim err [
      | some e ↦ ok (return (n + m, some e, r', t, s))
      | none ↦ ok (continue (n + m) r' t s)
    ]

module _ {F S T : Type 0} (sink : Sink S T) where
  -- Write `r.items[r.read:hi]`.
  unfoldable pub write_part : RingFilter F T → ℕ → ℕ → F → S → Run (Round F S T)
  unfolding sent
  write_part r hi n t s = do lo ← index r.read; part ← slice r.items lo hi; sent r n t (sink s part)

  -- The default case, which the first one falls through to.
  unfoldable pub write_last : Round F S T → Run (Outcome F S T)
  unfolding write_part
  write_last (return out) = ok out
  write_last (continue n r t s) = write_part r r.write n t s >>= λ round. elim round [
    | return out ↦ ok out
    | continue n' r' t' s' ↦ ok (n', none, r', t', s')
  ]

  unfoldable pub write_to : RingFilter F T → F → S → Run (Outcome F S T)
  write_to r t s =
      if leb_ℤ (pos r.write) r.read
      then write_part r (length r.items) 0 t s >>= write_last
      else write_last (continue 0 r t s)
