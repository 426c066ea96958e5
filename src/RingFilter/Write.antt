-- ===== src/RingFilter/Write.antt =====
-- ringfilter.go: Write with its helpers, and WriteItem.
use gbuf.Base.{
  ℕ, ◌+◌, ◌-◌, true, ◌&&◌, ◌||◌, Option, none, some, List, [], ◌∷◌, ltb, if◌then◌else◌, Run, ok,
  ◌>>=◌, ◌>>◌, require, length, set, copy_into, slice,
}
use gbuf.Base.Int.{pos, eqb_ℤ, ltb_ℤ, leb_ℤ, rem_ℕ}
use gbuf.Errors.{Error}
use gbuf.RingFilter.{RingFilter}

-- The results are n and err, the new state, and that of the process function.
abbrev pub WriteRun : Type 0 → Type 0 → Type 0
WriteRun S T = Run (ℕ × Option Error × RingFilter S T × S)

module _ {S T : Type 0} where
  unfoldable pub write_within_bounds : RingFilter S T → List T → ℕ → S → WriteRun S T
  write_within_bounds r p end s = do
    (items, n) ← copy_into r.items r.write end p
    let (err, s') = r.fn s p
    let full = r.full || (ltb_ℤ (pos r.write) r.read && leb_ℤ r.read (pos end))
    let read = if full then pos end else r.read
    ok (n, err, record r { full = full; write = end; read = read; items = items }, s')

  unfoldable pub write_wrapped : RingFilter S T → List T → ℕ → S → WriteRun S T
  write_wrapped r p end s = do
    end_wrapped ← rem_ℕ end (length r.items)
    (items, n) ← copy_into r.items r.write (length r.items) p
    rest ← slice p n (length p)
    (items', m) ← copy_into items 0 end_wrapped rest
    let (err, s') = r.fn s p
    let full = r.full || (ltb_ℤ (pos r.write) r.read && leb_ℤ r.read (pos end))
    let overtaken = full || leb_ℤ r.read (pos end_wrapped)
    let read = if overtaken then pos end_wrapped else r.read
    ok (
      n + m,
      err,
      record r { full = overtaken; write = end_wrapped; read = read; items = items' },
      s',
    )

  unfoldable pub write_within_capacity : RingFilter S T → List T → S → WriteRun S T
  unfolding write_within_bounds write_wrapped
  write_within_capacity r p s =
      let end = r.write + length p in
      if ltb end (length r.items) then write_within_bounds r p end s else write_wrapped r p end s

  unfoldable pub write : RingFilter S T → List T → S → WriteRun S T
  unfolding write_within_capacity
  write r p s = if ltb (length p) (length r.items) then write_within_capacity r p s else do
    last ← slice p (length p - length r.items) (length p)
    (items, _) ← copy_into r.items 0 (length r.items) last
    let r' : RingFilter S T = record r { full = true; read = pos r.write; items = items }
    let (err, s') = r.fn s p
    elim err [ some e ↦ ok (0, some e, r', s') | none ↦ ok (length r.items, none, r', s') ]

  unfoldable pub write_item : RingFilter S T → T → S → Run (Option Error × RingFilter S T × S)
  write_item r item s = do
    next ← rem_ℕ (r.write + 1) (length r.items)
    let moved : RingFilter S T =
        if r.full
        then record r { read = pos next }
        else if eqb_ℤ (pos next) r.read
        then record r { full = true }
        else r
    require (ltb r.write (length r.items))
    let (err, s') = r.fn s (item ∷ [])
    ok (err, record moved { write = next; items = set r.items r.write item }, s')
