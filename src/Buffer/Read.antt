-- ===== src/Buffer/Read.antt =====
-- buffer.go: Read, Next, ReadItem, UnreadItem and ReadItems.
pub mod Refines
pub mod Items
use gbuf.Base.{
  ℕ, suc, ◌+◌, ◌-◌, Bool, true, false, not, Option, none, some, List, [], ◌∷◌, ltb, leb, ◌==◌,
  if◌then◌else◌, Run, ok, panic, ◌>>=◌, length, get_elem?, copy_into, slice, min,
}
use gbuf.Errors.{Error, eof, buffer_unread_item}
use gbuf.Buffer.{Buffer, empty, len, reset}

module _ {T : Type 0} where
  unfoldable pub read : Buffer T → List T → Run (ℕ × Option Error × List T × Buffer T)
  unfolding empty reset
  read b p = if empty b then ok (0, (if length p == 0 then none else some eof), p, reset b) else (do
    unread ← slice b.array b.off b.size
    (p', n) ← copy_into p 0 (length p) unread
    ok (n, none, p', record b { off = b.off + n; is_reading = ltb 0 n }))

  -- The count `n` is not negative; for a negative one the slice expression panics.
  unfoldable pub next : Buffer T → ℕ → Run (List T × Buffer T)
  unfolding len
  next b n =
      let k : ℕ = if ltb (len b) n then len b else n in
      slice b.array b.off (b.off + k) >>= λ items.
      ok (items, record b { off = b.off + k; is_reading = ltb 0 k })

  unfoldable pub unread_item : Buffer T → Option Error × Buffer T
  unread_item b =
      if b.is_reading
      then (none, record b { off = b.off - 1; is_reading = false })
      else (some buffer_unread_item, b)

  -- The number of items up to the first that `delim` accepts, with it, and none if there is none.
  unfoldable pub find : (T → Bool) → List T → Option ℕ
  find delim [] = none
  find delim (x ∷ xs) =
      let rest = find delim xs in
      if delim x then some 1 else elim rest [ none ↦ none | some n ↦ some (suc n) ]

  unfoldable pub read_slice : Buffer T → (T → Bool) → Run (List T × Option Error × Buffer T)
  unfolding find
  read_slice b delim = do
    unread ← slice b.array b.off b.size
    let found = find delim unread
    let end : ℕ = elim found [ none ↦ b.size | some n ↦ b.off + n ]
    let err : Option Error = elim found [ none ↦ some eof | some n ↦ none ]
    line ← slice b.array b.off end
    ok (line, err, record b { off = end; is_reading = true })

  -- It returns a copy of the line.
  unfoldable pub read_items : Buffer T → (T → Bool) → Run (List T × Option Error × Buffer T)
  unfolding read_slice
  read_items b delim = read_slice b delim

module _ {T : Type 0} (zero_value : T) where
  unfoldable pub read_item : Buffer T → Run (T × Option Error × Buffer T)
  unfolding empty reset
  read_item b = if empty b then ok (zero_value, some eof, reset b) else (do
    c ← elim (get_elem? b.array b.off) [ none ↦ panic | some x ↦ ok x ]
    ok (c, none, record b { off = b.off + 1; is_reading = true }))
