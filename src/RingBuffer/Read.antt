-- ===== src/RingBuffer/Read.antt =====
-- ringbuffer.go: Read, Value, Next, ReadItems and ReadItem.
pub mod Copies
pub mod Refines
pub mod Item
pub mod Value
pub mod Items
use gbuf.Base.{
  ℕ, zero, suc, ◌+◌, ◌-◌, Bool, true, false, ◌&&◌, Option, none, some, List, [], ◌∷◌, ◌++◌, ltb,
  leb, ◌==◌, if◌then◌else◌, Run, ok, panic, ◌>>=◌, ◌>>◌, length, get_elem?, take, drop, replicate,
  copy_into, slice,
}
use gbuf.Base.Int.{ℤ, pos, negsuc, ◌+ℤ◌, eqb_ℤ, ltb_ℤ, leb_ℤ, index, rem}
use gbuf.Errors.{Error}
use gbuf.RingBuffer.{RingBuffer, len}

-- The results are n, err, the contents of the slice `p` after the call, and the new state.
abbrev pub ReadRun : Type 0 → Type 0
ReadRun T = Run (ℕ × Option Error × List T × RingBuffer T)

module _ {T : Type 0} where
  -- The case `r.read >= r.write` of Read.
  unfoldable pub read_around : RingBuffer T → List T → ReadRun T
  read_around r p = do
    lo ← index r.read
    upper ← slice r.items lo (length r.items)
    (p', n) ← copy_into p 0 (length p) upper
    let stop : ReadRun T = do
      at ← rem (r.read +ℤ pos n) (length r.items)
      ok (n, none, p', record r { full = false; read = at })
    let go_on : ReadRun T = do
      lower ← slice r.items 0 r.write
      (p'', m) ← copy_into p' n (length p') lower
      at ← rem (r.read +ℤ pos (n + m)) (length r.items)
      ok (n + m, none, p'', record r { full = false; read = at })
    if leb (length p) n then stop else go_on

  -- Its default case.
  unfoldable pub read_straight : RingBuffer T → List T → ReadRun T
  read_straight r p = do
    lo ← index r.read
    unread ← slice r.items lo r.write
    (p', n) ← copy_into p 0 (length p) unread
    ok (n, none, p', record r { read = r.read +ℤ pos n })

  unfoldable pub read : RingBuffer T → List T → ReadRun T
  unfolding len read_around read_straight
  read r p = if length p == 0 then ok (0, none, p, r) else do
    unread ← len r
    if eqb_ℤ unread (pos 0)
        then ok (0, none, p, r)
        else if leb_ℤ (pos r.write) r.read
        then read_around r p
        else read_straight r p

  unfoldable pub read_item : RingBuffer T → Run (T × Option Error × RingBuffer T)
  read_item r = do
    i ← index r.read
    item ← elim (get_elem? r.items i) [ none ↦ panic | some x ↦ ok x ]
    at ← rem (r.read +ℤ pos 1) (length r.items)
    ok (item, none, record r { full = false; read = at })

  -- The items before the first that `delim` accepts, and whether there is such a one.
  unfoldable pub scan : (T → Bool) → List T → List T × Bool
  scan delim [] = ([], false)
  scan delim (x ∷ xs) =
      let (line, found) = scan delim xs in if delim x then ([], true) else (x ∷ line, found)

  -- The loop over `r.items[r.read:]`, which stands in the first case only.
  unfoldable pub scan_upper : RingBuffer T → (T → Bool) → Run (List T × Bool)
  unfolding scan
  scan_upper r delim =
      if leb_ℤ (pos r.write) r.read
      then index r.read >>= (λ lo. ok (scan delim (drop lo r.items)))
      else ok ([], false)

  unfoldable pub read_items : RingBuffer T → (T → Bool) → Run (List T × Option Error × RingBuffer T)
  unfolding scan scan_upper
  read_items r delim = do
    (upper, found) ← scan_upper r delim
    let around : Run (List T) = do
      below ← slice r.items 0 r.write
      ok (upper ++ (scan delim below).0)
    line ← if found then ok upper else around
    if length line == 0 then ok ([], none, r) else do
      at ← rem (r.read +ℤ pos (length line)) (length r.items)
      ok (line, none, record r { full = false; read = at })

module _ {T : Type 0} (zero_value : T) where
  unfoldable pub value : RingBuffer T → Run (List T × RingBuffer T)
  value r =
      let size = length r.items in
      if ltb_ℤ r.read (pos r.write)
      then (do
        lo ← index r.read
        unread ← slice r.items lo r.write
        (out, _) ← copy_into (replicate (r.write - lo) zero_value) 0 (r.write - lo) unread
        ok (out, record r { read = pos r.write }))
      else if eqb_ℤ r.read (pos 0)
      then (do (out, _) ← copy_into (replicate size zero_value) 0 size r.items; ok (out, r))
      else (do
        lo ← index r.read
        upper ← slice r.items lo size
        (out, _) ← copy_into (replicate size zero_value) 0 (size - lo) upper
        lower ← slice r.items 0 lo
        (out', _) ← copy_into out (size - lo) size lower
        ok (out', r))

  -- A nil slice is the empty list.
  unfoldable pub next : RingBuffer T → ℤ → Run (List T × RingBuffer T)
  next r n = if leb_ℤ n (pos 0) then ok ([], r) else do
    unread ← len r
    if ltb_ℤ unread n then value r else do
      size ← index n
      (_, err, items, r') ← read r (replicate size zero_value)
      elim err [ none ↦ ok (items, r') | some _ ↦ ok ([], r') ]
