-- ===== src/RingBuffer/Read/Item.antt =====
-- ReadItem, and UnreadItem after it.
use gbuf.Base.{
  ℕ, suc, ◌+◌, ◌-◌, ◌%◌, ◌<◌, ◌≡◌, refl, sym, ap, ◌∙◌, Bool, true, false, none, some, List, [], ◌∷◌,
  arith, ok, panic, length, get_elem?, Returns, Returns-of_eq,
}
use gbuf.Base.Pointwise.{get_elem?-in}
use native.Mathlib.Nat.{mod-eq_of_lt}
use gbuf.Base.Int.{pos, negsuc, pos_part, rem}
use gbuf.Errors.{ring_buffer_unread_item}
use gbuf.RingBuffer.{RingBuffer, unread_item}
use gbuf.RingBuffer.Contents.{
  rem-wrap, ring, wrap, unread_count, IsValid, valid, contents, Holds, length-contents,
  get_elem?-contents,
}
use gbuf.RingBuffer.Advance.{contents-advance}
use gbuf.RingBuffer.Read.{read_item}

module _ {T : Type 0} (f : Bool) (w k : ℕ) (xs : List T) (hw : w < length xs) (hk : k < length xs)
    (at : f ≡ true → k ≡ w) where
  read_item-ring :
      (x : T)
      → get_elem? xs k ≡ some x
      → read_item (ring f w k xs) ≡ ok (x, none, ring false w (wrap (length xs) (k + 1)) xs)
  unfolding read_item
  read_item-ring x e = rw (e, rem-wrap (k + 1) (length xs) (omega arith))

  oldest :
      (x : T) (q : List T)
      → contents (ring f w k xs) ≡ x ∷ q
      → (0 < unread_count f w k (length xs)) × (get_elem? xs k ≡ some x)
  oldest x q e =
      let size = length-contents f w k xs hw hk at in
      let head = get_elem?-contents f w k xs hw hk at 0 in
      let size' : suc (length q) ≡ unread_count f w k (length xs) = rw e at size in
      let head' = rw e at head in (omega arith, ground arith)

-- ReadItem on a buffer with unread items returns the oldest one, with no error, and drops it.
pub read_item_refines :
    {T : Type 0} {r : RingBuffer T} (x : T) (q : List T)
    → IsValid r
    → contents r ≡ x ∷ q
    → Returns
        (λ (item, err, r'). (item ≡ x) × (err ≡ none) × Holds (length r.items) q r')
        (read_item r)
read_item_refines x q (valid f w k xs hw hk at) e =
    let first = oldest f w k xs hw hk at x q e in
    Returns-of_eq (read_item-ring f w k xs hw hk at x first.1) (
      refl,
      refl,
      (
        valid false w (wrap (length xs) (k + 1)) xs hw (ground arith) (ground arith),
        refl,
        contents-advance f w k xs hw hk at 1 (omega arith) first.0 ∙ (rw e refl),
      ),
    )

-- ReadItem on an empty buffer does not return io.EOF: it returns a stale item of the storage with no
-- error, and the buffer then counts all items but one as unread.
pub read_item-empty :
    {T : Type 0} {r : RingBuffer T}
    → IsValid r
    → contents r ≡ []
    → Returns
        (λ (item, err, r').
          (get_elem? r.items r.write ≡ some item)
          × (err ≡ none)
          × IsValid r'
          × (length (contents r') ≡ length r.items - 1))
        (read_item r)
read_item-empty (valid f w k xs hw hk at) e =
    let size : unread_count f w k (length xs) ≡ 0 =
      sym (length-contents f w k xs hw hk at) ∙ ap length e in
    let here = get_elem?-in xs k hk in
    let k' = wrap (length xs) (k + 1) in
    let hk' : k' < length xs = ground arith in
    let at' : false ≡ true → k' ≡ w = ground arith in
    Returns-of_eq (read_item-ring f w k xs hw hk at here.0 here.1) (
      ground (arith, here.1),
      refl,
      valid false w k' xs hw hk' at',
      ground (arith, length-contents false w k' xs hw hk' at'),
    )

-- UnreadItem on a full buffer returns an error and changes nothing.
pub unread_item-full :
    {T : Type 0} {r : RingBuffer T}
    → r.full ≡ true
    → unread_item r ≡ ok (some ring_buffer_unread_item, r)
unfolding unread_item
unread_item-full h = rw h

-- UnreadItem takes back a ReadItem, from a state that is not full and whose read index is not at the
-- end of the storage: the state is the one before both.
pub unread_item-read_item :
    {T : Type 0} {r : RingBuffer T}
    → IsValid r
    → r.full ≡ false
    → pos_part r.read + 1 < length r.items
    → Returns (λ (item, err, r'). unread_item r' ≡ ok (none, r)) (read_item r)
unfolding unread_item
unread_item-read_item (valid f w k xs hw hk at) e h =
    let here = get_elem?-in xs k hk in
    let back : rem (pos k) (length xs) ≡ ok (pos k) =
      rem-wrap k (length xs) (omega arith) ∙ ground arith in
    Returns-of_eq (read_item-ring f w k xs hw hk at here.0 here.1)
      (ground (arith, back, mod-eq_of_lt hk))

-- UnreadItem at a read index of 0 returns no error and makes the index negative; the next ReadItem
-- panics.
pub unread_item-negative :
    {T : Type 0} {r : RingBuffer T}
    → IsValid r
    → r.full ≡ false
    → r.read ≡ pos 0
    → 1 < length r.items
    → Returns
        (λ (err, r'). (err ≡ none) × (r'.read ≡ negsuc 0) × (read_item r' ≡ panic))
        (unread_item r)
unfolding unread_item read_item
unread_item-negative (valid f w k xs hw hk at) e z h =
    let one : 1 % length xs ≡ 1 = mod-eq_of_lt h in
    Returns-of_eq {result = (none, record (ring f w k xs) { read = negsuc 0 })}
      (ground (arith, one)) (refl, refl, refl)
