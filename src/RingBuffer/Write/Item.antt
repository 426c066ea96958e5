-- ===== src/RingBuffer/Write/Item.antt =====
-- WriteItem against the list of unread items.
use gbuf.Base.{
  ℕ, ◌+◌, ◌<◌, ◌≡◌, refl, Bool, true, none, List, [], ◌∷◌, ◌++◌, arith, leb, if◌then◌else◌, ok,
  length, set, length-set, lt→ltb, Returns, Returns-of_eq,
}
use gbuf.Base.Pointwise.{get_elem?-set}
use gbuf.RingBuffer.{RingBuffer}
use gbuf.RingBuffer.Contents.{
  rem_ℕ-wrap, ring, wrap, unread_count, IsValid, valid, contents, last_n, Holds,
}
use gbuf.RingBuffer.Stored.{contents-stored}
use gbuf.RingBuffer.Write.{write_item}

module _ {T : Type 0} (f : Bool) (w k : ℕ) (xs : List T) (x : T) (hw : w < length xs)
    (hk : k < length xs) (at : f ≡ true → k ≡ w) where
  abbrev over : Bool
  over = leb (length xs) (unread_count f w k (length xs) + 1)

  abbrev w' : ℕ
  w' = wrap (length xs) (w + 1)

  write_item-ring :
      write_item (ring f w k xs) x ≡ ok (none, ring over w' (if over then w' else k) (set xs w x))
  unfolding write_item
  write_item-ring = rw (rem_ℕ-wrap (w + 1) (length xs) (omega arith), lt→ltb hw) (ground arith)

  write_item-Holds :
      Holds
        (length xs)
        (last_n (length xs) (contents (ring f w k xs) ++ (x ∷ [])))
        (ring over w' (if over then w' else k) (set xs w x))
  write_item-Holds =
      let same = length-set xs w x in
      (
        valid over w' (if over then w' else k) (set xs w x) (rw same (ground arith))
            (rw same (ground arith)) (ground arith),
        same,
        contents-stored f w k xs (x ∷ []) (set xs w x) hw hk at (omega arith) same over w'
            (if over then w' else k) refl refl refl λ j hj. ground (arith, get_elem?-set xs w x j),
      )

-- WriteItem on a well-formed buffer returns no error, and leaves the last items of what was unread
-- followed by the new one, as many as the capacity allows.
pub write_item_refines :
    {T : Type 0} {r : RingBuffer T} (x : T)
    → IsValid r
    → Returns
        (λ (err, r').
          (err ≡ none)
          × Holds (length r.items) (last_n (length r.items) (contents r ++ (x ∷ []))) r')
        (write_item r x)
write_item_refines x (valid f w k xs hw hk at) =
    Returns-of_eq (write_item-ring f w k xs x hw hk at) (refl, write_item-Holds f w k xs x hw hk at)
