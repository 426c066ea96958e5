-- ===== src/Buffer/Write/Refines.antt =====
-- Write and WriteItem of a Buffer against the list of unread items.
use gbuf.Base.{
  ℕ, ◌+◌, ◌-◌, ◌≤◌, ◌<◌, ◌≡◌, refl, ◌∙◌, sym, false, none, List, [], ◌∷◌, ◌++◌, arith, length, take,
  drop, set, splice, copy_into-ok, length-take, length-drop, length-set, list_ext, Returns, returns,
  Returns-bind, lt→ltb,
}
use gbuf.Base.Pointwise.{
  get_elem?-append, get_elem?-drop, get_elem?-take, get_elem?-splice, get_elem?-out, get_elem?-set,
  length-splice,
}
use gbuf.Base.Int.{max_int}
use gbuf.Buffer.{Buffer}
use gbuf.Buffer.Contents.{IsWithin, contents}
use gbuf.Buffer.Write.{write, write_item}
use gbuf.Buffer.Write.Room.{make_room_lem}

module _ {T : Type 0} where
  module _ (zero_value : T) (rounded : ℕ → ℕ) (enough : (c : ℕ) → c ≤ rounded c) where
    stored :
        (a q p : List T) (m o : ℕ)
        → o ≤ m
        → m + length p ≤ length a
        → take (m - o) (drop o a) ≡ q
        → take (m + length p - o) (drop o (splice a m (take (m + length p - m) p))) ≡ q ++ p
    stored a q p m o h k e = rw (sym e) (
        list_ext _ _ λ i. ground (
          arith,
          get_elem?-take (m + length p - o) (drop o (splice a m (take (m + length p - m) p))) i,
          get_elem?-drop o (splice a m (take (m + length p - m) p)) i,
          get_elem?-splice a m (take (m + length p - m) p) (o + i),
          length-take (m + length p - m) p,
          get_elem?-take (m + length p - m) p (o + i - m),
          get_elem?-append (take (m - o) (drop o a)) p i,
          length-take (m - o) (drop o a),
          length-drop o a,
          get_elem?-take (m - o) (drop o a) i,
          get_elem?-drop o a i,
          get_elem?-out p (o + i - m),
        ))

    set_last :
        (a q : List T) (item : T) (m o : ℕ)
        → o ≤ m
        → m < length a
        → take (m - o) (drop o a) ≡ q
        → take (m + 1 - o) (drop o (set a m item)) ≡ q ++ (item ∷ [])
    set_last a q item m o h k e = rw (sym e) (
        list_ext _ _ λ i. ground (
          arith,
          get_elem?-take (m + 1 - o) (drop o (set a m item)) i,
          get_elem?-drop o (set a m item) i,
          get_elem?-set a m item (o + i),
          get_elem?-append (take (m - o) (drop o a)) (item ∷ []) i,
          length-take (m - o) (drop o a),
          length-drop o a,
          get_elem?-take (m - o) (drop o a) i,
          get_elem?-drop o a i,
          get_elem?-out (item ∷ []) (i - length (take (m - o) (drop o a))),
        ))

    -- Write of a well-formed Buffer, where twice its capacity and the slice's length stay within an
    -- int, appends the slice to the unread items, and returns its length and no error.
    pub buffer_write_refines :
        (b : Buffer T) (p : List T)
        → IsWithin b
        → length b.array + length b.array + length p ≤ max_int
        → Returns
            (λ (n, err, b').
              (n ≡ length p)
              × (err ≡ none)
              × IsWithin b'
              × (contents b' ≡ contents b ++ p)
              × (b'.is_reading ≡ false))
            (write zero_value rounded b p)
    unfolding write contents
    buffer_write_refines b p v h =
        Returns-bind (make_room_lem zero_value rounded enough b (length p) v h)
          λ (m, b') (e, ho, hs, hz, q, r).
            let same = length-splice b'.array m (take (b'.size - m) p) in
            rw (copy_into-ok b'.array m b'.size p (omega arith) hs) (
              returns (
                omega arith,
                refl,
                (omega arith, omega (arith, same), λ y. same ∙ hz y),
                rw e (stored b'.array (contents b) p m b'.off ho (omega arith) q),
                r,
              ))

    -- WriteItem likewise appends the item, and returns no error.
    buffer_write_item_refines :
        (b : Buffer T) (item : T)
        → IsWithin b
        → length b.array + length b.array + 1 ≤ max_int
        → Returns
            (λ (err, b').
              (err ≡ none)
              × IsWithin b'
              × (contents b' ≡ contents b ++ (item ∷ []))
              × (b'.is_reading ≡ false))
            (write_item zero_value rounded b item)
    unfolding write_item contents
    buffer_write_item_refines b item v h =
        Returns-bind (make_room_lem zero_value rounded enough b 1 v h)
          λ (m, b') (e, ho, hs, hz, q, r).
            let same = length-set b'.array m item in
            rw (lt→ltb {a = m} {b = b'.size} (omega arith)) (
              returns (
                refl,
                (omega arith, omega (arith, same), λ y. same ∙ hz y),
                rw e (set_last b'.array (contents b) item m b'.off ho (omega arith) q),
                r,
              ))
