-- ===== src/RingFilter/Clear.antt =====
-- ringfilter.go: where Reset and UnreadItem differ from those of ringbuffer.go.
use gbuf.Base.{
  ℕ, ◌+◌, ◌<◌, ◌≡◌, refl, Bool, false, none, some, List, [], arith, ok, length, replicate,
  get_elem?, take, ◌++◌, take_all, if◌then◌else◌, length-replicate, Returns, returns,
}
use mathlib.Core.List.{append-nil}
use gbuf.Base.Pointwise.{get_elem?-in}
use gbuf.Base.Int.{pos}
use gbuf.Errors.{ring_filter_unread_item}
use gbuf.RingBuffer.{RingBuffer}
use gbuf.RingBuffer.Contents.{wrap, rem-wrap, IsValid, valid, contents, Holds}
use gbuf.RingFilter.{RingFilter, Filter, ring_of, reset, unread_item}
use gbuf.RingFilter.Read.{read_item}

has_room : {T : Type 0} {b : RingBuffer T} → IsValid b → 0 < length b.items
has_room (valid f w k xs hw hk at) = omega arith

module _ {S T : Type 0} (z : T) where
  -- Reset of a well-formed filter keeps its capacity. It empties one that is not full; a full one
  -- stays full, and the zero values of its whole storage count as unread.
  pub reset-contents :
      (r : RingFilter S T)
      → IsValid (ring_of r)
      → Holds
          (length r.items)
          (if r.full then replicate (length r.items) z else [])
          (ring_of (reset z r))
  unfolding reset contents
  reset-contents r v =
      let size = length-replicate (length r.items) z in
      let some_room : 0 < length r.items = has_room v in
      let all : take (length (replicate (length r.items) z)) (replicate (length r.items) z ++ [])
          ≡ replicate (length r.items) z =
        rw (append-nil (replicate (length r.items) z)) (take_all _ _ (omega arith)) in
      (
        valid r.full 0 0 (replicate (length r.items) z) (omega (arith, size)) (omega (arith, size))
            (λ _. refl),
        size,
        ground (arith, all),
      )

module _ {S T : Type 0} (fn : Filter S T) where
  abbrev pub filter : Bool → ℕ → ℕ → List T → RingFilter S T
  filter f w k xs = record { full = f; write = w; read = pos k; fn = fn; items = xs }

  -- After ReadItem has read the only unread item of a filter that is not full, UnreadItem fails.
  pub unread_item-drained :
      (k : ℕ) (xs : List T)
      → k < length xs
      → Returns
          (λ (item, err, r').
            (some item ≡ get_elem? xs k)
            × (err ≡ none)
            × (unread_item r' ≡ ok (some ring_filter_unread_item, r')))
          (read_item (filter false (wrap (length xs) (k + 1)) k xs))
  unfolding read_item unread_item
  unread_item-drained k xs hk =
      let (x, at) = get_elem?-in xs k hk in
      rw (at, rem-wrap (k + 1) (length xs) (omega arith)) (returns (refl, refl, ground arith))
