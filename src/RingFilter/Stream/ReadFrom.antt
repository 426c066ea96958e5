-- ===== src/RingFilter/Stream/ReadFrom.antt =====
-- ringfilter.go: ReadFrom, for a reader that delivers its items and ends, and a process function
-- that accepts all it is given.
use gbuf.Base.{
  ℕ, zero, suc, ◌+◌, ◌-◌, ◌≤◌, ◌<◌, ◌≡◌, refl, ◌∙◌, ap, Bool, true, none, some, List, ◌++◌, arith,
  ok, length, take, drop, splice, length-append, length-take, slice-ok, Returns, returns,
  Returns-map, list_ext,
}
use mathlib.Core.List.{append-nil, append_assoc}
use gbuf.Base.Pointwise.{
  get_elem?-append, get_elem?-drop, get_elem?-take, get_elem?-splice, get_elem?-out,
}
use gbuf.Base.Int.{pos}
use gbuf.Errors.{eof}
use gbuf.Streams.{Source}
use gbuf.RingBuffer.{RingBuffer}
use gbuf.RingBuffer.Contents.{rem_ℕ-wrap, IsValid, valid, contents, last_n, Holds}
use gbuf.RingBuffer.Stream.ReadFrom.{
  Delivers, ends, gives, free, length-free, filled, unchanged, next_ring, length-filled,
  next_ring-Holds, kept, rejoined,
}
use gbuf.RingFilter.{RingFilter, Filter, ring_of, with_ring}
use gbuf.RingFilter.Stream.{Outcome, return, continue, read_round, read_from_loop, read_from}

module _ {F S T : Type 0} (source : Source S T) (fn : Filter F T) where
  -- The filter with these fields.
  abbrev pub filter : Bool → ℕ → ℕ → List T → RingFilter F T
  filter f w k xs = record { full = f; write = w; read = pos k; fn = fn; items = xs }

  module _ (f : Bool) (w k : ℕ) (xs : List T) (hw : w < length xs) (hk : k < length xs)
      (at : f ≡ true → k ≡ w) where
    delivered :
        (chunk : List T)
        → length chunk ≤ length xs - w
        → take (w + length chunk - w) (drop w (filled source f w k xs hw hk at chunk)) ≡ chunk
    delivered chunk fits = list_ext _ _ λ i.
        let p = chunk ++ drop (length chunk) (free source f w k xs hw hk at) in
        let room = length (free source f w k xs hw hk at) in
        ground (
          arith,
          length-free source f w k xs hw hk at,
          get_elem?-take (w + length chunk - w) (drop w (splice xs w (take room p))) i,
          get_elem?-drop w (splice xs w (take room p)) i,
          get_elem?-splice xs w (take room p) (w + i),
          length-take room p,
          length-append chunk (drop (length chunk) (free source f w k xs hw hk at)),
          get_elem?-take room p (w + i - w),
          get_elem?-append chunk (drop (length chunk) (free source f w k xs hw hk at)) (w + i - w),
          get_elem?-out chunk i,
        )

    module _ (n : ℕ) (t : F) (s s' : S) where
      round-ends :
          ((b : List T) → length b ≡ length xs - w → source s b ≡ (pos 0, some eof, b, s'))
          → read_round source (filter f w k xs) n t s
            ≡ ok (return (n, none, filter f w k xs, t, s'))
      unfolding read_round
      round-ends e =
          rw
            (
              slice-ok xs w (length xs) (omega arith) (omega arith),
              e _ (length-free source f w k xs hw hk at),
              unchanged source f w k xs hw hk at,
            )
            (ground arith)

      round-gives :
          (t' : F) (chunk : List T)
          → length chunk ≤ length xs - w
          → ((b : List T)
              → length b ≡ length xs - w
              → source s b ≡ (pos (length chunk), none, chunk ++ drop (length chunk) b, s'))
          → fn t chunk ≡ (none, t')
          → read_round source (filter f w k xs) n t s
            ≡ ok (
                continue
                  (n + length chunk)
                  (with_ring (filter f w k xs) (next_ring source f w k xs hw hk at chunk))
                  t'
                  s')
      unfolding read_round
      round-gives t' chunk fits e call =
          let same = length-filled source f w k xs hw hk at chunk in
          let asked : fn t
                (take (w + length chunk - w) (drop w (filled source f w k xs hw hk at chunk)))
              ≡ (none, t') =
            ap (fn t) (delivered chunk fits) ∙ call in
          rw
            (
              slice-ok xs w (length xs) (omega arith) (omega arith),
              e _ (length-free source f w k xs hw hk at),
              slice-ok (filled source f w k xs hw hk at chunk) w (w + length chunk) (omega arith)
                  (omega (arith, same)),
              asked,
              same,
            )
            (ground (arith, rem_ℕ-wrap (w + length chunk) (length xs)))

module _ {F S T : Type 0} where
  -- What ReadFrom owes its caller, as for RingBuffer, with the items that the process function has
  -- logged: those before, and then the ones read.
  abbrev pub FilterReadFromSpec :
      (F → List T) → ℕ → List T → ℕ → F → List T → Outcome F S T → Type 0
  FilterReadFromSpec log size q n t items (count, err, r', t', s') =
      (count ≡ n + length items)
      × (err ≡ none)
      × (log t' ≡ log t ++ items)
      × Holds size (last_n size (q ++ items)) (ring_of r')

  module _ (source : Source S T) (fn : Filter F T) (log : F → List T) (push : F → List T → F)
      (accepts : (t : F) (p : List T) → fn t p ≡ (none, push t p))
      (logs : (t : F) (p : List T) → log (push t p) ≡ log t ++ p) where
    abbrev on : RingBuffer T → RingFilter F T
    on b = record { full = b.full; write = b.write; read = b.read; fn = fn; items = b.items }

    loop_refines :
        (size n : ℕ) {w : ℕ} {s : S} {items : List T} {k : ℕ} (fuel : ℕ) {b : RingBuffer T} (t : F)
        → Delivers source size w s items k
        → IsValid b
        → b.write ≡ w
        → length b.items ≡ size
        → k < fuel
        → Returns
            (FilterReadFromSpec log size (contents b) n t items)
            (read_from_loop source fuel (on b) n t s)
    unfolding read_from_loop
    loop_refines size n zero t d v e z h = absurd (omega arith)
    loop_refines size n (suc fuel) t (ends s' call) (valid f w k xs hw hk at) e z h =
        let ended =
          round-ends source fn f w k xs hw hk at n t _ s' (λ b eq. call b (omega arith)) in
        rw ended (
          returns (
            omega arith,
            refl,
            rw (append-nil (log t)) refl,
            (valid f w k xs hw hk at, z, kept source f w k xs hw hk at size z),
          ))
    loop_refines size n (suc fuel) t (gives s' chunk rest k' fits call d) (valid f w k xs hw hk at)
          e z h =
        let fits' : length chunk ≤ length xs - w = omega arith in
        let given =
          round-gives source fn f w k xs hw hk at n t _ s' (push t chunk) chunk fits'
            (λ b eq. call b (omega arith)) (accepts t chunk) in
        let (v, same, q) = next_ring-Holds source f w k xs hw hk at chunk fits' in
        rw given (
          Returns-map
            (loop_refines size (n + length chunk) fuel
              {b = next_ring source f w k xs hw hk at chunk} (push t chunk) d v (ground arith)
              (same ∙ z) (omega arith))
            λ (count, err, r', t', s'') (c, no_error, logged, h'). (
              omega (arith, length-append chunk rest),
              no_error,
              rw (logged, logs t chunk, append_assoc) refl,
              (h'.0, h'.1, h'.2 ∙ rejoined source f w k xs hw hk at size z chunk rest fits'),
            ))

  -- ReadFrom of a filter whose process function accepts and logs what it is given, from a reader that
  -- delivers `items` in `k` reads, each of which leaves the rest of its slice as it was, and then
  -- io.EOF, on fuel above `k`, does not panic and returns their number and no error. The function has seen each of them once, in their order, and the filter
  -- holds the last items of what was unread followed by them, as many as the capacity allows.
  pub filter_read_from_refines :
      (source : Source S T) {r : RingFilter F T} (log : F → List T) (push : F → List T → F)
      → ((t : F) (p : List T) → r.fn t p ≡ (none, push t p))
      → ((t : F) (p : List T) → log (push t p) ≡ log t ++ p)
      → {s : S} {items : List T} {k : ℕ} (fuel : ℕ) (t : F) → IsValid (ring_of r)
      → Delivers source (length r.items) r.write s items k
      → k < fuel
      → Returns
          (FilterReadFromSpec log (length r.items) (contents (ring_of r)) 0 t items)
          (read_from source fuel r t s)
  unfolding read_from
  filter_read_from_refines source {r} log push accepts logs fuel t v d h =
      loop_refines source r.fn log push accepts logs (length r.items) 0 fuel {b = ring_of r} t d v
        refl refl h
