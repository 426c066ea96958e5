-- ===== src/Gbufio/Writer/Item.antt =====
-- WriteItem of a Writer, for a writer that does what the interface asks.
use gbuf.Base.{
  ℕ, suc, ◌+◌, ◌-◌, ◌≤◌, ◌<◌, ◌≡◌, refl, sym, ap, ◌∙◌, inl, inr, Option, none, some, List, [], ◌∷◌,
  ◌++◌, arith, ok, length, set, take, length-take, length-set, list_ext, lt-or-le, lt→ltb, lt→leb,
  Returns, returns, Returns-bind, Returns-of_eq, Returns-map, ◌>>=◌,
}
use mathlib.Core.List.{append-nil, append_assoc}
use gbuf.Base.Pointwise.{get_elem?-append, get_elem?-take, get_elem?-set, get_elem?-out}
use gbuf.Base.Int.{pos, ◌-ℤ◌}
use gbuf.Errors.{Error}
use gbuf.Streams.{Sink}
use gbuf.Gbufio.Writer.{Writer, flush, store_item, write_item}
use gbuf.Gbufio.Writer.Flush.{Honest, writer, IsWithin, stream, FlushSpec, flush_lem}

module _ {T : Type 0} where
  -- The items that a call of WriteItem with this error has taken.
  abbrev pub accepted : Option Error → T → List T
  accepted none c = (c ∷ [])
  accepted (some e) c = []

module _ {S T : Type 0} where
  -- What WriteItem owes its caller.
  abbrev pub ItemSpec : (S → List T) → Writer S T → T → S → Option Error × Writer S T × S → Type 0
  ItemSpec out b c s (err, b', s') =
      (stream out s' b' ≡ stream out s b ++ accepted err c)
      × IsWithin b'
      × (length b'.buf ≡ length b.buf)
      × (b'.wr ≡ b.wr)
      × (b'.err ≡ err)

module _ {T : Type 0} where
  -- The item is put behind those that wait.
  stored :
      (xs : List T) (k : ℕ) (c : T)
      → k < length xs
      → take (k + 1) (set xs k c) ≡ take k xs ++ (c ∷ [])
  stored xs k c h = list_ext _ _ λ i. ground (
    arith,
    get_elem?-take (k + 1) (set xs k c) i,
    get_elem?-set xs k c i,
    get_elem?-append (take k xs) (c ∷ []) i,
    length-take k xs,
    get_elem?-take k xs i,
    get_elem?-out (c ∷ []) (i - length (take k xs)),
  )

module _ {S T : Type 0} {sink : Sink S T} {out : S → List T} (honest : Honest sink out) where
  store_lem :
      (xs : List T) (k : ℕ) (c : T) (s : S)
      → k < length xs
      → Returns (ItemSpec out (writer none xs k sink) c s) (store_item (writer none xs k sink) c s)
  unfolding store_item
  store_lem xs k c s h = rw (lt→ltb h) (
      returns (
        ap (λ c. out s ++ c) (stored xs k c h) ∙ sym (append_assoc (out s) (take k xs) (c ∷ [])),
        (refl, omega (arith, length-set xs k c)),
        length-set xs k c,
        refl,
        refl,
      ))

  free_room :
      (xs : List T) (k : ℕ) (c : T) (s : S)
      → k < length xs
      → write_item (writer none xs k sink) c s ≡ store_item (writer none xs k sink) c s
  unfolding write_item
  free_room xs k c s h =
      let room : (pos (length xs) -ℤ pos k) ≡ pos (length xs - k) = ground arith in
      rw (room, lt→leb {a = length xs - k} {b = 0} (omega arith)) refl

  no_room :
      (xs : List T) (c : T) (s : S)
      → write_item (writer none xs (length xs) sink) c s ≡ (do
        (err, b', s') ← flush (writer none xs (length xs) sink) s
        elim err [ some e ↦ ok (b'.err, b', s') | none ↦ store_item b' c s' ])
  unfolding write_item
  no_room xs c s =
      let room : (pos (length xs) -ℤ pos (length xs)) ≡ pos 0 = ground arith in rw (room) refl

  after_flush :
      (b b' : Writer S T) (c : T) (s s' : S) (err : Option Error)
      → 0 < length b.buf
      → FlushSpec out b s (err, b', s')
      → b.wr ≡ sink
      → Returns
          (ItemSpec out b c s)
          (elim err [ some e ↦ ok (b'.err, b', s') | none ↦ store_item b' c s' ])
  after_flush b b' c s s' (some e) h (sent, within, size, same, kept, end) honest_one =
      Returns-of_eq {result = (some e, b', s')} (λ i. ok (kept i, b', s'))
        (sent ∙ sym (append-nil (stream out s b)), within, size, same, kept)
  after_flush b b' c s s' none h (sent, within, size, same, kept, inl (fine, empty)) honest_one =
      let fresh : b' ≡ writer none b'.buf 0 sink =
        λ i. record { err = kept i; buf = b'.buf; n = empty i; wr = (same ∙ honest_one) i } in
      rw fresh (
        Returns-map (store_lem b'.buf 0 c s' (omega (arith, size)))
          λ (err, b₁, s₁) (put, within₁, size₁, same₁, kept₁). (
            put ∙ ap (λ x. x ++ accepted err c) (ap (λ x. stream out s' x) (sym fresh) ∙ sent),
            within₁,
            size₁ ∙ size,
            same₁ ∙ sym honest_one,
            kept₁,
          ))
  after_flush b b' c s s' none h (sent, within, size, same, kept, inr (e, broken)) honest_one =
      ground arith

  pub write_item_lem :
      (xs : List T) (k : ℕ) (c : T) (s : S)
      → k ≤ length xs
      → 0 < length xs
      → Returns (ItemSpec out (writer none xs k sink) c s) (write_item (writer none xs k sink) c s)
  write_item_lem xs k c s hk h = elim (lt-or-le (length xs) (suc k)) [
    | inr free ↦ rw (free_room xs k c s free) (store_lem xs k c s free)
    | inl full ↦
        let e : k ≡ length xs = omega arith in
        rw (e, no_room xs c s)
          (Returns-bind (flush_lem honest xs (length xs) s (omega arith)) λ (err, b', s') spec.
            after_flush (writer none xs (length xs) sink) b' c s s' err h spec refl)
  ]
