-- ===== src/Gbufio/Reader/Items.antt =====
-- ReadItem, Read and Peek of a Reader, for a reader that does what the interface asks.
use gbuf.Base.{
  ℕ, zero, suc, ◌+◌, ◌-◌, ◌<◌, ◌≡◌, refl, sym, subst, ◌⊎◌, inl, inr, true, false, Option, none,
  some, List, [], ◌∷◌, arith, ◌==◌, ok, length, take, drop, get_elem?, list_ext, lt-or-le, Returns,
  returns, Returns-map, Returns-bind, ◌>>=◌,
}
use gbuf.Base.Pointwise.{get_elem?-drop, get_elem?-take, get_elem?-in}
use gbuf.Errors.{Error, invalid_unread_item}
use gbuf.Streams.{Source}
use gbuf.Gbufio.Reader.{Reader, fill, read_err}
use gbuf.Gbufio.Reader.Read.{take_item, read_item, unread_item}
use gbuf.Gbufio.Reader.Stream.{Honest, IsWithin, unread, Moved, Moved-then, still}
use gbuf.Gbufio.Reader.Fill.{fill_lem}

module _ {S T : Type 0} where
  -- What ReadItem owes its caller: the next item, or an error when none is left.
  abbrev pub ItemSpec : (S → List T) → Reader S T → S → T × Option Error × Reader S T × S → Type 0
  ItemSpec given b s (c, err, b', s') =
      (err ≡ none) × (b'.last_item ≡ true) × Moved given b s (c ∷ []) b' s'
      ⊎ (e : Error) × (err ≡ some e) × (unread b' ≡ []) × Moved given b s [] b' s'

module _ {T : Type 0} where
  taken_at :
      (xs : List T) (r w : ℕ) (c : T)
      → r < w
      → get_elem? xs r ≡ some c
      → (i : ℕ)
      → get_elem? (c ∷ take (w - (r + 1)) (drop (r + 1) xs)) i
        ≡ get_elem? (take (w - r) (drop r xs)) i
  taken_at xs r w c h e zero =
      ground (arith, get_elem?-take (w - r) (drop r xs) 0, get_elem?-drop r xs 0)
  taken_at xs r w c h e (suc i) = ground (
    arith,
    get_elem?-take (w - (r + 1)) (drop (r + 1) xs) i,
    get_elem?-drop (r + 1) xs i,
    get_elem?-take (w - r) (drop r xs) (suc i),
    get_elem?-drop r xs (suc i),
  )

  pub none_left : (xs : List T) (r w : ℕ) → r ≡ w → take (w - r) (drop r xs) ≡ []
  none_left xs r w h = let gone : w - r ≡ 0 = omega arith in rw gone refl

module _ {S T : Type 0} where
  -- UnreadItem fails, and keeps its state, or it panics.
  unread_refused :
      (b : Reader S T) → b.last_item ≡ true → unread_item b ≡ ok (some invalid_unread_item, b)
  unfolding unread_item
  unread_refused b last = rw (unread_item, last) refl

module _ {S T : Type 0} {source : Source S T} {given : S → List T}
    (honest : Honest source given) where
  take_call :
      (b : Reader S T) (s : S) (c : T)
      → get_elem? b.buf b.r ≡ some c
      → take_item b s ≡ ok (c, none, record b { r = b.r + 1; last_item = true }, s)
  unfolding take_item
  take_call b s c there = rw (take_item, there) refl

  item_there :
      (b : Reader S T) (s : S) (zero_value : T) (fuel : ℕ)
      → IsWithin b
      → b.r < b.w
      → Returns (ItemSpec given b s) (read_item (suc fuel) zero_value b s)
  unfolding read_item
  item_there b s zero_value fuel (h, h') room =
      let (c, there) = get_elem?-in b.buf b.r (omega arith) in
      let apart : (b.r == b.w) ≡ false = ground arith in
      rw (apart, take_call b s c there)
        (returns (
          inl (
            refl,
            refl,
            still (list_ext _ _ (taken_at b.buf b.r b.w c room there)) (omega arith, omega arith)
                refl refl,
          )))

  item_failed :
      (b : Reader S T) (s : S) (zero_value : T) (e : Error) (fuel : ℕ)
      → IsWithin b
      → b.r ≡ b.w
      → (let failed = record b { err = some e } in
          Returns (ItemSpec given failed s) (read_item (suc fuel) zero_value failed s))
  unfolding read_item read_err
  item_failed b s zero_value e fuel within h =
      let same : (b.r == b.w) ≡ true = ground arith in
      rw same (returns (inr (e, refl, none_left b.buf b.r b.w h, still refl within refl refl)))

  item_round :
      (b : Reader S T) (s : S) (zero_value : T) (fuel : ℕ)
      → b.r ≡ b.w
      → (let fine = record b { err = none } in
          read_item (suc fuel) zero_value fine s
          ≡ (do (b', s') ← fill fine s; read_item fuel zero_value b' s'))
  unfolding read_item
  item_round b s zero_value fuel h = let same : (b.r == b.w) ≡ true = ground arith in rw same refl

  after_move :
      (b b' : Reader S T) (s s' : S) (result : T × Option Error × Reader S T × S)
      → Moved given b s [] b' s'
      → ItemSpec given b' s' result
      → ItemSpec given b s result
  after_move b b' s s' result moved (inl (fine, last, next)) =
      inl (fine, last, Moved-then moved next)
  after_move b b' s s' result moved (inr (e, failed, empty, next)) =
      inr (e, failed, empty, Moved-then moved next)

  item_fill :
      (b : Reader S T) (s : S) (zero_value : T) (fuel : ℕ)
      → b.rd ≡ source
      → IsWithin b
      → 0 < length b.buf
      → b.r ≡ b.w
      → (let fine = record b { err = none } in
          Returns (ItemSpec given fine s) (read_item (suc (suc fuel)) zero_value fine s))
  item_fill b s zero_value fuel same within room empty =
      let fine : Reader S T = record b { err = none } in
      rw (item_round b s zero_value (suc fuel) empty) (
        Returns-bind (fill_lem honest fine s same within (omega arith))
          λ (b', s') (moved, zero_r, progress).
            Returns-map
              (elim progress [
                | inl more ↦ item_there b' s' zero_value fuel moved.within (omega arith)
                | inr (e, failed) ↦ elim (lt-or-le b'.r b'.w) [
                  | inl some_left ↦ item_there b' s' zero_value fuel moved.within some_left
                  | inr all_gone ↦
                      let equal : b'.r ≡ b'.w = omega (arith, moved.within.0) in
                      let broken : record b' { err = some e } ≡ b' =
                        λ i. record b' { err = sym failed i } in
                      subst
                        (λ x. Returns (ItemSpec given x s') (read_item (suc fuel) zero_value x s'))
                        broken (item_failed b' s' zero_value e fuel moved.within equal)
                ]
              ])
              (λ result. after_move fine b' s s' result moved))

  item_empty :
      (err : Option Error) (b : Reader S T) (s : S) (zero_value : T) (fuel : ℕ)
      → b.rd ≡ source
      → IsWithin b
      → 0 < length b.buf
      → b.r ≡ b.w
      → (let b' = record b { err = err } in
          Returns (ItemSpec given b' s) (read_item (suc (suc fuel)) zero_value b' s))
  item_empty none b s zero_value fuel same within room equal =
      item_fill b s zero_value fuel same within room equal
  item_empty (some e) b s zero_value fuel same within room equal =
      item_failed b s zero_value e (suc fuel) within equal

  -- ReadItem of a Reader with a buffer, on a reader that does what the interface asks: two rounds of
  -- its loop are enough. It returns the next item in order, or an error where no item is left.
  pub read_item_lem :
      (b : Reader S T) (s : S) (zero_value : T) (fuel : ℕ)
      → b.rd ≡ source
      → IsWithin b
      → 0 < length b.buf
      → Returns (ItemSpec given b s) (read_item (suc (suc fuel)) zero_value b s)
  read_item_lem b s zero_value fuel same within room = elim (lt-or-le b.r b.w) [
    | inl there ↦ item_there b s zero_value (suc fuel) within there
    | inr gone ↦ item_empty b.err b s zero_value fuel same within room (omega (arith, within.0))
  ]

  -- UnreadItem after ReadItem, on a reader that does what the interface asks, never gives the item
  -- back: where ReadItem returned one, UnreadItem returns its error and changes nothing.
  pub read_item-unread_item :
      (b : Reader S T) (s : S) (zero_value : T) (fuel : ℕ)
      → b.rd ≡ source
      → IsWithin b
      → 0 < length b.buf
      → Returns
          (λ (c, err, b', s').
            (unread_item b' ≡ ok (some invalid_unread_item, b')) ⊎ (e : Error) × (err ≡ some e))
          (read_item (suc (suc fuel)) zero_value b s)
  unfolding unread_item
  read_item-unread_item b s zero_value fuel same within room =
      Returns-map (read_item_lem b s zero_value fuel same within room) λ (c, err, b', s') spec.
        elim spec [
          | inl (fine, last, moved) ↦ inl (unread_refused b' last)
          | inr (e, failed, _, _) ↦ inr (e, failed)
        ]
