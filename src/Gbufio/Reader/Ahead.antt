-- ===== src/Gbufio/Reader/Ahead.antt =====
-- Peek of a Reader, for a reader that does what the interface asks.
use gbuf.Base.{
  ℕ, zero, suc, ◌+◌, ◌-◌, ◌≤◌, ◌<◌, ◌≡◌, refl, sym, ap, ◌∙◌, ◌⊎◌, inl, inr, Bool, true, false,
  Option, none, some, List, [], arith, ltb, ◌&&◌, ok, length, take, drop, slice-ok, length-take,
  length-drop, lt-or-le, lt→ltb, le→ltb, le→leb, le→leb, Bool-cases, take_all, list_ext, Returns,
  returns, Returns-map, Returns-bind, Returns-of_eq, ◌>>=◌,
}
use gbuf.Base.Pointwise.{get_elem?-take}
use gbuf.Base.Int.{pos, ltb_ℤ}
use gbuf.Errors.{Error, buffer_full}
use gbuf.Streams.{Source}
use gbuf.Gbufio.Reader.{Reader, is_nil, fill, read_err, buffered}
use gbuf.Gbufio.Reader.Peek.{peek_loop, peek_rest, peek}
use gbuf.Gbufio.Reader.Stream.{Honest, IsWithin, unread, Moved, Moved-then, still}
use gbuf.Gbufio.Reader.Fill.{fill_lem}

module _ {S T : Type 0} where
  -- What Peek owes its caller: the next items, at most `n`, not handed over. Where `n` is larger than
  -- the buffer, the error is ErrBufferFull; else there are `n`, or there is an error and there are
  -- fewer.
  abbrev pub PeekSpec :
      (S → List T) → Reader S T → ℕ → S → List T × Option Error × Reader S T × S → Type 0
  PeekSpec given b n s (items, err, b', s') =
      (items ≡ take n (unread b'))
      × Moved given b s [] b' s'
      × ((err ≡ none) × (length items ≡ n) × (n ≤ length b.buf)
          ⊎ (err ≡ some buffer_full) × (length b.buf < n)
          ⊎ (e : Error) × (err ≡ some e) × (length items < n) × (n ≤ length b.buf))

reason :
    (err : Option Error)
    → (e : Error) × ((elim err [ none ↦ some buffer_full | some e ↦ some e ]) ≡ some e)
reason none = (buffer_full, refl)
reason (some e) = (e, refl)

module _ {T : Type 0} where
  take-take : (m n : ℕ) (xs : List T) → m ≤ n → take m (take n xs) ≡ take m xs
  take-take m n xs h = list_ext _ _ λ i.
      ground (arith, get_elem?-take m (take n xs) i, get_elem?-take n xs i, get_elem?-take m xs i)

module _ {S T : Type 0} where
  -- The test of the loop of Peek.
  abbrev goes_on : Reader S T → ℕ → Bool
  goes_on b n =
      ltb_ℤ (buffered b) (pos n) && ltb_ℤ (buffered b) (pos (length b.buf)) && is_nil b.err

  buffered_lem : (b : Reader S T) → b.r ≤ b.w → buffered b ≡ pos (b.w - b.r)
  unfolding buffered
  buffered_lem b h = ground arith

  loop_step :
      (fuel : ℕ) (b : Reader S T) (n : ℕ) (s : S)
      → goes_on b n ≡ true
      → peek_loop (suc fuel) b n s ≡ (do (b', s') ← fill b s; peek_loop fuel b' n s')
  unfolding peek_loop
  loop_step fuel b n s h = rw h refl

  loop_stop :
      (fuel : ℕ) (b : Reader S T) (n : ℕ) (s : S)
      → goes_on b n ≡ false
      → peek_loop (suc fuel) b n s ≡ ok (b, s)
  unfolding peek_loop
  loop_stop fuel b n s h = rw h refl

  -- What the test says.
  on-true :
      (b : Reader S T) (n : ℕ)
      → b.r ≤ b.w
      → goes_on b n ≡ true
      → (b.w - b.r < n) × (b.w - b.r < length b.buf)
  on-true b n h on =
      let size = buffered_lem b h in
      let test : (ltb (b.w - b.r) n && ltb (b.w - b.r) (length b.buf) && is_nil b.err) ≡ true =
        ap (λ k. ltb_ℤ k (pos n) && ltb_ℤ k (pos (length b.buf)) && is_nil b.err) (sym size) ∙ on in
      (ground arith, ground arith)

  on-failed : (b : Reader S T) (n : ℕ) (e : Error) → b.err ≡ some e → goes_on b n ≡ false
  on-failed b n e failed = let test : is_nil b.err ≡ false = rw failed refl in ground arith

module _ {S T : Type 0} {source : Source S T} {given : S → List T}
    (honest : Honest source given) where
  loop_lem :
      (fuel : ℕ) (b : Reader S T) (n : ℕ) (s : S)
      → b.rd ≡ source
      → IsWithin b
      → n - (b.w - b.r) ≤ fuel
      → Returns (λ (b', s'). Moved given b s [] b' s') (peek_loop (suc fuel) b n s)
  loop_lem zero b n s same (h, h') enough = elim (Bool-cases (goes_on b n)) [
    | inl on ↦ absurd (omega (arith, on-true b n h on))
    | inr off ↦ Returns-of_eq (loop_stop zero b n s off) (still refl (h, h') refl refl)
  ]
  loop_lem (suc fuel) b n s same (h, h') enough = elim (Bool-cases (goes_on b n)) [
    | inl on ↦
        let room = on-true b n h on in
        rw (loop_step (suc fuel) b n s on) (
          Returns-bind (fill_lem honest b s same (h, h') room.1)
            λ (b', s') (moved, zero_r, progress). elim progress [
              | inl more ↦
                  Returns-map
                    (loop_lem fuel b' n s' (moved.same ∙ same) moved.within (omega (arith, room.0)))
                    λ (b'', s'') moved'. Moved-then moved moved'
              | inr (e, failed) ↦
                  Returns-of_eq (loop_stop fuel b' n s' (on-failed b' n e failed)) moved
            ])
    | inr off ↦ Returns-of_eq (loop_stop (suc fuel) b n s off) (still refl (h, h') refl refl)
  ]

  few_lem :
      (err : Option Error) (b : Reader S T) (n : ℕ) (s : S)
      → b.r ≤ b.w
      → b.w ≤ length b.buf
      → n ≤ length b.buf
      → b.w - b.r < n
      → (let b' = record b { err = err } in Returns (PeekSpec given b' n s) (peek_rest b' n s))
  unfolding peek_rest read_err buffered
  few_lem err b n s h h' small few =
      let left = take (b.w - b.r) (drop b.r b.buf) in
      let size : length left ≡ b.w - b.r =
        omega (arith, length-take (b.w - b.r) (drop b.r b.buf), length-drop b.r b.buf) in
      let room : (b.r + (b.w - b.r)) - b.r ≡ b.w - b.r = omega arith in
      let (e, there) = reason err in
      rw
        (
          le→ltb small,
          le→leb h,
          lt→ltb few,
          slice-ok b.buf b.r (b.r + (b.w - b.r)) (omega arith) (omega arith),
          room,
        )
        (returns
          {a = (
            left,
            (elim err [ none ↦ some buffer_full | some e ↦ some e ]),
            record b { err = none },
            s,
          )}
          (
            sym (take_all n left (omega arith)),
            still refl (h, h') refl refl,
            inr (inr (e, there, omega arith, small)),
          ))

  -- The lines of Peek after its loop.
  rest_lem :
      (err : Option Error) (b : Reader S T) (n : ℕ) (s : S)
      → IsWithin b
      → (let b' = record b { err = err } in Returns (PeekSpec given b' n s) (peek_rest b' n s))
  unfolding peek_rest read_err
  rest_lem err b n s (h, h') =
      let left = take (b.w - b.r) (drop b.r b.buf) in
      let size : length left ≡ b.w - b.r =
        omega (arith, length-take (b.w - b.r) (drop b.r b.buf), length-drop b.r b.buf) in
      let count = buffered_lem b h in
      elim (lt-or-le (length b.buf) n) [
        | inl large ↦
            rw (lt→ltb large, slice-ok b.buf b.r b.w h h')
              (returns (
                sym (take_all n left (omega arith)),
                still refl (h, h') refl refl,
                inr (inl (refl, large)),
              ))
        | inr small ↦ elim (lt-or-le (b.w - b.r) n) [
          | inl few ↦ few_lem err b n s h h' small few
          | inr many ↦
              let room : (b.r + n) - b.r ≡ n = omega arith in
              rw
                (
                  le→ltb small,
                  le→leb h,
                  le→ltb many,
                  slice-ok b.buf b.r (b.r + n) (omega arith) (omega arith),
                  room,
                )
                (returns (
                  sym (take-take n (b.w - b.r) (drop b.r b.buf) many),
                  still refl (h, h') refl refl,
                  inl (
                    refl,
                    omega (arith, length-take n (drop b.r b.buf), length-drop b.r b.buf),
                    small,
                  ),
                ))
        ]
      ]

  -- Peek of a count that is not negative, on a reader that does what the interface asks: it returns,
  -- with one round of its loop more than that count at most, the next items, and none is handed over
  -- or lost. Where the count is larger than the buffer, the error is ErrBufferFull; else there are as
  -- many as asked for and no error, or fewer and an error.
  pub peek_refines :
      (b : Reader S T) (n fuel : ℕ) (s : S)
      → b.rd ≡ source
      → IsWithin b
      → n ≤ fuel
      → Returns (PeekSpec given b n s) (peek (suc fuel) b (pos n) s)
  unfolding peek
  peek_refines b n fuel s same (h, h') enough =
      let cleared = record b { last_item = false } in
      Returns-bind (loop_lem fuel cleared n s same (h, h') (omega arith)) λ (b', s') moved.
        Returns-map (rest_lem b'.err b' n s' moved.within)
          λ (items, err, b'', s'') (next, moved', end). (
            next,
            Moved-then (Moved-then {out = []} (still {b = b} refl (h, h') refl refl) moved) moved',
            elim end [
              | inl (no_error, all, small) ↦ inl (no_error, all, omega (arith, moved.size))
              | inr (inl (full, large)) ↦ inr (inl (full, omega (arith, moved.size)))
              | inr (inr (e, failed, few, small)) ↦
                  inr (inr (e, failed, few, omega (arith, moved.size)))
            ],
          )
