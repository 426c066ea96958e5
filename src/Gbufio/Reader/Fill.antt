-- ===== src/Gbufio/Reader/Fill.antt =====
-- The method fill of a Reader, for a reader that does what the interface asks.
use gbuf.Base.{
  ℕ, zero, suc, ◌+◌, ◌-◌, ◌≤◌, ◌<◌, ◌≡◌, refl, sym, ap, subst, ◌⊎◌, inl, inr, Bool, Option, none,
  some, List, [], ◌++◌, arith, ltb, ok, length, take, drop, splice, slice-ok, copy_into-ok,
  length-take, length-drop, list_ext, lt-or-le, lt→ltb, le→ltb, Returns, returns, Returns-map,
  Returns-bind, if◌then◌else◌,
}
use gbuf.Base.Pointwise.{
  get_elem?-append, get_elem?-take, get_elem?-splice, get_elem?-out, length-splice,
}
use gbuf.Errors.{Error, no_progress}
use gbuf.Streams.{Source}
use gbuf.Gbufio.Sizes.{max_consecutive_empty_reads}
use gbuf.Gbufio.Reader.{Reader, slide, read_at, try_reads, fill}
use gbuf.Gbufio.Reader.Stream.{Honest, IsWithin, Moved, Moved-then, still}

module _ {T : Type 0} where
  -- The items that move to the beginning.
  slid :
      (xs : List T) (r w : ℕ)
      → r ≤ w
      → w ≤ length xs
      → take (w - r - 0) (splice xs 0 (take (length xs - 0) (take (w - r) (drop r xs))))
        ≡ take (w - r) (drop r xs)
  slid xs r w h h' = list_ext _ _ λ i.
      let items = take (w - r) (drop r xs) in
      ground (
        arith,
        get_elem?-take (w - r - 0) (splice xs 0 (take (length xs - 0) items)) i,
        get_elem?-splice xs 0 (take (length xs - 0) items) i,
        length-take (length xs - 0) items,
        length-take (w - r) (drop r xs),
        length-drop r xs,
        get_elem?-take (length xs - 0) items (i - 0),
        get_elem?-take (w - r) (drop r xs) (i - 0),
        get_elem?-take (w - r) (drop r xs) i,
      )

  -- Items read behind those that are left.
  behind :
      (xs : List T) (w n : ℕ) (held : List T)
      → n ≤ length held
      → w + length held ≤ length xs
      → take (w + n - 0) (splice xs w held) ≡ take (w - 0) xs ++ take n held
  behind xs w n held h h' = list_ext _ _ λ i. ground (
    arith,
    get_elem?-take (w + n - 0) (splice xs w held) i,
    get_elem?-splice xs w held i,
    get_elem?-append (take (w - 0) xs) (take n held) i,
    length-take (w - 0) xs,
    get_elem?-take (w - 0) xs i,
    get_elem?-take n held (i - length (take (w - 0) xs)),
    get_elem?-out xs i,
    get_elem?-out held (i - w),
    length-take n held,
  )

module _ {S T : Type 0} where
  abbrev pub reader : List T → Source S T → ℕ → ℕ → Option Error → Bool → Reader S T
  reader xs rd r w e l = record { buf = xs; rd = rd; r = r; w = w; err = e; last_item = l }

  -- More items are there, or an error is.
  abbrev pub Progress : Reader S T → Reader S T → Type 0
  Progress b b' = (b.w - b.r < b'.w - b'.r) ⊎ (e : Error) × (b'.err ≡ some e)

  abbrev pub FillSpec : (S → List T) → Reader S T → S → Reader S T × S → Type 0
  FillSpec given b s (b', s') = Moved given b s [] b' s' × (b'.r ≡ 0) × Progress b b'

module _ {S T : Type 0} {source : Source S T} {given : S → List T}
    (honest : Honest source given) where
  pub read_at_call :
      (xs : List T) (r w : ℕ) (e : Option Error) (l : Bool) (at : ℕ) (s : S)
      → at ≤ length xs
      → (let p = take (length xs - at) (drop at xs) in
          read_at (reader xs source r w e l) at s
          ≡ ok (
            honest.count s p,
            honest.fail s p,
            reader (splice xs at (honest.holds s p)) source r w e l,
            honest.after s p,
          ))
  unfolding read_at
  read_at_call xs r w e l at s h =
      let p = take (length xs - at) (drop at xs) in
      rw (slice-ok xs at (length xs) h (omega arith), honest.answers s p) refl

  -- The state after a call of the caller's reader.
  pub got-Moved :
      (xs : List T) (w : ℕ) (e e' : Option Error) (l : Bool) (s : S)
      → w ≤ length xs
      → (let p = take (length xs - w) (drop w xs) in
          Moved given
            (reader xs source 0 w e l)
            s
            []
            (reader (splice xs w (honest.holds s p)) source 0 (w + honest.count s p) e' l)
            (honest.after s p))
  got-Moved xs w e e' l s h =
      let p = take (length xs - w) (drop w xs) in
      let size : length p ≡ length xs - w =
        omega (arith, length-take (length xs - w) (drop w xs), length-drop w xs) in
      let fits = honest.fits s p in
      record {
        more = take (honest.count s p) (honest.holds s p);
        gave = honest.logs s p;
        left =
            behind xs w (honest.count s p) (honest.holds s p) (omega (arith, honest.whole s p))
              (omega (arith, honest.whole s p));
        within = (omega arith, omega (arith, length-splice xs w (honest.holds s p)));
        size = length-splice xs w (honest.holds s p);
        same = refl;
      }

  -- The rest of a round, whatever error the caller's reader returned.
  round_lem :
      (i : ℕ) (xs : List T) (w : ℕ) (e fail : Option Error) (l : Bool) (s : S)
      → w ≤ length xs
      → (let p = take (length xs - w) (drop w xs) in
          let ys = splice xs w (honest.holds s p) in
          let n = honest.count s p in
          let s' = honest.after s p in
          Returns
            (FillSpec given (reader ys source 0 (w + n) e l) s')
            (try_reads i (reader ys source 0 (w + n) e l) s')
          → Returns (FillSpec given (reader xs source 0 w e l) s) (elim fail [
            | some e' ↦ ok (reader ys source 0 (w + n) (some e') l, s')
            | none ↦
                if ltb 0 n
                then ok (reader ys source 0 (w + n) e l, s')
                else try_reads i (reader ys source 0 (w + n) e l) s'
          ]))
  round_lem i xs w e (some e') l s h rest =
      returns (got-Moved xs w e (some e') l s h, refl, inr (e', refl))
  round_lem i xs w e none l s h rest =
      let p = take (length xs - w) (drop w xs) in
      elim (lt-or-le 0 (honest.count s p)) [
        | inl some_read ↦
            rw (lt→ltb some_read) (returns (got-Moved xs w e e l s h, refl, inl (omega arith)))
        | inr none_read ↦ rw (le→ltb none_read) (
            Returns-map rest λ (b', s') (moved, zero_r, progress). (
              Moved-then (got-Moved xs w e e l s h) moved,
              zero_r,
              elim progress [ inl more ↦ inl (omega arith) | inr failed ↦ inr failed ],
            ))
      ]

  try_lem :
      (i : ℕ) (xs : List T) (w : ℕ) (e : Option Error) (l : Bool) (s : S)
      → w ≤ length xs
      → Returns
          (FillSpec given (reader xs source 0 w e l) s)
          (try_reads i (reader xs source 0 w e l) s)
  unfolding try_reads
  try_lem zero xs w e l s h =
      returns {a = (reader xs source 0 w (some no_progress) l, s)}
        (still refl (omega arith, h) refl refl, refl, inr (no_progress, refl))
  try_lem (suc i) xs w e l s h =
      let p = take (length xs - w) (drop w xs) in
      rw (read_at_call xs 0 w e l w s h) (
        round_lem i xs w e (honest.fail s p) l s h
          (try_lem i _ _ e l _ (got-Moved xs w e e l s h).within.1))

  -- The items that are left, moved to the beginning.
  slide_lem :
      (xs : List T) (r w : ℕ) (e : Option Error) (l : Bool) (s : S)
      → r ≤ w
      → w ≤ length xs
      → Returns
          (λ b.
            Moved given (reader xs source r w e l) s [] b s
            × (ys : List T) × (b ≡ reader ys source 0 (w - r) e l)
            × (w - r ≤ length ys)
            × (length ys ≡ length xs))
          (slide (reader xs source r w e l))
  unfolding slide
  slide_lem xs r w e l s h h' =
      let items = take (w - r) (drop r xs) in
      let ys = splice xs 0 (take (length xs - 0) items) in
      let size : length ys ≡ length xs = length-splice xs 0 (take (length xs - 0) items) in
      elim (lt-or-le 0 r) [
        | inl away ↦
            rw
              (
                lt→ltb away,
                slice-ok xs r w h h',
                copy_into-ok xs 0 (length xs) items (omega arith) (omega arith),
              )
              (returns {a = reader ys source 0 (w - r) e l} (
                still (slid xs r w h h') (omega arith, omega (arith, size)) size refl,
                ys,
                refl,
                omega (arith, size),
                size,
              ))
        | inr home ↦
            let none_read : r ≡ 0 = omega arith in
            let bare : w - 0 ≡ w = omega arith in
            rw none_read (
              returns {a = reader xs source 0 w e l} (
                still refl (omega arith, h') refl refl,
                xs,
                ap (λ k. reader xs source 0 k e l) (sym bare),
                omega arith,
                refl,
              ))
      ]

  fill_reader :
      (xs : List T) (r w : ℕ) (e : Option Error) (l : Bool) (s : S)
      → r ≤ w
      → w ≤ length xs
      → w - r < length xs
      → Returns (FillSpec given (reader xs source r w e l) s) (fill (reader xs source r w e l) s)
  unfolding fill
  fill_reader xs r w e l s h h' room =
      Returns-bind (slide_lem xs r w e l s h h') λ b (moved, ys, same, bound, size).
        rw (same, lt→ltb {a = w - r} {b = length ys} (omega (arith, size)))
          (Returns-map (try_lem max_consecutive_empty_reads ys (w - r) e l s bound)
            λ (b', s') (moved', zero_r, progress). (
              Moved-then (subst (λ x. Moved given (reader xs source r w e l) s [] x s) same moved)
                  moved',
              zero_r,
              elim progress [ inl more ↦ inl (omega arith) | inr failed ↦ inr failed ],
            ))

  -- The method fill, where the buffer is not full: it returns, keeps the items that are left, puts
  -- those that it reads behind them, and there are more of them than before or there is an error.
  pub fill_lem :
      (b : Reader S T) (s : S)
      → b.rd ≡ source
      → IsWithin b
      → b.w - b.r < length b.buf
      → Returns (FillSpec given b s) (fill b s)
  fill_lem b s same (h, h') room =
      let whole : b ≡ reader b.buf source b.r b.w b.err b.last_item = λ i. record {
        buf = b.buf;
        rd = same i;
        r = b.r;
        w = b.w;
        err = b.err;
        last_item = b.last_item;
      } in
      subst (λ x. Returns (FillSpec given x s) (fill x s)) (sym whole)
        (fill_reader b.buf b.r b.w b.err b.last_item s h h' room)
