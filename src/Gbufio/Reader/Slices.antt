-- ===== src/Gbufio/Reader/Slices.antt =====
-- Read of a Reader, for a reader that does what the interface asks.
use gbuf.Base.{
  ℕ, ◌+◌, ◌-◌, ◌≤◌, ◌<◌, ◌≡◌, refl, sym, ap, subst, ◌∙◌, inl, inr, Bool, true, false, Option, none,
  some, List, [], ◌++◌, arith, ◌==◌, ok, length, take, drop, min, splice, slice-ok, copy_into-ok,
  length-take, length-drop, list_ext, lt-or-le, le→leb, lt→leb, pos→==, zero→==, Bool-cases,
  Returns, returns, Returns-map,
}
use gbuf.Base.Pointwise.{
  get_elem?-append, get_elem?-drop, get_elem?-take, get_elem?-splice, length-splice, splice_all,
}
use mathlib.Core.List.{append-nil}
use gbuf.Base.Int.{pos, ◌-ℤ◌, ltb_ℤ}
use gbuf.Errors.{Error}
use gbuf.Streams.{Source}
use gbuf.Gbufio.Reader.{Reader, read_err}
use gbuf.Gbufio.Reader.Read.{hand_over, read, read_direct, read_once}
use gbuf.Gbufio.Reader.Stream.{Honest, IsWithin, Moved, Moved-then, still}
use gbuf.Gbufio.Reader.Fill.{reader, read_at_call, got-Moved}
use gbuf.Gbufio.Reader.Items.{none_left}

module _ {S T : Type 0} where
  -- What Read owes its caller: the next items in order, as many as it counts, at the front of the
  -- slice.
  abbrev pub ReadSpec :
      (S → List T) → Reader S T → List T → S → ℕ × Option Error × List T × Reader S T × S → Type 0
  ReadSpec given b p s (n, err, p', b', s') =
      (n ≤ length p) × (length p' ≡ length p) × Moved given b s (take n p') b' s'

module _ {T : Type 0} where
  handed :
      (xs p : List T) (r w : ℕ)
      → r ≤ w
      → w ≤ length xs
      → (let items = take (w - r) (drop r xs) in
          let n = min (length p - 0) (length items) in
          take n (splice p 0 (take (length p - 0) items)) ++ take (w - (r + n)) (drop (r + n) xs)
          ≡ items)
  handed xs p r w h h' = list_ext _ _ λ i.
      let items = take (w - r) (drop r xs) in
      let n = min (length p - 0) (length items) in
      let q = splice p 0 (take (length p - 0) items) in
      ground (
        arith,
        get_elem?-append (take n q) (take (w - (r + n)) (drop (r + n) xs)) i,
        length-take n q,
        length-splice p 0 (take (length p - 0) items),
        get_elem?-take n q i,
        get_elem?-splice p 0 (take (length p - 0) items) i,
        length-take (length p - 0) items,
        length-take (w - r) (drop r xs),
        length-drop r xs,
        get_elem?-take (length p - 0) items (i - 0),
        get_elem?-take (w - (r + n)) (drop (r + n) xs) (i - length (take n q)),
        get_elem?-drop (r + n) xs (i - length (take n q)),
        get_elem?-take (w - r) (drop r xs) i,
        get_elem?-drop r xs i,
      )

module _ {S T : Type 0} {source : Source S T} {given : S → List T}
    (honest : Honest source given) where
  hand_over_lem :
      (b : Reader S T) (p : List T) (s : S)
      → IsWithin b
      → Returns (ReadSpec given b p s) (hand_over b p s)
  unfolding hand_over
  hand_over_lem b p s (h, h') =
      let items = take (b.w - b.r) (drop b.r b.buf) in
      let size : length items ≡ b.w - b.r =
        omega (arith, length-take (b.w - b.r) (drop b.r b.buf), length-drop b.r b.buf) in
      rw
        (slice-ok b.buf b.r b.w h h', copy_into-ok p 0 (length p) items (omega arith) (omega arith))
        (returns (
          omega arith,
          length-splice p 0 (take (length p - 0) items),
          still (handed b.buf p b.r b.w h h') (omega arith, h') refl refl,
        ))

  -- The positions of an empty buffer do not matter.
  rewound :
      (xs : List T) (r w : ℕ) (e e' : Option Error) (l l' : Bool) (s : S)
      → r ≡ w
      → Moved given (reader xs source r w e l) s [] (reader xs source 0 0 e' l') s
  rewound xs r w e e' l l' s h =
      still (none_left xs 0 0 refl ∙ sym (none_left xs r w h)) (omega arith, omega arith) refl refl

  direct_lem :
      (xs : List T) (r w : ℕ) (e : Option Error) (l : Bool) (p : List T) (s : S)
      → r ≡ w
      → w ≤ length xs
      → Returns
          (ReadSpec given (reader xs source r w e l) p s)
          (read_direct (reader xs source r w e l) p s)
  unfolding read_direct
  direct_lem xs r w e l p s h h' =
      let n = honest.count s p in
      let q = honest.holds s p in
      let kept = splice_all p q (honest.whole s p) in
      rw (honest.answers s p, le→leb (honest.fits s p))
        (returns (
          honest.fits s p,
          length-splice p 0 q,
          record {
            more = take n q;
            gave = honest.logs s p;
            left =
                ap (λ x. take n x ++ take (w - r) (drop r xs)) kept
                ∙ ap (λ x. take n q ++ x) (none_left xs r w h)
                ∙ append-nil (take n q)
                ∙ ap (λ x. x ++ take n q) (sym (none_left xs r w h));
            within = (omega arith, h');
            size = refl;
            same = refl;
          },
        ))

  once_lem :
      (xs : List T) (r w : ℕ) (e : Option Error) (l : Bool) (p : List T) (s : S)
      → r ≡ w
      → Returns
          (ReadSpec given (reader xs source r w e l) p s)
          (read_once (reader xs source r w e l) p s)
  unfolding read_once
  once_lem xs r w e l p s h =
      let p₀ = take (length xs - 0) (drop 0 xs) in
      let n = honest.count s p₀ in
      let ys = splice xs 0 (honest.holds s p₀) in
      let fail = honest.fail s p₀ in
      let s' = honest.after s p₀ in
      let bare : 0 + n ≡ n = omega arith in
      let got =
        subst (λ k. Moved given (reader xs source r w e l) s [] (reader ys source 0 k fail l) s')
          bare
          (Moved-then (rewound xs r w e e l l s h)
            (got-Moved honest xs 0 e fail l s (omega arith))) in
      rw (read_at_call honest xs 0 0 e l 0 s (omega arith)) (elim (lt-or-le 0 n) [
        | inl some_read ↦ rw (pos→== some_read) (
            Returns-map (hand_over_lem (reader ys source 0 n fail l) p s' got.within)
              λ (m, err, p', b', s'') (fits, size, moved). (fits, size, Moved-then got moved))
        | inr none_read ↦
            let zero_read : n ≡ 0 = omega arith in
            rw (zero→== none_read) (
              returns {a = (0, fail, p, reader ys source 0 0 none l, s')} (
                omega arith,
                refl,
                Moved-then got (rewound ys 0 n fail none l l s' (sym zero_read)),
              ))
      ])

  unmoved :
      (xs : List T) (r w : ℕ) (err err' : Option Error) (l : Bool) (e : Option Error) (p : List T)
      (s : S)
      → r ≤ w
      → w ≤ length xs
      → Returns
          (ReadSpec given (reader xs source r w err l) p s)
          (ok (0, e, p, reader xs source r w err' l, s))
  unmoved xs r w err err' l e p s h h' = returns (omega arith, refl, still refl (h, h') refl refl)

  read_empty :
      (err : Option Error) (xs : List T) (r w : ℕ) (l : Bool) (p : List T) (s : S)
      → r ≡ w
      → w ≤ length xs
      → 0 < length p
      → Returns
          (ReadSpec given (reader xs source r w err l) p s)
          (read (reader xs source r w err l) p s)
  unfolding read read_err
  read_empty (some e) xs r w l p s h h' some_wanted =
      let same : (r == w) ≡ true = ground arith in
      rw (pos→== some_wanted, same) (unmoved xs r w (some e) none l (some e) p s (omega arith) h')
  read_empty none xs r w l p s h h' some_wanted =
      let same : (r == w) ≡ true = ground arith in
      elim (lt-or-le (length p) (length xs)) [
        | inl small ↦ rw (pos→== some_wanted, same, lt→leb small) (once_lem xs r w none l p s h)
        | inr large ↦
            rw (pos→== some_wanted, same, le→leb large) (direct_lem xs r w none l p s h h')
      ]

  read_reader :
      (err : Option Error) (xs : List T) (r w : ℕ) (l : Bool) (p : List T) (s : S)
      → r ≤ w
      → w ≤ length xs
      → Returns
          (ReadSpec given (reader xs source r w err l) p s)
          (read (reader xs source r w err l) p s)
  unfolding read read_err
  read_reader err xs r w l p s h h' = elim (lt-or-le 0 (length p)) [
    | inl some_wanted ↦ elim (lt-or-le r w) [
      | inl some_left ↦
          let apart : (r == w) ≡ false = ground arith in
          rw (pos→== some_wanted, apart) (hand_over_lem (reader xs source r w err l) p s (h, h'))
      | inr none_there ↦ read_empty err xs r w l p s (omega arith) h' some_wanted
    ]
    | inr none_wanted ↦ elim (Bool-cases (ltb_ℤ (pos 0) (pos w -ℤ pos r))) [
      | inl some_left ↦
          rw (zero→== {a = length p} (omega arith), some_left)
            (unmoved xs r w err err l none p s h h')
      | inr none_there ↦
          rw (zero→== {a = length p} (omega arith), none_there)
            (unmoved xs r w err none l err p s h h')
    ]
  ]

  -- Read of a Reader, on a reader that does what the interface asks, returns for every slice: the
  -- items that it counts are the next ones in order, none is lost, skipped or repeated, and at most
  -- the slice's length of them are handed over.
  pub read_lem :
      (b : Reader S T) (p : List T) (s : S)
      → b.rd ≡ source
      → IsWithin b
      → Returns (ReadSpec given b p s) (read b p s)
  read_lem b p s same (h, h') =
      let whole : b ≡ reader b.buf source b.r b.w b.err b.last_item =
        λ i. record b { rd = same i } in
      subst (λ x. Returns (ReadSpec given x p s) (read x p s)) (sym whole)
        (read_reader b.err b.buf b.r b.w b.last_item p s h h')
