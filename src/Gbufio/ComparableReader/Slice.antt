-- ===== src/Gbufio/ComparableReader/Slice.antt =====
-- ReadSlice of a ComparableReader, for a reader that does what the interface asks.
use gbuf.Base.{
  ℕ, zero, suc, ◌+◌, ◌-◌, ◌≤◌, ◌<◌, ◌≡◌, refl, sym, ap, subst, ◌∙◌, ◌⊎◌, inl, inr, Bool, Option,
  none, some, List, [], ◌∷◌, ◌++◌, arith, Run, length, take, drop, slice-ok, length-take,
  length-drop, length-append, lt-or-le, lt→leb, le→leb, Returns, returns, Returns-map, Returns-bind,
  ◌>>=◌,
}
use mathlib.Core.List.{append-nil}
use gbuf.Errors.{Error, buffer_full}
use gbuf.Streams.{Source}
use gbuf.Gbufio.Reader.{Reader, fill}
use gbuf.Gbufio.Reader.Stream.{Honest, IsWithin, unread, Moved, Moved-then, still}
use gbuf.Gbufio.Reader.Fill.{fill_lem}
use gbuf.Gbufio.Reader.Items.{none_left}
use gbuf.Gbufio.ComparableReader.{index_of, slice_round, slice_loop, read_slice, mark_last}
use gbuf.Gbufio.ComparableReader.Windows.{
  some-none, window, rejoined, whole_left, take-front, line_split, handed_line,
}
use gbuf.Gbufio.ComparableReader.Search.{
  Lacks, lacks_none, EndsThere, append-Lacks, append-EndsThere, index_of-cases,
}

module _ {S T : Type 0} (eqb : T → T → Bool) where
  -- What ReadSlice owes its caller: the line is handed over; it ends in its only delimiter, or has
  -- none and there is an error.
  abbrev pub LineSpec :
      T → (S → List T) → Reader S T → S → List T × Option Error × Reader S T × S → Type 0
  LineSpec d given b s (line, err, b', s') =
      Moved given b s line b' s'
      × ((err ≡ none) × EndsThere eqb d line ⊎ (e : Error) × (err ≡ some e) × Lacks eqb d line)

module _ {S T : Type 0} (eqb : T → T → Bool) {source : Source S T} {given : S → List T}
    (honest : Honest source given) where
  window_call :
      (fuel : ℕ) (b : Reader S T) (d : T) (from : ℕ) (found : Option ℕ) (s : S)
      → IsWithin b
      → from ≤ b.w - b.r
      → index_of eqb (drop from (unread b)) d ≡ found
      → slice_loop eqb (suc fuel) b d from s
        ≡ slice_round b from found
            (fill b s >>= λ (b', s'). slice_loop eqb fuel b' d (b.w - b.r) s')
            s
  unfolding slice_loop
  window_call fuel b d from found s (h, h') inside at =
      let rest = fill b s >>= λ (b', s'). slice_loop eqb fuel b' d (b.w - b.r) s' in
      let called : slice_loop eqb (suc fuel) b d from s
          ≡ slice_round b from (index_of eqb (drop from (unread b)) d) rest s =
        rw (slice-ok b.buf (b.r + from) b.w (omega arith) h', window b.buf b.r b.w from) refl in
      called ∙ ap (λ o. slice_round b from o rest s) at

  found_lem :
      (rest : Run (List T × Option Error × Reader S T × S)) (b : Reader S T) (d : T) (from i : ℕ)
      (s : S)
      → IsWithin b
      → Lacks eqb d (take from (unread b))
      → i < length (drop from (unread b))
      → EndsThere eqb d (take (suc i) (drop from (unread b)))
      → Returns (LineSpec eqb d given b s) (slice_round b from (some i) rest s)
  unfolding slice_round
  found_lem rest b d from i s (h, h') lacks bound ends =
      let size = length-drop from (unread b) in
      let size' = length-take (b.w - b.r) (drop b.r b.buf) in
      let size'' = length-drop b.r b.buf in
      let line = line_split b.buf b.r b.w from i bound in
      rw (slice-ok b.buf b.r (b.r + (i + from) + 1) (omega arith) (omega arith)) (
        returns (
          still
              (handed_line b.buf b.r b.w (b.r + (i + from) + 1 - b.r) (i + from + 1) (omega arith)
                (omega arith) h')
              (omega arith, h') refl refl,
          inl (refl, subst (λ l. EndsThere eqb d l) (sym line) (append-EndsThere eqb d lacks ends)),
        ))

  -- The delimiter is not there.
  missing_lem :
      (err : Option Error) (rest : Run (List T × Option Error × Reader S T × S)) (b : Reader S T)
      (d : T) (from : ℕ) (s : S)
      → IsWithin b
      → Lacks eqb d (unread b)
      → (let b' = record b { err = err } in
          ((err ≡ none) × (b.w - b.r < length b.buf) → Returns (LineSpec eqb d given b' s) rest)
          → Returns (LineSpec eqb d given b' s) (slice_round b' from none rest s))
  unfolding slice_round
  missing_lem (some e) rest b d from s (h, h') lacks next = rw (slice-ok b.buf b.r b.w h h') (
      returns (
        still (ap (λ x. unread b ++ x) (none_left b.buf b.w b.w refl) ∙ append-nil (unread b))
            (omega arith, h') refl refl,
        inr (e, refl, lacks),
      ))
  missing_lem none rest b d from s (h, h') lacks next = elim (lt-or-le (b.w - b.r) (length b.buf)) [
    | inl room ↦ rw (le→leb h, lt→leb room) (next (refl, room))
    | inr full ↦
        let all : unread b ≡ b.buf = whole_left b.buf b.r b.w (omega arith) full in
        rw (le→leb h, le→leb full)
          (returns (
            still (ap (λ x. b.buf ++ x) (none_left b.buf b.w b.w refl) ∙ append-nil b.buf ∙ sym all)
                (omega arith, h') refl refl,
            inr (buffer_full, refl, subst (λ l. Lacks eqb d l) all lacks),
          ))
  ]

  marked :
      (b b' : Reader S T) (s s' : S) (line : List T)
      → Moved given b s line b' s'
      → Moved given b s line (mark_last line b') s'
  marked b b' s s' [] moved = moved
  marked b b' s s' (x ∷ line) moved = record {
    more = moved.more;
    gave = moved.gave;
    left = moved.left;
    within = moved.within;
    size = moved.size;
    same = moved.same;
  }

  -- A round of the loop, with what is known of the rest.
  round_lem :
      (fuel : ℕ) (b : Reader S T) (d : T) (from : ℕ) (s : S)
      → IsWithin b
      → from ≤ b.w - b.r
      → Lacks eqb d (take from (unread b))
      → ((b.err ≡ none) × (b.w - b.r < length b.buf) × Lacks eqb d (unread b)
          → Returns
              (LineSpec eqb d given b s)
              (fill b s >>= λ (b', s'). slice_loop eqb fuel b' d (b.w - b.r) s'))
      → Returns (LineSpec eqb d given b s) (slice_loop eqb (suc fuel) b d from s)
  round_lem fuel b d from s within inside lacks next =
      let rest = fill b s >>= λ (b', s'). slice_loop eqb fuel b' d (b.w - b.r) s' in
      elim (index_of-cases eqb d (drop from (unread b))) [
        | inr (i, at, bound, ends) ↦
            rw (window_call fuel b d from (some i) s within inside at)
              (found_lem rest b d from i s within lacks bound ends)
        | inl (at, beyond) ↦
            let all =
              subst (λ l. Lacks eqb d l) (rejoined (unread b) from)
                (append-Lacks eqb d lacks beyond) in
            rw (window_call fuel b d from none s within inside at)
              (missing_lem b.err rest b d from s within all λ (fine, room). next (fine, room, all))
      ]

  failed_lem :
      (e : Error) (fuel : ℕ) (b : Reader S T) (d : T) (from : ℕ) (s : S)
      → b.err ≡ some e
      → IsWithin b
      → from ≤ b.w - b.r
      → Lacks eqb d (take from (unread b))
      → Returns (LineSpec eqb d given b s) (slice_loop eqb (suc fuel) b d from s)
  failed_lem e fuel b d from s failed within inside lacks =
      round_lem fuel b d from s within inside lacks
        λ (fine, _, _). absurd (some-none (sym failed ∙ fine))

  -- What was searched stays without the delimiter when more is read.
  searched :
      (b b' : Reader S T) (s s' : S) (d : T)
      → IsWithin b
      → Moved given b s [] b' s'
      → Lacks eqb d (unread b)
      → Lacks eqb d (take (b.w - b.r) (unread b'))
  searched b b' s s' d (h, h') moved lacks =
      let size = length-take (b.w - b.r) (drop b.r b.buf) in
      let size' = length-drop b.r b.buf in
      subst (λ l. Lacks eqb d l)
        (sym (
          ap (λ l. take (b.w - b.r) l) moved.left
          ∙ take-front (unread b) moved.more (b.w - b.r) (omega arith)))
        lacks

  searched_size :
      (b b' : Reader S T) (s s' : S)
      → IsWithin b
      → Moved given b s [] b' s'
      → b.w - b.r ≤ b'.w - b'.r
  searched_size b b' s s' (h, h') moved = omega (
    arith,
    ap length moved.left,
    moved.within,
    length-append (unread b) moved.more,
    length-take (b.w - b.r) (drop b.r b.buf),
    length-drop b.r b.buf,
    length-take (b'.w - b'.r) (drop b'.r b'.buf),
    length-drop b'.r b'.buf,
  )

  loop_lem :
      (fuel : ℕ) (b : Reader S T) (d : T) (from : ℕ) (s : S)
      → b.rd ≡ source
      → IsWithin b
      → from ≤ b.w - b.r
      → Lacks eqb d (take from (unread b))
      → 0 < length b.buf
      → length b.buf - (b.w - b.r) < fuel
      → Returns (LineSpec eqb d given b s) (slice_loop eqb (suc fuel) b d from s)
  loop_lem zero b d from s same within inside lacks room enough = absurd (omega arith)
  loop_lem (suc fuel) b d from s same (h, h') inside lacks room enough =
      round_lem (suc fuel) b d from s (h, h') inside lacks
        λ (fine, free, all).
          Returns-bind (fill_lem honest b s same (h, h') free) λ (b', s') (moved, zero_r, progress).
            let lacks' = searched b b' s s' d (h, h') moved all in
            Returns-map
              (elim progress [
                | inl more ↦
                    loop_lem fuel b' d (b.w - b.r) s' (moved.same ∙ same) moved.within (omega arith)
                      lacks' (omega (arith, moved.size)) (omega (arith, moved.size))
                | inr (e, failed) ↦
                    failed_lem e fuel b' d (b.w - b.r) s' failed moved.within
                      (searched_size b b' s s' (h, h') moved) lacks'
              ])
              λ (line, err, b'', s'') (moved', end). (Moved-then moved moved', end)

  -- ReadSlice, on a reader that does what the interface asks, returns, with two rounds of its loop
  -- more than the buffer has places at most. The line is the next items, in order. It ends in the
  -- delimiter, which is nowhere else in it, or it has none and there is an error.
  pub read_slice_refines :
      (b : Reader S T) (d : T) (fuel : ℕ) (s : S)
      → b.rd ≡ source
      → IsWithin b
      → 0 < length b.buf
      → length b.buf < fuel
      → Returns (LineSpec eqb d given b s) (read_slice eqb (suc fuel) b d s)
  unfolding read_slice
  read_slice_refines b d fuel s same within room enough =
      Returns-bind (loop_lem fuel b d 0 s same within (omega arith) lacks_none room (omega arith))
        λ (line, err, b', s') (moved, end). returns (marked b b' s s' line moved, end)
