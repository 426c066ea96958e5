-- ===== src/Gbufio/Writer/Flush.antt =====
-- Flush of a Writer, for a writer that does what the interface asks.
use gbuf.Base.{
  ℕ, ◌-◌, ◌≤◌, ◌<◌, ◌≡◌, refl, ap, ◌∙◌, ◌⊎◌, inl, inr, true, false, ◌&&◌, Option, none, some, List,
  ◌++◌, arith, ltb, ok, length, slice, take, drop, splice, slice-ok, copy_into-ok, length-take,
  length-drop, list_ext, take_all, lt-or-le, le→ltb, pos→==, Returns, returns,
}
use mathlib.Core.List.{append-nil, append_assoc}
use gbuf.Base.Pointwise.{
  get_elem?-append, get_elem?-drop, get_elem?-take, get_elem?-splice, length-splice,
}
use gbuf.Base.Int.{pos, pos_part, ◌-ℤ◌}
use gbuf.Errors.{Error}
use gbuf.Streams.{Sink}
use gbuf.Gbufio.Writer.{Writer, flush, flushed}

-- What the documentation of io.Writer asks: a count within the slice, and an error if not all was
-- written. `out` is what the writer has taken so far.
pub record Honest {S T : Type 0} (sink : Sink S T) (out : S → List T) : Type 0 where
  pub count : S → List T → ℕ
  pub fail : S → List T → Option Error
  pub after : S → List T → S
  pub answers : (s : S) (b : List T) → sink s b ≡ (pos (count s b), fail s b, after s b)
  pub fits : (s : S) (b : List T) → count s b ≤ length b
  pub logs : (s : S) (b : List T) → out (after s b) ≡ out s ++ take (count s b) b
  pub whole : (s : S) (b : List T) → fail s b ≡ none → count s b ≡ length b

module _ {S T : Type 0} where
  abbrev pub writer : Option Error → List T → ℕ → Sink S T → Writer S T
  writer e xs k wr = record { err = e; buf = xs; n = pos k; wr = wr }

  -- The items that wait are within the buffer.
  abbrev pub IsWithin : Writer S T → Type 0
  IsWithin b = (b.n ≡ pos (pos_part b.n)) × (pos_part b.n ≤ length b.buf)

  -- The items that wait to be written.
  abbrev pub pending : Writer S T → List T
  pending b = take (pos_part b.n) b.buf

  -- The items that the caller's writer has taken, and then those that wait.
  abbrev pub stream : (S → List T) → S → Writer S T → List T
  stream out s b = out s ++ pending b

  -- What Flush owes its caller: no item is lost or sent twice, and none waits if there is no error.
  abbrev pub FlushSpec : (S → List T) → Writer S T → S → Option Error × Writer S T × S → Type 0
  FlushSpec out b s (err, b', s') =
      (stream out s' b' ≡ stream out s b)
      × IsWithin b'
      × (length b'.buf ≡ length b.buf)
      × (b'.wr ≡ b.wr)
      × (b'.err ≡ err)
      × ((err ≡ none) × (b'.n ≡ pos 0) ⊎ (e : Error) × (err ≡ some e))

module _ {T : Type 0} where
  -- The items that are left when `m` of `k` were taken.
  slid :
      (xs : List T) (m k : ℕ)
      → m ≤ k
      → k ≤ length xs
      → take m (take k xs)
          ++ take (k - m) (splice xs 0 (take (k - m - 0) (take (k - m) (drop m xs))))
        ≡ take k xs
  slid xs m k h h' = list_ext _ _ λ i.
      let rest = take (k - m) (drop m xs) in
      let moved = splice xs 0 (take (k - m - 0) rest) in
      ground (
        arith,
        get_elem?-append (take m (take k xs)) (take (k - m) moved) i,
        length-take m (take k xs),
        length-take k xs,
        get_elem?-take m (take k xs) i,
        get_elem?-take k xs i,
        get_elem?-take (k - m) moved (i - length (take m (take k xs))),
        get_elem?-splice xs 0 (take (k - m - 0) rest) (i - length (take m (take k xs))),
        length-take (k - m - 0) rest,
        length-take (k - m) (drop m xs),
        length-drop m xs,
        get_elem?-take (k - m - 0) rest (i - length (take m (take k xs)) - 0),
        get_elem?-take (k - m) (drop m xs) (i - length (take m (take k xs)) - 0),
        get_elem?-drop m xs (i - length (take m (take k xs)) - 0),
      )

module _ {S T : Type 0} {sink : Sink S T} {out : S → List T} (honest : Honest sink out) where
  flush_call :
      (xs : List T) (k : ℕ) (s : S)
      → k ≤ length xs
      → 0 < k
      → flush (writer none xs k sink) s
        ≡ flushed (writer none xs k sink) k (
          pos (honest.count s (take k xs)),
          honest.fail s (take k xs),
          honest.after s (take k xs),
        )
  unfolding flush
  flush_call xs k s hk p =
      let bare : k - 0 ≡ k = omega arith in
      let items : slice xs 0 k ≡ ok (take k xs) =
        slice-ok xs 0 k (omega arith) hk ∙ ap (λ c. ok (take c xs)) bare in
      let called : flush (writer none xs k sink) s
          ≡ flushed (writer none xs k sink) k (sink s (take k xs)) =
        rw (pos→== p, items) refl in
      called ∙ ap (flushed (writer none xs k sink) k) (honest.answers s (take k xs))

  flush_some :
      (xs : List T) (k : ℕ) (s : S) (fail : Option Error)
      → k ≤ length xs
      → 0 < k
      → honest.fail s (take k xs) ≡ fail
      → Returns (FlushSpec out (writer none xs k sink) s) (
          flushed
            (writer none xs k sink)
            k
            (pos (honest.count s (take k xs)), fail, honest.after s (take k xs)))
  unfolding flushed
  flush_some xs k s none hk p e =
      let b = take k xs in
      let size : length b ≡ k = omega (arith, length-take k xs) in
      let m : honest.count s b ≡ k = honest.whole s b e ∙ size in
      let logged : out (honest.after s b) ≡ out s ++ b =
        honest.logs s b
        ∙ ap (λ c. out s ++ c) (take_all (honest.count s b) b (omega (arith, m, size))) in
      rw (m, flushed, le→ltb {a = k} {b = k} (omega arith))
        (returns (
          append-nil (out (honest.after s b)) ∙ logged,
          (refl, omega arith),
          refl,
          refl,
          refl,
          inl (refl, refl),
        ))
  flush_some xs k s (some f) hk p e =
      let b = take k xs in
      let m = honest.count s b in
      let bound : m ≤ k = omega (arith, honest.fits s b, length-take k xs) in
      let logged = honest.logs s b in
      elim (lt-or-le m k) [
        | inr all ↦
            let same : m ≡ k = omega arith in
            let gone : k - m ≡ 0 = omega arith in
            let logged' : out (honest.after s b) ≡ out s ++ b =
              logged ∙ ap (λ c. out s ++ c) (take_all m b (omega (arith, length-take k xs))) in
            let left : (pos k -ℤ pos m) ≡ pos 0 = ground arith in
            let settled : (ltb 0 m && ltb m k) ≡ false = ground arith in
            rw (settled, left)
              (returns (
                append-nil (out (honest.after s b)) ∙ logged',
                (refl, omega arith),
                refl,
                refl,
                refl,
                inr (f, refl),
              ))
        | inl partly ↦
            let left : (pos k -ℤ pos m) ≡ pos (k - m) = ground arith in
            elim (lt-or-le 0 m) [
              | inr none_taken ↦
                  let zero_taken : m ≡ 0 = omega arith in
                  let settled : (ltb 0 m && ltb m k) ≡ false = ground arith in
                  let logged' : out (honest.after s b) ≡ out s =
                    logged ∙ (rw zero_taken (append-nil (out s))) in
                  let whole : k - m ≡ k = omega arith in
                  rw (settled, left, whole)
                    (returns (
                      ap (λ c. c ++ take k xs) logged',
                      (refl, hk),
                      refl,
                      refl,
                      refl,
                      inr (f, refl),
                    ))
              | inl some_taken ↦
                  let settled : (ltb 0 m && ltb m k) ≡ true = ground arith in
                  let rest = take (k - m) (drop m xs) in
                  let moved = splice xs 0 (take (k - m - 0) rest) in
                  let size = length-splice xs 0 (take (k - m - 0) rest) in
                  rw
                    (
                      settled,
                      slice-ok xs m k bound hk,
                      copy_into-ok xs 0 (k - m) rest (omega arith) (omega arith),
                      left,
                    )
                    (returns (
                      ap (λ c. c ++ take (k - m) moved) logged
                          ∙ append_assoc (out s) (take m b) (take (k - m) moved)
                          ∙ ap (λ c. out s ++ c) (slid xs m k bound hk),
                      (refl, omega (arith, size)),
                      size,
                      refl,
                      refl,
                      inr (f, refl),
                    ))
            ]
      ]

  flush-none :
      (xs : List T) (s : S)
      → Returns (FlushSpec out (writer none xs 0 sink) s) (flush (writer none xs 0 sink) s)
  unfolding flush
  flush-none xs s =
      returns {a = (none, writer none xs 0 sink, s)}
        (refl, (refl, omega arith), refl, refl, refl, inl (refl, refl))

  -- Flush of a Writer with no error sends the items that wait, to a writer that does what the
  -- interface asks. None is lost or sent twice, whatever that writer returns, and the error, if
  -- there is one, is kept.
  pub flush_lem :
      (xs : List T) (k : ℕ) (s : S)
      → k ≤ length xs
      → Returns (FlushSpec out (writer none xs k sink) s) (flush (writer none xs k sink) s)
  flush_lem xs k s hk = elim (lt-or-le 0 k) [
    | inl p ↦ rw (flush_call xs k s hk p) (flush_some xs k s (honest.fail s (take k xs)) hk p refl)
    | inr p ↦ let e : k ≡ 0 = omega arith in rw e (flush-none xs s)
  ]
