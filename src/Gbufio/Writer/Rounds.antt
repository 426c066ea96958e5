-- ===== src/Gbufio/Writer/Rounds.antt =====
-- What Write of a Writer owes its caller, and how its rounds add up, for a writer that does what the interface asks.
use gbuf.Base.{
  ℕ, ◌+◌, ◌-◌, ◌≤◌, ◌≡◌, refl, sym, ap, ◌∙◌, ◌⊎◌, inl, inr, Option, none, some, List, ◌++◌, arith,
  length, take, drop, min, splice, length-take, length-drop, list_ext,
}
use mathlib.Core.List.{append-nil, append_assoc}
use gbuf.Base.Pointwise.{
  get_elem?-append, get_elem?-take, get_elem?-splice, get_elem?-out, take-split,
}
use gbuf.Errors.{Error}
use gbuf.Gbufio.Writer.{Writer}
use gbuf.Gbufio.Writer.Flush.{IsWithin, stream}

module _ {T : Type 0} where
  -- Items copied behind those that wait.
  pub appended :
      (xs p : List T) (k : ℕ)
      → k ≤ length xs
      → take (k + min (length xs - k) (length p)) (splice xs k (take (length xs - k) p))
        ≡ take k xs ++ take (min (length xs - k) (length p)) p
  appended xs p k h = list_ext _ _ λ i.
      let n = min (length xs - k) (length p) in
      ground (
        arith,
        get_elem?-take (k + n) (splice xs k (take (length xs - k) p)) i,
        get_elem?-splice xs k (take (length xs - k) p) i,
        length-take (length xs - k) p,
        get_elem?-take (length xs - k) p (i - k),
        get_elem?-append (take k xs) (take n p) i,
        length-take k xs,
        get_elem?-take k xs i,
        get_elem?-take n p (i - length (take k xs)),
        get_elem?-out p (i - k),
      )

module _ {S T : Type 0} where
  -- What Write owes its caller when the count stands at `nn`: the items that the caller's writer has
  -- taken and those that wait are those before, and then as many of the slice as it counts.
  abbrev pub WriteSpec :
      (S → List T) → Writer S T → List T → ℕ → S → ℕ × Option Error × Writer S T × S → Type 0
  WriteSpec out b p nn s (nn', err, b', s') =
      (nn ≤ nn')
      × (nn' - nn ≤ length p)
      × (stream out s' b' ≡ stream out s b ++ take (nn' - nn) p)
      × IsWithin b'
      × (length b'.buf ≡ length b.buf)
      × (b'.wr ≡ b.wr)
      × (b'.err ≡ err)
      × ((err ≡ none) × (nn' - nn ≡ length p) ⊎ (e : Error) × (err ≡ some e))

module _ {S T : Type 0} (out : S → List T) where
  -- A round that took `m` items, and then the rest.
  pub continued :
      (b b₁ : Writer S T) (p : List T) (nn m : ℕ) (s s₁ : S)
      → m ≤ length p
      → stream out s₁ b₁ ≡ stream out s b ++ take m p
      → length b₁.buf ≡ length b.buf
      → b₁.wr ≡ b.wr
      → (result : ℕ × Option Error × Writer S T × S)
      → WriteSpec out b₁ (drop m p) (nn + m) s₁ result
      → WriteSpec out b p nn s result
  continued b b₁ p nn m s s₁ h taken size same (nn', err, b', s')
        (from, bound, sent, within, size', same', kept, end) =
      let n = nn' - (nn + m) in
      let count : nn' - nn ≡ m + n = omega arith in
      let rest : length (drop m p) ≡ length p - m = length-drop m p in
      let sent' : stream out s' b' ≡ stream out s b ++ take (nn' - nn) p =
        sent
        ∙ ap (λ c. c ++ take n (drop m p)) taken
        ∙ append_assoc (stream out s b) (take m p) (take n (drop m p))
        ∙ ap (λ c. stream out s b ++ c) (take-split m n p ∙ ap (λ k. take k p) (sym count)) in
      let end' : (err ≡ none) × (nn' - nn ≡ length p) ⊎ (e : Error) × (err ≡ some e) = elim end [
        | inl (fine, all) ↦ inl (fine, omega arith)
        | inr broken ↦ inr broken
      ] in
      (omega arith, omega arith, sent', within, size' ∙ size, same' ∙ same, kept, end')

  -- No more is written.
  pub stopped :
      (b : Writer S T) (p : List T) (nn : ℕ) (s : S) (e : Error)
      → b.err ≡ some e
      → IsWithin b
      → WriteSpec out b p nn s (nn, some e, b, s)
  stopped b p nn s e kept within =
      let bare : nn - nn ≡ 0 = omega arith in
      (
        omega arith,
        omega arith,
        rw bare (sym (append-nil (stream out s b))),
        within,
        refl,
        refl,
        kept,
        inr (e, refl),
      )
