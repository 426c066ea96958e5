-- ===== src/RingBuffer/Read/Refines.antt =====
-- Read against the list of unread items.
use gbuf.Base.{
  ℕ, ◌<◌, ◌≡◌, refl, ◌∙◌, Bool, true, Option, none, List, [], ◌∷◌, ◌++◌, arith, length, take, drop,
  min, lt-or-le, inl, inr, nil_of_length, take-nil, drop-nil, Returns, returns, Returns-of_eq,
}
use gbuf.Errors.{Error}
use gbuf.RingBuffer.{RingBuffer}
use gbuf.RingBuffer.Contents.{ring, unread_count, IsValid, valid, contents, Holds, length-contents}
use gbuf.RingBuffer.Advance.{len-ring}
use gbuf.RingBuffer.Read.{read}
use gbuf.RingBuffer.Read.Copies.{read-ring, after-Holds}

-- What Read owes its caller, from a state `r` and with a slice `p`.
abbrev pub ReadSpec :
    {T : Type 0} → RingBuffer T → List T → ℕ × Option Error × List T × RingBuffer T → Type 0
ReadSpec r p (n, err, p', r') =
    let q = contents r in
    (n ≡ min (length p) (length q))
    × (err ≡ none)
    × (p' ≡ take (length p) q ++ drop (length q) p)
    × Holds (length r.items) (drop (length p) q) r'

module _ {T : Type 0} (f : Bool) (w k : ℕ) (xs : List T) (hw : w < length xs) (hk : k < length xs)
    (at : f ≡ true → k ≡ w) where
  read-empty :
      (p : List T)
      → unread_count f w k (length xs) ≡ 0
      → Returns (ReadSpec (ring f w k xs) p) (read (ring f w k xs) p)
  unfolding read
  read-empty p e =
      let size = length-contents f w k xs hw hk at ∙ e in
      let nil = nil_of_length (contents (ring f w k xs)) size in
      Returns-of_eq {result = (0, none, p, ring f w k xs)}
        (rw (len-ring f w k xs hw hk at, e) (ground arith))
        (
          omega (arith, size),
          refl,
          rw (nil, take-nil T (length p)),
          (valid f w k xs hw hk at, refl, rw (nil, drop-nil T (length p))),
        )

-- Read on a well-formed buffer does not panic and returns no error. It copies the oldest unread
-- items into the slice, as many as fit, reports their number, and drops just them.
pub read_refines :
    {T : Type 0} {r : RingBuffer T} (p : List T) → IsValid r → Returns (ReadSpec r p) (read r p)
unfolding read
read_refines {T} [] (valid f w k xs hw hk at) = returns (
  omega arith,
  refl,
  rw (drop-nil T (length (contents (ring f w k xs)))),
  (valid f w k xs hw hk at, refl, refl),
)
read_refines (x ∷ p) (valid f w k xs hw hk at) =
    elim (lt-or-le 0 (unread_count f w k (length xs))) [
      | inl h ↦ Returns-of_eq (read-ring f w k xs hw hk at (x ∷ p) (omega arith) h) (
        omega (arith, length-contents f w k xs hw hk at),
        refl,
        refl,
        after-Holds f w k xs hw hk at (x ∷ p) (omega arith) h,
      )
      | inr h ↦ read-empty f w k xs hw hk at (x ∷ p) (omega arith)
    ]
