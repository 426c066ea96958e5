-- ===== src/Buffer/Stream/WriteTo.antt =====
-- WriteTo of a Buffer against the list of unread items.
use gbuf.Base.{
  ℕ, ◌-◌, ◌≤◌, ◌≡◌, refl, sym, true, false, Option, none, some, List, [], ◌++◌, arith, ltb, ◌==◌,
  if◌then◌else◌, length, take, drop, slice-ok, drop_all, nil_of_length, lt-or-le, inl, inr, lt→ltb,
  le→ltb, Returns, returns, length-take, length-drop,
}
use mathlib.Core.List.{append-nil}
use gbuf.Errors.{Error, short_write}
use gbuf.Buffer.{Buffer}
use gbuf.Buffer.Contents.{IsWithin, contents}
use gbuf.Buffer.Read.Refines.{contents-drop}
use gbuf.Buffer.Stream.{write_to}

module _ {S T : Type 0} (n_of : S → List T → ℕ) (push : S → List T → S) (out : S → List T)
    (fits : (s : S) (b : List T) → n_of s b ≤ length b)
    (logs : (s : S) (b : List T) → out (push s b) ≡ out s ++ take (n_of s b) b) where
  -- A writer that takes a first part of what it is given, with no error.
  abbrev pub taking : S → List T → ℕ × Option Error × S
  taking s b = (n_of s b, none, push s b)

  -- WriteTo of a well-formed Buffer to a writer that takes a first part of what it is given sends
  -- that part of the unread items, returns its length and drops just them. The error is
  -- io.ErrShortWrite just where items are left. The writer is called once, with all the unread items;
  -- where none are unread, it is not called and its state is left as it was.
  pub buffer_write_to_refines :
      (b : Buffer T) (s : S)
      → IsWithin b
      → Returns
          (λ (n, err, b', s').
            (n ≡ (if ltb 0 (length (contents b)) then n_of s (contents b) else 0))
            × (out s' ≡ out s ++ take n (contents b))
            × (contents b' ≡ drop n (contents b))
            × IsWithin b'
            × (s' ≡ (if ltb 0 (length (contents b)) then push s (contents b) else s))
            × (err ≡ (if ltb n (length (contents b)) then some short_write else none)))
          (write_to taking b s)
  unfolding write_to contents
  buffer_write_to_refines b s (ho, hs, hz) =
      let q = take (b.size - b.off) (drop b.off b.array) in
      let size : length q ≡ b.size - b.off =
        omega
          (arith, length-take (b.size - b.off) (drop b.off b.array), length-drop b.off b.array) in
      let m = n_of s q in
      let bound : m ≤ length q = fits s q in
      elim (lt-or-le b.off b.size) [
        | inl h ↦
            let at_most : ltb (b.size - b.off) m ≡ false =
              le→ltb {a = b.size - b.off} {b = m} (omega (arith, size)) in
            let some_left : ltb 0 (b.size - b.off) ≡ true =
              lt→ltb {a = 0} {b = b.size - b.off} (omega arith) in
            let counted : n_of s q ≡ (if ltb 0 (length q) then n_of s q else 0) =
              ground (arith, size) in
            let pushed : push s q ≡ (if ltb 0 (length q) then push s q else s) =
              ground (arith, size) in
            elim (lt-or-le m (b.size - b.off)) [
              | inl short ↦
                  let differs : (m == (b.size - b.off)) ≡ false = ground arith in
                  rw (some_left, slice-ok b.array b.off b.size ho hs, at_most, differs)
                    (returns (
                      counted,
                      logs s q,
                      contents-drop b.array b.size b.off m (omega arith) hs,
                      (omega arith, hs, hz),
                      pushed,
                      ground (arith, size),
                    ))
              | inr full ↦
                  let equal : (m == (b.size - b.off)) ≡ true = ground (arith, size) in
                  rw (some_left, slice-ok b.array b.off b.size ho hs, at_most, equal)
                    (returns (
                      counted,
                      logs s q,
                      sym (drop_all m q (omega (arith, size))),
                      (omega arith, omega arith, hz),
                      pushed,
                      ground (arith, size),
                    ))
            ]
        | inr h ↦
            let nil : q ≡ [] = nil_of_length q (omega (arith, size)) in
            rw (le→ltb {a = 0} {b = b.size - b.off} (omega arith), nil)
              (returns
                (refl, sym (append-nil (out s)), refl, (omega arith, omega arith, hz), refl, refl))
      ]
