-- ===== src/RingBuffer/Stream/Tests.antt =====
-- ringbuffer.go: ReadFrom and WriteTo at small inputs.
use gbuf.Base.{
  ℕ, ◌≡◌, refl, inr, false, none, some, List, [], ◌∷◌, ◌++◌, arith, length, drop, Returns,
}
use gbuf.Base.Int.{pos}
use gbuf.Errors.{eof}
use gbuf.Streams.{Source, Sink}
use gbuf.RingBuffer.{RingBuffer}
use gbuf.RingBuffer.Contents.{ring, IsValid, valid, contents, Holds}
use gbuf.RingBuffer.Stream.{read_from, write_to}
use gbuf.RingBuffer.Stream.ReadFrom.{Delivers, ends, gives, ReadFromSpec, read_from_refines}
use gbuf.RingBuffer.Stream.WriteTo.{write_to_refines}

-- Unread: 13, 14, 10.
abbrev wrapped : RingBuffer ℕ
wrapped = ring false 1 3 (10 ∷ 11 ∷ 12 ∷ 13 ∷ 14 ∷ [])

abbrev drained : RingBuffer ℕ
drained = ring false 2 2 (10 ∷ 11 ∷ 12 ∷ 13 ∷ 14 ∷ [])

wrapped-IsValid : IsValid wrapped
wrapped-IsValid =
    valid false 1 3 (10 ∷ 11 ∷ 12 ∷ 13 ∷ 14 ∷ []) (omega arith) (omega arith) (λ e. cc)

drained-IsValid : IsValid drained
drained-IsValid =
    valid false 2 2 (10 ∷ 11 ∷ 12 ∷ 13 ∷ 14 ∷ []) (omega arith) (omega arith) (λ e. refl)

-- A reader that hands out chunks, and then io.EOF.
abbrev chunks : Source (List (List ℕ)) ℕ
chunks [] b = (pos 0, some eof, b, [])
chunks (c ∷ cs) b = (pos (length c), none, c ++ drop (length c) b, cs)

abbrev two_chunks : List (List ℕ)
two_chunks = (1 ∷ 2 ∷ []) ∷ (3 ∷ 4 ∷ []) ∷ []

two_chunks-Delivers : Delivers chunks 5 1 two_chunks (1 ∷ 2 ∷ 3 ∷ 4 ∷ []) 2
two_chunks-Delivers =
    gives ((3 ∷ 4 ∷ []) ∷ []) (1 ∷ 2 ∷ []) (3 ∷ 4 ∷ []) 1 (omega arith) (λ b e. refl)
      (gives [] (3 ∷ 4 ∷ []) [] 0 (omega arith) (λ b e. refl) (ends [] (λ b e. refl)))

-- A writer that takes all it is given.
abbrev collect : Sink (List ℕ) ℕ
collect s b = (pos (length b), none, s ++ b)

read_from_refines_example :
    Returns
      (ReadFromSpec 5 (contents wrapped) 0 (1 ∷ 2 ∷ 3 ∷ 4 ∷ []))
      (read_from chunks 3 wrapped two_chunks)
read_from_refines_example =
    read_from_refines chunks 3 wrapped-IsValid two_chunks-Delivers (omega arith)

write_to_refines_example :
    Returns
      (λ (n, err, r', s').
        (n ≡ 3) × (err ≡ none) × (s' ≡ (5 ∷ []) ++ contents wrapped) × Holds 5 [] r')
      (write_to collect wrapped (5 ∷ []))
unfolding contents
write_to_refines_example =
    write_to_refines collect (λ s. s) (λ s b. s ++ b) (λ s b. refl) (λ s b. refl) (5 ∷ [])
      wrapped-IsValid (inr (omega arith))
