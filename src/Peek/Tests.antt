-- ===== src/Peek/Tests.antt =====
-- peek.go and peek_buffer.go at small inputs.
use gbuf.Base.{
  ℕ, ◌-◌, ◌≤◌, ◌<◌, ◌≡◌, ◌≢◌, refl, Bool, true, false, Option, none, some, List, [], ◌∷◌, arith, ok,
  panic, ◌>>=◌, min, take, drop, leb, ltb, if◌then◌else◌,
}
use gbuf.Base.Int.{pos}
use gbuf.Buffer.{Buffer}
use gbuf.Buffer.Contents.{IsWithin}
use gbuf.Buffer.Read
use gbuf.Peek.{peek, peek_from, peek_range}
use gbuf.Peek.PeekBuffer
use gbuf.Peek.PeekBuffer.{PeekBuffer}
use gbuf.Peek.Refines.{peek_lem, peek_range-panics, peek_buffer_lem}

-- Unread: 12, 13.
abbrev two : Buffer ℕ
two = record {
  array = 10 ∷ 11 ∷ 12 ∷ 13 ∷ [];
  size = 4;
  off = 2;
  is_reading = true;
  is_nil = false;
}

two-IsWithin : IsWithin two
two-IsWithin = (omega arith, omega arith, λ e. cc)

peek_from_runs : peek_from (pos 1) (0 ∷ 0 ∷ []) two ≡ ok (2, none, 11 ∷ 12 ∷ [], two)
unfolding peek_from gbuf.Base.slice gbuf.Base.copy_into
peek_from_runs = refl

peek_lem_example : peek (0 ∷ []) two ≡ (
    gbuf.Buffer.Read.read two (0 ∷ []) >>= λ (n, err, p', b').
    ok (n, err, p', (if leb 4 2 then b' else two)))
peek_lem_example = peek_lem (0 ∷ []) two

peek_range-panics_example :
    (peek_range (pos 1) (pos 3) (0 ∷ []) two ≡ panic)
    × (PeekBuffer.peek_range (record { buffer = two }) (pos 1) (pos 3) (0 ∷ []) ≡ panic)
peek_range-panics_example =
    peek_range-panics (0 ∷ []) two 1 3 (omega arith) (omega arith) (omega arith)
      (λ e. absurd (omega arith))

peek_buffer_lem_example :
    (PeekBuffer.peek (record { buffer = two }) (0 ∷ [])
      ≡ (peek (0 ∷ []) two >>= λ (n, err, p', b'). ok (n, err, p', record { buffer = b' })))
    × (PeekBuffer.peek_from (record { buffer = two }) (pos 1) (0 ∷ []) ≡ (
        peek_from (pos 1) (0 ∷ []) two >>= λ (n, err, p', b').
        ok (n, err, p', record { buffer = b' })))
peek_buffer_lem_example = peek_buffer_lem two (pos 1) (0 ∷ [])
