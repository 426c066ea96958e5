-- ===== src/RingFilter/Tests.antt =====
-- ringfilter.go at small inputs.
use gbuf.Base.{
  ℕ, suc, ◌+◌, ◌-◌, ◌≤◌, ◌<◌, ◌≡◌, refl, Bool, true, false, Option, none, some, List, [], ◌∷◌, ◌++◌,
  arith, Run, ok, length, get_elem?, replicate, Returns, ◌>>=◌, ◌==◌,
}
use gbuf.Base.Int.{pos}
use gbuf.Errors.{Error, foreign}
use gbuf.RingBuffer
use gbuf.RingBuffer.Read
use gbuf.RingBuffer.Write
use gbuf.RingBuffer.Contents.{IsValid, valid, contents}
use gbuf.RingFilter.{RingFilter, Filter, ring_of, with_ring}
use gbuf.RingFilter.Write.{write}
use gbuf.RingFilter.Read.{read, read_item, value, next, read_items}
use gbuf.RingFilter.Stream.{read_from}
use gbuf.RingFilter.Same.{reads_lem}
use gbuf.RingFilter.{seek}
use gbuf.RingBuffer.{seek_end}
use gbuf.RingFilter.Filtered.{WriteSpec, filtered, write_lem, filter_write_refines}
use gbuf.RingFilter.Stream.ReadFrom.{FilterReadFromSpec, filter_read_from_refines}
use gbuf.RingBuffer.Stream.ReadFrom.{Delivers, ends, gives}
use gbuf.Streams.{Source}
use gbuf.Errors.{eof}
use gbuf.Base.{drop}

-- A process function that logs what it is given.
abbrev log_all : Filter (List ℕ) ℕ
log_all t p = (none, t ++ p)

-- One that fails.
abbrev refuse : Filter (List ℕ) ℕ
refuse t p = (some (foreign 1 false), t)

abbrev storage : List ℕ
storage = 10 ∷ 11 ∷ 12 ∷ 13 ∷ 14 ∷ []

-- Unread: 13, 14, 10.
abbrev logging : RingFilter (List ℕ) ℕ
logging = record { full = false; write = 1; read = pos 3; fn = log_all; items = storage }

abbrev refusing : RingFilter (List ℕ) ℕ
refusing = record { full = false; write = 1; read = pos 3; fn = refuse; items = storage }

abbrev full_one : RingFilter (List ℕ) ℕ
full_one = record { full = true; write = 2; read = pos 2; fn = log_all; items = storage }

logging-IsValid : IsValid (ring_of logging)
logging-IsValid = valid false 1 3 storage (omega arith) (omega arith) (λ e. cc)

full_one-IsValid : IsValid (ring_of full_one)
full_one-IsValid = valid true 2 2 storage (omega arith) (omega arith) (λ e. refl)

write_runs :
    write refusing (1 ∷ 2 ∷ 3 ∷ 4 ∷ 5 ∷ 6 ∷ []) []
    ≡ ok (
      0,
      some (foreign 1 false),
      record { full = true; write = 1; read = pos 1; fn = refuse; items = 2 ∷ 3 ∷ 4 ∷ 5 ∷ 6 ∷ [] },
      [],
    )
unfolding write gbuf.Base.slice gbuf.Base.copy_into
write_runs = refl

filter_write_refines_example :
    Returns
      (WriteSpec refusing (1 ∷ 2 ∷ []) (some (foreign 1 false), []))
      (write refusing (1 ∷ 2 ∷ []) [])
filter_write_refines_example =
    filter_write_refines refusing (1 ∷ 2 ∷ []) [] logging-IsValid (omega arith)

write_lem_example : write refusing (1 ∷ 2 ∷ []) [] ≡ (
    gbuf.RingBuffer.Write.write (ring_of refusing) (1 ∷ 2 ∷ []) >>= λ (n, err, b).
    filtered refusing (1 ∷ 2 ∷ []) n (some (foreign 1 false), []) (err, b))
write_lem_example = write_lem refusing (1 ∷ 2 ∷ []) []

abbrev is_fourteen : ℕ → Bool
is_fourteen x = x == 14

abbrev taken : List ℕ → List ℕ → ℕ × Option Error × List ℕ
taken s b = (length b, none, s ++ b)

-- A reader that hands out chunks, and then io.EOF.
abbrev chunks : Source (List (List ℕ)) ℕ
chunks [] b = (pos 0, some eof, b, [])
chunks (c ∷ cs) b = (pos (length c), none, c ++ drop (length c) b, cs)

two_chunks-Delivers : Delivers chunks 5 1 ((1 ∷ 2 ∷ []) ∷ (3 ∷ 4 ∷ []) ∷ []) (1 ∷ 2 ∷ 3 ∷ 4 ∷ []) 2
two_chunks-Delivers =
    gives ((3 ∷ 4 ∷ []) ∷ []) (1 ∷ 2 ∷ []) (3 ∷ 4 ∷ []) 1 (omega arith) (λ b e. refl)
      (gives [] (3 ∷ 4 ∷ []) [] 0 (omega arith) (λ b e. refl) (ends [] (λ b e. refl)))

filter_read_from_refines_example :
    Returns
      (FilterReadFromSpec (λ t. t) 5 (contents (ring_of logging)) 0 [] (1 ∷ 2 ∷ 3 ∷ 4 ∷ []))
      (read_from chunks 3 logging [] ((1 ∷ 2 ∷ []) ∷ (3 ∷ 4 ∷ []) ∷ []))
filter_read_from_refines_example =
    filter_read_from_refines chunks {r = logging} (λ t. t) (λ t p. t ++ p) (λ t p. refl)
      (λ t p. refl) 3 [] logging-IsValid two_chunks-Delivers (omega arith)

reads_lem_example :
    (read logging (0 ∷ []) ≡ (
      gbuf.RingBuffer.Read.read (ring_of logging) (0 ∷ []) >>= λ (n, err, p', b).
      ok (n, err, p', with_ring logging b)))
    × (read_item logging ≡ (
        gbuf.RingBuffer.Read.read_item (ring_of logging) >>= λ (item, err, b).
        ok (item, err, with_ring logging b)))
    × (read_items logging is_fourteen ≡ (
        gbuf.RingBuffer.Read.read_items (ring_of logging) is_fourteen >>= λ (line, err, b).
        ok (line, err, with_ring logging b)))
    × (value 0 logging ≡ (
        gbuf.RingBuffer.Read.value 0 (ring_of logging) >>= λ (line, b).
        ok (line, with_ring logging b)))
    × (next 0 logging (pos 2) ≡ (
        gbuf.RingBuffer.Read.next 0 (ring_of logging) (pos 2) >>= λ (line, b).
        ok (line, with_ring logging b)))
    × (seek logging (pos 1) seek_end ≡ (
        gbuf.RingBuffer.seek (ring_of logging) (pos 1) seek_end >>= λ (abs, err, b).
        ok (abs, err, with_ring logging b)))
reads_lem_example = reads_lem 0 logging (0 ∷ []) is_fourteen (pos 2) (pos 1) seek_end
