-- ===== src/Gbufio/ComparableReader/Tests.antt =====
-- Runs of a ComparableReader at concrete inputs.
use gbuf.Base.{
  ℕ, ◌≡◌, refl, none, some, List, [], ◌∷◌, ◌++◌, arith, min, true, false, ◌==◌, ok, panic, slice,
  copy_into, length, take, splice, Returns,
}
use gbuf.Base.Pointwise.{length-splice}
use gbuf.Base.Int.{pos}
use gbuf.Errors.{buffer_full}
use gbuf.Streams.{Source}
use gbuf.Gbufio.Reader.{Reader, fill, try_reads, read_at}
use gbuf.Gbufio.Reader.Stream.{Honest}
use gbuf.Gbufio.Reader.Fill.{reader}
use gbuf.Gbufio.ComparableReader.{
  ComparableReader, new_comparable_reader, index_of, read_slice, read_line, read_items,
}
use gbuf.Gbufio.ComparableReader.Slice.{LineSpec, read_slice_refines}

-- A reader that counts its calls' items.
abbrev counting : Source (List ℕ) ℕ
counting s p =
    let held = splice p 0 (length s ∷ []) in
    let count = min 1 (length p) in (pos count, none, held, s ++ take count held)

counting-Honest : Honest counting (λ s. s)
counting-Honest = record {
  count = λ s p. min 1 (length p);
  fail = λ s p. none;
  holds = λ s p. splice p 0 (length s ∷ []);
  after = λ s p. s ++ take (min 1 (length p)) (splice p 0 (length s ∷ []));
  answers = λ s p. refl;
  fits = λ s p. omega arith;
  whole = λ s p. length-splice p 0 (length s ∷ []);
  logs = λ s p. refl;
}

abbrev start : Reader (List ℕ) ℕ
start = reader (9 ∷ 9 ∷ 9 ∷ []) counting 1 2 none false

read_slice_refines_example :
    Returns (LineSpec ◌==◌ 1 (λ s. s) start []) (read_slice ◌==◌ 5 start 1 [])
read_slice_refines_example =
    read_slice_refines ◌==◌ counting-Honest start 1 4 [] refl (omega arith, omega arith)
      (omega arith) (omega arith)

slice_run :
    read_slice ◌==◌ 5 start 1 []
    ≡ ok (9 ∷ 0 ∷ 1 ∷ [], none, reader (9 ∷ 0 ∷ 1 ∷ []) counting 3 3 none true, 0 ∷ 1 ∷ [])
unfolding read_slice index_of fill try_reads read_at slice copy_into
slice_run = refl

full_run :
    read_slice ◌==◌ 5 start 2 []
    ≡ ok (
      9 ∷ 0 ∷ 1 ∷ [],
      some buffer_full,
      reader (9 ∷ 0 ∷ 1 ∷ []) counting 3 3 none true,
      0 ∷ 1 ∷ [],
    )
unfolding read_slice index_of fill try_reads read_at slice copy_into
full_run = refl

items_run :
    read_items ◌==◌ 3 5 0 start 3 []
    ≡ ok (
      9 ∷ 0 ∷ 1 ∷ 2 ∷ 3 ∷ [],
      none,
      reader (2 ∷ 3 ∷ 1 ∷ []) counting 2 2 none true,
      0 ∷ 1 ∷ 2 ∷ 3 ∷ [],
    )
unfolding read_items read_slice index_of fill try_reads read_at slice copy_into
items_run = refl

abbrev lines : ComparableReader (List ℕ) ℕ
lines = record { reader = start; delim = 1; excluded = some 0 }

line_run :
    read_line ◌==◌ 5 lines []
    ≡ ok (
      9 ∷ [],
      false,
      none,
      record lines { reader = reader (9 ∷ 0 ∷ 1 ∷ []) counting 3 3 none true },
      0 ∷ 1 ∷ [],
    )
unfolding read_line read_slice index_of fill try_reads read_at slice copy_into
line_run = refl

new_run : new_comparable_reader {S = List ℕ} {T = ℕ} none none (pos 16) 1 ≡ panic
unfolding new_comparable_reader
new_run = refl
