-- ===== src/Gbufio/Writer/Tests.antt =====
-- Runs of a Writer at concrete inputs.
use gbuf.Base.{
  ℕ, ◌-◌, ◌≡◌, refl, none, some, List, [], ◌∷◌, ◌++◌, arith, min, false, leb, if◌then◌else◌, ok,
  slice, copy_into, length, take, splice, Returns,
}
use gbuf.Base.Int.{pos}
use gbuf.Errors.{eof, foreign}
use gbuf.Streams.{Source, Sink}
use gbuf.Gbufio.Writer.Fetch.{read_from}
use gbuf.Gbufio.Writer.{Writer, flush, write, write_item, new_writer, reset}
use gbuf.Gbufio.Writer.Flush.{Honest, writer, stream, FlushSpec, flush_lem}
use gbuf.Gbufio.Writer.Rounds.{WriteSpec}
use gbuf.Gbufio.Writer.Write.{writer_write_refines}
use gbuf.Gbufio.Writer.Stream.{
  Calls, finished, then_flush, then_write_item, IsReady, Calls-keep_stream, Calls-sticky,
}

-- A writer that has room for three items.
abbrev three : Sink (List ℕ) ℕ
three s b =
    let count = min (3 - length s) (length b) in
    (
      pos count,
      (if leb (length b) (3 - length s) then none else some (foreign 1 false)),
      s ++ take count b,
    )

three-Honest : Honest three (λ s. s)
three-Honest = record {
  count = λ s b. min (3 - length s) (length b);
  fail = λ s b. if leb (length b) (3 - length s) then none else some (foreign 1 false);
  after = λ s b. s ++ take (min (3 - length s) (length b)) b;
  answers = λ s b. refl;
  fits = λ s b. omega arith;
  logs = λ s b. refl;
  whole = λ s b e. ground arith;
}

abbrev two_waiting : Writer (List ℕ) ℕ
two_waiting = writer none (7 ∷ 8 ∷ 0 ∷ []) 2 three

flush_lem_example :
    Returns (FlushSpec (λ s. s) two_waiting (1 ∷ 2 ∷ [])) (flush two_waiting (1 ∷ 2 ∷ []))
flush_lem_example = flush_lem three-Honest (7 ∷ 8 ∷ 0 ∷ []) 2 (1 ∷ 2 ∷ []) (omega arith)

flush_run :
    flush two_waiting (1 ∷ 2 ∷ [])
    ≡ ok (
      some (foreign 1 false),
      writer (some (foreign 1 false)) (8 ∷ 8 ∷ 0 ∷ []) 1 three,
      1 ∷ 2 ∷ 7 ∷ [],
    )
unfolding flush slice copy_into
flush_run = refl

writer_write_refines_example :
    Returns
      (WriteSpec (λ s. s) two_waiting (3 ∷ 4 ∷ 5 ∷ []) 0 [])
      (write 3 two_waiting (3 ∷ 4 ∷ 5 ∷ []) [])
writer_write_refines_example =
    writer_write_refines three-Honest (7 ∷ 8 ∷ 0 ∷ []) 2 (3 ∷ 4 ∷ 5 ∷ []) 0 [] (omega arith)

write_run :
    write 3 two_waiting (3 ∷ 4 ∷ 5 ∷ []) []
    ≡ ok (3, none, writer none (4 ∷ 5 ∷ 3 ∷ []) 2 three, 7 ∷ 8 ∷ 3 ∷ [])
unfolding write slice copy_into
write_run = refl

item_run :
    write_item (writer none (7 ∷ 8 ∷ 9 ∷ []) 3 three) 4 []
    ≡ ok (none, writer none (4 ∷ 8 ∷ 9 ∷ []) 1 three, 7 ∷ 8 ∷ 9 ∷ [])
unfolding write_item slice copy_into
item_run = refl

flush_again_run :
    flush (writer none (4 ∷ 8 ∷ 9 ∷ []) 1 three) (7 ∷ 8 ∷ 9 ∷ [])
    ≡ ok (
      some (foreign 1 false),
      writer (some (foreign 1 false)) (4 ∷ 8 ∷ 9 ∷ []) 1 three,
      7 ∷ 8 ∷ 9 ∷ [],
    )
unfolding flush slice copy_into
flush_again_run = refl

abbrev broken : Writer (List ℕ) ℕ
broken = writer (some (foreign 1 false)) (4 ∷ 8 ∷ 9 ∷ []) 1 three

abbrev sent_before : List ℕ
sent_before = 7 ∷ 8 ∷ 9 ∷ []

abbrev full : Writer (List ℕ) ℕ
full = writer none sent_before 3 three

-- WriteItem when the buffer is full, and then Flush, which fails.
Calls-run : Calls full [] (4 ∷ []) broken sent_before
Calls-run = then_write_item 4 item_run (then_flush flush_again_run finished)

Calls-keep_stream_example :
    IsReady three broken
    × (stream (λ s. s) sent_before broken ≡ stream (λ s. s) [] full ++ (4 ∷ []))
Calls-keep_stream_example =
    Calls-keep_stream three-Honest (refl, (refl, omega arith), omega arith) Calls-run

item_broken_run : write_item broken 5 [] ≡ ok (some (foreign 1 false), broken, [])
unfolding write_item slice copy_into
item_broken_run = refl

abbrev nothing : List ℕ
nothing = []

Calls-sticky_example : (broken ≡ broken) × (nothing ≡ nothing) × (nothing ≡ nothing)
Calls-sticky_example =
    Calls-sticky (foreign 1 false) refl (then_write_item 5 item_broken_run finished)

new_run : new_writer 0 none three (pos 2) ≡ writer none (0 ∷ 0 ∷ []) 0 three
unfolding new_writer
new_run = refl

reset_run : reset 0 broken (some three) ≡ writer none (4 ∷ 8 ∷ 9 ∷ []) 0 three
unfolding reset
reset_run = refl

-- A reader of two items and then io.EOF, which leaves the other state as it is.
abbrev two_items : Source (List ℕ) ℕ
two_items s p = (pos 2, some eof, splice p 0 (5 ∷ 6 ∷ []), s)

read_from_run :
    read_from two_items 2 none (writer none (7 ∷ 0 ∷ 0 ∷ []) 1 three) []
    ≡ ok (pos 2, none, writer none (7 ∷ 5 ∷ 6 ∷ []) 0 three, 7 ∷ 5 ∷ 6 ∷ [])
unfolding read_from slice copy_into
read_from_run = refl
