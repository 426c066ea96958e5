-- ===== src/RingBuffer/Tests.antt =====
-- ringbuffer.go: runs at small inputs, and the theorems at inputs that meet their hypotheses.
use gbuf.Base.{
  ℕ, ◌+◌, ◌-◌, ◌≤◌, ◌<◌, ◌≡◌, refl, ◌⊎◌, inl, inr, Bool, true, false, none, some, List, [], ◌∷◌,
  ◌++◌, arith, ok, panic, length, get_elem?, take, drop, replicate, min, if◌then◌else◌, ltb, ◌==◌,
  Returns,
}
use gbuf.RingBuffer.{RingBuffer, unread_item}
use gbuf.RingBuffer.Contents.{ring, IsValid, valid, contents, last_n, Holds}
use gbuf.RingBuffer.Write.{write}
use gbuf.RingBuffer.Read.{read, read_item, read_items}
use gbuf.RingBuffer.Write.Refines.{write_refines}
use gbuf.RingBuffer.Write.Large.{write_large}
use gbuf.RingBuffer.Read.Refines.{ReadSpec, read_refines}
use gbuf.RingBuffer.Read.Item.{unread_item-read_item}
use gbuf.RingBuffer.Read.Items.{before, read_items_refines}
use gbuf.RingBuffer.Queue.{
  Call, write_items, write_one, read_into, clear, queue_run, run, run_refines,
}

abbrev storage : List ℕ
storage = 10 ∷ 11 ∷ 12 ∷ 13 ∷ 14 ∷ []

-- Unread: 11, 12.
abbrev part : RingBuffer ℕ
part = ring false 3 1 storage

-- Unread: 13, 14, 10.
abbrev wrapped : RingBuffer ℕ
wrapped = ring false 1 3 storage

-- Unread: 12, 13, 14, 10, 11.
abbrev all : RingBuffer ℕ
all = ring true 2 2 storage

abbrev none_unread : RingBuffer ℕ
none_unread = ring false 2 2 storage

part-IsValid : IsValid part
part-IsValid = valid false 3 1 storage (omega arith) (omega arith) (λ e. cc)

wrapped-IsValid : IsValid wrapped
wrapped-IsValid = valid false 1 3 storage (omega arith) (omega arith) (λ e. cc)

all-IsValid : IsValid all
all-IsValid = valid true 2 2 storage (omega arith) (omega arith) (λ e. refl)

none_unread-IsValid : IsValid none_unread
none_unread-IsValid = valid false 2 2 storage (omega arith) (omega arith) (λ e. refl)

contents-wrapped : contents wrapped ≡ 13 ∷ 14 ∷ 10 ∷ []
unfolding contents
contents-wrapped = refl

-- The example of the README: "some string" into five bytes leaves "tring".
write_large_runs :
    write (ring false 0 0 storage) (1 ∷ 2 ∷ 3 ∷ 4 ∷ 5 ∷ 6 ∷ 7 ∷ [])
    ≡ ok (5, none, ring true 0 0 (3 ∷ 4 ∷ 5 ∷ 6 ∷ 7 ∷ []))
unfolding write gbuf.Base.slice gbuf.Base.copy_into
write_large_runs = refl

write_runs : write part (1 ∷ 2 ∷ 3 ∷ []) ≡ ok (3, none, ring true 1 1 (3 ∷ 11 ∷ 12 ∷ 1 ∷ 2 ∷ []))
unfolding write gbuf.Base.slice gbuf.Base.copy_into
write_runs = refl

abbrev calls : List (Call ℕ)
calls = write_items (1 ∷ 2 ∷ []) ∷ read_into (0 ∷ 0 ∷ 0 ∷ []) ∷ write_one 7 ∷ clear ∷ []

run_refines_example : run 0 wrapped calls ≡ ok (queue_run 5 (contents wrapped) calls)
run_refines_example = run_refines 0 calls wrapped-IsValid (omega arith)

write_refines_example :
    Returns
      (λ (n, err, r').
        (n ≡ 3) × (err ≡ none) × Holds 5 (last_n 5 (contents part ++ (1 ∷ 2 ∷ 3 ∷ []))) r')
      (write part (1 ∷ 2 ∷ 3 ∷ []))
write_refines_example = write_refines (1 ∷ 2 ∷ 3 ∷ []) part-IsValid (omega arith)

-- The write index is 3, so the five items come back as 5, 6, 2, 3, 4.
write_large_example :
    Returns
      (λ (n, err, r'). (n ≡ 5) × (err ≡ none) × Holds 5 (5 ∷ 6 ∷ 2 ∷ 3 ∷ 4 ∷ []) r')
      (write part (1 ∷ 2 ∷ 3 ∷ 4 ∷ 5 ∷ 6 ∷ []))
write_large_example = write_large (1 ∷ 2 ∷ 3 ∷ 4 ∷ 5 ∷ 6 ∷ []) part-IsValid (omega arith)

read_refines_example : Returns (ReadSpec wrapped (0 ∷ 0 ∷ [])) (read wrapped (0 ∷ 0 ∷ []))
read_refines_example = read_refines (0 ∷ 0 ∷ []) wrapped-IsValid

unread_item-read_item_example :
    Returns (λ (item, err, r'). unread_item r' ≡ ok (none, part)) (read_item part)
unread_item-read_item_example = unread_item-read_item part-IsValid refl (omega arith)

abbrev at_start : RingBuffer ℕ
at_start = ring false 2 0 storage

at_start-IsValid : IsValid at_start
at_start-IsValid = valid false 2 0 storage (omega arith) (omega arith) (λ e. cc)

abbrev is_fourteen : ℕ → Bool
is_fourteen x = x == 14

read_items_refines_example :
    Returns
      (λ (line, err, r').
        (line ≡ before is_fourteen (contents wrapped))
        × (err ≡ none)
        × Holds 5 (drop (length line) (contents wrapped)) r')
      (read_items wrapped is_fourteen)
read_items_refines_example = read_items_refines is_fourteen wrapped-IsValid (inr (omega arith))
