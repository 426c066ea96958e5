-- ===== src/RingBuffer/Queue.antt =====
-- A ring buffer as a bounded queue that forgets its oldest items: a client's calls of Write,
-- WriteItem, Read and Reset in any order return what the queue returns.
use gbuf.Base.{
  ℕ, ◌<◌, ◌≡◌, refl, ap, List, [], ◌∷◌, ◌++◌, Run, ok, ◌>>=◌, length, take, drop, min, Returns,
  returns, Returns-bind,
}
use mathlib.Core.Path.{ap₂}
use gbuf.RingBuffer.{RingBuffer, reset}
use gbuf.RingBuffer.Contents.{IsValid, contents, last_n, Holds}
use gbuf.RingBuffer.Write.{write, write_item}
use gbuf.RingBuffer.Write.Refines.{write_refines}
use gbuf.RingBuffer.Write.Item.{write_item_refines}
use gbuf.RingBuffer.Read.{read}
use gbuf.RingBuffer.Read.Refines.{read_refines}
use gbuf.RingBuffer.Clear.{reset-Holds}

-- A call, with its argument.
pub data Call (T : Type 0) : Type 0 where
  write_items read_into : List T → Call T
  write_one : T → Call T
  clear : Call T

-- The count that the call returns, and the slice of a Read after it.
abbrev pub Reply : Type 0 → Type 0
Reply T = ℕ × List T

-- The queue of capacity `n`: a call's reply, and what the queue holds then.
abbrev pub queue_step : {T : Type 0} → ℕ → List T → Call T → Reply T × List T
queue_step n q (write_items p) = ((length p, []), last_n n (q ++ p))
queue_step n q (write_one x) = ((1, []), last_n n (q ++ (x ∷ [])))
queue_step n q (read_into p) =
    ((min (length p) (length q), take (length p) q ++ drop (length q) p), drop (length p) q)
queue_step n q clear = ((0, []), [])

pub queue_run : {T : Type 0} → ℕ → List T → List (Call T) → List (Reply T)
queue_run n q [] = []
queue_run n q (c ∷ cs) = (queue_step n q c).0 ∷ queue_run n (queue_step n q c).1 cs

-- No Write of the calls has as many items as the capacity.
abbrev pub AllSmall : {T : Type 0} → ℕ → List (Call T) → Type 0
AllSmall n [] = Unit
AllSmall n (write_items p ∷ cs) = (length p < n) × AllSmall n cs
AllSmall n (write_one x ∷ cs) = AllSmall n cs
AllSmall n (read_into p ∷ cs) = AllSmall n cs
AllSmall n (clear ∷ cs) = AllSmall n cs

module _ {T : Type 0} (z : T) where
  -- The calls on the buffer itself.
  pub step : RingBuffer T → Call T → Run (Reply T × RingBuffer T)
  step r (write_items p) = do (n, _, r') ← write r p; ok ((n, []), r')
  step r (write_one x) = do (_, r') ← write_item r x; ok ((1, []), r')
  step r (read_into p) = do (n, _, p', r') ← read r p; ok ((n, p'), r')
  step r clear = ok ((0, []), reset z r)

  pub run : RingBuffer T → List (Call T) → Run (List (Reply T))
  run r [] = ok []
  run r (c ∷ cs) = do (reply, r') ← step r c; replies ← run r' cs; ok (reply ∷ replies)

  -- A call's reply, and the queue that the buffer holds then.
  abbrev Stepped : ℕ → List T → Call T → Reply T × RingBuffer T → Type 0
  Stepped n q c (reply, r') = (reply ≡ (queue_step n q c).0) × Holds n (queue_step n q c).1 r'

  step_refines :
      {r : RingBuffer T} (c : Call T)
      → IsValid r
      → AllSmall (length r.items) (c ∷ [])
      → Returns (Stepped (length r.items) (contents r) c) (step r c)
  unfolding step
  step_refines (write_items p) v small =
      Returns-bind (write_refines p v small.0)
        λ (n, err, r') (count, _, h). returns (ap (λ k. (k, [])) count, h)
  step_refines (write_one x) v small =
      Returns-bind (write_item_refines x v) λ (err, r') (_, h). returns (refl, h)
  step_refines (read_into p) v small =
      Returns-bind (read_refines p v)
        λ (n, err, p', r') (count, _, out, h). returns (ap₂ (λ k xs. (k, xs)) count out, h)
  step_refines clear v small = returns (refl, (reset-Holds z v).0)

  AllSmall-head :
      (n : ℕ) (c : Call T) (cs : List (Call T)) → AllSmall n (c ∷ cs) → AllSmall n (c ∷ [])
  AllSmall-head n (write_items p) cs h = (h.0, tt)
  AllSmall-head n (write_one x) cs h = tt
  AllSmall-head n (read_into p) cs h = tt
  AllSmall-head n clear cs h = tt

  AllSmall-tail : (n : ℕ) (c : Call T) (cs : List (Call T)) → AllSmall n (c ∷ cs) → AllSmall n cs
  AllSmall-tail n (write_items p) cs h = h.1
  AllSmall-tail n (write_one x) cs h = h
  AllSmall-tail n (read_into p) cs h = h
  AllSmall-tail n clear cs h = h

  run-bind :
      (n : ℕ) (q : List T) (c : Call T) (cs : List (Call T)) {m : Run (Reply T × RingBuffer T)}
      → Returns (Stepped n q c) m
      → ((r' : RingBuffer T)
          → Holds n (queue_step n q c).1 r'
          → run r' cs ≡ ok (queue_run n (queue_step n q c).1 cs))
      → (m >>= λ (reply, r'). run r' cs >>= λ replies. ok (reply ∷ replies))
        ≡ ok (queue_run n q (c ∷ cs))
  unfolding queue_run
  run-bind n q c cs (returns (e, h)) rest = rw (rest _ h, e)

  -- Any calls on a well-formed buffer, whose Writes are shorter than its capacity, do not panic, and
  -- return what the bounded queue of its unread items returns.
  pub run_refines :
      {r : RingBuffer T} (cs : List (Call T))
      → IsValid r
      → AllSmall (length r.items) cs
      → run r cs ≡ ok (queue_run (length r.items) (contents r) cs)
  unfolding run queue_run
  run_refines {r} [] v small = refl
  run_refines {r} (c ∷ cs) v small =
      run-bind (length r.items) (contents r) c cs (step_refines c v (AllSmall-head _ c cs small))
        λ r' (v', size, q).
          rw (size, q) at (run_refines {r = r'} cs v' (rw size (AllSmall-tail _ c cs small)))
