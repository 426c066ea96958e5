-- ===== src/Gbufio/Writer/Stream.antt =====
-- Sequences of calls of a Writer, for a writer that does what the interface asks.
use gbuf.Base.{
  ℕ, suc, ◌-◌, ◌<◌, ◌≡◌, refl, sym, ap, subst, ◌∙◌, Option, none, some, List, [], ◌++◌, arith, ok,
  length, take, Returns-result, ok-inj,
}
use mathlib.Core.List.{append-nil, append_assoc}
use gbuf.Base.Int.{pos_part}
use gbuf.Errors.{Error}
use gbuf.Streams.{Sink}
use gbuf.Gbufio.Writer.{Writer, flush, write, write_item}
use gbuf.Gbufio.Writer.Flush.{Honest, writer, IsWithin, stream, flush_lem}
use gbuf.Gbufio.Writer.Write.{writer_write_refines}
use gbuf.Gbufio.Writer.Item.{accepted, write_item_lem}

module _ {S T : Type 0} where
  -- Calls of Flush, Write and WriteItem, in this order, with the states before and after, and the
  -- items that their results count as written.
  pub data Calls : Writer S T → S → List T → Writer S T → S → Type 0 where
    finished : {b : Writer S T} {s : S} → Calls b s [] b s
    then_flush :
        {b b' b'' : Writer S T} {s s' s'' : S} {items : List T} {err : Option Error}
        → flush b s ≡ ok (err, b', s')
        → Calls b' s' items b'' s''
        → Calls b s items b'' s''
    then_write :
        {b b' b'' : Writer S T} {s s' s'' : S} {items : List T} {err : Option Error} {nn : ℕ}
        → (p : List T) (fuel : ℕ) → write (suc (suc (suc fuel))) b p s ≡ ok (nn, err, b', s')
        → Calls b' s' items b'' s''
        → Calls b s (take nn p ++ items) b'' s''
    then_write_item :
        {b b' b'' : Writer S T} {s s' s'' : S} {items : List T} {err : Option Error}
        → (c : T) → write_item b c s ≡ ok (err, b', s')
        → Calls b' s' items b'' s''
        → Calls b s (accepted err c ++ items) b'' s''

  sticky_flush :
      (b : Writer S T) (s : S) (e : Error) → b.err ≡ some e → flush b s ≡ ok (some e, b, s)
  unfolding flush
  sticky_flush b s e h = rw h refl

  sticky_item :
      (b : Writer S T) (s : S) (c : T) (e : Error)
      → b.err ≡ some e
      → write_item b c s ≡ ok (some e, b, s)
  unfolding write_item
  sticky_item b s c e h = rw h refl

  sticky_write :
      (b : Writer S T) (s : S) (p : List T) (fuel : ℕ) (e : Error)
      → b.err ≡ some e
      → write (suc fuel) b p s ≡ ok (0, some e, b, s)
  unfolding write
  sticky_write b s p fuel e h = rw h refl

  -- Once a Writer has an error, no sequence of calls of Flush, Write and WriteItem changes it, changes
  -- the state of the caller's writer, or counts an item as written.
  pub Calls-sticky :
      {b b' : Writer S T} {s s' : S} {items : List T} (e : Error)
      → b.err ≡ some e
      → Calls b s items b' s'
      → (b' ≡ b) × (s' ≡ s) × (items ≡ [])
  Calls-sticky e h finished = (refl, refl, refl)
  Calls-sticky {b} {s = s} e h (then_flush call rest) =
      let same = ok-inj (sym call ∙ sticky_flush b s e h) in
      let (state, store, none_left) = Calls-sticky e (ap (λ r. r.1.err) same ∙ h) rest in
      (state ∙ ap (λ r. r.1) same, store ∙ ap (λ r. r.2) same, none_left)
  Calls-sticky {b} {s = s} e h (then_write {items} p fuel call rest) =
      let same = ok-inj (sym call ∙ sticky_write b s p (suc (suc fuel)) e h) in
      let (state, store, none_left) = Calls-sticky e (ap (λ r. r.2.err) same ∙ h) rest in
      (
        state ∙ ap (λ r. r.2) same,
        store ∙ ap (λ r. r.3) same,
        ap (λ r. take r.0 p ++ items) same ∙ none_left,
      )
  Calls-sticky {b} {s = s} e h (then_write_item {items} c call rest) =
      let same = ok-inj (sym call ∙ sticky_item b s c e h) in
      let (state, store, none_left) = Calls-sticky e (ap (λ r. r.1.err) same ∙ h) rest in
      (
        state ∙ ap (λ r. r.1) same,
        store ∙ ap (λ r. r.2) same,
        ap (λ r. accepted r.0 c ++ items) same ∙ none_left,
      )

  -- A Writer between two calls, and what a call that takes these items owes.
  abbrev pub IsReady : Sink S T → Writer S T → Type 0
  IsReady sink b = (b.wr ≡ sink) × IsWithin b × (0 < length b.buf)

  abbrev Kept : (S → List T) → Sink S T → Writer S T → S → List T → Writer S T → S → Type 0
  Kept out sink b s items b' s' = IsReady sink b' × (stream out s' b' ≡ stream out s b ++ items)

module _ {T : Type 0} where
  joined :
      {y z : List T} (x now later : List T)
      → y ≡ x ++ now
      → z ≡ y ++ later
      → z ≡ x ++ (now ++ later)
  joined x now later e e' = e' ∙ ap (λ l. l ++ later) e ∙ append_assoc x now later

module _ {S T : Type 0} {sink : Sink S T} {out : S → List T} (honest : Honest sink out) where
  -- A Writer that failed keeps its state.
  failed_call :
      (b b' : Writer S T) (s s' : S) → IsReady sink b → b' ≡ b → s' ≡ s → Kept out sink b s [] b' s'
  failed_call b b' s s' ready same store =
      rw (same, store) (ready, sym (append-nil (stream out s b)))

  as_writer :
      (b : Writer S T) → IsReady sink b → b.err ≡ none → b ≡ writer none b.buf (pos_part b.n) sink
  as_writer b (same, (whole, _), _) fine =
      λ i. record { err = fine i; buf = b.buf; n = whole i; wr = same i }

  flush-Kept :
      (fail : Option Error) (b b' : Writer S T) (s s' : S) (err : Option Error)
      → b.err ≡ fail
      → IsReady sink b
      → flush b s ≡ ok (err, b', s')
      → Kept out sink b s [] b' s'
  flush-Kept (some e) b b' s s' err h ready call =
      let same = ok-inj (sym call ∙ sticky_flush b s e h) in
      failed_call b b' s s' ready (ap (λ r. r.1) same) (ap (λ r. r.2) same)
  flush-Kept none b b' s s' err h (same, within, room) call =
      let spec =
        Returns-result (flush_lem honest b.buf (pos_part b.n) s within.1)
          (ap (λ x. flush x s) (sym (as_writer b (same, within, room) h)) ∙ call) in
      let (sent, within', size, same', _, _) = spec in
      ((same', within', omega (arith, size)), sent ∙ sym (append-nil (stream out s b)))

  write-Kept :
      (fail : Option Error) (b b' : Writer S T) (s s' : S) (p : List T) (fuel nn : ℕ)
      (err : Option Error)
      → b.err ≡ fail
      → IsReady sink b
      → write (suc (suc (suc fuel))) b p s ≡ ok (nn, err, b', s')
      → Kept out sink b s (take nn p) b' s'
  write-Kept (some e) b b' s s' p fuel nn err h ready call =
      let same = ok-inj (sym call ∙ sticky_write b s p (suc (suc fuel)) e h) in
      subst (λ m. Kept out sink b s (take m p) b' s') (sym (ap (λ r. r.0) same))
        (failed_call b b' s s' ready (ap (λ r. r.2) same) (ap (λ r. r.3) same))
  write-Kept none b b' s s' p fuel nn err h (same, within, room) call =
      let spec =
        Returns-result (writer_write_refines honest b.buf (pos_part b.n) p fuel s within.1) (
          ap (λ x. write (suc (suc (suc fuel))) x p s) (sym (as_writer b (same, within, room) h))
          ∙ call) in
      let (_, _, sent, within', size, same', _, _) = spec in
      let bare : nn - 0 ≡ nn = omega arith in
      ((same', within', omega (arith, size)), sent ∙ ap (λ m. stream out s b ++ take m p) bare)

  item-Kept :
      (fail : Option Error) (b b' : Writer S T) (s s' : S) (c : T) (err : Option Error)
      → b.err ≡ fail
      → IsReady sink b
      → write_item b c s ≡ ok (err, b', s')
      → Kept out sink b s (accepted err c) b' s'
  item-Kept (some e) b b' s s' c err h ready call =
      let same = ok-inj (sym call ∙ sticky_item b s c e h) in
      subst (λ m. Kept out sink b s (accepted m c) b' s') (sym (ap (λ r. r.0) same))
        (failed_call b b' s s' ready (ap (λ r. r.1) same) (ap (λ r. r.2) same))
  item-Kept none b b' s s' c err h (same, within, room) call =
      let spec =
        Returns-result (write_item_lem honest b.buf (pos_part b.n) c s within.1 room)
          (ap (λ x. write_item x c s) (sym (as_writer b (same, within, room) h)) ∙ call) in
      let (sent, within', size, same', _) = spec in ((same', within', omega (arith, size)), sent)

  -- Through every sequence of calls of Flush, Write and WriteItem, with a writer that does what the
  -- interface asks, the items that it has taken and those that wait in the buffer are, in order,
  -- those of the start and then the ones that the calls' results count as written. Errors do not
  -- change this. The items that wait stay within the buffer.
  pub Calls-keep_stream :
      {b b' : Writer S T} {s s' : S} {items : List T}
      → IsReady sink b
      → Calls b s items b' s'
      → IsReady sink b' × (stream out s' b' ≡ stream out s b ++ items)
  Calls-keep_stream {b} {s = s} ready finished = (ready, sym (append-nil (stream out s b)))
  Calls-keep_stream {b} {s = s} ready (then_flush {s' = s'} {items = items} {err} call rest) =
      let now = flush-Kept b.err b _ _ _ err refl ready call in
      let (ready', sent) = Calls-keep_stream now.0 rest in
      (ready', joined (stream out s b) [] items now.1 sent)
  Calls-keep_stream {b} {s = s} ready
        (then_write {s' = s'} {items = items} {nn = nn} p fuel call rest) =
      let now = write-Kept b.err b _ _ _ p fuel _ _ refl ready call in
      let (ready', sent) = Calls-keep_stream now.0 rest in
      (ready', joined (stream out s b) (take nn p) items now.1 sent)
  Calls-keep_stream {b} {s = s} ready
        (then_write_item {s' = s'} {items = items} {err} c call rest) =
      let now = item-Kept b.err b _ _ _ c _ refl ready call in
      let (ready', sent) = Calls-keep_stream now.0 rest in
      (ready', joined (stream out s b) (accepted err c) items now.1 sent)
