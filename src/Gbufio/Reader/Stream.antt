-- ===== src/Gbufio/Reader/Stream.antt =====
-- What the operations of a Reader owe their callers, for a reader that does what the interface asks.
use gbuf.Base.{ℕ, ◌-◌, ◌≤◌, ◌≡◌, sym, ap, ◌∙◌, Option, List, [], ◌++◌, length, take, drop}
use mathlib.Core.List.{append-nil, append_assoc}
use gbuf.Base.Int.{pos}
use gbuf.Errors.{Error}
use gbuf.Streams.{Source}
use gbuf.Gbufio.Reader.{Reader}

-- What the documentation of io.Reader asks: a count within the slice, whose first entries are the
-- items read. `given` is what the reader has given out so far.
pub record Honest {S T : Type 0} (source : Source S T) (given : S → List T) : Type 0 where
  pub count : S → List T → ℕ
  pub fail : S → List T → Option Error
  pub holds : S → List T → List T
  pub after : S → List T → S
  pub answers :
      (s : S) (p : List T) → source s p ≡ (pos (count s p), fail s p, holds s p, after s p)
  pub fits : (s : S) (p : List T) → count s p ≤ length p
  pub whole : (s : S) (p : List T) → length (holds s p) ≡ length p
  pub logs : (s : S) (p : List T) → given (after s p) ≡ given s ++ take (count s p) (holds s p)

module _ {S T : Type 0} where
  -- The read and write positions are in order and within the buffer.
  abbrev pub IsWithin : Reader S T → Type 0
  IsWithin b = (b.r ≤ b.w) × (b.w ≤ length b.buf)

  -- The items that were read from the caller's reader and not yet handed over.
  abbrev pub unread : Reader S T → List T
  unread b = take (b.w - b.r) (drop b.r b.buf)

  -- The items `out` were handed over: they and the ones that are left are those of before and, behind
  -- them, the ones that the caller's reader gave meanwhile.
  pub record Moved (given : S → List T) (b : Reader S T) (s : S) (out : List T) (b' : Reader S T)
      (s' : S) : Type 0 where
    pub more : List T
    pub gave : given s' ≡ given s ++ more
    pub left : out ++ unread b' ≡ unread b ++ more
    pub within : IsWithin b'
    pub size : length b'.buf ≡ length b.buf
    pub same : b'.rd ≡ b.rd

  -- One after the other.
  pub Moved-then :
      {given : S → List T} {b b' b'' : Reader S T} {s s' s'' : S} {out out' : List T}
      → Moved given b s out b' s'
      → Moved given b' s' out' b'' s''
      → Moved given b s (out ++ out') b'' s''
  Moved-then {given} {b} {b'} {b''} {s} {out = out} {out'} m m' = record {
    more = m.more ++ m'.more;
    gave = m'.gave ∙ ap (λ l. l ++ m'.more) m.gave ∙ append_assoc (given s) m.more m'.more;
    left =
        append_assoc out out' (unread b'')
        ∙ ap (λ l. out ++ l) m'.left
        ∙ sym (append_assoc out (unread b') m'.more)
        ∙ ap (λ l. l ++ m'.more) m.left
        ∙ append_assoc (unread b) m.more m'.more;
    within = m'.within;
    size = m'.size ∙ m.size;
    same = m'.same ∙ m.same;
  }

  -- Without a call of the caller's reader.
  pub still :
      {given : S → List T} {b b' : Reader S T} {s : S} {out : List T}
      → out ++ unread b' ≡ unread b
      → IsWithin b'
      → length b'.buf ≡ length b.buf
      → b'.rd ≡ b.rd
      → Moved given b s out b' s
  still {given} {b} {s = s} left within size same = record {
    more = [];
    gave = sym (append-nil (given s));
    left = left ∙ sym (append-nil (unread b));
    within = within;
    size = size;
    same = same;
  }
