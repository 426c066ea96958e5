-- ===== src/Streams.antt =====
-- The interfaces gio.Reader and gio.Writer, as functions on a state of their own.
use gbuf.Base.{Option, List}
use gbuf.Base.Int.{ℤ}
use gbuf.Errors.{Error}

-- `Read(p)`: given the slice `p`, the results n and err, and what `p` holds after the call.
abbrev pub Source : Type 0 → Type 0 → Type 0
Source S T = S → List T → ℤ × Option Error × List T × S

-- `Write(p)`: given the slice `p`, the results n and err.
abbrev pub Sink : Type 0 → Type 0 → Type 0
Sink S T = S → List T → ℤ × Option Error × S
