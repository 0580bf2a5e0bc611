-- ===== src/Influx/Batcher/Calls.antt =====
-- tflo-sink-influx/src/lib.rs: sequences of calls on a `Batcher` by any tasks, in the order in which they
-- hold the lock, with the answers to the writes between them wherever they come.
use tflo.Prelude.{ℕ, ◌+◌, String, List, [], ◌∷◌, ◌++◌, length, Result, ok, err}
use tflo.Prelude.Bytes.{Bytes}
use tflo.Influx.Line.{newline}
use tflo.Influx.Batcher.{
  Batcher, Locked, returned, taken, push_locked, flush_locked, tick_locked, written,
}

pub data Call : Type 0 where
  push : Bytes → ℕ → ℕ → Call
  flush : Call
  tick : ℕ → Call
  answered : Result (Unit {0}) String → Call

-- What has come in and gone out: the lines that were accepted, the bytes of the others with their
-- newlines, the bodies taken to be written, in order, and the writes that succeeded.
pub record Ledger : Type 0 where
  pub accepted : List Bytes
  pub rejected : ℕ
  pub bodies : List Bytes
  pub confirmed : ℕ

abbrev pub empty : Ledger
empty = record { accepted = []; rejected = 0; bodies = []; confirmed = 0 }

-- The bytes of lines, each with its newline.
abbrev pub framed : List Bytes → Bytes
framed [] = []
framed (line ∷ lines) = (line ++ (newline ∷ [])) ++ framed lines

abbrev pub sent : Locked → Ledger → Ledger
sent (returned r) l = l
sent (taken body) l = record l { bodies = l.bodies ++ (body ∷ []) }

abbrev pub accept : Bytes → Ledger → Ledger
accept line l = record l { accepted = l.accepted ++ (line ∷ []) }

abbrev pub pushed : Bytes → Locked → Ledger → Ledger
pushed line (returned (err e)) l = record l { rejected = l.rejected + (length line + 1) }
pushed line (returned (ok u)) l = accept line l
pushed line (taken body) l = sent (taken body) (accept line l)

abbrev pub confirm : Result (Unit {0}) String → Ledger → Ledger
confirm (ok u) l = record l { confirmed = l.confirmed + 1 }
confirm (err e) l = l

abbrev pub call : Call → Ledger × Batcher → Ledger × Batcher
call (push line now later) (l, b) =
    let (r, b') = push_locked b line now later in (pushed line r l, b')
call flush (l, b) = let (r, b') = flush_locked b in (sent r l, b')
call (tick later) (l, b) = let (r, b') = tick_locked b later in (sent r l, b')
call (answered r) (l, b) = (confirm r l, (written r b).1)

abbrev pub run : List Call → Ledger × Batcher → Ledger × Batcher
run [] s = s
run (c ∷ cs) s = run cs (call c s)
