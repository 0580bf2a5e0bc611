-- ===== src/Cep/Engine/Calls.antt =====
-- Sequences of a host's calls on a runtime, with all that they emit.
use tflo.Prelude.{Option, some, List, [], ◌∷◌, ◌++◌, ◌>>=◌}
use tflo.Prelude.Int.{ℤ}
use tflo.Cep.Runtime.{Runtime, reset, set_drop_handler}
use tflo.Cep.Engine.{push, push_at, flush, tick}

pub data Call {ℓ} (E : Type ℓ) : Type ℓ where
  event : E → Call E
  event_at : E → ℤ → Call E
  clock : ℤ → Call E
  end : Call E
  clear : Call E
  observe : Call E

module _ {ℓ} {E M : Type ℓ} where
  abbrev pub call : Runtime E M → Call E → Option (Runtime E M × List M)
  call rt (event e) = push rt e
  call rt (event_at e ts) = push_at rt e ts
  call rt (clock now) = tick rt now
  call rt end = flush rt
  call rt clear = some (reset rt, [])
  call rt observe = some (set_drop_handler rt, [])

  unfoldable pub run : Runtime E M → List (Call E) → List M → Option (Runtime E M × List M)
  run rt [] out = some (rt, out)
  run rt (c ∷ cs) out = do (rt', more) ← call rt c; run rt' cs (out ++ more)
