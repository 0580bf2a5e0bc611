-- ===== src/Core/Reorder/Calls.antt =====
-- Sequences of calls on a reorder buffer, with all that they release.
use tflo.Prelude.{List, [], ◌∷◌, ◌++◌}
use tflo.Prelude.Int.{ℤ}
use tflo.Core.Reorder.{ReorderBuffer, step, advance_watermark, flush, take_late}

pub data Call {ℓ} (E : Type ℓ) : Type ℓ where
  push : ℤ → E → Call E
  tick : ℤ → Call E
  end : Call E
  collect : Call E

module _ {ℓ} {E : Type ℓ} where
  -- One call: the buffer after it, what it releases, and the late events that it hands over.
  abbrev pub call : ReorderBuffer E → Call E → ReorderBuffer E × List (ℤ × E) × List (ℤ × E)
  call b (push ts e) = let (b', out) = step b ts e in (b', out, [])
  call b (tick now) = let (b', out) = advance_watermark b now in (b', out, [])
  call b end = let (b', out) = flush b in (b', out, [])
  call b collect = let (b', late) = take_late b in (b', [], late)

  abbrev pub run : ReorderBuffer E → List (Call E) → ReorderBuffer E × List (ℤ × E) × List (ℤ × E)
  run b [] = (b, [], [])
  run b (c ∷ cs) =
      let (b', out, late) = call b c in
      let (b'', outs, lates) = run b' cs in (b'', out ++ outs, late ++ lates)

  -- The events that a call, or the calls, push.
  abbrev pub pushes : Call E → List (ℤ × E)
  pushes (push ts e) = (ts, e) ∷ []
  pushes (tick now) = []
  pushes end = []
  pushes collect = []

  abbrev pub pushed : List (Call E) → List (ℤ × E)
  pushed [] = []
  pushed (c ∷ cs) = pushes c ++ pushed cs
