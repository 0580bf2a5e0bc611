-- ===== src/Cep/Pattern/Cel.antt =====
-- tflo-cep/src/pattern.rs: the builder's methods over strings. The compiler of predicates written in
-- CEL (`crate::cel::compile` and the evaluation of its program, over the crate cel-interpreter) is the
-- parameter `cel`.
use tflo.Prelude.{String, false, none, some, [], ◌∷◌, ◌++◌, length}
use tflo.Prelude.Decimal.{numbered}
use tflo.Cep.Step.{eventually}
use tflo.Cep.Pattern.{
  ArcPredicate, from_fn, cel_compile, Result, ok, err, positive, negative, put_first, Pattern,
}

module _ {ℓ} {E M : Type ℓ} (cel : String → Result (ArcPredicate E) String) where
  -- `compile_cel_pred`: the first error is kept for `emit`, and a predicate that never holds stands in.
  unfoldable pub compile_cel_pred : Pattern E M → String → String → Pattern E M × ArcPredicate E
  compile_cel_pred p name expr = elim (cel expr) [
    | ok f ↦ (p, f)
    | err reason ↦ (
      elim p.pending_error [
        | none ↦ record p { pending_error = some (cel_compile name reason) }
        | some _ ↦ p
      ],
      from_fn (λ _. false),
    )
  ]

  unfoldable pub when_cel : Pattern E M → String → Pattern E M
  unfolding compile_cel_pred
  when_cel p expr =
      let name = numbered "when_" (length p.steps) in
      let (p', f) = compile_cel_pred p name expr in
      record p' { steps = put_first (positive name f none eventually none none) p'.steps }

  unfoldable pub then_cel : Pattern E M → String → Pattern E M
  unfolding compile_cel_pred
  then_cel p expr =
      let name = numbered "then_" (length p.steps) in
      let (p', f) = compile_cel_pred p name expr in
      record p' {
        steps = p'.steps ++ (positive name f none eventually none p'.pending_forbidden ∷ []);
        pending_forbidden = none;
      }

  unfoldable pub not_between_cel : Pattern E M → String → Pattern E M
  unfolding compile_cel_pred
  not_between_cel p expr =
      let name = numbered "not_between_" (length p.steps) in
      let (p', f) = compile_cel_pred p name expr in record p' { pending_forbidden = some f }

  unfoldable pub not_then_cel : Pattern E M → String → Pattern E M
  unfolding compile_cel_pred
  not_then_cel p expr =
      let name = numbered "not_then_" (length p.steps) in
      let (p', f) = compile_cel_pred p name expr in
      record p' { steps = p'.steps ++ (negative name f none ∷ []) }
