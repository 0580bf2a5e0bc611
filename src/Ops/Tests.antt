-- ===== src/Ops/Tests.antt =====
-- Runs of the primitives.
use tflo.Prelude.{ℕ, ◌≡◌, refl, none, some, List, [], ◌∷◌, arith}
use tflo.Prelude.Int.{ℤ, pos, ◌-ℤ◌}
use tflo.Prelude.I64.{sat_sub}
use tflo.Ops.LagBuffer.{new, push}
use tflo.Ops.LagBuffer.Lagged.{pushes, lagged_values, pushes_lem}

abbrev values : List (ℤ × ℕ)
values =
    (pos 1000, 100) ∷ (pos 2000, 110) ∷ (pos 3000, 120) ∷ (pos 6000, 130) ∷ (pos 7500, 140) ∷ []

pushes_run : pushes (new 5000) values ≡ none ∷ none ∷ none ∷ some 100 ∷ some 110 ∷ []
unfolding push sat_sub ◌-ℤ◌
pushes_run = refl

pushes_lem_example : pushes (new 5000) values ≡ lagged_values (pos 5000) [] values
pushes_lem_example = pushes_lem 5000 10000 values (omega arith) (omega arith)
