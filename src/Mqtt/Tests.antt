-- ===== src/Mqtt/Tests.antt =====
-- Runs of the cursor.
use tflo.Prelude.{ℕ, ◌≡◌, refl, true, false, List, [], ◌∷◌}
use tflo.Mqtt.Cursor.{insert, observe_qos2, with_window}
use tflo.Mqtt.Cursor.Window.{answers}

-- A redelivery within the window, and one after its id has left the window of two.
abbrev ids : List ℕ
ids = 7 ∷ 7 ∷ 8 ∷ 9 ∷ 7 ∷ []

answers_run : answers (with_window 2) ids ≡ true ∷ false ∷ true ∷ true ∷ true ∷ []
unfolding observe_qos2 insert
answers_run = refl
