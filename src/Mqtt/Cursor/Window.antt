-- ===== src/Mqtt/Cursor/Window.antt =====
-- tflo-connect-mqtt/src/lib.rs: which packets the bounded window lets through.
use tflo.Prelude.{ℕ, zero, suc, ◌-◌, Bool, true, false, not, List, [], ◌∷◌, ◌++◌, length}
use tflo.Mqtt.Cursor.{BoundedSet, MqttCursor, any_equal, make_room, push_back, observe_qos2}

abbrev pub dropped : ℕ → List ℕ → List ℕ
dropped zero l = l
dropped (suc k) [] = []
dropped (suc k) (x ∷ l) = dropped k l

-- The last items, at most so many.
abbrev pub latest : ℕ → List ℕ → List ℕ
latest n l = dropped (length l - n) l

-- What an insertion of a new value makes of the items.
abbrev added : ℕ → List ℕ → ℕ → List ℕ
added capacity items value =
    (push_back value (make_room (record { capacity = capacity; items = items }))).items

abbrev set_of : ℕ → List ℕ → BoundedSet
set_of capacity items = record { capacity = capacity; items = items }

-- A window that holds the latest of the ids that were processed.
abbrev held : ℕ → List ℕ → BoundedSet
held size done = set_of size (latest size done)

-- What the cursor answers to a list of packet ids, and the cursor after them.
abbrev pub answers : MqttCursor → List ℕ → List Bool
answers cursor [] = []
answers cursor (id ∷ ids) =
    let (is_new, cursor') = observe_qos2 cursor id in is_new ∷ answers cursor' ids

abbrev pub after : MqttCursor → List ℕ → MqttCursor
after cursor [] = cursor
after cursor (id ∷ ids) = after (observe_qos2 cursor id).1 ids

-- What it should answer: an id is new when it is not among the latest that were processed. All of these
-- are kept here.
abbrev pub with_new : Bool → ℕ → List ℕ → List ℕ
with_new true id done = done ++ (id ∷ [])
with_new false id done = done

abbrev pub expected : ℕ → List ℕ → List ℕ → List Bool
expected size done [] = []
expected size done (id ∷ ids) =
    let is_new = not (any_equal (latest size done) id) in
    is_new ∷ expected size (with_new is_new id done) ids
