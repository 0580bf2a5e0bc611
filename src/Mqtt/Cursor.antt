-- ===== src/Mqtt/Cursor.antt =====
-- tflo-connect-mqtt/src/lib.rs: `BoundedSet` and `MqttCursor`. Packet ids are `u16` values, held as numbers;
-- `VecDeque` is the list from front to back. The text of the error of `new` is its middle.
pub mod Window
use tflo.Prelude.{
  ℕ, ◌*◌, ◌==◌, ltb, leb, String, Bool, true, false, ◌||◌, ◌&&◌, List, [], ◌∷◌, ◌++◌, length,
  if◌then◌else◌, Result, ok, err,
}

pub record BoundedSet : Type 0 where
  pub capacity : ℕ
  pub items : List ℕ

abbrev pub new_set : ℕ → BoundedSet
new_set capacity = record { capacity = capacity; items = [] }

-- `any` over the items.
abbrev pub any_equal : List ℕ → ℕ → Bool
any_equal [] value = false
any_equal (v ∷ items) value = v == value || any_equal items value

abbrev pub contains : BoundedSet → ℕ → Bool
contains set value = any_equal set.items value

-- `pop_front`
abbrev pub pop_front : List ℕ → List ℕ
pop_front [] = []
pop_front (v ∷ items) = items

abbrev pub make_room : BoundedSet → BoundedSet
make_room set =
    if leb set.capacity (length set.items) && ltb 0 set.capacity
    then record set { items = pop_front set.items }
    else set

abbrev pub push_back : ℕ → BoundedSet → BoundedSet
push_back value set =
    if ltb 0 set.capacity then record set { items = set.items ++ (value ∷ []) } else set

unfoldable pub insert : BoundedSet → ℕ → Bool × BoundedSet
insert set value =
    if contains set value then (false, set) else (true, push_back value (make_room set))

abbrev pub max_qos2_window_size : ℕ
max_qos2_window_size = 64 * 1024

pub record MqttCursor : Type 0 where
  pub last_packet_id : ℕ
  pub qos2_inflight_window : BoundedSet
  pub retained_topics : List (String × ℕ)

abbrev pub with_window : ℕ → MqttCursor
with_window size = record {
  last_packet_id = 0;
  qos2_inflight_window = new_set size;
  retained_topics = [];
}

abbrev pub new : ℕ → Result MqttCursor String
new size =
    if ltb max_qos2_window_size size
    then err "exceeds MAX_QOS2_WINDOW_SIZE"
    else ok (with_window size)

abbrev pub or_default : Result MqttCursor String → MqttCursor
or_default (ok cursor) = cursor
or_default (err e) = with_window 1024

abbrev pub with_default_window : MqttCursor
with_default_window = or_default (new 1024)

unfoldable pub observe_qos2 : MqttCursor → ℕ → Bool × MqttCursor
observe_qos2 cursor packet_id =
    let (is_new, set) = insert cursor.qos2_inflight_window packet_id in
    (is_new, record cursor { last_packet_id = packet_id; qos2_inflight_window = set })
