-- ===== src/Influx/Line/Read.antt =====
-- A reader of the line protocol, as its specification describes it: in a name a backslash hides the special
-- byte after it and stands for itself before any other, and within the quotes of a string it hides a quote
-- or a backslash.
use tflo.Prelude.{
  ℕ, zero, suc, Bool, true, false, ◌&&◌, ◌||◌, not, Option, none, some, List, [], ◌∷◌, ◌++◌, ◌>>=◌,
  if◌then◌else◌, ◌==◌,
}
use tflo.Prelude.Bytes.{Bytes}
use tflo.Influx.Line.{backslash, is_identifier_special, is_key_special}

-- A value as it stands on the line; a string is read out of its quotes.
pub data Value : Type 0 where
  quoted raw : Bytes → Value

pub record Point : Type 0 where
  pub measurement : Bytes
  pub tags : List (Bytes × Bytes)
  pub fields : List (Bytes × Value)
  pub timestamp : Option Bytes

-- What a byte adds to a name; the first flag tells that a backslash stands before it.
abbrev pub shown : (ℕ → Bool) → Bool → ℕ → Bytes
shown special true c =
    if special c then c ∷ [] else if c == backslash then c ∷ [] else backslash ∷ c ∷ []
shown special false c = if c == backslash then [] else c ∷ []

-- A name up to the first stop that no backslash hides, and the rest of the line.
abbrev pub read_name : (ℕ → Bool) → (ℕ → Bool) → Bool → Bytes → Bytes × Bytes
read_name special stop true [] = (backslash ∷ [], [])
read_name special stop false [] = ([], [])
read_name special stop hidden (c ∷ s) =
    let (name, rest) = read_name special stop (c == backslash) s in
    if not hidden && stop c then ([], c ∷ s) else (shown special hidden c ++ name, rest)

-- The rest after a byte that must stand there.
abbrev pub expect : ℕ → Bytes → Option Bytes
expect c [] = none
expect c (d ∷ s) = if d == c then some s else none

abbrev pub is_comma_or_space : ℕ → Bool
is_comma_or_space c = c == b',' || c == b' '

abbrev pub is_equals : ℕ → Bool
is_equals c = c == b'='

-- The inside of a string and the rest after its last quote.
abbrev pub read_string : Bool → Bytes → Option (Bytes × Bytes)
read_string hidden [] = none
read_string true (c ∷ s) = do (inside, rest) ← read_string false s; some (c ∷ inside, rest)
read_string false (c ∷ s) =
    let more = read_string (c == backslash) s in
    if c == b'"'
    then some ([], s)
    else if c == backslash
    then more
    else (do (inside, rest) ← more; some (c ∷ inside, rest))

abbrev pub read_raw : Bytes → Bytes × Bytes
read_raw [] = ([], [])
read_raw (c ∷ s) =
    let (text, rest) = read_raw s in if is_comma_or_space c then ([], c ∷ s) else (c ∷ text, rest)

abbrev pub read_value : Bytes → Option (Value × Bytes)
read_value [] = none
read_value (c ∷ s) =
    if c == b'"'
    then (do (inside, rest) ← read_string false s; some (quoted inside, rest))
    else let (text, rest) = read_raw (c ∷ s) in some (raw text, rest)

-- The tags, each after a comma.
abbrev pub read_tags : ℕ → Bytes → Option (List (Bytes × Bytes) × Bytes)
read_tags zero s = none
read_tags (suc fuel) [] = none
read_tags (suc fuel) (c ∷ s) =
    let (key, s₁) = read_name is_key_special is_equals false s in
    let more = do
      s₂ ← expect b'=' s₁
      let (value, s₃) = read_name is_key_special is_comma_or_space false s₂
      (tags, s₄) ← read_tags fuel s₃
      some ((key, value) ∷ tags, s₄)
    in if c == b',' then more else some ([], c ∷ s)

-- The fields, each after the byte that is given for the first and a comma.
abbrev pub read_fields : ℕ → ℕ → Bytes → Option (List (Bytes × Value) × Bytes)
read_fields zero mark s = none
read_fields (suc fuel) mark [] = some ([], [])
read_fields (suc fuel) mark (c ∷ s) =
    let (key, s₁) = read_name is_key_special is_equals false s in
    let more = do
      s₂ ← expect b'=' s₁
      (value, s₃) ← read_value s₂
      (fields, s₄) ← read_fields fuel b',' s₃
      some ((key, value) ∷ fields, s₄)
    in if c == mark then more else some ([], c ∷ s)

abbrev pub read_timestamp : Bytes → Option (Option Bytes)
read_timestamp [] = some none
read_timestamp (c ∷ s) = if c == b' ' then some (some s) else none

abbrev pub read : ℕ → Bytes → Option Point
read fuel line = do
  let (measurement, s₁) = read_name is_identifier_special is_comma_or_space false line
  (tags, s₂) ← read_tags fuel s₁
  (fields, s₃) ← read_fields fuel b' ' s₂
  timestamp ← read_timestamp s₃
  some (record { measurement = measurement; tags = tags; fields = fields; timestamp = timestamp })
