-- ===== src/Influx/Line/Values.antt =====
-- tflo-sink-influx/src/lib.rs: the text of a value reads back.
use tflo.Prelude.{
  ℕ, zero, suc, ◌+◌, ◌%◌, ◌<◌, ◌≡◌, ◌≢◌, refl, true, false, ◌||◌, some, [], ◌∷◌, ◌++◌, append_assoc,
  arith, ltb, ◌==◌, All, All-append, Bool-cases, inl, inr,
}
use tflo.Prelude.Int.{ℤ, pos, negsuc}
use tflo.Prelude.Bytes.{Bytes, digits_from, digits}
use tflo.Influx.Line.{
  newline, backslash, FieldValue, float, integer, u_integer, string, boolean, signed_digits,
  escape_field_string, format_field,
}
use tflo.Influx.Line.Read.{Value, quoted, raw, is_comma_or_space, read_string, read_raw, read_value}
use tflo.Influx.Line.Names.{Stops}

-- A byte that stands in no special place: no comma, space, quote or newline.
abbrev pub IsPlain : ℕ → Type 0
IsPlain c = (c ≢ b',') × (c ≢ b' ') × (c ≢ b'"') × (c ≢ newline)

-- A text of such bytes, not empty.
abbrev pub IsRaw : Bytes → Type 0
IsRaw [] = ⊥
IsRaw (c ∷ s) = All IsPlain (c ∷ s)

IsRaw-append : (s t : Bytes) → All IsPlain s → IsRaw t → IsRaw (s ++ t)
IsRaw-append [] t a r = r
IsRaw-append (c ∷ s) [] a r = absurd r
IsRaw-append (c ∷ s) (d ∷ t) a r = (a.0, All-append IsPlain s (d ∷ t) a.1 r)

pub IsRaw-all : (s : Bytes) → IsRaw s → All IsPlain s
IsRaw-all [] r = tt
IsRaw-all (c ∷ s) r = r

IsPlain-digit : (n : ℕ) → n < 10 → IsPlain (b'0' + n)
IsPlain-digit n h = (ground arith, ground arith, ground arith, ground arith)

digits_from-IsRaw : (fuel n : ℕ) → n < fuel → IsRaw (digits_from fuel n)
digits_from-IsRaw zero n h = absurd (omega arith)
digits_from-IsRaw (suc fuel) n h = elim (Bool-cases (ltb n 10)) [
  | inl small ↦ rw small (IsPlain-digit n (ground arith), tt)
  | inr large ↦ rw large (
      IsRaw-append (digits_from fuel _) _ (IsRaw-all _ (digits_from-IsRaw fuel _ (ground arith)))
        (IsPlain-digit (n % 10) (omega arith), tt))
]

pub digits-IsRaw : (n : ℕ) → IsRaw (digits n)
unfolding digits
digits-IsRaw n = digits_from-IsRaw (suc n) n (omega arith)

pub signed_digits-IsRaw : (i : ℤ) → IsRaw (signed_digits i)
signed_digits-IsRaw (pos n) = digits-IsRaw n
signed_digits-IsRaw (negsuc n) =
    ((ground arith, ground arith, ground arith, ground arith), IsRaw-all _ (digits-IsRaw (suc n)))

read_raw-append :
    (s rest : Bytes)
    → All IsPlain s
    → Stops is_comma_or_space rest
    → read_raw (s ++ rest) ≡ (s, rest)
read_raw-append [] [] a h = refl
read_raw-append [] (c ∷ rest) a h = rw h refl
read_raw-append (c ∷ s) rest a h =
    let not_stop : is_comma_or_space c ≡ false = ground arith in
    rw (not_stop, read_raw-append s rest a.1 h) refl

read_string-escape :
    (s rest : Bytes) → read_string false (escape_field_string s ++ (b'"' ∷ rest)) ≡ some (s, rest)
read_string-escape [] rest = refl
read_string-escape (c ∷ s) rest = elim (Bool-cases (c == backslash || c == b'"')) [
  | inl e ↦ rw (e, read_string-escape s rest) refl
  | inr e ↦
      let no_quote : (c == b'"') ≡ false = ground arith in
      let no_backslash : (c == backslash) ≡ false = ground arith in
      rw (e, no_quote, no_backslash, read_string-escape s rest) refl
]

read_value-raw :
    (s rest : Bytes)
    → IsRaw s
    → Stops is_comma_or_space rest
    → read_value (s ++ rest) ≡ some (raw s, rest)
read_value-raw [] rest r h = absurd r
read_value-raw (c ∷ s) rest r h =
    let no_quote : (c == b'"') ≡ false = ground arith in
    rw (no_quote, read_raw-append (c ∷ s) rest r h) refl

module _ {F : Type 0} (format_float : F → Bytes) (plain : (f : F) → IsRaw (format_float f)) where
  -- A value as it stands on the line.
  abbrev pub written : FieldValue F → Value
  written (float f) = raw (format_float f)
  written (integer i) = raw (signed_digits i ++ (b'i' ∷ []))
  written (u_integer u) = raw (digits u ++ (b'u' ∷ []))
  written (string s) = quoted s
  written (boolean true) = raw (b't' ∷ b'r' ∷ b'u' ∷ b'e' ∷ [])
  written (boolean false) = raw (b'f' ∷ b'a' ∷ b'l' ∷ b's' ∷ b'e' ∷ [])

  pub read_value-format :
      (v : FieldValue F) (rest : Bytes)
      → Stops is_comma_or_space rest
      → read_value (format_field format_float v ++ rest) ≡ some (written v, rest)
  read_value-format (float f) rest h = read_value-raw _ rest (plain f) h
  read_value-format (integer i) rest h =
      read_value-raw _ rest (IsRaw-append _ _ (IsRaw-all _ (signed_digits-IsRaw i)) (omega arith)) h
  read_value-format (u_integer u) rest h =
      read_value-raw _ rest (IsRaw-append _ _ (IsRaw-all _ (digits-IsRaw u)) (omega arith)) h
  read_value-format (string s) rest h =
      rw (append_assoc (escape_field_string s) (b'"' ∷ []) rest, read_string-escape s rest) refl
  read_value-format (boolean true) rest h = read_value-raw _ rest (ground arith) h
  read_value-format (boolean false) rest h = read_value-raw _ rest (ground arith) h
