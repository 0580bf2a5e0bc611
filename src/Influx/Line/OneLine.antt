-- ===== src/Influx/Line/OneLine.antt =====
-- tflo-sink-influx/src/lib.rs: a record stands on one line.
use mathlib.Core.Bool.{true≢false}
use tflo.Prelude.{
  ℕ, String, ◌≡◌, ◌≢◌, refl, sym, ap, ◌∙◌, subst, Bool, true, false, ◌||◌, Option, none, some, List,
  [], ◌∷◌, ◌++◌, arith, ◌==◌, All, All-map, All-append, Result, ok, err, Bool-cases, inl, inr,
}
use tflo.Prelude.Int.{ℤ}
use tflo.Prelude.Bytes.{Bytes, digits}
use tflo.Influx.Line.{
  newline, backslash, LineProtocol, FieldValue, float, integer, u_integer, string, boolean,
  signed_digits, is_identifier_special, is_key_special, escape_with, escape_identifier,
  escape_tag_key, escape_field_string, format_tags, format_timestamp, format_field, format_fields,
  format,
}
use tflo.Influx.Line.Values.{IsPlain, IsRaw, IsRaw-all, digits-IsRaw, signed_digits-IsRaw}

abbrev pub IsOneLine : Bytes → Type 0
IsOneLine s = All (λ c. c ≢ newline) s

IsRaw-IsOneLine : (s : Bytes) → IsRaw s → IsOneLine s
IsRaw-IsOneLine s r = All-map IsPlain (λ c. c ≢ newline) s (λ c p. p.3) (IsRaw-all s r)

-- An escaped name stands on one line, whatever it holds.
escape_with-IsOneLine :
    (special : ℕ → Bool) → special newline ≡ false → (s : Bytes) → IsOneLine (escape_with special s)
escape_with-IsOneLine special e [] = tt
escape_with-IsOneLine special e (c ∷ s) =
    let rest = escape_with-IsOneLine special e s in
    elim (Bool-cases (special c)) [
      | inl y ↦ rw y (omega arith, ((λ q. true≢false (sym y ∙ ap special q ∙ e)), rest))
      | inr n ↦ rw n (elim (Bool-cases (c == newline)) [
        | inl y ↦ rw y (omega arith, (omega arith, rest))
        | inr n' ↦ rw n' (ground arith, rest)
      ])
    ]

escape_field_string-IsOneLine : (s : Bytes) → IsOneLine s → IsOneLine (escape_field_string s)
escape_field_string-IsOneLine [] h = tt
escape_field_string-IsOneLine (c ∷ s) h =
    let rest = escape_field_string-IsOneLine s h.1 in
    elim (Bool-cases (c == backslash || c == b'"')) [
      | inl e ↦ rw e (ground arith, (h.0, rest))
      | inr e ↦ rw e (h.0, rest)
    ]

escape_tag_key-IsOneLine : (s : Bytes) → IsOneLine (escape_tag_key s)
escape_tag_key-IsOneLine s = escape_with-IsOneLine is_key_special refl s

append-IsOneLine : (s t : Bytes) → IsOneLine s → IsOneLine t → IsOneLine (s ++ t)
append-IsOneLine s t h k = All-append (λ c. c ≢ newline) s t h k

format_tags-IsOneLine : (tags : List (Bytes × Bytes)) → IsOneLine (format_tags tags)
format_tags-IsOneLine [] = tt
format_tags-IsOneLine ((k, v) ∷ tags) = (
  omega arith,
  append-IsOneLine (escape_tag_key k) _ (escape_tag_key-IsOneLine k) (
    omega arith,
    append-IsOneLine (escape_tag_key v) _ (escape_tag_key-IsOneLine v) (format_tags-IsOneLine tags),
  ),
)

format_timestamp-IsOneLine : (ts : Option ℤ) → IsOneLine (format_timestamp ts)
format_timestamp-IsOneLine none = tt
format_timestamp-IsOneLine (some ts) = (omega arith, IsRaw-IsOneLine _ (signed_digits-IsRaw ts))

module _ {F : Type 0} (format_float : F → Bytes) (plain : (f : F) → IsRaw (format_float f)) where
  -- A string without a newline, or a value of another kind.
  abbrev pub HasNoNewline : FieldValue F → Type 0
  HasNoNewline (float f) = Unit
  HasNoNewline (integer i) = Unit
  HasNoNewline (u_integer u) = Unit
  HasNoNewline (string s) = IsOneLine s
  HasNoNewline (boolean b) = Unit

  format_field-IsOneLine :
      (v : FieldValue F) → HasNoNewline v → IsOneLine (format_field format_float v)
  format_field-IsOneLine (float f) h = IsRaw-IsOneLine _ (plain f)
  format_field-IsOneLine (integer i) h =
      append-IsOneLine (signed_digits i) _ (IsRaw-IsOneLine _ (signed_digits-IsRaw i)) (omega arith)
  format_field-IsOneLine (u_integer u) h =
      append-IsOneLine (digits u) _ (IsRaw-IsOneLine _ (digits-IsRaw u)) (omega arith)
  format_field-IsOneLine (string s) h = (
    omega arith,
    append-IsOneLine (escape_field_string s) _ (escape_field_string-IsOneLine s h) (omega arith),
  )
  format_field-IsOneLine (boolean true) h = omega arith
  format_field-IsOneLine (boolean false) h = omega arith

  format_fields-IsOneLine :
      (first : Bool) (fields : List (Bytes × FieldValue F))
      → All (λ x. HasNoNewline x.1) fields
      → IsOneLine (format_fields format_float first fields)
  format_fields-IsOneLine first [] h = tt
  format_fields-IsOneLine first ((k, v) ∷ fields) h = (
    ground arith,
    append-IsOneLine (escape_tag_key k) _ (escape_tag_key-IsOneLine k) (
      omega arith,
      append-IsOneLine (format_field format_float v) _ (format_field-IsOneLine v h.0)
          (format_fields-IsOneLine false fields h.1),
    ),
  )

  abbrev LineOf : Result Bytes String → Type 0
  LineOf (ok line) = IsOneLine line
  LineOf (err e) = Unit

  format_of-IsOneLine :
      (m : Bytes) (tags : List (Bytes × Bytes)) (fields : List (Bytes × FieldValue F))
      (ts : Option ℤ)
      → All (λ x. HasNoNewline x.1) fields
      → LineOf (
          format format_float
            (record { measurement = m; tags = tags; fields = fields; timestamp_ns = ts }))
  unfolding format
  format_of-IsOneLine m tags [] ts h = tt
  format_of-IsOneLine m tags (f ∷ fields) ts h =
      append-IsOneLine (escape_identifier m) _ (escape_with-IsOneLine is_identifier_special refl m)
        (append-IsOneLine (format_tags tags) _ (format_tags-IsOneLine tags) (
          append-IsOneLine (format_fields format_float true (f ∷ fields)) _
            (format_fields-IsOneLine true (f ∷ fields) h) (format_timestamp-IsOneLine ts)))

  -- The line of a record holds no newline, whatever bytes its measurement, tags and field keys hold, if
  -- its string values hold none: so no name can end the record and begin another.
  pub format-IsOneLine :
      (lp : LineProtocol F) (line : Bytes)
      → All (λ x. HasNoNewline x.1) lp.fields
      → format format_float lp ≡ ok line
      → IsOneLine line
  format-IsOneLine lp line h e =
      subst LineOf e (format_of-IsOneLine lp.measurement lp.tags lp.fields lp.timestamp_ns h)
