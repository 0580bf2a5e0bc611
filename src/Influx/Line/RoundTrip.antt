-- ===== src/Influx/Line/RoundTrip.antt =====
-- tflo-sink-influx/src/lib.rs: a formatted record reads back.
use tflo.Prelude.{
  ℕ, zero, suc, ◌+◌, ◌<◌, ◌≡◌, ◌≢◌, refl, sym, Bool, true, false, Option, none, some, List, [], ◌∷◌,
  ◌++◌, append_assoc, map, arith, if◌then◌else◌, ◌==◌, All, length, ok,
}
use mathlib.Core.Bool.{true≢false}
use mathlib.Core.List.{cons≢nil}
use mathlib.Core.Option
use tflo.Prelude.Int.{ℤ}
use tflo.Prelude.Bytes.{Bytes}
use tflo.Influx.Line.{
  LineProtocol, FieldValue, signed_digits, is_identifier_special, is_key_special, escape_identifier,
  escape_tag_key, format_tags, format_timestamp, format_field, format_fields, format,
}
use tflo.Influx.Line.Read.{
  Value, Point, is_comma_or_space, is_equals, read_name, read_tags, read_fields, read_timestamp,
  read,
}
use tflo.Influx.Line.Names.{IsName, Stops, read_name-escape}
use tflo.Influx.Line.Values.{IsRaw, written, read_value-format}

-- The names of tags and their values are names.
abbrev pub AreTags : List (Bytes × Bytes) → Type 0
AreTags tags = All (λ x. IsName x.0 × IsName x.1) tags

read_key :
    (k rest : Bytes)
    → IsName k
    → read_name is_key_special is_equals false (escape_tag_key k ++ (b'=' ∷ rest))
      ≡ (k, b'=' ∷ rest)
read_key k rest n =
    read_name-escape is_key_special is_equals (λ c e. ground arith) refl false k (b'=' ∷ rest) n
      refl

read_tag_value :
    (v rest : Bytes)
    → IsName v
    → Stops is_comma_or_space rest
    → read_name is_key_special is_comma_or_space false (escape_tag_key v ++ rest) ≡ (v, rest)
read_tag_value v rest n s =
    read_name-escape is_key_special is_comma_or_space (λ c e. ground arith) refl false v rest n s

-- After the tags a space comes.
Stops-tags :
    (tags : List (Bytes × Bytes)) (s : Bytes)
    → Stops is_comma_or_space (format_tags tags ++ (b' ' ∷ s))
Stops-tags [] s = refl
Stops-tags ((k, v) ∷ tags) s = refl

read_tags-format :
    (fuel : ℕ) (tags : List (Bytes × Bytes)) (s : Bytes)
    → AreTags tags
    → length tags < fuel
    → read_tags fuel (format_tags tags ++ (b' ' ∷ s)) ≡ some (tags, b' ' ∷ s)
read_tags-format zero tags s names h = absurd (omega arith)
read_tags-format (suc fuel) [] s names h = refl
read_tags-format (suc fuel) ((k, v) ∷ tags) s names h =
    let rest = format_tags tags ++ (b' ' ∷ s) in
    rw
      (
        append_assoc (escape_tag_key k) (b'=' ∷ (escape_tag_key v ++ format_tags tags)) (b' ' ∷ s),
        append_assoc (escape_tag_key v) (format_tags tags) (b' ' ∷ s),
        read_key k (escape_tag_key v ++ rest) names.0.0,
        read_tag_value v rest names.0.1 (Stops-tags tags s),
        read_tags-format fuel tags s names.1 (omega arith),
      )
      refl

module _ {F : Type 0} (format_float : F → Bytes) (plain : (f : F) → IsRaw (format_float f)) where
  abbrev pub AreFields : List (Bytes × FieldValue F) → Type 0
  AreFields fields = All (λ x. IsName x.0) fields

  abbrev pub written_fields : List (Bytes × FieldValue F) → List (Bytes × Value)
  written_fields fields = map (λ x. (x.0, written format_float plain x.1)) fields

  -- After the fields a space comes, or the line ends.
  Stops-fields :
      (fields : List (Bytes × FieldValue F)) (ts : Option ℤ)
      → Stops is_comma_or_space (format_fields format_float false fields ++ format_timestamp ts)
  Stops-fields [] none = tt
  Stops-fields [] (some ts) = refl
  Stops-fields ((k, v) ∷ fields) ts = refl

  mark_self :
      (first : Bool) → ((if first then b' ' else b',') == (if first then b' ' else b',')) ≡ true
  mark_self true = refl
  mark_self false = refl

  read_fields-format :
      (fuel : ℕ) (first : Bool) (fields : List (Bytes × FieldValue F)) (ts : Option ℤ)
      → AreFields fields
      → length fields < fuel
      → (first ≡ true → fields ≢ [])
      → read_fields fuel
          (if first then b' ' else b',')
          (format_fields format_float first fields ++ format_timestamp ts)
        ≡ some (written_fields fields, format_timestamp ts)
  read_fields-format zero first fields ts names h full = absurd (omega arith)
  read_fields-format (suc fuel) true [] ts names h full = absurd (full refl refl)
  read_fields-format (suc fuel) false [] none names h full = refl
  read_fields-format (suc fuel) false [] (some ts) names h full = refl
  read_fields-format (suc fuel) first ((k, v) ∷ fields) ts names h full =
      let rest = format_fields format_float false fields ++ format_timestamp ts in
      rw
        (
          append_assoc (escape_tag_key k)
              (b'=' ∷ (format_field format_float v ++ format_fields format_float false fields))
              (format_timestamp ts),
          append_assoc (format_field format_float v) (format_fields format_float false fields)
              (format_timestamp ts),
          read_key k (format_field format_float v ++ rest) names.0,
          read_value-format format_float plain v rest (Stops-fields fields ts),
          read_fields-format fuel false fields ts names.1 (omega arith)
              (λ e. absurd (true≢false (sym e))),
        )
        (rw (mark_self first) refl)

  read_timestamp-format :
      (ts : Option ℤ) → read_timestamp (format_timestamp ts) ≡ some (Option.map signed_digits ts)
  read_timestamp-format none = refl
  read_timestamp-format (some ts) = refl

  -- The record as a reader of the line sees it.
  abbrev pub point_of : LineProtocol F → Point
  point_of lp = record {
    measurement = lp.measurement;
    tags = lp.tags;
    fields = written_fields lp.fields;
    timestamp = Option.map signed_digits lp.timestamp_ns;
  }

  Stops-start :
      (tags : List (Bytes × Bytes)) (f : Bytes × FieldValue F)
      (fields : List (Bytes × FieldValue F)) (s : Bytes)
      → Stops is_comma_or_space
          (format_tags tags ++ (format_fields format_float true (f ∷ fields) ++ s))
  Stops-start [] f fields s = refl
  Stops-start (t ∷ tags) f fields s = refl

  read_all :
      (m : Bytes) (tags : List (Bytes × Bytes)) (f : Bytes × FieldValue F)
      (fields : List (Bytes × FieldValue F)) (ts : Option ℤ) (fuel : ℕ)
      → IsName m
      → AreTags tags
      → AreFields (f ∷ fields)
      → length tags + length (f ∷ fields) < fuel
      → read fuel (
          escape_identifier m
          ++ (format_tags tags
              ++ (format_fields format_float true (f ∷ fields) ++ format_timestamp ts)))
        ≡ some (record {
          measurement = m;
          tags = tags;
          fields = written_fields (f ∷ fields);
          timestamp = Option.map signed_digits ts;
        })
  read_all m tags f fields ts fuel nm nt nf h =
      let rest = format_fields format_float true (f ∷ fields) ++ format_timestamp ts in
      rw
        (
          read_name-escape is_identifier_special is_comma_or_space (λ c e. e) refl false m
              (format_tags tags ++ rest) nm (Stops-start tags f fields (format_timestamp ts)),
          read_tags-format fuel tags _ nt (omega arith),
          read_fields-format fuel true (f ∷ fields) ts nf (omega arith) (λ e. cons≢nil),
          read_timestamp-format ts,
        )
        refl

  format_of :
      (m : Bytes) (tags : List (Bytes × Bytes)) (fields : List (Bytes × FieldValue F))
      (ts : Option ℤ) (fuel : ℕ)
      → fields ≢ []
      → IsName m
      → AreTags tags
      → AreFields fields
      → length tags + length fields < fuel
      → let lp : LineProtocol F = record {
        measurement = m;
        tags = tags;
        fields = fields;
        timestamp_ns = ts;
      } in
        (line : Bytes) × (format format_float lp ≡ ok line) × (read fuel line ≡ some (point_of lp))
  unfolding format
  format_of m tags [] ts fuel some_field nm nt nf h = absurd (some_field refl)
  format_of m tags (f ∷ fields) ts fuel some_field nm nt nf h =
      (_, refl, read_all m tags f fields ts fuel nm nt nf h)

  -- A record with a field, whose measurement, tags and field keys hold no newline and do not end in a
  -- backslash, has a line, and a reader of the line protocol gets the whole record back from it: the
  -- measurement, every tag and field in order, each string out of its quotes, every other value and the
  -- time stamp as printed. The bytes that the protocol uses may stand in every name and string.
  pub read-format :
      (lp : LineProtocol F) (fuel : ℕ)
      → lp.fields ≢ []
      → IsName lp.measurement
      → AreTags lp.tags
      → AreFields lp.fields
      → length lp.tags + length lp.fields < fuel
      → (line : Bytes) × (format format_float lp ≡ ok line) × (read fuel line ≡ some (point_of lp))
  unfolding format
  read-format lp fuel some_field nm nt nf h =
      format_of lp.measurement lp.tags lp.fields lp.timestamp_ns fuel some_field nm nt nf h
