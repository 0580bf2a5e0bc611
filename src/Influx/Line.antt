-- ===== src/Influx/Line.antt =====
-- tflo-sink-influx/src/lib.rs: `LineProtocol` and its text. A string is the list of its UTF-8 bytes; the
-- characters that are escaped are single bytes. The print of a float is a parameter. `BTreeMap` is the list
-- of its entries in ascending order of the keys.
pub mod Read
pub mod Names
pub mod Values
pub mod RoundTrip
pub mod OneLine
use tflo.Prelude.{
  ℕ, zero, suc, ◌+◌, ◌/◌, ◌%◌, String, Bool, true, false, ◌||◌, Option, none, some, List, [], ◌∷◌,
  ◌++◌, if◌then◌else◌, ltb, ◌==◌, Result, ok, err,
}
use tflo.Prelude.Bytes.{Bytes, digits}
use tflo.Prelude.Int.{ℤ, pos, negsuc}
use tflo.Prelude.I64.{sat_mul}

abbrev pub newline : ℕ
newline = 10

abbrev pub backslash : ℕ
backslash = b'\\'

pub data FieldValue (F : Type 0) : Type 0 where
  float : F → FieldValue F
  integer : ℤ → FieldValue F
  u_integer : ℕ → FieldValue F
  string : Bytes → FieldValue F
  boolean : Bool → FieldValue F

pub record LineProtocol (F : Type 0) : Type 0 where
  pub measurement : Bytes
  pub tags : List (Bytes × Bytes)
  pub fields : List (Bytes × FieldValue F)
  pub timestamp_ns : Option ℤ

-- `cmp` of two strings is that of their bytes.
abbrev pub before : Bytes → Bytes → Bool
before [] [] = false
before [] (d ∷ t) = true
before (c ∷ s) [] = false
before (c ∷ s) (d ∷ t) =
    let rest = before s t in if ltb c d then true else if c == d then rest else false

-- `BTreeMap::insert`
abbrev pub insert : Bytes → Bytes → List (Bytes × Bytes) → List (Bytes × Bytes)
insert name value [] = (name, value) ∷ []
insert name value ((k, v) ∷ tags) =
    let rest = insert name value tags in
    if before name k
    then (name, value) ∷ (k, v) ∷ tags
    else if before k name
    then (k, v) ∷ rest
    else (name, value) ∷ tags

-- `to_string` of an `i64`.
abbrev pub signed_digits : ℤ → Bytes
signed_digits (pos n) = digits n
signed_digits (negsuc n) = b'-' ∷ digits (suc n)

-- The loop of an escape helper: the special bytes get a backslash, and a newline becomes `\n`.
abbrev pub escape_with : (ℕ → Bool) → Bytes → Bytes
escape_with special [] = []
escape_with special (c ∷ s) =
    let rest = escape_with special s in
    if special c
    then backslash ∷ c ∷ rest
    else if c == newline
    then backslash ∷ b'n' ∷ rest
    else c ∷ rest

abbrev pub is_identifier_special : ℕ → Bool
is_identifier_special c = c == b',' || c == b' '

abbrev pub is_key_special : ℕ → Bool
is_key_special c = c == b',' || (c == b'=' || c == b' ')

abbrev pub escape_identifier : Bytes → Bytes
escape_identifier s = escape_with is_identifier_special s

abbrev pub escape_tag_key : Bytes → Bytes
escape_tag_key s = escape_with is_key_special s

abbrev pub escape_tag_value : Bytes → Bytes
escape_tag_value s = escape_tag_key s

abbrev pub escape_field_key : Bytes → Bytes
escape_field_key s = escape_tag_key s

abbrev pub escape_field_string : Bytes → Bytes
escape_field_string [] = []
escape_field_string (c ∷ s) =
    let rest = escape_field_string s in
    if c == backslash || c == b'"' then backslash ∷ c ∷ rest else c ∷ rest

module _ {F : Type 0} where
  abbrev pub new : Bytes → LineProtocol F
  new measurement = record {
    measurement = measurement;
    tags = [];
    fields = [];
    timestamp_ns = none;
  }

  abbrev pub tag : LineProtocol F → Bytes → Bytes → LineProtocol F
  tag lp name value = record lp { tags = insert name value lp.tags }

  abbrev pub field : LineProtocol F → Bytes → FieldValue F → LineProtocol F
  field lp name value = record lp { fields = lp.fields ++ ((name, value) ∷ []) }

  abbrev pub timestamp_ns : LineProtocol F → ℤ → LineProtocol F
  timestamp_ns lp ts_ns = record lp { timestamp_ns = some ts_ns }

  abbrev pub timestamp_ms : LineProtocol F → ℤ → LineProtocol F
  timestamp_ms lp ts_ms = timestamp_ns lp (sat_mul ts_ms (pos 1000000))

-- The loop of `format` over the tags.
abbrev pub format_tags : List (Bytes × Bytes) → Bytes
format_tags [] = []
format_tags ((k, v) ∷ tags) =
    b',' ∷ (escape_tag_key k ++ (b'=' ∷ (escape_tag_value v ++ format_tags tags)))

abbrev pub format_timestamp : Option ℤ → Bytes
format_timestamp none = []
format_timestamp (some ts) = b' ' ∷ signed_digits ts

module _ {F : Type 0} (format_float : F → Bytes) where
  abbrev pub format_field : FieldValue F → Bytes
  format_field (float f) = format_float f
  format_field (integer i) = signed_digits i ++ (b'i' ∷ [])
  format_field (u_integer u) = digits u ++ (b'u' ∷ [])
  format_field (string s) = b'"' ∷ (escape_field_string s ++ (b'"' ∷ []))
  format_field (boolean true) = b't' ∷ b'r' ∷ b'u' ∷ b'e' ∷ []
  format_field (boolean false) = b'f' ∷ b'a' ∷ b'l' ∷ b's' ∷ b'e' ∷ []

  -- The loop of `format` over the fields; the flag is `first`.
  abbrev pub format_fields : Bool → List (Bytes × FieldValue F) → Bytes
  format_fields first [] = []
  format_fields first ((k, v) ∷ fields) =
      (if first then b' ' else b',')
      ∷ (escape_field_key k ++ (b'=' ∷ (format_field v ++ format_fields false fields)))

  unfoldable pub format : LineProtocol F → Result Bytes String
  format lp = elim lp.fields [
    | [] ↦ err "LineProtocol: at least one field is required"
    | f ∷ fields ↦ ok (
        escape_identifier lp.measurement
        ++ (format_tags lp.tags
            ++ (format_fields true (f ∷ fields) ++ format_timestamp lp.timestamp_ns)))
  ]
