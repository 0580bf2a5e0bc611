-- ===== src/Influx/Tests.antt =====
-- Runs of the line protocol and of the batcher.
use tflo.Prelude.{◌≡◌, refl, none, some, List, [], ◌∷◌, min, arith, ok, err}
use tflo.Prelude.Int.{pos, negsuc}
use tflo.Prelude.Bytes.{Bytes, codes, digits}
use tflo.Influx.Line.{LineProtocol, integer, string, format, tag, field, timestamp_ns}
use tflo.Influx.Line
use tflo.Influx.Line.Read.{read}
use tflo.Influx.Line.RoundTrip.{point_of, read-format}
use tflo.Influx.Line.OneLine.{IsOneLine, format-IsOneLine}
use tflo.Influx.Batcher.{with_max_age, max_buffer_bytes_limit}
use tflo.Influx.Batcher.Calls.{Call, push, flush, tick, answered, empty, run}
use tflo.Influx.Batcher.Conserve.{Kept, lines_conserved}

-- A record with commas, spaces, backslashes, quotes and equals signs in its names and values; there are
-- no floats.
abbrev point : LineProtocol (Unit {0})
point =
    timestamp_ns
      (field
        (field
          (tag (tag (Line.new (codes "a b")) (codes "t") (codes "\\,")) (codes "s") (codes "="))
          (codes "x") (integer (negsuc 11)))
        (codes "y, z") (string (codes "say \"\\\"")))
      (pos 70)

abbrev no_float : Unit {0} → Bytes
no_float u = codes "0"

format_run :
    format no_float point ≡ ok (codes "a\\ b,s=\\=,t=\\\\, x=-12i,y\\,\\ z=\"say \\\"\\\\\\\"\" 70")
unfolding format digits
format_run = refl

read-format_example :
    (line : Bytes) × (format no_float point ≡ ok line)
    × (read 9 line ≡ some (point_of no_float (λ u. omega arith) point))
read-format_example =
    read-format no_float (λ u. omega arith) point 9 (ground arith) (omega arith) (omega arith)
      (omega arith) (omega arith)

abbrev line : Bytes
line = codes "a\\ b,s=\\=,t=\\\\, x=-12i,y\\,\\ z=\"say \\\"\\\\\\\"\" 70"

format-IsOneLine_example : IsOneLine line
format-IsOneLine_example =
    format-IsOneLine no_float (λ u. omega arith) point line (omega arith) format_run

-- A newline within a string stays in the line.
newline_in_string :
    format no_float (field (Line.new (codes "m")) (codes "x") (string (10 ∷ [])))
    ≡ ok (codes "m x=\"\n\"")
unfolding format
newline_in_string = refl

-- A tag key that ends in a backslash hides the sign after it: the reader takes the key to go on up to the
-- next sign, and then finds no field.
backslash_at_end :
    (format no_float
        (field (tag (Line.new (codes "m")) (codes "a\\") (codes "b")) (codes "x") (integer (pos 1)))
      ≡ ok (codes "m,a\\=b x=1i"))
    × (read 9 (codes "m,a\\=b x=1i") ≡ none)
unfolding format digits
backslash_at_end = (refl, refl)

abbrev calls : List Call
calls =
    push (codes "ab") 0 0
    ∷ push (codes "abcdef") 1 1
    ∷ push (codes "c") 2 2
    ∷ answered (err "no server")
    ∷ push (codes "d") 3 9
    ∷ tick 20
    ∷ answered (ok tt)
    ∷ flush
    ∷ []

lines_conserved_example :
    let (l, b) = run calls (empty, with_max_age 5 8 (some 10)) in
    Kept (min 5 max_buffer_bytes_limit) (min 8 max_buffer_bytes_limit) l b
lines_conserved_example = lines_conserved 5 8 (some 10) calls
