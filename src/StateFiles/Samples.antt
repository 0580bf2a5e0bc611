-- ===== src/StateFiles/Samples.antt =====
-- An update of one name and an encoding, for the runs of the stores.
use tflo.Prelude.{
  ◌≡◌, ◌≢◌, refl, sym, ap, ◌∙◌, Option, some, [], ◌∷◌, ok, All, map, ◌+◌, ◌-◌, arith,
}
use tflo.Prelude.Bytes.{Bytes}
use tflo.StateFiles.{Codec}
use tflo.StateFiles.Held.{CodecLaws}

abbrev pub set : {a b : Bytes} → Dec (a ≡ b) → Option Bytes → Option Bytes → Option Bytes
set (yes e) new old = new
set (no n) new old = old

pub set-same : (n : Bytes) (d : Dec (n ≡ n)) (new old : Option Bytes) → set d new old ≡ new
set-same n (yes e) new old = refl
set-same n (no no_way) new old = absurd (no_way refl)

pub set-other :
    {a b : Bytes} (d : Dec (a ≡ b)) (new old : Option Bytes) → b ≢ a → set d new old ≡ old
set-other (yes e) new old h = absurd (h (sym e))
set-other (no n) new old h = refl

-- A byte is the letter 48 places on, and a snapshot is its own text.
abbrev pub codec : Codec Bytes
codec = record {
  encode = map (λ b. b + 48);
  decode = λ s. some (map (λ c. c - 48) s);
  to_vec = λ s. ok s;
  from_slice = λ s. ok s;
}

encode-digits : (key : Bytes) → All (λ c. c ≢ b'.') (codec.encode key)
encode-digits [] = tt
encode-digits (b ∷ key) = (λ e. absurd (omega arith), encode-digits key)

there_and_back : (key : Bytes) → map (λ c. c - 48) (map (λ b. b + 48) key) ≡ key
there_and_back [] = refl
there_and_back (b ∷ key) =
    ap (λ x. x ∷ map (λ c. c - 48) (map (λ b'. b' + 48) key)) (omega arith)
    ∙ ap (λ l. b ∷ l) (there_and_back key)

pub codec_laws : CodecLaws codec
codec_laws = record {
  encode_digits = encode-digits;
  decode-encode = λ key. ap some (there_and_back key);
  from_slice-to_vec = λ s contents e. sym e;
}
