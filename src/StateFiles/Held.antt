-- ===== src/StateFiles/Held.antt =====
-- tflo-state-files/src/lib.rs, tflo-state-s3/src/lib.rs: the laws of the encodings, and the snapshot that stored
-- bytes hold.
use tflo.Prelude.{◌≡◌, ◌≢◌, inl, inr, ap, ◌∙◌, String, Option, none, some, Result, ok, err, All}
use tflo.Prelude.Bytes.{Bytes}
use tflo.Core.State.Durable.{Put}
use tflo.StateFiles.{Codec}

-- What `hex` and `serde_json` document: the digits are no dots and decode to the key, and a value reads
-- back from its text.
pub record CodecLaws {S : Type 0} (codec : Codec S) : Type 0 where
  pub encode_digits : (key : Bytes) → All (λ c. c ≢ b'.') (codec.encode key)
  pub decode-encode : (key : Bytes) → codec.decode (codec.encode key) ≡ some key
  pub from_slice-to_vec :
      (s : S) (contents : Bytes) → codec.to_vec s ≡ ok contents → codec.from_slice contents ≡ ok s

pub ok-injective : {A : Type 0} {a b : A} → (let r : Result A String = ok a in r) ≡ ok b → a ≡ b
ok-injective e = cc

abbrev pub decoded : {S : Type 0} → Result S String → Option S
decoded (ok s) = some s
decoded (err e) = none

module _ {S : Type 0} (codec : Codec S) where
  abbrev pub held : Option Bytes → Option S
  held none = none
  held (some contents) = decoded (codec.from_slice contents)

  module _ (codec_laws : CodecLaws codec) where
    pub held-save :
        (s : S) (contents : Bytes) → codec.to_vec s ≡ ok contents → held (some contents) ≡ some s
    held-save s contents e = ap decoded (codec_laws.from_slice-to_vec s contents e)

    pub held-Put :
        (before after : Option Bytes) (key k' contents : Bytes) (s : S)
        → codec.to_vec s ≡ ok contents
        → Put before after key k' contents
        → Put (held before) (held after) key k' s
    held-Put before after key k' contents s e (inl old) = inl (ap held old)
    held-Put before after key k' contents s e (inr (same, new)) =
        inr (same, ap held new ∙ held-save s contents e)
