-- ===== src/StateS3.antt =====
-- tflo-state-s3/src/lib.rs: `S3StateStore`. Object keys are bytes; the client of the object store and the hex
-- and JSON encodings are interfaces, and `W` is what the object store holds.
pub mod Laws
mod Tests
use tflo.Prelude.{ℕ, ◌≡◌, String, Option, none, some, List, [], ◌∷◌, ◌++◌, Result, ok, err, ◌>>=◌}
use tflo.Prelude.Bytes.{Bytes, same_bytes}
use tflo.Core.State.{Written, AsyncStateStore}
use tflo.StateFiles.{Codec, snapshot_suffix}

pub record S3Client (W : Type 0) : Type 0 where
  pub put_object : Bytes → Bytes → Bytes → W → Written × W
  pub get_object : Bytes → Bytes → W → Result (Option Bytes) String × W
  pub list_objects : Bytes → Bytes → W → Result (List Bytes) String × W
  pub delete_object : Bytes → Bytes → W → Written × W

pub record S3StateStore : Type 0 where
  pub bucket : Bytes
  pub prefix : Bytes

abbrev strip_first : {a b : Bytes} → Dec (a ≡ b) → Option Bytes → Option Bytes
strip_first (yes e) rest = rest
strip_first (no n) rest = none

-- `strip_prefix`
abbrev pub strip_prefix : Bytes → Bytes → Option Bytes
strip_prefix [] s = some s
strip_prefix (p ∷ prefix) [] = none
strip_prefix (p ∷ prefix) (c ∷ s) =
    strip_first (same_bytes (p ∷ []) (c ∷ [])) (strip_prefix prefix s)

abbrev strip_last : {a b : Bytes} → Dec (a ≡ b) → Option Bytes → Option Bytes
strip_last (yes e) rest = some []
strip_last (no n) rest = rest

abbrev put_first : ℕ → Option Bytes → Option Bytes
put_first c none = none
put_first c (some s) = some (c ∷ s)

-- `strip_suffix`
abbrev pub strip_suffix : Bytes → Bytes → Option Bytes
strip_suffix suffix [] = strip_last (same_bytes [] suffix) none
strip_suffix suffix (c ∷ s) =
    strip_last (same_bytes (c ∷ s) suffix) (put_first c (strip_suffix suffix s))

abbrev push_some : Option Bytes → List Bytes → List Bytes
push_some none keys = keys
push_some (some key) keys = key ∷ keys

module _ {S : Type 0} (codec : Codec S) (store : S3StateStore) where
  abbrev pub object_key : Bytes → Bytes
  object_key key = store.prefix ++ (codec.encode key ++ snapshot_suffix)

  abbrev pub parse_object_key : Bytes → Option Bytes
  parse_object_key object_key' = strip_prefix store.prefix object_key' >>= λ stem.
      strip_suffix snapshot_suffix stem >>= λ hex_part. codec.decode hex_part

  -- `filter_map`
  abbrev pub parsed_keys : List Bytes → List Bytes
  parsed_keys [] = []
  parsed_keys (k ∷ object_keys) = push_some (parse_object_key k) (parsed_keys object_keys)

  module _ {W : Type 0} (client : S3Client W) where
    abbrev pub save_bytes : Bytes → Result Bytes String → W → Written × W
    save_bytes key (ok bytes) w = client.put_object store.bucket (object_key key) bytes w
    save_bytes key (err e) w = (err "Failed to serialize snapshot", w)

    abbrev pub save : Bytes → S → W → Written × W
    save key snapshot w = save_bytes key (codec.to_vec snapshot) w

    abbrev pub parsed : Result S String → Result (Option S) String
    parsed (ok snapshot) = ok (some snapshot)
    parsed (err e) = err "Failed to deserialize snapshot"

    abbrev pub loaded : Result (Option Bytes) String → Result (Option S) String
    loaded (ok (some bytes)) = parsed (codec.from_slice bytes)
    loaded (ok none) = ok none
    loaded (err e) = err e

    abbrev pub load : Bytes → W → Result (Option S) String × W
    load key w =
        let (object, w') = client.get_object store.bucket (object_key key) w in (loaded object, w')

    abbrev pub listed : Result (List Bytes) String → Result (List Bytes) String
    listed (ok object_keys) = ok (parsed_keys object_keys)
    listed (err e) = err e

    abbrev pub list_keys : W → Result (List Bytes) String × W
    list_keys w =
        let (object_keys, w') = client.list_objects store.bucket store.prefix w in
        (listed object_keys, w')

    abbrev pub delete : Bytes → W → Written × W
    delete key w = client.delete_object store.bucket (object_key key) w

    abbrev pub s3_store : AsyncStateStore W Bytes S
    s3_store = record { save = save; load = load }
