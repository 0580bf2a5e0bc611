-- ===== src/StateS3/Laws.antt =====
-- tflo-state-s3/src/lib.rs: object keys parse back, and the store fills the interface that the
-- deduplicator takes.
use mathlib.Core.Option.{some-injective}
use tflo.Prelude.{
  ℕ, ◌≡◌, ◌≢◌, inl, inr, refl, sym, ap, ◌∙◌, String, Option, none, some, [], ◌∷◌, ◌++◌, Result, ok,
  err, ◌>>=◌, length, length-append, arith,
}
use tflo.Prelude.Bytes.{Bytes, same_bytes}
use tflo.Core.State.Durable.{Put}
use tflo.Core.Dedup.Writes as Writes
use tflo.StateFiles.{Codec, snapshot_suffix}
use tflo.StateFiles.Held.{CodecLaws, ok-injective, decoded, held, held-save, held-Put}
use tflo.StateS3.{
  S3Client, S3StateStore, strip_prefix, strip_suffix, strip_first, strip_last, put_first,
  object_key, parse_object_key, save_bytes, parsed, loaded, s3_store,
}

-- What an object store documents: a put replaces the whole object or leaves all as it is, and a get that
-- succeeds answers what the object is.
pub record ClientLaws {W : Type 0} (client : S3Client W) (at : W → Bytes → Bytes → Option Bytes)
    : Type 0 where
  pub put_ok :
      (b n bytes : Bytes) (w : W)
      → (client.put_object b n bytes w).0 ≡ ok tt
      → at (client.put_object b n bytes w).1 b n ≡ some bytes
  pub put_put :
      (b n n' bytes : Bytes) (w : W)
      → Put (at w b n') (at (client.put_object b n bytes w).1 b n') n n' bytes
  pub get_ok :
      (b n : Bytes) (w : W) (o : Option Bytes) → (client.get_object b n w).0 ≡ ok o → o ≡ at w b n
  pub get_keeps : (b n b' n' : Bytes) (w : W) → at (client.get_object b n w).1 b' n' ≡ at w b' n'

strip_first-same :
    (c : ℕ) (d : Dec (c ∷ [] ≡ c ∷ [])) (rest : Option Bytes) → strip_first d rest ≡ rest
strip_first-same c (yes e) rest = refl
strip_first-same c (no n) rest = absurd (n refl)

strip_prefix-append : (prefix s : Bytes) → strip_prefix prefix (prefix ++ s) ≡ some s
strip_prefix-append [] s = refl
strip_prefix-append (p ∷ prefix) s =
    strip_first-same p (same_bytes (p ∷ []) (p ∷ [])) _ ∙ strip_prefix-append prefix s

strip_last-same : (s : Bytes) (d : Dec (s ≡ s)) (rest : Option Bytes) → strip_last d rest ≡ some []
strip_last-same s (yes e) rest = refl
strip_last-same s (no n) rest = absurd (n refl)

strip_last-other :
    {a b : Bytes} (d : Dec (a ≡ b)) (rest : Option Bytes) → a ≢ b → strip_last d rest ≡ rest
strip_last-other (yes e) rest h = absurd (h e)
strip_last-other (no n) rest h = refl

longer : (c : ℕ) (s t : Bytes) → c ∷ (s ++ t) ≢ t
longer c s t e = absurd (omega (arith, ap length e, length-append s t))

strip_suffix-append : (s suffix : Bytes) → strip_suffix suffix (s ++ suffix) ≡ some s
strip_suffix-append [] [] = refl
strip_suffix-append [] (c ∷ suffix) =
    strip_last-same (c ∷ suffix) (same_bytes (c ∷ suffix) (c ∷ suffix)) _
strip_suffix-append (c ∷ s) suffix =
    strip_last-other (same_bytes (c ∷ (s ++ suffix)) suffix) _ (longer c s suffix)
    ∙ ap (put_first c) (strip_suffix-append s suffix)

module _ {S : Type 0} (codec : Codec S) (codec_laws : CodecLaws codec) (store : S3StateStore) where
  parse_object_key-object_key :
      (k : Bytes) → parse_object_key codec store (object_key codec store k) ≡ some k
  parse_object_key-object_key k =
      ap (λ o. o >>= λ stem. strip_suffix snapshot_suffix stem >>= λ h. codec.decode h)
        (strip_prefix-append store.prefix (codec.encode k ++ snapshot_suffix))
      ∙ ap (λ o. o >>= λ h. codec.decode h) (strip_suffix-append (codec.encode k) snapshot_suffix)
      ∙ codec_laws.decode-encode k

  object_key-injective :
      (k k' : Bytes) → object_key codec store k ≡ object_key codec store k' → k ≡ k'
  object_key-injective k k' e = some-injective _ _ (
      sym (parse_object_key-object_key k)
      ∙ ap (parse_object_key codec store) e
      ∙ parse_object_key-object_key k')

  module _ {W : Type 0} (client : S3Client W) (at : W → Bytes → Bytes → Option Bytes)
      (laws : ClientLaws client at) where
    abbrev pub snapshot_at : W → Bytes → Option S
    snapshot_at w key = held codec (at w store.bucket (object_key codec store key))

    -- Of the object keys, and so of the keys.
    same_key :
        {before after : Option Bytes} (key k' bytes : Bytes)
        → Put before after (object_key codec store key) (object_key codec store k') bytes
        → Put before after key k' bytes
    same_key key k' bytes (inl old) = inl old
    same_key key k' bytes (inr (e, new)) = inr (object_key-injective key k' e, new)

    save_bytes-ok :
        (key : Bytes) (s : S) (w : W) (text : Result Bytes String)
        → codec.to_vec s ≡ text
        → (save_bytes codec store client key text w).0 ≡ ok tt
        → snapshot_at (save_bytes codec store client key text w).1 key ≡ some s
    save_bytes-ok key s w (ok bytes) e done =
        ap (held codec) (laws.put_ok store.bucket (object_key codec store key) bytes w done)
        ∙ held-save codec codec_laws s bytes e
    save_bytes-ok key s w (err m) e done = absurd (cc)

    save_bytes-Put :
        (key k' : Bytes) (s : S) (w : W) (text : Result Bytes String)
        → codec.to_vec s ≡ text
        → Put
            (snapshot_at w k')
            (snapshot_at (save_bytes codec store client key text w).1 k')
            key
            k'
            s
    save_bytes-Put key k' s w (ok bytes) e = held-Put codec codec_laws _ _ key k' bytes s e (
        same_key key k' bytes (
          laws.put_put store.bucket (object_key codec store key) (object_key codec store k') bytes
            w))
    save_bytes-Put key k' s w (err m) e = inl refl

    parsed-ok :
        (r : Result S String) (o : Option S) → parsed codec store client r ≡ ok o → o ≡ decoded r
    parsed-ok (ok s) o done = cc
    parsed-ok (err e) o done = absurd (cc)

    loaded-ok :
        (r : Result (Option Bytes) String) (o : Option S) (now : Option Bytes)
        → ((b : Option Bytes) → r ≡ ok b → b ≡ now)
        → loaded codec store client r ≡ ok o
        → o ≡ held codec now
    loaded-ok (ok none) o now h done = sym (ok-injective done) ∙ ap (held codec) (h none refl)
    loaded-ok (ok (some bytes)) o now h done =
        parsed-ok (codec.from_slice bytes) o done ∙ ap (held codec) (h (some bytes) refl)
    loaded-ok (err e) o now h done = absurd (cc)

    -- The store over objects keeps what the deduplicator asks of a store, since no two keys have one object
    -- key: a save that succeeds leaves the snapshot, any save leaves a key's snapshot as it was or it is the
    -- saved key's and the saved snapshot, and a load that succeeds answers what the key holds and changes
    -- nothing.
    pub s3_store-Laws : Writes.Laws (s3_store codec store client) snapshot_at
    s3_store-Laws = record {
      save_ok = λ k s w done. save_bytes-ok k s w (codec.to_vec s) refl done;
      save_put = λ k k' s w. save_bytes-Put k k' s w (codec.to_vec s) refl;
      load_ok = λ k w o done.
          loaded-ok _ o (at w store.bucket (object_key codec store k))
            (λ b e. laws.get_ok store.bucket (object_key codec store k) w b e) done;
      load_keeps = λ k k' w. ap (held codec) (laws.get_keeps store.bucket _ store.bucket _ w);
    }
