-- ===== src/StateS3/Tests.antt =====
-- An object store of two levels of names, and runs of the store over it.
use tflo.Prelude.{◌≡◌, inl, inr, refl, ◌∙◌, Option, none, some, [], ◌∷◌, ok, sym, subst}
use tflo.Prelude.Bytes.{Bytes, codes, same_bytes}
use native.Mathlib.Decide.{ℕ_discrete}
use tflo.Core.State.Durable.{Put}
use tflo.Core.Dedup.Writes as Writes
use tflo.StateFiles.Held.{ok-injective}
use tflo.StateFiles.Samples.{set, set-same, codec, codec_laws}
use tflo.StateS3.{S3Client, S3StateStore, save, load, list_keys, s3_store}
use tflo.StateS3.Laws.{ClientLaws, snapshot_at, s3_store-Laws}

abbrev Objects : Type 0
Objects = Bytes → Bytes → Option Bytes

abbrev put : Bytes → Bytes → Option Bytes → Objects → Objects
put b n object w b' n' = set (same_bytes b b') (set (same_bytes n n') object (w b' n')) (w b' n')

-- The listing answers two object keys, of which one is no snapshot.
abbrev client : S3Client Objects
client = record {
  put_object = λ b n bytes w. (ok tt, put b n (some bytes) w);
  get_object = λ b n w. (ok (w b n), w);
  list_objects = λ b prefix w. (ok (codes "ckp/12.snapshot" ∷ codes "ckp/12.json" ∷ []), w);
  delete_object = λ b n w. (ok tt, put b n none w);
}

set-Put :
    (n n' bytes : Bytes) (d : Dec (n ≡ n')) (old : Option Bytes)
    → Put old (set d (some bytes) old) n n' bytes
set-Put n n' bytes (yes e) old = inr (e, refl)
set-Put n n' bytes (no other) old = inl refl

put-Put :
    (b n n' bytes : Bytes) (w : Objects) → Put (w b n') (put b n (some bytes) w b n') n n' bytes
put-Put b n n' bytes w =
    subst (λ o. Put (w b n') o n n' bytes) (sym (set-same b (same_bytes b b) _ (w b n')))
      (set-Put n n' bytes (same_bytes n n') (w b n'))

client_laws : ClientLaws client (λ w b n. w b n)
client_laws = record {
  put_ok = λ b n bytes w done. set-same b (same_bytes b b) _ _ ∙ set-same n (same_bytes n n) _ _;
  put_put = put-Put;
  get_ok = λ b n w o e. sym (ok-injective e);
  get_keeps = λ b n b' n' w. refl;
}

abbrev store : S3StateStore
store = record { bucket = codes "b"; prefix = codes "ckp/" }

abbrev empty : Objects
empty b n = none

save_then_load :
    (load codec store client (1 ∷ []) (save codec store client (1 ∷ []) (5 ∷ []) empty).1).0
    ≡ ok (some (5 ∷ []))
unfolding ℕ_discrete
save_then_load = refl

list_run : (list_keys codec store client empty).0 ≡ ok ((1 ∷ 2 ∷ []) ∷ [])
unfolding ℕ_discrete
list_run = refl

s3_store-Laws_example :
    Writes.Laws
      (s3_store codec store client)
      (snapshot_at codec codec_laws store client (λ w b n. w b n) client_laws)
s3_store-Laws_example = s3_store-Laws codec codec_laws store client (λ w b n. w b n) client_laws
