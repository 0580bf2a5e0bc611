-- ===== src/StateFiles/Store.antt =====
-- tflo-state-files/src/lib.rs: what the store over files answers.
use tflo.Prelude.{
  ℕ, ◌≡◌, inl, inr, refl, subst, sym, ap, ◌∙◌, String, Bool, true, false, Option, none, some,
  Result, ok, err, Bool-cases,
}
use tflo.Prelude.Bytes.{Bytes}
use tflo.Core.State.{Written}
use tflo.Core.State.Durable.{Put}
use tflo.Core.Dedup.Writes as Writes
use tflo.StateFiles.{
  FileSystem, Codec, tmp_name, atomic_write_helper, key_to_path, save_bytes, save, parsed, loaded,
  load, file_store,
}
use tflo.StateFiles.Files.{View, seen, FileLaws}
use tflo.StateFiles.Held.{CodecLaws, ok-injective, decoded, held, held-save, held-Put}
use tflo.StateFiles.Laws.{created-ok, KeyPut, save_is_atomic}

module _ {S W : Type 0} (codec : Codec S) (codec_laws : CodecLaws codec) (fs : FileSystem W)
    (at : View → W → Bytes → Option Bytes) (laws : FileLaws fs at) (process_id : ℕ) where
  abbrev pub snapshot_at : W → Bytes → Option S
  snapshot_at w key = held codec (at seen w (key_to_path codec key))

  save_bytes-ok :
      (key : Bytes) (s : S) (w : W) (text : Result Bytes String)
      → codec.to_vec s ≡ text
      → (save_bytes codec fs process_id key text w).0 ≡ ok tt
      → snapshot_at (save_bytes codec fs process_id key text w).1 key ≡ some s
  unfolding atomic_write_helper
  save_bytes-ok key s w (ok contents) e done =
      let tmp = tmp_name process_id (fs.nanos w) in
      ap (held codec) (
        created-ok fs at laws tmp (key_to_path codec key) contents (fs.create tmp w)
          (λ d. laws.create_ok tmp w d) done)
      ∙ held-save codec codec_laws s contents e
  save_bytes-ok key s w (err m) e done = absurd (cc)

  save_bytes-Put :
      (key k' : Bytes) (s : S) (w : W) (text : Result Bytes String)
      → codec.to_vec s ≡ text
      → Put
          (snapshot_at w k')
          (snapshot_at (save_bytes codec fs process_id key text w).1 k')
          key
          k'
          s
  save_bytes-Put key k' s w (ok contents) e =
      let (points, (end, same)) =
        save_is_atomic codec codec_laws fs at laws process_id key k' contents w in
      held-Put codec codec_laws _ _ key k' contents s e (
        subst (λ v. KeyPut codec codec_laws fs at laws process_id key k' contents w v)
          (ap (λ r. r.1) same) end seen)
  save_bytes-Put key k' s w (err m) e = inl refl

  load-there :
      (key : Bytes) (w : W)
      → fs.exists (key_to_path codec key) w ≡ true
      → load codec fs process_id key w
        ≡ (loaded codec fs process_id (fs.read (key_to_path codec key) w), w)
  unfolding load
  load-there key w e = rw e refl

  load-absent :
      (key : Bytes) (w : W)
      → fs.exists (key_to_path codec key) w ≡ false
      → load codec fs process_id key w ≡ (ok none, w)
  unfolding load
  load-absent key w e = rw e refl

  -- What a load answers of the key, where `there` is what `exists` says.
  abbrev pub Loaded : Bool → Option S → Result (Option S) String → Type 0
  Loaded there now (ok (some s)) = (there ≡ true) × (now ≡ some s)
  Loaded there now (ok none) = there ≡ false
  Loaded there now (err e) = there ≡ true

  parsed-Loaded : (r : Result S String) → Loaded true (decoded r) (parsed codec fs process_id r)
  parsed-Loaded (ok s) = (refl, refl)
  parsed-Loaded (err e) = refl

  loaded-Loaded :
      (key : Bytes) (w : W) (text : Result Bytes String)
      → fs.read (key_to_path codec key) w ≡ text
      → Loaded true (snapshot_at w key) (loaded codec fs process_id text)
  loaded-Loaded key w (ok contents) e =
      subst (λ o. Loaded true (held codec o) (loaded codec fs process_id (ok contents)))
        (sym (laws.read_ok _ contents w e)) (parsed-Loaded (codec.from_slice contents))
  loaded-Loaded key w (err m) e = refl

  load-Loaded :
      (key : Bytes) (w : W)
      → Loaded
          (fs.exists (key_to_path codec key) w)
          (snapshot_at w key)
          (load codec fs process_id key w).0
  load-Loaded key w = elim (Bool-cases (fs.exists (key_to_path codec key) w)) [
    | inl y ↦
        subst (λ r. Loaded (fs.exists (key_to_path codec key) w) (snapshot_at w key) r.0)
          (sym (load-there key w y))
          (subst
            (λ b.
              Loaded b (snapshot_at w key)
                (loaded codec fs process_id (fs.read (key_to_path codec key) w)))
            (sym y) (loaded-Loaded key w _ refl))
    | inr n ↦
        subst (λ r. Loaded (fs.exists (key_to_path codec key) w) (snapshot_at w key) r.0)
          (sym (load-absent key w n)) n
  ]

  load-keeps : (key : Bytes) (w : W) → (load codec fs process_id key w).1 ≡ w
  load-keeps key w = elim (Bool-cases (fs.exists (key_to_path codec key) w)) [
    | inl y ↦ ap (λ p. p.1) (load-there key w y)
    | inr n ↦ ap (λ p. p.1) (load-absent key w n)
  ]

  -- What a save that answers this has left.
  abbrev pub Saved : S → Option S → Written → Type 0
  Saved s now (ok u) = now ≡ some s
  Saved s now (err e) = Unit

  save-Saved : (s : S) (now : Option S) (r : Written) → (r ≡ ok tt → now ≡ some s) → Saved s now r
  save-Saved s now (ok u) h = h refl
  save-Saved s now (err e) h = tt

  -- A save of `key`, seen at `k'`, and a load of `k'`.
  pub record Answers (key k' : Bytes) (s : S) (w : W) : Type 0 where
    save_ok :
        Saved s
          (snapshot_at (save codec fs process_id key s w).1 key)
          (save codec fs process_id key s w).0
    save_put : Put (snapshot_at w k') (snapshot_at (save codec fs process_id key s w).1 k') key k' s
    load_keeps : (load codec fs process_id k' w).1 ≡ w
    loads :
        Loaded
          (fs.exists (key_to_path codec k') w)
          (snapshot_at w k')
          (load codec fs process_id k' w).0

  -- A save that succeeds leaves the snapshot; any save leaves a key's snapshot as it was, or it is the saved
  -- key's and the saved snapshot. A load changes nothing; a snapshot that it answers is the key's, it answers
  -- none exactly when `exists` is false of the key's file, which may be so of a file that is there, and
  -- it fails only where `exists` is true.
  pub file_store-Answers : (key k' : Bytes) (s : S) (w : W) → Answers key k' s w
  file_store-Answers key k' s w = record {
    save_ok = save-Saved s _ _ (λ done. save_bytes-ok key s w (codec.to_vec s) refl done);
    save_put = save_bytes-Put key k' s w (codec.to_vec s) refl;
    load_keeps = load-keeps k' w;
    loads = load-Loaded k' w;
  }

  -- With these, the store fills the interface of the deduplicator, if `exists` is true of each file that
  -- is there.
  module _ (exact : (n : Bytes) (w : W) → fs.exists n w ≡ false → at seen w n ≡ none) where
    load-exact :
        (key : Bytes) (w : W) (there : Bool) (r : Result (Option S) String) (o : Option S)
        → fs.exists (key_to_path codec key) w ≡ there
        → Loaded there (snapshot_at w key) r
        → r ≡ ok o
        → o ≡ snapshot_at w key
    load-exact key w there (ok (some s)) o e h done = ok-injective (sym done) ∙ sym h.1
    load-exact key w there (ok none) o e h done =
        ok-injective (sym done) ∙ ap (held codec) (sym (exact _ w (e ∙ h)))
    load-exact key w there (err m) o e h done = absurd (cc)

    pub file_store-Laws : Writes.Laws (file_store codec fs process_id) snapshot_at
    file_store-Laws = record {
      save_ok = λ k s w done. save_bytes-ok k s w (codec.to_vec s) refl done;
      save_put = λ k k' s w. save_bytes-Put k k' s w (codec.to_vec s) refl;
      load_ok = λ k w o done. load-exact k w _ _ o refl (load-Loaded k w) done;
      load_keeps = λ k k' w. ap (λ v. snapshot_at v k') (load-keeps k w);
    }
