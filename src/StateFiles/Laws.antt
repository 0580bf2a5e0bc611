-- ===== src/StateFiles/Laws.antt =====
-- tflo-state-files/src/lib.rs: a save of the store over files is atomic.
use mathlib.Core.List.{append_cancel_right}
use mathlib.Core.Option.{some-injective}
use tflo.Prelude.{
  ℕ, ◌≡◌, ◌≢◌, inl, inr, refl, sym, ap, ◌∙◌, Option, some, [], ◌∷◌, ◌++◌, ok, err, All, All-map,
  head?, get_elem?, arith,
}
use tflo.Prelude.Bytes.{Bytes, codes}
use tflo.Core.State.{Written}
use tflo.Core.State.Durable.{Put}
use tflo.StateFiles.{
  FileSystem, Codec, tmp_name, renamed, synced, filled, created, atomic_write_helper, key_to_path,
}
use tflo.StateFiles.Files.{View, seen, FileLaws}
use tflo.StateFiles.Held.{CodecLaws}
use tflo.StateFiles.Atomic.{
  Trace, started, noted, recorded, forget, Whole, Whole-Untouched, Good-created, forget-created,
}

-- A write that succeeds leaves all contents in the file.
module _ {W : Type 0} (fs : FileSystem W) (at : View → W → Bytes → Option Bytes)
    (laws : FileLaws fs at) (tmp path contents : Bytes) where
  renamed-ok :
      (r : Written × W)
      → (r.0 ≡ ok tt → at seen r.1 path ≡ some contents)
      → (renamed fs tmp r).0 ≡ ok tt
      → at seen (renamed fs tmp r).1 path ≡ some contents
  renamed-ok (ok u, w) h done = h refl
  renamed-ok (err e, w) h done = absurd (cc)

  synced-ok :
      (r : Written × W)
      → (r.0 ≡ ok tt → at seen r.1 tmp ≡ some contents)
      → (synced fs tmp path r).0 ≡ ok tt
      → at seen (synced fs tmp path r).1 path ≡ some contents
  synced-ok (ok u, w) h done =
      renamed-ok (fs.rename tmp path w) (λ d. laws.rename_ok tmp path w d ∙ h refl) done
  synced-ok (err e, w) h done = absurd (cc)

  filled-ok :
      (r : Written × W)
      → (r.0 ≡ ok tt → at seen r.1 tmp ≡ some contents)
      → (filled fs tmp path r).0 ≡ ok tt
      → at seen (filled fs tmp path r).1 path ≡ some contents
  filled-ok (ok u, w) h done =
      synced-ok (fs.sync_all tmp w) (λ d. laws.sync_seen tmp w ∙ h refl) done
  filled-ok (err e, w) h done = absurd (cc)

  pub created-ok :
      (r : Written × W)
      → (r.0 ≡ ok tt → at seen r.1 tmp ≡ some [])
      → (created fs tmp path contents r).0 ≡ ok tt
      → at seen (created fs tmp path contents r).1 path ≡ some contents
  created-ok (ok u, w) h done =
      filled-ok (fs.write_all tmp contents w) (λ d. laws.write_ok tmp contents [] w (h refl) d) done
  created-ok (err e, w) h done = absurd (cc)

-- The second letters of a snapshot's suffix and of a temporary file's name.
s≢t : ◌≢◌ {A = ℕ} 115 116
s≢t e = absurd (omega arith)

module _ {S : Type 0} (codec : Codec S) (codec_laws : CodecLaws codec) where
  key_to_path-injective : (k k' : Bytes) → key_to_path codec k ≡ key_to_path codec k' → k ≡ k'
  key_to_path-injective k k' e = some-injective _ _ (
      sym (codec_laws.decode-encode k)
      ∙ ap codec.decode
          (append_cancel_right (codec.encode k) (codec.encode k') (codes ".snapshot") e)
      ∙ codec_laws.decode-encode k')

  -- No key has the path of a temporary file.
  snapshot-tmp :
      (digits' rest : Bytes)
      → All (λ c. c ≢ b'.') digits'
      → digits' ++ codes ".snapshot" ≢ codes ".tflo-state-tmp." ++ rest
  snapshot-tmp [] rest h e = absurd (s≢t (some-injective _ _ (ap (λ l. get_elem? l 1) e)))
  snapshot-tmp (c ∷ digits') rest h e = h.0 (some-injective _ _ (ap head? e))

  path-tmp : (k : Bytes) (id : ℕ) (nanos : Option ℕ) → key_to_path codec k ≢ tmp_name id nanos
  unfolding tmp_name
  path-tmp k id nanos = snapshot-tmp (codec.encode k) _ (codec_laws.encode_digits k)

  -- Of the paths, and so of the keys.
  same_key :
      {before after : Option Bytes} (key k' contents : Bytes)
      → Put before after (key_to_path codec key) (key_to_path codec k') contents
      → Put before after key k' contents
  same_key key k' contents (inl old) = inl old
  same_key key k' contents (inr (e, new)) = inr (key_to_path-injective key k' e, new)

  module _ {W : Type 0} (fs : FileSystem W) (at : View → W → Bytes → Option Bytes)
      (laws : FileLaws fs at) (process_id : ℕ) where
    -- The file of a key before and after a write to another or the same.
    abbrev pub KeyPut : Bytes → Bytes → Bytes → W → W → Type 0
    KeyPut key k' contents w w' =
        (v : View)
        → Put (at v w (key_to_path codec k')) (at v w' (key_to_path codec k')) key k' contents

    -- The run of a save that notes what the file system holds after each of its calls.
    abbrev pub recorded_save : Bytes → Bytes → W → Written × Trace W
    recorded_save key contents w =
        atomic_write_helper (recorded fs) process_id (key_to_path codec key) contents (started w)

    -- After every call of a save to the file system, and so wherever a crash stops it, the file of each key
    -- is as it was, or it is the saved key's file with all of the new contents, both as the program sees it
    -- and as the crash leaves it on the disk; and the noted run returns and leaves what the save does.
    pub save_is_atomic :
        (key k' contents : Bytes) (w : W)
        → All (λ w'. KeyPut key k' contents w w') (recorded_save key contents w).1.points
          × (KeyPut key k' contents w (recorded_save key contents w).1.now
              × (forget (recorded_save key contents w)
                  ≡ atomic_write_helper fs process_id (key_to_path codec key) contents w))
    unfolding atomic_write_helper
    save_is_atomic key k' contents w =
        let tmp = tmp_name process_id (fs.nanos w) in
        let path = key_to_path codec key in
        let name = key_to_path codec k' in
        let key-tmp = path-tmp key process_id (fs.nanos w) in
        let name-tmp = path-tmp k' process_id (fs.nanos w) in
        let r = noted (started w) (fs.create tmp w) in
        let h = λ (v : View). laws.create_others v tmp name w name-tmp in
        let g =
          Good-created fs at laws tmp path contents name key-tmp name-tmp w r h
            (Whole-Untouched fs at laws tmp path contents name key-tmp name-tmp w _ h, tt)
            (λ done. laws.create_ok tmp w done) in
        (
          All-map (Whole fs at laws tmp path contents name key-tmp name-tmp w)
              (λ w'. KeyPut key k' contents w w') _ (λ w' p v. same_key key k' _ (p v)) g.1,
          (λ v. same_key key k' _ (g.0 v), forget-created fs tmp path contents r),
        )
