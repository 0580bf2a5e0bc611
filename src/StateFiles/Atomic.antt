-- ===== src/StateFiles/Atomic.antt =====
-- tflo-state-files/src/lib.rs: the atomic write, seen at every point where a crash can stop it.
use tflo.Prelude.{
  ◌≡◌, ◌≢◌, inl, inr, refl, sym, ◌∙◌, subst, String, Option, some, List, [], ◌∷◌, ok, err, All,
}
use tflo.Prelude.Bytes.{Bytes, same_bytes}
use tflo.Core.State.{Written}
use tflo.Core.State.Durable.{Put}
use tflo.StateFiles.{FileSystem, failed, renamed, synced, filled, created}
use tflo.StateFiles.Files.{View, seen, durable, FileLaws}

-- The file system together with what it held after each call so far, the last first.
pub record Trace (W : Type 0) : Type 0 where
  pub now : W
  pub points : List W

abbrev pub started : {W : Type 0} → W → Trace W
started w = record { now = w; points = [] }

abbrev pub noted : {W : Type 0} → Trace W → Written × W → Written × Trace W
noted t p = (p.0, record { now = p.1; points = p.1 ∷ t.points })

-- The same file system, which notes what each call leaves: every point where a crash can stop a run of
-- the code over it.
abbrev pub recorded : {W : Type 0} → FileSystem W → FileSystem (Trace W)
recorded fs = record {
  create_dir_all = λ t. noted t (fs.create_dir_all t.now);
  create = λ n t. noted t (fs.create n t.now);
  write_all = λ n contents t. noted t (fs.write_all n contents t.now);
  sync_all = λ n t. noted t (fs.sync_all n t.now);
  rename = λ n m t. noted t (fs.rename n m t.now);
  remove_file = λ n t. noted t (fs.remove_file n t.now);
  exists = λ n t. fs.exists n t.now;
  read = λ n t. fs.read n t.now;
  read_dir = λ t. fs.read_dir t.now;
  nanos = λ t. fs.nanos t.now;
}

module _ {W : Type 0} (fs : FileSystem W) (at : View → W → Bytes → Option Bytes)
    (laws : FileLaws fs at) (tmp path contents name : Bytes) (path-tmp : path ≢ tmp)
    (name-tmp : name ≢ tmp) (start : W) where
  -- Every file but the temporary one is as at the start, or it is the written one, with all contents.
  abbrev pub Whole : W → Type 0
  Whole w = (v : View) → Put (at v start name) (at v w name) path name contents

  abbrev pub Untouched : W → Type 0
  Untouched w = (v : View) → at v w name ≡ at v start name

  pub Whole-Untouched : (w : W) → Untouched w → Whole w
  Whole-Untouched w u v = inl (u v)

  -- A call that leaves the file alone.
  Whole-later : (w w' : W) → ((v : View) → at v w' name ≡ at v w name) → Whole w → Whole w'
  Whole-later w w' same h v =
      subst (λ o. Put (at v start name) o path name contents) (sym (same v)) (h v)

  -- All the way and at the end.
  abbrev pub Good : Trace W → Type 0
  Good t = Whole t.now × All Whole t.points

  Good-failed : (m : String) (t : Trace W) → Good t → Good (failed (recorded fs) tmp m t).1
  Good-failed m t g =
      let h = Whole-later t.now _ (λ v. laws.remove_others v tmp name t.now name-tmp) g.0 in
      (h, (h, g.1))

  -- The rename, where the temporary file has all contents in both views.
  Whole-rename :
      (w : W)
      → Untouched w
      → ((v : View) → at v w tmp ≡ some contents)
      → Whole (fs.rename tmp path w).1
  Whole-rename w u full v = elim (same_bytes path name) [
    | yes e ↦
        subst
          (λ m.
            ((v' : View) → at v' w m ≡ at v' start m)
            → Put (at v start m) (at v (fs.rename tmp path w).1 m) path m contents)
          e
          (λ u'. elim (laws.rename_whole v tmp path w) [
            | inl old ↦ inl (old ∙ u' v)
            | inr moved ↦ inr (refl, moved ∙ full v)
          ])
          u
    | no other ↦ inl (laws.rename_others v tmp path name w name-tmp (λ e. other (sym e)) ∙ u v)
  ]

  Good-renamed : (r : Written × Trace W) → Good r.1 → Good (renamed (recorded fs) tmp r).1
  Good-renamed (ok u, t) g = g
  Good-renamed (err e, t) g = Good-failed "Failed to rename" t g

  Good-synced :
      (r : Written × Trace W)
      → Untouched r.1.now
      → All Whole r.1.points
      → (r.0 ≡ ok tt → (v : View) → at v r.1.now tmp ≡ some contents)
      → Good (synced (recorded fs) tmp path r).1
  Good-synced (ok u, t) h g full =
      let w = Whole-rename t.now h (full refl) in
      Good-renamed (noted t (fs.rename tmp path t.now)) (w, (w, g))
  Good-synced (err e, t) h g full =
      Good-failed "Failed to fsync temp file" t (Whole-Untouched t.now h, g)

  -- In both views, once the file is synced.
  both :
      (w : W)
      → at seen w tmp ≡ some contents
      → (fs.sync_all tmp w).0 ≡ ok tt
      → (v : View) → at v (fs.sync_all tmp w).1 tmp ≡ some contents
  both w full done seen = laws.sync_seen tmp w ∙ full
  both w full done durable = laws.sync_ok tmp w done ∙ full

  Good-filled :
      (r : Written × Trace W)
      → Untouched r.1.now
      → All Whole r.1.points
      → (r.0 ≡ ok tt → at seen r.1.now tmp ≡ some contents)
      → Good (filled (recorded fs) tmp path r).1
  Good-filled (ok u, t) h g full =
      let h' = λ (v : View). laws.sync_others v tmp name t.now name-tmp ∙ h v in
      Good-synced (noted t (fs.sync_all tmp t.now)) h' (Whole-Untouched _ h', g)
        (λ done. both t.now (full refl) done)
  Good-filled (err e, t) h g full =
      Good-failed "Failed to write temp file" t (Whole-Untouched t.now h, g)

  pub Good-created :
      (r : Written × Trace W)
      → Untouched r.1.now
      → All Whole r.1.points
      → (r.0 ≡ ok tt → at seen r.1.now tmp ≡ some [])
      → Good (created (recorded fs) tmp path contents r).1
  Good-created (ok u, t) h g empty =
      let h' = λ (v : View). laws.write_others v tmp name contents t.now name-tmp ∙ h v in
      Good-filled (noted t (fs.write_all tmp contents t.now)) h' (Whole-Untouched _ h', g)
        (λ done. laws.write_ok tmp contents [] t.now (empty refl) done)
  Good-created (err e, t) h g empty = (Whole-Untouched t.now h, g)

-- What a call returns and leaves, without the points.
abbrev pub forget : {W : Type 0} → Written × Trace W → Written × W
forget r = (r.0, r.1.now)

-- Noting changes neither.
module _ {W : Type 0} (fs : FileSystem W) (tmp path contents : Bytes) where
  forget-renamed :
      (r : Written × Trace W) → forget (renamed (recorded fs) tmp r) ≡ renamed fs tmp (forget r)
  forget-renamed (ok u, t) = refl
  forget-renamed (err e, t) = refl

  forget-synced :
      (r : Written × Trace W)
      → forget (synced (recorded fs) tmp path r) ≡ synced fs tmp path (forget r)
  forget-synced (ok u, t) = forget-renamed (noted t (fs.rename tmp path t.now))
  forget-synced (err e, t) = refl

  forget-filled :
      (r : Written × Trace W)
      → forget (filled (recorded fs) tmp path r) ≡ filled fs tmp path (forget r)
  forget-filled (ok u, t) = forget-synced (noted t (fs.sync_all tmp t.now))
  forget-filled (err e, t) = refl

  pub forget-created :
      (r : Written × Trace W)
      → forget (created (recorded fs) tmp path contents r) ≡ created fs tmp path contents (forget r)
  forget-created (ok u, t) = forget-filled (noted t (fs.write_all tmp contents t.now))
  forget-created (err e, t) = refl
