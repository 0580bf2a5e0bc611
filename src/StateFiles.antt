-- ===== src/StateFiles.antt =====
-- tflo-state-files/src/lib.rs: `FileStateStore`. Paths are names in the base directory, as bytes. The file
-- system, the clock, the hex and the JSON encodings are interfaces; `W` is what the file system holds, and
-- a call that may change it takes it and returns it. An error's text is its prefix; `spawn_blocking` adds
-- no other outcome, and a path in the directory has a parent.
pub mod Files
pub mod Atomic
pub mod Held
pub mod Laws
pub mod Store
pub mod Listing
pub mod Samples
mod Tests
use tflo.Prelude.{
  ℕ, String, Bool, true, false, ◌&&◌, not, Option, none, some, List, [], ◌∷◌, ◌++◌, if◌then◌else◌,
  ◌==◌, Result, ok, err,
}
use tflo.Prelude.Bytes.{Bytes, codes, digits}
use tflo.Core.State.{Written, AsyncStateStore}

pub record FileSystem (W : Type 0) : Type 0 where
  pub create_dir_all : W → Written × W
  pub create : Bytes → W → Written × W
  pub write_all : Bytes → Bytes → W → Written × W
  pub sync_all : Bytes → W → Written × W
  pub rename : Bytes → Bytes → W → Written × W
  pub remove_file : Bytes → W → Written × W
  pub exists : Bytes → W → Bool
  pub read : Bytes → W → Result Bytes String
  pub read_dir : W → Result (List (Result Bytes String)) String
  pub nanos : W → Option ℕ

-- `hex` and `serde_json`.
pub record Codec (S : Type 0) : Type 0 where
  pub encode : Bytes → Bytes
  pub decode : Bytes → Option Bytes
  pub to_vec : S → Result Bytes String
  pub from_slice : Bytes → Result S String

abbrev pub tmp_prefix : Bytes
tmp_prefix = codes ".tflo-state-tmp."

abbrev pub snapshot_suffix : Bytes
snapshot_suffix = codes ".snapshot"

abbrev pub or_zero : Option ℕ → ℕ
or_zero none = 0
or_zero (some n) = n

-- The name of the temporary file.
unfoldable pub tmp_name : ℕ → Option ℕ → Bytes
tmp_name process_id nanos = tmp_prefix ++ (digits process_id ++ (b'.' ∷ digits (or_zero nanos)))

module _ {W : Type 0} (fs : FileSystem W) where
  abbrev pub made : Written × W → Written × W
  made (ok u, w) = (ok tt, w)
  made (err e, w) = (err "Failed to create directory", w)

  abbrev pub new : W → Written × W
  new w = made (fs.create_dir_all w)

  -- An error after which the temporary file is removed, whatever comes of that.
  abbrev pub failed : Bytes → String → W → Written × W
  failed tmp message w = (err message, (fs.remove_file tmp w).1)

  abbrev pub renamed : Bytes → Written × W → Written × W
  renamed tmp (ok u, w) = (ok tt, w)
  renamed tmp (err e, w) = failed tmp "Failed to rename" w

  abbrev pub synced : Bytes → Bytes → Written × W → Written × W
  synced tmp path (ok u, w) = renamed tmp (fs.rename tmp path w)
  synced tmp path (err e, w) = failed tmp "Failed to fsync temp file" w

  abbrev pub filled : Bytes → Bytes → Written × W → Written × W
  filled tmp path (ok u, w) = synced tmp path (fs.sync_all tmp w)
  filled tmp path (err e, w) = failed tmp "Failed to write temp file" w

  abbrev pub created : Bytes → Bytes → Bytes → Written × W → Written × W
  created tmp path contents (ok u, w) = filled tmp path (fs.write_all tmp contents w)
  created tmp path contents (err e, w) = (err "Failed to create temp file", w)

  unfoldable pub atomic_write_helper : ℕ → Bytes → Bytes → W → Written × W
  unfolding tmp_name
  atomic_write_helper process_id path contents w =
      let tmp = tmp_name process_id (fs.nanos w) in created tmp path contents (fs.create tmp w)

module _ {S : Type 0} (codec : Codec S) where
  abbrev pub key_to_path : Bytes → Bytes
  key_to_path key = codec.encode key ++ snapshot_suffix

  module _ {W : Type 0} (fs : FileSystem W) (process_id : ℕ) where
    abbrev pub save_bytes : Bytes → Result Bytes String → W → Written × W
    save_bytes key (err e) w = (err "Failed to serialize snapshot", w)
    save_bytes key (ok contents) w = atomic_write_helper fs process_id (key_to_path key) contents w

    abbrev pub save : Bytes → S → W → Written × W
    save key snapshot w = save_bytes key (codec.to_vec snapshot) w

    abbrev pub parsed : Result S String → Result (Option S) String
    parsed (ok snapshot) = ok (some snapshot)
    parsed (err e) = err "Failed to deserialize snapshot"

    abbrev pub loaded : Result Bytes String → Result (Option S) String
    loaded (ok contents) = parsed (codec.from_slice contents)
    loaded (err e) = err "Failed to read snapshot"

    unfoldable pub load : Bytes → W → Result (Option S) String × W
    load key w =
        if not (fs.exists (key_to_path key) w)
        then (ok none, w)
        else (loaded (fs.read (key_to_path key) w), w)

    abbrev pub removed : Written × W → Written × W
    removed (ok u, w) = (ok tt, w)
    removed (err e, w) = (err "Failed to remove snapshot", w)

    unfoldable pub delete : Bytes → W → Written × W
    delete key w =
        if fs.exists (key_to_path key) w
        then removed (fs.remove_file (key_to_path key) w)
        else (ok tt, w)

    -- The store, as the checkpointer and the deduplicator take it.
    abbrev pub file_store : AsyncStateStore W Bytes S
    file_store = record { save = save; load = load }
