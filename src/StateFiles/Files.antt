-- ===== src/StateFiles/Files.antt =====
-- The laws of a file system: what the calls of `std::fs` document. A file is seen by the program at once, and
-- is durable when a crash cannot take it back.
use tflo.Prelude.{◌≡◌, ◌≢◌, ◌⊎◌, Option, none, some, [], ◌++◌, ok}
use tflo.Prelude.Bytes.{Bytes}
use tflo.StateFiles.{FileSystem}

pub data View : Type 0 where
  seen durable : View

-- `at` is what a file holds in a view. A call changes the files that it names and no other; a write that
-- fails may leave anything in its file; a rename puts the whole file there or leaves the old one. There is no law of
-- `exists`: it is also false of a file whose metadata cannot be read.
pub record FileLaws {W : Type 0} (fs : FileSystem W) (at : View → W → Bytes → Option Bytes)
    : Type 0 where
  pub create_others :
      (v : View) (n n' : Bytes) (w : W) → n' ≢ n → at v (fs.create n w).1 n' ≡ at v w n'
  pub create_ok :
      (n : Bytes) (w : W) → (fs.create n w).0 ≡ ok tt → at seen (fs.create n w).1 n ≡ some []
  pub write_others :
      (v : View) (n n' contents : Bytes) (w : W)
      → n' ≢ n
      → at v (fs.write_all n contents w).1 n' ≡ at v w n'
  pub write_ok :
      (n contents old : Bytes) (w : W)
      → at seen w n ≡ some old
      → (fs.write_all n contents w).0 ≡ ok tt
      → at seen (fs.write_all n contents w).1 n ≡ some (old ++ contents)
  pub sync_others :
      (v : View) (n n' : Bytes) (w : W) → n' ≢ n → at v (fs.sync_all n w).1 n' ≡ at v w n'
  pub sync_seen : (n : Bytes) (w : W) → at seen (fs.sync_all n w).1 n ≡ at seen w n
  pub sync_ok :
      (n : Bytes) (w : W)
      → (fs.sync_all n w).0 ≡ ok tt
      → at durable (fs.sync_all n w).1 n ≡ at seen w n
  pub rename_others :
      (v : View) (n m n' : Bytes) (w : W)
      → n' ≢ n
      → n' ≢ m
      → at v (fs.rename n m w).1 n' ≡ at v w n'
  pub rename_whole :
      (v : View) (n m : Bytes) (w : W)
      → (at v (fs.rename n m w).1 m ≡ at v w m) ⊎ (at v (fs.rename n m w).1 m ≡ at v w n)
  pub rename_ok :
      (n m : Bytes) (w : W)
      → (fs.rename n m w).0 ≡ ok tt
      → at seen (fs.rename n m w).1 m ≡ at seen w n
  pub remove_others :
      (v : View) (n n' : Bytes) (w : W) → n' ≢ n → at v (fs.remove_file n w).1 n' ≡ at v w n'
  pub remove_ok :
      (n : Bytes) (w : W) → (fs.remove_file n w).0 ≡ ok tt → at seen (fs.remove_file n w).1 n ≡ none
  pub read_ok :
      (n contents : Bytes) (w : W) → fs.read n w ≡ ok contents → at seen w n ≡ some contents
