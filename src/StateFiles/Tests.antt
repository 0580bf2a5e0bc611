-- ===== src/StateFiles/Tests.antt =====
-- A disk of two views, and runs of the store over it.
use mathlib.Core.List.{Memᴰ}
use native.Mathlib.Decide.{ℕ_discrete}
use tflo.Prelude.{
  length, ◌≡◌, ◌≢◌, inr, refl, String, true, false, Option, none, some, List, [], ◌∷◌, ◌++◌, Result,
  ok, err, All, is_some_and, map, ◌↔◌, ap, ◌∙◌,
}
use tflo.Prelude.Bytes.{Bytes, codes, same_bytes, digits}
use tflo.Core.State.{Written}
use tflo.StateFiles.{FileSystem, atomic_write_helper, key_to_path, save, load}
use tflo.StateFiles.Files.{View, seen, durable, FileLaws}
use tflo.StateFiles.Atomic.{Trace, forget}
use tflo.StateFiles.Samples.{set, set-same, set-other, codec, codec_laws}
use tflo.StateFiles.Laws.{KeyPut, recorded_save, save_is_atomic}
use tflo.StateFiles.Store.{Answers, file_store-Answers}
use tflo.StateFiles.Listing.{list_keys, NamedIn, list_keys_lem}

-- What each view holds, and the names in the directory.
record Disk : Type 0 where
  files : View → Bytes → Option Bytes
  names : List Bytes

abbrev put : View → Bytes → Option Bytes → Disk → Disk
put seen n new w = record w {
  files = λ v n'. elim v [
    | seen ↦ set (same_bytes n n') new (w.files seen n')
    | durable ↦ w.files durable n'
  ];
}
put durable n new w = record w {
  files = λ v n'. elim v [
    | seen ↦ w.files seen n'
    | durable ↦ set (same_bytes n n') new (w.files durable n')
  ];
}

abbrev both : Bytes → Option Bytes → Option Bytes → Disk → Disk
both n new kept w = put durable n kept (put seen n new w)

abbrev joined : Option Bytes → Bytes → Option Bytes
joined none contents = none
joined (some old) contents = some (old ++ contents)

abbrev answered : Option Bytes → Result Bytes String
answered none = err "not found"
answered (some contents) = ok contents

abbrev disk : FileSystem Disk
disk = record {
  create_dir_all = λ w. (ok tt, w);
  create = λ n w. (ok tt, put seen n (some []) w);
  write_all = λ n contents w. (ok tt, put seen n (joined (w.files seen n) contents) w);
  sync_all = λ n w. (ok tt, put durable n (w.files seen n) w);
  rename = λ n m w. (ok tt, both m (w.files seen n) (w.files durable n) (both n none none w));
  remove_file = λ n w. (ok tt, both n none none w);
  exists = λ n w. is_some_and (w.files seen n) (λ contents. true);
  read = λ n w. answered (w.files seen n);
  read_dir = λ w. ok (map ok w.names);
  nanos = λ w. some 7;
}

abbrev held : View → Disk → Bytes → Option Bytes
held v w n = w.files v n

put-other :
    (u v : View) (n n' : Bytes) (new : Option Bytes) (w : Disk)
    → n' ≢ n
    → held v (put u n new w) n' ≡ held v w n'
put-other seen seen n n' new w h = set-other (same_bytes n n') _ _ h
put-other seen durable n n' new w h = refl
put-other durable seen n n' new w h = refl
put-other durable durable n n' new w h = set-other (same_bytes n n') _ _ h

put-same : (v : View) (n : Bytes) (new : Option Bytes) (w : Disk) → held v (put v n new w) n ≡ new
put-same seen n new w = set-same n (same_bytes n n) _ _
put-same durable n new w = set-same n (same_bytes n n) _ _

both-other :
    (v : View) (n n' : Bytes) (a b : Option Bytes) (w : Disk)
    → n' ≢ n
    → held v (both n a b w) n' ≡ held v w n'
both-other v n n' a b w h =
    put-other durable v n n' b (put seen n a w) h ∙ put-other seen v n n' a w h

rename-whole : (v : View) (n m : Bytes) (w : Disk) → held v (disk.rename n m w).1 m ≡ held v w n
rename-whole seen n m w = put-same seen m (held seen w n) (both n none none w)
rename-whole durable n m w =
    put-same durable m (held durable w n) (put seen m (held seen w n) (both n none none w))

answered-ok : (o : Option Bytes) (contents : Bytes) → answered o ≡ ok contents → o ≡ some contents
answered-ok none contents e = absurd (cc)
answered-ok (some c) contents e = cc

disk_laws : FileLaws disk held
disk_laws = record {
  create_others = λ v n n' w h. put-other seen v n n' _ w h;
  create_ok = λ n w done. put-same seen n _ w;
  write_others = λ v n n' contents w h. put-other seen v n n' _ w h;
  write_ok = λ n contents old w e done. put-same seen n _ w ∙ ap (λ o. joined o contents) e;
  sync_others = λ v n n' w h. put-other durable v n n' _ w h;
  sync_seen = λ n w. refl;
  sync_ok = λ n w done. put-same durable n _ w;
  rename_others = λ v n m n' w h k.
      both-other v m n' _ _ (both n none none w) k ∙ both-other v n n' none none w h;
  rename_whole = λ v n m w. inr (rename-whole v n m w);
  rename_ok = λ n m w done. rename-whole seen n m w;
  remove_others = λ v n n' w h. both-other v n n' none none w h;
  remove_ok = λ n w done. put-same seen n none w;
  read_ok = λ n contents w e. answered-ok (held seen w n) contents e;
}

abbrev start : Disk
start = record {
  files = λ v n. none;
  names = codes "12.snapshot" ∷ codes ".tflo-state-tmp.1.7" ∷ [];
}

save_then_load :
    (load codec disk 1 (1 ∷ 2 ∷ []) (save codec disk 1 (1 ∷ 2 ∷ []) (5 ∷ []) start).1).0
    ≡ ok (some (5 ∷ []))
unfolding load atomic_write_helper digits ℕ_discrete
save_then_load = refl

abbrev noted_save : Written × Trace Disk
noted_save = recorded_save codec codec_laws disk held disk_laws 1 (3 ∷ []) (9 ∷ []) start

-- The file that is saved, and four points: created, written, synced and renamed.
save_is_atomic_example :
    All
      (λ w'. KeyPut codec codec_laws disk held disk_laws 1 (3 ∷ []) (3 ∷ []) (9 ∷ []) start w')
      noted_save.1.points
    × (KeyPut codec codec_laws disk held disk_laws 1
          (3 ∷ [])
          (3 ∷ [])
          (9 ∷ [])
          start
          noted_save.1.now
        × (forget noted_save
            ≡ atomic_write_helper disk 1 (key_to_path codec (3 ∷ [])) (9 ∷ []) start))
save_is_atomic_example =
    save_is_atomic codec codec_laws disk held disk_laws 1 (3 ∷ []) (3 ∷ []) (9 ∷ []) start

four_points : length noted_save.1.points ≡ 4
unfolding atomic_write_helper
four_points = refl

file_store-Answers_example :
    Answers codec codec_laws disk held disk_laws 1 (1 ∷ 2 ∷ []) (3 ∷ []) (5 ∷ []) start
file_store-Answers_example =
    file_store-Answers codec codec_laws disk held disk_laws 1 (1 ∷ 2 ∷ []) (3 ∷ []) (5 ∷ []) start

-- A key that is stored, in a directory where no metadata can be read.
abbrev blind : FileSystem Disk
blind = record disk { exists = λ n w. false }

unreadable_load :
    (load codec blind 1 (1 ∷ []) (save codec blind 1 (1 ∷ []) (5 ∷ []) start).1).0 ≡ ok none
unfolding load
unreadable_load = refl

list_keys_lem_example :
    (keys : List Bytes) × ((list_keys codec disk start ≡ ok keys)
      × ((key : Bytes) → Memᴰ key keys ↔ NamedIn codec start.names key))
list_keys_lem_example = list_keys_lem codec disk start.names start refl

-- The temporary file is not listed.
list_keys_run : list_keys codec disk start ≡ ok ((1 ∷ 2 ∷ []) ∷ [])
unfolding list_keys ℕ_discrete
list_keys_run = refl
