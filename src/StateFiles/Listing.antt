-- ===== src/StateFiles/Listing.antt =====
-- tflo-state-files/src/lib.rs: `list_keys`. `extension` and `file_stem` are what `std::path` documents for a
-- name in a directory; bytes that are no UTF-8 are no hex digits either.
use mathlib.Core.List.{Memᴰ, cons≢nil}
use mathlib.Core.List.Memᴰ
use mathlib.Core.Option.{some-injective}
use native.Mathlib.Decide.{ℕ_discrete}
use tflo.Prelude.{
  ℕ, ◌≡◌, ◌≢◌, inl, inr, refl, sym, ap, ◌∙◌, subst, String, Option, none, some, List, [], ◌∷◌, ◌++◌,
  map, Result, ok, err, append_assoc, append-nil, ◌↔◌,
}
use tflo.Prelude.Bytes.{Bytes, codes, same_bytes}
use tflo.StateFiles.{FileSystem, Codec, snapshot_suffix}

abbrev at_dot : {c : ℕ} → Dec (c ≡ b'.') → Bytes → Option (Bytes × Bytes)
at_dot (yes e) s = some ([], s)
at_dot (no e) s = none

abbrev before_dot : ℕ → Bytes → Option (Bytes × Bytes) → Option (Bytes × Bytes)
before_dot c s (some (stem, extension)) = some (c ∷ stem, extension)
before_dot c s none = at_dot (ℕ_discrete c b'.') s

-- A name around its last dot.
abbrev rsplit : Bytes → Option (Bytes × Bytes)
rsplit [] = none
rsplit (c ∷ s) = before_dot c s (rsplit s)

abbrev extension_of : Option (Bytes × Bytes) → Option Bytes
extension_of none = none
extension_of (some ([], extension)) = none
extension_of (some (c ∷ stem, extension)) = some extension

abbrev stem_of : Bytes → Option (Bytes × Bytes) → Bytes
stem_of name none = name
stem_of name (some ([], extension)) = name
stem_of name (some (c ∷ stem, extension)) = c ∷ stem

abbrev extension : Bytes → Option Bytes
extension name = extension_of (rsplit name)

abbrev file_stem : Bytes → Bytes
file_stem name = stem_of name (rsplit name)

module _ {S : Type 0} (codec : Codec S) where
  abbrev stem_key : {extension : Bytes} → Dec (extension ≡ codes "snapshot") → Bytes → Option Bytes
  stem_key (yes e) stem = codec.decode stem
  stem_key (no e) stem = none

  abbrev snapshot_key : Option Bytes → Bytes → Option Bytes
  snapshot_key none stem = none
  snapshot_key (some extension) stem = stem_key (same_bytes extension (codes "snapshot")) stem

  -- The key of a directory entry, when it has one.
  abbrev listed_key : Bytes → Option Bytes
  listed_key name = snapshot_key (extension name) (file_stem name)

  abbrev push : List Bytes → Option Bytes → List Bytes
  push keys none = keys
  push keys (some key) = keys ++ (key ∷ [])

  abbrev list_loop : List (Result Bytes String) → List Bytes → Result (List Bytes) String
  list_loop [] keys = ok keys
  list_loop (err e ∷ entries) keys = err "Failed to read directory entry"
  list_loop (ok name ∷ entries) keys = list_loop entries (push keys (listed_key name))

  abbrev opened : Result (List (Result Bytes String)) String → Result (List Bytes) String
  opened (ok entries) = list_loop entries []
  opened (err e) = err "Failed to read directory"

  unfoldable pub list_keys : {W : Type 0} → FileSystem W → W → Result (List Bytes) String
  list_keys fs w = opened (fs.read_dir w)

-- Splitting at the last dot is exact.
rsplit-append :
    (stem rest after : Bytes)
    → rsplit rest ≡ some ([], after)
    → rsplit (stem ++ rest) ≡ some (stem, after)
rsplit-append [] rest after e = e
rsplit-append (c ∷ stem) rest after e = rw (rsplit-append stem rest after e) refl

joined : Bytes × Bytes → Bytes
joined p = p.0 ++ (b'.' ∷ p.1)

at_dot-cases :
    (c : ℕ) (s : Bytes) (d : Dec (c ≡ b'.')) (p : Bytes × Bytes)
    → at_dot d s ≡ some p
    → c ∷ s ≡ joined p
unfolding joined
at_dot-cases c s (yes y) p e = ap (λ x. x ∷ s) y ∙ ap joined (some-injective _ _ e)
at_dot-cases c s (no n) p e = absurd (cc)

before_dot-cases :
    (c : ℕ) (s : Bytes) (r : Option (Bytes × Bytes)) (p : Bytes × Bytes)
    → ((q : Bytes × Bytes) → r ≡ some q → s ≡ joined q)
    → before_dot c s r ≡ some p
    → c ∷ s ≡ joined p
unfolding joined
before_dot-cases c s (some q) p h e = ap (λ x. c ∷ x) (h q refl) ∙ ap joined (some-injective _ _ e)
before_dot-cases c s none p h e = at_dot-cases c s (ℕ_discrete c b'.') p e

rsplit-cases : (name : Bytes) (p : Bytes × Bytes) → rsplit name ≡ some p → name ≡ joined p
rsplit-cases [] p e = absurd (cc)
rsplit-cases (c ∷ s) p e = before_dot-cases c s (rsplit s) p (λ q. rsplit-cases s q) e

module _ {S : Type 0} (codec : Codec S) where
  -- A name that is a stem with the suffix, whose stem decodes.
  abbrev pub Names : Bytes → Bytes → Type 0
  Names name key =
      (stem : Bytes) × ((stem ≢ [])
        × ((codec.decode stem ≡ some key) × (name ≡ stem ++ snapshot_suffix)))

  stem_key-Names :
      (c : ℕ) (stem after key : Bytes) (d : Dec (after ≡ codes "snapshot"))
      → stem_key codec d (c ∷ stem) ≡ some key
      → Names ((c ∷ stem) ++ (b'.' ∷ after)) key
  stem_key-Names c stem after key (yes y) e =
      (c ∷ stem, (cons≢nil, (e, ap (λ a. (c ∷ stem) ++ (b'.' ∷ a)) y)))
  stem_key-Names c stem after key (no n) e = absurd (cc)

  split-Names :
      (name key : Bytes) (r : Option (Bytes × Bytes))
      → rsplit name ≡ r
      → snapshot_key codec (extension_of r) (stem_of name r) ≡ some key
      → Names name key
  unfolding joined
  split-Names name key none h e = absurd (cc)
  split-Names name key (some ([], after)) h e = absurd (cc)
  split-Names name key (some (c ∷ stem, after)) h e =
      subst (λ n. Names n key) (sym (rsplit-cases name (c ∷ stem, after) h))
        (stem_key-Names c stem after key (same_bytes after (codes "snapshot")) e)

  listed_key-Names : (name key : Bytes) → listed_key codec name ≡ some key → Names name key
  listed_key-Names name key e = split-Names name key (rsplit name) refl e

  split-listed :
      (c : ℕ) (stem : Bytes)
      → listed_key codec ((c ∷ stem) ++ snapshot_suffix) ≡ codec.decode (c ∷ stem)
  unfolding ℕ_discrete
  split-listed c stem = rw (rsplit-append stem snapshot_suffix (codes "snapshot") refl) refl

  Names-listed_key : (name key : Bytes) → Names name key → listed_key codec name ≡ some key
  Names-listed_key name key ([], (some_stem, _)) = absurd (some_stem refl)
  Names-listed_key name key (c ∷ stem, (_, (e, named))) =
      ap (listed_key codec) named ∙ (split-listed c stem ∙ e)

  -- The keys of the names, in their order.
  abbrev keys_of : List Bytes → List Bytes
  keys_of [] = []
  keys_of (name ∷ names) = push codec [] (listed_key codec name) ++ keys_of names

  push-append : (keys : List Bytes) (o : Option Bytes) → push codec keys o ≡ keys ++ push codec [] o
  push-append keys none = sym (append-nil keys)
  push-append keys (some key) = refl

  list_loop-names :
      (names keys : List Bytes) → list_loop codec (map ok names) keys ≡ ok (keys ++ keys_of names)
  list_loop-names [] keys = ap ok (sym (append-nil keys))
  list_loop-names (name ∷ names) keys =
      let o = listed_key codec name in
      list_loop-names names (push codec keys o)
      ∙ ap (λ l. ok (l ++ keys_of names)) (push-append keys o)
      ∙ ap ok (append_assoc keys (push codec [] o) (keys_of names))

  -- Some of the names names the key.
  abbrev pub NamedIn : List Bytes → Bytes → Type 0
  NamedIn names key = (name : Bytes) × (Memᴰ name names × Names name key)

  push-Mem : (o : Option Bytes) (key : Bytes) → Memᴰ key (push codec [] o) → o ≡ some key
  push-Mem none key m = absurd (Memᴰ.not-nil m)
  push-Mem (some k) key m = elim (Memᴰ.cases_cons m) [
    | inl e ↦ ap some (sym e)
    | inr m' ↦ absurd (Memᴰ.not-nil m')
  ]

  Mem-push : (o : Option Bytes) (key : Bytes) → o ≡ some key → Memᴰ key (push codec [] o)
  Mem-push none key e = absurd (cc)
  Mem-push (some k) key e = Memᴰ.head (sym (some-injective _ _ e))

  keys_of-NamedIn :
      (names : List Bytes) (key : Bytes) → Memᴰ key (keys_of names) → NamedIn names key
  keys_of-NamedIn [] key m = absurd (Memᴰ.not-nil m)
  keys_of-NamedIn (name ∷ names) key m =
      elim (Memᴰ.append_cases (push codec [] (listed_key codec name)) m) [
        | inl here ↦ (name, (Memᴰ.head refl, listed_key-Names name key (push-Mem _ key here)))
        | inr later ↦ let (n, (m', h)) = keys_of-NamedIn names key later in (n, (Memᴰ.tail m', h))
      ]

  NamedIn-keys_of :
      (names : List Bytes) (key name : Bytes)
      → Memᴰ name names
      → Names name key
      → Memᴰ key (keys_of names)
  NamedIn-keys_of [] key name m h = absurd (Memᴰ.not-nil m)
  NamedIn-keys_of (n ∷ names) key name m h = elim (Memᴰ.cases_cons m) [
    | inl e ↦
        Memᴰ.append_left (keys_of names)
          (Mem-push _ key (ap (listed_key codec) (sym e) ∙ Names-listed_key name key h))
    | inr later ↦
        Memᴰ.append_right (push codec [] (listed_key codec n))
          (NamedIn-keys_of names key name later h)
  ]

  -- When the directory can be read, with each of its entries, `list_keys` succeeds, and it lists a key just
  -- when some entry is a stem that is not empty and decodes to the key, with the suffix of the snapshots.
  pub list_keys_lem :
      {W : Type 0} (fs : FileSystem W) (names : List Bytes) (w : W)
      → fs.read_dir w ≡ ok (map ok names)
      → (keys : List Bytes) × ((list_keys codec fs w ≡ ok keys)
          × ((key : Bytes) → Memᴰ key keys ↔ NamedIn names key))
  unfolding list_keys
  list_keys_lem fs names w e = (
    keys_of names,
    (
      ap (opened codec) e ∙ list_loop-names names [],
      λ key. (keys_of-NamedIn names key, λ (name, (m, h)). NamedIn-keys_of names key name m h),
    ),
  )
