-- ===== src/Influx/Line/Names.antt =====
-- tflo-sink-influx/src/lib.rs: an escaped name reads back.
use mathlib.Core.Bool.{true≢false}
use tflo.Prelude.{
  ℕ, ◌≡◌, ◌≢◌, refl, sym, ap, ◌∙◌, subst, Bool, true, false, [], ◌∷◌, ◌++◌, arith, if◌then◌else◌,
  ◌==◌, Bool-cases, inl, inr,
}
use tflo.Prelude.Bytes.{Bytes}
use tflo.Influx.Line.{newline, backslash, escape_with}
use tflo.Influx.Line.Read.{read_name}

-- No newline, and no backslash at the end.
abbrev pub IsName : Bytes → Type 0
IsName [] = Unit
IsName (c ∷ []) = (c ≢ newline) × (c ≢ backslash)
IsName (c ∷ d ∷ s) = (c ≢ newline) × IsName (d ∷ s)

-- The line ends there, or a stop comes.
abbrev pub Stops : (ℕ → Bool) → Bytes → Type 0
Stops stop [] = Unit
Stops stop (c ∷ s) = stop c ≡ true

IsName-head : (c : ℕ) (s : Bytes) → IsName (c ∷ s) → (c ≢ newline) × IsName s
IsName-head c [] h = (h.0, tt)
IsName-head c (d ∷ s) h = h

-- With the backslash that may stand before it.
abbrev after : Bool → Bytes → Bytes
after hidden name = if hidden then backslash ∷ name else name

module _ (special stop : ℕ → Bool) (stops_special : (c : ℕ) → stop c ≡ true → special c ≡ true)
    (plain_backslash : special backslash ≡ false) where
  not_stop : (c : ℕ) → special c ≡ false → stop c ≡ false
  not_stop c e = ground (arith, stops_special c)

  eq_backslash : (c : ℕ) → (c == backslash) ≡ true → c ≡ backslash
  eq_backslash c e = ground arith

  not_backslash : (c : ℕ) → special c ≡ true → (c == backslash) ≡ false
  not_backslash c e = elim (Bool-cases (c == backslash)) [
    | inl y ↦ absurd (true≢false (sym e ∙ ap special (eq_backslash c y) ∙ plain_backslash))
    | inr n ↦ n
  ]

  read-special :
      (hidden : Bool) (c : ℕ) (s name rest : Bytes)
      → special c ≡ true
      → read_name special stop false s ≡ (name, rest)
      → read_name special stop hidden (backslash ∷ c ∷ s) ≡ (after hidden (c ∷ name), rest)
  read-special true c s name rest e ih = rw (plain_backslash, e, not_backslash c e, ih) refl
  read-special false c s name rest e ih =
      rw (not_stop backslash plain_backslash, e, not_backslash c e, ih) refl

  read-plain :
      (hidden b : Bool) (c : ℕ) (s name rest : Bytes)
      → special c ≡ false
      → (c == backslash) ≡ b
      → read_name special stop b s ≡ (after b name, rest)
      → read_name special stop hidden (c ∷ s) ≡ (after hidden (c ∷ name), rest)
  read-plain true true c s name rest e eb ih = rw (e, eb, ih) (rw (eq_backslash c eb) refl)
  read-plain true false c s name rest e eb ih = rw (e, eb, ih) refl
  read-plain false true c s name rest e eb ih =
      rw (not_stop c e, eb, ih) (rw (eq_backslash c eb) refl)
  read-plain false false c s name rest e eb ih = rw (not_stop c e, eb, ih) refl

  -- The name that follows is one too, after a backslash as well.
  IsName-next :
      (b : Bool) (c : ℕ) (name : Bytes)
      → IsName (c ∷ name)
      → (c == backslash) ≡ b
      → (c ≢ newline) × IsName (after b name)
  IsName-next false c name n eb = IsName-head c name n
  IsName-next true c name n eb =
      ((IsName-head c name n).0, subst (λ d. IsName (d ∷ name)) (eq_backslash c eb) n)

  IsName-after :
      (hidden b : Bool) (c : ℕ) (name : Bytes)
      → IsName (after hidden (c ∷ name))
      → (c == backslash) ≡ b
      → (c ≢ newline) × IsName (after b name)
  IsName-after true b c name n eb = IsName-next b c name n.1 eb
  IsName-after false b c name n eb = IsName-next b c name n eb

  pub read_name-escape :
      (hidden : Bool) (name rest : Bytes)
      → IsName (after hidden name)
      → Stops stop rest
      → read_name special stop hidden (escape_with special name ++ rest) ≡ (after hidden name, rest)
  read_name-escape true [] rest n s = absurd (n.1 refl)
  read_name-escape false [] [] n s = refl
  read_name-escape false [] (c ∷ rest) n s = rw s refl
  read_name-escape hidden (c ∷ name) rest n s = elim (Bool-cases (special c)) [
    | inl e ↦ rw e (
        read-special hidden c (escape_with special name ++ rest) name rest e (
          read_name-escape false name rest
            (IsName-after hidden false c name n (not_backslash c e)).1 s))
    | inr e ↦
        let (no_newline, n') = IsName-after hidden (c == backslash) c name n refl in
        let plain : (c == newline) ≡ false = ground arith in
        rw (e, plain)
          (read-plain hidden (c == backslash) c (escape_with special name ++ rest) name rest e refl
            (read_name-escape (c == backslash) name rest n' s))
  ]
