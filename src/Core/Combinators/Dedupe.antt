-- ===== src/Core/Combinators/Dedupe.antt =====
-- tflo-core/src/combinators/dedupe.rs. The callbacks and the equality of keys are parameters; the hash
-- map from a key to the time of its last output is a function.
pub mod Remember
use tflo.Prelude.{
  ℕ, zero, suc, ◌<◌, ◌≡◌, refl, sym, ◌∙◌, ap, Bool, true, false, Option, none, some, List, [], ◌∷◌,
  arith, if◌then◌else◌, is_some_and, length, All, Bool-cases, inl, inr,
}
use tflo.Prelude.Int.{ℤ, pos, ◌≤ℤ◌, ◌<ℤ◌, ◌-ℤ◌, leb_ℤ, ltb_ℤ, -ℤ_parts}
use tflo.Prelude.I64.{sat_sub, sat_sub_mono, IsI64, i64_min, i64_max}

-- `retain` on one entry: those not before the cutoff stay.
abbrev pub keep : ℤ → Option ℤ → Option ℤ
keep cutoff none = none
keep cutoff (some last_ts) = if leb_ℤ cutoff last_ts then some last_ts else none

-- The key was seen within the window.
abbrev pub is_duplicate : ℤ → ℤ → Option ℤ → Bool
is_duplicate window_ms ts entry =
    is_some_and entry (λ last_ts. ltb_ℤ (sat_sub ts last_ts) window_ms)

module _ {ℓ} {T K : Type ℓ} (key_fn : T → K) (ts_fn : T → ℤ) (same_key : K → K → Bool) where
  pub record DedupeByKey : Type ℓ where
    pub iter : List T
    pub window_ms : ℤ
    pub seen : K → Option ℤ

  abbrev pub dedupe_by_key : List T → ℤ → DedupeByKey
  dedupe_by_key iter window_ms = record { iter = iter; window_ms = window_ms; seen = λ k. none }

  -- `insert` of the item's key with its time.
  abbrev pub insert : T → (K → Option ℤ) → K → Option ℤ
  insert item seen k = if same_key k (key_fn item) then some (ts_fn item) else seen k

  abbrev pub at : ℤ → List T → (K → Option ℤ) → DedupeByKey
  at window_ms iter seen = record { iter = iter; window_ms = window_ms; seen = seen }

  -- The loop of `next` over the items left.
  unfoldable pub next_from : ℤ → List T → (K → Option ℤ) → Option T × DedupeByKey
  next_from window_ms [] seen = (none, record { iter = []; window_ms = window_ms; seen = seen })
  next_from window_ms (item ∷ iter) seen =
      let cutoff = sat_sub (ts_fn item) window_ms in
      let cleaned = λ (k : K). keep cutoff (seen k) in
      let later = next_from window_ms iter cleaned in
      if is_duplicate window_ms (ts_fn item) (cleaned (key_fn item))
      then later
      else (some item, record { iter = iter; window_ms = window_ms; seen = insert item cleaned })

  unfoldable pub next : DedupeByKey → Option T × DedupeByKey
  unfolding next_from
  next d = next_from d.window_ms d.iter d.seen
