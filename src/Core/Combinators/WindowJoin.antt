-- ===== src/Core/Combinators/WindowJoin.antt =====
-- tflo-core/src/combinators/join.rs: `window_join`. The callbacks are parameters.
pub mod Matches
use tflo.Prelude.{
  ℕ, zero, suc, ◌<◌, ◌≡◌, refl, sym, ap, ◌∙◌, subst, Bool, true, false, ◌&&◌, Option, none, some,
  List, [], ◌∷◌, ◌++◌, arith, if◌then◌else◌, is_some_and, length, map, retain, retain-append, last?,
  All, All-map, All-append, All-right, append-nil, append_assoc, append-singleton-append,
  Bool-cases, inl, inr,
}
use tflo.Prelude.Int.{ℤ, ◌≤ℤ◌, ◌<ℤ◌, ltb_ℤ, leb_ℤ}
use tflo.Prelude.I64.{sat_add, sat_sub, sat_sub_mono}

-- The loop that drops the items at the front of the buffer that lie before the window.
unfoldable pub evict {ℓ} : {R : Type ℓ} → ℤ → List (ℤ × R) → List (ℤ × R)
evict window_start [] = []
evict window_start (x ∷ buffer) =
    let rest = evict window_start buffer in if ltb_ℤ x.0 window_start then rest else x ∷ buffer

-- The last item of the buffer lies after the window.
abbrev pub past {ℓ} : {R : Type ℓ} → ℤ → List (ℤ × R) → Bool
past window_end buffer = is_some_and (last? buffer) (λ x. ltb_ℤ window_end x.0)

abbrev pub in_window {ℓ} : {R : Type ℓ} → ℤ → ℤ → ℤ × R → Bool
in_window window_start window_end x = leb_ℤ window_start x.0 && leb_ℤ x.0 window_end

module _ {ℓ} {L R : Type ℓ} (left_key : L → ℤ) (right_key : R → ℤ) where
  pub record WindowJoin : Type ℓ where
    pub left : List L
    pub right : List R
    pub window_ms : ℤ
    pub right_buffer : List (ℤ × R)
    pub right_exhausted : Bool

  abbrev pub window_join : List L → List R → ℤ → WindowJoin
  window_join left right window_ms = record {
    left = left;
    right = right;
    window_ms = window_ms;
    right_buffer = [];
    right_exhausted = false;
  }

  -- The loop that fills the buffer while the right stream is not exhausted.
  unfoldable pub fill : ℤ → List (ℤ × R) → List R → List (ℤ × R) × List R × Bool
  fill window_end buffer [] =
      if past window_end buffer then (buffer, [], false) else (buffer, [], true)
  fill window_end buffer (r ∷ right) =
      let more = fill window_end (buffer ++ ((right_key r, r) ∷ [])) right in
      if past window_end buffer then (buffer, r ∷ right, false) else more

  abbrev pub filled : ℤ → WindowJoin → List (ℤ × R) × List R × Bool
  filled window_end j =
      if j.right_exhausted
      then (j.right_buffer, j.right, true)
      else fill window_end j.right_buffer j.right

  unfoldable pub next_for : L → List L → WindowJoin → (L × List R) × WindowJoin
  unfolding fill evict
  next_for l left j =
      let left_ts = left_key l in
      let window_end = sat_add left_ts j.window_ms in
      let (buffer, right, exhausted) = filled window_end j in
      let window_start = sat_sub left_ts j.window_ms in
      let kept = evict window_start buffer in
      (
        (l, map (λ x. x.1) (retain (in_window window_start window_end) kept)),
        record j { left = left; right = right; right_buffer = kept; right_exhausted = exhausted },
      )

  unfoldable pub next : WindowJoin → Option (L × List R) × WindowJoin
  unfolding next_for
  next j = elim j.left [
    | [] ↦ (none, j)
    | l ∷ left ↦ let (item, j') = next_for l left j in (some item, j')
  ]
