-- ===== src/Core/Combinators/WindowJoin/Matches.antt =====
-- tflo-core/src/combinators/join.rs: on sorted streams `window_join` loses no match to its buffer.
use tflo.Prelude.{
  ℕ, zero, suc, ◌≡◌, Bool, true, Option, none, some, List, [], ◌∷◌, ◌++◌, map, retain, All,
  Bool-cases, inl, inr,
}
use tflo.Prelude.Int.{ℤ, ◌≤ℤ◌, ◌<ℤ◌, ltb_ℤ}
use tflo.Prelude.I64.{sat_add, sat_sub}
use tflo.Core.Combinators.WindowJoin.{evict, in_window, WindowJoin, next}

module _ {ℓ} {R : Type ℓ} where
  -- Ascending in time.
  abbrev pub IsSorted : List (ℤ × R) → Type 0
  IsSorted [] = Unit
  IsSorted (x ∷ xs) = All (λ y. x.0 ≤ℤ y.0) xs × IsSorted xs

  evict-All :
      (P : ℤ × R → Type 0) (window_start : ℤ) (buffer ys : List (ℤ × R))
      → All P (buffer ++ ys)
      → All P (evict window_start buffer ++ ys)
  unfolding evict
  evict-All P window_start [] ys h = h
  evict-All P window_start (x ∷ buffer) ys h = elim (Bool-cases (ltb_ℤ x.0 window_start)) [
    | inl old ↦ rw old (evict-All P window_start buffer ys h.1)
    | inr young ↦ rw young h
  ]

module _ {ℓ} {L R : Type ℓ} (left_key : L → ℤ) (right_key : R → ℤ) where
  abbrev pub stamp : List R → List (ℤ × R)
  stamp = map (λ r. (right_key r, r))

  -- What the filling of the buffer makes of it.
  record Filled (window_end : ℤ) (all : List (ℤ × R)) (r : List (ℤ × R) × List R × Bool)
      : Type ℓ where
    same : r.0 ++ stamp r.1 ≡ all
    beyond : All (λ y. window_end <ℤ y.0) (stamp r.1)
    empty : r.2 ≡ true → r.1 ≡ []

  abbrev at : ℤ → List L → List (ℤ × R) → List R → Bool → WindowJoin left_key right_key
  at window_ms left buffer right exhausted = record {
    left = left;
    right = right;
    window_ms = window_ms;
    right_buffer = buffer;
    right_exhausted = exhausted;
  }

  -- The window of a left item, and the right items in it.
  abbrev pub near : ℤ → L → ℤ × R → Bool
  near window_ms l = in_window (sat_sub (left_key l) window_ms) (sat_add (left_key l) window_ms)

  abbrev pub joined : ℤ → List (ℤ × R) → L → L × List R
  joined window_ms all l = (l, map (λ x. x.1) (retain (near window_ms l) all))

  -- The left items come in ascending order of time.
  abbrev pub IsAscending : List L → Type 0
  IsAscending [] = Unit
  IsAscending (l ∷ left) = All (λ l'. left_key l ≤ℤ left_key l') left × IsAscending left

  -- What a caller has after one call of `next`, if `rest` is what it takes after that.
  abbrev take_item :
      (WindowJoin left_key right_key → List (L × List R))
      → Option (L × List R) × WindowJoin left_key right_key
      → List (L × List R)
  take_item rest (none, j) = []
  take_item rest (some item, j) = item ∷ rest j

  -- A caller that takes at most `n` items.
  unfoldable pub collect : ℕ → WindowJoin left_key right_key → List (L × List R)
  collect zero j = []
  collect (suc n) j = take_item (collect n) (next left_key right_key j)
