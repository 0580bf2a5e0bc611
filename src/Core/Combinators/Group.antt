-- ===== src/Core/Combinators/Group.antt =====
-- tflo-core/src/combinators/group.rs: `GroupByKey`. The key function and the equality of keys are
-- parameters, and the hash map is a list of its entries with one for each key, in an order of its own.
-- A borrow that lets the caller change values takes the change as a function.
use mathlib.Core.Bool.{true≢false}
use tflo.Prelude.{
  ℕ, ◌≡◌, refl, sym, ap, ◌∙◌, ◌↔◌, Bool, true, false, Option, none, some, List, [], ◌∷◌, ◌++◌, map,
  if◌then◌else◌, length, retain, append-nil, append-singleton-append, Bool-cases, inl, inr,
}

pub record GroupByKey {ℓ} (K V : Type ℓ) : Type ℓ where
  pub key_fn : V → K
  pub groups : List (K × List V)

module _ {ℓ} {K V : Type ℓ} (same_key : K → K → Bool) where
  -- `entry(key).or_default().push(value)`
  abbrev pub add : K → V → List (K × List V) → List (K × List V)
  add key value [] = (key, value ∷ []) ∷ []
  add key value ((k, values) ∷ groups) =
      let rest = add key value groups in
      if same_key key k then (k, values ++ (value ∷ [])) ∷ groups else (k, values) ∷ rest

  -- `get` of the hash map.
  abbrev pub find : K → List (K × List V) → Option (List V)
  find key [] = none
  find key ((k, values) ∷ groups) =
      let rest = find key groups in if same_key key k then some values else rest

  -- `remove` of the hash map.
  abbrev pub take_out : K → List (K × List V) → Option (List V) × List (K × List V)
  take_out key [] = (none, [])
  take_out key ((k, values) ∷ groups) =
      let (o, rest) = take_out key groups in
      if same_key key k then (some values, groups) else (o, (k, values) ∷ rest)

  -- What a caller does to the values through `get_mut`.
  abbrev pub change : K → (List V → List V) → List (K × List V) → List (K × List V)
  change key f [] = []
  change key f ((k, values) ∷ groups) =
      let rest = change key f groups in
      if same_key key k then (k, f values) ∷ groups else (k, values) ∷ rest

  abbrev pub new : (V → K) → GroupByKey K V
  new key_fn = record { key_fn = key_fn; groups = [] }

  abbrev pub push : GroupByKey K V → V → GroupByKey K V
  push g value = record g { groups = add (g.key_fn value) value g.groups }

  abbrev pub get : GroupByKey K V → K → Option (List V)
  get g key = find key g.groups

  abbrev pub get_mut : GroupByKey K V → K → (List V → List V) → GroupByKey K V
  get_mut g key f = record g { groups = change key f g.groups }

  abbrev pub groups_mut : GroupByKey K V → (K → List V → List V) → GroupByKey K V
  groups_mut g f = record g { groups = map (λ x. (x.0, f x.0 x.1)) g.groups }

  abbrev pub key_count : GroupByKey K V → ℕ
  key_count g = length g.groups

  abbrev pub is_empty : GroupByKey K V → Bool
  is_empty g = elim g.groups [ [] ↦ true | x ∷ l ↦ false ]

  abbrev pub keys : GroupByKey K V → List K
  keys g = map (λ x. x.0) g.groups

  abbrev pub into_groups : GroupByKey K V → List (K × List V)
  into_groups g = g.groups

  abbrev pub clear : GroupByKey K V → GroupByKey K V
  clear g = record g { groups = [] }

  abbrev pub remove : GroupByKey K V → K → Option (List V) × GroupByKey K V
  remove g key = let (o, groups) = take_out key g.groups in (o, record g { groups = groups })

  abbrev pub extend : GroupByKey K V → List V → GroupByKey K V
  extend g [] = g
  extend g (value ∷ iter) = extend (push g value) iter

  abbrev pub group_by_key : List V → (V → K) → GroupByKey K V
  group_by_key iter key_fn = extend (new key_fn) iter

  -- The items of a group with more items behind them; a group exists once it has an item.
  abbrev grown : Option (List V) → List V → Option (List V)
  grown none [] = none
  grown none (v ∷ vs) = some (v ∷ vs)
  grown (some values) vs = some (values ++ vs)

  grown_nil : (o : Option (List V)) → grown o [] ≡ o
  grown_nil none = refl
  grown_nil (some values) = ap some (append-nil values)

  grown_cons :
      (o : Option (List V)) (v : V) (vs : List V) → grown (grown o (v ∷ [])) vs ≡ grown o (v ∷ vs)
  grown_cons none v vs = refl
  grown_cons (some values) v vs = ap some (append-singleton-append values v vs)

  module _ (same : (a b : K) → (same_key a b ≡ true) ↔ (a ≡ b)) where
    find-add :
        (key k : K) (value : V) (groups : List (K × List V))
        → find key (add k value groups)
          ≡ (if same_key key k then grown (find key groups) (value ∷ []) else find key groups)
    find-add key k value [] = refl
    find-add key k value ((k', values) ∷ groups) = elim (Bool-cases (same_key k k')) [
      | inl here ↦ rw here (
          rw ((same k k').0 here)
            (elim (Bool-cases (same_key key k')) [ inl y ↦ rw y refl | inr n ↦ rw n refl ]))
      | inr elsewhere ↦ elim (Bool-cases (same_key key k')) [
        | inl y ↦ elim (Bool-cases (same_key key k)) [
          | inl s ↦ absurd (
              true≢false
                (sym ((same k k').1 (sym ((same key k).0 s) ∙ (same key k').0 y)) ∙ elsewhere))
          | inr s ↦ rw elsewhere (rw y (rw s refl))
        ]
        | inr n ↦ rw elsewhere (rw n (find-add key k value groups))
      ]
    ]

    find-extend :
        (key : K) (iter : List V) (g : GroupByKey K V)
        → find key (extend g iter).groups
          ≡ grown (find key g.groups) (retain (λ v. same_key key (g.key_fn v)) iter)
    find-extend key [] g = sym (grown_nil (find key g.groups))
    find-extend key (v ∷ iter) g =
        find-extend key iter (push g v)
        ∙ ap (λ o. grown o (retain (λ v'. same_key key (g.key_fn v')) iter))
            (find-add key (g.key_fn v) v g.groups)
        ∙ elim (Bool-cases (same_key key (g.key_fn v))) [
          | inl s ↦ rw s (grown_cons (find key g.groups) v _)
          | inr s ↦ rw s refl
        ]

    -- The group of a key has the items with that key, in the order of the stream, and there is a group
    -- only where there is an item.
    group_by_key_lem :
        (key : K) (iter : List V) (key_fn : V → K)
        → get (group_by_key iter key_fn) key
          ≡ grown none (retain (λ v. same_key key (key_fn v)) iter)
    group_by_key_lem key iter key_fn = find-extend key iter (new key_fn)
