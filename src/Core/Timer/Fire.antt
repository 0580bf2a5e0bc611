-- ===== src/Core/Timer/Fire.antt =====
-- tflo-core/src/timer.rs: which timers fire, and in what order, over every sequence of calls.
use tflo.Prelude.{
  ℕ, ◌≤◌, ◌≡◌, refl, ◌⊎◌, inl, inr, true, false, Option, none, some, List, [], ◌∷◌, arith, retain,
  All, All-map, Bool-cases,
}
use tflo.Prelude.Int.{ℤ, ◌≤ℤ◌, ◌<ℤ◌, ltb_ℤ}
use tflo.Prelude.Heap.{push_heap, push_all}
use tflo.Core.Timer.{
  TimerEntry, cmp, TimerService, default, register, delete, tombstone, pop_from, pop_due, drain_all,
  live,
}

-- `a` fires no later than `b`: by time, ties in the order of registration.
abbrev pub NoLater : TimerEntry → TimerEntry → Type 0
NoLater a b = (a.fire_ts <ℤ b.fire_ts) ⊎ ((a.fire_ts ≡ b.fire_ts) × (a.seq ≤ b.seq))

abbrev pub From : Option TimerEntry → TimerEntry → Type 0
From none b = Unit
From (some a) b = NoLater a b

-- In the order of firing.
abbrev pub IsFireOrdered : Option TimerEntry → List TimerEntry → Type 0
IsFireOrdered lo [] = Unit
IsFireOrdered lo (e ∷ es) = From lo e × IsFireOrdered (some e) es

push_heap-IsFireOrdered :
    (lo : Option TimerEntry) (e : TimerEntry) (es : List TimerEntry)
    → From lo e
    → IsFireOrdered lo es
    → IsFireOrdered lo (push_heap cmp e es)
push_heap-IsFireOrdered lo e [] n h = (n, tt)
push_heap-IsFireOrdered lo e (y ∷ ys) n h = ground (arith, push_heap-IsFireOrdered (some y) e ys)

pub push_all-IsFireOrdered :
    (es xs : List TimerEntry) → IsFireOrdered none es → IsFireOrdered none (push_all cmp es xs)
push_all-IsFireOrdered es [] h = h
push_all-IsFireOrdered es (x ∷ xs) h =
    push_all-IsFireOrdered (push_heap cmp x es) xs (push_heap-IsFireOrdered none x es tt h)

-- The calls on the timers of one key; `advance` pops at most one timer.
pub data Call : Type 0 where
  set : ℤ → ℕ → Call
  cancel : ℤ → ℕ → Call
  advance : ℤ → Call
  drain : Call

module _ (vector_of : List TimerEntry → List TimerEntry) where
  abbrev pub call : TimerService → Call → TimerService
  call s (set ts node) = register s ts node
  call s (cancel ts node) = delete vector_of s ts node
  call s (advance w) = (pop_due s w).1
  call s drain = (drain_all s).1

  abbrev pub run : TimerService → List Call → TimerService
  run s [] = s
  run s (c ∷ cs) = run (call s c) cs

pub IsFireOrdered-weaken :
    (lo : Option TimerEntry) (x : TimerEntry) (es : List TimerEntry)
    → From lo x
    → IsFireOrdered (some x) es
    → IsFireOrdered lo es
IsFireOrdered-weaken lo x [] n h = tt
IsFireOrdered-weaken none x (y ∷ ys) n h = (tt, h.1)
IsFireOrdered-weaken (some l) x (y ∷ ys) n h = (ground arith, h.1)

pop_from-IsFireOrdered :
    (lo : Option TimerEntry) (es : List TimerEntry) (w : ℤ)
    → IsFireOrdered lo es
    → IsFireOrdered lo (pop_from es w).1
unfolding pop_from
pop_from-IsFireOrdered lo [] w h = tt
pop_from-IsFireOrdered lo (e ∷ es) w h =
    let now = IsFireOrdered-weaken lo e es h.0 h.1 in
    ground (arith, pop_from-IsFireOrdered lo es w now)

all_after :
    (x : TimerEntry) (es : List TimerEntry)
    → IsFireOrdered (some x) es
    → All (λ e. x.fire_ts ≤ℤ e.fire_ts) es
all_after x [] h = tt
all_after x (y ∷ ys) h =
    let next : x.fire_ts ≤ℤ y.fire_ts = ground arith in
    (
      next,
      All-map (λ e. y.fire_ts ≤ℤ e.fire_ts) (λ e. x.fire_ts ≤ℤ e.fire_ts) ys (λ e k. omega arith)
          (all_after y ys h.1),
    )

-- What `pop_due` says of the timers before and after it.
abbrev pub Popped : ℤ → List TimerEntry → Option TimerEntry × List TimerEntry → Type 0
Popped w before (none, after) =
    (retain live after ≡ retain live before) × All (λ e. w <ℤ e.fire_ts) after
Popped w before (some e, after) =
    (retain live before ≡ e ∷ retain live after)
    × (live e ≡ true)
    × (e.fire_ts ≤ℤ w)
    × IsFireOrdered (some e) after

Popped-skip :
    (w : ℤ) (e : TimerEntry) (es : List TimerEntry) (r : Option TimerEntry × List TimerEntry)
    → live e ≡ false
    → Popped w es r
    → Popped w (e ∷ es) r
Popped-skip w e es (none, after) gone h = (rw gone h.0, h.1)
Popped-skip w e es (some x, after) gone h = (rw gone h.0, h.1, h.2, h.3)

pub pop_from-Popped :
    (lo : Option TimerEntry) (es : List TimerEntry) (w : ℤ)
    → IsFireOrdered lo es
    → Popped w es (pop_from es w)
unfolding pop_from
pop_from-Popped lo [] w h = (refl, tt)
pop_from-Popped lo (e ∷ es) w h = elim (Bool-cases (ltb_ℤ w e.fire_ts)) [
  | inl early ↦
      rw early (refl, (ground arith, All-map _ _ es (λ x k. ground arith) (all_after e es h.1)))
  | inr due ↦ elim (Bool-cases (live e)) [
    | inr gone ↦
        let now = IsFireOrdered-weaken lo e es h.0 h.1 in
        rw (due, gone) (Popped-skip w e es (pop_from es w) gone (pop_from-Popped lo es w now))
    | inl alive ↦ rw (due, alive) (rw alive refl, ground (arith, alive), ground arith, h.1)
  ]
]

call-IsFireOrdered :
    (vector_of : List TimerEntry → List TimerEntry) (s : TimerService) (c : Call)
    → IsFireOrdered none s.heap
    → IsFireOrdered none (call vector_of s c).heap
call-IsFireOrdered v s (set ts node) h = push_heap-IsFireOrdered none _ s.heap tt h
call-IsFireOrdered v s (cancel ts node) h =
    push_all-IsFireOrdered [] (tombstone ts node (v s.heap)) tt
call-IsFireOrdered v s (advance w) h = pop_from-IsFireOrdered none s.heap w h
call-IsFireOrdered v s drain h = tt

pub run-IsFireOrdered :
    (vector_of : List TimerEntry → List TimerEntry) (s : TimerService) (cs : List Call)
    → IsFireOrdered none s.heap
    → IsFireOrdered none (run vector_of s cs).heap
run-IsFireOrdered v s [] h = h
run-IsFireOrdered v s (c ∷ cs) h = run-IsFireOrdered v (call v s c) cs (call-IsFireOrdered v s c h)

-- After any calls on new timers, `pop_due` returns a timer that is due, is not cancelled, and fires no
-- later than any that is left, and takes that one alone of those not cancelled; or it returns none,
-- takes none of those, and leaves only timers past the watermark.
pub pop_due_exact :
    (vector_of : List TimerEntry → List TimerEntry) (cs : List Call) (w : ℤ)
    → let s = run vector_of default cs in let (e, s') = pop_due s w in Popped w s.heap (e, s'.heap)
pop_due_exact v cs w =
    let s = run v default cs in pop_from-Popped none s.heap w (run-IsFireOrdered v default cs tt)
