-- ===== src/Scheduler/Turns.antt =====
-- kernel/scheduler.c: the order in which the items of the queue are current.
use mathlib.Core.Option.{some-injective}
use beryllium.Base.{
  ℕ, zero, suc, ◌+◌, ◌-◌, ◌≤◌, ◌<◌, ◌≡◌, ◌≢◌, refl, sym, ◌∙◌, List, [], ◌∷◌, Option, some, ◌>>=◌,
  arith, length, get_elem?, ltb, if◌then◌else◌, ne→==, Bool-cases, inl, inr, ltb→lt,
}
use beryllium.Scheduler.{Items, Scheduler, item_at, next_thread, scheduler_update}
use beryllium.Scheduler.Queue.{next_of, IsQueue}
use beryllium.Links.{Linked}

-- Calls of `scheduler_update`.
unfoldable pub updates : ℕ → Scheduler → Option Scheduler
updates zero s = some s
updates (suc n) s = do next ← scheduler_update s; updates n next

-- The link of the item at `i`, and that of the last one.
Linked-next :
    (items : Items) (a : ℕ) (qs : List ℕ) (i c b : ℕ)
    → Linked (next_of items) a qs
    → get_elem? qs i ≡ some c
    → get_elem? qs (suc i) ≡ some b
    → (c ≢ 0) × ((items c).next ≡ b) × (b ≢ 0)
Linked-next items a (q ∷ (r ∷ qs)) zero c b (e, ne, (step, there, rest)) at next =
    rw (sym (some-injective q c at), sym (some-injective r b next)) (ne, step, there)
Linked-next items a (q ∷ []) zero c b linked at next = ground (arith, next)
Linked-next items a [] i c b linked at next = ground (arith, at)
Linked-next items a (q ∷ qs) (suc i) c b (e, ne, rest) at next =
    Linked-next items (items q).next qs i c b rest at next

Linked-end :
    (items : Items) (a : ℕ) (qs : List ℕ) (i c : ℕ)
    → Linked (next_of items) a qs
    → get_elem? qs i ≡ some c
    → suc i ≡ length qs
    → (c ≢ 0) × ((items c).next ≡ 0)
Linked-end items a [] i c linked at end = ground (arith, at)
Linked-end items a (q ∷ []) zero c (e, ne, last) at end =
    rw (sym (some-injective q c at)) (ne, last)
Linked-end items a (q ∷ (r ∷ qs)) zero c linked at end = absurd (omega (arith, end))
Linked-end items a (q ∷ qs) (suc i) c (e, ne, rest) at end =
    Linked-end items (items q).next qs i c rest at (omega (arith, end))

in_range : (qs : List ℕ) (i : ℕ) → i < length qs → (b : ℕ) × (get_elem? qs i ≡ some b)
in_range [] i lt = absurd (omega (arith, lt))
in_range (q ∷ qs) zero lt = (q, refl)
in_range (q ∷ qs) (suc i) lt = in_range qs i (omega (arith, lt))

-- The next scheduler, and what it has in common with the one before.
pub record IsTurn (s s' : Scheduler) (qs : List ℕ) (i : ℕ) : Type 0 where
  pub queue : IsQueue s' qs i
  pub running : s'.scheduler_state ≢ 0
  pub items : s'.items ≡ s.items

moved-IsTurn :
    (s : Scheduler) (qs : List ℕ) (i j b : ℕ)
    → IsQueue s qs i
    → s.scheduler_state ≢ 0
    → get_elem? qs j ≡ some b
    → IsTurn s (record s { tcurrent = b }) qs j
moved-IsTurn s qs i j b ok on at = record {
  queue = record { linked = ok.linked; apart = ok.apart; current = at };
  running = on;
  items = refl;
}

first_item :
    (items : Items) (a : ℕ) (qs : List ℕ)
    → Linked (next_of items) a qs
    → 0 < length qs
    → (a ≢ 0) × (get_elem? qs 0 ≡ some a)
first_item items a [] linked lt = absurd (omega (arith, lt))
first_item items a (q ∷ qs) (e, ne, rest) lt = rw e (ne, refl)

update_next :
    (s : Scheduler) (qs : List ℕ) (i : ℕ)
    → IsQueue s qs i
    → s.scheduler_state ≢ 0
    → suc i < length qs
    → (s' : Scheduler) × (scheduler_update s ≡ some s') × IsTurn s s' qs (suc i)
unfolding scheduler_update next_thread item_at
update_next s qs i ok on lt =
    let (b, at) = in_range qs (suc i) lt in
    let (there, step, next) =
      Linked-next s.items s.tqueue qs i s.tcurrent b ok.linked ok.current at in
    let bare = ne→== b 0 next in
    (
      record s { tcurrent = b },
      rw (ne→== s.scheduler_state 0 on, ne→== s.tcurrent 0 there, step, bare) (rw bare refl),
      moved-IsTurn s qs i (suc i) b ok on at,
    )

update_wrap :
    (s : Scheduler) (qs : List ℕ) (i : ℕ)
    → IsQueue s qs i
    → s.scheduler_state ≢ 0
    → suc i ≡ length qs
    → (s' : Scheduler) × (scheduler_update s ≡ some s') × IsTurn s s' qs 0
unfolding scheduler_update next_thread item_at
update_wrap s qs i ok on end =
    let (there, last) = Linked-end s.items s.tqueue qs i s.tcurrent ok.linked ok.current end in
    let (filled, at) = first_item s.items s.tqueue qs ok.linked (omega (arith, end)) in
    (
      record s { tcurrent = s.tqueue },
      rw (ne→== s.scheduler_state 0 on, ne→== s.tcurrent 0 there, last)
          (rw (ne→== s.tqueue 0 filled) refl),
      moved-IsTurn s qs i 0 s.tqueue ok on at,
    )

updates-first :
    (s s' s'' : Scheduler) (qs : List ℕ) (i j n : ℕ)
    → scheduler_update s ≡ some s'
    → IsTurn s s' qs i
    → updates n s' ≡ some s''
    → IsTurn s' s'' qs j
    → (updates (suc n) s ≡ some s'') × IsTurn s s'' qs j
unfolding updates
updates-first s s' s'' qs i j n one turn more last = (
  rw one more,
  record { queue = last.queue; running = last.running; items = last.items ∙ turn.items },
)

updates_on :
    (n : ℕ) (s : Scheduler) (qs : List ℕ) (i : ℕ)
    → IsQueue s qs i
    → s.scheduler_state ≢ 0
    → i + n < length qs
    → (s' : Scheduler) × (updates n s ≡ some s') × IsTurn s s' qs (i + n)
unfolding updates
updates_on zero s qs i ok on lt =
    let place : i ≡ i + 0 = omega arith in
    (s, refl, record { queue = rw (sym place) ok; running = on; items = refl })
updates_on (suc n) s qs i ok on lt =
    let (s', one, turn) = update_next s qs i ok on (omega (arith, lt)) in
    let (s'', more, last) =
      updates_on n s' qs (suc i) turn.queue turn.running (omega (arith, lt)) in
    let (run, all) = updates-first s s' s'' qs (suc i) (suc i + n) n one turn more last in
    let place : suc i + n ≡ i + suc n = omega arith in (s'', run, rw (sym place) all)

updates_round :
    (n j : ℕ) (s : Scheduler) (qs : List ℕ) (i : ℕ)
    → IsQueue s qs i
    → s.scheduler_state ≢ 0
    → suc (i + n) ≡ length qs
    → j < length qs
    → (s' : Scheduler) × (updates (suc (n + j)) s ≡ some s') × IsTurn s s' qs j
updates_round zero j s qs i ok on end lt =
    let (s', one, turn) = update_wrap s qs i ok on (omega (arith, end)) in
    let (s'', more, last) = updates_on j s' qs 0 turn.queue turn.running (omega (arith, lt)) in
    let (run, all) = updates-first s s' s'' qs 0 (0 + j) j one turn more last in
    let place : 0 + j ≡ j = omega arith in (s'', rw place run, rw place at all)
updates_round (suc n) j s qs i ok on end lt =
    let (s', one, turn) = update_next s qs i ok on (omega (arith, end)) in
    let (s'', more, last) =
      updates_round n j s' qs (suc i) turn.queue turn.running (omega (arith, end)) lt in
    let (run, all) = updates-first s s' s'' qs (suc i) j (suc (n + j)) one turn more last in
    let place : suc n + j ≡ suc (n + j) = omega arith in (s'', rw place run, all)

-- The calls after which the item at `j` is current, if the one at `i` is now.
unfoldable pub wait : (size i j : ℕ) → ℕ
wait size i j = if ltb i j then j - i else size - i + j

-- With the queue running, each item of it becomes current again: after `wait` calls of
-- `scheduler_update`, of which there are at most as many as items.
pub updates-IsTurn :
    (s : Scheduler) (qs : List ℕ) (i j : ℕ)
    → IsQueue s qs i
    → s.scheduler_state ≢ 0
    → i < length qs
    → j < length qs
    → (wait (length qs) i j ≤ length qs)
      × ((s' : Scheduler) × (updates (wait (length qs) i j) s ≡ some s') × IsTurn s s' qs j)
unfolding wait
updates-IsTurn s qs i j ok on here there = elim (Bool-cases (ltb i j)) [
  | inl before ↦
      let (s', run, turn) =
        updates_on (j - i) s qs i ok on (omega (arith, there, ltb→lt i j before)) in
      let place : i + (j - i) ≡ j = omega (arith, ltb→lt i j before) in
      rw before (ground (arith, there), (s', run, rw place at turn))
  | inr behind ↦
      let (s', run, turn) =
        updates_round (length qs - suc i) j s qs i ok on (omega (arith, here)) there in
      let place : length qs - i + j ≡ suc (length qs - suc i + j) = omega (arith, here) in
      rw behind (ground (arith, here, behind), (s', rw place run, turn))
]
