-- ===== src/Scheduler/Queue.antt =====
-- kernel/scheduler.c: the items that are linked from `tqueue` on as a list.
use beryllium.Base.{
  ℕ, zero, suc, ◌≤◌, ◌<◌, ◌≡◌, ◌≢◌, refl, true, false, List, [], ◌∷◌, ◌++◌, some, arith, length,
  get_elem?, ◌==◌, ne→==,
}
use beryllium.Links.{
  Linked, Fresh, Apart, last_of, last_of-Fresh, Apart-append, Linked-outside, Linked-append,
}
use beryllium.Timing.{State}
use beryllium.Timing.Register.{register_timer-rest}
use beryllium.Scheduler.{
  Item, Items, Scheduler, write, last_item, scheduler_add_thread, scheduler_init,
}

abbrev pub next_of : Items → ℕ → ℕ
next_of items a = (items a).next

-- The queue has the items `qs`, of which the one at `i` is current.
pub record IsQueue (s : Scheduler) (qs : List ℕ) (i : ℕ) : Type 0 where
  pub linked : Linked (next_of s.items) s.tqueue qs
  pub apart : Apart qs
  pub current : get_elem? qs i ≡ some s.tcurrent

last_item-last_of :
    (rounds a : ℕ) (items : Items) (bs : List ℕ)
    → length bs < rounds
    → Linked (next_of items) a (a ∷ bs)
    → last_item rounds a items ≡ some (last_of a bs)
unfolding last_item
last_item-last_of zero a items bs lt linked = absurd (omega (arith, lt))
last_item-last_of (suc n) a items [] lt (e, ne, end) =
    let here = ne→== a 0 ne in
    let last : ((items a).next == 0) ≡ true = ground (arith, end) in rw (here, last) refl
last_item-last_of (suc n) a items (b ∷ bs) lt (e, ne, (step, there, rest)) =
    let here = ne→== a 0 ne in
    let more : ((items a).next == 0) ≡ false = ground (arith, step, there) in
    rw (here, more, step) (last_item-last_of n b items bs (omega (arith, lt)) (refl, there, rest))

get_elem?-append :
    (qs rest : List ℕ) (i a : ℕ) → get_elem? qs i ≡ some a → get_elem? (qs ++ rest) i ≡ some a
get_elem?-append [] rest i a e = ground (arith, e)
get_elem?-append (b ∷ qs) rest zero a e = e
get_elem?-append (b ∷ qs) rest (suc i) a e = get_elem?-append qs rest i a e

write_other :
    (item x : ℕ) (v : Item) (items : Items)
    → x ≢ item
    → next_of (write item v items) x ≡ next_of items x
unfolding write
write_other item x v items ne = ground (arith, ne)

-- The new item is written and linked behind the last one.
abbrev linked_behind : (last item : ℕ) → Item → Items → Items
linked_behind last item v items =
    write last (record (write item v items last) { next = item }) (write item v items)

behind_last :
    (items : Items) (item last : ℕ) (v : Item)
    → next_of (linked_behind last item v items) last ≡ item
unfolding write
behind_last items item last v = ground arith

behind_item :
    (items : Items) (item last thread : ℕ)
    → item ≢ last
    → next_of (linked_behind last item (record { next = 0; thread = thread }) items) item ≡ 0
unfolding write
behind_item items item last thread far = ground (arith, far)

behind_other :
    (items : Items) (item last x : ℕ) (v : Item)
    → x ≢ item
    → x ≢ last
    → next_of (linked_behind last item v items) x ≡ next_of items x
unfolding write
behind_other items item last x v ne far = ground (arith, ne, far)

new_item :
    (items : Items) (item thread : ℕ)
    → (write item (record { next = 0; thread = thread }) items item).next ≡ 0
unfolding write
new_item items item thread = ground arith

new_thread :
    (items : Items) (item last thread : ℕ)
    → item ≢ last
    → (write last
        (record (write item (record { next = 0; thread = thread }) items last) { next = item })
        (write item (record { next = 0; thread = thread }) items)
        item).thread
      ≡ thread
unfolding write
new_thread items item last thread far = ground (arith, far)

threads_lem :
    (items : Items) (item last thread x : ℕ)
    → x ≢ item
    → item ≢ last
    → (write last
        (record (write item (record { next = 0; thread = thread }) items last) { next = item })
        (write item (record { next = 0; thread = thread }) items)
        x).thread
      ≡ (items x).thread
unfolding write
threads_lem items item last thread x ne far = ground (arith, ne, far)

-- `scheduler_add_thread` with a new item puts it behind the others, and the current one stays; the
-- loop needs as many rounds as there are items.
pub scheduler_add_thread-append :
    (rounds item thread : ℕ) (s : Scheduler) (qs : List ℕ) (i : ℕ)
    → IsQueue s qs i
    → item ≢ 0
    → Fresh item qs
    → length qs ≤ rounds
    → (s' : Scheduler) × (scheduler_add_thread rounds item thread s ≡ some s')
      × IsQueue s' (qs ++ (item ∷ [])) i
      × ((s'.items item).thread ≡ thread)
      × ((x : ℕ) → x ≢ item → (s'.items x).thread ≡ (s.items x).thread)
unfolding scheduler_add_thread
scheduler_add_thread-append rounds item thread s [] i ok filled fresh enough =
    ground (arith, ok.current)
scheduler_add_thread-append rounds item thread s (q ∷ qs) i ok filled fresh enough =
    let v : Item = record { next = 0; thread = thread } in
    let items = write item v s.items in
    let e = ok.linked.0 in
    let linked : Linked (next_of s.items) q (q ∷ qs) = (refl, ok.linked.1, ok.linked.2) in
    let kept : Linked (next_of items) q (q ∷ qs) =
      Linked-outside (next_of s.items) (next_of items) item q (q ∷ qs)
        (λ x ne. write_other item x v s.items ne) fresh linked in
    let found = last_item-last_of rounds q items qs enough kept in
    (
      record s {
        items = write (last_of q qs) (record (items (last_of q qs)) { next = item }) items;
        scheduler_state = 1;
      },
      rw (e, found) refl,
      record {
        linked = rw e (
            Linked-append (next_of s.items) (next_of (linked_behind (last_of q qs) item v s.items))
              item q qs filled (behind_last s.items item (last_of q qs) v)
              (behind_item s.items item (last_of q qs) thread (last_of-Fresh item q qs fresh))
              (λ x ne far. behind_other s.items item (last_of q qs) x v ne far) ok.apart fresh
              linked);
        apart = Apart-append item (q ∷ qs) ok.apart fresh;
        current = get_elem?-append (q ∷ qs) (item ∷ []) i s.tcurrent ok.current;
      },
      new_thread s.items item (last_of q qs) thread (last_of-Fresh item q qs fresh),
      λ x ne. threads_lem s.items item (last_of q qs) thread x ne (last_of-Fresh item q qs fresh),
    )

-- `scheduler_init` makes the queue of the first thread alone.
pub scheduler_init-IsQueue :
    (item first_thread name update : ℕ) (s : State Scheduler)
    → item ≢ 0
    → IsQueue (scheduler_init item first_thread name update s).rest (item ∷ []) 0
unfolding scheduler_init write
scheduler_init-IsQueue item first_thread name update s filled =
    let first : Scheduler = record s.rest {
      items = write item (record { next = 0; thread = first_thread }) s.rest.items;
      tqueue = item;
      tcurrent = item;
    } in
    rw (register_timer-rest name 5 update 5 (record s { rest = first })) (record {
      linked = (refl, filled, new_item s.rest.items item first_thread);
      apart = (tt, tt);
      current = refl;
    })
