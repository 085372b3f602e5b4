-- ===== src/Scheduler/Tests.antt =====
-- kernel/scheduler.c and kernel/thread.c: a queue of three threads.
use beryllium.Base.{
  ℕ, ◌≤◌, ◌≡◌, ◌≢◌, refl, [], ◌∷◌, ◌++◌, none, some, arith, length, ◌==◌, if◌then◌else◌,
}
use beryllium.Scheduler.{Items, Scheduler, scheduler_add_thread, last_item}
use beryllium.Scheduler.Queue.{IsQueue, scheduler_add_thread-append}
use beryllium.Scheduler.Turns.{updates, wait, IsTurn, updates-IsTurn}

abbrev items : Items
items a =
    if a == 100
    then record { next = 300; thread = 11 }
    else if a == 300
    then record { next = 200; thread = 12 }
    else record { next = 0; thread = 13 }

abbrev queue : Scheduler
queue = record { items = items; tqueue = 100; tcurrent = 200; scheduler_state = 1 }

queue-IsQueue : IsQueue queue (100 ∷ (300 ∷ (200 ∷ []))) 2
queue-IsQueue = record {
  linked = (refl, omega arith, (refl, omega arith, (refl, omega arith, refl)));
  apart = ((omega arith, (omega arith, tt)), ((omega arith, tt), (tt, tt)));
  current = refl;
}

scheduler_add_thread-append_example :
    (s' : Scheduler) × (scheduler_add_thread 3 400 14 queue ≡ some s')
    × IsQueue s' ((100 ∷ (300 ∷ (200 ∷ []))) ++ (400 ∷ [])) 2
    × ((s'.items 400).thread ≡ 14)
    × ((x : ℕ) → x ≢ 400 → (s'.items x).thread ≡ (queue.items x).thread)
scheduler_add_thread-append_example =
    scheduler_add_thread-append 3 400 14 queue (100 ∷ (300 ∷ (200 ∷ []))) 2 queue-IsQueue
      (omega arith) (omega arith, (omega arith, (omega arith, tt))) (omega arith)

updates-IsTurn_example :
    (wait (length {A = ℕ} (100 ∷ (300 ∷ (200 ∷ [])))) 2 1
      ≤ length {A = ℕ} (100 ∷ (300 ∷ (200 ∷ []))))
    × ((s' : Scheduler) × (updates (wait (length {A = ℕ} (100 ∷ (300 ∷ (200 ∷ [])))) 2 1) queue
          ≡ some s')
        × IsTurn queue s' (100 ∷ (300 ∷ (200 ∷ []))) 1)
updates-IsTurn_example =
    updates-IsTurn queue (100 ∷ (300 ∷ (200 ∷ []))) 2 1 queue-IsQueue (omega arith) (omega arith)
      (omega arith)

-- Before `scheduler_init` the queue is NULL.
no_queue : scheduler_add_thread 3 400 14 (record queue { tqueue = 0 }) ≡ none
unfolding scheduler_add_thread last_item
no_queue = refl
