-- ===== src/Timing/Register.antt =====
-- kernel/timing.c: which slot a timer gets.
use beryllium.Base.{
  ℕ, zero, suc, ◌+◌, ◌%◌, ◌^◌, ◌≤◌, ◌<◌, ◌≡◌, ◌≢◌, refl, sym, ap, ◌∙◌, ◌⊎◌, inl, inr, List, [], ◌∷◌,
  arith, ◌==◌, eq_of_==, Bool-cases, length, get_or, get_or-set_self, get_or-set_ne, length-set,
}
use beryllium.Timing.{Entry, empty_entry, slots, State, find_free, register_timer}

abbrev pub slot : List Entry → ℕ → Entry
slot es i = get_or es i empty_entry

-- A slot is in use from the tick at which its timer is due.
abbrev pub IsBusy : Entry → Type 0
IsBusy e = e.fire_tick ≢ 0

-- `j` is the first slot that is not in use, or the number of slots.
record Found (es : List Entry) (j : ℕ) : Type 0 where
  within : j ≤ length es
  before : (i : ℕ) → i < j → IsBusy (slot es i)
  free : j < length es → (slot es j).fire_tick ≡ 0

find_free_shift : (es : List Entry) (k : ℕ) → find_free es k ≡ k + find_free es 0
unfolding find_free
find_free_shift [] k = omega arith
find_free_shift (e ∷ es) k = ground (arith, find_free_shift es (k + 1), find_free_shift es 1)

Found-cons : (e : Entry) (es : List Entry) (j : ℕ) → IsBusy e → Found es j → Found (e ∷ es) (suc j)
Found-cons e es j busy found = record {
  within = omega arith;
  before = before';
  free = λ h. found.free (omega arith);
}
  where
    before' : (i : ℕ) → i < suc j → IsBusy (slot (e ∷ es) i)
    before' zero h = busy
    before' (suc i) h = found.before i (omega arith)

find_free-Found : (es : List Entry) → Found es (find_free es 0)
unfolding find_free
find_free-Found [] = record {
  within = omega arith;
  before = λ i h. absurd (omega arith);
  free = λ h. absurd (omega arith);
}
find_free-Found (e ∷ es) = elim (Bool-cases (e.fire_tick == 0)) [
  | inl hit ↦ rw hit (record {
    within = omega arith;
    before = λ i h. absurd (omega arith);
    free = λ h. eq_of_== _ _ hit;
  })
  | inr miss ↦
      rw (miss, find_free_shift es 1)
        (rw one-add (Found-cons e es (find_free es 0) (ground arith) (find_free-Found es)))
]
  where
    one-add : 1 + find_free es 0 ≡ suc (find_free es 0)
    one-add = omega arith

-- What a caller of `timing_register_timer` can see: either the table was full, and nothing changed,
-- or the first free slot now holds the timer and every other slot is as it was.
pub record Registered {E : Type 0} (name tick handler rate : ℕ) (s s' : State E) (r : ℕ)
    : Type 0 where
  pub index_in : r < slots
  pub earlier_busy : (i : ℕ) → i < r → IsBusy (slot s.handlers i)
  pub was_free : (slot s.handlers r).fire_tick ≡ 0
  pub due : (slot s'.handlers r).fire_tick ≡ (tick + s.timer.hi) % 2 ^ 32
  pub calls : (slot s'.handlers r).handler ≡ handler
  pub repeats : (slot s'.handlers r).repeat_rate ≡ rate
  pub others : (i : ℕ) → i ≢ r → slot s'.handlers i ≡ slot s.handlers i
  pub same_size : length s'.handlers ≡ slots
  pub same_timer : s'.timer ≡ s.timer
  pub same_rest : s'.rest ≡ s.rest

-- For a table of 255 slots, `timing_register_timer` either finds every slot in use, returns 0xFF and
-- changes nothing, or returns the first slot not in use, which then holds the handler, the repeat
-- rate and the tick `tick` after the present one, every other slot and all other state unchanged.
pub register_timer-first_free :
    {E : Type 0} (name tick handler rate : ℕ) (s : State E)
    → length s.handlers ≡ slots
    → let (s', r) = register_timer name tick handler rate s in
      ((r ≡ 0xFF) × (s' ≡ s) × ((i : ℕ) → i < slots → IsBusy (slot s.handlers i)))
      ⊎ Registered name tick handler rate s s' r
unfolding register_timer
register_timer-first_free name tick handler rate s full =
    let found = find_free-Found s.handlers in
    elim (Bool-cases (find_free s.handlers 0 == slots)) [
      | inl hit ↦ rw hit (inl (refl, refl, λ i h. found.before i (omega (arith, eq_of_== _ _ hit))))
      | inr miss ↦
          let below : find_free s.handlers 0 < length s.handlers = ground (arith, found.within) in
          rw miss (
            inr (record {
              index_in = omega arith;
              earlier_busy = found.before;
              was_free = found.free below;
              due =
                  ap (λ (e : Entry). e.fire_tick)
                    (get_or-set_self s.handlers _ _ empty_entry below);
              calls =
                  ap (λ (e : Entry). e.handler) (get_or-set_self s.handlers _ _ empty_entry below);
              repeats =
                  ap (λ (e : Entry). e.repeat_rate)
                    (get_or-set_self s.handlers _ _ empty_entry below);
              others = λ i ne. get_or-set_ne s.handlers _ i _ empty_entry (λ e. ne (sym e));
              same_size = length-set s.handlers _ _ ∙ full;
              same_timer = refl;
              same_rest = refl;
            }))
    ]

-- `register_timer` leaves the rest of the kernel alone.
pub register_timer-rest :
    {E : Type 0}
    → (name tick handler reschedule : ℕ) (s : State E)
    → (register_timer name tick handler reschedule s).0.rest ≡ s.rest
unfolding register_timer find_free
register_timer-rest name tick handler reschedule s =
    elim (Bool-cases (find_free s.handlers 0 == slots)) [ inl e ↦ rw e refl | inr e ↦ rw e refl ]
