-- ===== src/Interrupts/Handlers.antt =====
-- kernel/arch/x86/low/irq.c: which handler an interrupt calls.
use beryllium.Base.{
  ℕ, ◌%◌, ◌^◌, ◌≡◌, ◌≢◌, refl, ◌∙◌, not, List, [], ◌∷◌, ◌++◌, arith, leb, ◌==◌, if◌then◌else◌,
  Bool-cases, inl, inr,
}
use beryllium.Interrupts.Irq.{
  Effect, outb, called, Handlers, register_interrupt_handler, deregister_interrupt_handler,
  irq_handler,
}

-- A call of `register_interrupt_handler` or `deregister_interrupt_handler`.
pub data Event : Type 0 where
  registered : (n h : ℕ) → Event
  deregistered : (n : ℕ) → Event

unfoldable pub step : Event → Handlers → Handlers
step (registered n h) hs = register_interrupt_handler n h hs
step (deregistered n) hs = deregister_interrupt_handler n hs

unfoldable pub run : List Event → Handlers → Handlers
run [] hs = hs
run (e ∷ es) hs = run es (step e hs)

-- The interrupt of an event, and the handler it leaves there.
unfoldable pub about : Event → ℕ
about (registered n h) = n % 2 ^ 8
about (deregistered n) = n % 2 ^ 8

unfoldable pub left : Event → ℕ
left (registered n h) = h
left (deregistered n) = 0

-- The interrupt `n` has no event in the list.
pub data NoneAbout (n : ℕ) : List Event → Type 0 where
  none_left : NoneAbout n []
  one_more : {e : Event} {es : List Event} → about e ≢ n → NoneAbout n es → NoneAbout n (e ∷ es)

step-left : (e : Event) (hs : Handlers) → step e hs (about e) ≡ left e
unfolding step about left register_interrupt_handler deregister_interrupt_handler
step-left (registered n h) hs = ground arith
step-left (deregistered n) hs = ground arith

step-other : (e : Event) (hs : Handlers) (n : ℕ) → about e ≢ n → step e hs n ≡ hs n
unfolding step about register_interrupt_handler deregister_interrupt_handler
step-other (registered k h) hs n ne = ground (arith, ne)
step-other (deregistered k) hs n ne = ground (arith, ne)

run-other : (later : List Event) (hs : Handlers) (n : ℕ) → NoneAbout n later → run later hs n ≡ hs n
unfolding run
run-other [] hs n none_left = refl
run-other (e ∷ es) hs n (one_more ne all) = run-other es (step e hs) n all ∙ step-other e hs n ne

run-left :
    (before : List Event) (e : Event) (later : List Event) (hs : Handlers)
    → NoneAbout (about e) later
    → run (before ++ (e ∷ later)) hs (about e) ≡ left e
unfolding run
run-left [] e later hs all = run-other later (step e hs) (about e) all ∙ step-left e hs
run-left (d ∷ before) e later hs all = run-left before e later (step d hs) all

-- The calls of a handler for an interrupt.
abbrev pub calls : (handler int_no : ℕ) → List Effect
calls handler int_no = if handler == 0 then [] else called handler int_no ∷ []

-- What is sent to the controllers at the end.
abbrev pub ends : (int_no : ℕ) → List Effect
ends int_no = (if leb 40 int_no then outb 160 32 ∷ [] else []) ++ (outb 32 32 ∷ [])

irq_handler-calls :
    (h n : ℕ) → (if not (h == 0) then called h n ∷ [] else []) ++ ends n ≡ calls h n ++ ends n
irq_handler-calls h n = elim (Bool-cases (h == 0)) [ inl e ↦ rw e refl | inr e ↦ rw e refl ]

-- An interrupt calls the handler of the last call of `register_interrupt_handler` for it, unless
-- `deregister_interrupt_handler` has been called for it since, and then the controllers are told.
pub irq_handler-run :
    (before : List Event) (e : Event) (later : List Event) (hs : Handlers)
    → NoneAbout (about e) later
    → irq_handler (about e) (run (before ++ (e ∷ later)) hs)
      ≡ calls (left e) (about e) ++ ends (about e)
unfolding irq_handler
irq_handler-run before e later hs all =
    rw (run-left before e later hs all) (irq_handler-calls (left e) (about e))
