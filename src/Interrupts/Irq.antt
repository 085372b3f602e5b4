-- ===== src/Interrupts/Irq.antt =====
-- kernel/arch/x86/low/irq.c and `fault_handler` of isr.c. What they do to the machine is a list of effects.
use beryllium.Base.{ℕ, ◌%◌, ◌^◌, not, List, [], ◌∷◌, ◌++◌, leb, ltb, ◌==◌, if◌then◌else◌}

-- `outb`, the call of a handler with the number of the interrupt, the report of a fault, and `hlt`.
pub data Effect : Type 0 where
  outb : (port value : ℕ) → Effect
  called : (handler int_no : ℕ) → Effect
  panic : (int_no : ℕ) → Effect
  hlt : Effect

-- `interrupt_handlers`: the addresses of handlers, or 0.
abbrev pub Handlers : Type 0
Handlers = ℕ → ℕ

-- `n` is a byte.
unfoldable pub register_interrupt_handler : (n h : ℕ) → Handlers → Handlers
register_interrupt_handler n h hs i = if i == n % 2 ^ 8 then h else hs i

unfoldable pub deregister_interrupt_handler : (n : ℕ) → Handlers → Handlers
deregister_interrupt_handler n hs i = if i == n % 2 ^ 8 then 0 else hs i

unfoldable pub irq_remap : List Effect
irq_remap =
    outb 32 17
    ∷ (outb 160 17
        ∷ (outb 33 32
            ∷ (outb 161 40
                ∷ (outb 33 4
                    ∷ (outb 161 2
                        ∷ (outb 33 1 ∷ (outb 161 1 ∷ (outb 33 0 ∷ (outb 161 0 ∷ [])))))))))

unfoldable pub irq_handler : (int_no : ℕ) → Handlers → List Effect
irq_handler int_no hs =
    (if not (hs int_no == 0) then called (hs int_no) int_no ∷ [] else [])
    ++ ((if leb 40 int_no then outb 160 32 ∷ [] else []) ++ (outb 32 32 ∷ []))

unfoldable pub fault_handler : (int_no : ℕ) → Handlers → List Effect
fault_handler int_no hs =
    if ltb int_no 32
    then (if int_no == 14 then irq_handler int_no hs else []) ++ (panic int_no ∷ (hlt ∷ []))
    else irq_handler int_no hs
