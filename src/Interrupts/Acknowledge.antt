-- ===== src/Interrupts/Acknowledge.antt =====
-- kernel/arch/x86/low: what the interrupt controllers are told over a run of interrupts.
use beryllium.Base.{
  ℕ, ◌+◌, ◌≡◌, refl, Bool, true, false, ◌&&◌, ◌||◌, List, [], ◌∷◌, ◌++◌, arith, leb, ltb, ◌==◌,
  if◌then◌else◌,
}
use beryllium.Interrupts.Irq.{
  Effect, outb, called, panic, hlt, Handlers, irq_handler, fault_handler,
}

-- Interrupts one after the other.
unfoldable pub served : List ℕ → Handlers → List Effect
served [] hs = []
served (n ∷ ns) hs = fault_handler n hs ++ served ns hs

unfoldable pub count_of {ℓ} : {A : Type ℓ} → (A → Bool) → List A → ℕ
count_of p [] = 0
count_of p (x ∷ xs) = (if p x then 1 else 0) + count_of p xs

-- The end of an interrupt, to the controller at `port`.
unfoldable pub is_end : (port : ℕ) → Effect → Bool
is_end port (outb q value) = (q == port) && (value == 32)
is_end port (called handler int_no) = false
is_end port (panic int_no) = false
is_end port hlt = false

unfoldable pub is_hlt : Effect → Bool
is_hlt (outb q value) = false
is_hlt (called handler int_no) = false
is_hlt (panic int_no) = false
is_hlt hlt = true

count_of-append {ℓ} :
    {A : Type ℓ} (p : A → Bool) (xs ys : List A)
    → count_of p (xs ++ ys) ≡ count_of p xs + count_of p ys
unfolding count_of
count_of-append p [] ys = omega arith
count_of-append p (x ∷ xs) ys = omega (arith, count_of-append p xs ys)

-- An interrupt that is handled as one of the controllers'.
abbrev pub is_external : ℕ → Bool
is_external n = leb 32 n || (n == 14)

fault_handler-ends :
    (n : ℕ) (hs : Handlers)
    → (count_of (is_end 32) (fault_handler n hs) ≡ (if is_external n then 1 else 0))
      × (count_of (is_end 160) (fault_handler n hs) ≡ (if leb 40 n then 1 else 0))
      × (count_of is_hlt (fault_handler n hs) ≡ (if ltb n 32 then 1 else 0))
unfolding fault_handler irq_handler count_of is_end is_hlt
fault_handler-ends n hs = (ground arith, ground arith, ground arith)

-- Over a run of interrupts the first controller is told of an end exactly once for each of those from
-- 32 on and for each page fault, the second one exactly once for each from 40 on, and the machine is
-- halted once for each fault.
pub served-acknowledged :
    (ns : List ℕ) (hs : Handlers)
    → (count_of (is_end 32) (served ns hs) ≡ count_of is_external ns)
      × (count_of (is_end 160) (served ns hs) ≡ count_of (leb 40) ns)
      × (count_of is_hlt (served ns hs) ≡ count_of (λ n. ltb n 32) ns)
unfolding served count_of
served-acknowledged [] hs = (refl, refl, refl)
served-acknowledged (n ∷ ns) hs =
    let (one, two, halt) = fault_handler-ends n hs in
    let (ones, twos, halts) = served-acknowledged ns hs in
    let parts = λ (p : Effect → Bool). count_of-append p (fault_handler n hs) (served ns hs) in
    (
      omega (arith, parts (is_end 32), one, ones),
      omega (arith, parts (is_end 160), two, twos),
      omega (arith, parts is_hlt, halt, halts),
    )
