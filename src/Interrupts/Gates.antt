-- ===== src/Interrupts/Gates.antt =====
-- kernel/arch/x86/low: the entry points that the gates lead to after set-up.
use beryllium.Base.{
  ℕ, zero, suc, ◌+◌, ◌*◌, ◌/◌, ◌%◌, ◌^◌, ◌≤◌, ◌<◌, ◌≡◌, refl, ap, ◌∙◌, true, arith, ltb, ◌==◌,
  Bool-cases, inl, inr, eq_of_==, lt→ltb,
}
use beryllium.Interrupts.Idt.{
  IdtEntry, Idt, idt_entry, idt_set_gate, set_gates, isrs_setup, irq_gates,
}

pub record Gate : Type 0 where
  pub base : ℕ
  pub sel : ℕ
  pub flags : ℕ

unfoldable pub gate : IdtEntry → Gate
gate e = record { base = e.base_lo + e.base_hi * 2 ^ 16; sel = e.sel; flags = e.flags }

-- An interrupt gate of the kernel.
abbrev pub kernel_gate : (entry : ℕ) → Gate
kernel_gate entry = record { base = entry; sel = 8; flags = 142 }

idt_entry-gate : (entry : ℕ) → entry < 2 ^ 32 → gate (idt_entry entry 8 142) ≡ kernel_gate entry
unfolding gate idt_entry
idt_entry-gate entry small =
    let b : entry % 2 ^ 16 + entry / 2 ^ 16 % 2 ^ 16 * 2 ^ 16 ≡ entry = omega (arith, small) in
    rw b refl

set_gates-other :
    (entry : ℕ → ℕ) (n num i j : ℕ) (idt : Idt)
    → num + n ≤ 256
    → (ltb j num ≡ true)
    → set_gates entry n num i idt j ≡ idt j
unfolding set_gates idt_set_gate
set_gates-other entry zero num i j idt room out = refl
set_gates-other entry (suc n) num i j idt room out =
    set_gates-other entry n (num + 1) (i + 1) j (idt_set_gate num (entry i) 8 142 idt)
      (omega (arith, room)) (ground (arith, out))
    ∙ ground (arith, out, room)

idt_set_gate-here :
    (num j entry : ℕ) (idt : Idt)
    → num < 256
    → j ≡ num
    → idt_set_gate num entry 8 142 idt j ≡ idt_entry entry 8 142
unfolding idt_set_gate
idt_set_gate-here num j entry idt byte e =
    let here : (j == num % 2 ^ 8) ≡ true = ground (arith, e, byte) in rw here refl

set_gates-above :
    (entry : ℕ → ℕ) (n num i j : ℕ) (idt : Idt)
    → num + n ≤ j
    → j < 256
    → set_gates entry n num i idt j ≡ idt j
unfolding set_gates idt_set_gate
set_gates-above entry zero num i j idt above byte = refl
set_gates-above entry (suc n) num i j idt above byte =
    set_gates-above entry n (num + 1) (i + 1) j (idt_set_gate num (entry i) 8 142 idt)
      (omega (arith, above)) byte
    ∙ ground (arith, above, byte)

-- The gate `j` is the one of the entry point `c`.
set_gates-entry :
    (entry : ℕ → ℕ) (n num i j c : ℕ) (idt : Idt)
    → num + n ≤ 256
    → num ≤ j
    → j < num + n
    → j + i ≡ num + c
    → set_gates entry n num i idt j ≡ idt_entry (entry c) 8 142
unfolding set_gates
set_gates-entry entry zero num i j c idt room le lt same = absurd (omega (arith, le, lt))
set_gates-entry entry (suc n) num i j c idt room le lt same = elim (Bool-cases (j == num)) [
  | inl e ↦
      set_gates-other entry n (num + 1) (i + 1) j (idt_set_gate num (entry i) 8 142 idt)
        (omega (arith, room)) (ground (arith, e))
      ∙ idt_set_gate-here num j (entry i) idt (omega (arith, room)) (eq_of_== j num e)
      ∙ ap (λ k. idt_entry (entry k) 8 142) (ground (arith, e, same))
  | inr e ↦
      set_gates-entry entry n (num + 1) (i + 1) j c (idt_set_gate num (entry i) 8 142 idt)
        (omega (arith, room)) (ground (arith, e, le)) (omega (arith, lt)) (omega (arith, same))
]

-- After `isrs_setup` and the gates of `irq_install`, the gate of each vector from 0 to 47 leads to its
-- own entry point, one of 32 bits, with the kernel's selector; the other gates are as they were.
pub installed-gates :
    (isr irq : ℕ → ℕ) (idt : Idt)
    → ((i : ℕ) → isr i < 2 ^ 32)
    → ((i : ℕ) → irq i < 2 ^ 32)
    → (((v : ℕ) → v < 32 → gate (irq_gates irq (isrs_setup isr idt) v) ≡ kernel_gate (isr v))
        × ((i : ℕ)
            → i < 16
            → gate (irq_gates irq (isrs_setup isr idt) (32 + i)) ≡ kernel_gate (irq i))
        × ((v : ℕ) → 48 ≤ v → v < 256 → irq_gates irq (isrs_setup isr idt) v ≡ idt v))
unfolding isrs_setup irq_gates
installed-gates isr irq idt small32 small16 = (
  λ v lt.
      ap gate (
        set_gates-other irq 16 32 0 v (isrs_setup isr idt) (omega arith) (lt→ltb v 32 lt)
        ∙ set_gates-entry isr 32 0 0 v v idt (omega arith) (omega arith) (omega (arith, lt))
            (omega arith))
      ∙ idt_entry-gate (isr v) (small32 v),
  λ i lt.
      ap gate (
        set_gates-entry irq 16 32 0 (32 + i) i (isrs_setup isr idt) (omega arith) (omega arith)
          (omega (arith, lt)) (omega arith))
      ∙ idt_entry-gate (irq i) (small16 i),
  λ v le lt.
      set_gates-above irq 16 32 0 v (isrs_setup isr idt) (omega (arith, le)) lt
      ∙ set_gates-above isr 32 0 0 v idt (omega (arith, le)) lt,
)
