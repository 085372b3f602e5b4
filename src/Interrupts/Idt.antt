-- ===== src/Interrupts/Idt.antt =====
-- kernel/arch/x86/low/idt.c and the set-up of its gates in irq.c and isr.c. The table has 256 entries and is
-- indexed by a byte.
use beryllium.Base.{ℕ, zero, suc, ◌+◌, ◌-◌, ◌*◌, ◌/◌, ◌%◌, ◌^◌, ltb, ◌==◌, if◌then◌else◌}

-- `struct idt_entry`
pub record IdtEntry : Type 0 where
  pub base_lo : ℕ
  pub sel : ℕ
  pub always0 : ℕ
  pub flags : ℕ
  pub base_hi : ℕ

abbrev pub Idt : Type 0
Idt = ℕ → IdtEntry

unfoldable pub idt_entry : (base sel flags : ℕ) → IdtEntry
idt_entry base sel flags = record {
  base_lo = base % 2 ^ 16;
  sel = sel;
  always0 = 0;
  flags = flags;
  base_hi = base / 2 ^ 16 % 2 ^ 16;
}

unfoldable pub idt_set_gate : (num base sel flags : ℕ) → Idt → Idt
idt_set_gate num base sel flags idt i = if i == num % 2 ^ 8 then idt_entry base sel flags else idt i

-- `struct idt_ptr`, what `lidt` is given.
pub record IdtPtr : Type 0 where
  pub limit : ℕ
  pub base : ℕ

-- The table is at the address `at`; `memset` clears all of it.
unfoldable pub idt_setup : (at : ℕ) → Idt → Idt × IdtPtr
idt_setup at idt = (
  λ i.
      if ltb i 256
      then record { base_lo = 0; sel = 0; always0 = 0; flags = 0; base_hi = 0 }
      else idt i,
  record { limit = 8 * 256 - 1; base = at },
)

-- The calls of `idt_set_gate` for `count` entry points one after the other. The first is for the gate
-- `num`, with the entry point `i`.
unfoldable pub set_gates : (entry : ℕ → ℕ) → (count num i : ℕ) → Idt → Idt
set_gates entry zero num i idt = idt
set_gates entry (suc n) num i idt =
    set_gates entry n (num + 1) (i + 1) (idt_set_gate num (entry i) 8 142 idt)

-- The entry points `isr0` to `isr31` are assembly.
unfoldable pub isrs_setup : (isr : ℕ → ℕ) → Idt → Idt
isrs_setup isr idt = set_gates isr 32 0 0 idt

-- The gates that `irq_install` sets, for the entry points `irq0` to `irq15`.
unfoldable pub irq_gates : (irq : ℕ → ℕ) → Idt → Idt
irq_gates irq idt = set_gates irq 16 32 0 idt
