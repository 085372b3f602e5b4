-- ===== src/Interrupts/Gdt.antt =====
-- kernel/arch/x86/low/gdt.c: the table of segment descriptors. `none` is an access outside of the table.
use Prim.Native.Nat.{bit_and, bit_or}
use beryllium.Base.{ℕ, ◌-◌, ◌*◌, ◌/◌, ◌%◌, ◌^◌, Option, none, some, ltb, ◌==◌, if◌then◌else◌, ◌>>=◌}

-- `struct gdt_entry`
pub record GdtEntry : Type 0 where
  pub limit_low : ℕ
  pub base_low : ℕ
  pub base_middle : ℕ
  pub access : ℕ
  pub granularity : ℕ
  pub base_high : ℕ

abbrev pub Gdt : Type 0
Gdt = ℕ → GdtEntry

unfoldable pub gdt_entry : (base limit access gran : ℕ) → GdtEntry
gdt_entry base limit access gran = record {
  limit_low = limit % 2 ^ 16;
  base_low = base % 2 ^ 16;
  base_middle = base / 2 ^ 16 % 2 ^ 8;
  access = access;
  granularity = bit_or (limit / 2 ^ 16 % 2 ^ 4) (bit_and gran 240);
  base_high = base / 2 ^ 24 % 2 ^ 8;
}

unfoldable pub gdt_set_gate : (num base limit access gran : ℕ) → Gdt → Option Gdt
gdt_set_gate num base limit access gran gdt =
    if ltb num 3
    then some (λ i. if i == num then gdt_entry base limit access gran else gdt i)
    else none

-- `struct gdt_ptr`, what `lgdt` is given.
pub record GdtPtr : Type 0 where
  pub limit : ℕ
  pub base : ℕ

-- The table is at the address `at`.
unfoldable pub gdt_setup : (at : ℕ) → Gdt → Option (Gdt × GdtPtr)
gdt_setup at gdt = do
  null ← gdt_set_gate 0 0 0 0 0 gdt
  code ← gdt_set_gate 1 0 (2 ^ 32 - 1) 154 207 null
  data' ← gdt_set_gate 2 0 (2 ^ 32 - 1) 146 207 code
  some (data', record { limit = 8 * 3 - 1; base = at })
