-- ===== src/Interrupts/Segments.antt =====
-- kernel/arch/x86/low/gdt.c: what the processor reads from a descriptor.
use Prim.Native.Nat.{bit_and, bit_or}
use beryllium.Base.{
  ℕ, ◌+◌, ◌*◌, ◌/◌, ◌%◌, ◌^◌, ◌<◌, ◌≡◌, ◌≢◌, refl, ap, ◌∙◌, true, some, arith, ◌==◌, if◌then◌else◌,
  eq_of_==, ne→==, lt→ltb,
}
use beryllium.Bits.{all_below, all_below-true}
use beryllium.Interrupts.Gdt.{GdtEntry, Gdt, gdt_entry, gdt_set_gate}

pub record Segment : Type 0 where
  pub base : ℕ
  pub limit : ℕ
  pub access : ℕ
  pub flags : ℕ

-- The fields of a descriptor put together: the flags are the upper four bits of the byte that has the
-- limit's upper four.
unfoldable pub segment : GdtEntry → Segment
segment e = record {
  base = e.base_low + e.base_middle * 2 ^ 16 + e.base_high * 2 ^ 24;
  limit = e.limit_low + e.granularity % 16 * 2 ^ 16;
  access = e.access;
  flags = e.granularity / 16;
}

upper_bits : (gran : ℕ) → gran < 256 → bit_and gran 240 ≡ gran / 16 * 16
unfolding all_below
upper_bits gran lt =
    eq_of_== (bit_and gran 240) (gran / 16 * 16)
      (all_below-true 256 (λ g. bit_and g 240 == g / 16 * 16) gran refl lt)

joined_bits : (low high : ℕ) → low < 16 → high < 16 → bit_or low (high * 16) ≡ low + high * 16
unfolding all_below
joined_bits low high l h = eq_of_== (bit_or low (high * 16)) (low + high * 16) (
    all_below-true 16 (λ k. bit_or low (k * 16) == low + k * 16) high
      (all_below-true 16 (λ j. all_below 16 (λ k. bit_or j (k * 16) == j + k * 16)) low refl l) h)

granularity_lem :
    (limit gran : ℕ)
    → gran < 256
    → bit_or (limit / 2 ^ 16 % 2 ^ 4) (bit_and gran 240) ≡ limit / 2 ^ 16 % 16 + gran / 16 * 16
granularity_lem limit gran lt =
    ap (bit_or (limit / 2 ^ 16 % 2 ^ 4)) (upper_bits gran lt)
    ∙ joined_bits (limit / 2 ^ 16 % 16) (gran / 16) (omega arith) (omega (arith, lt))

gdt_entry-segment :
    (base limit access gran : ℕ)
    → base < 2 ^ 32
    → gran < 256
    → segment (gdt_entry base limit access gran)
      ≡ record { base = base; limit = limit % 2 ^ 20; access = access; flags = gran / 16 }
unfolding segment gdt_entry
gdt_entry-segment base limit access gran small byte =
    let g = granularity_lem limit gran byte in
    let b : base % 2 ^ 16 + base / 2 ^ 16 % 2 ^ 8 * 2 ^ 16 + base / 2 ^ 24 % 2 ^ 8 * 2 ^ 24 ≡ base =
      omega (arith, small) in
    let l : limit % 2 ^ 16 + (limit / 2 ^ 16 % 16 + gran / 16 * 16) % 16 * 2 ^ 16 ≡ limit % 2 ^ 20 =
      omega arith in
    let f : (limit / 2 ^ 16 % 16 + gran / 16 * 16) / 16 ≡ gran / 16 = omega arith in
    rw (g, b, l, f) refl

-- After `gdt_set_gate` of one of the three descriptors, with a base of 32 bits, the processor finds in
-- it that base, the lower 20 bits of the limit, the access byte and the flags; the others are as they were.
pub gdt_set_gate-segment :
    (num base limit access gran : ℕ) (gdt : Gdt)
    → num < 3
    → base < 2 ^ 32
    → gran < 256
    → (gdt' : Gdt) × (gdt_set_gate num base limit access gran gdt ≡ some gdt')
      × (segment (gdt' num)
          ≡ record { base = base; limit = limit % 2 ^ 20; access = access; flags = gran / 16 })
      × ((i : ℕ) → i ≢ num → gdt' i ≡ gdt i)
unfolding gdt_set_gate
gdt_set_gate-segment num base limit access gran gdt inside small byte =
    let it : (num == num) ≡ true = ground arith in
    (
      λ i. if i == num then gdt_entry base limit access gran else gdt i,
      rw (lt→ltb num 3 inside) refl,
      rw it (gdt_entry-segment base limit access gran small byte),
      λ i ne. rw (ne→== i num ne) refl,
    )
