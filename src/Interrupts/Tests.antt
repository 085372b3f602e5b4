-- ===== src/Interrupts/Tests.antt =====
-- kernel/arch/x86/low: descriptors, gates and runs of interrupts.
use beryllium.Base.{◌≡◌, refl, [], ◌∷◌, leb, ltb}
use beryllium.Interrupts.Gdt.{Gdt}
use beryllium.Interrupts.Idt.{Idt}
use beryllium.Interrupts.Irq.{outb, called, panic, hlt, fault_handler, irq_handler}
use beryllium.Interrupts.Acknowledge.{
  served, count_of, is_end, is_hlt, is_external, served-acknowledged,
}

abbrev empty_gdt : Gdt
empty_gdt i = record {
  limit_low = 0;
  base_low = 0;
  base_middle = 0;
  access = 0;
  granularity = 0;
  base_high = 0;
}

abbrev idt : Idt
idt i = record { base_lo = 0; sel = 0; always0 = 0; flags = 0; base_hi = 0 }

page_fault : fault_handler 14 (λ i. 7000) ≡ called 7000 14 ∷ (outb 32 32 ∷ (panic 14 ∷ (hlt ∷ [])))
unfolding fault_handler irq_handler
page_fault = refl

served-acknowledged_example :
    (count_of (is_end 32) (served (33 ∷ (14 ∷ (44 ∷ []))) (λ i. 0))
      ≡ count_of is_external (33 ∷ (14 ∷ (44 ∷ []))))
    × (count_of (is_end 160) (served (33 ∷ (14 ∷ (44 ∷ []))) (λ i. 0))
        ≡ count_of (leb 40) (33 ∷ (14 ∷ (44 ∷ []))))
    × (count_of is_hlt (served (33 ∷ (14 ∷ (44 ∷ []))) (λ i. 0))
        ≡ count_of (λ n. ltb n 32) (33 ∷ (14 ∷ (44 ∷ []))))
served-acknowledged_example = served-acknowledged (33 ∷ (14 ∷ (44 ∷ []))) (λ i. 0)
