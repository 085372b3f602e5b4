-- ===== src/Interrupts.antt =====
-- kernel/arch/x86/low: the descriptor tables, the handlers of interrupts, and what is sent to ports. A
-- mask of the lowest bits is written as the remainder.
pub mod Gdt
pub mod Idt
pub mod Irq
pub mod Segments
pub mod Gates
pub mod Handlers
pub mod Acknowledge
mod Tests
