-- ===== src/Cpu.antt =====
-- src/cpu.c: interrupts on the processor, and the table of interrupt handlers.
pub mod Flags
pub mod Tables
pub mod Interrupt
