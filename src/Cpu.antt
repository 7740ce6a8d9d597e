-- ===== src/Cpu.antt =====
-- cpu/: descriptor tables, interrupts and system calls.
pub mod Idt
pub mod Gdt
pub mod Isr
pub mod Console
pub mod Command
pub mod Syscall
