-- ===== src/Cpu/Idt/Tests.antt =====
-- A table of gates, and the witnesses of the theorems on it.
use ten_os.Cpu.Idt.{Idt, EntryPoints, isr_install}
use ten_os.Cpu.Idt.Gates.{
  interrupt_gate, privilege, is_present, isr_install_lem, isr_install-privilege,
}
use ten_os.Prelude.{ℕ, ◌+◌, ◌-◌, ◌%◌, ◌≡◌, ◌↔◌, ◌==◌, ◌&&◌, leb, ltb, if◌then◌else◌, refl, arith}

abbrev no_gates : Idt
no_gates n = record { low_offset = 0; sel = 0; always0 = 0; flags = 0; high_offset = 0 }

abbrev at : EntryPoints
at = record {
  isr = λ n. n % 32 + 0xC0010000;
  irq = λ n. n % 16 + 0xC0020000;
  syscall_handler_asm = 0xC0030000;
}

isr_install_lem_example : (isr_install at 0xC0040000 no_gates).0 33 ≡ (
    if 0x80 == 33
    then interrupt_gate at.syscall_handler_asm 3
    else if leb 32 33 && ltb 33 48
    then interrupt_gate (at.irq (33 - 32)) 0
    else if ltb 33 32
    then interrupt_gate (at.isr 33) 0
    else no_gates 33)
isr_install_lem_example =
    isr_install_lem at 0xC0040000 33 no_gates (λ n. omega arith) (λ n. omega arith) (omega arith)

isr_install-privilege_example :
    let g = (isr_install at 0xC0040000 no_gates).0 0x80 in
    ((is_present g ≡ 1) × (privilege g ≡ 3)) ↔ (◌≡◌ {A = ℕ} 0x80 0x80)
isr_install-privilege_example = isr_install-privilege at 0xC0040000 0x80 no_gates (λ n. refl)
