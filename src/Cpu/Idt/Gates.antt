-- ===== src/Cpu/Idt/Gates.antt =====
-- The gates that `isr_install` leaves.
use ten_os.Cpu.Idt.{
  Gate, Idt, low_16, high_16, kernel_cs, set_idt_gate, set_gates, EntryPoints, isr_install,
}
use ten_os.Prelude.{
  ℕ, zero, suc, ◌+◌, ◌-◌, ◌*◌, ◌/◌, ◌%◌, ◌^◌, ◌<◌, ◌≡◌, ◌↔◌, ap, refl, ◌∙◌, ◌==◌, ◌&&◌, leb, ltb,
  if◌then◌else◌, arith,
}

-- The lowest privilege that may call a gate.
abbrev pub privilege : Gate → ℕ
privilege g = g.flags / 32 % 4

abbrev pub is_present : Gate → ℕ
is_present g = g.flags / 128 % 2

-- A gate of the kernel.
abbrev pub kernel_gate : ℕ → Gate
kernel_gate handler = record {
  low_offset = low_16 handler;
  sel = kernel_cs;
  always0 = 0;
  flags = 0x8E;
  high_offset = high_16 handler;
}

set_gates_lem :
    (left n c : ℕ) (handlers : ℕ → ℕ) (idt : Idt)
    → set_gates left n handlers idt c
      ≡ (if leb n c && ltb c (n + left) then kernel_gate (handlers c) else idt c)
unfolding set_gates set_idt_gate
set_gates_lem zero n c handlers idt = ground arith
set_gates_lem (suc left) n c handlers idt =
    set_gates_lem left (n + 1) c handlers (set_idt_gate n (handlers n) kernel_cs 0x8E idt)
    ∙ ground (arith, ap (λ x. kernel_gate (handlers x)) {x = n} {y = c})

installed :
    (at : EntryPoints) (base c : ℕ) (idt : Idt)
    → (isr_install at base idt).0 c ≡ (
        if 0x80 == c
        then record (kernel_gate at.syscall_handler_asm) { flags = 0xEE }
        else if leb 32 c && ltb c 48
        then kernel_gate (at.irq (c - 32))
        else if ltb c 32
        then kernel_gate (at.isr c)
        else idt c)
unfolding isr_install set_idt_gate
installed at base c idt = ground (
  arith,
  set_gates_lem 16 32 c (λ n. at.irq (n - 32)) (set_gates 32 0 at.isr idt),
  set_gates_lem 32 0 c at.isr idt,
)

-- An interrupt gate of 32 bits in the code segment of the kernel, at the selector 8, that is present
-- and may be called from a privilege on: its type is 14, and the flag "present" 2 ^ 7.
abbrev pub interrupt_gate : ℕ → ℕ → Gate
interrupt_gate handler lowest = record {
  low_offset = handler % 2 ^ 16;
  sel = 8;
  always0 = 0;
  flags = 2 ^ 7 + 2 ^ 5 * lowest + 14;
  high_offset = handler / 2 ^ 16;
}

gate-eq :
    (low sel always flags high low' high' : ℕ)
    → low ≡ low'
    → high ≡ high'
    → ◌≡◌ {A = Gate}
        (record {
          low_offset = low;
          sel = sel;
          always0 = always;
          flags = flags;
          high_offset = high;
        })
        (record {
          low_offset = low';
          sel = sel;
          always0 = always;
          flags = flags;
          high_offset = high';
        })
gate-eq low sel always flags high low' high' p q = rw (p, q) refl

kernel_gate-eq : (h : ℕ) → h < 2 ^ 32 → kernel_gate h ≡ interrupt_gate h 0
kernel_gate-eq h p = gate-eq (low_16 h) 8 0 0x8E (high_16 h) _ _ (omega arith) (omega arith)

syscall_gate-eq :
    (h : ℕ) → h < 2 ^ 32 → record (kernel_gate h) { flags = 0xEE } ≡ interrupt_gate h 3
syscall_gate-eq h p = gate-eq (low_16 h) 8 0 0xEE (high_16 h) _ _ (omega arith) (omega arith)

-- For all entry points below 4 GB and every table: after `isr_install` the gates 0 to 31 are present
-- interrupt gates of the kernel that lead to the entry points of the exceptions, 32 to 47 such gates
-- to those of the interrupts, and 0x80 one to that of system calls that every privilege may call;
-- the other gates are as before.
pub isr_install_lem :
    (at : EntryPoints) (base c : ℕ) (idt : Idt)
    → ((n : ℕ) → at.isr n < 2 ^ 32)
    → ((n : ℕ) → at.irq n < 2 ^ 32)
    → at.syscall_handler_asm < 2 ^ 32
    → (isr_install at base idt).0 c ≡ (
        if 0x80 == c
        then interrupt_gate at.syscall_handler_asm 3
        else if leb 32 c && ltb c 48
        then interrupt_gate (at.irq (c - 32)) 0
        else if ltb c 32
        then interrupt_gate (at.isr c) 0
        else idt c)
isr_install_lem at base c idt p q r =
    rw
      (
        installed at base c idt,
        syscall_gate-eq at.syscall_handler_asm r,
        kernel_gate-eq (at.irq (c - 32)) (q (c - 32)),
        kernel_gate-eq (at.isr c) (p c),
      )
      refl

-- For every table without gates: after `isr_install`, the one gate that code of the lowest privilege
-- may call is 0x80.
pub isr_install-privilege :
    (at : EntryPoints) (base c : ℕ) (idt : Idt)
    → ((n : ℕ) → is_present (idt n) ≡ 0)
    → let g = (isr_install at base idt).0 c in ((is_present g ≡ 1) × (privilege g ≡ 3)) ↔ (c ≡ 0x80)
isr_install-privilege at base c idt empty = rw (installed at base c idt) (ground (arith, empty c))
