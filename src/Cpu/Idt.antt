-- ===== src/Cpu/Idt.antt =====
-- cpu/idt.c and isr_install of cpu/isr.c: the interrupt descriptor table.
pub mod Gates
mod Tests
use ten_os.Word.{u16}
use ten_os.Prelude.{
  ℕ, zero, suc, ◌+◌, ◌-◌, ◌*◌, ◌/◌, ◌%◌, ◌^◌, List, [], ◌∷◌, ◌==◌, if◌then◌else◌, update,
}

abbrev pub idt_entries : ℕ
idt_entries = 256

abbrev pub kernel_cs : ℕ
kernel_cs = 0x08

abbrev pub low_16 : ℕ → ℕ
low_16 address = u16 (address % 2 ^ 16)

abbrev pub high_16 : ℕ → ℕ
high_16 address = u16 (address / 2 ^ 16 % 2 ^ 16)

-- idt_gate_t
pub record Gate : Type 0 where
  pub low_offset : ℕ
  pub sel : ℕ
  pub always0 : ℕ
  pub flags : ℕ
  pub high_offset : ℕ

abbrev pub Idt : Type 0
Idt = ℕ → Gate

unfoldable pub set_idt_gate : ℕ → ℕ → ℕ → ℕ → Idt → Idt
set_idt_gate n handler selector flags idt = update idt n (record {
  low_offset = low_16 handler;
  sel = selector;
  always0 = 0;
  flags = flags;
  high_offset = high_16 handler;
})

-- idt_register_t, as `set_idt` fills it for the table at `base`.
pub record IdtRegister : Type 0 where
  pub limit : ℕ
  pub base : ℕ

unfoldable pub set_idt : ℕ → IdtRegister
set_idt base = record { limit = idt_entries * 8 - 1; base = base }

-- The calls `set_idt_gate(n, handler, KERNEL_CS, 0x8E)` for consecutive gates; `handlers` gives the
-- address of each entry point in the assembly.
pub set_gates : ℕ → ℕ → (ℕ → ℕ) → Idt → Idt
set_gates zero n handlers idt = idt
set_gates (suc left) n handlers idt =
    set_gates left (n + 1) handlers (set_idt_gate n (handlers n) kernel_cs 0x8E idt)

-- The entry points isr0 to isr31 and irq0 to irq15, and that of system calls.
pub record EntryPoints : Type 0 where
  pub isr : ℕ → ℕ
  pub irq : ℕ → ℕ
  pub syscall_handler_asm : ℕ

-- The writes that remap the interrupt controllers: the port and the byte.
abbrev pub remap_pic : List (ℕ × ℕ)
remap_pic =
    (0x20, 0x11)
    ∷ (0xA0, 0x11)
    ∷ (0x21, 0x20)
    ∷ (0xA1, 0x28)
    ∷ (0x21, 0x04)
    ∷ (0xA1, 0x02)
    ∷ (0x21, 0x01)
    ∷ (0xA1, 0x01)
    ∷ (0x21, 0x00)
    ∷ (0xA1, 0x00)
    ∷ []

-- The table, the register for the table at `base`, and the port writes.
unfoldable pub isr_install : EntryPoints → ℕ → Idt → Idt × IdtRegister × List (ℕ × ℕ)
isr_install at base idt =
    let exceptions = set_gates 32 0 at.isr idt in
    let interrupts = set_gates 16 32 (λ n. at.irq (n - 32)) exceptions in
    (set_idt_gate 0x80 at.syscall_handler_asm 0x08 0xEE interrupts, set_idt base, remap_pic)
