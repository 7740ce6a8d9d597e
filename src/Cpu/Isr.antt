-- ===== src/Cpu/Isr.antt =====
-- The dispatch of interrupts in cpu/isr.c, cpu/timer.c, and init_keyboard of drivers/keyboard.c. A
-- port write is the port and the byte, and a list of them is in the order of the calls.
pub mod Dispatch
pub mod Clock
mod Tests
use ten_os.Drivers.Keyboard.{Keyboard, keyboard_callback}
use ten_os.Word.{u8, u32, ◌>>>◌}
use Prim.Native.String.{String}
use ten_os.Print.{vformat_print, number, text}
use ten_os.Prelude.{
  codes, get_or, leb, ℕ, ◌+◌, ◌/◌, ◌%◌, ◌^◌, bit_and, List, [], ◌∷◌, ◌++◌, Option, none, some, leb,
  ◌==◌, if◌then◌else◌, update,
}

abbrev pub irq0 : ℕ
irq0 = 32

abbrev pub irq1 : ℕ
irq1 = 33

-- The functions that the kernel registers.
pub data Handler : Type 0 where
  on_timer : Handler
  on_keyboard : Handler

-- `interrupt_handlers`, `tick` and the keyboard driver.
pub record Machine : Type 0 where
  pub interrupt_handlers : ℕ → Option Handler
  pub tick : ℕ
  pub keyboard : Keyboard

pub register_interrupt_handler : ℕ → Handler → Machine → Machine
register_interrupt_handler n handler m = record m {
  interrupt_handlers = update m.interrupt_handlers (u8 n) (some handler);
}

pub timer_callback : Machine → Machine
timer_callback m = record m { tick = u32 (m.tick + 1) }

-- `handler(r)`. `byte` is what port 0x60 gives.
pub call : Handler → ℕ → Machine → Machine
unfolding timer_callback
call on_timer byte m = timer_callback m
call on_keyboard byte m = record m { keyboard = (keyboard_callback m.keyboard byte).0 }

-- The end of interrupt that the controllers get.
pub end_of_interrupt : ℕ → List (ℕ × ℕ)
end_of_interrupt int_no = (if leb 40 int_no then (0xA0, 0x20) ∷ [] else []) ++ (0x20, 0x20) ∷ []

pub irq_handler : ℕ → ℕ → Machine → Machine × List (ℕ × ℕ)
irq_handler int_no byte m = (
  elim (m.interrupt_handlers int_no) [ some handler ↦ call handler byte m | none ↦ m ],
  end_of_interrupt int_no,
)

-- The new machine and the port writes. The model takes `freq` to be positive; the code faults at 0.
pub init_timer : ℕ → Machine → Machine × List (ℕ × ℕ)
unfolding register_interrupt_handler
init_timer freq m =
    let divisor = 1193180 / freq in
    let low = u8 (bit_and divisor 0xFF) in
    let high = u8 (bit_and (divisor >>> 8) 0xFF) in
    (register_interrupt_handler irq0 on_timer m, (0x43, 0x36) ∷ (0x40, low) ∷ (0x40, high) ∷ [])

pub init_keyboard : Machine → Machine
unfolding register_interrupt_handler
init_keyboard m = register_interrupt_handler irq1 on_keyboard m

abbrev pub exception_messages : List String
exception_messages =
    "Division By Zero" ∷ "Debug" ∷ "Non Maskable Interrupt" ∷ "Breakpoint"
    ∷ "Into Detected Overflow" ∷ "Out of Bounds" ∷ "Invalid Opcode" ∷ "No Coprocessor"
    ∷ "Double Fault" ∷ "Coprocessor Segment Overrun" ∷ "Bad TSS" ∷ "Segment Not Present"
    ∷ "Stack Fault" ∷ "General Protection Fault" ∷ "Page Fault" ∷ "Unknown Interrupt"
    ∷ "Coprocessor Fault" ∷ "Alignment Check" ∷ "Machine Check" ∷ "Reserved" ∷ "Reserved"
    ∷ "Reserved" ∷ "Reserved" ∷ "Reserved" ∷ "Reserved" ∷ "Reserved" ∷ "Reserved" ∷ "Reserved"
    ∷ "Reserved" ∷ "Reserved" ∷ "Reserved" ∷ "Reserved" ∷ []

-- What is printed before the machine halts for good; none for a number without a message.
pub isr_handler : ℕ → Option (List ℕ)
isr_handler int_no =
    if leb 32 int_no
    then none
    else vformat_print (codes "Received interrupt: %d -> %s" ++ 10 ∷ [])
        (number int_no ∷ text (codes (get_or exception_messages int_no "")) ∷ [])
