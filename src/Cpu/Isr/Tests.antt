-- ===== src/Cpu/Isr/Tests.antt =====
-- Interrupts of the timer and the keyboard, and the witnesses of the theorems on them.
use ten_os.Cpu.Isr.{Machine, init_timer, init_keyboard}
use ten_os.Cpu.Isr.Dispatch.{
  Event, run, ticks, codes, type_codes, acknowledged, IsReady, init-IsReady, run_lem,
}
use ten_os.Drivers.Keyboard.{Keyboard}
use ten_os.Word.{u32}
use ten_os.Prelude.{◌+◌, ◌≡◌, refl, List, [], ◌∷◌, none, false, replicate, arith}

abbrev keyboard : Keyboard
keyboard = record {
  input_buffer = replicate 256 0;
  read_pos = 0;
  write_pos = 0;
  line_buffer = replicate 256 0;
  line_pos = 0;
  shift_pressed = false;
  ctrl_pressed = false;
  alt_pressed = false;
  caps_lock = false;
}

abbrev started : Machine
started = record { interrupt_handlers = λ n. none; tick = 0; keyboard = keyboard }

ready : Machine
ready = init_keyboard (init_timer 50 started).0

-- The timer, a key, the disk, and the timer again.
abbrev events : List Event
events = (32, 0) ∷ (33, 0x1E) ∷ (46, 0) ∷ (32, 0) ∷ []

fifty-run : (init_timer 50 started).1 ≡ (0x43, 0x36) ∷ (0x40, 0x37) ∷ (0x40, 0x5D) ∷ []
unfolding init_timer
fifty-run = refl

run_lem_example :
    let (m', writes) = run events ready in
    (m'.tick ≡ u32 (ready.tick + ticks events))
    × (m'.keyboard ≡ type_codes (codes events) ready.keyboard)
    × (writes ≡ acknowledged events)
    × IsReady m'
unfolding ready init_timer init_keyboard
run_lem_example = run_lem events ready (init-IsReady 50 started (λ n. refl)) (omega arith)
