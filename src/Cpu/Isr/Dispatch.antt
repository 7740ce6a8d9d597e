-- ===== src/Cpu/Isr/Dispatch.antt =====
-- Any sequence of interrupts, in the order in which they are taken.
use ten_os.Cpu.Isr.{
  irq0, irq1, on_timer, on_keyboard, Machine, register_interrupt_handler, call, timer_callback,
  end_of_interrupt, irq_handler, init_timer, init_keyboard,
}
use ten_os.Drivers.Keyboard.{Keyboard, keyboard_callback}
use ten_os.Word.{u32}
use ten_os.Prelude.{
  ℕ, ◌+◌, ◌^◌, ◌<◌, ◌≡◌, ◌≢◌, refl, ap, ◌∙◌, List, [], ◌∷◌, ◌++◌, none, some, ◌==◌, leb,
  if◌then◌else◌, arith, Bool-cases, inl, inr, ==_iff,
}

-- An interrupt's number, and the byte that the keyboard's port gives at that time.
abbrev pub Event : Type 0
Event = ℕ × ℕ

pub run : List Event → Machine → Machine × List (ℕ × ℕ)
run [] m = (m, [])
run ((int_no, byte) ∷ events) m =
    let (m', writes) = irq_handler int_no byte m in
    let rest = run events m' in (rest.0, writes ++ rest.1)

-- What the events mean: how many are the timer's, and the codes that the keyboard gave.
abbrev pub ticks : List Event → ℕ
ticks [] = 0
ticks ((int_no, byte) ∷ events) = (if int_no == irq0 then 1 else 0) + ticks events

abbrev pub codes : List Event → List ℕ
codes [] = []
codes ((int_no, byte) ∷ events) = if int_no == irq1 then byte ∷ codes events else codes events

abbrev pub type_codes : List ℕ → Keyboard → Keyboard
type_codes [] k = k
type_codes (byte ∷ rest) k = type_codes rest (keyboard_callback k byte).0

-- Each interrupt is acknowledged once to the master, and to the slave before that if it is its own.
abbrev pub acknowledged : List Event → List (ℕ × ℕ)
acknowledged [] = []
acknowledged ((int_no, byte) ∷ events) =
    if leb 40 int_no
    then (0xA0, 0x20) ∷ (0x20, 0x20) ∷ acknowledged events
    else (0x20, 0x20) ∷ acknowledged events

-- The timer and the keyboard are the two handlers.
pub record IsReady (m : Machine) : Type 0 where
  pub timer : m.interrupt_handlers irq0 ≡ some on_timer
  pub keys : m.interrupt_handlers irq1 ≡ some on_keyboard
  pub others : (n : ℕ) → n ≢ irq0 → n ≢ irq1 → m.interrupt_handlers n ≡ none

-- The kernel's start leaves them so.
pub init-IsReady :
    (freq : ℕ) (m : Machine)
    → ((n : ℕ) → m.interrupt_handlers n ≡ none)
    → IsReady (init_keyboard (init_timer freq m).0)
unfolding init_keyboard init_timer register_interrupt_handler
init-IsReady freq m empty = record {
  timer = refl;
  keys = refl;
  others = λ n p q. ground (arith, empty n);
}

-- The machine after one interrupt.
abbrev after : ℕ → ℕ → Machine → Machine
after int_no byte m = record m {
  tick = if int_no == irq0 then u32 (m.tick + 1) else m.tick;
  keyboard = if int_no == irq1 then (keyboard_callback m.keyboard byte).0 else m.keyboard;
}

irq_handler_lem :
    (int_no byte : ℕ) (m : Machine)
    → IsReady m
    → (irq_handler int_no byte m).0 ≡ after int_no byte m
unfolding irq_handler call timer_callback
irq_handler_lem int_no byte m r = elim (Bool-cases (int_no == irq0)) [
  | inl timer ↦ let e : int_no ≡ irq0 = (==_iff int_no irq0).0 timer in rw (e, r.timer) refl
  | inr other ↦ elim (Bool-cases (int_no == irq1)) [
    | inl keys ↦ let e : int_no ≡ irq1 = (==_iff int_no irq1).0 keys in rw (e, r.keys) refl
    | inr neither ↦ rw (r.others int_no (ground arith) (ground arith), other, neither) refl
  ]
]

typed :
    (int_no byte : ℕ) (events : List Event) (k : Keyboard)
    → type_codes (codes events) (if int_no == irq1 then (keyboard_callback k byte).0 else k)
      ≡ type_codes (codes ((int_no, byte) ∷ events)) k
typed int_no byte events k = elim (Bool-cases (int_no == irq1)) [
  | inl keys ↦ rw keys refl
  | inr other ↦ rw other refl
]

acknowledge :
    (int_no byte : ℕ) (events : List Event)
    → end_of_interrupt int_no ++ acknowledged events ≡ acknowledged ((int_no, byte) ∷ events)
unfolding end_of_interrupt
acknowledge int_no byte events = elim (Bool-cases (leb 40 int_no)) [
  | inl slave ↦ rw slave refl
  | inr master ↦ rw master refl
]

-- For every sequence of interrupts from a machine with the two handlers: the clock has counted the
-- timer's interrupts modulo 2 ^ 32, the keyboard driver has been given the codes of the keyboard's
-- in their order, each interrupt is acknowledged once to the master, and to the slave before that
-- exactly if its number is at least 40, and the two handlers stand.
pub run_lem :
    (events : List Event) (m : Machine)
    → IsReady m
    → m.tick < 2 ^ 32
    → let (m', writes) = run events m in
      (m'.tick ≡ u32 (m.tick + ticks events))
      × (m'.keyboard ≡ type_codes (codes events) m.keyboard)
      × (writes ≡ acknowledged events)
      × IsReady m'
unfolding run
run_lem [] m r small = (omega arith, refl, refl, r)
run_lem ((int_no, byte) ∷ events) m r small =
    let m' = after int_no byte m in
    let r' : IsReady m' = record { timer = r.timer; keys = r.keys; others = r.others } in
    let ih = run_lem events m' r' (ground arith) in
    rw (irq_handler_lem int_no byte m r) (
      ih.0 ∙ ground arith,
      ih.1 ∙ typed int_no byte events m.keyboard,
      ap (λ s. (irq_handler int_no byte m).1 ++ s) ih.2
          ∙ (unfold irq_handler in acknowledge int_no byte events),
      ih.3,
    )
