-- ===== src/Interrupts.antt =====
-- kernel/arch/x64/interrupts.c and kernel/arch/x64/pic.c: the table of interrupt handlers, the
-- dispatcher, and the interrupt controllers.
-- A handler is a number, and what a call of it does to the machine's state is the argument `run`.
-- The writes to the ports of the controllers are recorded, and what a port reads is an argument.
-- The lock of the table is left out: no handler has it.
pub mod Handlers
use kernel_of_truth.Base.{
  ℕ, zero, suc, ◌+◌, ◌-◌, ◌*◌, ◌%◌, ◌^◌, ◌==◌, ◌&&◌, Bool, true, false, not, if◌then◌else◌, ltb,
  bit_and, bit_or, bit_xor, Option, none, some, List, [], ◌∷◌, ◌++◌, Run, ok, panic, fault, ◌>>=◌,
}
use kernel_of_truth.Types
use kernel_of_truth.Types.{Status}

abbrev pub interrupt_handlers_count : ℕ
interrupt_handlers_count = 10

abbrev pub idt_size : ℕ
idt_size = 256

-- `Interrupt_Dispatch`: the slots of each interrupt.
abbrev pub Dispatch : Type 0
Dispatch = ℕ → List (Option ℕ)

-- A slot that stays before those that a loop has changed.
abbrev pub keep_slot : Option ℕ → Option (List (Option ℕ)) → Option (List (Option ℕ))
keep_slot slot none = none
keep_slot slot (some slots) = some (slot ∷ slots)

-- The loop of `interrupt_register_handler` over the slots.
pub register_slot : ℕ → List (Option ℕ) → Option (List (Option ℕ))
register_slot handler [] = none
register_slot handler (none ∷ slots) = some (some handler ∷ slots)
register_slot handler (some h ∷ slots) = keep_slot (some h) (register_slot handler slots)

-- The loop of `interrupt_unregister_handler` over the slots.
pub unregister_slot : ℕ → List (Option ℕ) → Option (List (Option ℕ))
unregister_slot handler [] = none
unregister_slot handler (none ∷ slots) = keep_slot none (unregister_slot handler slots)
unregister_slot handler (some h ∷ slots) =
    let rest = keep_slot (some h) (unregister_slot handler slots) in
    if h == handler then some (none ∷ slots) else rest

abbrev pub put : Dispatch → ℕ → List (Option ℕ) → Dispatch
put table n slots m = if m == n then slots else table m

abbrev pub stored : Dispatch → ℕ → Status → Option (List (Option ℕ)) → Run (Status × Dispatch)
stored table n missing none = ok (missing, table)
stored table n missing (some slots) = ok (Types.ok, put table n slots)

-- `interrupt_register_handler`: the number is not tested, and past the table is undefined.
unfoldable pub interrupt_register_handler : ℕ → ℕ → Dispatch → Run (Status × Dispatch)
unfolding register_slot
interrupt_register_handler n handler table =
    if ltb n idt_size then stored table n Types.count (register_slot handler (table n)) else fault

-- `interrupt_unregister_handler`
unfoldable pub interrupt_unregister_handler : ℕ → ℕ → Dispatch → Run (Status × Dispatch)
unfolding unregister_slot
interrupt_unregister_handler n handler table =
    if ltb n idt_size
    then stored table n Types.absent (unregister_slot handler (table n))
    else fault

-- A write to a port: the value, then the port.
abbrev pub PortWrite : Type 0
PortWrite = ℕ × ℕ

abbrev pub pic1_control : ℕ
pic1_control = 0x20

abbrev pub pic2_control : ℕ
pic2_control = 0xa0

abbrev pub pic1_data : ℕ
pic1_data = 0x21

abbrev pub pic2_data : ℕ
pic2_data = 0xa1

abbrev pub pic_end_of_interrupt_command : ℕ
pic_end_of_interrupt_command = 0x20

abbrev pub pic2_first_interrupt : ℕ
pic2_first_interrupt = 8

-- `pic_end_of_interrupt`, whose argument is a `uint8_t`.
unfoldable pub pic_end_of_interrupt : ℕ → List PortWrite
pic_end_of_interrupt n =
    let first = (pic_end_of_interrupt_command, pic1_control) ∷ [] in
    let both = (pic_end_of_interrupt_command, pic2_control) ∷ first in
    if ltb pic2_first_interrupt (n % 2 ^ 8) then both else first

-- `pic_init`
unfoldable pub pic_init : List PortWrite
pic_init =
    (0x11, pic1_control)
    ∷ (0x11, pic2_control)
    ∷ (0x20, pic1_data)
    ∷ (0x28, pic2_data)
    ∷ (2 * 2, pic1_data)
    ∷ (2, pic2_data)
    ∷ (1, pic1_data)
    ∷ (1, pic2_data)
    ∷ (0, pic1_data)
    ∷ (0, pic2_data)
    ∷ []

-- `pic_fini`
unfoldable pub pic_fini : List PortWrite
pic_fini = (0, pic1_data) ∷ (0, pic2_data) ∷ []

-- The controller and the line of an interrupt request.
abbrev pub line_of : ℕ → ℕ × ℕ
line_of irq = if ltb irq 8 then (pic1_data, irq) else (pic2_data, irq - 8)

-- `pic_enable` and `pic_disable` of a request below 16, with what the ports read.
unfoldable pub pic_enable : (ℕ → ℕ) → ℕ → List PortWrite
pic_enable read_port irq =
    let (pic, line) = line_of irq in (bit_or (read_port pic) (2 ^ line) % 2 ^ 8, pic) ∷ []

unfoldable pub pic_disable : (ℕ → ℕ) → ℕ → List PortWrite
pic_disable read_port irq =
    let (pic, line) = line_of irq in
    let others = bit_xor (2 ^ 32 - 1) (2 ^ line) in
    (bit_and (read_port pic) others % 2 ^ 8, pic) ∷ []

module _ {S : Type 0} (run : ℕ → S → Bool × S) where
  -- The loop of `interrupts_dispatcher`: the handlers are called until one has handled it.
  pub run_slots : List (Option ℕ) → S → Bool × S
  run_slots [] s = (false, s)
  run_slots (none ∷ slots) s = run_slots slots s
  run_slots (some handler ∷ slots) s =
      let (handled, s') = run handler s in
      let rest = run_slots slots s' in if handled then (true, s') else rest

  -- `interrupts_dispatcher`: an exception that no handler takes ends in `panic`.
  unfoldable pub interrupts_dispatcher : Dispatch → ℕ → S → Run (S × List PortWrite)
  unfolding run_slots
  interrupts_dispatcher table n s =
      let (handled, s') = run_slots (table n) s in
      if not (ltb n idt_size)
      then panic
      else if ltb n 32 && not handled
      then panic
      else ok (s', pic_end_of_interrupt n)
