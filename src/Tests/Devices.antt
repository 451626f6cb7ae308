-- ===== src/Tests/Devices.antt =====
-- Runs of kernel/device/vga.c, kernel/device/ps2_keyboard.c and kernel/arch/x64/interrupts.c.
use kernel_of_truth.Base.{
  ℕ, ◌+◌, ◌≡◌, refl, [], ◌∷◌, none, some, Bool, true, false, Run, ok, panic, arith,
}
use kernel_of_truth.Types
use kernel_of_truth.Types.{Status}
use kernel_of_truth.Vga.{Vga, tab, fill_cells, vga_putc_unlocked, vga_write}
use kernel_of_truth.Vga.Cursor.{OnScreen, vga_write-OnScreen}
use kernel_of_truth.Keyboard.{Keyboard, keyboard_map, keyboard_shift_map, key_char}
use kernel_of_truth.Interrupts.{
  Dispatch, put, interrupt_register_handler, interrupts_dispatcher, pic_enable,
}

abbrev blank_screen : Vga
blank_screen = record { framebuffer = λ _. 0; row = 0; column = 0; background = 0; foreground = 15 }

blank_screen-OnScreen : OnScreen blank_screen
unfolding OnScreen
blank_screen-OnScreen = (omega arith, omega arith)

-- A tab goes to the next line.
abbrev cursor_of : Run Vga → ℕ × ℕ
cursor_of (ok v) = (v.row, v.column)
cursor_of _ = (0, 0)

tab_cursor : cursor_of (vga_putc_unlocked tab blank_screen) ≡ (0, 1)
unfolding vga_putc_unlocked fill_cells
tab_cursor = refl

vga_write-OnScreen_example :
    (v' : Vga) × (vga_write (72 ∷ 105 ∷ 10 ∷ []) blank_screen ≡ ok (Types.ok, v')) × OnScreen v'
vga_write-OnScreen_example =
    vga_write-OnScreen (72 ∷ 105 ∷ 10 ∷ []) blank_screen blank_screen-OnScreen

abbrev keyboard : Keyboard
keyboard = record { shift_held = false; console = blank_screen }

right_shift : key_char true 0x1e ≡ 65
unfolding key_char keyboard_map keyboard_shift_map
right_shift = refl

abbrev no_handlers : Dispatch
no_handlers n = none ∷ none ∷ []

abbrev count_calls : ℕ → ℕ → Bool × ℕ
count_calls handler calls = (true, calls + 1)

register_7 :
    interrupt_register_handler 14 7 no_handlers
    ≡ ok (Types.ok, put no_handlers 14 (some 7 ∷ none ∷ []))
unfolding interrupt_register_handler
register_7 = refl

-- A page fault without a handler.
unhandled : interrupts_dispatcher count_calls no_handlers 14 0 ≡ panic
unfolding interrupts_dispatcher
unhandled = refl

-- To enable a line sets its bit of the mask.
enable_1 : pic_enable (λ port. 0) 1 ≡ (2, 0x21) ∷ []
unfolding pic_enable
enable_1 = refl
