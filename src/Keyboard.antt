-- ===== src/Keyboard.antt =====
-- kernel/device/ps2_keyboard.c: the keyboard, which writes to the console of kernel/device/vga.c.
-- What the two ports give is an argument of the handler.
pub mod Shift
use kernel_of_truth.Base.{
  ℕ, ◌==◌, ◌||◌, Bool, true, false, if◌then◌else◌, bit_and, get_or, List, [], ◌∷◌, Run, ok, ◌>>=◌,
}
use kernel_of_truth.Vga.{Vga, vga_putc_unlocked}

abbrev pub keyboard_right_shift_held : ℕ
keyboard_right_shift_held = 0x36

abbrev pub keyboard_right_shift_released : ℕ
keyboard_right_shift_released = 0xb6

abbrev pub keyboard_left_shift_held : ℕ
keyboard_left_shift_held = 0x2a

abbrev pub keyboard_left_shift_released : ℕ
keyboard_left_shift_released = 0xaa

abbrev pub keyboard_input_available : ℕ
keyboard_input_available = 1

-- `keyboard_map`, up to its last character: the entries behind it are 0.
unfoldable pub keyboard_map : List ℕ
keyboard_map =
    0 ∷ 27 ∷ 49 ∷ 50 ∷ 51 ∷ 52 ∷ 53 ∷ 54 ∷ 55 ∷ 56 ∷ 57 ∷ 48 ∷ 45 ∷ 61 ∷ 8 ∷ 9 ∷ 113 ∷ 119 ∷ 101
    ∷ 114 ∷ 116 ∷ 121 ∷ 117 ∷ 105 ∷ 111 ∷ 112 ∷ 91 ∷ 93 ∷ 10 ∷ 0 ∷ 97 ∷ 115 ∷ 100 ∷ 102 ∷ 103 ∷ 104
    ∷ 106 ∷ 107 ∷ 108 ∷ 59 ∷ 39 ∷ 96 ∷ 0 ∷ 92 ∷ 122 ∷ 120 ∷ 99 ∷ 118 ∷ 98 ∷ 110 ∷ 109 ∷ 44 ∷ 46 ∷ 47
    ∷ 0 ∷ 42 ∷ 0 ∷ 32 ∷ 0 ∷ 0 ∷ 0 ∷ 0 ∷ 0 ∷ 0 ∷ 0 ∷ 0 ∷ 0 ∷ 0 ∷ 0 ∷ 0 ∷ 0 ∷ 0 ∷ 0 ∷ 0 ∷ 45 ∷ 0 ∷ 0
    ∷ 0 ∷ 43 ∷ []

-- `keyboard_shift_map`
unfoldable pub keyboard_shift_map : List ℕ
keyboard_shift_map =
    0 ∷ 27 ∷ 33 ∷ 64 ∷ 35 ∷ 36 ∷ 37 ∷ 94 ∷ 38 ∷ 42 ∷ 40 ∷ 41 ∷ 95 ∷ 43 ∷ 8 ∷ 9 ∷ 81 ∷ 87 ∷ 69 ∷ 82
    ∷ 84 ∷ 89 ∷ 85 ∷ 73 ∷ 79 ∷ 80 ∷ 123 ∷ 125 ∷ 10 ∷ 0 ∷ 65 ∷ 83 ∷ 68 ∷ 70 ∷ 71 ∷ 72 ∷ 74 ∷ 75 ∷ 76
    ∷ 58 ∷ 34 ∷ 126 ∷ 0 ∷ 124 ∷ 90 ∷ 88 ∷ 67 ∷ 86 ∷ 66 ∷ 78 ∷ 77 ∷ 60 ∷ 62 ∷ 63 ∷ 0 ∷ 42 ∷ 0 ∷ 32
    ∷ 0 ∷ 0 ∷ 0 ∷ 0 ∷ 0 ∷ 0 ∷ 0 ∷ 0 ∷ 0 ∷ 0 ∷ 0 ∷ 0 ∷ 0 ∷ 0 ∷ 0 ∷ 0 ∷ 95 ∷ 0 ∷ 0 ∷ 0 ∷ 61 ∷ []

-- The static variable of the handler, and the console.
pub record Keyboard : Type 0 where
  pub shift_held : Bool
  pub console : Vga

-- `c` for a key that is no shift key.
unfoldable pub key_char : Bool → ℕ → ℕ
key_char shift_held key_code =
    if shift_held then get_or keyboard_shift_map key_code 0 else get_or keyboard_map key_code 0

-- A character that is not 0 is shown.
abbrev pub show_key : ℕ → Keyboard → Run Keyboard
show_key c k =
    let shown = vga_putc_unlocked c k.console >>= λ v. ok (record k { console = v }) in
    if c == 0 then ok k else shown

-- `keyboard_handler`. The second operand of the first test names the right shift key again.
unfoldable pub keyboard_handler : ℕ → ℕ → Keyboard → Run (Bool × Keyboard)
unfolding key_char
keyboard_handler status_port key_code k =
    let shown = show_key (key_char k.shift_held key_code) k >>= λ k'. ok (true, k') in
    let key =
      if key_code == keyboard_right_shift_held || key_code == keyboard_right_shift_held
      then ok (true, record k { shift_held = true })
      else if key_code == keyboard_right_shift_released || key_code == keyboard_left_shift_released
      then ok (true, record k { shift_held = false })
      else shown in
    if bit_and status_port keyboard_input_available == 0 then ok (true, k) else key
