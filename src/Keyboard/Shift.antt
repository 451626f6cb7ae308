-- ===== src/Keyboard/Shift.antt =====
-- The shift keys of kernel/device/ps2_keyboard.c, and the console behind the keyboard.
use kernel_of_truth.Base.{
  ℕ, ◌≡◌, ◌≢◌, refl, ◌∙◌, ◌==◌, ◌||◌, true, false, if◌then◌else◌, Bool-cases, inl, inr, ne→==,
  bit_and, List, [], ◌∷◌, All, Run, ok, ◌>>=◌, arith,
}
use kernel_of_truth.Vga.Cursor.{OnScreen, vga_putc_unlocked-OnScreen}
use kernel_of_truth.Keyboard.{
  Keyboard, key_char, show_key, keyboard_handler, keyboard_right_shift_held,
}

-- The key codes that arrive one after the other.
unfoldable pub type_keys : List ℕ → Keyboard → Run Keyboard
type_keys [] k = ok k
type_keys (key_code ∷ key_codes) k = keyboard_handler 1 key_code k >>= λ r. type_keys key_codes r.1

show_key-OnScreen :
    (c : ℕ) (k : Keyboard)
    → OnScreen k.console
    → (k' : Keyboard) × (show_key c k ≡ ok k')
      × OnScreen k'.console
      × (k'.shift_held ≡ k.shift_held)
show_key-OnScreen c k on = elim (Bool-cases (c == 0)) [
  | inl nothing ↦ (k, rw nothing refl, on, refl)
  | inr something ↦
      let (v, run, on') = vga_putc_unlocked-OnScreen c k.console on in
      (record k { console = v }, rw (something, run) refl, on', refl)
]

-- The handler of any key, with the cursor on the screen, has handled the interrupt, and the cursor is on
-- the screen; shift is held afterwards if the key is the right shift key, or if it was held and the key
-- is not the release of a shift key, or there was no key.
pub keyboard_handler-OnScreen :
    (status_port key_code : ℕ) (k : Keyboard)
    → OnScreen k.console
    → (k' : Keyboard) × (keyboard_handler status_port key_code k ≡ ok (true, k'))
      × OnScreen k'.console
      × (k'.shift_held ≡ (
          if bit_and status_port 1 == 0
          then k.shift_held
          else if key_code == 0x36
          then true
          else if key_code == 0xb6 || key_code == 0xaa
          then false
          else k.shift_held))
unfolding keyboard_handler
keyboard_handler-OnScreen status_port key_code k on =
    let (k', run, on', same) = show_key-OnScreen (key_char k.shift_held key_code) k on in
    elim (Bool-cases (bit_and status_port 1 == 0)) [
      | inl idle ↦ (k, rw idle refl, on, rw idle)
      | inr input ↦ elim (Bool-cases (key_code == 0x36)) [
        | inl held ↦ (record k { shift_held = true }, rw (input, held) refl, on, rw (input, held))
        | inr other ↦ elim (Bool-cases (key_code == 0xb6 || key_code == 0xaa)) [
          | inl released ↦ (
            record k { shift_held = false },
            rw (input, other, released) refl,
            on,
            rw (input, other, released),
          )
          | inr key ↦ (k', rw (input, other, key, run) refl, on', rw (input, other, key) same)
        ]
      ]
    ]

-- Only the right shift key shifts: with the cursor on the screen and shift not held, after any keys
-- but that one, the left shift key among them, shift is not held.
pub type_keys-shift_held :
    (key_codes : List ℕ) (k : Keyboard)
    → All (λ c. c ≢ keyboard_right_shift_held) key_codes
    → OnScreen k.console
    → k.shift_held ≡ false
    → (k' : Keyboard) × (type_keys key_codes k ≡ ok k')
      × OnScreen k'.console
      × (k'.shift_held ≡ false)
unfolding type_keys
type_keys-shift_held [] k others on off = (k, refl, on, off)
type_keys-shift_held (c ∷ cs) k others on off =
    let (k1, run1, on1, shift) = keyboard_handler-OnScreen 1 c k on in
    let still_off : k1.shift_held ≡ false =
      shift ∙ rw (ne→== c 0x36 others.0, off) (ground arith) in
    let (k2, run2, on2, off2) = type_keys-shift_held cs k1 others.1 on1 still_off in
    (k2, rw run1 run2, on2, off2)
