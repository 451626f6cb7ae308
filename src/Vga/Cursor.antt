-- ===== src/Vga/Cursor.antt =====
-- The cursor of kernel/device/vga.c stays on the screen, and no store misses the framebuffer.
use kernel_of_truth.Base.{
  ℕ, ◌+◌, ◌-◌, ◌*◌, ◌%◌, ◌<◌, ◌≤◌, ◌≡◌, refl, ◌==◌, true, if◌then◌else◌, Bool-cases, inl, inr, ltb,
  List, [], ◌∷◌, Run, ok, ◌>>=◌, arith,
}
use kernel_of_truth.Types
use kernel_of_truth.Types.{Status}
use kernel_of_truth.Vga.{
  Vga, put, entry_of, space, tab, newline, framebuffer_cells, vga_height, put_newline, put_tab,
  put_char, scroll_at_end, vga_putc_unlocked, vga_write,
}
use kernel_of_truth.Vga.Scroll.{filled, scrolled, fill_cells-filled, vga_scroll_up_line-scrolled}

-- The cursor is on the screen.
unfoldable pub OnScreen : Vga → Type 0
OnScreen v = (v.row < 80) × (v.column < 24)

-- A case of `vga_putc_unlocked` moves the cursor to the next line at most.
Next : Run Vga → Type 0
Next r = (v' : Vga) × (r ≡ ok v') × (v'.row < 80) × (v'.column ≤ 24)

put_newline-Next : (v : Vga) → OnScreen v → Next (put_newline v)
unfolding OnScreen Next
put_newline-Next v on = (_, refl, omega arith, omega arith)

put_tab-Next : (v : Vga) → OnScreen v → Next (put_tab (v.column * 80 + v.row) v)
unfolding OnScreen Next put_tab
put_tab-Next v on =
    let short : ltb (v.column + 4) 80 ≡ true = ground arith in
    let index = v.column * 80 + v.row in
    let cells = fill_cells-filled 4 index (entry_of space v) v (omega arith) in
    (
      record v {
        framebuffer = filled 4 index (entry_of space v) v.framebuffer;
        column = v.column + 1;
      },
      rw (short, cells) refl,
      on.0,
      omega arith,
    )

put_char-Next : (c : ℕ) (v : Vga) → OnScreen v → Next (put_char c (v.column * 80 + v.row) v)
unfolding OnScreen Next put_char
put_char-Next c v on =
    let room : ltb (v.column * 80 + v.row) framebuffer_cells ≡ true = ground arith in
    let index = v.column * 80 + v.row in
    let next = (v.row + 1) % 80 in
    (
      record v {
        framebuffer = put v.framebuffer index (entry_of c v);
        row = next;
        column = if next == 0 then v.column + 1 else v.column;
      },
      rw room refl,
      omega arith,
      ground arith,
    )

scroll_at_end-OnScreen :
    (v : Vga) → v.row < 80 → v.column ≤ 24 → (v' : Vga) × (scroll_at_end v ≡ ok v') × OnScreen v'
unfolding OnScreen scroll_at_end
scroll_at_end-OnScreen v row column = elim (Bool-cases (v.column == 24)) [
  | inl below ↦ (
    record v { framebuffer = scrolled v; row = 0; column = vga_height - 1 },
    rw below (vga_scroll_up_line-scrolled v),
    (omega arith, omega arith),
  )
  | inr above ↦ (v, rw above refl, (row, ground arith))
]

OnScreen-inside : (v : Vga) → OnScreen v → ltb (v.column * 80 + v.row) 1920 ≡ true
unfolding OnScreen
OnScreen-inside v on = ground arith

after_case : (r : Run Vga) → Next r → (v' : Vga) × ((r >>= scroll_at_end) ≡ ok v') × OnScreen v'
unfolding Next
after_case r (v', run, row, column) =
    let (v'', end, on) = scroll_at_end-OnScreen v' row column in (v'', rw run end, on)

-- With the cursor on the screen, `vga_putc_unlocked` returns for every character, and the cursor is
-- on the screen again.
pub vga_putc_unlocked-OnScreen :
    (c : ℕ) (v : Vga) → OnScreen v → (v' : Vga) × (vga_putc_unlocked c v ≡ ok v') × OnScreen v'
unfolding vga_putc_unlocked
vga_putc_unlocked-OnScreen c v on =
    let inside : ltb (v.column * 80 + v.row) 1920 ≡ true = OnScreen-inside v on in
    let finish : (r : Run Vga)
        → Next r
        → (v' : Vga) × ((r >>= scroll_at_end) ≡ ok v') × OnScreen v' =
      after_case in
    elim (Bool-cases (c == newline)) [
      | inl line ↦
          let (v', run, on') = finish (put_newline v) (put_newline-Next v on) in
          (v', rw (inside, line) run, on')
      | inr other ↦ elim (Bool-cases (c == tab)) [
        | inl stop ↦
            let (v', run, on') = finish (put_tab (v.column * 80 + v.row) v) (put_tab-Next v on) in
            (v', rw (inside, other, stop) run, on')
        | inr letter ↦
            let (v', run, on') =
              finish (put_char c (v.column * 80 + v.row) v) (put_char-Next c v on) in
            (v', rw (inside, other, letter) run, on')
      ]
    ]

-- Bounds of the console: from a cursor on the screen, `vga_write` of any text returns `Ok`, so that
-- no store misses the framebuffer and no assertion fails, and the cursor is on the screen.
pub vga_write-OnScreen :
    (text : List ℕ) (v : Vga)
    → OnScreen v
    → (v' : Vga) × (vga_write text v ≡ ok (Types.ok, v')) × OnScreen v'
unfolding vga_write
vga_write-OnScreen [] v on = (v, refl, on)
vga_write-OnScreen (c ∷ cs) v on =
    let (v1, first, on1) = vga_putc_unlocked-OnScreen c v on in
    let (v2, rest, on2) = vga_write-OnScreen cs v1 on1 in (v2, rw first rest, on2)
