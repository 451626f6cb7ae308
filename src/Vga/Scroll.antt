-- ===== src/Vga/Scroll.antt =====
-- What the loops of kernel/device/vga.c do to the cells.
use kernel_of_truth.Base.{
  ℕ, zero, suc, ◌+◌, ◌-◌, ◌≤◌, ◌≡◌, ◌∙◌, ap, fun_ext, ◌&&◌, true, if◌then◌else◌, leb, ltb, ok,
  ◌>>=◌, arith,
}
use kernel_of_truth.Vga.{
  Vga, put, entry_of, space, framebuffer_cells, vga_height, fill_cells, move_cells,
  vga_scroll_up_line,
}

-- The framebuffer after `k` cells were filled from `i` on, and after `k` cells were moved.
abbrev pub filled : ℕ → ℕ → ℕ → (ℕ → ℕ) → ℕ → ℕ
filled k i entry frame j = if leb i j && ltb j (i + k) then entry else frame j

abbrev pub moved : ℕ → ℕ → (ℕ → ℕ) → ℕ → ℕ
moved k i frame j = if leb i j && ltb j (i + k) then frame (j + 80) else frame j

pub fill_cells-filled :
    (k i entry : ℕ) (v : Vga)
    → i + k ≤ framebuffer_cells
    → fill_cells k i entry v ≡ ok (record v { framebuffer = filled k i entry v.framebuffer })
unfolding fill_cells
fill_cells-filled zero i entry v h =
    ap (λ (f : ℕ → ℕ). ok (record v { framebuffer = f })) (fun_ext (λ j. ground arith))
fill_cells-filled (suc k) i entry v h =
    let room : ltb i framebuffer_cells ≡ true = ground arith in
    rw room (
      fill_cells-filled k (i + 1) entry (record v { framebuffer = put v.framebuffer i entry })
        (omega arith)
      ∙ ap (λ (f : ℕ → ℕ). ok (record v { framebuffer = f })) (fun_ext (λ j. ground arith)))

move_cells-moved :
    (k i : ℕ) (v : Vga)
    → i + k ≤ framebuffer_cells
    → move_cells k i v ≡ ok (record v { framebuffer = moved k i v.framebuffer })
unfolding move_cells
move_cells-moved zero i v h =
    ap (λ (f : ℕ → ℕ). ok (record v { framebuffer = f })) (fun_ext (λ j. ground arith))
move_cells-moved (suc k) i v h =
    let room : ltb i framebuffer_cells ≡ true = ground arith in
    rw room (
      move_cells-moved k (i + 1)
        (record v { framebuffer = put v.framebuffer i (v.framebuffer (i + 80)) }) (omega arith)
      ∙ ap (λ (f : ℕ → ℕ). ok (record v { framebuffer = f })) (fun_ext (λ j. ground arith)))

-- `k` cells moved by a line, and `n` behind them filled.
move_cells-fill_cells :
    (k n entry : ℕ) (v : Vga)
    → k + n ≤ framebuffer_cells
    → (move_cells k 0 v >>= fill_cells n k entry)
      ≡ ok (record v { framebuffer = filled n k entry (moved k 0 v.framebuffer) })
move_cells-fill_cells k n entry v h =
    rw (move_cells-moved k 0 v (omega arith))
      (fill_cells-filled n k entry (record v { framebuffer = moved k 0 v.framebuffer }) h)

-- The lines one up, and the last of the 24 blank.
abbrev pub scrolled : Vga → ℕ → ℕ
scrolled v j =
    if ltb j 1840
    then v.framebuffer (j + 80)
    else if ltb j 1920
    then entry_of space v
    else v.framebuffer j

-- `vga_scroll_up_line` returns: every line has moved one up, the last is blank, no other cell has
-- changed, and the cursor is at the start of the last line.
pub vga_scroll_up_line-scrolled :
    (v : Vga)
    → vga_scroll_up_line v
      ≡ ok (record v { framebuffer = scrolled v; row = 0; column = vga_height - 1 })
unfolding vga_scroll_up_line
vga_scroll_up_line-scrolled v =
    let top : Vga = record v { row = 0; column = vga_height - 1 } in
    move_cells-fill_cells 1840 80 (entry_of space v) top (omega arith)
    ∙ ap (λ (f : ℕ → ℕ). ok (record top { framebuffer = f })) (fun_ext (λ j. ground arith))
