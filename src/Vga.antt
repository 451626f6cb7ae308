-- ===== src/Vga.antt =====
-- kernel/device/vga.c: the text console.
-- The framebuffer is one page of two-byte cells, a function of the index of a cell; an access past the
-- page faults. `row` and `column` are the variables `VGA_Cursor_Row`, which counts the cells in a
-- line, and `VGA_Cursor_Column`, which counts the lines.
-- The lock of the console is left out.
pub mod Scroll
pub mod Cursor
use kernel_of_truth.Base.{
  ℕ, zero, suc, ◌+◌, ◌-◌, ◌*◌, ◌/◌, ◌%◌, ◌^◌, ◌==◌, Bool, true, false, if◌then◌else◌, ltb, bit_or,
  List, [], ◌∷◌, Run, ok, fault, ◌>>=◌, ◌>>◌, assert,
}
use kernel_of_truth.Types
use kernel_of_truth.Types.{Status, page_small}

abbrev pub vga_height : ℕ
vga_height = 24

abbrev pub vga_width : ℕ
vga_width = 80

abbrev pub vga_tab_size : ℕ
vga_tab_size = 4

-- The cells in `VGA_Framebuffer_Size`.
abbrev pub framebuffer_cells : ℕ
framebuffer_cells = page_small / 2

-- `char` values
abbrev pub newline : ℕ
newline = 10

abbrev pub tab : ℕ
tab = 9

abbrev pub space : ℕ
space = 32

-- The console: colours are the numbers of `enum VGA_Color`.
pub record Vga : Type 0 where
  pub framebuffer : ℕ → ℕ
  pub row : ℕ
  pub column : ℕ
  pub background : ℕ
  pub foreground : ℕ

-- `vga_entry_color`
abbrev pub vga_entry_color : ℕ → ℕ → ℕ
vga_entry_color fg bg = bit_or fg (bg * 2 ^ 4) % 2 ^ 8

-- `vga_entry`
unfoldable pub vga_entry : ℕ → ℕ → ℕ → ℕ
vga_entry uc fg bg = bit_or uc (vga_entry_color fg bg * 2 ^ 8)

abbrev pub entry_of : ℕ → Vga → ℕ
entry_of c v = vga_entry c v.foreground v.background

abbrev pub put : (ℕ → ℕ) → ℕ → ℕ → ℕ → ℕ
put frame i entry j = if j == i then entry else frame j

-- A store to a cell.
abbrev pub write_cell : ℕ → ℕ → Vga → Run Vga
write_cell i entry v =
    if ltb i framebuffer_cells
    then ok (record v { framebuffer = put v.framebuffer i entry })
    else fault

-- `k` cells are filled, from cell `i` on.
unfoldable pub fill_cells : ℕ → ℕ → ℕ → Vga → Run Vga
fill_cells zero i entry v = ok v
fill_cells (suc k) i entry v = write_cell i entry v >>= fill_cells k (i + 1) entry

-- `vga_framebuffer_clear`
unfoldable pub vga_framebuffer_clear : Vga → Run Vga
vga_framebuffer_clear v = fill_cells (vga_width * vga_height) 0 (entry_of space v) v

-- The first loop of `vga_scroll_up_line`, with `k` cells left: the lines are moved cell by cell, in
-- the order of their indices.
unfoldable pub move_cells : ℕ → ℕ → Vga → Run Vga
move_cells zero i v = ok v
move_cells (suc k) i v = write_cell i (v.framebuffer (i + vga_width)) v >>= move_cells k (i + 1)

-- `vga_scroll_up_line`
unfoldable pub vga_scroll_up_line : Vga → Run Vga
vga_scroll_up_line v = do
  let top = record v { row = 0; column = vga_height - 1 }
  moved ← move_cells (vga_width * (vga_height - 1)) 0 top
  fill_cells vga_width (vga_width * (vga_height - 1)) (entry_of space v) moved

-- The three cases of `vga_putc_unlocked`.
abbrev pub put_newline : Vga → Run Vga
put_newline v = ok (record v { row = 0; column = v.column + 1 })

abbrev pub advance : Vga → Run Vga
advance v =
    let next = (v.row + 1) % vga_width in
    ok (record v { row = next; column = if next == 0 then v.column + 1 else v.column })

pub put_tab : ℕ → Vga → Run Vga
put_tab index v =
    let filled = fill_cells vga_tab_size index (entry_of space v) v >>= λ v'.
    ok (record v' { column = v'.column + 1 }) in
    if ltb (v.column + vga_tab_size) vga_width then filled else put_newline v

pub put_char : ℕ → ℕ → Vga → Run Vga
put_char c index v = write_cell index (entry_of c v) v >>= advance

-- The end of `vga_putc_unlocked`.
pub scroll_at_end : Vga → Run Vga
unfolding vga_scroll_up_line
scroll_at_end v =
    let scrolled = vga_scroll_up_line v in if v.column == vga_height then scrolled else ok v

unfoldable pub vga_putc_unlocked : ℕ → Vga → Run Vga
unfolding put_tab put_char scroll_at_end
vga_putc_unlocked c v = do
  let index = v.column * vga_width + v.row
  assert (ltb index (vga_width * vga_height))
  let put_other = if c == tab then put_tab index v else put_char c index v
  v' ← if c == newline then put_newline v else put_other
  scroll_at_end v'

-- The loop of `vga_write`, which `vga_puts` has as well.
unfoldable pub vga_write : List ℕ → Vga → Run (Status × Vga)
unfolding vga_putc_unlocked
vga_write [] v = ok (Types.ok, v)
vga_write (c ∷ cs) v = vga_putc_unlocked c v >>= vga_write cs
