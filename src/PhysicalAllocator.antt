-- ===== src/PhysicalAllocator.antt =====
-- kernel/core/physical_allocator.c: the stack of free ranges of physical memory.
-- The first page of a free range holds its length and the address of the next range; the header of
-- the first range is read and written through one page of virtual memory, `Physical_Page_Stack`.
-- The tables of that page are always there, so that `map_page` of it succeeds after `unmap_page`.
-- The lock is free, as no caller has it, and is left out.
pub mod Ranges
pub mod States
pub mod Alloc
pub mod Remove
pub mod Boot
use kernel_of_truth.Base.{
  ℕ, zero, suc, ◌+◌, ◌%◌, ◌==◌, ◌&&◌, ◌||◌, Bool, true, false, not, if◌then◌else◌, ltb, bit_and,
  Option, none, some, Run, ok, fault, stuck, ◌>>=◌, ◌>>◌, assert,
}
use kernel_of_truth.Types
use kernel_of_truth.Types.{Status, add64, sub64, page_small}

-- `struct physical_page_stack`
pub record PhysicalPageStack : Type 0 where
  pub next : ℕ
  pub length : ℕ

-- `physical_page` is the variable `Physical_Page`, `pivot` what `Physical_Page_Stack` is mapped to,
-- and `memory` holds the header at each page of physical memory.
pub record Pages : Type 0 where
  pub physical_page : ℕ
  pub pivot : Option ℕ
  pub memory : ℕ → PhysicalPageStack

abbrev pub invalid_phys_addr : ℕ
invalid_phys_addr = 0xfff

-- `0xffff000000000000`, the bits that no physical address has
abbrev pub no_phys_bits : ℕ
no_phys_bits = 0xffff000000000000

-- `is_aligned` of include/truth/types.h
abbrev pub is_aligned : ℕ → ℕ → Bool
is_aligned value alignment = bit_and value (sub64 alignment 1) == 0

-- `physical_region_contains`
unfoldable pub physical_region_contains : ℕ → ℕ → ℕ → ℕ → Bool
physical_region_contains start_a end_a start_b end_b =
    (ltb start_a start_b && ltb start_b end_a) || (ltb start_a end_b && ltb end_b end_a)

-- `unmap_page` and `map_page` of `Physical_Page_Stack`
abbrev pub unmap_pivot : Pages → Pages
unmap_pivot s = record s { pivot = none }

abbrev pub map_pivot : ℕ → Pages → Pages
map_pivot phys s = record s { pivot = some phys }

-- A read and a write through `Physical_Page_Stack`, which fault when it is not mapped.
abbrev pub read_header : Pages → Run PhysicalPageStack
read_header s = elim (s.pivot) [ none ↦ fault | some page ↦ ok (s.memory page) ]

abbrev pub put_header : ℕ → PhysicalPageStack → Pages → Pages
put_header page header s = record s { memory = λ p. if p == page then header else s.memory p }

abbrev pub write_header : PhysicalPageStack → Pages → Run Pages
write_header header s = elim (s.pivot) [ none ↦ fault | some page ↦ ok (put_header page header s) ]

-- The assertions that end `physical_alloc`.
abbrev pub check_alloc : ℕ → Pages → Run (ℕ × Pages)
check_alloc phys s = do
  assert (bit_and phys 0xfff == 0)
  assert (bit_and phys no_phys_bits == 0)
  assert (not (phys == s.physical_page))
  ok (phys, s)

-- The branch of `physical_alloc` that takes the last page of a range, its first.
pub pop_range : PhysicalPageStack → Pages → Run (ℕ × Pages)
pop_range header s =
    let phys = s.physical_page in
    let gone = unmap_pivot s in
    let mapped = if header.next == invalid_phys_addr then gone else map_pivot header.next gone in
    do
      assert (not (phys == header.next))
      check_alloc phys (record mapped { physical_page = header.next })

unfoldable pub physical_alloc : Pages → Run (ℕ × Pages)
unfolding pop_range
physical_alloc s = do
  header ← read_header s
  assert (is_aligned header.length page_small)
  let left = sub64 header.length page_small
  taken ← write_header (record { next = header.next; length = left }) s
  if left == 0 then pop_range header taken else check_alloc (add64 s.physical_page left) taken

-- `physical_free_range`
unfoldable pub physical_free_range : ℕ → ℕ → Pages → Run Pages
physical_free_range address length s = do
  assert (is_aligned address page_small)
  assert (is_aligned length page_small)
  assert (bit_and address 0xfff == 0)
  assert (bit_and length 0xfff == 0)
  assert (ltb 0 length)
  assert (bit_and address no_phys_bits == 0)
  assert (bit_and (add64 address length) no_phys_bits == 0)
  pushed ← write_header (record { next = s.physical_page; length = length }) (map_pivot address s)
  ok (record pushed { physical_page = address })

unfoldable pub physical_free : ℕ → Pages → Run Pages
unfolding physical_free_range
physical_free address s = physical_free_range address page_small s

-- The end of `physical_page_remove`.
abbrev pub restore_pivot : ℕ → Status → Pages → Run (Status × Pages)
restore_pivot original status s = ok (status, map_pivot original s)

-- The body of the test in `physical_page_remove`: `Physical_Page_Stack` is read when it has just been
-- unmapped, for the argument of `map_page`.
pub unlink : ℕ → ℕ → Pages → Run (Status × Pages)
unlink original current s = do
  header ← read_header (unmap_pivot s)
  let there = map_pivot header.next s
  next_header ← read_header there
  let back = map_pivot current there
  here ← read_header back
  unlinked ← write_header (record { next = next_header.next; length = here.length }) back
  restore_pivot original Types.ok unlinked

-- The loop of `physical_page_remove`, on fuel.
pub remove_loop : ℕ → ℕ → ℕ → ℕ → Status → Pages → Run (Status × Pages)
unfolding unlink
remove_loop zero address original current status s = stuck
remove_loop (suc fuel) address original current status s =
    let next = (s.memory current).next in
    let rest = remove_loop fuel address original next Types.ok (map_pivot current s) in
    if current == invalid_phys_addr
    then restore_pivot original status s
    else if next == address
    then unlink original next (map_pivot current s)
    else rest

unfoldable pub physical_page_remove : ℕ → ℕ → Pages → Run (Status × Pages)
unfolding remove_loop
physical_page_remove fuel address s = do
  assert (is_aligned address page_small)
  remove_loop fuel address s.physical_page s.physical_page Types.absent s
