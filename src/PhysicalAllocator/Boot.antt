-- ===== src/PhysicalAllocator/Boot.antt =====
-- `insert_regions` of kernel/core/physical_allocator.c: which memory is free at the start.
-- The ranges that it gives to `physical_free_range` are a list, in the order of the calls. The window on
-- the list of modules, which is mapped before and unmapped after, is left out, and so is `total`, which
-- is not used. `boot_end` is `Boot_Map_End`, which the linker gives.
pub mod Regions
pub mod Inserted
use kernel_of_truth.Base.{
  ℕ, ◌+◌, ◌-◌, ◌*◌, ◌/◌, ◌==◌, ◌&&◌, Bool, true, false, not, bit_and, if◌then◌else◌, ltb, List, [],
  ◌∷◌, ◌++◌, map, length, Run, ok, ◌>>=◌,
}
use kernel_of_truth.Types.{add64, sub64, page_small}
use kernel_of_truth.PhysicalAllocator.{Pages, physical_region_contains, physical_free_range}
use kernel_of_truth.PhysicalAllocator.Ranges.{FreeRange}

-- `struct reserved_region`, by its start and its end; a module of the boot loader has the same two.
abbrev pub Reserved : Type 0
Reserved = ℕ × ℕ

-- `struct multiboot_mmap_entry`, with the test for available memory.
pub record MmapEntry : Type 0 where
  pub addr : ℕ
  pub len : ℕ
  pub available : Bool

-- `align_as` and `round_next` of include/truth/types.h, for a page
abbrev pub align_as : ℕ → ℕ
align_as value = bit_and value 0xfffffffffffff000

abbrev pub round_next : ℕ → ℕ
round_next value = align_as (add64 value (page_small - 1))

abbrev pub boot_map_start : ℕ
boot_map_start = 0x1000

-- `sizeof(struct multiboot_mod_list)`
abbrev pub mod_list_size : ℕ
mod_list_size = 16

-- The array `reserved`.
unfoldable pub reserved_regions : ℕ → ℕ → List Reserved → List Reserved
reserved_regions boot_map_end mods_addr modules =
    let mods_list_start = align_as mods_addr in
    let mods_list_end = round_next (add64 mods_addr (length modules * mod_list_size)) in
    let boot_map : Reserved = (boot_map_start, boot_map_end) in
    let mods_list : Reserved = (mods_list_start, mods_list_end) in
    let within =
      physical_region_contains boot_map_start boot_map_end mods_list_start mods_list_end in
    let known : List Reserved =
      if within
      then boot_map ∷ []
      else if ltb boot_map_start mods_list_start
      then boot_map ∷ mods_list ∷ []
      else mods_list ∷ boot_map ∷ [] in
    known ++ map (λ (m : Reserved). (m.0, round_next m.1)) modules

-- The range is given back if the test holds.
abbrev pub free_if : Bool → ℕ → ℕ → List FreeRange → List FreeRange
free_if true address length ranges = (address, length) ∷ ranges
free_if false address length ranges = ranges

-- The loop over `reserved`, for an entry with its address and length so far: the calls of
-- `physical_free_range`, and `inserted`.
pub scan_reserved : ℕ → ℕ → List Reserved → List FreeRange × Bool
scan_reserved addr len [] = ([], false)
scan_reserved addr len (r ∷ []) =
    let mem_end = add64 addr len in
    let after = free_if (ltb r.1 mem_end) r.1 (sub64 mem_end r.1) [] in
    let calls = free_if (ltb addr r.0) addr (sub64 r.0 addr) after in
    if physical_region_contains addr mem_end r.0 r.1 then (calls, true) else ([], false)
scan_reserved addr len (r ∷ r' ∷ rs) =
    let mem_end = add64 addr len in
    let next_too = physical_region_contains addr mem_end r'.0 r'.1 in
    let moved = scan_reserved r'.0 (sub64 len (sub64 r'.0 r.0)) (r' ∷ rs) in
    let stayed = scan_reserved addr len (r' ∷ rs) in
    let between = free_if (not (r.1 == r'.0)) r.1 (sub64 r'.0 r.1) moved.0 in
    let after = free_if (ltb r.1 mem_end) r.1 (sub64 mem_end r.1) stayed.0 in
    let calls =
      free_if (ltb addr r.0) addr (sub64 r.0 addr) (if next_too then between else after) in
    if physical_region_contains addr mem_end r.0 r.1 then (calls, true) else stayed

-- The loop over the entries of the memory map.
pub free_regions : List Reserved → List MmapEntry → List FreeRange
unfolding scan_reserved
free_regions reserved [] = []
free_regions reserved (e ∷ es) =
    let rest = free_regions reserved es in
    let (calls, inserted) = scan_reserved e.addr e.len reserved in
    let own = if inserted then calls else ((e.addr, e.len) ∷ []) in
    if e.available then own ++ rest else rest

-- The calls, one after the other.
pub free_ranges : List FreeRange → Pages → Run Pages
free_ranges [] s = ok s
free_ranges (range ∷ ranges) s = physical_free_range range.0 range.1 s >>= free_ranges ranges

-- `insert_regions`, which is all that `physical_allocator_init` calls.
unfoldable pub insert_regions : ℕ → ℕ → List Reserved → List MmapEntry → Pages → Run Pages
unfolding free_regions free_ranges
insert_regions boot_map_end mods_addr modules mmap s =
    free_ranges (free_regions (reserved_regions boot_map_end mods_addr modules) mmap) s
