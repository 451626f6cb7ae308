-- ===== src/Tests/Pages.antt =====
-- Runs of kernel/arch/x64/paging.c.
use kernel_of_truth.Base.{ℕ, ◌≡◌, refl, inl, bit_and, [], ◌∷◌, some, true, ok, arith}
use kernel_of_truth.Types
use kernel_of_truth.Types.{Status}
use kernel_of_truth.Paging.{
  Space, memory_present, memory_writable, address_mask, page_entry_to_phys, page_entry, pl4_index,
  pl3_index, pl2_index, pl1_index, map_page, map_update_page, unmap_page, map_range, virt_to_phys,
}
use kernel_of_truth.Paging.Walk.{mapping}
use kernel_of_truth.Paging.Outside.{
  Ordinary, MapsOrdinary, MapsOrdinaryRange, map_page-MapsOrdinary, map_range-MapsOrdinaryRange,
}
use kernel_of_truth.Paging.Translate.{virt_to_phys-map_page}
use kernel_of_truth.Paging.Access.{
  Canonical, Guarded, Reaches, start, map, update, unmap, Reaches-Guarded,
}
use kernel_of_truth.Paging.Ranges.{in_range}
use kernel_of_truth.Paging.Teardown.{Among, page_table_fini, page_table_fini-Among}

-- An address space without tables, and six pages.
abbrev pub no_tables : Space
no_tables = record {
  pl4 = λ _. 0;
  pl3 = λ _ _. 0;
  pl2 = λ _ _ _. 0;
  pl1 = λ _ _ _ _. 0;
  supply = 0x1000 ∷ 0x2000 ∷ 0x3000 ∷ 0x4000 ∷ 0x5000 ∷ 0x6000 ∷ [];
  freed = [];
}

-- One page of it mapped, writable.
abbrev one_page : Space
one_page = (map_page 0x400000 0x9000 memory_writable no_tables).1

map_page_ok : (map_page 0x400000 0x9000 memory_writable no_tables).0 ≡ Types.ok
unfolding map_page pl4_index pl3_index pl2_index pl1_index
map_page_ok = refl

virt_to_phys_ok : virt_to_phys 0x400123 one_page ≡ ok 0x9000
unfolding virt_to_phys map_page pl4_index pl3_index pl2_index pl1_index
virt_to_phys_ok = refl

-- Writable without the bit for no execution.
map_page_refused : (map_page 0x400000 0x9000 2 no_tables).0 ≡ Types.permissions
unfolding map_page
map_page_refused = refl

-- A failure for want of a page is reported as `Error_Present`.
map_range_exhausted :
    (map_range 0x400000 0x9000 2 memory_writable (record no_tables { supply = [] })).0
    ≡ Types.present
unfolding map_range map_page pl4_index pl3_index pl2_index pl1_index
map_range_exhausted = refl

-- A second `unmap_page` gives back an address that no page has.
unmap_page_twice :
    (unmap_page 0x400000 true (unmap_page 0x400000 true one_page)).freed
    ≡ 0x000cccccccccc000 ∷ 0x9000 ∷ []
unfolding unmap_page map_page pl4_index pl3_index pl2_index pl1_index
unmap_page_twice = refl

-- `Kernel_Pivot_Page`, for a kernel that starts at 0xffffffff80100000.
abbrev pub pivot_page : ℕ
pivot_page = 0xffffffff800ff000

low-Ordinary : Ordinary pivot_page 0x400000
unfolding pl4_index pl3_index pl2_index pl1_index
low-Ordinary = ((λ e. omega (arith, e)), refl)

map_page-MapsOrdinary_example :
    MapsOrdinary pivot_page 0x400000 0x9000 memory_writable no_tables
      (map_page 0x400000 0x9000 memory_writable no_tables)
map_page-MapsOrdinary_example =
    map_page-MapsOrdinary pivot_page 0x400000 0x9000 memory_writable no_tables low-Ordinary

virt_to_phys-map_page_example :
    virt_to_phys 0x400000 (map_page 0x400000 0x9000 memory_writable no_tables).1
    ≡ ok (bit_and 0x9000 address_mask)
virt_to_phys-map_page_example =
    virt_to_phys-map_page 0x400000 0x9000 memory_writable no_tables refl map_page_ok

-- The addresses of three pages have the first entry of the first table.
three-Ordinary : (b : ℕ) → in_range 3 0x400000 b ≡ true → Ordinary pivot_page b
unfolding in_range pl4_index pl3_index pl2_index pl1_index
three-Ordinary b here = ((λ e. ground arith), ground arith)

map_range-MapsOrdinaryRange_example :
    MapsOrdinaryRange pivot_page 3 0x400000 0x9000 memory_writable no_tables
      (map_range 0x400000 0x9000 3 memory_writable no_tables)
map_range-MapsOrdinaryRange_example =
    map_range-MapsOrdinaryRange pivot_page 3 0x400000 0x9000 memory_writable no_tables
      three-Ordinary

-- An address space without tables has no page to guard.
no_tables-Guarded : Guarded pivot_page no_tables
unfolding Guarded mapping
no_tables-Guarded b entry canonical ordinary mapped = ground arith

low_address : Canonical 0x400000
unfolding Canonical
low_address = inl (omega arith)

three_calls : Reaches pivot_page no_tables (
    unmap_page 0x400000 true
      (map_update_page 0x400000 memory_present
        (map_page 0x400000 0x9000 memory_writable no_tables).1).1)
three_calls =
    unmap
      (update (map start 0x400000 0x9000 memory_writable low_address low-Ordinary) 0x400000
        memory_present low_address low-Ordinary)
      0x400000 true low-Ordinary

Reaches-Guarded_example : Guarded pivot_page (
    unmap_page 0x400000 true
      (map_update_page 0x400000 memory_present
        (map_page 0x400000 0x9000 memory_writable no_tables).1).1)
Reaches-Guarded_example = Reaches-Guarded pivot_page no_tables _ no_tables-Guarded three_calls

one_page_mapped : mapping one_page 0x400000 ≡ some (page_entry 0x9000 memory_writable)
unfolding mapping map_page pl4_index pl3_index pl2_index pl1_index
one_page_mapped = refl

page_table_fini-Among_example :
    Among (page_entry_to_phys (page_entry 0x9000 memory_writable)) (page_table_fini 0x7000 one_page)
page_table_fini-Among_example =
    page_table_fini-Among 0x7000 0x400000 (page_entry 0x9000 memory_writable) one_page (omega arith)
      one_page_mapped
