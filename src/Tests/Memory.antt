-- ===== src/Tests/Memory.antt =====
-- Runs of kernel/core/physical_allocator.c and kernel/core/slab.c.
use kernel_of_truth.Base.{
  ℕ, ◌≡◌, refl, leb, if◌then◌else◌, List, [], ◌∷◌, none, some, true, ok, arith,
}
use kernel_of_truth.RegionVector.{region}
use kernel_of_truth.Paging.{memory_writable, map_page}
use kernel_of_truth.PhysicalAllocator.{
  PhysicalPageStack, Pages, invalid_phys_addr, physical_region_contains, physical_alloc,
}
use kernel_of_truth.PhysicalAllocator.Ranges.{FreeRange, Whole, IsStack, free_at}
use kernel_of_truth.PhysicalAllocator.Alloc.{physical_alloc-Takes}
use kernel_of_truth.PhysicalAllocator.Boot.{MmapEntry, insert_regions}
use kernel_of_truth.PhysicalAllocator.Boot.Inserted.{available_at, insert_regions-Inserts}
use kernel_of_truth.Slab.{Slab}
use kernel_of_truth.Tests.Pages.{no_tables}

-- Two free ranges: three pages at 0x8000, then one at 0x20000.
abbrev header : ℕ → ℕ → PhysicalPageStack
header next length = record { next = next; length = length }

abbrev two_ranges : Pages
two_ranges = record {
  physical_page = 0x8000;
  pivot = some 0x8000;
  memory = λ p. if leb p 0x8000 then header 0x20000 0x3000 else header invalid_phys_addr 0x1000;
}

abbrev ranges : List FreeRange
ranges = (0x8000, 0x3000) ∷ (0x20000, 0x1000) ∷ []

two_ranges-IsStack : IsStack two_ranges ranges
two_ranges-IsStack = record {
  chain = (refl, refl, (refl, refl, refl));
  whole = ((refl, refl, omega arith, omega arith), ((refl, refl, omega arith, omega arith), tt));
  distinct = ((omega arith, tt), (tt, tt));
  pivot = refl;
}

-- The last page of the first range comes first.
alloc_first : (s' : Pages) × (physical_alloc two_ranges ≡ ok (0xa000, s'))
unfolding physical_alloc
alloc_first = (_, refl)

physical_alloc-Takes_example :
    (page : ℕ) × (s' : Pages) × (left : List FreeRange) × (physical_alloc two_ranges
      ≡ ok (page, s'))
    × IsStack s' left
    × Whole (page, 4096)
    × ((x : ℕ) → free_at ranges x ≡ free_at ((page, 4096) ∷ left) x)
physical_alloc-Takes_example =
    physical_alloc-Takes two_ranges (0x8000, 0x3000) ((0x20000, 0x1000) ∷ []) two_ranges-IsStack

-- No page is free, and there are two regions of memory, which the boot map overlaps.
abbrev no_ranges : Pages
no_ranges = record {
  physical_page = invalid_phys_addr;
  pivot = none;
  memory = λ p. header invalid_phys_addr 0;
}

no_ranges-IsStack : IsStack no_ranges []
no_ranges-IsStack = record { chain = refl; whole = tt; distinct = tt; pivot = refl }

abbrev two_regions : List MmapEntry
two_regions =
    record { addr = 0; len = 0x9f000; available = true }
    ∷ record { addr = 0x100000; len = 0x1000000; available = true }
    ∷ []

insert_regions-Inserts_example :
    (s' : Pages) × (ranges' : List FreeRange) × (insert_regions 0x400000 0x2000 [] two_regions
        no_ranges
      ≡ ok s')
    × IsStack s' ranges'
    × ((x : ℕ) → free_at ranges' x ≡ available_at 0x400000 two_regions x)
unfolding physical_region_contains
insert_regions-Inserts_example =
    insert_regions-Inserts 0x400000 0x2000 two_regions no_ranges no_ranges-IsStack (omega arith)
      refl refl
      (
        omega arith,
        ((refl, refl, omega arith, omega arith), λ h. absurd (omega (arith, h))),
        (omega arith, ((refl, refl, omega arith, omega arith), λ h. absurd (omega (arith, h))), tt),
      )

-- One free block of the higher half.
abbrev half : Slab
half = record {
  vector = (region 0xffff808000000000 0x100000 ∷ []) ∷ [];
  space = no_tables;
  usage = 0x100000;
}

-- After an allocation of one page, which is the first of the supply.
abbrev one_taken : Slab
one_taken = record {
  vector = (region 0xffff808000001000 0xff000 ∷ []) ∷ [];
  space =
      (map_page 0xffff808000000000 0x1000 memory_writable
        (record no_tables { supply = 0x2000 ∷ 0x3000 ∷ 0x4000 ∷ 0x5000 ∷ 0x6000 ∷ [] })).1;
  usage = 0xff000;
}
