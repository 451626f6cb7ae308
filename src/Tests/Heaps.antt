-- ===== src/Tests/Heaps.antt =====
-- Runs of kernel/core/heap.c, on a heap at address 65536.
use kernel_of_truth.Base.{
  ℕ, ◌-◌, ◌*◌, ◌≤◌, ◌≡◌, ◌≢◌, ◌⊎◌, refl, true, false, ok, some, [], ◌∷◌, arith,
}
use kernel_of_truth.Types.{sub64}
use kernel_of_truth.String.{Mem}
use kernel_of_truth.String.Memory.{within}
use kernel_of_truth.RegionVector.{region, region_alloc, region_free, region_find_size_and_free}
use kernel_of_truth.RegionVector.Cover.{inside, cover, cover_section, total, total_section, NoneAt}
use kernel_of_truth.RegionVector.Find.{FirstAt}
use kernel_of_truth.RegionVector.Search.{NoneAbove}
use kernel_of_truth.String.Words.{read64}
use kernel_of_truth.Heap.{Heap, heap_size, red_zone_size, heap_init, kmalloc, kfree}
use kernel_of_truth.Heap.Invariant.{IsValid}
use kernel_of_truth.Heap.Init.{heap_init-IsValid}
use kernel_of_truth.Heap.Alloc.{Allocates, gross, kmalloc-Allocates}
use kernel_of_truth.Heap.Free.{Frees, kfree-Frees}
use kernel_of_truth.Heap.Live.{with_mem, kfree-live, kfree-kmalloc}

abbrev clean : Mem
clean = λ _. 0xcc

-- A heap of which nothing is used.
abbrev unused_heap : Heap
unused_heap = record {
  used = [] ∷ [];
  free = (region 65536 heap_size ∷ []) ∷ [];
  base = 65536;
  mem = clean;
  usage = 0;
}

-- After a `kmalloc` of 8 bytes.
abbrev used_heap : Heap
used_heap = record {
  used = (region 65536 24 ∷ []) ∷ [];
  free = (region 65560 65512 ∷ []) ∷ [];
  base = 65536;
  mem = clean;
  usage = 24;
}

unused_heap-IsValid : IsValid unused_heap
unfolding cover cover_section total total_section inside
unused_heap-IsValid = record {
  free_sound = record { chain = λ z. cc; fits = omega arith; bounded = omega arith };
  used_sound = record { chain = λ z. cc; fits = omega arith; bounded = omega arith };
  zones = omega arith;
  low = omega arith;
  space = omega arith;
  partition = λ x. omega arith;
  clean = λ x c. refl;
  counted = omega arith;
}

used_heap-IsValid : IsValid used_heap
unfolding cover cover_section total total_section inside
used_heap-IsValid = record {
  free_sound = record { chain = λ z. cc; fits = omega arith; bounded = omega arith };
  used_sound = record { chain = λ z. cc; fits = omega arith; bounded = omega arith };
  zones = omega arith;
  low = omega arith;
  space = omega arith;
  partition = λ x. ground arith;
  clean = λ x c. refl;
  counted = omega arith;
}

malloc_8 : kmalloc unused_heap 8 true ≡ ok (65544, used_heap)
unfolding kmalloc region_alloc region_free
malloc_8 = refl

heap_init-IsValid_example :
    (h : Heap) × (heap_init true true 65536 clean ≡ ok h)
    × IsValid h
    × (h.base ≡ 65536)
    × ((x : ℕ) → cover h.used x ≡ 0)
heap_init-IsValid_example = heap_init-IsValid 65536 clean (omega arith) (omega arith)

kmalloc-Allocates_example :
    (p : ℕ) × (h' : Heap) × (kmalloc unused_heap 8 true ≡ ok (p, h'))
    × (((p ≡ 0) × (h' ≡ unused_heap) × NoneAbove (gross 8) unused_heap.free)
        ⊎ Allocates unused_heap 8 p h')
kmalloc-Allocates_example = kmalloc-Allocates 8 unused_heap-IsValid (omega arith) (omega arith)

first_16 :
    region_alloc unused_heap.free (gross 0)
    ≡ ok (some (unused_heap.base, (region 65552 65520 ∷ []) ∷ []))
unfolding region_alloc
first_16 = refl

kfree_returns : (h : Heap) × (kfree used_heap 65544 true ≡ ok h)
unfolding kfree region_find_size_and_free region_free read64
kfree_returns = (_, refl)

-- A pointer that is not in use is accepted where the fill is beside it.
kfree_unused : (h : Heap) × (kfree unused_heap 65560 true ≡ ok h)
unfolding kfree region_find_size_and_free region_free read64
kfree_unused = (_, refl)

kfree-Frees_example :
    ((◌≡◌ {A = ℕ} 65544 0) × (kfree_returns.0 ≡ used_heap))
    ⊎ ((n : ℕ) × Frees used_heap (sub64 65544 red_zone_size) n kfree_returns.0
        × ((FirstAt (sub64 65544 red_zone_size) n used_heap.used × (2 * red_zone_size ≤ n))
            ⊎ (NoneAt (sub64 65544 red_zone_size) used_heap.used × (n ≡ 0))))
kfree-Frees_example = kfree-Frees 65544 used_heap-IsValid kfree_returns.1

found_24 : region_find_size_and_free used_heap.used (65544 - red_zone_size) ≡ ok (24, [] ∷ [])
unfolding region_find_size_and_free
found_24 = refl

kfree-live_example :
    (h' : Heap) × (kfree used_heap 65544 true ≡ ok h')
    × Frees used_heap (65544 - red_zone_size) 24 h'
kfree-live_example =
    kfree-live 65544 24 used_heap-IsValid (omega arith) (omega arith) found_24 (λ e. omega arith)
      (λ x c. refl)

-- The byte behind the 8 that were asked for is overwritten.
abbrev overrun_heap : Heap
overrun_heap = record used_heap { mem = λ x. elim (within 65552 1 x) [ true ↦ 0 | false ↦ 0xcc ] }

overrun : read64 overrun_heap.mem 65552 ≢ 0xcccccccccccccccc
unfolding read64
overrun = λ e. ground arith

-- The 8 bytes are set to 1.
abbrev written : Mem
written = λ x. elim (within 65544 8 x) [ true ↦ 1 | false ↦ 0xcc ]

kfree-kmalloc_example :
    (h'' : Heap) × (kfree (with_mem used_heap written) 65544 true ≡ ok h'')
    × IsValid h''
    × ((x : ℕ) → cover h''.free x ≡ cover unused_heap.free x)
    × ((x : ℕ) → cover h''.used x ≡ cover unused_heap.used x)
    × ((x : ℕ) → within 65544 8 x ≡ false → h''.mem x ≡ unused_heap.mem x)
kfree-kmalloc_example =
    kfree-kmalloc 8 65544 written unused_heap-IsValid (omega arith) (omega arith) malloc_8
      (λ e. omega arith) (λ x out. rw (out, written))
