-- ===== src/Heap/Init.antt =====
-- `heap_init`.
use kernel_of_truth.Base.{ℕ, ◌+◌, ◌≤◌, ◌<◌, ◌≡◌, refl, true, false, ◌==◌, [], ◌∷◌, arith, ok}
use kernel_of_truth.Types.{u64_mod}
use kernel_of_truth.String.{Mem, memset}
use kernel_of_truth.String.Memory.{memset-filled}
use kernel_of_truth.RegionVector.{region, region_free, region_vector_init}
use kernel_of_truth.RegionVector.Cover.{inside, cover, cover_section, total, total_section}
use kernel_of_truth.Heap.{Heap, heap_size, red_zone_size, red_zone_fill, heap_init}
use kernel_of_truth.Heap.Invariant.{IsValid}

-- The heap that `heap_init` sets up.
abbrev pub fresh_heap : ℕ → Mem → Heap
fresh_heap base m = record {
  used = [] ∷ [];
  free = (region base heap_size ∷ []) ∷ [];
  base = base;
  mem = memset m base red_zone_fill heap_size;
  usage = 0;
}

-- With its three allocations served, `heap_init` leaves a valid heap at the address given, in which
-- nothing is used; the heap starts behind the first 8 bytes of memory and ends before the last.
pub heap_init-IsValid :
    (base : ℕ) (m : Mem)
    → red_zone_size ≤ base
    → base + heap_size < u64_mod
    → (h : Heap) × (heap_init true true base m ≡ ok h)
      × IsValid h
      × (h.base ≡ base)
      × ((x : ℕ) → cover h.used x ≡ 0)
unfolding heap_init region_vector_init region_free cover cover_section total total_section inside
heap_init-IsValid base m low space =
    let some_base : (base == 0) ≡ false = ground arith in
    (
      fresh_heap base m,
      rw some_base,
      record {
        free_sound = record { chain = λ z. cc; fits = omega arith; bounded = omega arith };
        used_sound = record { chain = λ z. cc; fits = omega arith; bounded = omega arith };
        zones = omega arith;
        low = low;
        space = space;
        partition = λ x. omega arith;
        clean = λ x c. ground (arith, memset-filled m base red_zone_fill heap_size x);
        counted = omega arith;
      },
      refl,
      λ x. refl,
    )
