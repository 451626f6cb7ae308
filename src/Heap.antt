-- ===== src/Heap.antt =====
-- kernel/core/heap.c: the kernel heap. Every block lies between two red zones, whose fill is checked
-- when the block is given back. `page` says whether the allocator of pages can serve a region vector
-- that has to grow.
pub mod Invariant
pub mod Alloc
pub mod Init
pub mod Free
pub mod Live
use kernel_of_truth.Base.{
  ℕ, zero, suc, ◌+◌, ◌*◌, ◌/◌, ◌%◌, ◌==◌, ◌&&◌, Bool, true, false, if◌then◌else◌, ltb, leb, Option,
  none, some, Run, ok, panic, fault, ◌>>=◌, ◌>>◌, assert,
}
use kernel_of_truth.Types.{add64, sub64, u64_mod, page_small}
use kernel_of_truth.String.{Mem, memset, memcpy}
use kernel_of_truth.String.Words.{read64}
use kernel_of_truth.RegionVector
use kernel_of_truth.RegionVector.{
  RegionVector, region_vector_init, region_alloc, region_free, region_find_size_and_free,
}

-- The globals of the file: `heap_metadata_used`, `heap_metadata_free`, `heap` and `Used`, with the
-- memory that `heap` points into.
pub record Heap : Type 0 where
  pub used : RegionVector
  pub free : RegionVector
  pub base : ℕ
  pub mem : Mem
  pub usage : ℕ

abbrev pub red_zone_size : ℕ
red_zone_size = 8

abbrev pub red_zone_fill : ℕ
red_zone_fill = 0xcccccccccccccccc

abbrev pub heap_size : ℕ
heap_size = 16 * page_small

-- `heap_get_usage`
pub heap_get_usage : Heap → ℕ
heap_get_usage h = h.usage

-- The calls of `slab_alloc` in `heap_init` yield the two metadata pages and the heap itself; a NULL
-- runs into `assert(0)`.
unfoldable pub heap_init : Bool → Bool → ℕ → Mem → Run Heap
heap_init used_page free_page base m = do
  assert used_page
  assert free_page
  assert (if base == 0 then false else true)
  free ← region_free region_vector_init base heap_size true
  ok (record {
    used = region_vector_init;
    free = free;
    base = base;
    mem = memset m base red_zone_fill heap_size;
    usage = 0;
  })

-- The loop over `fill_chunks`, with `k` rounds left.
pub filled_chunks : Mem → ℕ → ℕ → ℕ → Bool
unfolding read64
filled_chunks m a zero i = true
filled_chunks m a (suc k) i = (read64 m (a + 8 * i) == red_zone_fill) && filled_chunks m a k (i + 1)

-- The four assertions that a block, from its red zone on, lies in the heap.
pub assert_bounds : ℕ → ℕ → ℕ → Run (Unit {0})
assert_bounds base a n = do
  assert (ltb a (add64 base heap_size))
  assert (leb base a)
  assert (ltb base (add64 a n))
  assert (leb (add64 a n) (add64 base heap_size))

-- The rest of `kmalloc`, after a successful `region_alloc`.
pub kmalloc_take : Heap → ℕ → ℕ → ℕ → RegionVector → Bool → Run (ℕ × Heap)
unfolding filled_chunks assert_bounds
kmalloc_take h bytes n a free page = do
  used ← region_free h.used a n page
  assert (filled_chunks h.mem a (n / 8) 0)
  assert_bounds h.base a bytes
  ok (add64 a red_zone_size, record h { used = used; free = free; usage = add64 h.usage n })

-- What `kmalloc` makes of the answer of `region_alloc`.
pub kmalloc_found : Heap → ℕ → ℕ → Bool → Option (ℕ × RegionVector) → Run (ℕ × Heap)
unfolding kmalloc_take
kmalloc_found h bytes n page none = ok (0, h)
kmalloc_found h bytes n page (some (a, free)) = kmalloc_take h bytes n a free page

-- `kmalloc` from the sum `n` of the size and the red zones on.
pub kmalloc_sized : Heap → ℕ → ℕ → Bool → Run (ℕ × Heap)
unfolding kmalloc_found
kmalloc_sized h bytes n page = region_alloc h.free n >>= kmalloc_found h bytes n page

-- `kmalloc`: the pointer that it returns, 0 for NULL, and the heap afterwards.
unfoldable pub kmalloc : Heap → ℕ → Bool → Run (ℕ × Heap)
unfolding kmalloc_sized
kmalloc h bytes page = kmalloc_sized h bytes (add64 bytes (2 * red_zone_size)) page

-- `krealloc`
pub krealloc : Heap → ℕ → ℕ → Bool → Run (ℕ × Heap)
unfolding kmalloc
krealloc h ptr size page = if ptr == 0 then ok (0, h) else do
  (new, h') ← kmalloc h size page
  if new == 0 then ok (0, h') else ok (new, record h' { mem = memcpy h'.mem new ptr size })

-- `kcalloc`: the product of its arguments wraps.
pub kcalloc : Heap → ℕ → ℕ → Bool → Run (ℕ × Heap)
unfolding kmalloc
kcalloc h count size page = do
  let bytes = (count * size) % u64_mod
  (p, h') ← kmalloc h bytes page
  if p == 0 then ok (0, h') else ok (p, record h' { mem = memset h'.mem p 0 bytes })

-- The assertions of `kfree` on the block of `n` bytes at `a`: its red zones, and its place.
pub kfree_checks : Heap → ℕ → ℕ → Run (Unit {0})
unfolding read64 assert_bounds
kfree_checks h a n = do
  assert (read64 h.mem a == red_zone_fill)
  assert (read64 h.mem (sub64 (add64 a n) red_zone_size) == red_zone_fill)
  assert_bounds h.base a n

-- The end of `kfree`: the fill, the accounting and the return of the block.
pub kfree_return : Heap → ℕ → ℕ → RegionVector → Bool → Run Heap
kfree_return h a n used page = do
  free ← region_free h.free a n page
  ok (record h {
    used = used;
    free = free;
    mem = memset h.mem a red_zone_fill n;
    usage = sub64 h.usage n;
  })

-- `kfree` behind its test for NULL, with the address of the leading red zone.
pub kfree_at : Heap → ℕ → Bool → Run Heap
unfolding kfree_checks kfree_return
kfree_at h a page = do
  (n, used) ← region_find_size_and_free h.used a
  kfree_checks h a n
  kfree_return h a n used page

unfoldable pub kfree : Heap → ℕ → Bool → Run Heap
unfolding kfree_at
kfree h ptr page = if ptr == 0 then ok h else kfree_at h (sub64 ptr red_zone_size) page
