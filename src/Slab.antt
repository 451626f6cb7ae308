-- ===== src/Slab.antt =====
-- kernel/core/slab.c: pages of the higher half, each with memory behind it.
-- The three parts that it puts together are the region vector `slab_higher_half`, the tables of
-- kernel/arch/x64/paging.c, and `physical_alloc`, which takes the next page of the supply.
-- The lock is left out: no caller of these functions has it.
pub mod Request
pub mod RoundTrip
pub mod Init
use kernel_of_truth.Base.{
  ℕ, zero, suc, ◌+◌, ◌-◌, ◌^◌, ◌/◌, ◌==◌, Bool, true, false, not, if◌then◌else◌, bit_and, Option,
  none, some, List, [], ◌∷◌, ◌++◌, Run, ok, panic, fault, ◌>>=◌, ◌>>◌, assert,
}
use kernel_of_truth.Types
use kernel_of_truth.Types.{Status, add64, sub64, page_small}
use kernel_of_truth.RegionVector.{
  RegionVector, region, region_vector_init, region_alloc, region_free, has_room,
}
use kernel_of_truth.Paging.{
  Space, is_lower_half, memory_user_access, memory_writable, map_page, map_range, unmap_range,
}

-- `slab_higher_half`, the address space, and `Usage`.
pub record Slab : Type 0 where
  pub vector : RegionVector
  pub space : Space
  pub usage : ℕ

abbrev pub is_aligned_page : ℕ → Bool
is_aligned_page size = bit_and size 0xfff == 0

-- A call of `physical_alloc`, with `assert(0)` where there is no page.
abbrev pub next_page : List ℕ → Run (ℕ × List ℕ)
next_page [] = panic
next_page (page ∷ pages) = ok (page, pages)

-- `assert(0)` where `map_page` has failed.
abbrev pub assert_mapped : Status × Space → Run Space
assert_mapped (Types.ok, s) = ok s
assert_mapped (_, s) = panic

-- The loop of `slab_alloc_helper`, with `k` pages left, and `*phys`.
unfoldable pub alloc_pages : ℕ → ℕ → ℕ → ℕ → Space → Run (ℕ × Space)
alloc_pages zero next phys attrs s = ok (phys, s)
alloc_pages (suc k) next phys attrs s = next_page s.supply >>= λ taken.
    assert_mapped (map_page next taken.0 attrs (record s { supply = taken.1 }))
    >>= alloc_pages k (add64 next page_small) taken.0 attrs

pub helper_block : ℕ → ℕ → ℕ → Slab → Option (ℕ × RegionVector) → Run (Option ℕ × ℕ × Slab)
unfolding alloc_pages
helper_block bytes phys attrs st none = ok (none, phys, st)
helper_block bytes phys attrs st (some (a, w)) =
    alloc_pages (bytes / page_small) a phys attrs st.space >>= λ (last, s).
    ok (some a, last, record { vector = w; space = s; usage = sub64 st.usage bytes })

-- `slab_alloc_helper`: the address, or `none` for NULL, and `*phys`.
unfoldable pub slab_alloc_helper : ℕ → ℕ → ℕ → Slab → Run (Option ℕ × ℕ × Slab)
unfolding helper_block
slab_alloc_helper bytes phys attrs st =
    let alloc = region_alloc st.vector bytes >>= helper_block bytes phys attrs st in
    if not (is_aligned_page bytes) then ok (none, phys, st) else alloc

-- `extend_vector` of kernel/core/region_vector.c: `slab_alloc_locked` of a page, from this same vector.
unfoldable pub extend_slab : Slab → Run (Option ℕ × ℕ × Slab)
unfolding slab_alloc_helper
extend_slab st = do
  assert (bit_and memory_writable memory_user_access == 0)
  slab_alloc_helper page_small 0 memory_writable st

-- The end of `region_free` with a section more: NULL fails its assertion.
abbrev pub link_section : ℕ → ℕ → Option ℕ × ℕ × Slab → Run Slab
link_section a size (none, phys, st) = panic
link_section a size (some page, phys, st) =
    ok (record st { vector = st.vector ++ (region a size ∷ []) ∷ [] })

-- `region_free` of `slab_higher_half`: with a slot left in a section it asks for no page, and else the
-- vector gives up a page of its own for a section more, which is mapped and taken off `Usage`.
unfoldable pub free_region : ℕ → ℕ → Slab → Run Slab
unfolding extend_slab
free_region a size st =
    let kept = region_free st.vector a size true >>= λ v. ok (record st { vector = v }) in
    let extended = extend_slab st >>= link_section a size in
    if has_room st.vector then kept else extended

-- The end of `slab_alloc_request_physical`, after `map_range`: a failure gives the block back.
unfoldable pub requested : ℕ → ℕ → RegionVector → ℕ → Status × Space → Run (Option ℕ × Slab)
unfolding free_region
requested a size w usage (Types.ok, s) =
    ok (some a, record { vector = w; space = s; usage = sub64 usage size })
requested a size w usage (_, s) =
    free_region a size (record { vector = w; space = s; usage = usage }) >>= λ st. ok (none, st)

pub request_block : ℕ → ℕ → ℕ → Slab → Option (ℕ × RegionVector) → Run (Option ℕ × Slab)
unfolding requested
request_block phys size attrs st none = ok (none, st)
request_block phys size attrs st (some (a, w)) =
    requested a size w st.usage (map_range a phys (size / page_small) attrs st.space)

-- `slab_alloc_request_physical`: the address, or `none` for NULL.
unfoldable pub slab_alloc_request_physical : ℕ → ℕ → ℕ → Slab → Run (Option ℕ × Slab)
unfolding request_block
slab_alloc_request_physical phys size attrs st =
    let alloc = region_alloc st.vector size >>= request_block phys size attrs st in
    if not (is_aligned_page size) then ok (none, st) else if size == 0 then ok (none, st) else alloc

-- `slab_free_helper`
unfoldable pub slab_free_helper : ℕ → ℕ → Bool → Slab → Run Slab
unfolding free_region
slab_free_helper bytes address free_phys st =
    let s = unmap_range (bytes / page_small) address free_phys st.space in
    let unmapped : Slab = record { vector = st.vector; space = s; usage = add64 st.usage bytes } in
    if address == 0 then ok st else free_region address bytes unmapped

-- `slab_free` and `slab_free_virt`
unfoldable pub slab_free : ℕ → ℕ → Slab → Run Slab
unfolding slab_free_helper
slab_free bytes address st = do
  assert (not (is_lower_half address))
  slab_free_helper bytes address true st

unfoldable pub slab_free_virt : ℕ → ℕ → Slab → Run Slab
unfolding slab_free_helper
slab_free_virt bytes address st = do
  assert (not (is_lower_half address))
  slab_free_helper bytes address false st

-- `slab_alloc` and `slab_alloc_phys`
unfoldable pub slab_alloc : ℕ → ℕ → ℕ → Slab → Run (Option ℕ × ℕ × Slab)
unfolding slab_alloc_helper
slab_alloc bytes phys attrs st = do
  assert (bit_and attrs memory_user_access == 0)
  slab_alloc_helper bytes phys attrs st

unfoldable pub slab_alloc_phys : ℕ → ℕ → Slab → Run (Option ℕ × ℕ × Slab)
unfolding slab_alloc_helper
slab_alloc_phys phys attrs st = do
  assert (bit_and attrs memory_user_access == 0)
  slab_alloc_helper page_small phys attrs st

-- `slab_free_locked` and `slab_alloc_locked`, for a caller that has the lock
abbrev pub slab_free_locked : ℕ → ℕ → Slab → Run Slab
slab_free_locked bytes address st = do
  assert (not (is_lower_half address))
  slab_free_helper bytes address true st

abbrev pub slab_alloc_locked : ℕ → ℕ → ℕ → Slab → Run (Option ℕ × ℕ × Slab)
slab_alloc_locked bytes phys attrs st = do
  assert (bit_and attrs memory_user_access == 0)
  slab_alloc_helper bytes phys attrs st

-- `Kernel_Memory_Start` and `Higher_Half_End`
abbrev pub kernel_memory_start : ℕ
kernel_memory_start = 0xffff808000000000

abbrev pub higher_half_end : ℕ
higher_half_end = 2 ^ 64 - 1

-- `slab_init`, with `Kernel_Virtual_Start` and `Kernel_Virtual_End` from the linker: the vector, and
-- `Usage`. A vector that is empty has slots for both regions.
unfoldable pub slab_init : ℕ → ℕ → ℕ → Run (RegionVector × ℕ)
slab_init kernel_virtual_start kernel_virtual_end usage = do
  let below = sub64 kernel_virtual_start kernel_memory_start
  let above = sub64 higher_half_end kernel_virtual_end
  v ← region_free region_vector_init kernel_virtual_end below true
  v' ← region_free v kernel_virtual_end above true
  ok (v', add64 (add64 usage below) above)
