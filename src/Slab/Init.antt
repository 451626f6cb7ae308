-- ===== src/Slab/Init.antt =====
-- `slab_init` of kernel/core/slab.c.
use kernel_of_truth.Base.{ℕ, ◌+◌, ◌-◌, ◌<◌, ◌≤◌, ◌≡◌, refl, ok, arith}
use kernel_of_truth.RegionVector.{RegionVector, region_vector_init, region_free}
use kernel_of_truth.RegionVector.Cover.{inside, cover, cover_section}
use kernel_of_truth.Slab.{kernel_memory_start, higher_half_end, slab_init}

-- `slab_init` with the kernel's image at its place in the higher half gives both of its regions the same
-- address, the end of the kernel: each byte behind the kernel that is as near to it as the space before
-- the kernel is long is free twice.
pub slab_init-twice :
    (kernel_start kernel_end usage x : ℕ)
    → kernel_memory_start ≤ kernel_start
    → kernel_start ≤ kernel_end
    → kernel_end ≤ x
    → x < higher_half_end
    → x < kernel_end + (kernel_start - kernel_memory_start)
    → (v : RegionVector) × (usage' : ℕ) × (slab_init kernel_start kernel_end usage ≡ ok (v, usage'))
      × (cover v x ≡ 2)
unfolding slab_init region_free region_vector_init cover cover_section inside
slab_init-twice kernel_start kernel_end usage x h1 h2 h3 h4 h5 = (_, _, refl, ground arith)
