-- ===== src/Slab/RoundTrip.antt =====
-- `slab_alloc` and `slab_free` of kernel/core/slab.c: what is given back leaves no trace.
use kernel_of_truth.Base.{ℕ, ◌/◌, ◌≡◌, true, if◌then◌else◌, none}
use kernel_of_truth.Types
use kernel_of_truth.Types.{sub64, page_small}
use kernel_of_truth.RegionVector.{RegionVector, has_room}
use kernel_of_truth.RegionVector.Cover.{Removes}
use kernel_of_truth.Paging.Walk.{mapping}
use kernel_of_truth.Paging.Ranges.{in_range}
use kernel_of_truth.Slab.{Slab}
use kernel_of_truth.Slab.Request.{IsVector}

-- What `slab_free` has to know of a block that `slab_alloc` has returned.
record Given (bytes a : ℕ) (st st' : Slab) : Type 0 where
  taken : Removes a bytes st.vector st'.vector
  vector : IsVector st'.vector
  roomy : has_room st.vector ≡ true → has_room st'.vector ≡ true
  before :
      (b : ℕ)
      → mapping st.space b
        ≡ (if in_range (bytes / page_small) a b then none else mapping st'.space b)
  usage : st'.usage ≡ sub64 st.usage bytes
