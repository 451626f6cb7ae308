-- ===== src/Tests/Regions.antt =====
-- Runs of kernel/core/region_vector.c.
use kernel_of_truth.Base.{ℕ, ◌≡◌, ◌⊎◌, refl, true, none, some, [], ◌∷◌, arith, ok}
use kernel_of_truth.RegionVector.{
  region, RegionVector, region_alloc, region_free, region_find_size_and_free,
}
use kernel_of_truth.RegionVector.Cover.{Removes, NoneAt}
use kernel_of_truth.RegionVector.Find.{FirstAt}
use kernel_of_truth.RegionVector.Alloc.{region_alloc-Removes}
use kernel_of_truth.RegionVector.Free.{region_find_size_and_free-Removes}

abbrev two_regions : RegionVector
two_regions = (region 4096 64 ∷ region 8192 256 ∷ []) ∷ []

abbrev less_100 : RegionVector
less_100 = (region 4096 64 ∷ region 8292 156 ∷ []) ∷ []

alloc_100 : region_alloc two_regions 100 ≡ ok (some (8192, less_100))
unfolding region_alloc
alloc_100 = refl

-- An exact fit is passed over.
alloc_256 : region_alloc two_regions 256 ≡ ok none
unfolding region_alloc
alloc_256 = refl

find_4096 : region_find_size_and_free two_regions 4096 ≡ ok (64, (region 8192 256 ∷ []) ∷ [])
unfolding region_find_size_and_free
find_4096 = refl

region_alloc-Removes_example : Removes 8192 100 two_regions less_100
region_alloc-Removes_example =
    region_alloc-Removes two_regions 100 (omega arith) (omega arith) alloc_100

region_find_size_and_free-Removes_example :
    (n : ℕ) × (w : RegionVector) × (region_find_size_and_free two_regions 8192 ≡ ok (n, w))
    × ((FirstAt 8192 n two_regions × Removes 8192 n two_regions w)
        ⊎ (NoneAt 8192 two_regions × (n ≡ 0) × (w ≡ two_regions)))
region_find_size_and_free-Removes_example =
    region_find_size_and_free-Removes (region 4096 64 ∷ region 8192 256 ∷ []) [] 8192 (omega arith)
      (omega arith)

free_1024 :
    region_free two_regions 1024 16 true
    ≡ ok ((region 4096 64 ∷ region 8192 256 ∷ region 1024 16 ∷ []) ∷ [])
unfolding region_free
free_1024 = refl
