-- ===== src/Slab/Request.antt =====
-- `slab_alloc_request_physical` of kernel/core/slab.c: a block is mapped, or nothing has changed.
use kernel_of_truth.Base.{ℕ, ◌/◌, ◌≡◌, ◌≢◌, refl, true, Option, none, some, [], ◌∷◌, ok}
use kernel_of_truth.Types.{sub64, page_small}
use kernel_of_truth.RegionVector.{region, RegionVector, region_alloc, region_free, has_room}
use kernel_of_truth.RegionVector.Cover.{AllFit, Bounded, Removes, Gives, Fits, cover}
use kernel_of_truth.RegionVector.Alloc.{
  region_alloc-Removes, region_alloc-some_section, region_alloc-has_room,
}
use kernel_of_truth.RegionVector.Free.{region_free-Gives}
use kernel_of_truth.Paging.Walk.{mapping}
use kernel_of_truth.Paging.Outside.{Ordinary, SameOrdinary}
use kernel_of_truth.Paging.Ranges.{in_range, range_mapping}
use kernel_of_truth.Slab.{Slab, free_region}

-- A vector that the slab allocator works on: it has a first section, no section is overfull, and
-- its regions end within the address space.
pub record IsVector (v : RegionVector) : Type 0 where
  pub some_section : v ≢ []
  pub fits : AllFit v
  pub bounded : Bounded v

-- What is left of a vector after `region_alloc`.
pub region_alloc-IsVector :
    (n : ℕ) (v w : RegionVector) (a : ℕ)
    → IsVector v
    → region_alloc v n ≡ ok (some (a, w))
    → Removes a n v w × IsVector w
region_alloc-IsVector n v w a is run =
    let taken = region_alloc-Removes v n is.fits is.bounded run in
    (
      taken,
      record {
        some_section = region_alloc-some_section v n a w run;
        fits = taken.fits;
        bounded = taken.bounded;
      },
    )

-- What is left of a vector after `region_free` with a page at hand.
pub region_free-IsVector :
    (a n : ℕ) (v : RegionVector)
    → IsVector v
    → Fits (region a n)
    → (w : RegionVector) × (region_free v a n true ≡ ok w) × Gives a n v w
region_free-IsVector a n [] is fits = elim (is.some_section refl) [ ]
region_free-IsVector a n (s ∷ v) is fits = region_free-Gives s v a n is.fits is.bounded fits

-- What is left of a vector, and of the room in it, after `region_alloc`.
pub region_alloc-Roomy :
    (n : ℕ) (v w : RegionVector) (a : ℕ)
    → IsVector v
    → has_room v ≡ true
    → region_alloc v n ≡ ok (some (a, w))
    → has_room w ≡ true
region_alloc-Roomy n v w a is room run = region_alloc-has_room v n is.fits is.bounded room run

-- `free_region` of a vector with room is `region_free`, and leaves the rest.
pub free_region-Gives :
    (a n : ℕ) (st : Slab)
    → IsVector st.vector
    → has_room st.vector ≡ true
    → Fits (region a n)
    → (w : RegionVector) × (free_region a n st ≡ ok (record st { vector = w }))
      × Gives a n st.vector w
unfolding free_region
free_region-Gives a n st is room fits =
    let (w, run, given) = region_free-IsVector a n st.vector is fits in
    (w, rw (room, run) refl, given)

-- What `slab_alloc_request_physical` may do, by the address that it returns.
pub data Requests (pivot phys size attrs : ℕ) (st : Slab) : Option ℕ × Slab → Type 0 where
  given :
      {a : ℕ}
      → {st' : Slab} → Removes a size st.vector st'.vector
      → ((b : ℕ) → in_range (size / page_small) a b ≡ true → mapping st.space b ≡ none)
      → ((b : ℕ)
          → Ordinary pivot b
          → mapping st'.space b
            ≡ range_mapping (size / page_small) a phys attrs (mapping st.space) b)
      → st'.usage ≡ sub64 st.usage size
      → Requests pivot phys size attrs st (some a, st')
  refused :
      {st' : Slab}
      → ((x : ℕ) → cover st'.vector x ≡ cover st.vector x)
      → SameOrdinary pivot st.space st'.space
      → st'.usage ≡ st.usage
      → Requests pivot phys size attrs st (none, st')
