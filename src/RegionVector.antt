-- ===== src/RegionVector.antt =====
-- kernel/core/region_vector.c: free address ranges in a chain of page-sized sections.
-- A section is the list of its first `regions_used` slots; a slot from there on is written before it
-- is read. A vector is the chain of sections from the caller's on, and `[]` is the NULL pointer.
-- The page that a vector grows by comes from `slab_alloc_locked`: the flag `page` says whether that
-- call returns one.
pub mod Cover
pub mod Alloc
pub mod Search
pub mod Find
pub mod Free
pub mod RoundTrip
pub mod Every
use kernel_of_truth.Base.{
  ℕ, zero, suc, ◌+◌, ◌-◌, ◌/◌, ◌==◌, ◌&&◌, ◌||◌, Bool, true, false, not, if◌then◌else◌, ltb, leb,
  Option, none, some, List, [], ◌∷◌, ◌++◌, Run, ok, panic, fault, ◌>>=◌, length,
}
use kernel_of_truth.Types.{add64, sub64, page_small}

-- `struct region`
pub record Region : Type 0 where
  pub address : ℕ
  pub size : ℕ

abbrev pub region : ℕ → ℕ → Region
region a n = record { address = a; size = n }

abbrev pub Section : Type 0
Section = List Region

abbrev pub RegionVector : Type 0
RegionVector = List Section

-- `regions_count`: the header of a section has two words, and so has a region.
abbrev pub regions_count : ℕ
regions_count = (page_small - 16) / 16

pub last_of : Region → Section → Region
last_of r [] = r
last_of r (s ∷ ss) = last_of s ss

pub init_of : Region → Section → Section
init_of r [] = []
init_of r (s ∷ ss) = r ∷ init_of s ss

-- `regions[i] = regions[regions_used]` after the decrement of `regions_used`, where the argument is
-- what stands behind slot `i`: its last region moves into the slot.
pub fill_hole : Section → Section
unfolding last_of init_of
fill_hole [] = []
fill_hole (r ∷ rs) = last_of r rs ∷ init_of r rs

-- A result found behind an item that stays.
abbrev pub put_back : {A B : Type 0} → A → Option (B × List A) → Option (B × List A)
put_back x none = none
put_back x (some (b, xs)) = some (b, x ∷ xs)

-- `region_vector_init`
unfoldable pub region_vector_init : RegionVector
region_vector_init = [] ∷ []

-- The body of the loop of `region_alloc` at a region that is large enough.
pub split_region : ℕ → Region → Section → ℕ × Section
unfolding fill_hole
split_region n r rs =
    let new_size = sub64 r.size n in
    (r.address, if new_size == 0 then fill_hole rs else (region (add64 r.address n) new_size ∷ rs))

-- The loop over the slots of a section, from slot `i` on.
pub alloc_section : ℕ → ℕ → Section → Option (ℕ × Section)
unfolding split_region
alloc_section n i [] = none
alloc_section n i (r ∷ rs) =
    let rest = put_back r (alloc_section n (i + 1) rs) in
    if ltb i regions_count then if ltb n r.size then some (split_region n r rs) else rest else none

-- The loop over the sections.
pub alloc_sections : ℕ → RegionVector → Option (ℕ × RegionVector)
unfolding alloc_section
alloc_sections n [] = none
alloc_sections n (s ∷ v) = elim (alloc_section n 0 s) [
  | some (a, s') ↦ some (a, s' ∷ v)
  | none ↦ put_back s (alloc_sections n v)
]

-- `region_alloc`: `*out` and the vector afterwards, or `none` for `Error_No_Memory`.
unfoldable pub region_alloc : RegionVector → ℕ → Run (Option (ℕ × RegionVector))
unfolding alloc_sections
region_alloc [] n = panic
region_alloc (s ∷ v) n = ok (alloc_sections n (s ∷ v))

-- A section has a slot left, so that the loop of `region_free` ends there.
unfoldable pub has_room : RegionVector → Bool
has_room [] = false
has_room (s ∷ v) = not (length s == regions_count) || has_room v

-- `region_free`, with `extend_vector`
unfoldable pub region_free : RegionVector → ℕ → ℕ → Bool → Run RegionVector
region_free [] a n page = fault
region_free (s ∷ []) a n page =
    if not (length s == regions_count)
    then ok ((s ++ (region a n ∷ [])) ∷ [])
    else if page
    then ok (s ∷ (region a n ∷ []) ∷ [])
    else panic
region_free (s ∷ t ∷ v) a n page =
    let rest = region_free (t ∷ v) a n page >>= λ w. ok (s ∷ w) in
    if not (length s == regions_count) then ok ((s ++ (region a n ∷ [])) ∷ t ∷ v) else rest

-- The loop over the slots in `region_find_size_and_free`: the size, and the section without it.
pub find_section : ℕ → ℕ → Section → Option (ℕ × Section)
unfolding fill_hole
find_section a i [] = none
find_section a i (r ∷ rs) =
    let rest = put_back r (find_section a (i + 1) rs) in
    if ltb i regions_count
    then if r.address == a then some (r.size, fill_hole rs) else rest
    else none

-- `prev->next = cur->next` where the section of a later link has become empty.
pub unlink : Bool → Section → RegionVector → RegionVector
unlink true [] v = v
unlink false [] v = [] ∷ v
unlink linked (r ∷ s) v = (r ∷ s) ∷ v

-- The loop over the sections; `linked` says that `prev` is not NULL.
pub find_sections : Bool → ℕ → RegionVector → Option (ℕ × RegionVector)
unfolding find_section unlink
find_sections linked a [] = none
find_sections linked a (s ∷ v) = elim (find_section a 0 s) [
  | some (n, s') ↦ some (n, unlink linked s' v)
  | none ↦ put_back s (find_sections true a v)
]

-- `region_find_size_and_free`: 0 and the vector as it was, if no region starts at the address.
unfoldable pub region_find_size_and_free : RegionVector → ℕ → Run (ℕ × RegionVector)
unfolding find_sections
region_find_size_and_free [] a = fault
region_find_size_and_free (s ∷ v) a = elim (find_sections false a (s ∷ v)) [
  | some found ↦ ok found
  | none ↦ ok (0, s ∷ v)
]

-- `region_vector_new`: `none` for NULL.
unfoldable pub region_vector_new : ℕ → ℕ → Bool → Run (Option RegionVector)
unfolding region_free region_vector_init
region_vector_new a n page =
    if page then region_free region_vector_init a n page >>= (λ v. ok (some v)) else ok none

-- `region_vector_fini`: the number of pages given back. `prev` is never advanced: with a second
-- section the loop reads `prev->next` from the page that it has just given back.
pub region_vector_fini : RegionVector → Run ℕ
region_vector_fini [] = ok 0
region_vector_fini (s ∷ []) = ok 1
region_vector_fini (s ∷ t ∷ v) = fault
