-- ===== src/RegionVector/Search.antt =====
-- When `region_alloc` finds a block: the search is complete, and an exact fit is never used.
use kernel_of_truth.Base.{
  ℕ, ◌+◌, ◌≤◌, ◌≡◌, refl, ◌↔◌, Option, none, some, List, [], ◌∷◌, All, arith, ok, length,
}
use kernel_of_truth.RegionVector.{
  Section, RegionVector, put_back, alloc_section, alloc_sections, region_alloc, regions_count,
}
use kernel_of_truth.RegionVector.Cover.{Bounded}

-- No region is larger than `n`.
abbrev pub NoneAbove : ℕ → RegionVector → Type 0
NoneAbove n v = All (All (λ r. r.size ≤ n)) v

put_back-none : {A B : Type 0} (x : A) (o : Option (B × List A)) → put_back x o ≡ none → o ≡ none
put_back-none x none h = refl
put_back-none x (some (b, xs)) h = cc

module _ (n : ℕ) where
  alloc_section-none :
      (i : ℕ) (s : Section)
      → i + length s ≤ regions_count
      → alloc_section n i s ≡ none
      → All (λ r. r.size ≤ n) s
  unfolding alloc_section
  alloc_section-none i [] b h = tt
  alloc_section-none i (r ∷ rs) b h = (
    ground (arith),
    alloc_section-none (i + 1) rs (omega arith) (put_back-none r _ (ground (arith))),
  )

  alloc_section-small : (i : ℕ) (s : Section) → All (λ r. r.size ≤ n) s → alloc_section n i s ≡ none
  unfolding alloc_section
  alloc_section-small i [] h = refl
  alloc_section-small i (r ∷ rs) h = ground (arith, alloc_section-small (i + 1) rs h.1)

  alloc_sections-none : (v : RegionVector) → Bounded v → alloc_sections n v ≡ none → NoneAbove n v
  unfolding alloc_sections
  alloc_sections-none [] b h = tt
  alloc_sections-none (s ∷ v) b h = (
    alloc_section-none 0 s (omega arith) (ground arith),
    alloc_sections-none v b.1 (put_back-none s _ (ground arith)),
  )

  alloc_sections-small : (v : RegionVector) → NoneAbove n v → alloc_sections n v ≡ none
  unfolding alloc_sections
  alloc_sections-small [] h = refl
  alloc_sections-small (s ∷ v) h =
      ground (arith, alloc_section-small 0 s h.0, alloc_sections-small v h.1)

-- In a vector without an overfull section `region_alloc` reports that memory is exhausted exactly when no region is larger than the request.
-- A region of just the requested size does not serve it.
pub region_alloc-none_iff :
    (s : Section) (v : RegionVector) (n : ℕ)
    → Bounded (s ∷ v)
    → (region_alloc (s ∷ v) n ≡ ok none) ↔ NoneAbove n (s ∷ v)
unfolding region_alloc
region_alloc-none_iff s v n b =
    ((λ h. alloc_sections-none n (s ∷ v) b (cc)), (λ h. rw (alloc_sections-small n (s ∷ v) h)))
