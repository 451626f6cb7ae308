-- ===== src/RegionVector/RoundTrip.antt =====
-- Giving a block to a vector and taking it back by its address.
use kernel_of_truth.Base.{
  ℕ, ◌+◌, ◌<◌, ◌≡◌, ◌≢◌, refl, inl, inr, Bool, true, false, Bool-cases, ◌==◌, none, some, [], ◌∷◌,
  ◌++◌, All, arith, ok, >>=-eq-ok, length,
}
use kernel_of_truth.RegionVector.{
  region, Section, RegionVector, region_free, find_section, find_sections, unlink, fill_hole,
  region_find_size_and_free, regions_count,
}
use kernel_of_truth.RegionVector.Cover.{Bounded, NoneAt}

module _ (a n : ℕ) where
  find_section-absent :
      (i : ℕ) (s : Section) → All (λ r. r.address ≢ a) s → find_section a i s ≡ none
  unfolding find_section
  find_section-absent i [] h = refl
  find_section-absent i (r ∷ rs) h = ground (arith, find_section-absent (i + 1) rs h.1)

  find_section-append :
      (i : ℕ) (s : Section)
      → All (λ r. r.address ≢ a) s
      → i + length s < regions_count
      → find_section a i (s ++ (region a n ∷ [])) ≡ some (n, s)
  unfolding find_section fill_hole
  find_section-append i [] h lt = ground arith
  find_section-append i (r ∷ rs) h lt =
      ground (arith, find_section-append (i + 1) rs h.1 (omega arith))

  find_sections-free :
      (linked : Bool) (s : Section) (v : RegionVector) {w : RegionVector}
      → NoneAt a (s ∷ v)
      → Bounded (s ∷ v)
      → region_free (s ∷ v) a n true ≡ ok w
      → (u : RegionVector) × (find_sections linked a w ≡ some (n, u))
  unfolding region_free find_sections find_section
  find_sections-free linked s [] {w} h b e = elim (Bool-cases (length s == regions_count)) [
    | inl full ↦
        let q : w ≡ s ∷ (region a n ∷ []) ∷ [] = ground arith in
        rw q (s ∷ [], ground (arith, find_section-absent 0 s h.0))
    | inr room ↦
        let q : w ≡ (s ++ (region a n ∷ [])) ∷ [] = ground arith in
        rw q (unlink linked s [], ground (arith, find_section-append 0 s h.0))
  ]
  find_sections-free linked s (t ∷ v) {w} h b e = elim (Bool-cases (length s == regions_count)) [
    | inr room ↦
        let q : w ≡ (s ++ (region a n ∷ [])) ∷ t ∷ v = ground arith in
        rw q (unlink linked s (t ∷ v), ground (arith, find_section-append 0 s h.0))
    | inl full ↦
        let (w', run, q) =
          >>=-eq-ok (region_free (t ∷ v) a n true) (λ u. ok (s ∷ u)) {result = w} (ground arith) in
        let (u, found) = find_sections-free true t v h.1 b.1 run in
        let q' : w ≡ s ∷ w' = cc in rw q' (s ∷ u, ground (arith, find_section-absent 0 s h.0))
  ]

find_of_sections :
    (a : ℕ) (w : RegionVector) {found : ℕ × RegionVector}
    → find_sections false a w ≡ some found
    → region_find_size_and_free w a ≡ ok found
unfolding region_find_size_and_free find_sections
find_of_sections a [] e = ground arith
find_of_sections a (s ∷ w) e = ground arith

-- What `region_free` put, with a page at hand, into a vector without an overfull section under a new
-- address, `region_find_size_and_free` takes out of
-- it by that address, with the size given.
pub region_find-free :
    (a n : ℕ) (s : Section) (v : RegionVector) {w : RegionVector}
    → NoneAt a (s ∷ v)
    → Bounded (s ∷ v)
    → region_free (s ∷ v) a n true ≡ ok w
    → (u : RegionVector) × (region_find_size_and_free w a ≡ ok (n, u))
region_find-free a n s v {w} h b e =
    let (u, found) = find_sections-free a n false s v h b e in (u, find_of_sections a w found)
