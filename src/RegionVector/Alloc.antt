-- ===== src/RegionVector/Alloc.antt =====
-- `region_alloc` takes the first block that is large enough out of the free bytes.
use kernel_of_truth.Base.{
  ℕ, ◌+◌, ◌≤◌, ◌<◌, ◌≡◌, ◌≢◌, Option-cases, inl, inr, ltb, true, ◌==◌, Bool-cases, ltb→lt, subst,
  length, Option, none, some, [], ◌∷◌, All, arith, ok,
}
use kernel_of_truth.RegionVector.{
  Region, region, Section, RegionVector, put_back, split_region, alloc_section, alloc_sections,
  region_alloc, regions_count, has_room,
}
use kernel_of_truth.RegionVector.Cover.{
  inside, cover_section, cover, Fits, AllFit, fill_hole-cover, fill_hole-All, fill_hole-length,
  total_section, total, fill_hole-total, Bounded, Removes,
}

-- What an allocation of `n` bytes at `a` does to the bytes that a structure covers.
abbrev pub Takes : ℕ → ℕ → (ℕ → ℕ) → (ℕ → ℕ) → Type 0
Takes n a before after = (x : ℕ) → after x + inside a n x ≡ before x

module _ (n : ℕ) where
  -- The first `n` bytes of a larger region leave it, and the rest stays.
  split_region-cover :
      (r : Region) (rs : Section)
      → n < r.size
      → Fits r
      → Takes n
          (split_region n r rs).0
          (cover_section (r ∷ rs))
          (cover_section (split_region n r rs).1)
  unfolding split_region cover_section inside
  split_region-cover r rs lt f x = ground (arith, fill_hole-cover rs x)

  split_region-All :
      (r : Region) (rs : Section)
      → n < r.size
      → Fits r
      → All Fits rs
      → All Fits (split_region n r rs).1
  unfolding split_region
  split_region-All r rs lt f fs = ground (arith, fill_hole-All Fits rs)

  split_region-Fits :
      (r : Region) (rs : Section) → n < r.size → Fits r → Fits (region (split_region n r rs).0 n)
  unfolding split_region
  split_region-Fits r rs lt f = ground arith

  split_region-length :
      (r : Region) (rs : Section) → length (split_region n r rs).1 ≤ length (r ∷ rs)
  unfolding split_region
  split_region-length r rs = ground (arith, fill_hole-length rs)

  split_region-total :
      (r : Region) (rs : Section)
      → n < r.size
      → Fits r
      → total_section (r ∷ rs) ≡ total_section (split_region n r rs).1 + n
  unfolding split_region total_section
  split_region-total r rs lt f = ground (arith, fill_hole-total rs)

  -- A result of the search in a section: nothing, or a block taken out of it.
  abbrev SectionTakes : Section → Option (ℕ × Section) → Type 0
  SectionTakes rs none = Unit {0}
  SectionTakes rs (some (a, s)) =
      Takes n a (cover_section rs) (cover_section s)
      × All Fits s
      × Fits (region a n)
      × (length s ≤ length rs)
      × (total_section rs ≡ total_section s + n)

  put_back-SectionTakes :
      (r : Region) (rs : Section) (o : Option (ℕ × Section))
      → Fits r
      → SectionTakes rs o
      → SectionTakes (r ∷ rs) (put_back r o)
  unfolding cover_section total_section
  put_back-SectionTakes r rs none f h = tt
  put_back-SectionTakes r rs (some (a, s)) f h =
      (λ x. omega (arith, h.0 x), (f, h.1), h.2, omega arith, omega arith)

  alloc_section-Takes :
      (i : ℕ) (rs : Section) → All Fits rs → SectionTakes rs (alloc_section n i rs)
  unfolding alloc_section
  alloc_section-Takes i [] f = tt
  alloc_section-Takes i (r ∷ rs) f = elim (Bool-cases (ltb i regions_count)) [
    | inr e ↦ rw e tt
    | inl e ↦ rw e (elim (Bool-cases (ltb n r.size)) [
      | inr small ↦ rw small (put_back-SectionTakes r rs _ f.0 (alloc_section-Takes (i + 1) rs f.1))
      | inl big ↦ rw big (
        split_region-cover r rs (ltb→lt _ _ big) f.0,
        split_region-All r rs (ltb→lt _ _ big) f.0 f.1,
        split_region-Fits r rs (ltb→lt _ _ big) f.0,
        split_region-length r rs,
        split_region-total r rs (ltb→lt _ _ big) f.0,
      )
    ])
  ]

  abbrev VectorTakes : RegionVector → Option (ℕ × RegionVector) → Type 0
  VectorTakes v none = Unit {0}
  VectorTakes v (some (a, w)) = Removes a n v w

  put_back-VectorTakes :
      (s : Section) (v : RegionVector) (o : Option (ℕ × RegionVector))
      → All Fits s
      → length s ≤ regions_count
      → VectorTakes v o
      → VectorTakes (s ∷ v) (put_back s o)
  unfolding cover total
  put_back-VectorTakes s v none f b h = tt
  put_back-VectorTakes s v (some (a, w)) f b h = record {
    covers = λ x. omega (arith, h.covers x);
    sizes = omega (arith, h.sizes);
    fits = (f, h.fits);
    bounded = (b, h.bounded);
    block = h.block;
  }

  alloc_sections-Takes :
      (v : RegionVector) → AllFit v → Bounded v → VectorTakes v (alloc_sections n v)
  unfolding alloc_sections cover total
  alloc_sections-Takes [] f b = tt
  alloc_sections-Takes (s ∷ v) f b =
      go (alloc_section n 0 s) (alloc_section-Takes 0 s f.0) (alloc_sections-Takes v f.1 b.1)
    where
      go :
          (o : Option (ℕ × Section))
          → SectionTakes s o
          → VectorTakes v (alloc_sections n v)
          → VectorTakes
              (s ∷ v)
              (elim o [ some (a, s') ↦ some (a, s' ∷ v) | none ↦ put_back s (alloc_sections n v) ])
      go none h ih = put_back-VectorTakes s v (alloc_sections n v) f.0 b.0 ih
      go (some (a, s')) h ih = record {
        covers = λ x. omega (arith, h.0 x);
        sizes = omega arith;
        fits = (h.1, f.1);
        bounded = (omega arith, b.1);
        block = h.2;
      }

-- In a vector without an overfull section, whose regions end within the address space: when an
-- allocation succeeds, exactly the bytes of the returned block leave the free bytes, each
-- once. The block and every region left end within the address space.
pub region_alloc-Removes :
    (v : RegionVector) (n : ℕ) {a : ℕ} {w : RegionVector}
    → AllFit v
    → Bounded v
    → region_alloc v n ≡ ok (some (a, w))
    → Removes a n v w
unfolding region_alloc
region_alloc-Removes [] n f b e = cc
region_alloc-Removes (s ∷ v) n {a} {w} f b e =
    go (alloc_sections n (s ∷ v)) (alloc_sections-Takes n (s ∷ v) f b) e
  where
    go :
        (o : Option (ℕ × RegionVector))
        → VectorTakes n (s ∷ v) o
        → ok o ≡ ok (some (a, w))
        → VectorTakes n (s ∷ v) (some (a, w))
    go o h e' = let q : o ≡ some (a, w) = cc in subst (VectorTakes n (s ∷ v)) q h

-- What is left after an allocation has a section.
alloc_sections-some_section :
    (n : ℕ) (v : RegionVector) (a : ℕ) (w : RegionVector)
    → alloc_sections n v ≡ some (a, w)
    → w ≢ []
unfolding alloc_sections
alloc_sections-some_section n [] a w e e' = ground arith
alloc_sections-some_section n (s ∷ v) a w e e' = elim (Option-cases (alloc_section n 0 s)) [
  | inr ((a', s'), found) ↦ ground (arith, found, e, e')
  | inl missing ↦ elim (Option-cases (alloc_sections n v)) [
    | inr ((a', w'), found) ↦ ground (arith, missing, found, e, e')
    | inl missing' ↦ ground (arith, missing, missing', e, e')
  ]
]

pub region_alloc-some_section :
    (v : RegionVector) (n a : ℕ) (w : RegionVector) → region_alloc v n ≡ ok (some (a, w)) → w ≢ []
unfolding region_alloc
region_alloc-some_section [] n a w e = cc
region_alloc-some_section (s ∷ v) n a w e =
    let q : alloc_sections n (s ∷ v) ≡ some (a, w) = cc in
    alloc_sections-some_section n (s ∷ v) a w q

module _ (n : ℕ) where
  -- An allocation leaves room where there was room.
  abbrev Roomy : Option (ℕ × RegionVector) → Type 0
  Roomy none = Unit {0}
  Roomy (some (a, w)) = has_room w ≡ true

  alloc_sections-Roomy :
      (v : RegionVector) → AllFit v → Bounded v → has_room v ≡ true → Roomy (alloc_sections n v)
  unfolding alloc_sections has_room
  alloc_sections-Roomy [] f b room = tt
  alloc_sections-Roomy (s ∷ v) f b room =
      go (alloc_section n 0 s) (alloc_section-Takes n 0 s f.0) (alloc_sections n v)
        (alloc_sections-Roomy v f.1 b.1)
    where
      go :
          (o : Option (ℕ × Section))
          → SectionTakes n s o
          → (rest : Option (ℕ × RegionVector)) → (has_room v ≡ true → Roomy rest)
          → Roomy (elim o [ some (a, s') ↦ some (a, s' ∷ v) | none ↦ put_back s rest ])
      go none h none ih = tt
      go none h (some (a, w)) ih = elim (Bool-cases (length s == regions_count)) [
        | inl full ↦ let r = ih (ground (arith, room, full)) in ground (arith, r)
        | inr left ↦ ground (arith, left)
      ]
      go (some (a, s')) h rest ih = ground (arith, h.3, room, b.0)

pub region_alloc-has_room :
    (v : RegionVector) (n : ℕ) {a : ℕ} {w : RegionVector}
    → AllFit v
    → Bounded v
    → has_room v ≡ true
    → region_alloc v n ≡ ok (some (a, w))
    → has_room w ≡ true
unfolding region_alloc
region_alloc-has_room [] n f b room e = cc
region_alloc-has_room (s ∷ v) n {a} {w} f b room e =
    let q : alloc_sections n (s ∷ v) ≡ some (a, w) = cc in
    subst (Roomy n) q (alloc_sections-Roomy n (s ∷ v) f b room)
