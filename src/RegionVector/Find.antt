-- ===== src/RegionVector/Find.antt =====
-- The search of `region_find_size_and_free` of kernel/core/region_vector.c: which region it finds.
use kernel_of_truth.Base.{
  ℕ, ◌+◌, ◌≤◌, ◌≡◌, ◌≢◌, ◌⊎◌, refl, inl, inr, Bool, true, Bool-cases, ◌==◌, ==→eq, ltb, Option,
  none, some, [], ◌∷◌, All, arith, length, subst,
}
use kernel_of_truth.RegionVector.{
  Region, region, Section, RegionVector, put_back, find_section, find_sections, unlink,
  regions_count,
}
use kernel_of_truth.RegionVector.Cover.{Bounded, NoneAt}

-- The first region of a section that starts at `a` has `n` bytes.
abbrev pub SectionFirst : ℕ → ℕ → Section → Type 0
SectionFirst a n [] = ⊥
SectionFirst a n (r ∷ rs) =
    ((r.address ≡ a) × (r.size ≡ n)) ⊎ ((r.address ≢ a) × SectionFirst a n rs)

-- The first region of a vector that starts at `a` has `n` bytes.
abbrev pub FirstAt : ℕ → ℕ → RegionVector → Type 0
FirstAt a n [] = ⊥
FirstAt a n (s ∷ v) = SectionFirst a n s ⊎ (All (λ r. r.address ≢ a) s × FirstAt a n v)

module _ (P : Region → Type 0) (a n : ℕ) where
  SectionFirst-All : (s : Section) → All P s → SectionFirst a n s → P (region a n)
  SectionFirst-All [] all found = absurd found
  SectionFirst-All (r ∷ rs) all (inl (start, size)) =
      subst (λ x. P (region x n)) start (subst (λ x. P (region r.address x)) size all.0)
  SectionFirst-All (r ∷ rs) all (inr (other, found)) = SectionFirst-All rs all.1 found

  -- It has what every region of the vector has.
  pub FirstAt-All : (v : RegionVector) → All (All P) v → FirstAt a n v → P (region a n)
  FirstAt-All [] all found = absurd found
  FirstAt-All (s ∷ v) all (inl here) = SectionFirst-All s all.0 here
  FirstAt-All (s ∷ v) all (inr (others, found)) = FirstAt-All v all.1 found

module _ (a : ℕ) where
  abbrev SectionFinds : Section → Option (ℕ × Section) → Type 0
  SectionFinds s none = All (λ r. r.address ≢ a) s
  SectionFinds s (some (n, s')) = SectionFirst a n s

  put_back-SectionFinds :
      (r : Region) (s : Section) (o : Option (ℕ × Section))
      → r.address ≢ a
      → SectionFinds s o
      → SectionFinds (r ∷ s) (put_back r o)
  put_back-SectionFinds r s none other h = (other, h)
  put_back-SectionFinds r s (some (n, s')) other h = inr (other, h)

  find_section-Finds :
      (i : ℕ) (s : Section) → i + length s ≤ regions_count → SectionFinds s (find_section a i s)
  unfolding find_section
  find_section-Finds i [] le = tt
  find_section-Finds i (r ∷ s) le =
      let inside : ltb i regions_count ≡ true = ground arith in
      elim (Bool-cases (r.address == a)) [
        | inl same ↦ rw (inside, same) (inl (==→eq r.address a same, refl))
        | inr other ↦
            let apart : r.address ≢ a = λ e. ground arith in
            rw (inside, other)
              (put_back-SectionFinds r s _ apart (find_section-Finds (i + 1) s (omega arith)))
      ]

  abbrev pub VectorFinds : RegionVector → Option (ℕ × RegionVector) → Type 0
  VectorFinds v none = NoneAt a v
  VectorFinds v (some (n, w)) = FirstAt a n v

  put_back-VectorFinds :
      (s : Section) (v : RegionVector) (o : Option (ℕ × RegionVector))
      → All (λ r. r.address ≢ a) s
      → VectorFinds v o
      → VectorFinds (s ∷ v) (put_back s o)
  put_back-VectorFinds s v none others h = (others, h)
  put_back-VectorFinds s v (some (n, w)) others h = inr (others, h)

  pub find_sections-Finds :
      (linked : Bool) (v : RegionVector) → Bounded v → VectorFinds v (find_sections linked a v)
  unfolding find_sections
  find_sections-Finds linked [] b = tt
  find_sections-Finds linked (s ∷ v) b =
      go (find_section a 0 s) (find_section-Finds 0 s (omega (arith, b.0)))
        (find_sections-Finds true v b.1)
    where
      go :
          (o : Option (ℕ × Section))
          → SectionFinds s o
          → VectorFinds v (find_sections true a v)
          → VectorFinds (s ∷ v) (elim o [
            | some (n, s') ↦ some (n, unlink linked s' v)
            | none ↦ put_back s (find_sections true a v)
          ])
      go none h ih = put_back-VectorFinds s v (find_sections true a v) h ih
      go (some (n, s')) h ih = inl h
