-- ===== src/RegionVector/Free.antt =====
-- `region_free` and `region_find_size_and_free`: what they do to the bytes covered.
use kernel_of_truth.Base.{
  ℕ, ◌+◌, ◌≤◌, ◌<◌, ◌≡◌, refl, ◌⊎◌, inl, inr, Bool, true, false, Bool-cases, ◌==◌, ==→eq, ltb,
  Option, none, some, [], ◌∷◌, ◌++◌, All, arith, Run, ok, length, length-append,
}
use kernel_of_truth.RegionVector.{
  Region, region, Section, RegionVector, put_back, region_free, find_section, find_sections, unlink,
  region_find_size_and_free, regions_count,
}
use kernel_of_truth.RegionVector.Cover.{
  inside, cover_section, cover, Fits, AllFit, fill_hole-cover, fill_hole-All, cover_section-append,
  All-append, Bounded, Gives, Removes, fill_hole-length, total_section, total, total_section-append,
  fill_hole-total, NoneAt,
}
use kernel_of_truth.RegionVector.Find.{FirstAt, VectorFinds, find_sections-Finds}

-- The block goes behind the regions of a section that has a slot left.
append-Gives :
    (s : Section) (v : RegionVector) (a n : ℕ)
    → AllFit (s ∷ v)
    → Bounded (s ∷ v)
    → Fits (region a n)
    → length s < regions_count
    → Gives a n (s ∷ v) ((s ++ (region a n ∷ [])) ∷ v)
unfolding cover cover_section total total_section
append-Gives s v a n f b g room = record {
  covers = λ x. omega (arith, cover_section-append s (region a n ∷ []) x);
  sizes = omega (arith, total_section-append s (region a n ∷ []));
  fits = (All-append Fits s (region a n ∷ []) f.0 (g, tt), f.1);
  bounded = (omega (arith, length-append s (region a n ∷ [])), b.1);
}

-- In a vector without an overfull section, whose regions end within the address space as the block
-- does, and with a page at hand, `region_free` returns: the block joins the free bytes, whatever they were, and
-- no section outgrows its page.
pub region_free-Gives :
    (s : Section) (v : RegionVector) (a n : ℕ)
    → AllFit (s ∷ v)
    → Bounded (s ∷ v)
    → Fits (region a n)
    → (w : RegionVector) × (region_free (s ∷ v) a n true ≡ ok w) × Gives a n (s ∷ v) w
unfolding region_free cover cover_section total total_section
region_free-Gives s [] a n f b g = elim (Bool-cases (length s == regions_count)) [
  | inl e ↦ (
    s ∷ (region a n ∷ []) ∷ [],
    rw e,
    record {
      covers = λ x. omega arith;
      sizes = omega arith;
      fits = (f.0, ((g, tt), tt));
      bounded = (b.0, (omega arith, tt));
    },
  )
  | inr e ↦ (_, rw e, append-Gives s [] a n f b g (ground arith))
]
region_free-Gives s (t ∷ v) a n f b g =
    let (w, run, h) = region_free-Gives t v a n f.1 b.1 g in
    elim (Bool-cases (length s == regions_count)) [
      | inr e ↦ (_, rw e, append-Gives s (t ∷ v) a n f b g (ground arith))
      | inl e ↦ (
        s ∷ w,
        rw (e, run),
        record {
          covers = λ x. omega (arith, h.covers x);
          sizes = omega (arith, h.sizes);
          fits = (f.0, h.fits);
          bounded = (b.0, h.bounded);
        },
      )
    ]

module _ (a : ℕ) where
  -- A result of the search in a section: nothing, or a region that started at `a`.
  abbrev SectionLoses : Section → Option (ℕ × Section) → Type 0
  SectionLoses rs none = Unit {0}
  SectionLoses rs (some (n, s)) =
      ((x : ℕ) → cover_section rs x ≡ cover_section s x + inside a n x)
      × All Fits s
      × Fits (region a n)
      × (length s ≤ length rs)
      × (total_section rs ≡ total_section s + n)

  put_back-SectionLoses :
      (r : Region) (rs : Section) (o : Option (ℕ × Section))
      → Fits r
      → SectionLoses rs o
      → SectionLoses (r ∷ rs) (put_back r o)
  unfolding cover_section total_section
  put_back-SectionLoses r rs none f h = tt
  put_back-SectionLoses r rs (some (n, s)) f h =
      (λ x. omega (arith, h.0 x), (f, h.1), h.2, omega arith, omega arith)

  find_section-Loses : (i : ℕ) (rs : Section) → All Fits rs → SectionLoses rs (find_section a i rs)
  unfolding find_section cover_section total_section
  find_section-Loses i [] f = tt
  find_section-Loses i (r ∷ rs) f = elim (Bool-cases (ltb i regions_count)) [
    | inr e ↦ rw e tt
    | inl e ↦ rw e (elim (Bool-cases (r.address == a)) [
      | inr other ↦ rw other (put_back-SectionLoses r rs _ f.0 (find_section-Loses (i + 1) rs f.1))
      | inl same ↦ rw same (
        λ x. ground (arith, fill_hole-cover rs x, ==→eq r.address a),
        fill_hole-All Fits rs f.1,
        ground arith,
        omega (arith, fill_hole-length rs),
        omega (arith, fill_hole-total rs),
      )
    ])
  ]

  abbrev VectorLoses : RegionVector → Option (ℕ × RegionVector) → Type 0
  VectorLoses v none = Unit {0}
  VectorLoses v (some (n, w)) = Removes a n v w

  put_back-VectorLoses :
      (s : Section) (v : RegionVector) (o : Option (ℕ × RegionVector))
      → All Fits s
      → length s ≤ regions_count
      → VectorLoses v o
      → VectorLoses (s ∷ v) (put_back s o)
  unfolding cover total
  put_back-VectorLoses s v none f b h = tt
  put_back-VectorLoses s v (some (n, w)) f b h = record {
    covers = λ x. omega (arith, h.covers x);
    sizes = omega (arith, h.sizes);
    fits = (f, h.fits);
    bounded = (b, h.bounded);
    block = h.block;
  }

  -- A section that has become empty covers nothing, so unlinking it loses nothing.
  unlink-Removes :
      (linked : Bool) (n : ℕ) (s s' : Section) (v : RegionVector)
      → SectionLoses s (some (n, s'))
      → AllFit v
      → Bounded (s ∷ v)
      → Removes a n (s ∷ v) (unlink linked s' v)
  unfolding unlink cover cover_section total total_section
  unlink-Removes true n s [] v h f b = record {
    covers = λ x. omega (arith, h.0 x);
    sizes = omega arith;
    fits = f;
    bounded = b.1;
    block = h.2;
  }
  unlink-Removes false n s [] v h f b = record {
    covers = λ x. omega (arith, h.0 x);
    sizes = omega arith;
    fits = (tt, f);
    bounded = (omega arith, b.1);
    block = h.2;
  }
  unlink-Removes linked n s (r ∷ rs) v h f b = record {
    covers = λ x. omega (arith, h.0 x);
    sizes = omega arith;
    fits = (h.1, f);
    bounded = (omega arith, b.1);
    block = h.2;
  }

  find_sections-Loses :
      (linked : Bool) (v : RegionVector)
      → AllFit v
      → Bounded v
      → VectorLoses v (find_sections linked a v)
  unfolding find_sections
  find_sections-Loses linked [] f b = tt
  find_sections-Loses linked (s ∷ v) f b =
      go (find_section a 0 s) (find_section-Loses 0 s f.0) (find_sections-Loses true v f.1 b.1)
    where
      go :
          (o : Option (ℕ × Section))
          → SectionLoses s o
          → VectorLoses v (find_sections true a v)
          → VectorLoses (s ∷ v) (elim o [
            | some (n, s') ↦ some (n, unlink linked s' v)
            | none ↦ put_back s (find_sections true a v)
          ])
      go none h ih = put_back-VectorLoses s v (find_sections true a v) f.0 b.0 ih
      go (some (n, s')) h ih = unlink-Removes linked n s s' v h f.1 b

-- In a vector without an overfull section, whose regions end within the address space,
-- `region_find_size_and_free` returns: it takes out the first region that starts at the address and
-- returns its size, or no region starts there, and it returns 0 and changes nothing.
pub region_find_size_and_free-Removes :
    (s : Section) (v : RegionVector) (a : ℕ)
    → AllFit (s ∷ v)
    → Bounded (s ∷ v)
    → (n : ℕ) × (w : RegionVector) × (region_find_size_and_free (s ∷ v) a ≡ ok (n, w))
      × ((FirstAt a n (s ∷ v) × Removes a n (s ∷ v) w) ⊎ (NoneAt a (s ∷ v) × (n ≡ 0) × (w ≡ s ∷ v)))
unfolding region_find_size_and_free
region_find_size_and_free-Removes s v a f b =
    go (find_sections false a (s ∷ v)) (find_sections-Loses a false (s ∷ v) f b)
      (find_sections-Finds a false (s ∷ v) b)
  where
    go :
        (o : Option (ℕ × RegionVector))
        → VectorLoses a (s ∷ v) o
        → VectorFinds a (s ∷ v) o
        → (n : ℕ) × (w : RegionVector) × (◌≡◌ {A = Run (ℕ × RegionVector)}
            (elim o [ some found ↦ ok found | none ↦ ok (0, s ∷ v) ])
            (ok (n, w)))
          × ((FirstAt a n (s ∷ v) × Removes a n (s ∷ v) w)
              ⊎ (NoneAt a (s ∷ v) × (n ≡ 0) × (w ≡ s ∷ v)))
    go none h g = (0, s ∷ v, refl, inr (g, refl, refl))
    go (some (n, w)) h g = (n, w, refl, inl (g, h))
