-- ===== src/RegionVector/Every.antt =====
-- A property of single regions that `region_free` and `region_find_size_and_free` carry along, and
-- the chain of sections, which they leave with at least one.
use kernel_of_truth.Base.{
  ℕ, ◌+◌, ◌≡◌, ◌≢◌, refl, inl, inr, ◌⊎◌, Bool, true, false, Bool-cases, Option-cases, ◌==◌, ==→eq,
  ltb, Option, none, some, [], ◌∷◌, ◌++◌, All, arith, ok, >>=-eq-ok, length, subst,
}
use kernel_of_truth.RegionVector.{
  Region, region, Section, RegionVector, put_back, region_free, find_section, find_sections, unlink,
  region_find_size_and_free, regions_count, region_alloc, alloc_sections, alloc_section,
}
use kernel_of_truth.RegionVector.Cover.{fill_hole-All, All-append}

abbrev pub Every : (Region → Type 0) → RegionVector → Type 0
Every P v = All (All P) v

pub region_free-Every :
    (P : Region → Type 0) (a n : ℕ) (page : Bool) (v : RegionVector) {w : RegionVector}
    → Every P v
    → P (region a n)
    → region_free v a n page ≡ ok w
    → Every P w × (w ≢ [])
unfolding region_free
region_free-Every P a n page [] h p e = cc
region_free-Every P a n page (s ∷ []) {w} h p e = elim (Bool-cases (length s == regions_count)) [
  | inl full ↦ elim (Bool-cases page) [
    | inl yes_page ↦
        let q : w ≡ s ∷ (region a n ∷ []) ∷ [] = ground arith in
        rw q ((h.0, ((p, tt), tt)), λ z. cc)
    | inr no_page ↦ absurd (ground arith)
  ]
  | inr room ↦
      let q : w ≡ (s ++ (region a n ∷ [])) ∷ [] = ground arith in
      rw q ((All-append P s _ h.0 (p, tt), tt), λ z. cc)
]
region_free-Every P a n page (s ∷ t ∷ v) {w} h p e = elim (Bool-cases (length s == regions_count)) [
  | inr room ↦
      let q : w ≡ (s ++ (region a n ∷ [])) ∷ t ∷ v = ground arith in
      rw q ((All-append P s _ h.0 (p, tt), h.1), λ z. cc)
  | inl full ↦
      let (w', run, e') =
        >>=-eq-ok (region_free (t ∷ v) a n page) (λ u. ok (s ∷ u)) {result = w} (ground arith) in
      let q : w ≡ s ∷ w' = cc in
      rw q ((h.0, (region_free-Every P a n page (t ∷ v) h.1 p run).0), λ z. cc)
]

module _ (P : Region → Type 0) (a : ℕ) where
  abbrev SectionKeeps : Option (ℕ × Section) → Type 0
  SectionKeeps none = Unit {0}
  SectionKeeps (some (n, s)) = All P s × P (region a n)

  put_back-SectionKeeps :
      (r : Region) (o : Option (ℕ × Section)) → P r → SectionKeeps o → SectionKeeps (put_back r o)
  put_back-SectionKeeps r none p h = tt
  put_back-SectionKeeps r (some (n, s)) p h = ((p, h.0), h.1)

  find_section-Keeps : (i : ℕ) (s : Section) → All P s → SectionKeeps (find_section a i s)
  unfolding find_section
  find_section-Keeps i [] h = tt
  find_section-Keeps i (r ∷ rs) h = elim (Bool-cases (ltb i regions_count)) [
    | inr e ↦ rw e tt
    | inl e ↦ rw e (elim (Bool-cases (r.address == a)) [
      | inr other ↦ rw other (put_back-SectionKeeps r _ h.0 (find_section-Keeps (i + 1) rs h.1))
      | inl same ↦
          rw same
            (fill_hole-All P rs h.1, subst (λ b. P (region b r.size)) (==→eq r.address a same) h.0)
    ])
  ]

  abbrev VectorKeeps : Option (ℕ × RegionVector) → Type 0
  VectorKeeps none = Unit {0}
  VectorKeeps (some (n, v)) = Every P v × P (region a n)

  put_back-VectorKeeps :
      (s : Section) (o : Option (ℕ × RegionVector))
      → All P s
      → VectorKeeps o
      → VectorKeeps (put_back s o)
  put_back-VectorKeeps s none p h = tt
  put_back-VectorKeeps s (some (n, v)) p h = ((p, h.0), h.1)

  unlink-Every :
      (linked : Bool) (s : Section) (v : RegionVector)
      → All P s
      → Every P v
      → Every P (unlink linked s v)
  unfolding unlink
  unlink-Every true [] v p h = h
  unlink-Every false [] v p h = (tt, h)
  unlink-Every linked (r ∷ s) v p h = (p, h)

  find_sections-Keeps :
      (linked : Bool) (v : RegionVector) → Every P v → VectorKeeps (find_sections linked a v)
  unfolding find_sections
  find_sections-Keeps linked [] h = tt
  find_sections-Keeps linked (s ∷ v) h =
      go (find_section a 0 s) (find_section-Keeps 0 s h.0) (find_sections-Keeps true v h.1)
    where
      go :
          (o : Option (ℕ × Section))
          → SectionKeeps o
          → VectorKeeps (find_sections true a v)
          → VectorKeeps (elim o [
            | some (n, s') ↦ some (n, unlink linked s' v)
            | none ↦ put_back s (find_sections true a v)
          ])
      go none k ih = put_back-VectorKeeps s (find_sections true a v) h.0 ih
      go (some (n, s')) k ih = (unlink-Every linked s' v k.0 h.1, k.1)

unlink-ne-nil : (s : Section) (v : RegionVector) → unlink false s v ≢ []
unfolding unlink
unlink-ne-nil [] v z = cc
unlink-ne-nil (r ∷ s) v z = cc

-- What a search that returned has kept: the property, a first section, and the property of the
-- region that it took, if it took one.
pub region_find-Every :
    (P : Region → Type 0) (a : ℕ) (v : RegionVector) {n : ℕ} {w : RegionVector}
    → Every P v
    → region_find_size_and_free v a ≡ ok (n, w)
    → Every P w × (w ≢ []) × (P (region a n) ⊎ ((n ≡ 0) × (w ≡ v)))
unfolding region_find_size_and_free find_sections
region_find-Every P a [] h e = cc
region_find-Every P a (s ∷ v) {n} {w} h e = elim (Option-cases (find_section a 0 s)) [
  | inr ((m, s'), found) ↦
      let k = subst (SectionKeeps P a) found (find_section-Keeps P a 0 s h.0) in
      let q : w ≡ unlink false s' v = ground arith in
      let size : n ≡ m = ground arith in
      rw (q, size) (unlink-Every P a false s' v k.0 h.1, unlink-ne-nil s' v, inl k.1)
  | inl missed ↦ elim (Option-cases (find_sections true a v)) [
    | inr ((m, v'), later) ↦
        let k = subst (VectorKeeps P a) later (find_sections-Keeps P a true v h.1) in
        let q : w ≡ s ∷ v' = ground arith in
        let size : n ≡ m = ground arith in rw (q, size) ((h.0, k.0), (λ z. cc), inl k.1)
    | inl none_at_all ↦
        let q : w ≡ s ∷ v = ground arith in
        let size : n ≡ 0 = ground arith in rw (q, size) (h, (λ z. cc), inr (refl, refl))
  ]
]

-- `region_alloc` leaves the chain of sections as long as it was.
pub region_alloc-ne-nil :
    (v : RegionVector) (n : ℕ) {a : ℕ} {w : RegionVector}
    → region_alloc v n ≡ ok (some (a, w))
    → w ≢ []
unfolding region_alloc alloc_sections
region_alloc-ne-nil [] n e z = cc
region_alloc-ne-nil (s ∷ v) n {a} {w} e z = elim (Option-cases (alloc_section n 0 s)) [
  | inr ((b, s'), found) ↦ ground arith
  | inl missed ↦ elim (Option-cases (alloc_sections n v)) [
    | inr ((b, v'), later) ↦ ground arith
    | inl none_at_all ↦ ground arith
  ]
]
