-- ===== src/Heap/Invariant.antt =====
-- The invariant of the heap: its bytes are shared out between the free and the used regions.
use kernel_of_truth.Base.{
  ℕ, zero, suc, ◌+◌, ◌-◌, ◌*◌, ◌%◌, ◌≤◌, ◌<◌, ◌≡◌, ◌≢◌, refl, true, [], ◌∷◌, All, arith, ok,
}
use kernel_of_truth.Types.{u64_mod}
use kernel_of_truth.String.{Mem}
use kernel_of_truth.RegionVector.{Region, region, Section, RegionVector, region_free}
use kernel_of_truth.RegionVector.Cover.{
  inside, cover, cover_section, total, Fits, AllFit, Bounded, Gives, NoneAt,
}
use kernel_of_truth.RegionVector.Every.{Every}
use kernel_of_truth.RegionVector.Free.{region_free-Gives}
use kernel_of_truth.String.Words.{read64}
use kernel_of_truth.Heap.{
  Heap, heap_size, red_zone_size, red_zone_fill, filled_chunks, assert_bounds,
}

-- A vector that can be used: it has a first section, no section is overfull, no region wraps.
pub record IsSound (v : RegionVector) : Type 0 where
  pub chain : v ≢ []
  pub fits : AllFit v
  pub bounded : Bounded v

-- A used block holds its two red zones.
abbrev pub HasZones : Region → Type 0
HasZones r = 2 * red_zone_size ≤ r.size

-- Each byte of the heap lies in exactly one region, free or used, and no other byte does; a free
-- byte holds the fill; `Used` counts the used bytes.
pub record IsValid (h : Heap) : Type 0 where
  pub free_sound : IsSound h.free
  pub used_sound : IsSound h.used
  pub zones : Every HasZones h.used
  pub low : red_zone_size ≤ h.base
  pub space : h.base + heap_size < u64_mod
  pub partition : (x : ℕ) → cover h.free x + cover h.used x ≡ inside h.base heap_size x
  pub clean : (x : ℕ) → 0 < cover h.free x → h.mem x ≡ 0xcc
  pub counted : h.usage ≡ total h.used % u64_mod

pub sound-Gives :
    (v : RegionVector) (a n : ℕ)
    → IsSound v
    → Fits (region a n)
    → (w : RegionVector) × (region_free v a n true ≡ ok w) × Gives a n v w
sound-Gives [] a n s f = absurd (s.chain refl)
sound-Gives (s ∷ v) a n i f = region_free-Gives s v a n i.fits i.bounded f

-- A word whose bytes all hold the fill is the red zone word.
pub read64_clean :
    (m : Mem) (a : ℕ) → ((x : ℕ) → a ≤ x → x < a + 8 → m x ≡ 0xcc) → read64 m a ≡ red_zone_fill
unfolding read64
read64_clean m a h = omega (
  arith,
  h a (omega arith) (omega arith),
  h (a + 1) (omega arith) (omega arith),
  h (a + 2) (omega arith) (omega arith),
  h (a + 3) (omega arith) (omega arith),
  h (a + 4) (omega arith) (omega arith),
  h (a + 5) (omega arith) (omega arith),
  h (a + 6) (omega arith) (omega arith),
  h (a + 7) (omega arith) (omega arith),
)

-- A block of fill passes the check of `kmalloc`.
pub filled_chunks_clean :
    (m : Mem) (a k i : ℕ)
    → ((x : ℕ) → a ≤ x → x < a + 8 * (i + k) → m x ≡ 0xcc)
    → filled_chunks m a k i ≡ true
unfolding filled_chunks
filled_chunks_clean m a zero i h = refl
filled_chunks_clean m a (suc k) i h =
    let word : read64 m (a + 8 * i) ≡ red_zone_fill =
      read64_clean m (a + 8 * i) (λ x lo hi. h x (omega arith) (omega arith)) in
    let rest : filled_chunks m a k (i + 1) ≡ true =
      filled_chunks_clean m a k (i + 1) (λ x lo hi. h x lo (omega arith)) in
    rw (word, rest)

-- The four assertions hold of a block that lies in the heap and is followed by a red zone.
pub assert_bounds_ok :
    (base a n : ℕ)
    → base ≤ a
    → a + n ≤ base + heap_size
    → a < base + heap_size
    → base < a + n
    → base + heap_size < u64_mod
    → assert_bounds base a n ≡ ok tt
unfolding assert_bounds
assert_bounds_ok base a n lo hi lo' hi' space = ground arith

-- A non-empty block that the heap covers lies in it.
pub block_in_heap :
    (base a n : ℕ)
    → 0 < n
    → ((x : ℕ) → inside a n x ≤ inside base heap_size x)
    → (base ≤ a) × (a + n ≤ base + heap_size)
unfolding inside
block_in_heap base a n pos h = ground (arith, h a, h (a + n - 1))

none_at_section :
    (a : ℕ) (s : Section) → cover_section s a ≡ 0 → All HasZones s → All (λ r. r.address ≢ a) s
unfolding cover_section inside
none_at_section a [] h z = tt
none_at_section a (r ∷ rs) h z = ((λ e. ground arith), none_at_section a rs (omega arith) z.1)

-- No block starts at an address that no block covers.
pub none_at : (a : ℕ) (v : RegionVector) → cover v a ≡ 0 → Every HasZones v → NoneAt a v
unfolding cover
none_at a [] h z = tt
none_at a (s ∷ v) h z = (none_at_section a s (omega arith) z.0, none_at a v (omega arith) z.1)
