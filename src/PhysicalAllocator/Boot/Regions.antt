-- ===== src/PhysicalAllocator/Boot/Regions.antt =====
-- What `insert_regions` of kernel/core/physical_allocator.c makes free.
use kernel_of_truth.Base.{
  ℕ, ◌+◌, ◌-◌, ◌<◌, ◌≤◌, ◌≡◌, refl, sym, ◌&&◌, true, if◌then◌else◌, ltb, leb, bit, Bool-cases, inl,
  inr, List, [], ◌∷◌, ◌^◌, All, ok, arith,
}
use kernel_of_truth.Types.{add64, sub64}
use kernel_of_truth.PhysicalAllocator.{Pages, physical_region_contains}
use kernel_of_truth.PhysicalAllocator.Ranges.{
  FreeRange, Whole, StartsNone, Distinct, IsStack, free_at,
}
use kernel_of_truth.PhysicalAllocator.Alloc.{physical_free_range-IsStack}
use kernel_of_truth.PhysicalAllocator.Boot.{scan_reserved, free_regions, free_ranges}

-- The byte `x` lies between two addresses.
abbrev pub between : ℕ → ℕ → ℕ → ℕ
between a b x = bit (leb a x && ltb x b)

-- A region of available memory that a reserved one overlaps, and does not cover whole: just the bytes of the region
-- that are not reserved are given back, each once.
pub free_regions-overlap :
    (addr len start end x : ℕ)
    → addr + len < 2 ^ 64
    → start < end
    → end < 2 ^ 64
    → physical_region_contains addr (addr + len) start end ≡ true
    → free_at
        (free_regions
          ((start, end) ∷ [])
          (record { addr = addr; len = len; available = true } ∷ []))
        x
      ≡ (if leb start x && ltb x end then 0 else between addr (addr + len) x)
unfolding free_regions scan_reserved free_at physical_region_contains
free_regions-overlap addr len start end x fits some_bytes fits' overlap =
    let e : add64 addr len ≡ addr + len = omega arith in
    elim (Bool-cases (ltb addr start)) [
      | inl before ↦ elim (Bool-cases (ltb end (addr + len))) [
        | inl after ↦
            let w : sub64 start addr ≡ start - addr = ground arith in
            let w' : sub64 (addr + len) end ≡ addr + len - end = ground arith in
            rw (e, overlap, before, after, w, w') (ground arith)
        | inr at_end ↦
            let w : sub64 start addr ≡ start - addr = ground arith in
            rw (e, overlap, before, at_end, w) (ground arith)
      ]
      | inr at_start ↦ elim (Bool-cases (ltb end (addr + len))) [
        | inl after ↦
            let w' : sub64 (addr + len) end ≡ addr + len - end = ground arith in
            rw (e, overlap, at_start, after, w') (ground arith)
        | inr at_end ↦ ground arith
      ]
    ]

-- A region of available memory that a reserved one covers whole is not seen to overlap it: all of it is given
-- back, the reserved bytes too.
pub free_regions-covered :
    (addr len start end : ℕ)
    → addr + len < 2 ^ 64
    → start ≤ addr
    → addr + len ≤ end
    → free_regions ((start, end) ∷ []) (record { addr = addr; len = len; available = true } ∷ [])
      ≡ (addr, len) ∷ []
unfolding free_regions scan_reserved physical_region_contains
free_regions-covered addr len start end fits below above = ground arith

-- None of the ranges starts where one of the stack does.
abbrev pub Apart : List FreeRange → List FreeRange → Type 0
Apart calls ranges = All (λ (call : FreeRange). StartsNone call.0 ranges) calls

Apart-push :
    (range : FreeRange) (calls ranges : List FreeRange)
    → StartsNone range.0 calls
    → Apart calls ranges
    → Apart calls (range ∷ ranges)
Apart-push range [] ranges fresh apart = tt
Apart-push range (call ∷ calls) ranges fresh apart =
    ((λ same. fresh.0 (sym same), apart.0), Apart-push range calls ranges fresh.1 apart.1)

-- Calls of `physical_free_range` one after the other, with ranges of whole pages that start at different
-- addresses, where none of the stack starts: all of them return, and every byte is then free as often as it was before and in the
-- ranges.
pub free_ranges-IsStack :
    (calls : List FreeRange) (s : Pages) (ranges : List FreeRange)
    → IsStack s ranges
    → All Whole calls
    → Distinct calls
    → Apart calls ranges
    → (s' : Pages) × (ranges' : List FreeRange) × (free_ranges calls s ≡ ok s')
      × IsStack s' ranges'
      × ((x : ℕ) → free_at ranges' x ≡ free_at calls x + free_at ranges x)
unfolding free_ranges free_at
free_ranges-IsStack [] s ranges is whole distinct apart = (s, ranges, refl, is, λ x. omega arith)
free_ranges-IsStack (call ∷ calls) s ranges is whole distinct apart =
    let (run, is1) = physical_free_range-IsStack s call.0 call.1 ranges is whole.0 apart.0 in
    let (s', ranges', rest, is', count) =
      free_ranges-IsStack calls _ (call ∷ ranges) is1 whole.1 distinct.1
        (Apart-push call calls ranges distinct.0 apart.1) in
    (s', ranges', rw run rest, is', λ x. omega (arith, count x))
