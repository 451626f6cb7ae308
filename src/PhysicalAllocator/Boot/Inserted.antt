-- ===== src/PhysicalAllocator/Boot/Inserted.antt =====
-- `insert_regions` of kernel/core/physical_allocator.c as a whole, without modules of the boot loader.
use kernel_of_truth.Base.{
  ℕ, ◌+◌, ◌-◌, ◌%◌, ◌<◌, ◌≤◌, ◌≡◌, ◌≢◌, refl, ◌∙◌, ◌&&◌, true, false, if◌then◌else◌, ltb, leb,
  Bool-cases, inl, inr, List, [], ◌∷◌, ◌++◌, All, ok, arith, not,
}
use kernel_of_truth.Types.{add64, sub64}
use kernel_of_truth.PhysicalAllocator.{Pages, physical_region_contains}
use kernel_of_truth.PhysicalAllocator.Ranges.{FreeRange, Whole, Distinct, IsStack, free_at}
use kernel_of_truth.PhysicalAllocator.Boot.{
  Reserved, MmapEntry, boot_map_start, align_as, round_next, reserved_regions, scan_reserved,
  free_regions, insert_regions,
}
use kernel_of_truth.PhysicalAllocator.Boot.Regions.{Apart, between, free_ranges-IsStack}

-- How often the byte `x` is in available memory and not in the boot map, which ends at `end`.
abbrev pub available_at : ℕ → List MmapEntry → ℕ → ℕ
available_at end [] x = 0
available_at end (e ∷ es) x =
    (if e.available && not (leb boot_map_start x && ltb x end)
      then between e.addr (e.addr + e.len) x
      else 0)
    + available_at end es x

-- The entry is of whole pages of physical memory, and not all inside of the boot map.
abbrev pub WholeEntry : ℕ → MmapEntry → Type 0
WholeEntry end e = Whole (e.addr, e.len) × ¬ ((boot_map_start ≤ e.addr) × (e.addr + e.len ≤ end))

-- Entries of the memory map from `low` on, each behind the one before it.
abbrev pub Ordered : ℕ → ℕ → List MmapEntry → Type 0
Ordered end low [] = Unit {0}
Ordered end low (e ∷ es) = (low ≤ e.addr) × WholeEntry end e × Ordered end (e.addr + e.len) es

-- Ranges that start from `low` on and before `high`.
abbrev StartWithin : ℕ → ℕ → List FreeRange → Type 0
StartWithin low high = All (λ (c : FreeRange). (low ≤ c.0) × (c.0 < high))

abbrev StartFrom : ℕ → List FreeRange → Type 0
StartFrom low = All (λ (c : FreeRange). low ≤ c.0)

-- What the ranges given back for one entry are.
record Own (end : ℕ) (e : MmapEntry) (own : List FreeRange) : Type 0 where
  bytes :
      (x : ℕ)
      → free_at own x
        ≡ (if leb boot_map_start x && ltb x end then 0 else between e.addr (e.addr + e.len) x)
  whole : All Whole own
  distinct : Distinct own
  starts : StartWithin e.addr (e.addr + e.len) own

abbrev boot_map : ℕ → List Reserved
boot_map end = (boot_map_start, end) ∷ []

given_back :
    (end : ℕ) (e : MmapEntry) (es : List MmapEntry)
    → boot_map_start < end
    → end % 4096 ≡ 0
    → WholeEntry end e
    → e.available ≡ true
    → (own : List FreeRange) × (free_regions (boot_map end) (e ∷ es)
        ≡ own ++ free_regions (boot_map end) es)
      × Own end e own
unfolding free_regions scan_reserved free_at physical_region_contains
given_back end e es some_bytes aligned (whole, seen) available =
    let sum : add64 e.addr e.len ≡ e.addr + e.len = omega arith in
    elim (Bool-cases (physical_region_contains e.addr (e.addr + e.len) boot_map_start end)) [
      | inr apart ↦ (
        (e.addr, e.len) ∷ [],
        rw (available, sum, apart) refl,
        record {
          bytes = λ x. ground arith;
          whole = (whole, tt);
          distinct = (tt, tt);
          starts = (omega arith, tt);
        },
      )
      | inl overlap ↦ elim (Bool-cases (ltb e.addr boot_map_start)) [
        | inl before ↦
            let w : sub64 boot_map_start e.addr ≡ boot_map_start - e.addr = ground arith in
            elim (Bool-cases (ltb end (e.addr + e.len))) [
              | inl after ↦
                  let w' : sub64 (e.addr + e.len) end ≡ e.addr + e.len - end = ground arith in
                  (
                    (e.addr, boot_map_start - e.addr) ∷ (end, e.addr + e.len - end) ∷ [],
                    rw (available, sum, overlap, before, after, w, w') refl,
                    record {
                      bytes = λ x. ground arith;
                      whole = (ground arith, (ground arith, tt));
                      distinct = ((ground arith, tt), (tt, tt));
                      starts = (ground arith, (ground arith, tt));
                    },
                  )
              | inr at_end ↦ (
                (e.addr, boot_map_start - e.addr) ∷ [],
                rw (available, sum, overlap, before, at_end, w) refl,
                record {
                  bytes = λ x. ground arith;
                  whole = (ground arith, tt);
                  distinct = (tt, tt);
                  starts = (ground arith, tt);
                },
              )
            ]
        | inr at_start ↦ elim (Bool-cases (ltb end (e.addr + e.len))) [
          | inl after ↦
              let w' : sub64 (e.addr + e.len) end ≡ e.addr + e.len - end = ground arith in
              (
                (end, e.addr + e.len - end) ∷ [],
                rw (available, sum, overlap, at_start, after, w') refl,
                record {
                  bytes = λ x. ground arith;
                  whole = (ground arith, tt);
                  distinct = (tt, tt);
                  starts = (ground arith, tt);
                },
              )
          | inr at_end ↦ absurd (ground arith)
        ]
      ]
    ]

free_at-append : (a b : List FreeRange) (x : ℕ) → free_at (a ++ b) x ≡ free_at a x + free_at b x
unfolding free_at
free_at-append [] b x = omega arith
free_at-append (r ∷ a) b x = omega (arith, free_at-append a b x)

All-append : (P : FreeRange → Type 0) (a b : List FreeRange) → All P a → All P b → All P (a ++ b)
All-append P [] b first second = second
All-append P (r ∷ a) b first second = (first.0, All-append P a b first.1 second)

All-map :
    (P Q : FreeRange → Type 0) (a : List FreeRange)
    → ((c : FreeRange) → P c → Q c)
    → All P a
    → All Q a
All-map P Q [] f all = tt
All-map P Q (r ∷ a) f all = (f r all.0, All-map P Q a f all.1)

-- Ranges behind those of `a` start at other addresses.
Distinct-append :
    (low high : ℕ) (a b : List FreeRange)
    → StartWithin low high a
    → StartFrom high b
    → Distinct a
    → Distinct b
    → Distinct (a ++ b)
Distinct-append low high [] b within behind first second = second
Distinct-append low high (r ∷ a) b within behind first second = (
  All-append (λ (c : FreeRange). c.0 ≢ r.0) a b first.0
      (All-map (λ (c : FreeRange). high ≤ c.0) (λ (c : FreeRange). c.0 ≢ r.0) b
        (λ c le. λ same. omega (arith, le, within.0, same)) behind),
  Distinct-append low high a b within.1 behind first.1 second,
)

-- What the ranges given back for a memory map are.
record MapOwn (end low : ℕ) (es : List MmapEntry) (calls : List FreeRange) : Type 0 where
  bytes : (x : ℕ) → free_at calls x ≡ available_at end es x
  whole : All Whole calls
  distinct : Distinct calls
  starts : StartFrom low calls

skipped :
    (end : ℕ) (e : MmapEntry) (es : List MmapEntry)
    → e.available ≡ false
    → free_regions (boot_map end) (e ∷ es) ≡ free_regions (boot_map end) es
unfolding free_regions
skipped end e es unavailable = rw unavailable refl

module _ (end : ℕ) (some_bytes : boot_map_start < end) (aligned : end % 4096 ≡ 0) where
  free_regions-MapOwn :
      (low : ℕ) (es : List MmapEntry)
      → Ordered end low es
      → MapOwn end low es (free_regions (boot_map end) es)
  unfolding free_regions free_at
  free_regions-MapOwn low [] ordered = record {
    bytes = λ x. refl;
    whole = tt;
    distinct = tt;
    starts = tt;
  }
  free_regions-MapOwn low (e ∷ es) (from, entry, ordered) =
      let rest = free_regions-MapOwn (e.addr + e.len) es ordered in
      let behind =
        All-map (λ (c : FreeRange). e.addr + e.len ≤ c.0) (λ (c : FreeRange). low ≤ c.0)
          (free_regions (boot_map end) es) (λ c le. omega (arith, le, from)) rest.starts in
      elim (Bool-cases e.available) [
        | inr off ↦ rw (skipped end e es off) (record {
          bytes = λ x. ground (arith, off, rest.bytes x);
          whole = rest.whole;
          distinct = rest.distinct;
          starts = behind;
        })
        | inl on ↦
            let (own, same, o) = given_back end e es some_bytes aligned entry on in
            rw same (record {
              bytes = λ x.
                  free_at-append own (free_regions (boot_map end) es) x
                  ∙ ground (arith, o.bytes x, rest.bytes x, on);
              whole = All-append Whole own _ o.whole rest.whole;
              distinct =
                  Distinct-append e.addr (e.addr + e.len) own _ o.starts rest.starts o.distinct
                    rest.distinct;
              starts =
                  All-append (λ (c : FreeRange). low ≤ c.0) own _
                    (All-map (λ (c : FreeRange). (e.addr ≤ c.0) × (c.0 < e.addr + e.len))
                      (λ (c : FreeRange). low ≤ c.0) own (λ c h. omega (arith, h, from)) o.starts)
                    behind;
            })
      ]

Apart-none : (calls : List FreeRange) → Apart calls []
Apart-none [] = tt
Apart-none (c ∷ calls) = (tt, Apart-none calls)

-- With no modules, whose list is seen to lie in the boot map, and a memory map in order, of whole pages,
-- of which no entry lies all inside of the boot map: `insert_regions` of an empty stack returns, and just
-- the bytes of available memory outside of the boot map are free, each once.
pub insert_regions-Inserts :
    (boot_end mods_addr : ℕ) (mmap : List MmapEntry) (s : Pages)
    → IsStack s []
    → boot_map_start < boot_end
    → boot_end % 4096 ≡ 0
    → physical_region_contains boot_map_start boot_end
        (align_as mods_addr)
        (round_next (add64 mods_addr 0))
      ≡ true
    → Ordered boot_end 0 mmap
    → (s' : Pages) × (ranges : List FreeRange) × (insert_regions boot_end mods_addr [] mmap s
        ≡ ok s')
      × IsStack s' ranges
      × ((x : ℕ) → free_at ranges x ≡ available_at boot_end mmap x)
unfolding insert_regions reserved_regions free_at
insert_regions-Inserts boot_end mods_addr mmap s is some_bytes aligned in_map ordered =
    let calls = free_regions (boot_map boot_end) mmap in
    let own = free_regions-MapOwn boot_end some_bytes aligned 0 mmap ordered in
    let (s', ranges, run, is', bytes) =
      free_ranges-IsStack calls s [] is own.whole own.distinct (Apart-none calls) in
    (s', ranges, rw in_map run, is', λ x. omega (arith, bytes x, own.bytes x))
