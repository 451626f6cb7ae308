-- ===== src/Heap/Live.antt =====
-- `kfree` of a block that is in use, by the state of its red zones; and after `kmalloc`.
use kernel_of_truth.Base.{
  ℕ, ◌+◌, ◌-◌, ◌*◌, ◌≤◌, ◌<◌, ◌≡◌, ◌≢◌, ◌⊎◌, inl, inr, ◌∙◌, subst, ◌==◌, Bool-cases, true, false,
  arith, ok, ne→==, panic, if◌then◌else◌,
}
use kernel_of_truth.Types.{u64_mod, add64, sub64}
use kernel_of_truth.String.{Mem}
use kernel_of_truth.String.Memory.{within}
use kernel_of_truth.RegionVector.{RegionVector, region_find_size_and_free}
use kernel_of_truth.RegionVector.Cover.{inside, cover}
use kernel_of_truth.RegionVector.Search.{NoneAbove}
use kernel_of_truth.String.Words.{read64}
use kernel_of_truth.Heap.Free.{Found, find-Found, Frees, checked_runs}
use kernel_of_truth.Heap.Alloc.{gross, Allocates, kmalloc-Allocates}
use kernel_of_truth.Heap.{
  kmalloc, Heap, heap_size, red_zone_size, red_zone_fill, kfree, kfree_at, kfree_checks,
}
use kernel_of_truth.Heap.Invariant.{IsValid, assert_bounds_ok, block_in_heap, read64_clean}

-- The red zones of the block of `n` bytes at `a` are intact.
abbrev pub Intact : Heap → ℕ → ℕ → Type 0
Intact h a n =
    (x : ℕ)
    → ((a ≤ x) × (x < a + red_zone_size)) ⊎ ((a + n ≤ x + red_zone_size) × (x < a + n))
    → h.mem x ≡ 0xcc

module _ {h : Heap} (v : IsValid h) {a n : ℕ} {used : RegionVector} (live : n ≢ 0)
    (found : Found h.used a n used) where
  zoned : 2 * red_zone_size ≤ n
  zoned = omega (arith, found.size)

  in_heap : (h.base ≤ a) × (a + n ≤ h.base + heap_size)
  in_heap =
      block_in_heap h.base a n (omega (arith, zoned))
        (λ x. omega (arith, found.covers x, v.partition x))

  checks_pass : Intact h a n → kfree_checks h a n ≡ ok tt
  unfolding kfree_checks
  checks_pass i =
      let prefix : read64 h.mem a ≡ red_zone_fill =
        read64_clean h.mem a (λ x lo hi. i x (inl (lo, hi))) in
      let at : sub64 (add64 a n) red_zone_size ≡ a + n - red_zone_size =
        omega (arith, in_heap, zoned, v.space) in
      let suffix : read64 h.mem (a + n - red_zone_size) ≡ red_zone_fill =
        read64_clean h.mem (a + n - red_zone_size)
          (λ x lo hi. i x (inr (omega arith, omega (arith, zoned)))) in
      let fits =
        assert_bounds_ok h.base a n in_heap.0 in_heap.1 (omega (arith, in_heap, zoned))
          (omega (arith, in_heap, zoned)) v.space in
      rw (prefix, at, suffix, fits)

-- On a valid heap, with a page at hand for a region vector that has to grow, `kfree` of a block that
-- is in use and whose red zones are intact returns, and frees that block.
pub kfree-live :
    {h : Heap} (p n : ℕ) {used : RegionVector}
    → IsValid h
    → red_zone_size < p
    → p < u64_mod
    → region_find_size_and_free h.used (p - red_zone_size) ≡ ok (n, used)
    → n ≢ 0
    → Intact h (p - red_zone_size) n
    → (h' : Heap) × (kfree h p true ≡ ok h') × Frees h (p - red_zone_size) n h'
unfolding kfree
kfree-live {h} p n {used} v lo hi run live i =
    let a = p - red_zone_size in
    let q : sub64 p red_zone_size ≡ a = omega arith in
    let (n', w, run', found) = find-Found h.used a v.used_sound v.zones (omega arith) in
    let same : ◌≡◌ {A = ℕ × RegionVector} (n', w) (n, used) = cc in
    let found' = subst (λ (r : ℕ × RegionVector). Found h.used a r.0 r.1) same found in
    let other : (p == 0) ≡ false = ground arith in
    rw (other, q) (checked_runs v run found' (checks_pass v live found' i))

-- A write into a red zone of a block that is in use, and starts behind the first 8 bytes of memory, is
-- noticed: `kfree` panics when the word in one of the two red zones is not the fill.
pub kfree-damaged :
    (h : Heap) (p n : ℕ) {used : RegionVector}
    → red_zone_size < p
    → p < u64_mod
    → region_find_size_and_free h.used (p - red_zone_size) ≡ ok (n, used)
    → (read64 h.mem (p - red_zone_size) ≢ red_zone_fill)
      ⊎ (read64 h.mem (sub64 (add64 (p - red_zone_size) n) red_zone_size) ≢ red_zone_fill)
    → kfree h p true ≡ panic
unfolding kfree kfree_at kfree_checks
kfree-damaged h p n {used} lo hi run d =
    let q : sub64 p red_zone_size ≡ p - red_zone_size = omega arith in
    let other : (p == 0) ≡ false = ground arith in
    rw (other, q, run)
      (elim d [
        | inl bad ↦ rw (ne→== _ _ bad)
        | inr bad ↦ elim (Bool-cases (read64 h.mem (p - red_zone_size) == red_zone_fill)) [
          | inl fine ↦ rw (fine, ne→== _ _ bad)
          | inr broken ↦ rw broken
        ]
      ])

-- The heap with other contents of memory.
abbrev pub with_mem : Heap → Mem → Heap
with_mem h m = record h { mem = m }

module _ {h h' : Heap} (v : IsValid h) (bytes p : ℕ) (pos : 0 < bytes)
    (small : gross bytes < u64_mod) (got : Allocates h bytes p h') (m : Mem)
    (kept : (x : ℕ) → within p bytes x ≡ false → m x ≡ h.mem x) where
  -- No free byte lies in the block that was handed out.
  free_kept : (x : ℕ) → 0 < cover h'.free x → m x ≡ 0xcc
  unfolding inside
  free_kept x c =
      ground
        (arith, got.start, got.given.covers x, got.taken.covers x, v.partition x, kept x, v.clean x)

  written-IsValid : IsValid (with_mem h' m)
  written-IsValid = record {
    free_sound = got.valid.free_sound;
    used_sound = got.valid.used_sound;
    zones = got.valid.zones;
    low = got.valid.low;
    space = got.valid.space;
    partition = got.valid.partition;
    clean = free_kept;
    counted = got.valid.counted;
  }

  zones_kept : Intact (with_mem h' m) (p - red_zone_size) (gross bytes)
  unfolding inside
  zones_kept x z = ground (arith, got.start, v.low, got.taken.covers x, kept x, v.clean x)

  -- The fill is what the block held before.
  outside_kept :
      (x : ℕ)
      → within p bytes x ≡ false
      → (if within (p - red_zone_size) (gross bytes) x then 0xcc else m x) ≡ h.mem x
  unfolding inside
  outside_kept x w = ground (arith, got.start, v.low, got.taken.covers x, kept x, v.clean x)

-- What `kmalloc` can come to, as one predicate of what it returned.
abbrev Outcome : Heap → ℕ → ℕ × Heap → Type 0
Outcome h bytes r =
    ((r.0 ≡ 0) × (r.1 ≡ h) × NoneAbove (gross bytes) h.free) ⊎ Allocates h bytes r.0 r.1

-- On a valid heap, with a page at hand for a region vector that has to grow: after a `kmalloc` of at
-- least one byte, of a size that does not wrap with its red zones, that did not return NULL, and any
-- writes to the bytes asked for and no others,
-- `kfree` of the pointer returns. The heap is valid again, every byte is as often free and as often
-- used as before the `kmalloc`, and memory outside the block is as it was.
pub kfree-kmalloc :
    {h h' : Heap} (bytes p : ℕ) (m : Mem)
    → IsValid h
    → 0 < bytes
    → gross bytes < u64_mod
    → kmalloc h bytes true ≡ ok (p, h')
    → p ≢ 0
    → ((x : ℕ) → within p bytes x ≡ false → m x ≡ h.mem x)
    → (h'' : Heap) × (kfree (with_mem h' m) p true ≡ ok h'')
      × IsValid h''
      × ((x : ℕ) → cover h''.free x ≡ cover h.free x)
      × ((x : ℕ) → cover h''.used x ≡ cover h.used x)
      × ((x : ℕ) → within p bytes x ≡ false → h''.mem x ≡ h.mem x)
kfree-kmalloc {h} {h'} bytes p m v pos small run nonzero kept =
    let (p', g, run', out) = kmalloc-Allocates bytes v pos small in
    let same : ◌≡◌ {A = ℕ × Heap} (p', g) (p, h') = cc in
    elim (subst (Outcome h bytes) same out) [
      | inl missed ↦ absurd (nonzero missed.0)
      | inr got ↦
          let (u, live) = got.live in
          let (h'', ran, f) =
            kfree-live p (gross bytes) (written-IsValid v bytes p pos small got m kept)
              (omega (arith, got.start, v.low)) (omega (arith, got.end, v.space)) live (omega arith)
              (zones_kept v bytes p pos small got m kept) in
          (
            h'',
            ran,
            f.valid,
            (λ x. omega (arith, f.returned.covers x, got.taken.covers x)),
            (λ x. omega (arith, f.released x, got.given.covers x)),
            λ x w. f.refilled x ∙ outside_kept v bytes p pos small got m kept x w,
          )
    ]
