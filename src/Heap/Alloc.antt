-- ===== src/Heap/Alloc.antt =====
-- `kmalloc` on a valid heap.
use kernel_of_truth.Base.{
  ℕ, ◌+◌, ◌-◌, ◌*◌, ◌/◌, ◌≤◌, ◌<◌, ◌≡◌, ◌≢◌, ◌⊎◌, inl, inr, refl, true, [], ◌∷◌, arith, Option,
  none, some, ok, panic,
}
use kernel_of_truth.Types.{u64_mod, add64}
use kernel_of_truth.RegionVector.{
  RegionVector, region_alloc, region_free, region_find_size_and_free,
}
use kernel_of_truth.RegionVector.Cover.{inside, cover, Gives, Removes, NoneAt}
use kernel_of_truth.RegionVector.Alloc.{region_alloc-Removes}
use kernel_of_truth.RegionVector.Search.{NoneAbove, region_alloc-none_iff}
use kernel_of_truth.RegionVector.RoundTrip.{region_find-free}
use kernel_of_truth.RegionVector.Every.{Every, region_free-Every, region_alloc-ne-nil}
use kernel_of_truth.Heap.{
  Heap, heap_size, red_zone_size, filled_chunks, assert_bounds, kmalloc, kmalloc_take,
  kmalloc_found, kmalloc_sized,
}
use kernel_of_truth.Heap.Invariant.{
  IsSound, HasZones, IsValid, sound-Gives, filled_chunks_clean, assert_bounds_ok, block_in_heap,
  none_at,
}

-- The bytes from the start of the leading red zone to the end of the trailing one.
abbrev pub gross : ℕ → ℕ
gross bytes = bytes + 2 * red_zone_size

-- A successful `kmalloc` of `bytes` bytes that returned `p`.
pub record Allocates (h : Heap) (bytes p : ℕ) (h' : Heap) : Type 0 where
  pub valid : IsValid h'
  pub start : h.base + red_zone_size ≤ p
  pub end : p + bytes + red_zone_size ≤ h.base + heap_size
  pub taken : Removes (p - red_zone_size) (gross bytes) h.free h'.free
  pub given : Gives (p - red_zone_size) (gross bytes) h.used h'.used
  pub untouched : (x : ℕ) → h'.mem x ≡ h.mem x
  pub live :
      (u : RegionVector) × (region_find_size_and_free h'.used (p - red_zone_size)
        ≡ ok (gross bytes, u))

abbrev allocated : Heap → ℕ → RegionVector → RegionVector → Heap
allocated h n used free = record h { used = used; free = free; usage = add64 h.usage n }

module _ {h : Heap} (v : IsValid h) (bytes : ℕ) (small : gross bytes < u64_mod) {a : ℕ}
    {free : RegionVector} (found : region_alloc h.free (gross bytes) ≡ ok (some (a, free))) where
  taken : Removes a (gross bytes) h.free free
  taken = region_alloc-Removes h.free (gross bytes) v.free_sound.fits v.free_sound.bounded found

  placed : (h.base ≤ a) × (a + gross bytes ≤ h.base + heap_size)
  placed =
      block_in_heap h.base a (gross bytes) (omega arith)
        (λ x. omega (arith, taken.covers x, v.partition x))

  -- The block was free, so its bytes hold the fill and no used block meets it.
  fresh : (x : ℕ) → a ≤ x → x < a + gross bytes → (h.mem x ≡ 0xcc) × (cover h.used x ≡ 0)
  unfolding inside
  fresh x lo hi =
      let one : inside a (gross bytes) x ≡ 1 = ground arith in
      let most : inside h.base heap_size x ≤ 1 = ground arith in
      (v.clean x (omega (arith, taken.covers x)), omega (arith, taken.covers x, v.partition x))

  filled : filled_chunks h.mem a (gross bytes / 8) 0 ≡ true
  filled = filled_chunks_clean h.mem a (gross bytes / 8) 0 (λ x lo hi. (fresh x lo (omega arith)).0)

  module _ {used : RegionVector} (run : region_free h.used a (gross bytes) true ≡ ok used)
      (given : Gives a (gross bytes) h.used used) where
    take_runs :
        0 < bytes
        → kmalloc_take h bytes (gross bytes) a free true
          ≡ ok (a + red_zone_size, allocated h (gross bytes) used free)
    unfolding kmalloc_take
    take_runs pos =
        let q : add64 a red_zone_size ≡ a + red_zone_size = omega (arith, placed, v.space) in
        let fits =
          assert_bounds_ok h.base a bytes placed.0 (omega (arith, placed)) (omega (arith, placed))
            (omega (arith, placed)) v.space in
        rw (run, filled, fits, q)

    used-Every : Every HasZones used × (used ≢ [])
    used-Every = region_free-Every HasZones a (gross bytes) true h.used v.zones (omega arith) run

    allocated-IsValid : IsValid (allocated h (gross bytes) used free)
    allocated-IsValid = record {
      free_sound = record {
        chain = region_alloc-ne-nil h.free (gross bytes) found;
        fits = taken.fits;
        bounded = taken.bounded;
      };
      used_sound = record { chain = used-Every.1; fits = given.fits; bounded = given.bounded };
      zones = used-Every.0;
      low = v.low;
      space = v.space;
      partition = λ x. omega (arith, taken.covers x, given.covers x, v.partition x);
      clean = λ x c. v.clean x (omega (arith, taken.covers x));
      counted = omega (arith, v.counted, given.sizes);
    }

-- The section that stands for the head of a sound vector.
alloc-none : (v : RegionVector) (n : ℕ) → IsSound v → region_alloc v n ≡ ok none → NoneAbove n v
alloc-none [] n s e = tt
alloc-none (s ∷ v) n i e = (region_alloc-none_iff s v n i.bounded).0 e

find-free :
    (v : RegionVector) (a n : ℕ) {w : RegionVector}
    → IsSound v
    → NoneAt a v
    → region_free v a n true ≡ ok w
    → (u : RegionVector) × (region_find_size_and_free w a ≡ ok (n, u))
find-free [] a n i h e = absurd (i.chain refl)
find-free (s ∷ v) a n i h e = region_find-free a n s v h i.bounded e

alloc_returns :
    (v : RegionVector) (n : ℕ)
    → IsSound v
    → (o : Option (ℕ × RegionVector)) × (region_alloc v n ≡ ok o)
unfolding region_alloc
alloc_returns [] n i = absurd (i.chain refl)
alloc_returns (s ∷ v) n i = (_, refl)

-- With a page at hand for a region vector that has to grow, `kmalloc` of at least one byte, of a size
-- that does not wrap with its red zones, returns on every valid heap: no assertion fails. Either no
-- free region is larger than that size, and it returns NULL and changes nothing; or the block lies in
-- the heap with a red zone on either side, its bytes move from the free to the used ones, memory is as
-- it was, the heap is valid, and `kfree` can find the block.
pub kmalloc-Allocates :
    {h : Heap} (bytes : ℕ)
    → IsValid h
    → 0 < bytes
    → gross bytes < u64_mod
    → (p : ℕ) × (h' : Heap) × (kmalloc h bytes true ≡ ok (p, h'))
      × (((p ≡ 0) × (h' ≡ h) × NoneAbove (gross bytes) h.free) ⊎ Allocates h bytes p h')
unfolding kmalloc kmalloc_sized kmalloc_found
kmalloc-Allocates {h} bytes v pos small =
    let n : add64 bytes (2 * red_zone_size) ≡ gross bytes = omega arith in
    let (o, e) = alloc_returns h.free (gross bytes) v.free_sound in rw (n, e) (go o e)
  where
    go :
        (o : Option (ℕ × RegionVector))
        → region_alloc h.free (gross bytes) ≡ ok o
        → (p : ℕ) × (h' : Heap) × (kmalloc_found h bytes (gross bytes) true o ≡ ok (p, h'))
          × (((p ≡ 0) × (h' ≡ h) × NoneAbove (gross bytes) h.free) ⊎ Allocates h bytes p h')
    go none e = (0, h, refl, inl (refl, refl, alloc-none h.free (gross bytes) v.free_sound e))
    go (some (a, free)) e =
        let t = taken v bytes small e in
        let at = placed v bytes small e in
        let (used, run, given) = sound-Gives h.used a (gross bytes) v.used_sound t.block in
        let start : a + red_zone_size - red_zone_size ≡ a = omega arith in
        (
          a + red_zone_size,
          allocated h (gross bytes) used free,
          take_runs v bytes small e run given pos,
          inr (record {
            valid = allocated-IsValid v bytes small e run given;
            start = omega (arith, at);
            end = omega (arith, at);
            taken = rw start t;
            given = rw start given;
            untouched = λ x. refl;
            live = rw start (
                find-free h.used a (gross bytes) v.used_sound
                  (none_at a h.used (fresh v bytes small e a (omega arith) (omega arith)).1 v.zones)
                  run);
          }),
        )

-- With a page at hand, a request of no bytes that is served from the very start of a valid heap halts
-- the machine: the assertion that the block reaches past the start of the heap compares without the
-- red zones.
pub kmalloc_zero_panics :
    {h : Heap} {free : RegionVector}
    → IsValid h
    → region_alloc h.free (gross 0) ≡ ok (some (h.base, free))
    → kmalloc h 0 true ≡ panic
unfolding kmalloc kmalloc_sized kmalloc_found kmalloc_take assert_bounds
kmalloc_zero_panics {h} v e =
    let t = taken v 0 (omega arith) e in
    let (used, run, given) = sound-Gives h.used h.base (gross 0) v.used_sound t.block in
    let full = filled v 0 (omega arith) e in rw (e, run, full) (ground (arith, v.space))
