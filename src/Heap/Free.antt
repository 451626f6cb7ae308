-- ===== src/Heap/Free.antt =====
-- `kfree` on a valid heap.
use kernel_of_truth.Base.{
  ℕ, ◌+◌, ◌*◌, ◌≤◌, ◌<◌, ◌≡◌, ◌≢◌, ◌⊎◌, inl, inr, refl, sym, subst, ◌==◌, Bool-cases, true, [], ◌∷◌,
  arith, ok, ◌>>=◌, >>=-eq-ok, ==→eq, if◌then◌else◌,
}
use kernel_of_truth.Types.{u64_mod, sub64}
use kernel_of_truth.String.{memset}
use kernel_of_truth.String.Memory.{memset-filled, within}
use kernel_of_truth.RegionVector.{region, RegionVector, region_free, region_find_size_and_free}
use kernel_of_truth.RegionVector.Cover.{inside, cover, total, Fits, Gives, NoneAt}
use kernel_of_truth.RegionVector.Find.{FirstAt, FirstAt-All}
use kernel_of_truth.RegionVector.Free.{region_find_size_and_free-Removes}
use kernel_of_truth.RegionVector.Every.{Every, region_free-Every, region_find-Every}
use kernel_of_truth.Heap.{
  Heap, red_zone_size, red_zone_fill, kfree, kfree_at, kfree_checks, kfree_return,
}
use kernel_of_truth.Heap.Invariant.{IsSound, HasZones, IsValid, sound-Gives}

-- What a search of the used blocks for the address `a` can come to: a block of `n` bytes with its
-- red zones, or nothing, with `n` zero.
pub record Found (u : RegionVector) (a n : ℕ) (w : RegionVector) : Type 0 where
  pub sound : IsSound w
  pub zones : Every HasZones w
  pub covers : (x : ℕ) → cover u x ≡ cover w x + inside a n x
  pub sizes : total u ≡ total w + n
  pub fits : Fits (region a n)
  pub size : (2 * red_zone_size ≤ n) ⊎ (n ≡ 0)
  pub known : (FirstAt a n u × (2 * red_zone_size ≤ n)) ⊎ (NoneAt a u × (n ≡ 0))

pub find-Found :
    (u : RegionVector) (a : ℕ)
    → IsSound u
    → Every HasZones u
    → a < u64_mod
    → (n : ℕ) × (w : RegionVector) × (region_find_size_and_free u a ≡ ok (n, w)) × Found u a n w
unfolding inside
find-Found [] a i z lt = absurd (i.chain refl)
find-Found (s ∷ u) a i z lt =
    let (n, w, run, r) = region_find_size_and_free-Removes s u a i.fits i.bounded in
    let (z', c, k) = region_find-Every HasZones a (s ∷ u) z run in
    let size : (2 * red_zone_size ≤ n) ⊎ (n ≡ 0) = elim k [ inl p ↦ inl p | inr q ↦ inr q.0 ] in
    (
      n,
      w,
      run,
      elim r [
        | inl (first, taken) ↦ record {
          sound = record { chain = c; fits = taken.fits; bounded = taken.bounded };
          zones = z';
          covers = taken.covers;
          sizes = taken.sizes;
          fits = taken.block;
          size = size;
          known = inl (first, FirstAt-All HasZones a n (s ∷ u) z first);
        }
        | inr (absent, none_there, same) ↦ record {
          sound = subst IsSound (sym same) i;
          zones = z';
          covers = λ x. rw (none_there, same) (ground arith);
          sizes = rw (none_there, same) (omega arith);
          fits = omega arith;
          size = size;
          known = inr (absent, none_there);
        }
      ],
    )

-- A call of `kfree` that took `n` bytes from `a` on out of the used blocks.
pub record Frees (h : Heap) (a n : ℕ) (h' : Heap) : Type 0 where
  pub valid : IsValid h'
  pub same_base : h'.base ≡ h.base
  pub returned : Gives a n h.free h'.free
  pub released : (x : ℕ) → cover h.used x ≡ cover h'.used x + inside a n x
  pub refilled : (x : ℕ) → h'.mem x ≡ (if within a n x then 0xcc else h.mem x)

abbrev freed : Heap → ℕ → ℕ → RegionVector → RegionVector → Heap
freed h a n used free = record h {
  used = used;
  free = free;
  mem = memset h.mem a red_zone_fill n;
  usage = sub64 h.usage n;
}

module _ {h : Heap} (v : IsValid h) {a n : ℕ} {used free : RegionVector}
    (found : Found h.used a n used) (given : Gives a n h.free free) (chain : free ≢ []) where
  freed_mem : (x : ℕ) → memset h.mem a red_zone_fill n x ≡ (if within a n x then 0xcc else h.mem x)
  freed_mem x = memset-filled h.mem a red_zone_fill n x

  freed-Frees : Frees h a n (freed h a n used free)
  unfolding inside
  freed-Frees = record {
    valid = record {
      free_sound = record { chain = chain; fits = given.fits; bounded = given.bounded };
      used_sound = found.sound;
      zones = found.zones;
      low = v.low;
      space = v.space;
      partition = λ x. omega (arith, given.covers x, found.covers x, v.partition x);
      clean = λ x c. ground (arith, freed_mem x, given.covers x, v.clean x);
      counted = omega (arith, v.counted, found.sizes, found.fits);
    };
    same_base = refl;
    returned = given;
    released = found.covers;
    refilled = freed_mem;
  }

module _ {h : Heap} (v : IsValid h) {a n : ℕ} {used : RegionVector}
    (run : region_find_size_and_free h.used a ≡ ok (n, used)) (found : Found h.used a n used) where
  return_runs : (h' : Heap) × (kfree_return h a n used true ≡ ok h') × Frees h a n h'
  unfolding kfree_return
  return_runs =
      let (free, run', given) = sound-Gives h.free a n v.free_sound found.fits in
      let chain : free ≢ [] = (free_chain run') in
      (freed h a n used free, rw run', freed-Frees v found given chain)
    where
      free_chain : {free : RegionVector} → region_free h.free a n true ≡ ok free → free ≢ []
      free_chain e = (region_free-Every Fits a n true h.free v.free_sound.fits found.fits e).1

  -- With its checks passed, `kfree` returns.
  pub checked_runs :
      kfree_checks h a n ≡ ok tt → (h' : Heap) × (kfree_at h a true ≡ ok h') × Frees h a n h'
  unfolding kfree_at
  checked_runs passed = let (h', e, f) = return_runs in (h', rw (run, passed, e), f)

  -- With a check failed it does not.
  checked_only : {h' : Heap} → kfree_at h a true ≡ ok h' → kfree_checks h a n ≡ ok tt
  unfolding kfree_at
  checked_only {h'} e =
      let e' : (kfree_checks h a n >>= λ _. kfree_return h a n used true) ≡ ok h' = rw run at e in
      let (u, passed, _) = >>=-eq-ok (kfree_checks h a n) _ e' in passed

-- Whatever pointer `kfree` is given on a valid heap, also a wrong one or one that was freed before, with
-- a page at hand for a region vector that has to grow: if it returns, either the pointer was NULL and
-- nothing has changed, or the heap is valid again and one of two things has happened. The bytes of the
-- first used region that starts at the pointer less the red zone, at least two red zones, have gone from
-- the used to the free ones; or no used region starts there, no byte has changed between used and
-- free, and a region of no bytes has been given back. The bytes that have gone hold the fill, and every
-- other byte of memory is as it was.
pub kfree-Frees :
    {h h' : Heap} (p : ℕ)
    → IsValid h
    → kfree h p true ≡ ok h'
    → ((p ≡ 0) × (h' ≡ h))
      ⊎ ((n : ℕ) × Frees h (sub64 p red_zone_size) n h'
          × ((FirstAt (sub64 p red_zone_size) n h.used × (2 * red_zone_size ≤ n))
              ⊎ (NoneAt (sub64 p red_zone_size) h.used × (n ≡ 0))))
unfolding kfree
kfree-Frees {h} {h'} p v e = elim (Bool-cases (p == 0)) [
  | inl null ↦ inl (==→eq p 0 null, ground arith)
  | inr other ↦
      let a = sub64 p red_zone_size in
      let e' : kfree_at h a true ≡ ok h' = rw other at e in
      let (n, used, run, found) = find-Found h.used a v.used_sound v.zones (omega arith) in
      let (h'', runs, f) = checked_runs v run found (checked_only v run found e') in
      let same : h'' ≡ h' = cc in inr (n, subst (Frees h a n) same f, found.known)
]
