-- ===== src/Hashtable/Probe.antt =====
-- The order in which linear probing visits the slots, as linear arithmetic.
use native.Mathlib.Nat.{mod-eq_of_lt}
use kernel_of_truth.Base.{
  ℕ, ◌+◌, ◌-◌, ◌%◌, ◌<◌, ◌≡◌, ◌≢◌, ◌⊎◌, inl, inr, arith, leb, if◌then◌else◌, ℕ_discrete,
}

-- The number of steps from slot `s` to slot `i`, going round at `size`.
abbrev pub dist : ℕ → ℕ → ℕ → ℕ
dist size s i = if leb s i then i - s else i + size - s

-- The slot behind `s`.
abbrev pub next : ℕ → ℕ → ℕ
next size s = (s + 1) % size

pub next_cases :
    (size s : ℕ)
    → s < size
    → ((s + 1 ≡ size) × (next size s ≡ 0)) ⊎ ((s + 1 < size) × (next size s ≡ s + 1))
next_cases size s h = elim (ℕ_discrete (s + 1) size) [
  | yes p ↦ inl (p, grind arith)
  | no p ↦ inr (omega arith, mod-eq_of_lt (omega arith))
]

pub next-lt : (size s : ℕ) → s < size → next size s < size
next-lt size s h = grind (arith, next_cases)

-- A step towards a slot brings it one nearer.
pub dist-next :
    (size s i : ℕ) → s < size → i < size → s ≢ i → dist size (next size s) i + 1 ≡ dist size s i
dist-next size s i hs hi ne = ground (arith, next_cases size s hs)

pub dist-lt : (size s i : ℕ) → s < size → i < size → dist size s i < size
dist-lt size s i hs hi = ground arith

pub dist-zero : (size s i : ℕ) → s < size → i < size → dist size s i ≡ 0 → s ≡ i
dist-zero size s i hs hi e = ground arith

-- From the slot behind `h` the whole table lies before `h`.
pub dist-next_self :
    (size h i : ℕ)
    → h < size
    → i < size
    → i ≢ h
    → dist size (next size h) i < dist size (next size h) h
dist-next_self size h i hh hi ne = ground (arith, next_cases size h hh)

-- What lies on the way from the slot behind `s` lies on the way from `s`.
pub dist_before :
    (size s i x : ℕ)
    → s < size
    → i < size
    → x < size
    → s ≢ i
    → dist size (next size s) x < dist size (next size s) i
    → dist size s x < dist size s i
dist_before size s i x hs hi hx ne h = ground (arith, next_cases size s hs)
