-- ===== src/Bitmap/Index.antt =====
-- Which entry `bitmap_get_index` of kernel/core/bitmap.c reports.
use kernel_of_truth.Base.{
  ℕ, zero, suc, ◌+◌, ◌-◌, ◌*◌, ◌/◌, ◌%◌, ◌^◌, ◌≤◌, ◌<◌, ◌≡◌, ◌≢◌, refl, some, arith, ℕ_discrete,
  sym, ◌∙◌, subst, ne→==, eq→==,
}
use native.Mathlib.Nat.{zero-add, div-eq_of_lt-le}
use kernel_of_truth.Types
use kernel_of_truth.Types.{Status, add64}
use kernel_of_truth.Bitmap.{
  Bitmap, bitmap_index, all_ones, log2_loop, log2, find_word, claim, bitmap_get_index,
}

double : (r : ℕ) → 2 ^ suc r ≡ 2 * 2 ^ r
double r = omega arith

-- The loop of `log2` counts on to the place of the highest bit.
log2_loop-highest :
    (fuel item i : ℕ)
    → 0 < item
    → item < 2 ^ fuel
    → (r : ℕ) × (log2_loop fuel item i ≡ i + r) × (2 ^ r ≤ item) × (item < 2 * 2 ^ r)
unfolding log2_loop
log2_loop-highest zero item i some_bit fits = absurd (omega arith)
log2_loop-highest (suc fuel) item i some_bit fits = elim (ℕ_discrete (item / 2) 0) [
  | yes last ↦ (0, rw (eq→== _ _ last) (omega arith), omega arith, omega arith)
  | no more ↦
      let (r, e, low, high) =
        log2_loop-highest fuel (item / 2) (i + 1) (omega arith) (omega (arith, double fuel)) in
      (
        suc r,
        rw (ne→== _ _ more) (omega (arith, e)),
        omega (arith, double r),
        omega (arith, double r),
      )
]

-- The bit that `log2` finds is set.
log2_set : (item : ℕ) → 0 < item → item < 2 ^ 64 → (item / 2 ^ log2 item) % 2 ≡ 1
unfolding log2
log2_set item some_bit fits =
    let (r, e, low, high) = log2_loop-highest 64 item 0 some_bit fits in
    let place : log2_loop 64 item 0 ≡ r = e ∙ zero-add r in
    let one : item / 2 ^ r ≡ 1 =
      div-eq_of_lt-le (2 ^ r) (omega (arith, low)) (omega (arith, high)) in
    rw (place, one) refl

find_word-first :
    (words : ℕ → ℕ) (k i j : ℕ)
    → i ≤ j
    → j < i + k
    → ((l : ℕ) → i ≤ l → l < j → words l ≡ all_ones)
    → words j ≢ all_ones
    → find_word words k i ≡ some j
unfolding find_word
find_word-first words zero i j low high before here = absurd (omega arith)
find_word-first words (suc k) i j low high before here = elim (ℕ_discrete i j) [
  | yes p ↦ rw (ne→== _ _ (subst (λ x. words x ≢ all_ones) (sym p) here), p) refl
  | no p ↦ rw (eq→== _ _ (before i (omega arith) (omega arith))) (
      find_word-first words k (i + 1) j (omega arith) (omega arith)
        (λ l lo hi. before l (omega arith) hi) here)
]

-- `bitmap_get_index` reports an entry that is taken: where the first word from that of `last_free` on
-- that is not all ones is not 0 either, it returns Ok with 256 times the index of that word and the
-- place of a bit that is set in it.
pub bitmap_get_index_taken :
    (b : Bitmap) (i : ℕ)
    → bitmap_index b.last_free ≤ i
    → i < bitmap_index b.entry_count
    → ((l : ℕ) → bitmap_index b.last_free ≤ l → l < i → b.map l ≡ all_ones)
    → b.map i ≢ all_ones
    → 0 < b.map i
    → b.map i < 2 ^ 64
    → (entry_bit : ℕ) × ((bitmap_get_index b).0 ≡ Types.ok)
      × ((bitmap_get_index b).2 ≡ add64 ((i * 256) % 2 ^ 64) entry_bit)
      × ((b.map i / 2 ^ entry_bit) % 2 ≡ 1)
unfolding bitmap_get_index claim
bitmap_get_index_taken b i low high before here some_bit word =
    let first = bitmap_index b.last_free in
    let found =
      find_word-first b.map (bitmap_index b.entry_count - first) first i low (omega arith) before
        here in
    (log2 (b.map i), rw found refl, rw found refl, log2_set (b.map i) some_bit word)
