-- ===== src/String/Memory.antt =====
-- The memory routines of kernel/core/string.c against what they are to leave in memory.
use kernel_of_truth.Base.{
  ℕ, zero, suc, ◌+◌, ◌-◌, ◌%◌, ◌≤◌, ◌<◌, ◌≡◌, ◌⊎◌, inl, inr, ◌&&◌, Bool, if◌then◌else◌, ltb, leb,
  Bool-cases, arith, some, ltb→lt, ℕ_discrete,
}
use kernel_of_truth.String.{
  Mem, store, memset_loop, memset, copy_up, copy_down, memcpy, memmove, strlen_loop, strlen,
}

-- The address `x` is one of the `n` from `b` on.
abbrev pub within : ℕ → ℕ → ℕ → Bool
within b n x = leb b x && ltb x (b + n)

-- The bytes of `old` with the `n` from `d` on replaced by those that stood at `s`.
abbrev pub moved : Mem → ℕ → ℕ → ℕ → Mem
moved old d s n x = if within d n x then old (s + (x - d)) else old x

memset_loop-filled :
    (b v k i : ℕ) (m : Mem) (x : ℕ)
    → memset_loop b v k i m x ≡ (if within (b + i) k x then v % 256 else m x)
unfolding memset_loop store
memset_loop-filled b v zero i m x = ground arith
memset_loop-filled b v (suc k) i m x =
    ground (arith, memset_loop-filled b v k (i + 1) (store m (b + i) (v % 256)) x)

-- `memset` fills the block with the low byte of the value and leaves every other byte alone.
pub memset-filled :
    (m : Mem) (b v n x : ℕ) → memset m b v n x ≡ (if within b n x then v % 256 else m x)
unfolding memset
memset-filled m b v n x = ground (arith, memset_loop-filled b v n 0 m x)

copy_up-moved :
    (d s k i : ℕ) (m : Mem) (x : ℕ)
    → (d ≤ s) ⊎ (s + i + k ≤ d + i)
    → copy_up d s k i m x ≡ (if within (d + i) k x then m (s + (x - d)) else m x)
unfolding copy_up store
copy_up-moved d s zero i m x h = ground arith
copy_up-moved d s (suc k) i m x h =
    ground (arith, copy_up-moved d s k (i + 1) (store m (d + i) (m (s + i))) x)

copy_down-moved :
    (d s k : ℕ) (m : Mem) (x : ℕ)
    → s ≤ d
    → copy_down d s k m x ≡ (if within d k x then m (s + (x - d)) else m x)
unfolding copy_down store
copy_down-moved d s zero m x h = ground arith
copy_down-moved d s (suc k) m x h =
    ground (arith, copy_down-moved d s k (store m (d + k) (m (s + k))) x)

-- `memmove` copies the block as it stood before the call, however the two blocks overlap, and leaves
-- every other byte alone.
pub memmove-moved : (m : Mem) (d s n x : ℕ) → memmove m d s n x ≡ moved m d s n x
unfolding memmove
memmove-moved m d s n x = elim (Bool-cases (ltb d s)) [
  | inl e ↦ rw e (ground (arith, copy_up-moved d s n 0 m x, ltb→lt d s))
  | inr e ↦ rw e (ground (arith, copy_down-moved d s n m x))
]

-- `memcpy` does the same, unless the destination starts inside the source behind its first byte.
pub memcpy-moved :
    (m : Mem) (d s n x : ℕ) → (d ≤ s) ⊎ (s + n ≤ d) → memcpy m d s n x ≡ moved m d s n x
unfolding memcpy
memcpy-moved m d s n x h = ground (arith, copy_up-moved d s n 0 m x)

-- The block at `a` holds no NUL before the `n`th byte, and one there.
abbrev pub EndsAt : Mem → ℕ → ℕ → Type 0
EndsAt m a n = (m (a + n) ≡ 0) × ((i : ℕ) → i < n → ¬ (m (a + i) ≡ 0))

strlen_loop-EndsAt :
    (m : Mem) (a n f i : ℕ) → EndsAt m a n → i ≤ n → n < i + f → strlen_loop m a f i ≡ some n
unfolding strlen_loop
strlen_loop-EndsAt m a n zero i e le lt = absurd (omega arith)
strlen_loop-EndsAt m a n (suc f) i e le lt = elim (ℕ_discrete i n) [
  | yes p ↦ ground (arith, e.0)
  | no p ↦ ground (arith, e.1 i, strlen_loop-EndsAt m a n f (i + 1) e)
]

-- On a string of `n` characters `strlen` stops within any number of rounds above `n`, with `n`.
pub strlen-EndsAt : (m : Mem) (a n fuel : ℕ) → EndsAt m a n → n < fuel → strlen m a fuel ≡ some n
unfolding strlen
strlen-EndsAt m a n fuel e lt = strlen_loop-EndsAt m a n fuel 0 e (omega arith) (omega arith)
