-- ===== src/Entropy.antt =====
-- kernel/core/entropy.c: the pool of random bytes. The lock is free at each call. `jitter` is what
-- `memory_jitter_calculate` returns.
pub mod Pool
use kernel_of_truth.Base.{
  ℕ, zero, suc, ◌+◌, ◌-◌, ◌/◌, ◌%◌, ◌==◌, Bool, if◌then◌else◌, ltb, Run, ok, fault, ◌>>=◌,
}

-- `Entropy_Pool_Size`
abbrev pub entropy_pool_size : ℕ
entropy_pool_size = 256

-- `Entropy_Pool`, and `Entropy_Pool_Index` plus 1, so that the index -1 is 0 here.
pub record Entropy : Type 0 where
  pub depth : ℕ
  pub pool : ℕ → ℕ

-- The pool at the start: the index is 0.
abbrev pub entropy_start : Entropy
entropy_start = record { depth = 1; pool = λ _. 0 }

abbrev pub set_byte : (ℕ → ℕ) → ℕ → ℕ → ℕ → ℕ
set_byte pool i byte x = if x == i then byte else pool x

-- `entropy_pool_seed`: the index grows before the store, so that it is the old depth.
unfoldable pub entropy_pool_seed : Entropy → ℕ → Run Entropy
entropy_pool_seed s byte =
    if ltb s.depth entropy_pool_size
    then ok (record { depth = s.depth + 1; pool = set_byte s.pool s.depth byte })
    else fault

-- The loop of `entropy_pool_consume` that seeds the bytes of a word, with `k` left.
unfoldable pub seed_jitter : ℕ → ℕ → Entropy → Run Entropy
seed_jitter zero word s = ok s
seed_jitter (suc k) word s = entropy_pool_seed s (word % 256) >>= seed_jitter k (word / 256)

-- The read of `entropy_pool_consume`.
unfoldable pub take_byte : Entropy → Run (ℕ × Entropy)
take_byte s =
    if ltb entropy_pool_size s.depth
    then fault
    else ok (s.pool (s.depth - 1), record s { depth = s.depth - 1 })

-- `entropy_pool_consume`
unfoldable pub entropy_pool_consume : ℕ → Entropy → Run (ℕ × Entropy)
entropy_pool_consume jitter s =
    if s.depth == 0 then seed_jitter 8 jitter s >>= take_byte else take_byte s
