-- ===== src/Random.antt =====
-- kernel/core/random.c: random bytes and addresses. The numbers come from the function that
-- `random_init` has chosen: `draws i` is what its `i`th call returns, a 64-bit word.
pub mod Bytes
use kernel_of_truth.Base.{
  ℕ, zero, suc, ◌+◌, ◌-◌, ◌*◌, ◌/◌, ◌%◌, ◌^◌, ◌==◌, Bool, true, false, if◌then◌else◌,
}
use kernel_of_truth.String.{Mem}
use kernel_of_truth.String.Words.{store_bytes, store64}

-- The loop of `random_bytes` over the words, with `k` rounds left.
pub word_loop : (ℕ → ℕ) → ℕ → ℕ → ℕ → Mem → Mem
unfolding store64
word_loop draws buf zero i m = m
word_loop draws buf (suc k) i m = word_loop draws buf k (i + 1) (store64 m (buf + 8 * i) (draws i))

-- Byte `i` of what is left over: the word is shifted by `i` bits.
abbrev pub left_over_byte : ℕ → ℕ → ℕ
left_over_byte v i = (v / 2 ^ i) % 256

-- `random_bytes`
pub random_bytes : (ℕ → ℕ) → Mem → ℕ → ℕ → Mem
unfolding word_loop store_bytes
random_bytes draws m buf size =
    let remainder = size % 8 in
    let filled = word_loop draws buf (size / 8) 0 m in
    let tail =
      store_bytes (left_over_byte (draws (size / 8))) (buf + size - remainder) remainder 0 filled in
    if remainder == 0 then filled else tail
