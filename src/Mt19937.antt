-- ===== src/Mt19937.antt =====
-- kernel/core/mt19937_64.c: the Mersenne twister behind the random numbers of the kernel.
-- Calls are made by one processor, so that the lock is free or has the caller itself for its owner.
pub mod Supply
use kernel_of_truth.Base.{
  ℕ, zero, suc, ◌+◌, ◌-◌, ◌*◌, ◌/◌, ◌%◌, ◌^◌, ◌==◌, Bool, true, false, if◌then◌else◌, leb, bit_and,
  bit_xor, Run, ok, stuck, ◌>>=◌, ◌>>◌, assert,
}
use kernel_of_truth.Types.{u64_mod, add64}

-- `N`, `M` and the constants of the recurrence
abbrev pub state_size : ℕ
state_size = 312

abbrev pub shift_size : ℕ
shift_size = 156

abbrev pub twist_mask : ℕ
twist_mask = 0xb5026f5aa96619e9

abbrev pub seed_factor : ℕ
seed_factor = 6364136223846793005

abbrev pub lower_mask : ℕ
lower_mask = 0x7fffffff

abbrev pub upper_mask : ℕ
upper_mask = u64_mod - 1 - lower_mask

-- `MT19937_64_Index`, `MT19937_64_State` and whether `MT19937_64_Lock` is taken
pub record Generator : Type 0 where
  pub index : ℕ
  pub state : ℕ → ℕ
  pub locked : Bool

-- The globals at start-up.
abbrev pub unseeded : Generator
unseeded = record { index = state_size + 1; state = λ _. 0; locked = false }

-- `lock_acquire_writer` on `MT19937_64_Lock`
pub acquire : Generator → Run Generator
acquire g = if g.locked then stuck else ok (record g { locked = true })

-- `lock_release_writer`
abbrev pub release : Generator → Generator
release g = record g { locked = false }

abbrev pub put : (ℕ → ℕ) → ℕ → ℕ → ℕ → ℕ
put f i v j = if j == i then v else f j

abbrev pub shift_right : ℕ → ℕ → ℕ
shift_right x n = x / 2 ^ n

abbrev pub shift_left : ℕ → ℕ → ℕ
shift_left x n = (x * 2 ^ n) % u64_mod

-- Word `i` of a seeded state, from the word before it.
pub seed_word : ℕ → ℕ → ℕ
seed_word i last = add64 (seed_factor * bit_xor last (shift_right last 62)) i

-- The loop of `mt19937_64_seed`, with `k` rounds left.
pub seed_loop : ℕ → ℕ → (ℕ → ℕ) → ℕ → ℕ
seed_loop zero i f = f
seed_loop (suc k) i f = seed_loop k (i + 1) (put f i (seed_word i (f (i - 1))))

-- `mt19937_64_seed`
unfoldable pub mt19937_64_seed : Generator → ℕ → Run Generator
unfolding acquire seed_loop
mt19937_64_seed g seed = do
  g1 ← acquire g
  ok (release (record g1 { index = 0; state = seed_loop (state_size - 2) 1 (put g1.state 0 seed) }))

-- The loop of `mt19937_64_twist`, with `k` rounds left.
pub twist_loop : ℕ → ℕ → (ℕ → ℕ) → ℕ → ℕ
twist_loop zero i f = f
twist_loop (suc k) i f =
    let x = add64 (bit_and (f i) upper_mask) (bit_and (f ((i + 1) % state_size)) lower_mask) in
    let half = shift_right x 1 in
    let mixed = if bit_and x 1 == 1 then bit_xor half twist_mask else half in
    twist_loop k (i + 1) (put f i (bit_xor (f ((i + shift_size) % state_size)) mixed))

-- `mt19937_64_twist`
pub mt19937_64_twist : Generator → Run Generator
unfolding acquire twist_loop
mt19937_64_twist g = do
  g1 ← acquire g
  ok (release (record g1 { index = 0; state = twist_loop (state_size - 1) 0 g1.state }))

-- The tempering of a word of the state.
pub temper : ℕ → ℕ
temper y =
    let y1 = bit_xor y (bit_and (shift_right y 29) 0x5555555555555555) in
    let y2 = bit_xor y1 (bit_and (shift_left y1 17) 0x71d67fffeda60000) in
    let y3 = bit_xor y2 (bit_and (shift_left y2 37) 0xfff7eee000000000) in
    bit_xor y3 (shift_right y3 1)

-- `mt19937_64_get_random_number`
unfoldable pub mt19937_64_get_random_number : Generator → Run (ℕ × Generator)
unfolding acquire mt19937_64_twist temper
mt19937_64_get_random_number g = do
  g1 ← acquire g
  assert (leb g1.index state_size)
  g2 ← if g1.index == state_size then mt19937_64_twist g1 else ok g1
  ok (temper (g2.state g2.index), release (record g2 { index = g2.index + 1 }))
