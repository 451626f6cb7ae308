-- ===== src/String.antt =====
-- kernel/core/string.c: the memory and string routines, over a memory of bytes.
-- The `user_` variants, which only switch the access of the processor to user pages on and off round
-- these, are not modelled.
pub mod Memory
pub mod Compare
pub mod Words
use kernel_of_truth.Base.{
  ℕ, zero, suc, ◌+◌, ◌-◌, ◌%◌, ◌==◌, ◌||◌, Bool, true, false, if◌then◌else◌, ltb, Option, none,
  some, ℤ, pos, negsuc, sub_ℕ,
}

-- A byte for each address. Pointer arithmetic that leaves the address space is undefined in C, so
-- addresses are plain numbers.
abbrev pub Mem : Type 0
Mem = ℕ → ℕ

-- A store of one byte.
unfoldable pub store : Mem → ℕ → ℕ → Mem
store m a v x = if x == a then v else m x

-- The loop of `memset`, with `k` rounds left.
memset_loop : ℕ → ℕ → ℕ → ℕ → Mem → Mem
memset_loop b v zero i m = m
memset_loop b v (suc k) i m = memset_loop b v k (i + 1) (store m (b + i) (v % 256))

pub memset : Mem → ℕ → ℕ → ℕ → Mem
unfolding memset_loop
memset m b v n = memset_loop b v n 0 m

-- The ascending loop of `memcpy` and `memmove`, with `k` rounds left.
copy_up : ℕ → ℕ → ℕ → ℕ → Mem → Mem
copy_up d s zero i m = m
copy_up d s (suc k) i m = copy_up d s k (i + 1) (store m (d + i) (m (s + i)))

-- The descending loop of `memmove`.
copy_down : ℕ → ℕ → ℕ → Mem → Mem
copy_down d s zero m = m
copy_down d s (suc i) m = copy_down d s i (store m (d + i) (m (s + i)))

pub memcpy : Mem → ℕ → ℕ → ℕ → Mem
unfolding copy_up
memcpy m d s n = copy_up d s n 0 m

pub memmove : Mem → ℕ → ℕ → ℕ → Mem
unfolding copy_up copy_down
memmove m d s n = if ltb d s then copy_up d s n 0 m else copy_down d s n m

-- `char` is signed on this target: the order of two characters is that of their values plus 128.
abbrev pub signed_lt : ℕ → ℕ → Bool
signed_lt a b = ltb ((a + 128) % 256) ((b + 128) % 256)

-- The results -1, 0 and 1 of `memcmp`.
pub data Sign : Type 0 where
  minus nought plus : Sign

memcmp_loop : Mem → ℕ → ℕ → ℕ → ℕ → Sign
memcmp_loop m a b zero i = nought
memcmp_loop m a b (suc k) i =
    let rest = memcmp_loop m a b k (i + 1) in
    if signed_lt (m (b + i)) (m (a + i))
    then minus
    else if signed_lt (m (a + i)) (m (b + i))
    then plus
    else rest

unfoldable pub memcmp : Mem → ℕ → ℕ → ℕ → Sign
unfolding memcmp_loop
memcmp m a b n = memcmp_loop m a b n 0

-- `s1[i] - s2[i]` in `int`: the shift by 128 cancels.
abbrev pub difference : ℕ → ℕ → ℤ
difference a b = sub_ℕ ((a + 128) % 256) ((b + 128) % 256)

abbrev pub is_zero : ℤ → Bool
is_zero (pos n) = n == 0
is_zero (negsuc n) = false

strncmp_loop : Mem → ℕ → ℕ → ℕ → ℕ → ℤ
strncmp_loop m a b zero i = pos 0
strncmp_loop m a b (suc k) i =
    let rest = strncmp_loop m a b k (i + 1) in
    if is_zero (difference (m (a + i)) (m (b + i)))
    then if (m (a + i) == 0) || (m (b + i) == 0) then pos 0 else rest
    else difference (m (a + i)) (m (b + i))

unfoldable pub strncmp : Mem → ℕ → ℕ → ℕ → ℤ
unfolding strncmp_loop
strncmp m a b n = strncmp_loop m a b n 0

-- The loop of `strlen` on fuel; `none` means that the fuel ran out.
strlen_loop : Mem → ℕ → ℕ → ℕ → Option ℕ
strlen_loop m a zero i = none
strlen_loop m a (suc f) i =
    let rest = strlen_loop m a f (i + 1) in if m (a + i) == 0 then some i else rest

unfoldable pub strlen : Mem → ℕ → ℕ → Option ℕ
unfolding strlen_loop
strlen m a fuel = strlen_loop m a fuel 0
