-- ===== src/Types.antt =====
-- include/truth/types.h: the status codes, the comparison results and the machine word.
use kernel_of_truth.Base.{ℕ, ◌+◌, ◌-◌, ◌%◌, ◌^◌, ◌≡◌, refl, Bool, true, false, arith}

-- `enum status`.
pub data Status : Type 0 where
  ok no_memory invalid permissions present absent full empty go_sit_by_a_lake count : Status

abbrev pub is_ok : Status → Bool
is_ok ok = true
is_ok _ = false

pub is_ok-eq : (s : Status) → is_ok s ≡ true → s ≡ ok
is_ok-eq ok h = refl
is_ok-eq s h = absurd (ground arith)

-- `size_t`, `uint64_t` and the address arithmetic on `void *` wrap at this modulus.
abbrev pub u64_mod : ℕ
u64_mod = 2 ^ 64

abbrev pub add64 : ℕ → ℕ → ℕ
add64 a b = (a + b) % u64_mod

-- Operands are below the modulus, so this is the unsigned difference.
abbrev pub sub64 : ℕ → ℕ → ℕ
sub64 a b = (a + u64_mod - b) % u64_mod

-- `Page_Small` of include/truth/memory.h.
abbrev pub page_small : ℕ
page_small = 4096
