-- ===== src/String/Compare.antt =====
-- `memcmp` and `strncmp` of kernel/core/string.c against the first difference of the two blocks.
use kernel_of_truth.Base.{
  ℕ, zero, suc, ◌+◌, ◌≤◌, ◌<◌, ◌≡◌, ◌↔◌, refl, inl, inr, true, Bool-cases, arith, ℕ_discrete, ℤ,
  pos, negsuc, false, ap, subst, sym,
}
use kernel_of_truth.String.{
  Mem, signed_lt, Sign, minus, nought, plus, memcmp_loop, memcmp, strncmp_loop, strncmp, is_zero,
}

-- Every cell of the memory holds a byte.
abbrev pub Bytes : Mem → Type 0
Bytes m = (x : ℕ) → m x < 256

-- The blocks agree before index `i`.
abbrev pub AgreeTo : Mem → ℕ → ℕ → ℕ → ℕ → Type 0
AgreeTo m a b start i = (j : ℕ) → start ≤ j → j < i → m (a + j) ≡ m (b + j)

-- What each result of `memcmp` says of the indices from `start` up to `end`.
abbrev pub Compares : Mem → ℕ → ℕ → ℕ → ℕ → Sign → Type 0
Compares m a b start end nought = AgreeTo m a b start end
Compares m a b start end minus =
    (i : ℕ) × (start ≤ i)
    × (i < end)
    × AgreeTo m a b start i
    × (signed_lt (m (b + i)) (m (a + i)) ≡ true)
Compares m a b start end plus =
    (i : ℕ) × (start ≤ i)
    × (i < end)
    × AgreeTo m a b start i
    × (signed_lt (m (a + i)) (m (b + i)) ≡ true)

module _ (m : Mem) (a b : ℕ) where
  agree_cons :
      (start i : ℕ)
      → m (a + start) ≡ m (b + start)
      → AgreeTo m a b (start + 1) i
      → AgreeTo m a b start i
  agree_cons start i e h j le lt = elim (ℕ_discrete start j) [
    | yes p ↦ rw (← p) e
    | no p ↦ h j (omega arith) lt
  ]

  Compares-cons :
      (start end : ℕ) (r : Sign)
      → m (a + start) ≡ m (b + start)
      → Compares m a b (start + 1) end r
      → Compares m a b start end r
  Compares-cons start end nought e h = agree_cons start end e h
  Compares-cons start end minus e (i, le, lt, eqs, diff) =
      (i, omega arith, lt, agree_cons start i e eqs, diff)
  Compares-cons start end plus e (i, le, lt, eqs, diff) =
      (i, omega arith, lt, agree_cons start i e eqs, diff)

  memcmp_loop-Compares : (k i : ℕ) → Bytes m → Compares m a b i (i + k) (memcmp_loop m a b k i)
  unfolding memcmp_loop
  memcmp_loop-Compares zero i bytes = λ j le lt. absurd (omega arith)
  memcmp_loop-Compares (suc k) i bytes = elim (Bool-cases (signed_lt (m (b + i)) (m (a + i)))) [
    | inl e ↦ rw e (i, omega arith, omega arith, (λ j le lt. absurd (omega arith)), e)
    | inr e ↦ rw e (elim (Bool-cases (signed_lt (m (a + i)) (m (b + i)))) [
      | inl e' ↦ rw e' (i, omega arith, omega arith, (λ j le lt. absurd (omega arith)), e')
      | inr e' ↦ rw e' (
          Compares-cons i (i + suc k) _ (ground (arith, bytes (a + i), bytes (b + i))) (
            let q : i + suc k ≡ i + 1 + k = omega arith in
            rw q (memcmp_loop-Compares k (i + 1) bytes)))
    ])
  ]

-- `memcmp` returns 0 exactly for equal blocks. Otherwise it orders them by the first bytes that
-- differ, read as signed characters, and it is -1 where the first block is the greater there.
pub memcmp-Compares : (m : Mem) (a b n : ℕ) → Bytes m → Compares m a b 0 n (memcmp m a b n)
unfolding memcmp
memcmp-Compares m a b n bytes =
    let q : n ≡ 0 + n = omega arith in
    subst (λ e. Compares m a b 0 e (memcmp_loop m a b n 0)) (sym q)
      (memcmp_loop-Compares m a b n 0 bytes)

-- No character of the string at `a` before index `i` ends it.
abbrev pub Running : Mem → ℕ → ℕ → ℕ → Type 0
Running m a start i = (j : ℕ) → start ≤ j → j < i → ¬ (m (a + j) ≡ 0)

-- The strings agree at every index from `start` to `end` that a reader of the first comes to.
abbrev pub SameText : Mem → ℕ → ℕ → ℕ → ℕ → Type 0
SameText m a b start end =
    (i : ℕ) → start ≤ i → i < end → Running m a start i → m (a + i) ≡ m (b + i)

module _ (m : Mem) (a b : ℕ) where
  module _ (bytes : Bytes m) where
    strncmp_loop-same : (k i : ℕ) → strncmp_loop m a b k i ≡ pos 0 → SameText m a b i (i + k)
    unfolding strncmp_loop
    strncmp_loop-same zero i h j le lt r = absurd (omega arith)
    strncmp_loop-same (suc k) i h j le lt r = elim (ℕ_discrete i j) [
      | yes p ↦ rw (← p) (ground (arith, bytes (a + i), bytes (b + i)))
      | no p ↦
          strncmp_loop-same k (i + 1) (ground (arith, r i, bytes (a + i), bytes (b + i))) j
            (omega arith) (omega arith) (λ x l u. r x (omega arith) u)
    ]

    same-strncmp_loop : (k i : ℕ) → SameText m a b i (i + k) → strncmp_loop m a b k i ≡ pos 0
    unfolding strncmp_loop
    same-strncmp_loop zero i h = refl
    same-strncmp_loop (suc k) i h =
        let here : m (a + i) ≡ m (b + i) =
          h i (omega arith) (omega arith) (λ j le lt. absurd (omega arith)) in
        elim (ℕ_discrete (m (a + i)) 0) [
          | yes p ↦ ground arith
          | no p ↦
              let rest : strncmp_loop m a b k (i + 1) ≡ pos 0 =
                same-strncmp_loop k (i + 1) λ j le lt r. h j (omega arith) (omega arith) λ x l u.
                  elim (ℕ_discrete i x) [ yes q ↦ rw (← q) p | no q ↦ r x (omega arith) u ] in
              ground arith
        ]

-- `strncmp` returns 0 exactly when the two strings agree at each of the first `n` indices that come
-- before or at the end of the first string.
pub strncmp_iff :
    (m : Mem) (a b n : ℕ) → Bytes m → (strncmp m a b n ≡ pos 0) ↔ SameText m a b 0 (0 + n)
unfolding strncmp
strncmp_iff m a b n bytes = (strncmp_loop-same m a b bytes n 0, same-strncmp_loop m a b bytes n 0)

strncmp_loop_sym :
    (m : Mem) (a b k i : ℕ)
    → Bytes m
    → strncmp_loop m a b k i ≡ pos 0
    → strncmp_loop m b a k i ≡ pos 0
unfolding strncmp_loop
strncmp_loop_sym m a b zero i bytes h = refl
strncmp_loop_sym m a b (suc k) i bytes h =
    ground (arith, bytes (a + i), bytes (b + i), strncmp_loop_sym m a b k (i + 1) bytes)

pub strncmp_sym :
    (m : Mem) (a b n : ℕ) → Bytes m → strncmp m a b n ≡ pos 0 → strncmp m b a n ≡ pos 0
unfolding strncmp
strncmp_sym m a b n bytes = strncmp_loop_sym m a b n 0 bytes

-- The test of a result of `strncmp` for 0.
pub is_zero-eq : (z : ℤ) → is_zero z ≡ true → z ≡ pos 0
is_zero-eq (pos n) h = ap pos (ground arith)
is_zero-eq (negsuc n) h = absurd (ground arith)

pub is_zero-ne : (z : ℤ) → is_zero z ≡ false → ¬ (z ≡ pos 0)
is_zero-ne z h e = absurd (ground (arith, rw e at h))
