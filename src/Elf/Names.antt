-- ===== src/Elf/Names.antt =====
-- How kernel/core/elf.c compares names: it looks at no more characters than the name it looks for has.
use kernel_of_truth.Base.{
  ℕ, ◌+◌, ◌<◌, ◌≡◌, ◌⊎◌, refl, inl, inr, true, false, Bool-cases, ok, arith, ap,
}
use kernel_of_truth.Types.{u64_mod}
use kernel_of_truth.String.{Mem, is_zero, strncmp}
use kernel_of_truth.String.Memory.{EndsAt, strlen-EndsAt}
use kernel_of_truth.String.Compare.{
  Bytes, SameText, strncmp_iff, strncmp_sym, is_zero-eq, is_zero-ne,
}
use kernel_of_truth.Elf.{or_stuck, length_of, starts_with}

-- The `n` characters of the name at `name` stand at `a`.
abbrev pub StartsWith : Mem → ℕ → ℕ → ℕ → Type 0
StartsWith m a name n = (i : ℕ) → i < n → m (name + i) ≡ m (a + i)

module _ (m : Mem) (bytes : Bytes m) (name n : ℕ) (ends : EndsAt m name n)
    (short : n < u64_mod) where
  pub length_of-EndsAt : length_of m name ≡ ok n
  unfolding length_of
  length_of-EndsAt = ap or_stuck (strlen-EndsAt m name n u64_mod ends short)

  same-StartsWith : (a : ℕ) → SameText m name a 0 (0 + n) → StartsWith m a name n
  same-StartsWith a h i lt = h i (omega arith) (omega arith) (λ j le l. ends.1 j (omega arith))

  StartsWith-same : (a : ℕ) → StartsWith m a name n → SameText m name a 0 (0 + n)
  StartsWith-same a h i le lt running = h i (omega arith)

  -- The comparison returns, with the answer whether the text at `a` starts with the name.
  pub starts_with_cases :
      (a : ℕ)
      → ((starts_with m name a name ≡ ok true) × StartsWith m a name n)
        ⊎ ((starts_with m name a name ≡ ok false) × ¬ StartsWith m a name n)
  unfolding starts_with
  starts_with_cases a =
      let iff = strncmp_iff m name a n bytes in
      elim (Bool-cases (is_zero (strncmp m name a n))) [
        | inl e ↦ inl (rw (length_of-EndsAt, e) refl, same-StartsWith a (iff.0 (is_zero-eq _ e)))
        | inr e ↦
            inr (rw (length_of-EndsAt, e) refl, λ h. is_zero-ne _ e (iff.1 (StartsWith-same a h)))
      ]

  -- So does the comparison with the arguments in the other order.
  pub starts_with_back :
      (a : ℕ)
      → ((starts_with m a name name ≡ ok true) × StartsWith m a name n)
        ⊎ ((starts_with m a name name ≡ ok false) × ¬ StartsWith m a name n)
  unfolding starts_with
  starts_with_back a =
      let iff = strncmp_iff m name a n bytes in
      elim (Bool-cases (is_zero (strncmp m a name n))) [
        | inl e ↦ inl (
          rw (length_of-EndsAt, e) refl,
          same-StartsWith a (iff.0 (strncmp_sym m a name n bytes (is_zero-eq _ e))),
        )
        | inr e ↦ inr (
          rw (length_of-EndsAt, e) refl,
          λ h. is_zero-ne _ e (strncmp_sym m name a n bytes (iff.1 (StartsWith-same a h))),
        )
      ]
