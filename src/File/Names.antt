-- ===== src/File/Names.antt =====
-- Names and paths of kernel/core/file.c.
use kernel_of_truth.Base.{
  ℕ, zero, suc, ◌+◌, ◌-◌, ◌^◌, ◌==◌, ◌≤◌, ◌<◌, ◌≡◌, ◌≢◌, ◌⊎◌, refl, inl, inr, Run, ok, arith,
  ℕ_discrete, Bool-cases, sym, ◌∙◌, ap, ne→==, eq→==, ==→eq,
}
use kernel_of_truth.Types
use kernel_of_truth.Types.{Status, sub64, u64_mod}
use kernel_of_truth.String.{Mem, is_zero, strncmp}
use kernel_of_truth.String.Memory.{EndsAt}
use kernel_of_truth.String.Compare.{Bytes, Running, SameText, strncmp_iff, is_zero-eq}
use kernel_of_truth.File.{
  Files, name_loop, file_name_is_valid, child_loop, file_find_child_named, path_loop,
  file_from_path,
}

module _ (m : Mem) (path n : ℕ) (ends : EndsAt m path n) where
  -- None of the characters from `i` on is a slash, and the run says Ok; or one is, and it says
  -- Error_Invalid.
  abbrev NameRun : ℕ → Run Status → Type 0
  NameRun i run =
      ((run ≡ ok Types.ok) × ((j : ℕ) → i ≤ j → j < n → m (path + j) ≢ b'/'))
      ⊎ ((run ≡ ok Types.invalid) × (j : ℕ) × (i ≤ j) × (j < n) × (m (path + j) ≡ b'/'))

  name_loop-NameRun : (fuel i : ℕ) → i ≤ n → n < i + fuel → NameRun i (name_loop m path fuel i)
  unfolding name_loop
  name_loop-NameRun zero i le lt = absurd (omega arith)
  name_loop-NameRun (suc fuel) i le lt = elim (ℕ_discrete i n) [
    | yes p ↦
        let e = eq→== _ _ (ap (λ j. m (path + j)) p ∙ ends.0) in
        inl (rw e refl, λ j low high. absurd (omega arith))
    | no p ↦
        let e = ne→== _ _ (ends.1 i (omega arith)) in
        elim (Bool-cases (m (path + i) == b'/')) [
          | inl slash ↦ inr (rw (e, slash) refl, i, omega arith, omega arith, ==→eq _ _ slash)
          | inr plain ↦
              rw (e, plain)
                (elim (name_loop-NameRun fuel (i + 1) (omega arith) (omega arith)) [
                  | inl (run, others) ↦ inl (
                    run,
                    λ j low high. elim (ℕ_discrete i j) [
                      | yes q ↦ rw (← q) (λ slash. absurd (ground arith))
                      | no q ↦ others j (omega arith) high
                    ],
                  )
                  | inr (run, j, low, high, slash) ↦ inr (run, j, omega arith, high, slash)
                ])
        ]
  ]

  -- A name that ends within the address space is valid exactly when it is not empty and has no slash.
  pub file_name_is_valid_iff :
      n < u64_mod
      → ((file_name_is_valid m path ≡ ok Types.ok)
          × (0 < n)
          × ((j : ℕ) → j < n → m (path + j) ≢ b'/'))
        ⊎ ((file_name_is_valid m path ≡ ok Types.invalid)
            × ((n ≡ 0) ⊎ ((j : ℕ) × (j < n) × (m (path + j) ≡ b'/'))))
  unfolding file_name_is_valid
  file_name_is_valid_iff short =
      let start : path + 0 ≡ path = omega arith in
      elim (ℕ_discrete n 0) [
        | yes p ↦
            let e : m path ≡ 0 = ap m (sym start) ∙ ap (λ j. m (path + j)) (sym p) ∙ ends.0 in
            inr (rw (eq→== _ _ e) refl, inl p)
        | no p ↦
            let e : m path ≢ 0 = λ q. ends.1 0 (omega arith) (ap m start ∙ q) in
            rw (ne→== _ _ e) (elim (name_loop-NameRun u64_mod 0 (omega arith) (omega arith)) [
              | inl (run, plain) ↦ inl (run, omega arith, λ j lt. plain j (omega arith) lt)
              | inr (run, j, low, high, slash) ↦ inr (run, inr (j, high, slash))
            ])
      ]

-- The name has no slash before it ends.
abbrev pub Unslashed : Mem → ℕ → Type 0
Unslashed m name = (j : ℕ) → Running m name 0 j → m (name + j) ≢ b'/'

-- The first slash of a path stands at index `p`, behind its first character.
abbrev pub FirstSlash : Mem → ℕ → ℕ → Type 0
FirstSlash m path p =
    (0 < p) × (m (path + p) ≡ b'/') × ((j : ℕ) → j < p → (m (path + j) ≢ 0) × (m (path + j) ≢ b'/'))

module _ (m : Mem) (bytes : Bytes m) (path p : ℕ) (slashed : FirstSlash m path p)
    (short : p < 2 ^ 63) (root : ℕ) (fs : Files)
    (plain : (i : ℕ)
      → i < (fs root).child_count
      → Unslashed m (fs ((fs root).children i)).name) where
  -- No name without a slash agrees with the path beyond its first slash.
  unlike : (name : ℕ) → Unslashed m name → ¬ SameText m path name 0 (0 + (2 ^ 64 - p))
  unlike name unslashed same =
      let (inner, slash, before) = slashed in
      let agree : (j : ℕ) → j ≤ p → m (path + j) ≡ m (name + j) =
        λ j le. same j (omega arith) (omega arith) (λ l lo hi. (before l (omega arith)).0) in
      unslashed p (λ j lo hi e. (before j hi).0 (agree j (omega arith) ∙ e))
        (sym (agree p (omega arith)) ∙ slash)

  child_loop-none :
      (k i : ℕ) → i + k ≡ (fs root).child_count → child_loop m fs root path (2 ^ 64 - p) k i ≡ 0
  unfolding child_loop
  child_loop-none zero i e = refl
  child_loop-none (suc k) i e =
      let name = (fs ((fs root).children i)).name in
      let differs = unlike name (plain i (omega arith)) in
      elim (Bool-cases (is_zero (strncmp m path name (2 ^ 64 - p)))) [
        | inl z ↦ absurd (differs ((strncmp_iff m path name (2 ^ 64 - p) bytes).0 (is_zero-eq _ z)))
        | inr z ↦ rw z (child_loop-none k (i + 1) (omega arith))
      ]

  path_loop-none :
      (fuel i : ℕ)
      → i ≤ p
      → p < i + fuel
      → root ≢ 0
      → path ≢ 0
      → path_loop m path fuel i path root fs ≡ ok (0, fs)
  unfolding path_loop file_find_child_named
  path_loop-none zero i le lt r q = absurd (omega arith)
  path_loop-none (suc fuel) i le lt r q =
      let (inner, slash, before) = slashed in
      elim (ℕ_discrete i p) [
        | no other ↦
            let (some_char, no_slash) = before i (omega arith) in
            rw (ne→== _ _ some_char, ne→== _ _ no_slash)
              (path_loop-none fuel (i + 1) (omega arith) (omega arith) r q)
        | yes here ↦
            let there : m (path + i) ≡ b'/' = ap (λ j. m (path + j)) here ∙ slash in
            let none_found = child_loop-none (fs root).child_count 0 (omega arith) in
            let bound : sub64 path (path + i) ≡ 2 ^ 64 - p = omega arith in
            rw (there, bound, ne→== _ _ r, ne→== _ _ q, none_found) refl
      ]

  -- Below `Root` no file is found by its path: with names of children that have no slash, a path that
  -- has a slash behind its first character leads to NULL, whatever its first component.
  pub file_from_path_below : root ≢ 0 → path ≢ 0 → file_from_path m root path fs ≡ ok (0, fs)
  unfolding file_from_path
  file_from_path_below r q =
      rw (ne→== _ _ q) (path_loop-none u64_mod 0 (omega arith) (omega arith) r q)
