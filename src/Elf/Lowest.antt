-- ===== src/Elf/Lowest.antt =====
-- `elf_get_base_address` of kernel/core/elf.c: the lowest offset of a section.
use kernel_of_truth.Base.{
  ℕ, zero, suc, ◌+◌, ◌*◌, ◌%◌, ◌^◌, ◌≤◌, ◌<◌, ◌≡◌, ◌⊎◌, refl, inl, inr, ltb, ◌==◌, ◌&&◌, not,
  Bool-cases, arith, ℕ_discrete, subst, sym, if◌then◌else◌, ◌≢◌, ne→==, eq→==, ltb-false, ap,
}
use kernel_of_truth.Types.{add64}
use kernel_of_truth.String.{Mem}
use kernel_of_truth.Elf.{
  null, section_at, sh_type, sh_offset, section_table, e_shnum, e_shentsize, int_to_word,
  lowest_loop, bad_base, elf_get_base_address,
}

module _ (m : Mem) (sections : ℕ) where
  abbrev pub offset : ℕ → ℕ
  offset i = sh_offset m (section_at sections i)

  -- ElfSection `i` is not SHT_NULL.
  abbrev pub InUse : ℕ → Type 0
  InUse i = sh_type m (section_at sections i) ≢ 0

  -- `low` is the lowest of `base` and the offsets of the sections in use from `i` up to `end`.
  abbrev LowestFrom : ℕ → ℕ → ℕ → ℕ → Type 0
  LowestFrom i end base low =
      (low ≤ base)
      × ((j : ℕ) → i ≤ j → j < end → InUse j → low ≤ offset j)
      × ((low ≡ base) ⊎ ((j : ℕ) × (i ≤ j) × (j < end) × InUse j × (low ≡ offset j)))

  widen :
      (i end base base' low : ℕ)
      → i < end
      → base' ≤ base
      → (InUse i → base' ≤ offset i)
      → (base' ≡ base) ⊎ (InUse i × (base' ≡ offset i))
      → LowestFrom (i + 1) end base' low
      → LowestFrom i end base low
  widen i end base base' low lt le bound from (least, all, source) = (
    omega arith,
    (λ j low' high used. elim (ℕ_discrete i j) [
      | yes p ↦ rw (← p) (let b = bound (subst InUse (sym p) used) in omega arith)
      | no p ↦ all j (omega arith) high used
    ]),
    elim source [
      | inl e ↦ elim from [
        | inl e' ↦ inl (omega arith)
        | inr (used, e') ↦ inr (i, omega arith, lt, used, omega arith)
      ]
      | inr (j, low', high, used, e) ↦ inr (j, omega arith, high, used, e)
    ],
  )

  lowest_loop-LowestFrom :
      (k i base : ℕ) → LowestFrom i (i + k) base (lowest_loop m sections k i base)
  unfolding lowest_loop
  lowest_loop-LowestFrom zero i base = (omega arith, (λ j le lt. absurd (omega arith)), inl refl)
  lowest_loop-LowestFrom (suc k) i base =
      let q : i + suc k ≡ i + 1 + k = omega arith in
      let taken = not (sh_type m (section_at sections i) == 0) && ltb (offset i) base in
      let base' = if taken then offset i else base in
      widen i (i + suc k) base base' _ (omega arith) (ground arith) (λ used. ground arith)
        (elim (Bool-cases taken) [
          | inl e ↦ rw e (inr ((λ z. absurd (ground arith)), refl))
          | inr e ↦ rw e (inl refl)
        ])
        (rw q (lowest_loop-LowestFrom k (i + 1) base'))

-- The least offset of the sections in use, if there is one, as an address; else NULL.
abbrev pub IsBase : Mem → ℕ → ℕ → Type 0
IsBase m start base =
    (((j : ℕ)
        → j < e_shnum m start
        → InUse m (section_table m start) j
        → bad_base ≤ offset m (section_table m start) j)
      × (base ≡ null))
    ⊎ ((j : ℕ) × (j < e_shnum m start)
        × InUse m (section_table m start) j
        × ((l : ℕ)
            → l < e_shnum m start
            → InUse m (section_table m start) l
            → offset m (section_table m start) j ≤ offset m (section_table m start) l)
        × (base ≡ add64 start (offset m (section_table m start) j)))

-- With the table of the section headers inside the file, `elf_get_base_address` returns the address
-- of the section in use that comes first in the file, or NULL when no section is in use at an offset
-- below the greatest number of 64 bits.
pub elf_get_base_address-IsBase :
    (m : Mem) (start size : ℕ)
    → add64 (section_table m start) (int_to_word ((e_shentsize m start * e_shnum m start) % 2 ^ 32))
      ≤ add64 start size
    → IsBase m start (elf_get_base_address m start size)
unfolding elf_get_base_address
elf_get_base_address-IsBase m start size inside =
    let base = lowest_loop m (section_table m start) (e_shnum m start) 0 bad_base in
    let table = ltb-false _ _ inside in
    let (least, all, source) =
      lowest_loop-LowestFrom m (section_table m start) (e_shnum m start) 0 bad_base in
    elim (ℕ_discrete base bad_base) [
      | yes e ↦
          let q = eq→== base bad_base e in
          rw (table, q)
            (inl (
              (λ j lt used. let a = all j (omega arith) (omega arith) used in omega (arith, a, e)),
              refl,
            ))
      | no n ↦ elim source [
        | inl e ↦ absurd (n e)
        | inr (j, low, high, used, e) ↦
            let q = ne→== base bad_base n in
            rw (table, q)
              (inr (
                j,
                omega arith,
                used,
                (λ l lt used'.
                    let a = all l (omega arith) (omega arith) used' in omega (arith, a, e)),
                ap (add64 start) e,
              ))
      ]
    ]
