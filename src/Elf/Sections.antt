-- ===== src/Elf/Sections.antt =====
-- `elf_get_section` of kernel/core/elf.c: which section it finds.
use kernel_of_truth.Base.{
  ℕ, zero, suc, ◌+◌, ◌≤◌, ◌<◌, ◌≡◌, ◌⊎◌, refl, inl, inr, false, leb, Bool-cases, Run, ok, arith,
  ℕ_discrete, subst, sym, leb-false,
}
use kernel_of_truth.Types.{add64, u64_mod}
use kernel_of_truth.String.{Mem}
use kernel_of_truth.String.Memory.{EndsAt}
use kernel_of_truth.String.Compare.{Bytes}
use kernel_of_truth.Elf.{
  Literals, section_at, sh_name, section_table, e_shnum, ElfSection, no_section, section_of,
  section_names, section_loop, table_out_of_bounds, elf_get_section,
}
use kernel_of_truth.Elf.Names.{StartsWith, starts_with_cases}

module _ (m : Mem) (start size name n : ℕ) where
  -- The name of section `i`, which lies inside the file, starts with the name looked for.
  abbrev pub Named : ℕ → Type 0
  Named i =
      (add64 (section_names m start) (sh_name m (section_at (section_table m start) i))
        < add64 start size)
      × StartsWith m
          (add64 (section_names m start) (sh_name m (section_at (section_table m start) i))) name n

  -- A search of the sections from `i` up to `end`: either none has the name, or the first that has
  -- it is the result, NULL if it starts past the end of the file.
  abbrev pub FindsFirst : ℕ → ℕ → Run ElfSection → Type 0
  FindsFirst i end result =
      (((j : ℕ) → i ≤ j → j < end → ¬ Named j) × (result ≡ ok no_section))
      ⊎ ((j : ℕ) × (i ≤ j)
          × (j < end)
          × Named j
          × ((l : ℕ) → i ≤ l → l < j → ¬ Named l)
          × (result ≡ ok (section_of m start size (section_at (section_table m start) j))))

  -- A section that has not the name is passed over.
  skip :
      (i end : ℕ) (result : Run ElfSection)
      → ¬ Named i
      → FindsFirst (i + 1) end result
      → FindsFirst i end result
  skip i end result other (inl (absent, e)) = inl (
    (λ j le lt named. elim (ℕ_discrete i j) [
      | yes p ↦ other (subst Named (sym p) named)
      | no p ↦ absent j (omega arith) lt named
    ]),
    e,
  )
  skip i end result other (inr (j, le, lt, named, first, e)) = inr (
    j,
    omega arith,
    lt,
    named,
    (λ l low high named'. elim (ℕ_discrete i l) [
      | yes p ↦ other (subst Named (sym p) named')
      | no p ↦ first l (omega arith) high named'
    ]),
    e,
  )

  module _ (bytes : Bytes m) (ends : EndsAt m name n) (short : n < u64_mod) where
    section_loop-FindsFirst :
        (k i : ℕ)
        → FindsFirst i (i + k) (section_loop m start size name (section_names m start) k i)
    unfolding section_loop
    section_loop-FindsFirst zero i = inl ((λ j le lt. absurd (omega arith)), refl)
    section_loop-FindsFirst (suc k) i =
        let here =
          add64 (section_names m start) (sh_name m (section_at (section_table m start) i)) in
        let q : i + suc k ≡ i + 1 + k = omega arith in
        let rest : FindsFirst (i + 1) (i + suc k)
            (section_loop m start size name (section_names m start) k (i + 1)) =
          subst
            (λ e.
              FindsFirst (i + 1) e
                (section_loop m start size name (section_names m start) k (i + 1)))
            (sym q) (section_loop-FindsFirst k (i + 1)) in
        elim (Bool-cases (leb (add64 start size) here)) [
          | inl past ↦ rw past (skip i _ _ (λ named. absurd (ground (arith, named.0, past))) rest)
          | inr inside ↦ elim (starts_with_cases m bytes name n ends short here) [
            | inl (e, same) ↦
                rw (inside, e)
                  (inr (
                    i,
                    omega arith,
                    omega arith,
                    (ground arith, same),
                    (λ l low high. absurd (omega arith)),
                    refl,
                  ))
            | inr (e, other) ↦ rw (inside, e) (skip i _ _ (λ named. other named.1) rest)
          ]
        ]

-- With the table of the section headers and the start of their names inside the file,
-- `elf_get_section` returns: it finds the first section whose name starts with the name asked for
-- (the whole name need not be equal), or NULL when there is none or the section starts past the end
-- of the file.
pub elf_get_section-FindsFirst :
    (m : Mem) (start size name n : ℕ)
    → Bytes m
    → EndsAt m name n
    → n < u64_mod
    → table_out_of_bounds m start size ≡ false
    → section_names m start < add64 start size
    → FindsFirst m start size name n 0 (0 + e_shnum m start) (elf_get_section m start size name)
unfolding elf_get_section
elf_get_section-FindsFirst m start size name n bytes ends short table names =
    let inside = leb-false (add64 start size) (section_names m start) names in
    rw (table, inside)
      (section_loop-FindsFirst m start size name n bytes ends short (e_shnum m start) 0)

-- Where the string literals lie: each ends after its characters.
pub record Placed (m : Mem) (lits : Literals) : Type 0 where
  pub dynamic : EndsAt m lits.dynamic 8
  pub dynstr : EndsAt m lits.dynstr 7
  pub rela_dyn : EndsAt m lits.rela_dyn 9
  pub dynsym : EndsAt m lits.dynsym 7
  pub strtab : EndsAt m lits.strtab 7
  pub symtab : EndsAt m lits.symtab 7

-- The search for a section by a literal returns.
pub elf_get_section_returns :
    (m : Mem) (start size name n : ℕ)
    → Bytes m
    → EndsAt m name n
    → n < u64_mod
    → (s : ElfSection) × (elf_get_section m start size name ≡ ok s)
unfolding elf_get_section
elf_get_section_returns m start size name n bytes ends short =
    elim (Bool-cases (table_out_of_bounds m start size)) [
      | inl e ↦ (no_section, rw e refl)
      | inr e ↦ elim (Bool-cases (leb (add64 start size) (section_names m start))) [
        | inl e' ↦ (no_section, rw (e, e') refl)
        | inr e' ↦
            rw (e, e')
              (elim (section_loop-FindsFirst m start size name n bytes ends short (e_shnum m start)
                0) [
                  | inl (absent, found) ↦ (no_section, found)
                  | inr (j, low, high, named, first, found) ↦
                      (section_of m start size (section_at (section_table m start) j), found)
                ])
      ]
    ]
