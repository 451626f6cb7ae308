-- ===== src/Elf/Verified.antt =====
-- What `elf_verify` of kernel/core/elf.c lets through.
use kernel_of_truth.Base.{
  ℕ, zero, suc, ◌+◌, ◌≤◌, ◌<◌, ◌≡◌, ◌↔◌, ◌⊎◌, refl, inl, inr, true, ℕ_discrete, Bool-cases, arith,
}
use kernel_of_truth.String.{Mem, Sign, minus, nought, plus, memcmp}
use kernel_of_truth.String.Compare.{Bytes, Compares, memcmp-Compares}
use kernel_of_truth.Elf.{
  Literals, e_class, e_machine, e_version, e_shnum, e_shstrndx, header_size, is_nought,
  elf_verify_x86_64_compatible, elf_verify,
}

-- The bytes of ELFMAG, "\x7f" and "ELF", at an address.
abbrev pub HasMagic : Mem → ℕ → Type 0
HasMagic m a = (m a ≡ 0x7f) × (m (a + 1) ≡ 0x45) × (m (a + 2) ≡ 0x4c) × (m (a + 3) ≡ 0x46)

-- The header of a file for this machine: longer than a header, the magic number, version 1, machine
-- x86-64 (62), and 64-bit class (2).
abbrev pub ForX64 : Mem → ℕ → ℕ → Type 0
ForX64 m start size =
    (header_size < size)
    × HasMagic m start
    × (e_version m start ≡ 1)
    × (e_machine m start ≡ 62)
    × (e_class m start ≡ 2)

-- A file whose index of the section names is the index of a section.
abbrev pub Loadable : Mem → ℕ → ℕ → Type 0
Loadable m start size = ForX64 m start size × (e_shstrndx m start < e_shnum m start)

-- A file whose index of the section names is one past the last section.
abbrev pub PastLast : Mem → ℕ → ℕ → Type 0
PastLast m start size = ForX64 m start size × (e_shstrndx m start ≡ e_shnum m start)

module _ (m : Mem) (a b : ℕ) (magic : HasMagic m b) where
  same_magic : HasMagic m a → (i : ℕ) → i < 4 → m (a + i) ≡ m (b + i)
  same_magic h zero lt =
      let p : a + 0 ≡ a = omega arith in
      let q : b + 0 ≡ b = omega arith in rw (p, q) (omega (arith, h, magic))
  same_magic h (suc zero) lt = omega (arith, h, magic)
  same_magic h (suc (suc zero)) lt = omega (arith, h, magic)
  same_magic h (suc (suc (suc zero))) lt = omega (arith, h, magic)
  same_magic h (suc (suc (suc (suc i)))) lt = absurd (omega arith)

  agree-HasMagic : ((i : ℕ) → 0 ≤ i → i < 4 → m (a + i) ≡ m (b + i)) → HasMagic m a
  agree-HasMagic h =
      let p : a + 0 ≡ a = omega arith in
      let q : b + 0 ≡ b = omega arith in
      let h0 = rw (p, q) at (h 0 (omega arith) (omega arith)) in
      (
        omega (arith, h0, magic),
        omega (arith, h 1 (omega arith) (omega arith), magic),
        omega (arith, h 2 (omega arith) (omega arith), magic),
        omega (arith, h 3 (omega arith) (omega arith), magic),
      )

  -- What `memcmp` says of 4 bytes and the magic number.
  nought-HasMagic : (r : Sign) → Compares m a b 0 4 r → (is_nought r ≡ true) ↔ HasMagic m a
  nought-HasMagic nought agree = ((λ e. agree-HasMagic agree), λ h. refl)
  nought-HasMagic minus (i, le, lt, agree, differ) =
      ((λ e. absurd (ground arith)), λ h. let s = same_magic h i lt in ground arith)
  nought-HasMagic plus (i, le, lt, agree, differ) =
      ((λ e. absurd (ground arith)), λ h. let s = same_magic h i lt in ground arith)

-- What `elf_verify` tests of the index, apart.
verified_iff :
    (lits : Literals) (m : Mem) (start size : ℕ)
    → Bytes m
    → HasMagic m lits.elfmag
    → (elf_verify lits m start size ≡ true)
      ↔ (ForX64 m start size × (e_shstrndx m start ≤ e_shnum m start))
unfolding elf_verify elf_verify_x86_64_compatible
verified_iff lits m start size bytes magic =
    let h =
      nought-HasMagic m start lits.elfmag magic (memcmp m start lits.elfmag 4)
        (memcmp-Compares m start lits.elfmag 4 bytes) in
    elim (Bool-cases (is_nought (memcmp m start lits.elfmag 4))) [
      | inl same ↦ let g = h.0 same in rw same (ground (arith, g))
      | inr other ↦ rw other (ground (arith, h, other))
    ]

-- `elf_verify` accepts a file, where ELFMAG lies in memory, exactly when its header is one for this
-- machine and the index of the section names is that of a section, or else is one past the last: the
-- second kind of file has no section of names, and should have been refused.
pub elf_verify_iff :
    (lits : Literals) (m : Mem) (start size : ℕ)
    → Bytes m
    → HasMagic m lits.elfmag
    → (elf_verify lits m start size ≡ true) ↔ (Loadable m start size ⊎ PastLast m start size)
elf_verify_iff lits m start size bytes magic =
    let (there, back) = verified_iff lits m start size bytes magic in
    (
      (λ accepted.
          let (x64, le) = there accepted in
          elim (ℕ_discrete (e_shstrndx m start) (e_shnum m start)) [
            | yes last ↦ inr (x64, last)
            | no other ↦ inl (x64, omega arith)
          ]),
      λ kind. elim kind [
        | inl (x64, lt) ↦ back (x64, omega arith)
        | inr (x64, last) ↦ back (x64, omega arith)
      ],
    )
