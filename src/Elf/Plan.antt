-- ===== src/Elf/Plan.antt =====
-- The loop of `elf_relocate` of kernel/core/elf.c, for relocations that make a plan of stores.
use kernel_of_truth.Base.{
  ℕ, zero, suc, ◌+◌, ◌≤◌, ◌<◌, ◌≡◌, ◌≢◌, ◌⊎◌, refl, some, arith, ℕ_discrete, sym, ◌∙◌, ap, subst,
  ◌^◌, ◌/◌, Run, ok, ne→==,
}
use kernel_of_truth.Types.{Status, add64}
use kernel_of_truth.String.{Mem}
use kernel_of_truth.String.Words.{read64, store64, store64-outside, read64-same, read64-store64}
use kernel_of_truth.Elf.{Literals, null, ElfSection, elf_get_section, elf_get_base_address}
use kernel_of_truth.Elf.Dynamic.{Store, Tables, relocation, relocate_loop, elf_relocate}

-- The address `x` is outside the word at `a`.
abbrev pub Outside : ℕ → ℕ → Type 0
Outside a x = (x < a) ⊎ (a + 8 ≤ x)

-- The memories agree on all that none of the relocations from `i` up to `n` writes.
abbrev pub AgreeOutside : (ℕ → Store) → ℕ → ℕ → Mem → Mem → Type 0
AgreeOutside plan i n m m' =
    (x : ℕ) → ((j : ℕ) → i ≤ j → j < n → Outside (plan j).pointer x) → m' x ≡ m x

-- The word of relocation `j` does not meet that of a later one.
abbrev pub IsLast : (ℕ → Store) → ℕ → ℕ → Type 0
IsLast plan n j =
    (l : ℕ)
    → j < l
    → l < n
    → ((plan l).pointer + 8 ≤ (plan j).pointer) ⊎ ((plan j).pointer + 8 ≤ (plan l).pointer)

module _ (symbol_get : ℕ → Run ℕ) (t : Tables) (start end : ℕ) where
  -- Relocation `i` of the memory `m` is the store `s`.
  abbrev pub Stores : Mem → ℕ → Store → Type 0
  Stores m i s = relocation symbol_get t start end m i ≡ ok (some s)

  -- Relocations that do not touch what decides them: in every memory that the stores of the plan can
  -- have changed, relocation `j` is the one of the plan.
  abbrev pub Steady : (ℕ → Store) → ℕ → Mem → Type 0
  Steady plan n m = (m' : Mem) (j : ℕ) → AgreeOutside plan 0 n m m' → j < n → Stores m' j (plan j)

  -- After the relocations from `i` up to `n` the loop has returned Ok with a memory in which nothing
  -- else has changed, and the word of relocation `j`, if it is among them, holds its value.
  abbrev Relocated : (ℕ → Store) → ℕ → ℕ → Mem → Run (Status × Mem) → ℕ → Type 0
  Relocated plan i n m run j =
      (result : Mem) × (run ≡ ok (Status.ok, result))
      × AgreeOutside plan i n m result
      × (i ≤ j → read64 result (plan j).pointer ≡ (plan j).value)

  module _ (plan : ℕ → Store) (n : ℕ) (m : Mem) (steady : Steady plan n m) where
    agree-store :
        (i : ℕ) (m' : Mem)
        → i < n
        → AgreeOutside plan 0 n m m'
        → AgreeOutside plan 0 n m (store64 m' (plan i).pointer (plan i).value)
    agree-store i m' lt agree x out =
        store64-outside m' _ _ x (out i (omega arith) lt) ∙ agree x out

    module _ (j : ℕ) (inside : j < n) (last : IsLast plan n j)
        (small : (plan j).value < 2 ^ 64) where
      relocate_loop-Relocated :
          (k i : ℕ) (m' : Mem)
          → i + k ≡ n
          → AgreeOutside plan 0 n m m'
          → Relocated plan i n m' (relocate_loop symbol_get t start end k i m') j
      unfolding relocate_loop
      relocate_loop-Relocated zero i m' e agree =
          (m', refl, (λ x out. refl), λ le. absurd (omega arith))
      relocate_loop-Relocated (suc k) i m' e agree =
          let p = (plan i).pointer in
          let m2 = store64 m' p (plan i).value in
          let here = steady m' i agree (omega arith) in
          let (result, returned, frame, word) =
            relocate_loop-Relocated k (i + 1) m2 (omega arith)
              (agree-store i m' (omega arith) agree) in
          let whole : AgreeOutside plan i n m' result = λ x out.
            frame x (λ l low high. out l (omega arith) high)
            ∙ store64-outside m' p _ x (out i (omega arith) (omega arith)) in
          rw here (
            result,
            returned,
            whole,
            λ le. elim (ℕ_discrete i j) [
              | no other ↦ word (omega arith)
              | yes same ↦
                  let kept = read64-same m2 result p (λ x low high. frame x (λ l low' high'.
                    let d = last l (omega arith) high' in
                    let q = ap (λ o. (plan o).pointer) same in ground arith)) in
                  let bound = subst (λ o. (plan o).value < 2 ^ 64) (sym same) small in
                  subst (λ o. read64 result (plan o).pointer ≡ (plan o).value) same
                    (kept ∙ read64-store64 m' p _ bound)
            ],
          )

-- `elf_relocate` finds its sections, none of them NULL, and a base.
abbrev pub FindsTables : Literals → Mem → ℕ → ℕ → ElfSection → ElfSection → ElfSection → Type 0
FindsTables lits m start size dynstr rela dynsym =
    (elf_get_section m start size lits.dynstr ≡ ok dynstr)
    × (dynstr.section ≢ null)
    × (elf_get_section m start size lits.rela_dyn ≡ ok rela)
    × (rela.section ≢ null)
    × (elf_get_section m start size lits.dynsym ≡ ok dynsym)
    × (dynsym.section ≢ null)
    × (elf_get_base_address m start size ≢ null)

-- The tables of the sections that were found.
abbrev pub tables_of : Mem → ℕ → ℕ → ElfSection → ElfSection → ElfSection → Tables
tables_of m start size dynstr rela dynsym = record {
  rela = rela;
  dynsym = dynsym.section;
  dynstr = dynstr.section;
  base = elf_get_base_address m start size;
}

module _ (symbol_get : ℕ → Run ℕ) (lits : Literals) (m : Mem) (start size : ℕ)
    (dynstr rela dynsym : ElfSection)
    (found : FindsTables lits m start size dynstr rela dynsym) where
  elf_relocate-loop :
      elf_relocate symbol_get lits m start size
      ≡ relocate_loop symbol_get
          (tables_of m start size dynstr rela dynsym)
          start
          (add64 start size)
          (rela.section_size / 24)
          0
          m
  unfolding elf_relocate
  elf_relocate-loop =
      let (s, s', r, r', y, y', b) = found in
      rw (s, ne→== _ _ s', r, ne→== _ _ r', y, ne→== _ _ y', ne→== _ _ b) refl

  -- Where its sections are found, and the relocations of the module make a plan of stores that do
  -- not touch what decides them, `elf_relocate` returns Ok: it has changed no byte outside the words
  -- of the plan, and the word of relocation `j`, which no later one meets, holds its value of 64 bits.
  pub elf_relocate-plan :
      (plan : ℕ → Store)
      → Steady symbol_get
          (tables_of m start size dynstr rela dynsym)
          start
          (add64 start size)
          plan
          (rela.section_size / 24)
          m
      → (j : ℕ) → j < rela.section_size / 24
      → IsLast plan (rela.section_size / 24) j
      → (plan j).value < 2 ^ 64
      → (result : Mem) × (elf_relocate symbol_get lits m start size ≡ ok (Status.ok, result))
        × AgreeOutside plan 0 (rela.section_size / 24) m result
        × (read64 result (plan j).pointer ≡ (plan j).value)
  elf_relocate-plan plan steady j inside last small =
      let end = add64 start size in
      let n = rela.section_size / 24 in
      let tables = tables_of m start size dynstr rela dynsym in
      let (result, returned, frame, word) =
        relocate_loop-Relocated symbol_get tables start end plan n m steady j inside last small n 0
          m (omega arith) (λ x out. refl) in
      (result, elf_relocate-loop ∙ returned, frame, word (omega arith))
