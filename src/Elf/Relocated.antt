-- ===== src/Elf/Relocated.antt =====
-- `elf_relocate` of kernel/core/elf.c: what the relocations leave in memory.
use kernel_of_truth.Base.{
  ℕ, ◌+◌, ◌≤◌, ◌<◌, ◌≡◌, ◌≢◌, ◌⊎◌, refl, some, arith, sym, ◌∙◌, ap, ◌^◌, ◌/◌, ◌==◌, if◌then◌else◌,
  true, false, ltb, Bool-cases, inl, inr, Run, ok, ne→==, eq→==, ◌%◌,
}
use kernel_of_truth.Types.{Status, add64}
use kernel_of_truth.String.{Mem}
use kernel_of_truth.String.Words.{read64, read64-same, read16-same}
use kernel_of_truth.Elf.{Literals, ElfSection}
use kernel_of_truth.Elf.Dynamic.{
  Store, Tables, rela_at, r_info, r_offset, r_addend, relative, relocation, elf_relocate, symbol_at,
  st_index, st_value, is_symbolic, symbolic_store,
}
use kernel_of_truth.Elf.Plan.{
  AgreeOutside, IsLast, Steady, FindsTables, tables_of, elf_relocate-plan,
}

-- The symbol of relocation `i`.
abbrev pub symbol_of : Mem → Tables → ℕ → ℕ
symbol_of m t i = symbol_at t.dynsym (r_info m (rela_at t.rela.section i) / 2 ^ 32)

-- The type of relocation `i`.
abbrev pub type_of : Mem → Tables → ℕ → ℕ
type_of m t i = r_info m (rela_at t.rela.section i) % 2 ^ 32

-- Relocation `i` names a symbol, in the file, that the module defines.
abbrev pub IsDefined : Mem → Tables → ℕ → ℕ → Type 0
IsDefined m t end i =
    (is_symbolic (type_of m t i) ≡ true)
    × (symbol_of m t i + 24 ≤ end)
    × (symbol_of m t i + 24 < 2 ^ 64)
    × (st_index m (symbol_of m t i) ≢ 0)

-- What a relative relocation stores, and what one stores of a symbol that the module defines: the ABI
-- adds the addend only in R_X86_64_64, which is type 1.
abbrev pub relative_store : Mem → Tables → ℕ → ℕ → Store
relative_store m t start i =
    let entry = rela_at t.rela.section i in
    record { pointer = add64 start (r_offset m entry); value = add64 t.base (r_addend m entry) }

abbrev pub defined_store : Mem → Tables → ℕ → Store
defined_store m t i =
    let entry = rela_at t.rela.section i in
    let address = add64 t.base (st_value m (symbol_of m t i)) in
    record {
      pointer = add64 t.base (r_offset m entry);
      value = if type_of m t i == 1 then add64 address (r_addend m entry) else address;
    }

-- The store `s` is what relocation `i` asks for.
abbrev pub Asks : Mem → Tables → ℕ → ℕ → ℕ → Store → Type 0
Asks m t start end i s =
    ((type_of m t i ≡ relative) × (s ≡ relative_store m t start i))
    ⊎ (IsDefined m t end i × (s ≡ defined_store m t i))

-- A relative relocation is the same in every memory that has the same bytes at its entry.
relative_kept :
    (symbol_get : ℕ → Run ℕ) (t : Tables) (start end : ℕ) (m m' : Mem) (i : ℕ)
    → ((x : ℕ) → rela_at t.rela.section i ≤ x → x < rela_at t.rela.section i + 24 → m' x ≡ m x)
    → type_of m t i ≡ relative
    → relocation symbol_get t start end m' i ≡ ok (some (relative_store m t start i))
unfolding relocation r_info r_offset r_addend
relative_kept symbol_get t start end m m' i same is_relative =
    let entry = rela_at t.rela.section i in
    let offset = read64-same m m' entry (λ x low high. same x low (omega arith)) in
    let info = read64-same m m' (entry + 8) (λ x low high. same x (omega arith) (omega arith)) in
    let addend = read64-same m m' (entry + 16) (λ x low high. same x (omega arith) (omega arith)) in
    rw (offset, info, addend, eq→== _ _ is_relative) refl

-- A relocation of a symbol that the module defines is the same in every memory that has the same bytes
-- at its entry and at the entry of the symbol.
defined_kept :
    (symbol_get : ℕ → Run ℕ) (t : Tables) (start end : ℕ) (m m' : Mem) (i : ℕ)
    → ((x : ℕ) → rela_at t.rela.section i ≤ x → x < rela_at t.rela.section i + 24 → m' x ≡ m x)
    → ((x : ℕ) → symbol_of m t i ≤ x → x < symbol_of m t i + 24 → m' x ≡ m x)
    → IsDefined m t end i
    → relocation symbol_get t start end m' i ≡ ok (some (defined_store m t i))
unfolding relocation symbolic_store r_info r_offset r_addend st_index st_value
defined_kept symbol_get t start end m m' i same same' (symbolic, inside, fits, here) =
    let entry = rela_at t.rela.section i in
    let symbol = symbol_of m t i in
    let offset = read64-same m m' entry (λ x low high. same x low (omega arith)) in
    let info = read64-same m m' (entry + 8) (λ x low high. same x (omega arith) (omega arith)) in
    let addend = read64-same m m' (entry + 16) (λ x low high. same x (omega arith) (omega arith)) in
    let index = read16-same m m' (symbol + 6) (λ x low high. same' x (omega arith) (omega arith)) in
    let value = read64-same m m' (symbol + 8) (λ x low high. same' x (omega arith) (omega arith)) in
    let bound : add64 symbol 24 ≡ symbol + 24 = omega (arith, fits) in
    let low : ltb end (symbol + 24) ≡ false = ground (arith, inside) in
    let other : (type_of m t i == relative) ≡ false = ground (arith, symbolic) in
    elim (Bool-cases (type_of m t i == 1)) [
      | inl one ↦
          rw (offset, info, addend, other, symbolic, bound, low, index, value, ne→== _ _ here, one)
            refl
      | inr more ↦
          rw (offset, info, addend, other, symbolic, bound, low, index, value, ne→== _ _ here, more)
            refl
    ]

Asks-small :
    (m : Mem) (t : Tables) (start end i : ℕ) (s : Store) → Asks m t start end i s → s.value < 2 ^ 64
Asks-small m t start end i s (inl (is_relative, same)) = rw same (omega arith)
Asks-small m t start end i s (inr (defined, same)) = rw same (ground arith)

-- The 8 bytes of the word at `p` are apart from the 24 of the entry at `a`.
abbrev pub Clear : ℕ → ℕ → Type 0
Clear p a = (p + 8 ≤ a) ⊎ (a + 24 ≤ p)

-- No store of the plan meets the entries of a relocation or of its symbol.
abbrev pub Undisturbed : Mem → Tables → (ℕ → Store) → ℕ → Type 0
Undisturbed m t plan n =
    (i j : ℕ)
    → i < n
    → j < n
    → Clear (plan j).pointer (rela_at t.rela.section i) × Clear (plan j).pointer (symbol_of m t i)

module _ (symbol_get : ℕ → Run ℕ) (t : Tables) (start end : ℕ) (m : Mem) (plan : ℕ → Store) (n : ℕ)
    (clear : Undisturbed m t plan n) where
  -- Relocations that are not disturbed do what they ask for in the file as it was.
  Asks-Steady :
      ((i : ℕ) → i < n → Asks m t start end i (plan i)) → Steady symbol_get t start end plan n m
  Asks-Steady asks m' i agree lt =
      let entry : (x : ℕ)
          → rela_at t.rela.section i ≤ x
          → x < rela_at t.rela.section i + 24
          → m' x ≡ m x =
        λ x low high. agree x λ j from to. let c = (clear i j lt to).0 in ground arith in
      let symbol : (x : ℕ) → symbol_of m t i ≤ x → x < symbol_of m t i + 24 → m' x ≡ m x =
        λ x low high. agree x λ j from to. let c = (clear i j lt to).1 in ground arith in
      elim (asks i lt) [
        | inl (is_relative, same) ↦
            relative_kept symbol_get t start end m m' i entry is_relative
            ∙ ap (λ (s : Store). ok (some s)) (sym same)
        | inr (defined, same) ↦
            defined_kept symbol_get t start end m m' i entry symbol defined
            ∙ ap (λ (s : Store). ok (some s)) (sym same)
      ]

module _ (symbol_get : ℕ → Run ℕ) (lits : Literals) (m : Mem) (start size : ℕ)
    (dynstr rela dynsym : ElfSection)
    (found : FindsTables lits m start size dynstr rela dynsym) where
  -- Where its sections are found, and every relocation is relative or of a symbol that the module
  -- defines, and no store meets the entries of a relocation or of its symbol: `elf_relocate` returns Ok.
  -- It has changed no byte outside the words of the relocations, and the word of relocation `j`, which
  -- no later one meets, holds the base and the addend for a relative one, and else the address of the
  -- symbol, with the addend for R_X86_64_64; that word is at the offset from the start of the module for
  -- a relative one, and else from the base.
  pub elf_relocate-Relocated :
      (plan : ℕ → Store)
      → ((i : ℕ)
          → i < rela.section_size / 24
          → Asks m (tables_of m start size dynstr rela dynsym) start (add64 start size) i (plan i))
      → Undisturbed m (tables_of m start size dynstr rela dynsym) plan (rela.section_size / 24)
      → (j : ℕ) → j < rela.section_size / 24
      → IsLast plan (rela.section_size / 24) j
      → (result : Mem) × (elf_relocate symbol_get lits m start size ≡ ok (Status.ok, result))
        × AgreeOutside plan 0 (rela.section_size / 24) m result
        × (read64 result (plan j).pointer ≡ (plan j).value)
  elf_relocate-Relocated plan asks clear j inside last =
      let t = tables_of m start size dynstr rela dynsym in
      let end = add64 start size in
      let n = rela.section_size / 24 in
      elf_relocate-plan symbol_get lits m start size dynstr rela dynsym found plan
        (Asks-Steady symbol_get t start end m plan n clear asks) j inside last
        (Asks-small m t start end j (plan j) (asks j inside))
