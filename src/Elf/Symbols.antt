-- ===== src/Elf/Symbols.antt =====
-- `elf_get_symbol_address` of kernel/core/elf.c: the address of a symbol of a module.
use kernel_of_truth.Base.{
  ℕ, zero, suc, ◌+◌, ◌/◌, ◌==◌, if◌then◌else◌, ltb, Run, ok, ◌>>=◌, ◌≤◌, ◌<◌, ◌≡◌, ◌≢◌, ◌⊎◌, refl,
  inl, inr, Bool-cases, arith, ℕ_discrete, subst, sym, ne→==, ==→eq,
}
use kernel_of_truth.Types.{add64, u64_mod}
use kernel_of_truth.String.{Mem}
use kernel_of_truth.String.Memory.{EndsAt}
use kernel_of_truth.String.Compare.{Bytes}
use kernel_of_truth.Elf.Names.{StartsWith, starts_with_back}
use kernel_of_truth.Elf.{
  ElfSection, Literals, null, elf_get_section, elf_get_section_index, elf_get_base_address,
  starts_with,
}
use kernel_of_truth.Elf.Dynamic.{symbol_at, st_name, st_info, st_index, st_value}

-- The loop over the symbols, with `k` rounds left.
unfoldable pub symbol_loop : Mem → ℕ → ℕ → ℕ → ℕ → ℕ → ℕ → ℕ → ℕ → Run ℕ
symbol_loop m elf size name base strtab symtab zero i = ok null
symbol_loop m elf size name base strtab symtab (suc k) i =
    let rest = symbol_loop m elf size name base strtab symtab k (i + 1) in
    let symbol = symbol_at symtab i in
    let symbol_name = add64 strtab (st_name m symbol) in
    let location = add64 base (st_value m symbol) in
    if st_info m symbol == 4
    then rest
    else if ltb (add64 elf size) symbol_name
    then ok null
    else if elf_get_section_index m elf size (st_index m symbol) == null
    then ok null
    else do
      found ← starts_with m symbol_name name name
      if found then ok (if ltb (add64 elf size) location then null else location) else rest

-- `elf_get_symbol_address`
unfoldable pub elf_get_symbol_address : Literals → Mem → ℕ → ℕ → ℕ → Run ℕ
elf_get_symbol_address lits m elf size name = do
  strtab ← elf_get_section m elf size lits.strtab
  if strtab.section == null then ok null else do
    symtab ← elf_get_section m elf size lits.symtab
    let base = elf_get_base_address m elf size
    if symtab.section == null
        then ok null
        else if base == null
        then ok null
        else symbol_loop m elf size name base strtab.section symtab.section
            (symtab.section_size / 24) 0

module _ (m : Mem) (elf size name n base strtab symtab : ℕ) where
  -- Symbol `i` is not the name of a file, and its name starts with the name looked for.
  abbrev pub SymbolNamed : ℕ → Type 0
  SymbolNamed i =
      (st_info m (symbol_at symtab i) ≢ 4)
      × StartsWith m (add64 strtab (st_name m (symbol_at symtab i))) name n

  -- A search of the symbols from `i` up to `end` returns: NULL, or the address of the first symbol
  -- with the name, which is not past the end of the file.
  abbrev pub FindsSymbol : ℕ → ℕ → Run ℕ → Type 0
  FindsSymbol i end result =
      (result ≡ ok null)
      ⊎ ((j : ℕ) × (i ≤ j)
          × (j < end)
          × SymbolNamed j
          × ((l : ℕ) → i ≤ l → l < j → ¬ SymbolNamed l)
          × (add64 base (st_value m (symbol_at symtab j)) ≤ add64 elf size)
          × (result ≡ ok (add64 base (st_value m (symbol_at symtab j)))))

  pass :
      (i end : ℕ) (result : Run ℕ)
      → ¬ SymbolNamed i
      → FindsSymbol (i + 1) end result
      → FindsSymbol i end result
  pass i end result other (inl e) = inl e
  pass i end result other (inr (j, le, lt, named, first, bound, e)) = inr (
    j,
    omega arith,
    lt,
    named,
    (λ l low high named'. elim (ℕ_discrete i l) [
      | yes p ↦ other (subst SymbolNamed (sym p) named')
      | no p ↦ first l (omega arith) high named'
    ]),
    bound,
    e,
  )

  module _ (bytes : Bytes m) (ends : EndsAt m name n) (short : n < u64_mod) where
    symbol_loop-FindsSymbol :
        (k i : ℕ) → FindsSymbol i (i + k) (symbol_loop m elf size name base strtab symtab k i)
    unfolding symbol_loop
    symbol_loop-FindsSymbol zero i = inl refl
    symbol_loop-FindsSymbol (suc k) i =
        let symbol = symbol_at symtab i in
        let location = add64 base (st_value m symbol) in
        let loop = symbol_loop m elf size name base strtab symtab k (i + 1) in
        let q : i + 1 + k ≡ i + suc k = omega arith in
        let rest : FindsSymbol (i + 1) (i + suc k) loop =
          subst (λ e. FindsSymbol (i + 1) e loop) q (symbol_loop-FindsSymbol k (i + 1)) in
        elim (Bool-cases (st_info m symbol == 4)) [
          | inl file ↦ rw file (pass i _ _ (λ named. named.0 (==→eq _ _ file)) rest)
          | inr other ↦ elim (Bool-cases (ltb (add64 elf size) (add64 strtab (st_name m symbol)))) [
            | inl past ↦ rw (other, past) (inl refl)
            | inr inside ↦
                elim (Bool-cases (elf_get_section_index m elf size (st_index m symbol) == null)) [
                  | inl absent ↦ rw (other, inside, absent) (inl refl)
                  | inr present ↦
                      elim (starts_with_back m bytes name n ends short
                        (add64 strtab (st_name m symbol))) [
                          | inr (e, differs) ↦
                              rw (other, inside, present, e)
                                (pass i _ _ (λ named. differs named.1) rest)
                          | inl (e, same) ↦ elim (Bool-cases (ltb (add64 elf size) location)) [
                            | inl past ↦ rw (other, inside, present, e, past) (inl refl)
                            | inr fits ↦
                                rw (other, inside, present, e, fits)
                                  (inr (
                                    i,
                                    omega arith,
                                    omega arith,
                                    ((λ z. absurd (ground arith)), same),
                                    (λ l low high. absurd (omega arith)),
                                    ground arith,
                                    refl,
                                  ))
                          ]
                        ]
                ]
          ]
        ]

-- Where `.strtab` and `.symtab` are found and there is a base, `elf_get_symbol_address` of a name
-- returns: NULL, or the address of the first symbol whose name starts with the one asked for, which
-- is not past the end of the file. Symbols that name files are passed over.
pub elf_get_symbol_address-FindsSymbol :
    (lits : Literals) (m : Mem) (elf size name n : ℕ) (strtab symtab : ElfSection)
    → Bytes m
    → EndsAt m name n
    → n < u64_mod
    → elf_get_section m elf size lits.strtab ≡ ok strtab
    → strtab.section ≢ null
    → elf_get_section m elf size lits.symtab ≡ ok symtab
    → symtab.section ≢ null
    → elf_get_base_address m elf size ≢ null
    → FindsSymbol m elf size name n
        (elf_get_base_address m elf size)
        strtab.section
        symtab.section
        0
        (0 + symtab.section_size / 24)
        (elf_get_symbol_address lits m elf size name)
unfolding elf_get_symbol_address
elf_get_symbol_address-FindsSymbol lits m elf size name n strtab symtab bytes ends short s s' y y'
      b =
    rw (s, ne→== _ _ s', y, ne→== _ _ y', ne→== _ _ b)
      (symbol_loop-FindsSymbol m elf size name n (elf_get_base_address m elf size) strtab.section
        symtab.section bytes ends short (symtab.section_size / 24) 0)
