-- ===== src/Elf.antt =====
-- include/truth/elf.h and kernel/core/elf.c: the layout of an ELF file that is mapped at the address
-- `start` (the argument `header` or `elf` of the functions), its checks, and the search for its
-- sections. Addresses are numbers of 64 bits, and sums of them wrap; NULL is 0.
pub mod Verified
pub mod Names
pub mod Sections
pub mod Lowest
pub mod Dynamic
pub mod Plan
pub mod Relocated
pub mod Symbols
use kernel_of_truth.Base.{
  ℕ, zero, suc, ◌+◌, ◌-◌, ◌*◌, ◌/◌, ◌%◌, ◌^◌, ◌==◌, ◌&&◌, ◌||◌, not, Bool, true, false,
  if◌then◌else◌, ltb, leb, Option, none, some, Run, ok, stuck, ◌>>=◌, ◌>>◌,
}
use kernel_of_truth.Types.{add64, u64_mod}
use kernel_of_truth.String.{Mem, Sign, minus, nought, plus, memcmp, is_zero, strncmp, strlen}
use kernel_of_truth.String.Words.{read16, read32, read64}

-- Where the string literals of elf.c lie in memory.
pub record Literals : Type 0 where
  pub elfmag : ℕ
  pub dynamic : ℕ
  pub dynstr : ℕ
  pub rela_dyn : ℕ
  pub dynsym : ℕ
  pub strtab : ℕ
  pub symtab : ℕ

abbrev pub null : ℕ
null = 0

-- `struct elf64_header`, at an address, by the offsets of the fields that the code reads.
abbrev pub header_size : ℕ
header_size = 64

unfoldable pub e_class : Mem → ℕ → ℕ
e_class m header = m (header + 4)

unfoldable pub e_type : Mem → ℕ → ℕ
e_type m header = read16 m (header + 16)

unfoldable pub e_machine : Mem → ℕ → ℕ
e_machine m header = read16 m (header + 18)

unfoldable pub e_version : Mem → ℕ → ℕ
e_version m header = read32 m (header + 20)

unfoldable pub e_shoff : Mem → ℕ → ℕ
e_shoff m header = read64 m (header + 40)

unfoldable pub e_shentsize : Mem → ℕ → ℕ
e_shentsize m header = read16 m (header + 58)

unfoldable pub e_shnum : Mem → ℕ → ℕ
e_shnum m header = read16 m (header + 60)

unfoldable pub e_shstrndx : Mem → ℕ → ℕ
e_shstrndx m header = read16 m (header + 62)

-- `struct elf_section_header`: `&sections[index]`, and the fields.
unfoldable pub section_at : ℕ → ℕ → ℕ
section_at sections index = add64 sections (64 * index)

unfoldable pub sh_name : Mem → ℕ → ℕ
sh_name m section = read32 m section

unfoldable pub sh_type : Mem → ℕ → ℕ
sh_type m section = read32 m (section + 4)

unfoldable pub sh_offset : Mem → ℕ → ℕ
sh_offset m section = read64 m (section + 24)

unfoldable pub sh_size : Mem → ℕ → ℕ
sh_size m section = read64 m (section + 32)

-- `elf_verify_x86_64_compatible`: EM_X86_64 and ELFCLASS64.
unfoldable pub elf_verify_x86_64_compatible : Mem → ℕ → Bool
elf_verify_x86_64_compatible m header = (e_machine m header == 62) && (e_class m header == 2)

-- `elf_verify_shared_object`: ET_REL.
unfoldable pub elf_verify_shared_object : Mem → ℕ → Bool
elf_verify_shared_object m header = e_type m header == 1

abbrev pub is_nought : Sign → Bool
is_nought minus = false
is_nought nought = true
is_nought plus = false

-- `elf_verify`
unfoldable pub elf_verify : Literals → Mem → ℕ → ℕ → Bool
elf_verify lits m start size =
    if leb size header_size
    then false
    else if not (is_nought (memcmp m start lits.elfmag 4))
    then false
    else if not (e_version m start == 1)
    then false
    else if not (elf_verify_x86_64_compatible m start)
    then false
    else not (ltb (e_shnum m start) (e_shstrndx m start))

-- The table of section headers.
unfoldable pub section_table : Mem → ℕ → ℕ
section_table m start = add64 start (e_shoff m start)

-- `(void *)(sections + header->e_shnum) > start + size`
unfoldable pub table_out_of_bounds : Mem → ℕ → ℕ → Bool
table_out_of_bounds m start size =
    ltb (add64 start size) (section_at (section_table m start) (e_shnum m start))

-- `elf_strtab_get_symbol`
unfoldable pub elf_strtab_get_symbol : Mem → ℕ → ℕ → ℕ → ℕ
elf_strtab_get_symbol m start size index =
    let header = section_at (section_table m start) (e_shstrndx m start) in
    let strtab = add64 start (sh_offset m header) in
    if ltb (add64 start size) strtab || ltb (add64 start size) (add64 strtab index)
    then null
    else add64 strtab index

-- `elf_get_section_index`
unfoldable pub elf_get_section_index : Mem → ℕ → ℕ → ℕ → ℕ
elf_get_section_index m start size index =
    let section = section_at (section_table m start) index in
    if table_out_of_bounds m start size
    then null
    else if ltb section (add64 start size)
    then section
    else null

abbrev pub or_stuck : Option ℕ → Run ℕ
or_stuck none = stuck
or_stuck (some n) = ok n

-- `strlen`, which does not return if no byte of the address space ends the string.
unfoldable pub length_of : Mem → ℕ → Run ℕ
length_of m name = or_stuck (strlen m name u64_mod)

-- `strncmp(a, b, strlen(length)) == 0`
unfoldable pub starts_with : Mem → ℕ → ℕ → ℕ → Run Bool
starts_with m a b name = do n ← length_of m name; ok (is_zero (strncmp m a b n))

-- A section that was found: where it is, and `*section_size`, which is not set with NULL.
pub record ElfSection : Type 0 where
  pub section : ℕ
  pub section_size : ℕ

abbrev pub no_section : ElfSection
no_section = record { section = null; section_size = 0 }

-- The section of a header, unless it starts past the end of the file.
unfoldable pub section_of : Mem → ℕ → ℕ → ℕ → ElfSection
section_of m start size header =
    let section = add64 start (sh_offset m header) in
    if ltb (add64 start size) section
    then no_section
    else record { section = section; section_size = sh_size m header }

-- The loop of `elf_get_section`, with `k` rounds left.
unfoldable pub section_loop : Mem → ℕ → ℕ → ℕ → ℕ → ℕ → ℕ → Run ElfSection
section_loop m start size name strtab zero i = ok no_section
section_loop m start size name strtab (suc k) i =
    let rest = section_loop m start size name strtab k (i + 1) in
    let header = section_at (section_table m start) i in
    let section_name = add64 strtab (sh_name m header) in
    if leb (add64 start size) section_name then rest else do
      found ← starts_with m name section_name name
      if found then ok (section_of m start size header) else rest

-- The names of the sections.
unfoldable pub section_names : Mem → ℕ → ℕ
section_names m start =
    add64 start (sh_offset m (section_at (section_table m start) (e_shstrndx m start)))

-- `elf_get_section`
unfoldable pub elf_get_section : Mem → ℕ → ℕ → ℕ → Run ElfSection
elf_get_section m start size name =
    if table_out_of_bounds m start size
    then ok no_section
    else if leb (add64 start size) (section_names m start)
    then ok no_section
    else section_loop m start size name (section_names m start) (e_shnum m start) 0

-- `elf_get_base_address`, with `k` rounds of its loop left: the lowest offset of a section that is
-- not SHT_NULL.
unfoldable pub lowest_loop : Mem → ℕ → ℕ → ℕ → ℕ → ℕ
lowest_loop m sections zero i base = base
lowest_loop m sections (suc k) i base =
    let header = section_at sections i in
    let taken = not (sh_type m header == 0) && ltb (sh_offset m header) base in
    lowest_loop m sections k (i + 1) (if taken then sh_offset m header else base)

abbrev pub bad_base : ℕ
bad_base = u64_mod - 1

-- A 32-bit `int`, extended to 64 bits with its sign.
abbrev pub int_to_word : ℕ → ℕ
int_to_word n = if ltb n (2 ^ 31) then n else n + 2 ^ 64 - 2 ^ 32

-- The product of the two 16-bit fields is taken in `int`, which wraps here.
unfoldable pub elf_get_base_address : Mem → ℕ → ℕ → ℕ
elf_get_base_address m start size =
    let table_size = int_to_word ((e_shentsize m start * e_shnum m start) % 2 ^ 32) in
    let base = lowest_loop m (section_table m start) (e_shnum m start) 0 bad_base in
    if ltb (add64 start size) (add64 (section_table m start) table_size)
    then null
    else if base == bad_base
    then null
    else add64 start base
