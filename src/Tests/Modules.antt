-- ===== src/Tests/Modules.antt =====
-- Runs of kernel/core/elf.c, module.c and symbols.c on a small module.
use kernel_of_truth.Base.{
  ◌⊎◌, inr, ℕ, zero, suc, ◌+◌, ◌-◌, ◌*◌, ◌/◌, ◌%◌, ◌^◌, ◌==◌, ◌&&◌, ◌<◌, ◌≡◌, ◌↔◌, refl, inl, Bool,
  true, not, if◌then◌else◌, List, [], ◌∷◌, Run, ok, arith, ℕ_discrete, ap,
}
use kernel_of_truth.Types
use kernel_of_truth.Types.{Status, add64, u64_mod}
use kernel_of_truth.String.{Mem, strlen, strncmp}
use kernel_of_truth.String.Memory.{within, EndsAt}
use kernel_of_truth.String.Words.{read16, read32, read64}
use kernel_of_truth.String.Compare.{Bytes}
use kernel_of_truth.Elf.{
  Literals, ElfSection, section_at, section_table, section_names, section_of, section_loop,
  starts_with, length_of, table_out_of_bounds, elf_verify, elf_get_section, elf_get_base_address,
  lowest_loop, e_shoff, e_shentsize, e_shnum, e_shstrndx, sh_name, sh_type, sh_offset, sh_size,
}
use kernel_of_truth.Elf.Dynamic.{
  Store, Tables, symbol_at, rela_at, r_info, r_offset, r_addend, elf_relocate,
}
use kernel_of_truth.Elf.Verified.{Loadable, PastLast, elf_verify_iff}
use kernel_of_truth.Elf.Sections.{FindsFirst, Placed, elf_get_section-FindsFirst}
use kernel_of_truth.Elf.Symbols.{
  FindsSymbol, elf_get_symbol_address, elf_get_symbol_address-FindsSymbol,
}
use kernel_of_truth.Elf.Plan.{AgreeOutside, FindsTables, tables_of}
use kernel_of_truth.Elf.Relocated.{Asks, Undisturbed, elf_relocate-Relocated}

-- A number in memory: where, in how many bytes, and its value.
abbrev Field : Type 0
Field = ℕ × ℕ × ℕ

abbrev text : List ℕ → ℕ
text [] = 0
text (c ∷ cs) = c + 256 * text cs

abbrev byte_of : List Field → ℕ → ℕ
byte_of [] x = 0
byte_of ((at, size, value) ∷ fields) x =
    let rest = byte_of fields x in if within at size x then value / 256 ^ (x - at) else rest

-- The header at 4096, five sections behind the null section, their contents, and a literal at 200.
abbrev fields : List Field
fields =
    (4096, 4, 1179403647)
    ∷ (4100, 1, 2)
    ∷ (4112, 2, 3)
    ∷ (4114, 2, 62)
    ∷ (4116, 4, 1)
    ∷ (4136, 8, 64)
    ∷ (4154, 2, 64)
    ∷ (4156, 2, 6)
    ∷ (4158, 2, 5)
    ∷ (4224, 4, 1)
    ∷ (4228, 4, 3)
    ∷ (4248, 8, 496)
    ∷ (4256, 8, 8)
    ∷ (4288, 4, 9)
    ∷ (4292, 4, 4)
    ∷ (4312, 8, 504)
    ∷ (4320, 8, 24)
    ∷ (4352, 4, 19)
    ∷ (4356, 4, 11)
    ∷ (4376, 8, 528)
    ∷ (4384, 8, 24)
    ∷ (4416, 4, 27)
    ∷ (4420, 4, 2)
    ∷ (4440, 8, 552)
    ∷ (4448, 8, 24)
    ∷ (4480, 4, 35)
    ∷ (4484, 4, 3)
    ∷ (4504, 8, 448)
    ∷ (4512, 8, 48)
    ∷ (4545, 7, text (b'.' ∷ b'd' ∷ b'y' ∷ b'n' ∷ b's' ∷ b't' ∷ b'r' ∷ []))
    ∷ (4553, 9, text (b'.' ∷ b'r' ∷ b'e' ∷ b'l' ∷ b'a' ∷ b'.' ∷ b'd' ∷ b'y' ∷ b'n' ∷ []))
    ∷ (4563, 7, text (b'.' ∷ b'd' ∷ b'y' ∷ b'n' ∷ b's' ∷ b'y' ∷ b'm' ∷ []))
    ∷ (4571, 7, text (b'.' ∷ b's' ∷ b'y' ∷ b'm' ∷ b't' ∷ b'a' ∷ b'b' ∷ []))
    ∷ (4579, 7, text (b'.' ∷ b's' ∷ b't' ∷ b'r' ∷ b't' ∷ b'a' ∷ b'b' ∷ []))
    ∷ (4587, 4, text (b'm' ∷ b'a' ∷ b'i' ∷ b'n' ∷ []))
    ∷ (4600, 8, 576)
    ∷ (4608, 8, 8)
    ∷ (4616, 8, 16)
    ∷ (4648, 4, 43)
    ∷ (4652, 1, 18)
    ∷ (4654, 2, 1)
    ∷ (4656, 8, 100)
    ∷ (200, 8, text (b'.' ∷ b'd' ∷ b'y' ∷ b'n' ∷ b'a' ∷ b'm' ∷ b'i' ∷ b'c' ∷ []))
    ∷ []

abbrev pub image : Mem
image = λ x. byte_of fields x % 256

abbrev pub start : ℕ
start = 4096

abbrev pub size : ℕ
size = 600

pub image-Bytes : Bytes image
image-Bytes x = omega arith

-- The string literals are those of the module itself, but one.
abbrev pub literals : Literals
literals = record {
  elfmag = 4096;
  dynamic = 200;
  dynstr = 4545;
  rela_dyn = 4553;
  dynsym = 4563;
  strtab = 4579;
  symtab = 4571;
}

-- A test for the end of a string.
abbrev runs : Mem → ℕ → ℕ → Bool
runs m a zero = true
runs m a (suc n) = not (m (a + n) == 0) && runs m a n

runs-before : (m : Mem) (a n i : ℕ) → runs m a n ≡ true → i < n → ¬ (m (a + i) ≡ 0)
runs-before m a zero i h lt e = absurd (omega arith)
runs-before m a (suc n) i h lt e = elim (ℕ_discrete i n) [
  | yes p ↦ let q = ap (λ j. m (a + j)) p in absurd (ground (arith, h, e, q))
  | no p ↦ runs-before m a n i (ground (arith, h)) (omega arith) e
]

ends_at : (m : Mem) (a n : ℕ) → m (a + n) ≡ 0 → runs m a n ≡ true → EndsAt m a n
ends_at m a n last before = (last, λ i lt. runs-before m a n i before lt)

pub image-Placed : Placed image literals
image-Placed = record {
  dynamic = ends_at image 200 8 refl refl;
  dynstr = ends_at image literals.dynstr 7 refl refl;
  rela_dyn = ends_at image literals.rela_dyn 9 refl refl;
  dynsym = ends_at image literals.dynsym 7 refl refl;
  strtab = ends_at image literals.strtab 7 refl refl;
  symtab = ends_at image literals.symtab 7 refl refl;
}

elf_verify_iff_example :
    (elf_verify literals image start size ≡ true)
    ↔ (Loadable image start size ⊎ PastLast image start size)
elf_verify_iff_example =
    elf_verify_iff literals image start size image-Bytes (refl, refl, refl, refl)

elf_get_section-FindsFirst_example :
    FindsFirst image start size literals.dynsym 7 0
      (0 + e_shnum image start)
      (elf_get_section image start size literals.dynsym)
unfolding table_out_of_bounds section_names section_table section_at e_shoff e_shnum e_shstrndx
    sh_offset read16 read64
elf_get_section-FindsFirst_example =
    elf_get_section-FindsFirst image start size literals.dynsym 7 image-Bytes image-Placed.dynsym
      (omega arith) refl (omega arith)

abbrev rela : ElfSection
rela = record { section = 4600; section_size = 24 }

abbrev dynsym : ElfSection
dynsym = record { section = 4624; section_size = 24 }

abbrev dynstr : ElfSection
dynstr = record { section = 4592; section_size = 8 }

abbrev no_symbols : ℕ → Run ℕ
no_symbols name = ok 0

image_finds : FindsTables literals image start size dynstr rela dynsym
unfolding elf_get_section section_loop section_of starts_with length_of strlen strncmp
    table_out_of_bounds section_names section_table section_at e_shoff e_shnum e_shstrndx
    e_shentsize sh_name sh_type sh_offset sh_size read16 read32 read64 elf_get_base_address
    lowest_loop
image_finds = (
  refl,
  (λ e. omega (arith, e)),
  refl,
  (λ e. omega (arith, e)),
  refl,
  (λ e. omega (arith, e)),
  λ e. omega (arith, e),
)

-- The base is at 448 in the file, and the relocation stores it, plus 16, at 576.
abbrev plan : ℕ → Store
plan _ = record { pointer = 4672; value = 4560 }

abbrev tables : Tables
tables = tables_of image start size dynstr rela dynsym

image-Asks : (i : ℕ) → i < 1 → Asks image tables start (add64 start size) i (plan i)
unfolding elf_get_base_address lowest_loop section_table section_at e_shoff e_shnum e_shentsize
    sh_type sh_offset read16 read32 read64 rela_at r_info r_offset r_addend
image-Asks zero lt = inl (refl, refl)
image-Asks (suc i) lt = absurd (omega arith)

image-Undisturbed : Undisturbed image tables plan 1
unfolding rela_at r_info read64 symbol_at
image-Undisturbed zero zero lt lt' = (inr (omega arith), inr (omega arith))
image-Undisturbed zero (suc j) lt lt' = absurd (omega arith)
image-Undisturbed (suc i) j lt lt' = absurd (omega arith)

elf_relocate-Relocated_example :
    (result : Mem) × (elf_relocate no_symbols literals image start size ≡ ok (Types.ok, result))
    × AgreeOutside plan 0 1 image result
    × (read64 result 4672 ≡ 4560)
elf_relocate-Relocated_example =
    elf_relocate-Relocated no_symbols literals image start size dynstr rela dynsym image_finds plan
      image-Asks image-Undisturbed 0 (omega arith) (λ l low high. absurd (omega arith))

main_ends : EndsAt image 4587 4
main_ends = ends_at image 4587 4 refl refl

abbrev strtab : ElfSection
strtab = record { section = 4544; section_size = 48 }

abbrev symtab : ElfSection
symtab = record { section = 4648; section_size = 24 }

elf_get_symbol_address-FindsSymbol_example :
    FindsSymbol image start size 4587 4
      (elf_get_base_address image start size)
      4544
      4648
      0
      (0 + 1)
      (elf_get_symbol_address literals image start size 4587)
unfolding elf_get_section section_loop section_of starts_with length_of strlen strncmp
    table_out_of_bounds section_names section_table section_at e_shoff e_shnum e_shstrndx
    e_shentsize sh_name sh_type sh_offset sh_size read16 read32 read64 elf_get_base_address
    lowest_loop
elf_get_symbol_address-FindsSymbol_example =
    elf_get_symbol_address-FindsSymbol literals image start size 4587 4 strtab symtab image-Bytes
      main_ends (omega arith) refl (λ e. omega (arith, e)) refl (λ e. omega (arith, e))
      (λ e. omega (arith, e))
