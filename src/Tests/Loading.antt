-- ===== src/Tests/Loading.antt =====
-- Runs of kernel/core/module.c and symbols.c, with the module of the runs of elf.c and a table of
-- symbols that are numbers.
use kernel_of_truth.Base.{
  ℕ, ◌≡◌, ◌⊎◌, refl, Bool, true, false, List, [], ◌∷◌, ok, some, result_or, arith,
}
use kernel_of_truth.Types
use kernel_of_truth.Types.{Status}
use kernel_of_truth.String.{Mem, strncmp, strlen, memcmp, store}
use kernel_of_truth.String.Words.{read16, read32, read64, store64}
use kernel_of_truth.Hashtable.{
  Table, blank, hashtable_put, hashtable_seek_empty, insert, should_grow,
}
use kernel_of_truth.Elf.{
  elf_verify, elf_verify_x86_64_compatible, elf_verify_shared_object, elf_get_section, section_loop,
  section_of, starts_with, length_of, table_out_of_bounds, section_names, section_table, section_at,
  e_type, e_class, e_machine, e_version, e_shoff, e_shentsize, e_shnum, e_shstrndx, sh_name,
  sh_type, sh_offset, sh_size, elf_get_base_address, lowest_loop, elf_get_section_index,
}
use kernel_of_truth.Elf.Dynamic.{
  elf_get_shared_object_name, elf_relocate, relocate_loop, relocation, rela_at, r_info, r_offset,
  r_addend, symbol_at, st_name, st_info, st_index, st_value,
}
use kernel_of_truth.Symbols.{SymbolEmbedded, symbol_put, symbol_get, symbol_init}
use kernel_of_truth.Symbols.Enter.{Found, symbol_init-Found}
use kernel_of_truth.Module.{
  Loader, module_load, load_named, enter_module, add_module, module_verify, module_insert_symbols,
  insert_symbols_loop, undo_symbols,
}
use kernel_of_truth.Module.Load.{Listed, module_load-module_verify, module_load-Listed}
use kernel_of_truth.Tests.Modules.{image, start, size, literals, image-Bytes, image-Placed}
use kernel_of_truth.Tests.Tables.{ℕ_Key}

abbrev eight : Table ℕ
eight = record { used = 0; size = 8; slots = λ _. blank }

abbrev idle : Loader
idle = record { mem = image; symbols = eight; modules = [] }

abbrev accept : Mem → ℕ → ℕ → ℕ → Bool
accept m signature message n = true

abbrev refuse : Mem → ℕ → ℕ → ℕ → Bool
refuse m signature message n = false

module_load-module_verify_example :
    module_load true refuse 4601 literals true start size idle ≡ ok (Types.invalid, idle)
unfolding module_verify strncmp
module_load-module_verify_example =
    module_load-module_verify true refuse 4601 literals true start size idle image-Bytes
      image-Placed (λ e. absurd (ground arith))

abbrev loaded : Status × Loader
loaded =
    result_or (Types.invalid, idle) (module_load true accept 4601 literals true start size idle)

module_load-Listed_example :
    (loaded ≡ (Types.invalid, idle))
    ⊎ ((elf_verify literals image start size ≡ true)
        × (module_verify accept 4601 image start size ≡ Types.ok)
        × (name : ℕ) × Listed true accept 4601 literals true start size idle name loaded)
unfolding module_load load_named enter_module add_module module_verify module_insert_symbols
    insert_symbols_loop undo_symbols symbol_put symbol_get elf_verify elf_verify_x86_64_compatible
    elf_verify_shared_object elf_get_section section_loop section_of starts_with length_of
    table_out_of_bounds section_names section_table section_at e_type e_class e_machine e_version
    e_shoff e_shentsize e_shnum e_shstrndx sh_name sh_type sh_offset sh_size elf_get_base_address
    lowest_loop elf_get_section_index elf_get_shared_object_name elf_relocate relocate_loop
    relocation rela_at r_info r_offset r_addend symbol_at st_name st_info st_index st_value strncmp
    strlen memcmp read16 read32 read64 store64 hashtable_put hashtable_seek_empty insert should_grow
    ℕ_Key store
module_load-Listed_example =
    module_load-Listed true accept 4601 literals true start size idle loaded refl

abbrev kernel_symbols : List (SymbolEmbedded ℕ)
kernel_symbols = record { name = 7; location = 70 } ∷ record { name = 135; location = 80 } ∷ []

symbol_init-Found_example :
    (t : Table ℕ) × (symbol_init kernel_symbols true true true ≡ ok (Types.ok, some t))
    × Found t kernel_symbols
unfolding ℕ_Key
symbol_init-Found_example =
    symbol_init-Found kernel_symbols true (((refl, tt), (tt, tt))) (omega arith)
