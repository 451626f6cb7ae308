-- ===== src/Module.antt =====
-- kernel/core/module.c: kernel modules, which are ELF files that are verified, relocated and entered
-- into the table of symbols. Symbols are known by the addresses of their names; `granted` says
-- whether `kmalloc` has room.
pub mod Load
use kernel_of_truth.Base.{
  ℕ, zero, suc, ◌+◌, ◌-◌, ◌*◌, ◌/◌, ◌%◌, ◌^◌, ◌==◌, ◌&&◌, ◌||◌, not, Bool, true, false,
  if◌then◌else◌, ltb, List, [], ◌∷◌, Run, ok, ◌>>=◌, ◌>>◌, assert,
}
use kernel_of_truth.Types
use kernel_of_truth.Types.{Status, is_ok, add64, sub64, page_small}
use kernel_of_truth.String.{Mem, is_zero, strncmp}
use kernel_of_truth.Hashtable.{Key, Table}
use kernel_of_truth.Symbols.{symbol_get, symbol_put, symbol_remove}
use kernel_of_truth.Elf.{
  Literals, ElfSection, null, elf_verify, elf_get_section, elf_get_section_index, sh_offset,
}
use kernel_of_truth.Elf.Dynamic.{
  symbol_at, st_name, st_info, st_index, st_value, elf_get_shared_object_name, elf_relocate,
}

-- `struct module`; the fields that are never read are left out.
pub record Module : Type 0 where
  pub name : ℕ
  pub virtual_start : ℕ
  pub size : ℕ

-- The memory, the table of symbols and the list `Module_List`.
pub record Loader : Type 0 where
  pub mem : Mem
  pub symbols : Table ℕ
  pub modules : List Module

-- crypto_sign_ed25519_BYTES, and the size of SIGNATURE_MAGIC_STRING.
abbrev pub signature_size : ℕ
signature_size = 64

abbrev pub magic_size : ℕ
magic_size = 31

-- `module_list_offset`
pub module_list_offset : ℕ → ℕ → ℕ → ℕ
module_list_offset mods_addr ptr mapped = add64 mapped (sub64 ptr mods_addr)

-- `module_verify`. The string SIGNATURE_MAGIC_STRING lies at `magic`; `verify` is
-- crypto_sign_ed25519_verify_detached with the key of the kernel: signature, message and its size.
unfoldable pub module_verify : (Mem → ℕ → ℕ → ℕ → Bool) → ℕ → Mem → ℕ → ℕ → Status
module_verify verify magic m module_start module_size =
    let verify_size = sub64 (sub64 module_size signature_size) magic_size in
    let signature_magic = add64 module_start verify_size in
    let signature = add64 module_start (sub64 module_size signature_size) in
    if not (is_zero (strncmp m signature_magic magic magic_size))
    then Types.invalid
    else if not (verify m signature module_start verify_size)
    then Types.invalid
    else Types.ok

-- ELF64_ST_BIND is STB_GLOBAL.
abbrev pub is_global : ℕ → Bool
is_global info = info / 16 == 1

-- ELF64_ST_TYPE is STT_FUNC or STT_OBJECT.
abbrev pub is_defined_type : ℕ → Bool
is_defined_type info = (info % 16 == 2) || (info % 16 == 1)

module _ ⦃k : Key ℕ⦄ (granted : Bool) where
  -- The loop of `module_remove_symbols`, with `n` rounds left.
  unfoldable pub remove_symbols_loop : Mem → ℕ → ℕ → ℕ → ℕ → Table ℕ → Run (Table ℕ)
  remove_symbols_loop m strtab symtab zero i t = ok t
  remove_symbols_loop m strtab symtab (suc n) i t =
      let symbol = symbol_at symtab i in
      let removal = symbol_remove t (add64 strtab (st_name m symbol)) granted >>= λ r.
      assert (is_ok r.0) >> remove_symbols_loop m strtab symtab n (i + 1) r.1 in
      let rest = remove_symbols_loop m strtab symtab n (i + 1) t in
      if is_global (st_info m symbol) then removal else rest

  -- `module_remove_symbols`
  unfoldable pub module_remove_symbols : Literals → Mem → ℕ → ℕ → Table ℕ → Run (Table ℕ)
  module_remove_symbols lits m elf size t = do
    strtab ← elf_get_section m elf size lits.strtab
    if strtab.section == null then ok t else do
      symtab ← elf_get_section m elf size lits.symtab
      if symtab.section == null
          then ok t
          else remove_symbols_loop m strtab.section symtab.section (symtab.section_size / 24) 0 t

  -- The loop of `module_insert_symbols`, with `n` rounds left.
  unfoldable pub insert_symbols_loop :
      Mem → ℕ → ℕ → ℕ → ℕ → ℕ → ℕ → Table ℕ → Run (Status × Table ℕ)
  insert_symbols_loop m elf size strtab symtab zero i t = ok (Types.ok, t)
  insert_symbols_loop m elf size strtab symtab (suc n) i t =
      let symbol = symbol_at symtab i in
      let section = elf_get_section_index m elf size (st_index m symbol) in
      let location = add64 (add64 elf (sh_offset m section)) (st_value m symbol) in
      let insertion = symbol_put t (add64 strtab (st_name m symbol)) location granted >>= λ r.
      elim r.0 [
        | Types.ok ↦ insert_symbols_loop m elf size strtab symtab n (i + 1) r.1
        | e ↦ ok (e, r.1)
      ] in
      let rest = insert_symbols_loop m elf size strtab symtab n (i + 1) t in
      if is_global (st_info m symbol) && is_defined_type (st_info m symbol)
      then if section == null then ok (Types.invalid, t) else insertion
      else rest

  -- The end of `module_insert_symbols`, with its label `err`.
  unfoldable pub undo_symbols : Literals → Mem → ℕ → ℕ → Status × Table ℕ → Run (Status × Table ℕ)
  undo_symbols lits m elf size (Types.ok, t) = ok (Types.ok, t)
  undo_symbols lits m elf size (e, t) = module_remove_symbols lits m elf size t >>= λ t'. ok (e, t')

  -- `module_insert_symbols`
  unfoldable pub module_insert_symbols : Literals → Mem → ℕ → ℕ → Table ℕ → Run (Status × Table ℕ)
  module_insert_symbols lits m elf size t = do
    strtab ← elf_get_section m elf size lits.strtab
    if strtab.section == null then ok (Types.invalid, t) else do
      symtab ← elf_get_section m elf size lits.symtab
      if symtab.section == null
          then ok (Types.invalid, t)
          else insert_symbols_loop m elf size strtab.section symtab.section
              (symtab.section_size / 24) 0 t
            >>= undo_symbols lits m elf size

  -- The end of `module_load`, with the symbols entered: the module joins the list, if `kmalloc` of its
  -- structure has `room`.
  unfoldable pub add_module :
      Literals → Bool → Module → Status × Table ℕ → Loader → Run (Status × Loader)
  add_module lits room new_module (Types.ok, t) st =
      let joined = record st { symbols = t; modules = new_module ∷ st.modules } in
      let undone =
        module_remove_symbols lits st.mem new_module.virtual_start new_module.size t >>= λ t'.
        ok (Types.no_memory, record st { symbols = t' }) in
      if room then ok (Types.ok, joined) else undone
  add_module lits room new_module (e, t) st = ok (e, record st { symbols = t })

  -- What follows the relocation in `module_load`.
  unfoldable pub enter_module :
      Literals → Bool → Module → Status × Mem → Loader → Run (Status × Loader)
  enter_module lits room new_module (Types.ok, m) st =
      module_insert_symbols lits m new_module.virtual_start new_module.size st.symbols >>= λ r.
      add_module lits room new_module r (record st { mem = m })
  enter_module lits room new_module (e, m) st = ok (e, record st { mem = m })

  -- What follows the search for the name in `module_load`.
  unfoldable pub load_named :
      (Mem → ℕ → ℕ → ℕ → Bool) → ℕ → Literals → Bool → ℕ → ℕ → Loader → ℕ → Run (Status × Loader)
  load_named verify magic lits room module_start module_size st module_name =
      let new_module : Module = record {
        name = module_name;
        virtual_start = module_start;
        size = module_size;
      } in
      let status = module_verify verify magic st.mem module_start module_size in
      let relocated = elf_relocate (symbol_get st.symbols) lits st.mem module_start module_size in
      if is_ok status
      then relocated >>= (λ r. enter_module lits room new_module r st)
      else ok (status, st)

  -- `module_load`
  unfoldable pub module_load :
      (Mem → ℕ → ℕ → ℕ → Bool) → ℕ → Literals → Bool → ℕ → ℕ → Loader → Run (Status × Loader)
  module_load verify magic lits room module_start module_size st =
      if not (elf_verify lits st.mem module_start module_size)
      then ok (Types.invalid, st)
      else elf_get_shared_object_name lits st.mem module_start module_size
        >>= load_named verify magic lits room module_start module_size st
