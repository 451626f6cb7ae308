-- ===== src/Elf/Dynamic.antt =====
-- The dynamic part of kernel/core/elf.c: the name of a shared object, relocations, the functions of
-- DT_INIT_ARRAY and DT_FINI_ARRAY. `symbol_get` is the function of kernel/core/symbols.c, with 0 for
-- NULL.
use kernel_of_truth.Base.{
  ℕ, zero, suc, ◌+◌, ◌*◌, ◌/◌, ◌%◌, ◌^◌, ◌==◌, ◌&&◌, ◌||◌, not, Bool, true, false, if◌then◌else◌,
  ltb, Option, none, some, Run, ok, ◌>>=◌,
}
use kernel_of_truth.Types.{add64, Status}
use kernel_of_truth.String.{Mem}
use kernel_of_truth.String.Words.{read16, read32, read64, store64}
use kernel_of_truth.Elf.{
  Literals, null, ElfSection, elf_verify, elf_verify_shared_object, elf_get_section,
  elf_get_base_address,
}

-- `struct elf_dyn`: `&dynamic[i]`, and the fields.
unfoldable pub dyn_at : ℕ → ℕ → ℕ
dyn_at dynamic i = add64 dynamic (16 * i)

unfoldable pub d_tag : Mem → ℕ → ℕ
d_tag m entry = read64 m entry

unfoldable pub d_val : Mem → ℕ → ℕ
d_val m entry = read64 m (entry + 8)

-- `struct elf_rela`
unfoldable pub rela_at : ℕ → ℕ → ℕ
rela_at rela i = add64 rela (24 * i)

unfoldable pub r_offset : Mem → ℕ → ℕ
r_offset m entry = read64 m entry

unfoldable pub r_info : Mem → ℕ → ℕ
r_info m entry = read64 m (entry + 8)

unfoldable pub r_addend : Mem → ℕ → ℕ
r_addend m entry = read64 m (entry + 16)

-- `struct elf_symbol`
unfoldable pub symbol_at : ℕ → ℕ → ℕ
symbol_at symbols i = add64 symbols (24 * i)

unfoldable pub st_name : Mem → ℕ → ℕ
st_name m symbol = read32 m symbol

unfoldable pub st_info : Mem → ℕ → ℕ
st_info m symbol = m (symbol + 4)

unfoldable pub st_index : Mem → ℕ → ℕ
st_index m symbol = read16 m (symbol + 6)

unfoldable pub st_value : Mem → ℕ → ℕ
st_value m symbol = read64 m (symbol + 8)

-- The loop of `elf_get_shared_object_name`, with `k` rounds left.
unfoldable pub soname_loop : Mem → ℕ → ElfSection → ℕ → ℕ → ℕ
soname_loop m dynamic dynstr zero i = null
soname_loop m dynamic dynstr (suc k) i =
    let rest = soname_loop m dynamic dynstr k (i + 1) in
    let entry = dyn_at dynamic i in
    let soname = add64 dynstr.section (d_val m entry) in
    if d_tag m entry == 14
    then if ltb (add64 dynstr.section dynstr.section_size) soname then null else soname
    else rest

-- The section is NULL, or it ends past the end of the file.
abbrev pub not_inside : ℕ → ℕ → ElfSection → Bool
not_inside start size s =
    (s.section == null) || ltb (add64 start size) (add64 s.section s.section_size)

-- `elf_get_shared_object_name`
unfoldable pub elf_get_shared_object_name : Literals → Mem → ℕ → ℕ → Run ℕ
elf_get_shared_object_name lits m start size =
    if not (elf_verify lits m start size) || elf_verify_shared_object m start then ok null else do
      dynamic ← elf_get_section m start size lits.dynamic
      if not_inside start size dynamic then ok null else do
        dynstr ← elf_get_section m start size lits.dynstr
        if not_inside start size dynstr
            then ok null
            else ok (soname_loop m dynamic.section dynstr (dynamic.section_size / 16) 0)

-- What a relocation stores: where, and which value.
pub record Store : Type 0 where
  pub pointer : ℕ
  pub value : ℕ

-- The sections that `elf_relocate` works with.
pub record Tables : Type 0 where
  pub rela : ElfSection
  pub dynsym : ℕ
  pub dynstr : ℕ
  pub base : ℕ

-- The store of a relocation, and the rest of the loop, unless it is one that cannot be done.
abbrev pub store_and : Option Store → Mem → (Mem → Run (Status × Mem)) → Run (Status × Mem)
store_and none m rest = ok (Status.invalid, m)
store_and (some s) m rest = rest (store64 m s.pointer s.value)

abbrev pub relative : ℕ
relative = 8

-- R_X86_64_JUMP_SLOT, R_X86_64_GLOB_DAT and R_X86_64_64.
abbrev pub is_symbolic : ℕ → Bool
is_symbolic r_type = (r_type == 7) || (r_type == 6) || (r_type == 1)

module _ (symbol_get : ℕ → Run ℕ) where
  -- The store for a symbol, or `none` where `elf_relocate` returns Error_Invalid.
  unfoldable pub symbolic_store : Tables → ℕ → ℕ → ℕ → Mem → Run (Option Store)
  symbolic_store t end r_type entry m =
      let symbol = symbol_at t.dynsym (r_info m entry / 2 ^ 32) in
      let pointer = add64 t.base (r_offset m entry) in
      let internal = add64 t.base (st_value m symbol) in
      let external = symbol_get (add64 t.dynstr (st_name m symbol)) >>= λ value.
      if value == 0 then ok none else ok (some (record { pointer = pointer; value = value })) in
      if ltb end (add64 symbol 24)
      then ok none
      else if st_index m symbol == 0
      then if ltb end (symbol_at t.dynsym (st_name m symbol)) then ok none else external
      else if r_type == 1
      then ok (some (record { pointer = pointer; value = add64 internal (r_addend m entry) }))
      else ok (some (record { pointer = pointer; value = internal }))

  -- The body of the loop of `elf_relocate`, less the store itself. A relocation that is relative is
  -- to the start of the module, others to the base.
  unfoldable pub relocation : Tables → ℕ → ℕ → Mem → ℕ → Run (Option Store)
  relocation t start end m i =
      let entry = rela_at t.rela.section i in
      let r_type = r_info m entry % 2 ^ 32 in
      let here : Store = record {
        pointer = add64 start (r_offset m entry);
        value = add64 t.base (r_addend m entry);
      } in
      if r_type == relative
      then ok (some here)
      else if is_symbolic r_type
      then symbolic_store t end r_type entry m
      else ok none

  -- The loop of `elf_relocate`, with `k` rounds left.
  unfoldable pub relocate_loop : Tables → ℕ → ℕ → ℕ → ℕ → Mem → Run (Status × Mem)
  relocate_loop t start end zero i m = ok (Status.ok, m)
  relocate_loop t start end (suc k) i m = do
    s ← relocation t start end m i
    store_and s m (relocate_loop t start end k (i + 1))

  -- `elf_relocate`. It looks up `.rela.dyn` twice, to the same effect.
  unfoldable pub elf_relocate : Literals → Mem → ℕ → ℕ → Run (Status × Mem)
  elf_relocate lits m start size = do
    dynstr ← elf_get_section m start size lits.dynstr
    if dynstr.section == null then ok (Status.invalid, m) else do
      rela ← elf_get_section m start size lits.rela_dyn
      if rela.section == null then ok (Status.invalid, m) else do
        dynsym ← elf_get_section m start size lits.dynsym
        let base = elf_get_base_address m start size
        let t : Tables = record {
          rela = rela;
          dynsym = dynsym.section;
          dynstr = dynstr.section;
          base = base;
        }
        if dynsym.section == null
            then ok (Status.invalid, m)
            else if base == null
            then ok (Status.invalid, m)
            else relocate_loop t start (add64 start size) (rela.section_size / 24) 0 m

-- What `elf_run_init_fini_helper` knows of the array of functions.
pub record Functions : Type 0 where
  pub funcs : ℕ
  pub funcs_size : ℕ
  pub funcs_size_found : Bool

-- One entry of the dynamic section.
unfoldable pub note_entry : Mem → ℕ → ℕ → ℕ → ℕ → Functions → Functions
note_entry m base dt_array dt_array_size entry f =
    if d_tag m entry == dt_array
    then record f { funcs = add64 base (d_val m entry) }
    else if d_tag m entry == dt_array_size
    then record f { funcs_size = d_val m entry; funcs_size_found = true }
    else f

-- The loop over the dynamic section, with `k` rounds left.
unfoldable pub find_functions : Mem → ℕ → ℕ → ℕ → ℕ → ℕ → ℕ → Functions → Functions
find_functions m base dt_array dt_array_size dynamic zero i f = f
find_functions m base dt_array dt_array_size dynamic (suc k) i f =
    let g = note_entry m base dt_array dt_array_size (dyn_at dynamic i) f in
    let rest = find_functions m base dt_array dt_array_size dynamic k (i + 1) g in
    if not (g.funcs == null) && g.funcs_size_found then g else rest

-- A function of the module is called by its address; it may change memory.
module _ (call : Mem → ℕ → Status × Mem) where
  -- The loop that calls the functions, with `k` rounds left.
  unfoldable pub call_loop : ℕ → ℕ → ℕ → Mem → Status × Mem
  call_loop funcs zero i m = (Status.ok, m)
  call_loop funcs (suc k) i m =
      let called = call m (read64 m (add64 funcs (8 * i))) in
      elim called.0 [ Status.ok ↦ call_loop funcs k (i + 1) called.1 | _ ↦ called ]

  -- `elf_run_init_fini_helper`
  unfoldable pub elf_run_init_fini_helper : Literals → ℕ → ℕ → Mem → ℕ → ℕ → Run (Status × Mem)
  elf_run_init_fini_helper lits dt_array dt_array_size m start size = do
    dynamic ← elf_get_section m start size lits.dynamic
    let base = elf_get_base_address m start size
    let unknown : Functions = record { funcs = null; funcs_size = 0; funcs_size_found = false }
    let f =
        find_functions m base dt_array dt_array_size dynamic.section (dynamic.section_size / 16) 0
          unknown
    if dynamic.section == null
        then ok (Status.invalid, m)
        else if base == null
        then ok (Status.invalid, m)
        else if (f.funcs == null) || not f.funcs_size_found
        then ok (Status.ok, m)
        else if ltb (add64 start size) (add64 f.funcs f.funcs_size)
        then ok (Status.invalid, m)
        else ok (call_loop f.funcs (f.funcs_size / 8) 0 m)

  -- `elf_run_fini`: DT_FINI_ARRAY and DT_FINI_ARRAYSZ.
  unfoldable pub elf_run_fini : Literals → Mem → ℕ → ℕ → Run (Status × Mem)
  elf_run_fini lits = elf_run_init_fini_helper lits 26 28

  -- `elf_run_init`: DT_INIT_ARRAY and DT_INIT_ARRAYSZ.
  unfoldable pub elf_run_init : Literals → Mem → ℕ → ℕ → Run (Status × Mem)
  elf_run_init lits m start size = do
    result ← elf_run_init_fini_helper lits 25 27 m start size
    elim result.0 [
      | Status.ok ↦ ok result
      | _ ↦ do undone ← elf_run_fini lits result.1 start size; ok (result.0, undone.1)
    ]
