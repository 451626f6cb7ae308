-- ===== src/Module/Load.antt =====
-- What `module_load` of kernel/core/module.c does with files that are signed and that are not.
use kernel_of_truth.Base.{
  ℕ, ◌≡◌, ◌≢◌, ◌⊎◌, refl, inl, inr, Bool, true, not, ◌||◌, Bool-cases, ◌∷◌, Run, ok, >>=-eq-ok,
  ◌>>=◌, ok_injective, then_branch, else_branch, subst, arith, sym, ◌∙◌, ap, ◌/◌,
}
use kernel_of_truth.Types
use kernel_of_truth.Types.{Status, is_ok, is_ok-eq, u64_mod}
use kernel_of_truth.String.{Mem}
use kernel_of_truth.String.Compare.{Bytes}
use kernel_of_truth.Hashtable.{Key, Table}
use kernel_of_truth.Symbols.{symbol_get}
use kernel_of_truth.Elf.{Literals, null, elf_verify, elf_verify_shared_object}
use kernel_of_truth.Elf.Dynamic.{not_inside, soname_loop, elf_get_shared_object_name, elf_relocate}
use kernel_of_truth.Elf.Sections.{Placed, elf_get_section_returns}
use kernel_of_truth.Module.{
  Module, Loader, module_verify, module_remove_symbols, module_insert_symbols, add_module,
  enter_module, load_named, module_load,
}

-- `elf_get_shared_object_name` returns.
elf_get_shared_object_name_returns :
    (lits : Literals) (m : Mem) (start size : ℕ)
    → Bytes m
    → Placed m lits
    → (name : ℕ) × (elf_get_shared_object_name lits m start size ≡ ok name)
unfolding elf_get_shared_object_name
elf_get_shared_object_name_returns lits m start size bytes placed =
    let (dynamic, e) =
      elf_get_section_returns m start size lits.dynamic 8 bytes placed.dynamic (omega arith) in
    let (dynstr, e') =
      elf_get_section_returns m start size lits.dynstr 7 bytes placed.dynstr (omega arith) in
    elim (Bool-cases (not (elf_verify lits m start size) || elf_verify_shared_object m start)) [
      | inl bad ↦ (null, rw bad refl)
      | inr good ↦ elim (Bool-cases (not_inside start size dynamic)) [
        | inl out ↦ (null, rw (good, e, out) refl)
        | inr inside ↦ elim (Bool-cases (not_inside start size dynstr)) [
          | inl out ↦ (null, rw (good, e, inside, e', out) refl)
          | inr inside' ↦ (
            soname_loop m dynamic.section dynstr (dynamic.section_size / 16) 0,
            rw (good, e, inside, e', inside') refl,
          )
        ]
      ]
    ]

not_ok :
    (verify : Mem → ℕ → ℕ → ℕ → Bool) (magic : ℕ) (m : Mem) (start size : ℕ)
    → module_verify verify magic m start size ≢ Types.ok
    → module_verify verify magic m start size ≡ Types.invalid
unfolding module_verify
not_ok verify magic m start size h = ground arith

module _ ⦃k : Key ℕ⦄ (granted : Bool) (verify : Mem → ℕ → ℕ → ℕ → Bool) (magic : ℕ)
    (lits : Literals) (room : Bool) (start size : ℕ) (st : Loader) where
  -- A file whose signature `module_verify` does not accept is not loaded, and nothing is changed: with
  -- the string literals in memory, `module_load` returns Error_Invalid, with the memory, the symbols
  -- and the list of modules as they were.
  pub module_load-module_verify :
      Bytes st.mem
      → Placed st.mem lits
      → module_verify verify magic st.mem start size ≢ Types.ok
      → module_load granted verify magic lits room start size st ≡ ok (Types.invalid, st)
  unfolding module_load load_named
  module_load-module_verify bytes placed unsigned =
      let e = not_ok verify magic st.mem start size unsigned in
      let (name, e') = elf_get_shared_object_name_returns lits st.mem start size bytes placed in
      elim (Bool-cases (not (elf_verify lits st.mem start size))) [
        | inl bad ↦ rw bad refl
        | inr good ↦ rw (good, e', e) refl
      ]

  -- The list of modules after a call with that status: the new module is in front with Ok, and the
  -- list is as it was with an error.
  abbrev pub Listed : ℕ → Status × Loader → Type 0
  Listed name (Types.ok, st') =
      st'.modules ≡ record { name = name; virtual_start = start; size = size } ∷ st.modules
  Listed name (_, st') = st'.modules ≡ st.modules

  module _ (name : ℕ) where
    new_module : Module
    new_module = record { name = name; virtual_start = start; size = size }

    undone-Listed :
        (call : Run (Table ℕ)) (st' : Loader) (result : Status × Loader)
        → st'.modules ≡ st.modules
        → (call >>= λ t. ok (Types.no_memory, record st' { symbols = t })) ≡ ok result
        → Listed name result
    undone-Listed call st' result same returned =
        let (t, run, last) =
          >>=-eq-ok call (λ t. ok (Types.no_memory, record st' { symbols = t })) returned in
        subst (Listed name) (ok_injective last) same

    add_module-Listed :
        (r : Status × Table ℕ) (m : Mem) (result : Status × Loader)
        → add_module granted lits room new_module r (record st { mem = m }) ≡ ok result
        → Listed name result
    unfolding add_module new_module
    add_module-Listed (Types.ok, t) m result returned = elim (Bool-cases room) [
      | inl e ↦ subst (Listed name) (ok_injective (then_branch _ e returned)) refl
      | inr e ↦
          undone-Listed (module_remove_symbols granted lits m start size t) (record st { mem = m })
            result refl (else_branch _ e returned)
    ]
    add_module-Listed (e, t) m result returned = subst (Listed name) (ok_injective returned) refl

    enter_module-Listed :
        (r : Status × Mem) (result : Status × Loader)
        → enter_module granted lits room new_module r st ≡ ok result
        → Listed name result
    unfolding enter_module
    enter_module-Listed (Types.ok, m) result returned =
        let (inserted, run, last) =
          >>=-eq-ok
            (module_insert_symbols granted lits m new_module.virtual_start new_module.size
              st.symbols)
            (λ r. add_module granted lits room new_module r (record st { mem = m })) returned in
        add_module-Listed inserted m result last
    enter_module-Listed (e, m) result returned = subst (Listed name) (ok_injective returned) refl

  load_named-Listed :
      (name : ℕ) (result : Status × Loader)
      → load_named granted verify magic lits room start size st name ≡ ok result
      → (result ≡ (Types.invalid, st))
        ⊎ ((module_verify verify magic st.mem start size ≡ Types.ok) × Listed name result)
  unfolding load_named new_module
  load_named-Listed name result returned =
      elim (Bool-cases (is_ok (module_verify verify magic st.mem start size))) [
        | inl signed ↦
            let (relocated, run, last) =
              >>=-eq-ok (elf_relocate (symbol_get st.symbols) lits st.mem start size)
                (λ r. enter_module granted lits room (new_module name) r st)
                (then_branch _ signed returned) in
            inr (is_ok-eq _ signed, enter_module-Listed name relocated result last)
        | inr unsigned ↦
            let e = not_ok verify magic st.mem start size (λ q. ground (arith, q, unsigned)) in
            inl (sym (ok_injective (else_branch _ unsigned returned)) ∙ ap (λ s. (s, st)) e)
      ]

  -- Whatever `module_load` returns, either it is Error_Invalid with nothing changed, or the header of
  -- the file and its signature are good, and the module is in the list in front of the old ones with
  -- Ok, while the list is as it was with an error.
  pub module_load-Listed :
      (result : Status × Loader)
      → module_load granted verify magic lits room start size st ≡ ok result
      → (result ≡ (Types.invalid, st))
        ⊎ ((elf_verify lits st.mem start size ≡ true)
            × (module_verify verify magic st.mem start size ≡ Types.ok)
            × (name : ℕ) × Listed name result)
  unfolding module_load
  module_load-Listed result returned = elim (Bool-cases (elf_verify lits st.mem start size)) [
    | inr bad ↦ inl (sym (ok_injective (then_branch _ (ap not bad) returned)))
    | inl good ↦
        let (name, named, rest) =
          >>=-eq-ok (elf_get_shared_object_name lits st.mem start size)
            (load_named granted verify magic lits room start size st)
            (else_branch _ (ap not good) returned) in
        elim (load_named-Listed name result rest) [
          | inl same ↦ inl same
          | inr (signed, listed) ↦ inr (good, signed, name, listed)
        ]
  ]
