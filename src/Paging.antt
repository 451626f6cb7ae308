-- ===== src/Paging.antt =====
-- kernel/arch/x64/paging.c: the page tables of an address space.
-- The tables are reached through a window of the address space, one page for each table (`get_pl4`,
-- `get_pl3`, …), which is entry 256 of the first table, and is that table again. They are functions of
-- their indices here: below the other entries of the first table, distinct tables are distinct pages.
-- What the tables say of an address in the window itself is not in these functions, and neither is
-- the page `Kernel_Pivot_Page`, which `physical_alloc` maps anew and whose mapping is `pivot` of
-- PhysicalAllocator; what is stated of whole address spaces is of the other addresses (`Ordinary`, in
-- Paging/Outside). The flushes of the translation buffer and the changes of CR3 are left out.
-- `physical_alloc` is a supply of pages, and a missing page stands for `invalid_phys_addr`.
pub mod Walk
pub mod Index
pub mod Window
pub mod Mapping
pub mod Outside
pub mod Translate
pub mod Ranges
pub mod Access
pub mod Teardown
use kernel_of_truth.Base.{
  ℕ, zero, suc, ◌+◌, ◌-◌, ◌*◌, ◌/◌, ◌%◌, ◌^◌, ◌==◌, ◌&&◌, ◌||◌, Bool, true, false, not,
  if◌then◌else◌, leb, bit_and, bit_or, List, [], ◌∷◌, Run, ok, panic, ◌>>=◌, ◌>>◌, assert,
}
use kernel_of_truth.Types
use kernel_of_truth.Types.{Status, add64, page_small, u64_mod}

-- `enum memory_attributes`
abbrev pub memory_present : ℕ
memory_present = 1

abbrev pub memory_just_writable : ℕ
memory_just_writable = 2

abbrev pub memory_user_access : ℕ
memory_user_access = 4

abbrev pub memory_no_execute : ℕ
memory_no_execute = 2 ^ 63

abbrev pub memory_writable : ℕ
memory_writable = 2 ^ 63 + 2

-- `~Memory_Permissions_Mask`
abbrev pub address_mask : ℕ
address_mask = 0x7ffffffffffff000

-- `Phys_Addr_Mask` and `free_page_entry`
abbrev pub phys_addr_mask : ℕ
phys_addr_mask = 0x000ffffffffff000

abbrev pub free_page_entry : ℕ
free_page_entry = 0xcccccccccccccc

-- `memory_is_lower_half`
abbrev pub is_lower_half : ℕ → Bool
is_lower_half a = leb a 0x00007fffffffffff

abbrev pub page_entry_to_phys : ℕ → ℕ
page_entry_to_phys entry = bit_and entry phys_addr_mask

-- `pl4_index` to `pl1_index`
unfoldable pub pl4_index : ℕ → ℕ
pl4_index a = bit_and (a / 2 ^ 39) 511

unfoldable pub pl3_index : ℕ → ℕ
pl3_index a = bit_and (a / 2 ^ 30) 511

unfoldable pub pl2_index : ℕ → ℕ
pl2_index a = bit_and (a / 2 ^ 21) 511

unfoldable pub pl1_index : ℕ → ℕ
pl1_index a = bit_and (a / 2 ^ 12) 511

-- `virt_from_indices`
unfoldable pub virt_from_indices : ℕ → ℕ → ℕ → ℕ → ℕ
virt_from_indices i4 i3 i2 i1 =
    let high = bit_or (i4 * 2 ^ 39 % u64_mod) (i3 * 2 ^ 30 % u64_mod) in
    bit_or (bit_or high (i2 * 2 ^ 21 % u64_mod)) (i1 * 2 ^ 12 % u64_mod)

-- The tables of an address space below the entries of the first table but entry 256, each a page of
-- its own, as `physical_alloc` gives each page once; the pages that `physical_alloc` will give, and those that
-- `physical_free` was given, the last one first.
pub record Space : Type 0 where
  pub pl4 : ℕ → ℕ
  pub pl3 : ℕ → ℕ → ℕ
  pub pl2 : ℕ → ℕ → ℕ → ℕ
  pub pl1 : ℕ → ℕ → ℕ → ℕ → ℕ
  pub supply : List ℕ
  pub freed : List ℕ

abbrev pub put {ℓ} : {A : Type ℓ} → (ℕ → A) → ℕ → A → ℕ → A
put f i a j = if j == i then a else f j

abbrev pub is_present : ℕ → Bool
is_present entry = bit_and entry memory_present == 1

-- `is_pl3_present`, `is_pl2_present`, `is_pl1_present` and `is_Memory_Present`
abbrev pub is_pl3_present : Space → ℕ → Bool
is_pl3_present s a = is_present (s.pl4 (pl4_index a))

abbrev pub is_pl2_present : Space → ℕ → Bool
is_pl2_present s a = is_present (s.pl3 (pl4_index a) (pl3_index a))

abbrev pub is_pl1_present : Space → ℕ → Bool
is_pl1_present s a = is_present (s.pl2 (pl4_index a) (pl3_index a) (pl2_index a))

-- The entry of a page, and a store to it.
abbrev pub entry_at : Space → ℕ → ℕ
entry_at s a = s.pl1 (pl4_index a) (pl3_index a) (pl2_index a) (pl1_index a)

abbrev pub is_memory_present : Space → ℕ → Bool
is_memory_present s a = is_present (entry_at s a)

pub set_entry : ℕ → ℕ → Space → Space
set_entry a entry s =
    let i4 = pl4_index a in
    let i3 = pl3_index a in
    let i2 = pl2_index a in
    let level_one = put (s.pl1 i4 i3 i2) (pl1_index a) entry in
    record s { pl1 = put s.pl1 i4 (put (s.pl1 i4) i3 (put (s.pl1 i4 i3) i2 level_one)) }

-- The entry of a table that has been allocated.
abbrev pub table_entry : ℕ → ℕ
table_entry phys =
    bit_or (bit_or (bit_or phys memory_just_writable) memory_user_access) memory_present

-- A table that has been allocated in `page` is entered above, and cleared.
pub with_pl3 : ℕ → ℕ → List ℕ → Space → Space
with_pl3 a page pages s =
    let i4 = pl4_index a in
    record s { pl4 = put s.pl4 i4 (table_entry page); pl3 = put s.pl3 i4 (λ _. 0); supply = pages }

pub with_pl2 : ℕ → ℕ → List ℕ → Space → Space
with_pl2 a page pages s =
    let i4 = pl4_index a in
    let i3 = pl3_index a in
    record s {
      pl3 = put s.pl3 i4 (put (s.pl3 i4) i3 (table_entry page));
      pl2 = put s.pl2 i4 (put (s.pl2 i4) i3 (λ _. 0));
      supply = pages;
    }

pub with_pl1 : ℕ → ℕ → List ℕ → Space → Space
with_pl1 a page pages s =
    let i4 = pl4_index a in
    let i3 = pl3_index a in
    let i2 = pl2_index a in
    record s {
      pl2 = put s.pl2 i4 (put (s.pl2 i4) i3 (put (s.pl2 i4 i3) i2 (table_entry page)));
      pl1 = put s.pl1 i4 (put (s.pl1 i4) i3 (put (s.pl1 i4 i3) i2 (λ _. 0)));
      supply = pages;
    }

-- A call of `physical_alloc` and what is done with the page.
pub with_page : List ℕ → (ℕ → List ℕ → Space) → Space → Status × Space
with_page [] f s = (Types.no_memory, s)
with_page (page ∷ pages) f s = (Types.ok, f page pages)

-- The three steps of `map_page` that allocate a table that is missing.
pub need_pl3 : ℕ → Space → Status × Space
unfolding with_page with_pl3
need_pl3 a s =
    if is_pl3_present s a
    then (Types.ok, s)
    else with_page s.supply (λ page pages. with_pl3 a page pages s) s

pub need_pl2 : ℕ → Space → Status × Space
unfolding with_page with_pl2
need_pl2 a s =
    if is_pl2_present s a
    then (Types.ok, s)
    else with_page s.supply (λ page pages. with_pl2 a page pages s) s

pub need_pl1 : ℕ → Space → Status × Space
unfolding with_page with_pl1
need_pl1 a s =
    if is_pl1_present s a
    then (Types.ok, s)
    else with_page s.supply (λ page pages. with_pl1 a page pages s) s

-- An early return with a status that is not `Ok`.
abbrev pub on_ok : Status × Space → (Space → Status × Space) → Status × Space
on_ok (Types.ok, s) f = f s
on_ok (e, s) f = (e, s)

-- The test that opens `map_page` and `map_update_page`: no page is writable and executable, and
-- user mode has no access to the higher half.
pub is_allowed : ℕ → ℕ → Bool
is_allowed a permissions =
    let writable = not (bit_and permissions memory_writable == 0) in
    let executable = bit_and permissions memory_no_execute == 0 in
    let user = not (bit_and permissions memory_user_access == 0) in
    if writable && executable then false else if not (is_lower_half a) && user then false else true

-- The entry that `map_page` stores.
abbrev pub page_entry : ℕ → ℕ → ℕ
page_entry phys permissions = bit_or (bit_or (bit_and phys address_mask) permissions) memory_present

-- The end of `map_page`, with all tables there.
pub fill_entry : ℕ → ℕ → ℕ → Space → Status × Space
unfolding set_entry
fill_entry a phys permissions s =
    if is_memory_present s a
    then (Types.present, s)
    else (Types.ok, set_entry a (page_entry phys permissions) s)

unfoldable pub map_page : ℕ → ℕ → ℕ → Space → Status × Space
unfolding need_pl3 need_pl2 need_pl1 is_allowed fill_entry
map_page a phys permissions s =
    let mapped =
      on_ok (need_pl3 a s)
        λ s3. on_ok (need_pl2 a s3) λ s2. on_ok (need_pl1 a s2) (fill_entry a phys permissions) in
    if is_allowed a permissions then mapped else (Types.permissions, s)

-- The test for all four levels in `map_update_page` and `virt_to_phys`.
pub is_mapped : Space → ℕ → Bool
is_mapped s a =
    is_pl3_present s a && is_pl2_present s a && is_pl1_present s a && is_memory_present s a

unfoldable pub map_update_page : ℕ → ℕ → Space → Status × Space
unfolding is_allowed is_mapped set_entry
map_update_page a permissions s =
    let updated = set_entry a (page_entry (entry_at s a) permissions) s in
    if not (is_allowed a permissions)
    then (Types.permissions, s)
    else if is_mapped s a
    then (Types.ok, updated)
    else (Types.absent, s)

-- `virt_to_phys`
unfoldable pub virt_to_phys : ℕ → Space → Run ℕ
unfolding is_mapped
virt_to_phys a s = do
  assert (is_mapped s a)
  let phys = bit_and (entry_at s a) address_mask
  assert (not (phys == 0xfff))
  ok phys

-- `unmap_page`: the last level is not tested.
unfoldable pub unmap_page : ℕ → Bool → Space → Space
unfolding set_entry
unmap_page a free_physical s =
    let phys = page_entry_to_phys (entry_at s a) in
    let given = if free_physical then record s { freed = phys ∷ s.freed } else s in
    if is_pl3_present s a && is_pl2_present s a && is_pl1_present s a
    then set_entry a free_page_entry given
    else s

-- `unmap_range`, with `k` pages left
unfoldable pub unmap_range : ℕ → ℕ → Bool → Space → Space
unmap_range zero a free_physical s = s
unmap_range (suc k) a free_physical s =
    unmap_range k (add64 a page_small) free_physical (unmap_page a free_physical s)

-- The end of an iteration of `map_range`: after a failure, the rest of the loop is not run.
abbrev pub count_page : Status × Space → Bool × ℕ × Space → Bool × ℕ × Space
count_page (Types.ok, s') (done, mapped, s'') = (done, suc mapped, s'')
count_page (_, s') rest = (false, 0, s')

-- The loop of `map_range`, with `k` pages left: how many pages it has mapped when it ends.
unfoldable pub map_loop : ℕ → ℕ → ℕ → ℕ → Space → Bool × ℕ × Space
map_loop zero a phys attributes s = (true, 0, s)
map_loop (suc k) a phys attributes s =
    let r = map_page a phys attributes s in
    count_page r (map_loop k (add64 a page_small) (add64 phys page_small) attributes r.1)

-- `map_range`: any failure is reported as `Error_Present`.
unfoldable pub map_range : ℕ → ℕ → ℕ → ℕ → Space → Status × Space
unfolding map_loop unmap_range
map_range a phys count attributes s =
    let (done, mapped, s') = map_loop count a phys attributes s in
    if done then (Types.ok, s') else (Types.present, unmap_range mapped a false s')

-- `paging_update_range`, with `k` pages left
unfoldable pub paging_update_range : ℕ → ℕ → ℕ → Space → Status × Space
paging_update_range zero a attributes s = (Types.ok, s)
paging_update_range (suc k) a attributes s =
    on_ok (map_update_page a attributes s) (paging_update_range k (add64 a page_small) attributes)
