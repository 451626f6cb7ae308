-- ===== src/Paging/Access.antt =====
-- What the tests of `map_page` and `map_update_page` guarantee of all pages.
use kernel_of_truth.Base.{
  ℕ, ◌≡◌, ◌≢◌, ◌⊎◌, inl, inr, refl, sym, ◌∙◌, ◌-◌, ◌^◌, ◌<◌, ◌≤◌, Bool, true, false, if◌then◌else◌,
  Bool-cases, leb, none, some, bit_and, bit_or, bit_and_assoc, bit_and-bit_or, bit_and-zero,
  bit_or-zero, zero-bit_or, arith,
}
use kernel_of_truth.Types
use kernel_of_truth.Types.{Status}
use kernel_of_truth.Paging.{
  Space, pl4_index, is_mapped, entry_at, is_lower_half, is_allowed, address_mask, memory_writable,
  memory_no_execute, memory_user_access, page_entry, map_page, map_update_page, unmap_page,
}
use kernel_of_truth.Paging.Walk.{
  is_mapped-HasTables, mapping, same_page, mapping-set_entry, present_or,
}
use kernel_of_truth.Paging.Index.{pl4_index-field}
use kernel_of_truth.Paging.Outside.{
  Ordinary, MapsOrdinary, entered, not_allowed, already, out_of_pages, map_page-MapsOrdinary,
}
use kernel_of_truth.Paging.Translate.{unmap_page-unmaps}

-- A mask that has no bit of an address and is not the bit `memory_present` sees the permissions.
page_entry-mask :
    (phys permissions mask : ℕ)
    → bit_and address_mask mask ≡ 0
    → bit_and 1 mask ≡ 0
    → bit_and (page_entry phys permissions) mask ≡ bit_and permissions mask
page_entry-mask phys permissions mask h h' =
    rw
      (
        bit_and-bit_or (bit_or (bit_and phys address_mask) permissions) 1 mask,
        bit_and-bit_or (bit_and phys address_mask) permissions mask,
        bit_and_assoc phys address_mask mask,
        h,
        h',
        bit_and-zero phys,
        zero-bit_or (bit_and permissions mask),
      )
      (bit_or-zero (bit_and permissions mask))

-- A stored entry is allowed where its permissions are.
page_entry-is_allowed :
    (a phys permissions : ℕ) → is_allowed a (page_entry phys permissions) ≡ is_allowed a permissions
unfolding is_allowed
page_entry-is_allowed a phys permissions = rw (
  page_entry-mask phys permissions memory_writable refl refl,
  page_entry-mask phys permissions memory_no_execute refl refl,
  page_entry-mask phys permissions memory_user_access refl refl,
)

-- A canonical address repeats its bit 47 in all bits above.
unfoldable pub Canonical : ℕ → Type 0
Canonical a = (a < 2 ^ 47) ⊎ ((2 ^ 64 - 2 ^ 47 ≤ a) × (a < 2 ^ 64))

half : (a : ℕ) → Canonical a → is_lower_half a ≡ leb (pl4_index a) 255
unfolding Canonical
half a (inl low) = ground (arith, pl4_index-field a)
half a (inr high) = ground (arith, pl4_index-field a)

-- The addresses of one page are in one half.
same_page-is_allowed :
    (a b entry : ℕ)
    → Canonical a
    → Canonical b
    → same_page a b ≡ true
    → is_allowed b entry ≡ is_allowed a entry
unfolding is_allowed
same_page-is_allowed a b entry ca cb same =
    let e : is_lower_half b ≡ is_lower_half a = half b cb ∙ ground arith ∙ sym (half a ca) in rw e

-- What `map_update_page` may do, by the status that it returns.
pub data Updates (a permissions : ℕ) (s : Space) : Status × Space → Type 0 where
  updated :
      {s' : Space}
      → {entry : ℕ} → is_allowed a permissions ≡ true
      → mapping s a ≡ some entry
      → ((b : ℕ)
          → mapping s' b
            ≡ (if same_page a b then some (page_entry entry permissions) else mapping s b))
      → Updates a permissions s (Types.ok, s')
  denied : is_allowed a permissions ≡ false → Updates a permissions s (Types.permissions, s)
  absent : mapping s a ≡ none → Updates a permissions s (Types.absent, s)

-- `map_update_page` refines its specification: with `Ok` the address was mapped, its page has the
-- same address with the new permissions, and every other address is mapped as before; with
-- `Error_Permissions` the permissions are not allowed there, with `Error_Absent` the address was
-- not mapped, and in both cases nothing has been done.
pub map_update_page-Updates :
    (a permissions : ℕ) (s : Space) → Updates a permissions s (map_update_page a permissions s)
unfolding map_update_page mapping
map_update_page-Updates a permissions s = elim (Bool-cases (is_allowed a permissions)) [
  | inr refused ↦ rw refused (denied refused)
  | inl allowed ↦ elim (Bool-cases (is_mapped s a)) [
    | inr missing ↦ rw (allowed, missing) (absent (rw missing))
    | inl there ↦
        rw (allowed, there)
          (updated {entry = entry_at s a} allowed (rw there) (λ b.
            mapping-set_entry a (page_entry (entry_at s a) permissions) s b
              (is_mapped-HasTables a s there)
            ∙ rw (present_or (bit_or (bit_and (entry_at s a) address_mask) permissions))))
  ]
]

-- What the attributes of an entry do not allow: no page is writable and executable, and none in the
-- higher half is accessible to user mode.
abbrev pub Protected : ℕ → ℕ → Type 0
Protected b entry =
    ((bit_and entry memory_writable ≡ 0) ⊎ (bit_and entry memory_no_execute ≢ 0))
    × ((is_lower_half b ≡ true) ⊎ (bit_and entry memory_user_access ≡ 0))

is_allowed-Protected : (b entry : ℕ) → is_allowed b entry ≡ true → Protected b entry
unfolding is_allowed
is_allowed-Protected b entry allowed = (ground arith, ground arith)

-- Every page that is mapped at an ordinary address is protected.
unfoldable pub Guarded : ℕ → Space → Type 0
Guarded pivot s =
    (b entry : ℕ) → Canonical b → Ordinary pivot b → mapping s b ≡ some entry → Protected b entry

module _ (pivot : ℕ) (s s' : Space) (a phys permissions : ℕ) where
  -- A page of allowed permissions is entered.
  entered-Guarded :
      Canonical a
      → is_allowed a permissions ≡ true
      → Guarded pivot s
      → ((b : ℕ)
          → Ordinary pivot b
          → mapping s' b
            ≡ (if same_page a b then some (page_entry phys permissions) else mapping s b))
      → Guarded pivot s'
  unfolding Guarded
  entered-Guarded ca allowed guarded new b entry cb ob here = elim (Bool-cases (same_page a b)) [
    | inl same ↦
        let e : entry ≡ page_entry phys permissions = ground (arith, new b ob, here, same) in
        rw e (
          is_allowed-Protected b (page_entry phys permissions) (
            same_page-is_allowed a b (page_entry phys permissions) ca cb same
            ∙ page_entry-is_allowed a phys permissions
            ∙ allowed))
    | inr other ↦ guarded b entry cb ob (ground (arith, new b ob, here, other))
  ]

module _ (pivot : ℕ) where
  map_page-Guarded :
      (s : Space) (a phys permissions : ℕ) (r : Status × Space)
      → Canonical a
      → Guarded pivot s
      → MapsOrdinary pivot a phys permissions s r
      → Guarded pivot r.1
  unfolding Guarded
  map_page-Guarded s a phys permissions (status, s') ca guarded (entered allowed _ _ new) =
      entered-Guarded pivot s s' a phys permissions ca allowed guarded new
  map_page-Guarded s a phys permissions (status, s') ca guarded (not_allowed _) = guarded
  map_page-Guarded s a phys permissions (status, s') ca guarded (already _ same) =
      λ b entry cb ob here. guarded b entry cb ob (sym (same b ob) ∙ here)
  map_page-Guarded s a phys permissions (status, s') ca guarded (out_of_pages _ _ same) =
      λ b entry cb ob here. guarded b entry cb ob (sym (same b ob) ∙ here)

  map_update_page-Guarded :
      (s : Space) (a permissions : ℕ) (r : Status × Space)
      → Canonical a
      → Guarded pivot s
      → Updates a permissions s r
      → Guarded pivot r.1
  map_update_page-Guarded s a permissions (status, s') ca guarded (updated allowed _ new) =
      entered-Guarded pivot s s' a _ permissions ca allowed guarded (λ b ob. new b)
  map_update_page-Guarded s a permissions (status, s') ca guarded (denied _) = guarded
  map_update_page-Guarded s a permissions (status, s') ca guarded (absent _) = guarded

  unmap_page-Guarded :
      (s : Space) (a : ℕ) (free_physical : Bool)
      → Guarded pivot s
      → Guarded pivot (unmap_page a free_physical s)
  unfolding Guarded
  unmap_page-Guarded s a free_physical guarded b entry cb ob here =
      guarded b entry cb ob (ground (arith, unmap_page-unmaps a free_physical s b, here))

  -- The address spaces that a sequence of calls makes of `s`, with ordinary canonical addresses.
  pub data Reaches (s : Space) : Space → Type 0 where
    start : Reaches s s
    map :
        {s' : Space}
        → Reaches s s'
        → (a phys permissions : ℕ) → Canonical a
        → Ordinary pivot a
        → Reaches s (map_page a phys permissions s').1
    update :
        {s' : Space}
        → Reaches s s'
        → (a permissions : ℕ) → Canonical a
        → Ordinary pivot a
        → Reaches s (map_update_page a permissions s').1
    unmap :
        {s' : Space}
        → Reaches s s'
        → (a : ℕ) (free_physical : Bool) → Ordinary pivot a
        → Reaches s (unmap_page a free_physical s')

  -- However `map_page`, `map_update_page` and `unmap_page` are called on canonical addresses outside of
  -- the window on the tables and of the page at `pivot`, with whatever permissions: no page at such an
  -- address becomes writable and executable, and none of the higher half becomes accessible to user
  -- mode, if none was at the start.
  pub Reaches-Guarded : (s s' : Space) → Guarded pivot s → Reaches s s' → Guarded pivot s'
  Reaches-Guarded s s' guarded start = guarded
  Reaches-Guarded s s' guarded (map {s' = s1} before a phys permissions ca oa) =
      map_page-Guarded s1 a phys permissions _ ca (Reaches-Guarded s s1 guarded before)
        (map_page-MapsOrdinary pivot a phys permissions s1 oa)
  Reaches-Guarded s s' guarded (update {s' = s1} before a permissions ca oa) =
      map_update_page-Guarded s1 a permissions _ ca (Reaches-Guarded s s1 guarded before)
        (map_update_page-Updates a permissions s1)
  Reaches-Guarded s s' guarded (unmap {s' = s1} before a free_physical oa) =
      unmap_page-Guarded s1 a free_physical (Reaches-Guarded s s1 guarded before)
