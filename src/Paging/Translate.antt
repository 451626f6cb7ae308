-- ===== src/Paging/Translate.antt =====
-- `unmap_page` and `virt_to_phys` of kernel/arch/x64/paging.c, by the mapping of every address.
use kernel_of_truth.Base.{
  ℕ, ◌≡◌, sym, ◌∙◌, ap, ◌==◌, inl, inr, Bool, true, false, if◌then◌else◌, Bool-cases, Option, none,
  some, bit_or, bit_and, bit_and-mod, bit_and-bit_or, bit_and_assoc, bit_or-zero, Run, ok, panic,
  arith,
}
use kernel_of_truth.Types
use kernel_of_truth.Types.{Status}
use kernel_of_truth.Paging.{
  Space, entry_at, set_entry, page_entry, map_page, is_mapped, address_mask, virt_to_phys,
  unmap_page,
}
use kernel_of_truth.Paging.Walk.{mapping, mapping-same_page, same_page, SameMapping}
use kernel_of_truth.Paging.Mapping.{map_page-Ok}

-- `unmap_page` of a page whose tables are there: no address of the page is mapped afterwards, and
-- every other is mapped as before. Without the tables, nothing is mapped there and nothing changes.
pub unmap_page-unmaps :
    (a : ℕ) (free_physical : Bool) (s : Space) (b : ℕ)
    → mapping (unmap_page a free_physical s) b ≡ (if same_page a b then none else mapping s b)
unfolding unmap_page mapping set_entry
unmap_page-unmaps a true s b = ground arith
unmap_page-unmaps a false s b = ground arith

-- `virt_to_phys` reads the mapping. What is left of an entry is never an invalid address.
found : Option ℕ → Run ℕ
found none = panic
found (some entry) = ok (bit_and entry address_mask)

virt_to_phys-mapping : (a : ℕ) (s : Space) → virt_to_phys a s ≡ found (mapping s a)
unfolding virt_to_phys mapping found
virt_to_phys-mapping a s =
    let aligned : (bit_and (entry_at s a) address_mask == 0xfff) ≡ false =
      ground (arith, bit_and-mod (entry_at s a) address_mask) in
    elim (Bool-cases (is_mapped s a)) [ inl here ↦ rw (here, aligned) | inr not_here ↦ rw not_here ]

-- What `map_page` stores, without the attributes.
page_entry-address :
    (phys permissions : ℕ)
    → bit_and permissions address_mask ≡ 0
    → bit_and (page_entry phys permissions) address_mask ≡ bit_and phys address_mask
page_entry-address phys permissions h =
    rw
      (
        bit_and-bit_or (bit_or (bit_and phys address_mask) permissions) 1 address_mask,
        bit_and-bit_or (bit_and phys address_mask) permissions address_mask,
        bit_and_assoc phys address_mask address_mask,
        h,
        bit_or-zero (bit_and phys address_mask),
      )
      (bit_or-zero (bit_and phys address_mask))

same_page_refl : (a : ℕ) → same_page a a ≡ true
same_page_refl a = ground arith

-- When `map_page` of an address returns `Ok` and the permissions are attributes only,
-- `virt_to_phys` returns the physical address that was mapped, without attributes.
pub virt_to_phys-map_page :
    (a phys permissions : ℕ) (s : Space)
    → bit_and permissions address_mask ≡ 0
    → (map_page a phys permissions s).0 ≡ Types.ok
    → virt_to_phys a (map_page a phys permissions s).1 ≡ ok (bit_and phys address_mask)
unfolding found
virt_to_phys-map_page a phys permissions s h e =
    virt_to_phys-mapping a (map_page a phys permissions s).1
    ∙ rw ((map_page-Ok a phys permissions s e).1 a, same_page_refl a)
        (ap ok (page_entry-address phys permissions h))

-- After a `map_page` that returns `Ok`, `unmap_page` of the same address makes every address mapped
-- as it was before both.
pub unmap_page-map_page :
    (a phys permissions : ℕ) (free_physical : Bool) (s : Space)
    → (map_page a phys permissions s).0 ≡ Types.ok
    → SameMapping s (unmap_page a free_physical (map_page a phys permissions s).1)
unmap_page-map_page a phys permissions free_physical s e b =
    let fresh = map_page-Ok a phys permissions s e in
    unmap_page-unmaps a free_physical (map_page a phys permissions s).1 b
    ∙ elim (Bool-cases (same_page a b)) [
      | inl same ↦ rw same (sym (mapping-same_page a b s same ∙ fresh.0))
      | inr other ↦ rw other (fresh.1 b ∙ rw other)
    ]
