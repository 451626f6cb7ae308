-- ===== src/Paging/Teardown.antt =====
-- `page_table_fini` of kernel/arch/x64/paging.c: the memory of an address space is given back.
-- The switches of CR3 and the `kfree` of the handle are left out.
use kernel_of_truth.Base.{
  ℕ, zero, suc, ◌+◌, ◌^◌, ◌<◌, ◌≤◌, ◌≡◌, ◌⊎◌, ap, true, if◌then◌else◌, inl, inr, ℕ_discrete, some,
  List, [], ◌∷◌, ◌++◌, arith,
}
use kernel_of_truth.Paging.{
  Space, page_entry_to_phys, is_present, is_mapped, entry_at, pl4_index, pl3_index, pl2_index,
  pl1_index,
}
use kernel_of_truth.Paging.Walk.{mapping, is_mapped-HasTables}
use kernel_of_truth.Paging.Index.{
  pl4_index-field, pl3_index-field, pl2_index-field, pl1_index-field,
}

-- A loop of `page_table_fini` over the `k` entries from `i` on: the pages given back.
pub free_entries : ℕ → ℕ → (ℕ → List ℕ) → List ℕ
free_entries zero i body = []
free_entries (suc k) i body = body i ++ free_entries k (suc i) body

-- The body of such a loop: what is below the entry, then the page of the entry itself.
abbrev pub free_entry : ℕ → List ℕ → List ℕ
free_entry entry below = if is_present entry then below ++ (page_entry_to_phys entry ∷ []) else []

abbrev pub free_pl1 : Space → ℕ → ℕ → ℕ → List ℕ
free_pl1 s i4 i3 i2 = free_entries 512 0 (λ i1. free_entry (s.pl1 i4 i3 i2 i1) [])

abbrev pub free_pl2 : Space → ℕ → ℕ → List ℕ
free_pl2 s i4 i3 = free_entries 512 0 (λ i2. free_entry (s.pl2 i4 i3 i2) (free_pl1 s i4 i3 i2))

abbrev pub free_pl3 : Space → ℕ → List ℕ
free_pl3 s i4 = free_entries 512 0 (λ i3. free_entry (s.pl3 i4 i3) (free_pl2 s i4 i3))

-- `page_table_fini`, with the physical address of the table: the calls of `physical_free`.
pub page_table_fini : ℕ → Space → List ℕ
page_table_fini physical_address s =
    free_entries 256 0 (λ i4. free_entry (s.pl4 i4) (free_pl3 s i4))
    ++ (page_entry_to_phys physical_address ∷ [])

-- The page is among those given back.
pub Among : ℕ → List ℕ → Type 0
Among page [] = ⊥
Among page (p ∷ ps) = (p ≡ page) ⊎ Among page ps

Among-left : (page : ℕ) (ps qs : List ℕ) → Among page ps → Among page (ps ++ qs)
unfolding Among
Among-left page [] qs there = elim there [ ]
Among-left page (p ∷ ps) qs (inl here) = inl here
Among-left page (p ∷ ps) qs (inr later) = inr (Among-left page ps qs later)

Among-right : (page : ℕ) (ps qs : List ℕ) → Among page qs → Among page (ps ++ qs)
unfolding Among
Among-right page [] qs there = there
Among-right page (p ∷ ps) qs there = inr (Among-right page ps qs there)

Among-free_entries :
    (page j k i : ℕ) (body : ℕ → List ℕ)
    → i ≤ j
    → j < i + k
    → Among page (body j)
    → Among page (free_entries k i body)
unfolding free_entries Among
Among-free_entries page j zero i body from upto there = omega arith
Among-free_entries page j (suc k) i body from upto there = elim (ℕ_discrete i j) [
  | yes first ↦ Among-left page (body i) (free_entries k (suc i) body) (rw first there)
  | no later ↦
      Among-right page (body i) (free_entries k (suc i) body)
        (Among-free_entries page j k (suc i) body (omega arith) (omega arith) there)
]

-- What is below an entry that is present, and the page of the entry.
Among-free_entry :
    (page entry : ℕ) (below : List ℕ)
    → is_present entry ≡ true
    → Among page below
    → Among page (free_entry entry below)
Among-free_entry page entry below present there =
    rw present (Among-left page below (page_entry_to_phys entry ∷ []) there)

Among-own :
    (page entry : ℕ)
    → is_present entry ≡ true
    → page_entry_to_phys entry ≡ page
    → Among page (free_entry entry [])
unfolding Among
Among-own page entry present own = rw present (inl own)

is_mapped-is_present : (a : ℕ) (s : Space) → is_mapped s a ≡ true → is_present (entry_at s a) ≡ true
unfolding is_mapped
is_mapped-is_present a s here = ground arith

-- Every page of the lower half that the address space maps is among the pages that `page_table_fini` gives
-- back.
pub page_table_fini-Among :
    (physical_address a entry : ℕ) (s : Space)
    → a < 2 ^ 47
    → mapping s a ≡ some entry
    → Among (page_entry_to_phys entry) (page_table_fini physical_address s)
unfolding page_table_fini mapping
page_table_fini-Among physical_address a entry s low mapped =
    let here : is_mapped s a ≡ true = ground arith in
    let tables = is_mapped-HasTables a s here in
    let same : entry_at s a ≡ entry = ground arith in
    let present : is_present (entry_at s a) ≡ true = is_mapped-is_present a s here in
    let page = page_entry_to_phys entry in
    let level_one : Among page (free_pl1 s (pl4_index a) (pl3_index a) (pl2_index a)) =
      Among-free_entries page (pl1_index a) 512 0 _ (omega arith) (omega (arith, pl1_index-field a))
        (Among-own page _ present (ap page_entry_to_phys same)) in
    let level_two : Among page (free_pl2 s (pl4_index a) (pl3_index a)) =
      Among-free_entries page (pl2_index a) 512 0 _ (omega arith) (omega (arith, pl2_index-field a))
        (Among-free_entry page _ _ tables.2 level_one) in
    let level_three : Among page (free_pl3 s (pl4_index a)) =
      Among-free_entries page (pl3_index a) 512 0 _ (omega arith) (omega (arith, pl3_index-field a))
        (Among-free_entry page _ _ tables.1 level_two) in
    Among-left page _ _ (
      Among-free_entries page (pl4_index a) 256 0 _ (omega arith) (omega (arith, pl4_index-field a))
        (Among-free_entry page _ _ tables.0 level_three))
