-- ===== src/Paging/Outside.antt =====
-- `map_page` and `map_range` of kernel/arch/x64/paging.c, for the addresses that no table is seen at.
-- Entry 256 of the first table is that table itself: an address below it, of the window, is a page of
-- tables, and changes with them. The page `Kernel_Pivot_Page` is `pivot` here: `physical_alloc` maps
-- another page there when it has taken the last one of a range. At all other addresses the tables are pages of
-- their own, as `Space` has them.
use kernel_of_truth.Base.{ℕ, ◌≡◌, ◌≢◌, false, true, if◌then◌else◌, none, some, [], ◌∙◌, arith}
use kernel_of_truth.Types
use kernel_of_truth.Types.{Status}
use kernel_of_truth.Paging.{Space, pl4_index, is_allowed, page_entry, map_page, map_range}
use kernel_of_truth.Paging.Walk.{mapping, same_page}
use kernel_of_truth.Paging.Mapping.{Maps, mapped, forbidden, taken, exhausted, map_page-Maps}
use kernel_of_truth.Paging.Ranges.{
  in_range, range_mapping, MapsRange, whole, rolled_back, map_range-MapsRange,
}

-- The address is neither in the window on the tables nor in the page at `pivot`.
abbrev pub Ordinary : ℕ → ℕ → Type 0
Ordinary pivot a = (pl4_index a ≢ 256) × (same_page pivot a ≡ false)

-- All ordinary addresses are mapped as before.
abbrev pub SameOrdinary : ℕ → Space → Space → Type 0
SameOrdinary pivot s s' = (b : ℕ) → Ordinary pivot b → mapping s' b ≡ mapping s b

module _ (pivot a phys permissions : ℕ) (s : Space) where
  -- What `map_page` of an ordinary address may do, by the status that it returns.
  pub data MapsOrdinary : Status × Space → Type 0 where
    entered :
        {s' : Space}
        → is_allowed a permissions ≡ true
        → mapping s a ≡ none
        → mapping s' a ≡ some (page_entry phys permissions)
        → ((b : ℕ)
            → Ordinary pivot b
            → mapping s' b
              ≡ (if same_page a b then some (page_entry phys permissions) else mapping s b))
        → MapsOrdinary (Types.ok, s')
    not_allowed : is_allowed a permissions ≡ false → MapsOrdinary (Types.permissions, s)
    already :
        {s' : Space}
        → mapping s a ≢ none
        → SameOrdinary pivot s s'
        → MapsOrdinary (Types.present, s')
    out_of_pages :
        {s' : Space}
        → mapping s a ≡ none
        → s'.supply ≡ []
        → SameOrdinary pivot s s'
        → MapsOrdinary (Types.no_memory, s')

  Maps-MapsOrdinary : (r : Status × Space) → Maps a phys permissions s r → MapsOrdinary r
  Maps-MapsOrdinary (status, s') (mapped allowed absent new) =
      entered allowed absent (new a ∙ ground arith) (λ b ordinary. new b)
  Maps-MapsOrdinary (status, s') (forbidden no_right) = not_allowed no_right
  Maps-MapsOrdinary (status, s') (taken held same) = already held (λ b ordinary. same b)
  Maps-MapsOrdinary (status, s') (exhausted absent out same) =
      out_of_pages absent out (λ b ordinary. same b)

  -- `map_page` of an ordinary address refines its specification: with `Ok` the address was not mapped,
  -- and its page, and no other ordinary one, is mapped to the page entry of `phys` afterwards; with
  -- `Error_Permissions` nothing has been done; with `Error_Present` the address was mapped and with
  -- `Error_No_Memory` it was not and there are no pages left, and in both cases every ordinary address
  -- is mapped as before.
  pub map_page-MapsOrdinary : Ordinary pivot a → MapsOrdinary (map_page a phys permissions s)
  map_page-MapsOrdinary ordinary =
      Maps-MapsOrdinary (map_page a phys permissions s) (map_page-Maps a phys permissions s)

module _ (pivot k a phys attributes : ℕ) (s : Space) where
  -- What `map_range` of ordinary pages may do, by the status that it returns.
  pub data MapsOrdinaryRange : Status × Space → Type 0 where
    all_entered :
        {s' : Space}
        → ((b : ℕ) → in_range k a b ≡ true → mapping s b ≡ none)
        → ((b : ℕ)
            → Ordinary pivot b
            → mapping s' b ≡ range_mapping k a phys attributes (mapping s) b)
        → MapsOrdinaryRange (Types.ok, s')
    none_entered : {s' : Space} → SameOrdinary pivot s s' → MapsOrdinaryRange (Types.present, s')

  MapsRange-Ordinary :
      (r : Status × Space) → MapsRange k a phys attributes s r → MapsOrdinaryRange r
  MapsRange-Ordinary (status, s') (whole fresh new) =
      all_entered (λ b here. fresh b ∙ rw here) (λ b ordinary. new b)
  MapsRange-Ordinary (status, s') (rolled_back same) = none_entered (λ b ordinary. same b)

  -- `map_range` of ordinary pages maps all of them or none: with `Ok` no page of the range was mapped
  -- and each has been entered in turn, all other ordinary addresses being mapped as before; with the
  -- only other status, `Error_Present`, every ordinary address is mapped as before, whichever page has
  -- failed and for whatever reason.
  pub map_range-MapsOrdinaryRange :
      ((b : ℕ) → in_range k a b ≡ true → Ordinary pivot b)
      → MapsOrdinaryRange (map_range a phys k attributes s)
  map_range-MapsOrdinaryRange ordinary =
      MapsRange-Ordinary (map_range a phys k attributes s)
        (map_range-MapsRange a phys k attributes s)
