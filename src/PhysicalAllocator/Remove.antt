-- ===== src/PhysicalAllocator/Remove.antt =====
-- `physical_page_remove` of kernel/core/physical_allocator.c.
use kernel_of_truth.Base.{
  ℕ, zero, suc, ◌+◌, ◌%◌, ◌<◌, ◌≡◌, refl, sym, ◌∙◌, ap, ◌==◌, inl, inr, true, false, Bool-cases,
  All, length, List, [], ◌∷◌, Option, some, ◌⊎◌, ok, fault, arith,
}
use kernel_of_truth.Types
use kernel_of_truth.Types.{Status, page_small}
use kernel_of_truth.PhysicalAllocator.{
  PhysicalPageStack, Pages, is_aligned, invalid_phys_addr, map_pivot, remove_loop, unlink,
  physical_page_remove,
}
use kernel_of_truth.PhysicalAllocator.Ranges.{
  FreeRange, Whole, Chain, StartsNone, IsStack, is_aligned-page,
}

-- A page that is found is not removed: its header is read when nothing is mapped.
unlink_faults : (original current : ℕ) (s : Pages) → unlink original current s ≡ fault
unfolding unlink
unlink_faults original current s = refl

-- Some range of the list starts at the address.
abbrev pub StartsSome : ℕ → List FreeRange → Type 0
StartsSome address [] = ⊥
StartsSome address (range ∷ ranges) = (range.0 ≡ address) ⊎ StartsSome address ranges

-- The status after the loop, when nothing was found.
abbrev not_found : List FreeRange → Status → Status
not_found [] status = status
not_found (range ∷ ranges) status = Types.ok

-- The ranges after the first.
abbrev pub rest_of : List FreeRange → List FreeRange
rest_of [] = []
rest_of (range ∷ ranges) = ranges

module _ (memory : ℕ → PhysicalPageStack) (address : ℕ) (aligned : address % 4096 ≡ 0) where
  -- The test of the loop looks at the second range.
  test_false :
      (next : ℕ) (ranges : List FreeRange)
      → Chain memory next ranges
      → StartsNone address ranges
      → (next == address) ≡ false
  test_false next [] chain fresh = ground arith
  test_false next (range ∷ ranges) chain fresh = ground arith

  current_valid :
      (current : ℕ) (range : FreeRange) (ranges : List FreeRange)
      → Chain memory current (range ∷ ranges)
      → Whole range
      → (current == invalid_phys_addr) ≡ false
  current_valid current range ranges chain whole = ground arith

  current_end : (current : ℕ) → Chain memory current [] → (current == invalid_phys_addr) ≡ true
  current_end current chain = ground arith

rest_of-StartsNone :
    (address : ℕ) (ranges : List FreeRange)
    → StartsNone address ranges
    → StartsNone address (rest_of ranges)
rest_of-StartsNone address [] fresh = fresh
rest_of-StartsNone address (range ∷ ranges) fresh = fresh.1

not_found-ok : (ranges : List FreeRange) → not_found ranges Types.ok ≡ Types.ok
not_found-ok [] = refl
not_found-ok (range ∷ ranges) = refl

remove_loop-absent :
    (fuel address original current : ℕ) (status : Status) (s : Pages) (ranges : List FreeRange)
    → length ranges < fuel
    → Chain s.memory current ranges
    → All Whole ranges
    → address % 4096 ≡ 0
    → StartsNone address (rest_of ranges)
    → remove_loop fuel address original current status s
      ≡ ok (not_found ranges status, map_pivot original s)
unfolding remove_loop
remove_loop-absent zero address original current status s ranges enough chain whole aligned fresh =
    elim enough [ ]
remove_loop-absent (suc fuel) address original current status s [] enough chain whole aligned
      fresh =
    rw (current_end s.memory address aligned current chain)
remove_loop-absent (suc fuel) address original current status s (range ∷ ranges) enough chain whole
      aligned fresh =
    let next = (s.memory current).next in
    rw
      (
        current_valid s.memory address aligned current range ranges chain whole.0,
        test_false s.memory address aligned next ranges chain.2 fresh,
      )
      (remove_loop-absent fuel address original next Types.ok (map_pivot current s) ranges
          (omega arith) chain.2 whole.1 aligned (rest_of-StartsNone address ranges fresh)
        ∙ ap (λ (e : Status). ok (e, map_pivot original s)) (not_found-ok ranges))

-- Past a range that is not the one.
further :
    (memory : ℕ → PhysicalPageStack) (address next : ℕ) (ranges : List FreeRange)
    → Chain memory next ranges
    → (next == address) ≡ false
    → StartsSome address ranges
    → StartsSome address (rest_of ranges)
further memory address next [] chain other starts = elim starts [ ]
further memory address next (range ∷ ranges) chain other (inl here) = ground arith
further memory address next (range ∷ ranges) chain other (inr later) = later

remove_loop-present :
    (fuel address original current : ℕ) (status : Status) (s : Pages) (ranges : List FreeRange)
    → length ranges < fuel
    → Chain s.memory current ranges
    → All Whole ranges
    → address % 4096 ≡ 0
    → StartsSome address (rest_of ranges)
    → remove_loop fuel address original current status s ≡ fault
unfolding remove_loop
remove_loop-present zero address original current status s ranges enough chain whole aligned
      starts =
    elim enough [ ]
remove_loop-present (suc fuel) address original current status s [] enough chain whole aligned
      starts =
    elim starts [ ]
remove_loop-present (suc fuel) address original current status s (range ∷ ranges) enough chain whole
      aligned starts =
    let next = (s.memory current).next in
    let valid = current_valid s.memory address aligned current range ranges chain whole.0 in
    elim (Bool-cases (next == address)) [
      | inl found ↦ rw (valid, found) (unlink_faults original next (map_pivot current s))
      | inr other ↦
          rw (valid, other)
            (remove_loop-present fuel address original next Types.ok (map_pivot current s) ranges
              (omega arith) chain.2 whole.1 aligned
              (further s.memory address next ranges chain.2 other starts))
    ]

module _ (fuel address : ℕ) (s : Pages) (range : FreeRange) (ranges : List FreeRange)
    (is : IsStack s (range ∷ ranges)) (aligned : address % 4096 ≡ 0)
    (enough : length ranges + 1 < fuel) where
  -- `physical_page_remove` does not remove: with an aligned address at which a range other than the
  -- first starts, and fuel for each range, the call faults.
  pub physical_page_remove-StartsSome :
      StartsSome address ranges → physical_page_remove fuel address s ≡ fault
  unfolding physical_page_remove
  physical_page_remove-StartsSome starts =
      let a : is_aligned address page_small ≡ true = is_aligned-page address ∙ rw aligned in
      rw a (
        remove_loop-present fuel address s.physical_page s.physical_page Types.absent s
          (range ∷ ranges) (omega arith) is.chain is.whole aligned starts)

  -- With an aligned address at which no range starts but the first may, and fuel for each range,
  -- `physical_page_remove` returns `Ok` and the stack as it was.
  pub physical_page_remove-StartsNone :
      StartsNone address ranges → physical_page_remove fuel address s ≡ ok (Types.ok, s)
  unfolding physical_page_remove
  physical_page_remove-StartsNone fresh =
      let a : is_aligned address page_small ≡ true = is_aligned-page address ∙ rw aligned in
      rw a (
        remove_loop-absent fuel address s.physical_page s.physical_page Types.absent s
          (range ∷ ranges) (omega arith) is.chain is.whole aligned fresh
        ∙ ap (λ (p : Option ℕ). ok (Types.ok, record s { pivot = p }))
            (ap some is.chain.0 ∙ sym is.pivot))
