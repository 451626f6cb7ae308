-- ===== src/PhysicalAllocator/Alloc.antt =====
-- `physical_alloc` and `physical_free_range` of kernel/core/physical_allocator.c, as operations on the
-- list of free ranges.
use kernel_of_truth.Base.{
  ℕ, ◌+◌, ◌-◌, ◌%◌, ◌<◌, ◌≡◌, ◌≢◌, refl, sym, ◌∙◌, ap, ◌==◌, inl, inr, true, false, if◌then◌else◌,
  Bool-cases, eq→==, ne→==, ℕ_discrete, ltb, bit_and, List, [], ◌∷◌, some, ok, fault, ◌>>=◌, arith,
}
use kernel_of_truth.Types.{add64, sub64}
use kernel_of_truth.PhysicalAllocator.{
  PhysicalPageStack, Pages, invalid_phys_addr, no_phys_bits, physical_alloc, physical_free_range,
  physical_free,
}
use kernel_of_truth.PhysicalAllocator.Ranges.{
  FreeRange, Whole, Chain, StartsNone, IsStack, free_at, bit_and_aligned, bit_and_phys,
}
use kernel_of_truth.PhysicalAllocator.States.{
  pushed, shortened, popped, pushed-IsStack, shortened-IsStack, popped-IsStack,
}

-- The page that is taken from the end of the first range, and what is left.
abbrev pub last_page : FreeRange → ℕ
last_page (address, length) = address + (length - 4096)

abbrev pub without_page : FreeRange → List FreeRange → List FreeRange
without_page (address, length) ranges =
    if length == 4096 then ranges else (address, length - 4096) ∷ ranges

-- The next range is another one.
next_other :
    (memory : ℕ → PhysicalPageStack) (page next : ℕ) (ranges : List FreeRange)
    → Chain memory next ranges
    → StartsNone page ranges
    → page % 4096 ≡ 0
    → (page == next) ≡ false
next_other memory page next [] chain fresh aligned = ground arith
next_other memory page next (range ∷ ranges) chain fresh aligned = ground arith

module _ (s : Pages) (address length : ℕ) (ranges : List FreeRange) where
  -- The last page of a range, and one before the last.
  physical_alloc-popped :
      IsStack s ((address, length) ∷ ranges)
      → length ≡ 4096
      → physical_alloc s ≡ ok (s.physical_page, popped s)
  unfolding physical_alloc
  physical_alloc-popped is last =
      let (e, e', chain) = is.chain in
      let (aligned, whole, some_pages, fits) = is.whole.0 in
      let page = s.physical_page in
      let here : s.pivot ≡ some page = is.pivot ∙ ap some (sym e) in
      let header : (s.memory page).length ≡ 4096 = e' ∙ last in
      let a1 : bit_and page 0xfff ≡ 0 = bit_and_aligned page ∙ rw e aligned in
      let a2 : bit_and page no_phys_bits ≡ 0 = bit_and_phys page (omega arith) in
      let other : (page == (s.memory page).next) ≡ false =
        next_other s.memory page (s.memory page).next ranges chain (rw e is.distinct.0)
          (rw e aligned) in
      rw (here, header, other, a1, a2)
        (elim (Bool-cases ((s.memory page).next == invalid_phys_addr)) [
          | inl end ↦ rw end
          | inr next ↦ rw next
        ])

  physical_alloc-shortened :
      IsStack s ((address, length) ∷ ranges)
      → length ≢ 4096
      → physical_alloc s ≡ ok (address + (length - 4096), shortened (length - 4096) s)
  unfolding physical_alloc
  physical_alloc-shortened is more =
      let (e, e', chain) = is.chain in
      let (aligned, whole, some_pages, fits) = is.whole.0 in
      let page = s.physical_page in
      let here : s.pivot ≡ some page = is.pivot ∙ ap some (sym e) in
      let left : sub64 length 4096 ≡ length - 4096 = omega arith in
      let taken : add64 address (length - 4096) ≡ address + (length - 4096) = omega arith in
      let a0 : bit_and length 0xfff ≡ 0 = bit_and_aligned length ∙ whole in
      let some_left : (length - 4096 == 0) ≡ false = ground arith in
      let phys = address + (length - 4096) in
      let a1 : bit_and phys 0xfff ≡ 0 = bit_and_aligned phys ∙ omega arith in
      let a2 : bit_and phys no_phys_bits ≡ 0 = bit_and_phys phys (omega arith) in
      let other : (phys == address) ≡ false = ground arith in
      rw (here, e', a0, left, some_left, e, taken, a1, a2, other)

-- `physical_alloc` of a stack of free ranges refines the removal of the last page of the first range:
-- it returns that page, and the stack that is left stands for the other pages.
pub physical_alloc-IsStack :
    (s : Pages) (range : FreeRange) (ranges : List FreeRange)
    → IsStack s (range ∷ ranges)
    → (s' : Pages) × (physical_alloc s ≡ ok (last_page range, s'))
      × IsStack s' (without_page range ranges)
physical_alloc-IsStack s (address, length) ranges is = elim (ℕ_discrete length 4096) [
  | yes last ↦ (
    popped s,
    physical_alloc-popped s address length ranges is last
        ∙ ap (λ (p : ℕ). ok (p, popped s)) (is.chain.0 ∙ omega arith),
    rw (eq→== length 4096 last) (popped-IsStack s (address, length) ranges is),
  )
  | no more ↦ (
    shortened (length - 4096) s,
    physical_alloc-shortened s address length ranges is more,
    rw (ne→== length 4096 more) (shortened-IsStack s address length ranges is more),
  )
]

-- `physical_free_range` of a range of whole pages, with no free range at its address, puts the range
-- on the stack.
pub physical_free_range-IsStack :
    (s : Pages) (address length : ℕ) (ranges : List FreeRange)
    → IsStack s ranges
    → Whole (address, length)
    → StartsNone address ranges
    → (physical_free_range address length s ≡ ok (pushed address length s))
      × IsStack (pushed address length s) ((address, length) ∷ ranges)
unfolding physical_free_range
physical_free_range-IsStack s address length ranges is (aligned, whole, some_pages, fits) fresh =
    let a1 : bit_and address 0xfff ≡ 0 = bit_and_aligned address ∙ aligned in
    let a2 : bit_and length 0xfff ≡ 0 = bit_and_aligned length ∙ whole in
    let a3 : bit_and address no_phys_bits ≡ 0 = bit_and_phys address (omega arith) in
    let e : add64 address length ≡ address + length = omega arith in
    let a4 : bit_and (address + length) no_phys_bits ≡ 0 = bit_and_phys (address + length) fits in
    let a5 : ltb 0 length ≡ true = ground arith in
    (
      rw (a1, a2, a3, e, a4, a5),
      pushed-IsStack s address length ranges is (aligned, whole, some_pages, fits) fresh,
    )

free_at-without_page :
    (address length : ℕ) (ranges : List FreeRange) (x : ℕ)
    → length % 4096 ≡ 0
    → 0 < length
    → free_at ((address, length) ∷ ranges) x
      ≡ free_at ((address + (length - 4096), 4096) ∷ without_page (address, length) ranges) x
unfolding free_at
free_at-without_page address length ranges x whole some_pages = elim (ℕ_discrete length 4096) [
  | yes last ↦ rw (eq→== length 4096 last) (ground arith)
  | no more ↦ rw (ne→== length 4096 more) (ground arith)
]

-- `physical_alloc` of a stack that is not empty returns a page, aligned and a physical address, and
-- takes just that page: every byte that was free is free as often as before, in the page or in the
-- stack that is left.
pub physical_alloc-Takes :
    (s : Pages) (range : FreeRange) (ranges : List FreeRange)
    → IsStack s (range ∷ ranges)
    → (page : ℕ) × (s' : Pages) × (left : List FreeRange) × (physical_alloc s ≡ ok (page, s'))
      × IsStack s' left
      × Whole (page, 4096)
      × ((x : ℕ) → free_at (range ∷ ranges) x ≡ free_at ((page, 4096) ∷ left) x)
physical_alloc-Takes s (address, length) ranges is =
    let (aligned, whole, some_pages, fits) = is.whole.0 in
    let (s', run, is') = physical_alloc-IsStack s (address, length) ranges is in
    (
      address + (length - 4096),
      s',
      without_page (address, length) ranges,
      run,
      is',
      (omega arith, refl, omega arith, omega arith),
      λ x. free_at-without_page address length ranges x whole some_pages,
    )

-- A page of physical memory that `physical_free` is given, with no free range at its address, is the
-- one that the next `physical_alloc` returns, and the stack stands for the same ranges again.
pub physical_alloc-physical_free :
    (s : Pages) (page : ℕ) (ranges : List FreeRange)
    → IsStack s ranges
    → Whole (page, 4096)
    → StartsNone page ranges
    → (s' : Pages) × ((physical_free page s >>= physical_alloc) ≡ ok (page, s')) × IsStack s' ranges
unfolding physical_free
physical_alloc-physical_free s page ranges is whole fresh =
    let (run, is') = physical_free_range-IsStack s page 4096 ranges is whole fresh in
    let (s', again, left) = physical_alloc-IsStack (pushed page 4096 s) (page, 4096) ranges is' in
    (s', rw run (again ∙ ap (λ (p : ℕ). ok (p, s')) (omega arith)), left)

-- `physical_alloc` never reports that there are no pages: with an empty stack it reads through
-- `Physical_Page_Stack` when nothing is mapped there.
pub physical_alloc-empty : (s : Pages) → IsStack s [] → physical_alloc s ≡ fault
unfolding physical_alloc
physical_alloc-empty s is = rw is.pivot
