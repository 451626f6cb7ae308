-- ===== src/PhysicalAllocator/States.antt =====
-- The stack of kernel/core/physical_allocator.c after a push, and after a page was taken.
use kernel_of_truth.Base.{
  ℕ, ◌-◌, ◌≡◌, ◌≢◌, refl, ap, ◌==◌, false, if◌then◌else◌, ==_refl, All, List, [], ◌∷◌, none, some,
  arith,
}
use kernel_of_truth.PhysicalAllocator.{PhysicalPageStack, Pages, invalid_phys_addr}
use kernel_of_truth.PhysicalAllocator.Ranges.{
  FreeRange, Whole, Chain, StartsNone, pivot_of, IsStack, Chain-put_header,
}

-- The states after a push, and after a page was taken.
abbrev pub pushed : ℕ → ℕ → Pages → Pages
pushed address length s = record s {
  physical_page = address;
  pivot = some address;
  memory =
      λ p. if p == address then record { next = s.physical_page; length = length } else s.memory p;
}

abbrev pub shortened : ℕ → Pages → Pages
shortened left s =
    let page = s.physical_page in
    let header : PhysicalPageStack = record { next = (s.memory page).next; length = left } in
    record s { memory = λ p. if p == page then header else s.memory p }

abbrev pub popped : Pages → Pages
popped s =
    let next = (s.memory s.physical_page).next in
    record s {
      physical_page = next;
      memory = (shortened 0 s).memory;
      pivot = if next == invalid_phys_addr then none else some next;
    }

-- A push.
pub pushed-IsStack :
    (s : Pages) (address length : ℕ) (ranges : List FreeRange)
    → IsStack s ranges
    → Whole (address, length)
    → StartsNone address ranges
    → IsStack (pushed address length s) ((address, length) ∷ ranges)
pushed-IsStack s address length ranges is whole fresh = record {
  chain = (
    refl,
    ground arith,
    rw (==_refl address)
        (Chain-put_header s.memory address _ s.physical_page ranges fresh is.chain),
  );
  whole = (whole, is.whole);
  distinct = (fresh, is.distinct);
  pivot = refl;
}

-- A range of which a page is left.
pub shortened-IsStack :
    (s : Pages) (address length : ℕ) (ranges : List FreeRange)
    → IsStack s ((address, length) ∷ ranges)
    → length ≢ 4096
    → IsStack (shortened (length - 4096) s) ((address, length - 4096) ∷ ranges)
shortened-IsStack s address length ranges is more =
    let (e, e', chain) = is.chain in
    let ((aligned, whole, some_pages, fits), others) = is.whole in
    record {
      chain = (
        e,
        rw (==_refl s.physical_page) refl,
        rw (==_refl s.physical_page) (
            Chain-put_header s.memory s.physical_page _ (s.memory s.physical_page).next ranges
              (rw e is.distinct.0) chain),
      );
      whole = ((aligned, omega arith, omega arith, omega arith), others);
      distinct = is.distinct;
      pivot = is.pivot;
    }

-- The next range, if there is one.
next_pivot :
    (memory : ℕ → PhysicalPageStack) (next : ℕ) (ranges : List FreeRange)
    → Chain memory next ranges
    → All Whole ranges
    → (if next == invalid_phys_addr then none else some next) ≡ pivot_of ranges
next_pivot memory next [] chain whole = rw chain
next_pivot memory next ((address, length) ∷ ranges) chain whole =
    let other : (next == invalid_phys_addr) ≡ false = ground arith in rw other (ap some chain.0)

pub popped-IsStack :
    (s : Pages) (range : FreeRange) (ranges : List FreeRange)
    → IsStack s (range ∷ ranges)
    → IsStack (popped s) ranges
popped-IsStack s range ranges is =
    let (e, e', chain) = is.chain in
    record {
      chain =
          Chain-put_header s.memory s.physical_page _ (s.memory s.physical_page).next ranges
            (rw e is.distinct.0) chain;
      whole = is.whole.1;
      distinct = is.distinct.1;
      pivot = next_pivot s.memory (s.memory s.physical_page).next ranges chain is.whole.1;
    }
