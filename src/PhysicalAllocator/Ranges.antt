-- ===== src/PhysicalAllocator/Ranges.antt =====
-- The stack of kernel/core/physical_allocator.c as a list of free ranges, and what it holds.
use kernel_of_truth.Base.{
  ℕ, ◌+◌, ◌-◌, ◌%◌, ◌^◌, ◌<◌, ◌≡◌, ◌≢◌, sym, ◌∙◌, ap, ◌==◌, ◌&&◌, false, if◌then◌else◌, ltb, leb,
  bit, bit_and, bit_and_mask, bit_and_assoc, bit_and-zero, All, List, [], ◌∷◌, Option, none, some,
  arith,
}
use kernel_of_truth.Types.{page_small}
use kernel_of_truth.PhysicalAllocator.{
  PhysicalPageStack, Pages, invalid_phys_addr, no_phys_bits, is_aligned,
}

-- A free range, by its address and length.
abbrev pub FreeRange : Type 0
FreeRange = ℕ × ℕ

-- A range of whole pages of physical memory.
abbrev pub Whole : FreeRange → Type 0
Whole (address, length) =
    (address % 4096 ≡ 0) × (length % 4096 ≡ 0) × (0 < length) × (address + length < 2 ^ 48)

-- The headers that start at `page` are those of the ranges, in their order.
abbrev pub Chain : (ℕ → PhysicalPageStack) → ℕ → List FreeRange → Type 0
Chain memory page [] = page ≡ invalid_phys_addr
Chain memory page (range ∷ ranges) =
    (page ≡ range.0) × ((memory page).length ≡ range.1) × Chain memory (memory page).next ranges

-- No range of the list starts at the address.
abbrev pub StartsNone : ℕ → List FreeRange → Type 0
StartsNone address = All (λ range. range.0 ≢ address)

abbrev pub Distinct : List FreeRange → Type 0
Distinct [] = Unit
Distinct (range ∷ ranges) = StartsNone range.0 ranges × Distinct ranges

-- What `Physical_Page_Stack` is mapped to.
abbrev pub pivot_of : List FreeRange → Option ℕ
pivot_of [] = none
pivot_of (range ∷ ranges) = some range.0

-- The stack stands for the list: whole ranges with distinct headers, the first one mapped.
pub record IsStack (s : Pages) (ranges : List FreeRange) : Type 0 where
  pub chain : Chain s.memory s.physical_page ranges
  pub whole : All Whole ranges
  pub distinct : Distinct ranges
  pub pivot : s.pivot ≡ pivot_of ranges

-- How often the byte `x` is free.
unfoldable pub free_at : List FreeRange → ℕ → ℕ
free_at [] x = 0
free_at (range ∷ ranges) x = bit (leb range.0 x && ltb x (range.0 + range.1)) + free_at ranges x

-- A write to a header that the chain does not have.
pub Chain-put_header :
    (memory : ℕ → PhysicalPageStack) (address : ℕ) (header : PhysicalPageStack) (page : ℕ)
    (ranges : List FreeRange)
    → StartsNone address ranges
    → Chain memory page ranges
    → Chain (λ p. if p == address then header else memory p) page ranges
Chain-put_header memory address header page [] fresh chain = chain
Chain-put_header memory address header page (range ∷ ranges) fresh chain =
    let other : (page == address) ≡ false = ground arith in
    rw other (
      chain.0,
      chain.1,
      Chain-put_header memory address header (memory page).next ranges fresh.1 chain.2,
    )

-- The assertions on addresses.
pub bit_and_aligned : (n : ℕ) → bit_and n 0xfff ≡ n % 4096
bit_and_aligned n = bit_and_mask 12 n

pub is_aligned-page : (n : ℕ) → is_aligned n page_small ≡ (n % 4096 == 0)
is_aligned-page n = ap (λ k. k == 0) (bit_and_aligned n)

-- A physical address has none of the bits that none has.
pub bit_and_phys : (n : ℕ) → n < 2 ^ 48 → bit_and n no_phys_bits ≡ 0
bit_and_phys n h =
    let low : bit_and n (2 ^ 48 - 1) ≡ n = bit_and_mask 48 n ∙ omega arith in
    ap (λ k. bit_and k no_phys_bits) (sym low)
    ∙ bit_and_assoc n (2 ^ 48 - 1) no_phys_bits
    ∙ bit_and-zero n
