-- ===== src/Paging/Index.antt =====
-- `pl4_index` to `pl1_index` and `virt_from_indices`: the fields of an address.
use kernel_of_truth.Base.{
  ℕ, ◌≡◌, ◌∙◌, ap, ◌+◌, ◌*◌, ◌/◌, ◌%◌, ◌^◌, ◌<◌, bit_or, bit_and_mask, bit_or_fields, arith,
}
use kernel_of_truth.Types.{u64_mod}
use kernel_of_truth.Paging.{pl4_index, pl3_index, pl2_index, pl1_index, virt_from_indices}

pub pl4_index-field : (a : ℕ) → pl4_index a ≡ a / 2 ^ 39 % 512
unfolding pl4_index
pl4_index-field a = bit_and_mask 9 (a / 2 ^ 39)

pub pl3_index-field : (a : ℕ) → pl3_index a ≡ a / 2 ^ 30 % 512
unfolding pl3_index
pl3_index-field a = bit_and_mask 9 (a / 2 ^ 30)

pub pl2_index-field : (a : ℕ) → pl2_index a ≡ a / 2 ^ 21 % 512
unfolding pl2_index
pl2_index-field a = bit_and_mask 9 (a / 2 ^ 21)

pub pl1_index-field : (a : ℕ) → pl1_index a ≡ a / 2 ^ 12 % 512
unfolding pl1_index
pl1_index-field a = bit_and_mask 9 (a / 2 ^ 12)

-- The fields do not overlap.
virt_from_indices_sum :
    (i4 i3 i2 i1 : ℕ)
    → i4 < 512
    → i3 < 512
    → i2 < 512
    → i1 < 512
    → virt_from_indices i4 i3 i2 i1 ≡ (((i4 * 512 + i3) * 512 + i2) * 512 + i1) * 2 ^ 12
unfolding virt_from_indices
virt_from_indices_sum i4 i3 i2 i1 h4 h3 h2 h1 =
    let w4 : i4 * 2 ^ 39 % u64_mod ≡ i4 * 2 ^ 39 = omega arith in
    let w3 : i3 * 2 ^ 30 % u64_mod ≡ i3 * 2 ^ 30 = omega arith in
    let w2 : i2 * 2 ^ 21 % u64_mod ≡ i2 * 2 ^ 21 = omega arith in
    let w1 : i1 * 2 ^ 12 % u64_mod ≡ i1 * 2 ^ 12 = omega arith in
    let e3 : bit_or (i4 * 2 ^ 39) (i3 * 2 ^ 30) ≡ (i4 * 512 + i3) * 2 ^ 30 =
      bit_or_fields 39 i4 (i3 * 2 ^ 30) (omega arith) ∙ omega arith in
    let e2 : bit_or ((i4 * 512 + i3) * 2 ^ 30) (i2 * 2 ^ 21)
        ≡ ((i4 * 512 + i3) * 512 + i2) * 2 ^ 21 =
      bit_or_fields 30 (i4 * 512 + i3) (i2 * 2 ^ 21) (omega arith) ∙ omega arith in
    rw (w4, w3, w2, w1, e3, e2)
      (bit_or_fields 21 ((i4 * 512 + i3) * 512 + i2) (i1 * 2 ^ 12) (omega arith) ∙ omega arith)

-- `virt_from_indices` of indices below 512 is an address that has them as its indices, at every
-- level, and it is the start of a page.
pub pl4_index-virt_from_indices :
    (i4 i3 i2 i1 : ℕ)
    → i4 < 512
    → i3 < 512
    → i2 < 512
    → i1 < 512
    → (pl4_index (virt_from_indices i4 i3 i2 i1) ≡ i4)
      × (pl3_index (virt_from_indices i4 i3 i2 i1) ≡ i3)
      × (pl2_index (virt_from_indices i4 i3 i2 i1) ≡ i2)
      × (pl1_index (virt_from_indices i4 i3 i2 i1) ≡ i1)
      × (virt_from_indices i4 i3 i2 i1 % 4096 ≡ 0)
pl4_index-virt_from_indices i4 i3 i2 i1 h4 h3 h2 h1 =
    rw (virt_from_indices_sum i4 i3 i2 i1 h4 h3 h2 h1) (
      pl4_index-field _ ∙ omega arith,
      pl3_index-field _ ∙ omega arith,
      pl2_index-field _ ∙ omega arith,
      pl1_index-field _ ∙ omega arith,
      omega arith,
    )

-- The indices of an address are below 512, and `virt_from_indices` makes the lower 48 bits of the
-- address from them, but for its place in the page.
pub virt_from_indices-pl4_index :
    (a : ℕ)
    → (pl4_index a < 512)
      × (pl3_index a < 512)
      × (pl2_index a < 512)
      × (pl1_index a < 512)
      × (virt_from_indices (pl4_index a) (pl3_index a) (pl2_index a) (pl1_index a) + a % 4096
          ≡ a % 2 ^ 48)
virt_from_indices-pl4_index a =
    rw (pl4_index-field a, pl3_index-field a, pl2_index-field a, pl1_index-field a)
      (
        omega arith,
        omega arith,
        omega arith,
        omega arith,
        ap (λ (t : ℕ). t + a % 4096)
              (virt_from_indices_sum (a / 2 ^ 39 % 512) (a / 2 ^ 30 % 512) (a / 2 ^ 21 % 512)
                (a / 2 ^ 12 % 512) (omega arith) (omega arith) (omega arith) (omega arith))
            ∙ omega arith,
      )
