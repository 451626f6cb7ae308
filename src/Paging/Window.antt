-- ===== src/Paging/Window.antt =====
-- `get_pl4` to `get_pl1` of kernel/arch/x64/paging.c: where the tables of the current address space
-- are seen. Entry 256 of the last table points to that table itself.
use kernel_of_truth.Base.{ℕ, ◌≡◌, ◌∙◌, ◌+◌, ◌*◌, ◌%◌, ◌^◌, ◌<◌, bit_or, bit_or_fields, arith}
use kernel_of_truth.Types.{u64_mod}

-- `get_pl4`
abbrev pub get_pl4 : ℕ
get_pl4 = 0xffff804020100000

-- `get_pl3_index`, `get_pl2_index` and `get_pl1_index`
unfoldable pub get_pl3_index : ℕ → ℕ
get_pl3_index i4 = bit_or 0xffff804020000000 (i4 * 2 ^ 12 % u64_mod)

unfoldable pub get_pl2_index : ℕ → ℕ → ℕ
get_pl2_index i4 i3 =
    bit_or (bit_or 0xffff804000000000 (i4 * 2 ^ 21 % u64_mod)) (i3 * 2 ^ 12 % u64_mod)

unfoldable pub get_pl1_index : ℕ → ℕ → ℕ → ℕ
get_pl1_index i4 i3 i2 =
    bit_or (bit_or (bit_or 0xffff800000000000 (i4 * 2 ^ 30 % u64_mod)) (i3 * 2 ^ 21 % u64_mod))
      (i2 * 2 ^ 12 % u64_mod)

-- The fields of a window do not overlap.
get_pl1_index_sum :
    (i4 i3 i2 : ℕ)
    → i4 < 512
    → i3 < 512
    → i2 < 512
    → get_pl1_index i4 i3 i2 ≡ 0xffff800000000000 + ((i4 * 512 + i3) * 512 + i2) * 2 ^ 12
unfolding get_pl1_index
get_pl1_index_sum i4 i3 i2 h4 h3 h2 =
    let w4 : i4 * 2 ^ 30 % u64_mod ≡ i4 * 2 ^ 30 = omega arith in
    let w3 : i3 * 2 ^ 21 % u64_mod ≡ i3 * 2 ^ 21 = omega arith in
    let w2 : i2 * 2 ^ 12 % u64_mod ≡ i2 * 2 ^ 12 = omega arith in
    let e4 : bit_or 0xffff800000000000 (i4 * 2 ^ 30) ≡ (0x1ffff00 * 512 + i4) * 2 ^ 30 =
      bit_or_fields 39 0x1ffff00 (i4 * 2 ^ 30) (omega arith) ∙ omega arith in
    let e3 : bit_or ((0x1ffff00 * 512 + i4) * 2 ^ 30) (i3 * 2 ^ 21)
        ≡ ((0x1ffff00 * 512 + i4) * 512 + i3) * 2 ^ 21 =
      bit_or_fields 30 (0x1ffff00 * 512 + i4) (i3 * 2 ^ 21) (omega arith) ∙ omega arith in
    rw (w4, w3, w2, e4, e3)
      (bit_or_fields 21 ((0x1ffff00 * 512 + i4) * 512 + i3) (i2 * 2 ^ 12) (omega arith)
        ∙ omega arith)

get_pl2_index_sum :
    (i4 i3 : ℕ)
    → i4 < 512
    → i3 < 512
    → get_pl2_index i4 i3 ≡ 0xffff804000000000 + (i4 * 512 + i3) * 2 ^ 12
unfolding get_pl2_index
get_pl2_index_sum i4 i3 h4 h3 =
    let w4 : i4 * 2 ^ 21 % u64_mod ≡ i4 * 2 ^ 21 = omega arith in
    let w3 : i3 * 2 ^ 12 % u64_mod ≡ i3 * 2 ^ 12 = omega arith in
    let e4 : bit_or 0xffff804000000000 (i4 * 2 ^ 21) ≡ (0x3fffe0100 * 512 + i4) * 2 ^ 21 =
      bit_or_fields 30 0x3fffe0100 (i4 * 2 ^ 21) (omega arith) ∙ omega arith in
    rw (w4, w3, e4)
      (bit_or_fields 21 (0x3fffe0100 * 512 + i4) (i3 * 2 ^ 12) (omega arith) ∙ omega arith)

get_pl3_index_sum : (i4 : ℕ) → i4 < 512 → get_pl3_index i4 ≡ 0xffff804020000000 + i4 * 2 ^ 12
unfolding get_pl3_index
get_pl3_index_sum i4 h4 =
    let w4 : i4 * 2 ^ 12 % u64_mod ≡ i4 * 2 ^ 12 = omega arith in
    rw w4 (bit_or_fields 21 0x7fffc020100 (i4 * 2 ^ 12) (omega arith) ∙ omega arith)

-- The windows on the tables of the higher levels are the window on the last level, seen through
-- entry 256: one entry that points to its own table makes all tables visible. The indices are
-- below 512.
pub get_pl2_index-get_pl1_index :
    (i4 i3 : ℕ)
    → i4 < 512
    → i3 < 512
    → (get_pl2_index i4 i3 ≡ get_pl1_index 256 i4 i3)
      × (get_pl3_index i4 ≡ get_pl1_index 256 256 i4)
      × (get_pl4 ≡ get_pl1_index 256 256 256)
get_pl2_index-get_pl1_index i4 i3 h4 h3 = (
  rw (get_pl2_index_sum i4 i3 h4 h3, get_pl1_index_sum 256 i4 i3 (omega arith) h4 h3) (omega arith),
  rw (get_pl3_index_sum i4 h4, get_pl1_index_sum 256 256 i4 (omega arith) (omega arith) h4)
      (omega arith),
  rw (get_pl1_index_sum 256 256 256 (omega arith) (omega arith) (omega arith)) (omega arith),
)

-- Tables whose windows overlap have the same indices, if the indices are below 512: different
-- tables are seen in different pages.
pub get_pl1_index-distinct :
    (i4 i3 i2 j4 j3 j2 : ℕ)
    → i4 < 512
    → i3 < 512
    → i2 < 512
    → j4 < 512
    → j3 < 512
    → j2 < 512
    → get_pl1_index i4 i3 i2 < get_pl1_index j4 j3 j2 + 4096
    → get_pl1_index j4 j3 j2 < get_pl1_index i4 i3 i2 + 4096
    → (i4 ≡ j4) × (i3 ≡ j3) × (i2 ≡ j2)
get_pl1_index-distinct i4 i3 i2 j4 j3 j2 h4 h3 h2 h4' h3' h2' below above =
    let e = get_pl1_index_sum i4 i3 i2 h4 h3 h2 in
    let e' = get_pl1_index_sum j4 j3 j2 h4' h3' h2' in (omega arith, omega arith, omega arith)
