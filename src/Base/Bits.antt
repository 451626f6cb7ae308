-- ===== src/Base/Bits.antt =====
-- Laws of `bit_and` and `bit_or`, from their lowest digits.
use Prim.Native.Nat.{
  ℕ, zero, suc, ◌+◌, ◌-◌, ◌*◌, ◌/◌, ◌%◌, ◌^◌, ◌≤◌, ◌<◌, min, max, bit_and, bit_or, digits,
  bit_and-bitwise, bit_or-bitwise,
}
use mathlib.Core.Path.{◌≡◌, refl, ap, sym, ◌∙◌}
use native.Mathlib.Nat.{pow-suc, one-le-pow, mod-lt, div-add-mod'}
use native.Mathlib.Omega.{arith}

-- The fuel of `digits` does not matter once the first number has run out.
module _ (rest : ℕ → ℕ) (digit : ℕ → ℕ → ℕ) where
  fuel_free :
      (fuel more x y : ℕ)
      → x ≤ fuel
      → x ≤ more
      → digits rest digit fuel x y ≡ digits rest digit more x y
  fuel_free (suc fuel) (suc more) (suc x) y h h' =
      ap (λ (k : ℕ). k * 2 + digit (suc x % 2) (y % 2))
        (fuel_free fuel more (suc x / 2) (y / 2) (omega arith) (omega arith))
  fuel_free zero more (suc x) y h h' = elim h [ ]
  fuel_free (suc fuel) zero (suc x) y h h' = elim h' [ ]
  fuel_free zero zero zero y h h' = refl
  fuel_free zero (suc more) zero y h h' = refl
  fuel_free (suc fuel) zero zero y h h' = refl
  fuel_free (suc fuel) (suc more) zero y h h' = refl

  lowest :
      (x y : ℕ)
      → digits rest digit (suc x) (suc x) y
        ≡ digits rest digit (suc x / 2) (suc x / 2) (y / 2) * 2 + digit (suc x % 2) (y % 2)
  lowest x y =
      ap (λ (k : ℕ). k * 2 + digit (suc x % 2) (y % 2))
        (fuel_free x (suc x / 2) (suc x / 2) (y / 2) (omega arith) (omega arith))

pub zero-bit_and : (y : ℕ) → bit_and 0 y ≡ 0
zero-bit_and y = bit_and-bitwise 0 y

pub zero-bit_or : (y : ℕ) → bit_or 0 y ≡ y
zero-bit_or y = bit_or-bitwise 0 y

-- The lowest digit of a result, and the others.
bit_and-half : (x y : ℕ) → bit_and x y ≡ bit_and (x / 2) (y / 2) * 2 + min (x % 2) (y % 2)
bit_and-half zero y = omega (arith, zero-bit_and y, zero-bit_and (y / 2))
bit_and-half (suc x) y =
    bit_and-bitwise (suc x) y
    ∙ lowest (λ _. 0) min x y
    ∙ ap (λ (k : ℕ). k * 2 + min (suc x % 2) (y % 2)) (sym (bit_and-bitwise (suc x / 2) (y / 2)))

bit_or-half : (x y : ℕ) → bit_or x y ≡ bit_or (x / 2) (y / 2) * 2 + max (x % 2) (y % 2)
bit_or-half zero y = omega (arith, zero-bit_or y, zero-bit_or (y / 2))
bit_or-half (suc x) y =
    bit_or-bitwise (suc x) y
    ∙ lowest (λ k. k) max x y
    ∙ ap (λ (k : ℕ). k * 2 + max (suc x % 2) (y % 2)) (sym (bit_or-bitwise (suc x / 2) (y / 2)))

bit_and-div : (x y : ℕ) → bit_and x y / 2 ≡ bit_and (x / 2) (y / 2)
bit_and-div x y = omega (arith, bit_and-half x y)

bit_or-div : (x y : ℕ) → bit_or x y / 2 ≡ bit_or (x / 2) (y / 2)
bit_or-div x y = omega (arith, bit_or-half x y)

pub bit_and-mod : (x y : ℕ) → bit_and x y % 2 ≡ min (x % 2) (y % 2)
bit_and-mod x y = omega (arith, bit_and-half x y)

pub bit_or-mod : (x y : ℕ) → bit_or x y % 2 ≡ max (x % 2) (y % 2)
bit_or-mod x y = omega (arith, bit_or-half x y)

-- Numbers with equal halves and equal lowest digits are equal.
by_digits : (x y : ℕ) → x / 2 ≡ y / 2 → x % 2 ≡ y % 2 → x ≡ y
by_digits x y h h' = omega arith

-- What passes from the half of each number to the number holds of all.
halves_upto : (P : ℕ → Type 0) → P 0 → ((n : ℕ) → P (n / 2) → P n) → (bound n : ℕ) → n ≤ bound → P n
halves_upto P base up bound zero h = base
halves_upto P base up zero (suc n) h = elim h [ ]
halves_upto P base up (suc bound) (suc n) h =
    up (suc n) (halves_upto P base up bound (suc n / 2) (omega arith))

halves : (P : ℕ → Type 0) → P 0 → ((n : ℕ) → P (n / 2) → P n) → (n : ℕ) → P n
halves P base up n = halves_upto P base up n n (omega arith)

pub bit_and-zero : (x : ℕ) → bit_and x 0 ≡ 0
bit_and-zero = halves (λ x. bit_and x 0 ≡ 0) refl (λ n h. omega (arith, bit_and-half n 0))

pub bit_or-zero : (x : ℕ) → bit_or x 0 ≡ x
bit_or-zero = halves (λ x. bit_or x 0 ≡ x) refl (λ n h. omega (arith, bit_or-half n 0))

-- Masks distribute over a union of bits.
pub bit_and-bit_or : (x y m : ℕ) → bit_and (bit_or x y) m ≡ bit_or (bit_and x m) (bit_and y m)
bit_and-bit_or =
    halves (λ x. (y m : ℕ) → bit_and (bit_or x y) m ≡ bit_or (bit_and x m) (bit_and y m))
      (λ y m. rw (zero-bit_or y, zero-bit_and m) (sym (zero-bit_or (bit_and y m))))
      λ n h y m.
        by_digits _ _
          (rw
            (
              bit_and-div (bit_or n y) m,
              bit_or-div n y,
              bit_or-div (bit_and n m) (bit_and y m),
              bit_and-div n m,
              bit_and-div y m,
            )
            (h (y / 2) (m / 2)))
          (omega (
            arith,
            bit_and-mod (bit_or n y) m,
            bit_or-mod n y,
            bit_or-mod (bit_and n m) (bit_and y m),
            bit_and-mod n m,
            bit_and-mod y m,
          ))

-- To mask twice is to mask with what the masks share.
pub bit_and_assoc : (x m n : ℕ) → bit_and (bit_and x m) n ≡ bit_and x (bit_and m n)
bit_and_assoc =
    halves (λ x. (m n : ℕ) → bit_and (bit_and x m) n ≡ bit_and x (bit_and m n))
      (λ m n. rw (zero-bit_and m, zero-bit_and n, zero-bit_and (bit_and m n)))
      λ x h m n.
        by_digits _ _
          (rw
            (
              bit_and-div (bit_and x m) n,
              bit_and-div x m,
              bit_and-div x (bit_and m n),
              bit_and-div m n,
            )
            (h (m / 2) (n / 2)))
          (omega (
            arith,
            bit_and-mod (bit_and x m) n,
            bit_and-mod x m,
            bit_and-mod x (bit_and m n),
            bit_and-mod m n,
          ))

-- Whole `2 ^ k`s joined with a smaller number are their sum.
pub bit_or_fields : (k x y : ℕ) → y < 2 ^ k → bit_or (x * 2 ^ k) y ≡ x * 2 ^ k + y
bit_or_fields zero x y h =
    let e : y ≡ 0 = omega arith in rw e (omega (arith, bit_or-zero (x * 2 ^ 0)))
bit_or_fields (suc k) x y h =
    let p = pow-suc 2 k in
    let q : x * 2 ^ suc k ≡ 2 * (x * 2 ^ k) = omega (arith, ap (λ (t : ℕ). x * t) p) in
    let d : x * 2 ^ suc k / 2 ≡ x * 2 ^ k = omega arith in
    let ih = bit_or_fields k x (y / 2) (omega arith) in
    by_digits _ _ (bit_or-div (x * 2 ^ suc k) y ∙ ap (λ z. bit_or z (y / 2)) d ∙ omega arith)
      (omega (arith, bit_or-mod (x * 2 ^ suc k) y))

-- The mask of the lowest `k` bits, on such a sum.
bit_and_low : (k x y : ℕ) → y < 2 ^ k → bit_and (x * 2 ^ k + y) (2 ^ k - 1) ≡ y
bit_and_low zero x y h = omega (arith, bit_and-zero (x * 2 ^ 0 + y))
bit_and_low (suc k) x y h =
    let p = pow-suc 2 k in
    let some_bits : 0 < 2 ^ k = one-le-pow k 2 (omega arith) in
    let q : x * 2 ^ suc k ≡ 2 * (x * 2 ^ k) = omega (arith, ap (λ (t : ℕ). x * t) p) in
    let number : (x * 2 ^ suc k + y) / 2 ≡ x * 2 ^ k + y / 2 = omega arith in
    let mask : (2 ^ suc k - 1) / 2 ≡ 2 ^ k - 1 = omega arith in
    by_digits _ _
      (rw (bit_and-div (x * 2 ^ suc k + y) (2 ^ suc k - 1), number, mask)
        (bit_and_low k x (y / 2) (omega arith)))
      (omega (arith, bit_and-mod (x * 2 ^ suc k + y) (2 ^ suc k - 1)))

-- The mask of the lowest `k` bits takes the remainder.
pub bit_and_mask : (k x : ℕ) → bit_and x (2 ^ k - 1) ≡ x % 2 ^ k
bit_and_mask k x =
    let some_bits : 0 < 2 ^ k = one-le-pow k 2 (omega arith) in
    let whole : x / 2 ^ k * 2 ^ k + x % 2 ^ k ≡ x = div-add-mod' x (2 ^ k) in
    ap (λ z. bit_and z (2 ^ k - 1)) (sym whole)
    ∙ bit_and_low k (x / 2 ^ k) (x % 2 ^ k) (mod-lt x some_bits)
