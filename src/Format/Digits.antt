-- ===== src/Format/Digits.antt =====
-- The digits of `print_number` in kernel/core/format.c: what they say of the number.
use kernel_of_truth.Base.{
  ℕ, zero, suc, ◌+◌, ◌-◌, ◌*◌, ◌/◌, ◌%◌, ◌^◌, ◌<◌, ◌≤◌, ◌≡◌, refl, sym, ◌∙◌, ap, Bool, true,
  if◌then◌else◌, ltb, Bool-cases, ◌&&◌, leb, inl, inr, some, List, [], ◌∷◌, ◌++◌, length,
  length-append, ok, arith,
}
use native.Mathlib.Nat.{
  div-add-mod', mod-lt, mul-add-mod_self_right, mod-eq_of_lt, one-le-pow, pow-suc, pow-zero,
  mul-le-mul_right, add-mul, mul_assoc,
}
use kernel_of_truth.Types
use kernel_of_truth.Types.{Status, sub64}
use kernel_of_truth.Format.{minus, buf_size, digit, width_of, fill_digits, print_number}

-- The value of a digit, and of the digits behind a number.
unfoldable pub digit_value : ℕ → ℕ
digit_value c = if ltb c 58 then c - 48 else c - 87

unfoldable pub read_digits : ℕ → ℕ → List ℕ → ℕ
read_digits base acc [] = acc
read_digits base acc (c ∷ cs) = read_digits base (acc * base + digit_value c) cs

digit_value-digit : (d : ℕ) → d < 16 → digit_value (digit d) ≡ d
unfolding digit_value digit
digit_value-digit d h = ground arith

read_digits-append :
    (base acc : ℕ) (cs ds : List ℕ)
    → read_digits base acc (cs ++ ds) ≡ read_digits base (read_digits base acc cs) ds
unfolding read_digits
read_digits-append base acc [] ds = refl
read_digits-append base acc (c ∷ cs) ds = read_digits-append base (acc * base + digit_value c) cs ds

-- The remainder by a product, from the quotient by one factor.
mod_places : (n base p : ℕ) → 0 < base → 0 < p → n / base % p * base + n % base ≡ n % (p * base)
mod_places n base p some_base some_p =
    let q = n / base in
    let e1 : q / p * p + q % p ≡ q = div-add-mod' q p in
    let e2 : q * base + n % base ≡ n = div-add-mod' n base in
    let low = q % p * base + n % base in
    let small : low < p * base =
      let less : q % p < p = mod-lt q some_p in
      let below : q % p + 1 ≤ p = omega arith in
      let scaled : (q % p + 1) * base ≤ p * base = mul-le-mul_right base below in
      let last : n % base < base = mod-lt n some_base in
      let split : (q % p + 1) * base ≡ q % p * base + 1 * base = add-mul (q % p) 1 base in
      omega arith in
    let whole : q / p * (p * base) + low ≡ n =
      let split : (q / p * p + q % p) * base ≡ q / p * p * base + q % p * base =
        add-mul (q / p * p) (q % p) base in
      let front : q / p * p * base ≡ q / p * (p * base) = mul_assoc (q / p) p base in
      let e3 : (q / p * p + q % p) * base ≡ q * base = ap (λ (t : ℕ). t * base) e1 in omega arith in
    sym (
      ap (λ (t : ℕ). t % (p * base)) (sym whole)
      ∙ mul-add-mod_self_right (q / p) (p * base) low
      ∙ mod-eq_of_lt small)

-- The digits of the lowest places of a number, read in their base, are the number up to a multiple
-- of the power of the base.
pub fill_digits-read_digits :
    (k base n : ℕ) → 0 < base → base ≤ 16 → read_digits base 0 (fill_digits k base n) ≡ n % base ^ k
unfolding fill_digits read_digits
fill_digits-read_digits zero base n some_base small = omega (arith, pow-zero base)
fill_digits-read_digits (suc k) base n some_base small =
    let last : n % base < 16 = let below : n % base < base = mod-lt n some_base in omega arith in
    read_digits-append base 0 (fill_digits k base (n / base)) (digit (n % base) ∷ [])
    ∙ rw
        (
          fill_digits-read_digits k base (n / base) some_base small,
          digit_value-digit (n % base) last,
        )
        (mod_places n base (base ^ k) some_base (one-le-pow k base some_base)
          ∙ ap (λ (t : ℕ). n % t) (sym (pow-suc base k)))

pub length-fill_digits : (k base n : ℕ) → length (fill_digits k base n) ≡ k
unfolding fill_digits
length-fill_digits zero base n = refl
length-fill_digits (suc k) base n = omega (
  arith,
  length-append (fill_digits k base (n / base)) (digit (n % base) ∷ []),
  length-fill_digits k base (n / base),
)

-- A base that `print_number` knows is at most 16.
width_of-base : (base size width : ℕ) → width_of base size ≡ some width → (0 < base) × (base ≤ 16)
unfolding width_of
width_of-base base size width e = (ground arith, ground arith)

-- What `print_number` prints of a number: its amount, and the sign.
abbrev pub is_negative : Bool → ℕ → Bool
is_negative is_signed n = is_signed && leb (2 ^ 63) n

abbrev pub magnitude : Bool → ℕ → ℕ
magnitude is_signed n = if is_negative is_signed n then sub64 0 n else n

abbrev pub signed_buffer : Bool → ℕ → List ℕ → List ℕ
signed_buffer is_signed n buf = if is_negative is_signed n then buf ++ (minus ∷ []) else buf

-- With a base and a size that it knows, room in the buffer and a file that takes what the buffer holds,
-- `print_number` returns `Ok`: the old text has gone to the file, behind it a minus for a negative number,
-- and the buffer holds as many digits as the size has room for, which read as the amount of the number
-- up to a multiple of the power of the base.
pub print_number-read_digits :
    {F : Type 0} (write : List ℕ → F → Status × F) (is_signed : Bool) (base size n : ℕ)
    (buf : List ℕ) (f f' : F) (width : ℕ)
    → width_of base size ≡ some width
    → width ≤ buf_size
    → length buf < buf_size
    → write (signed_buffer is_signed n buf) f ≡ (Types.ok, f')
    → (digits : List ℕ) × (print_number write is_signed base size n (buf, f)
        ≡ ok (Types.ok, (digits, f')))
      × (length digits ≡ width)
      × (read_digits base 0 digits ≡ magnitude is_signed n % base ^ width)
unfolding print_number
print_number-read_digits write is_signed base size n buf f f' width known fits room taken =
    let (some_base, small) = width_of-base base size width known in
    let amount = magnitude is_signed n in
    let digits = fill_digits width base amount in
    let bound : leb width 256 ≡ true = ground arith in
    let space : ltb (length buf) 256 ≡ true = ground arith in
    (
      digits,
      elim (Bool-cases (is_negative is_signed n)) [
        | inl below ↦
            let gone : write (buf ++ (minus ∷ [])) f ≡ (Types.ok, f') = rw below at taken in
            rw (below, space, gone, known, bound, below)
        | inr above ↦
            let gone : write buf f ≡ (Types.ok, f') = rw above at taken in
            rw (above, gone, known, bound, above)
      ],
      length-fill_digits width base amount,
      fill_digits-read_digits width base amount some_base small,
    )
