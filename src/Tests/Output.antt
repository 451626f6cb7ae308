-- ===== src/Tests/Output.antt =====
-- Runs of kernel/core/format.c.
use kernel_of_truth.Base.{
  ℕ, ◌≡◌, ◌%◌, ◌^◌, refl, length, List, [], ◌∷◌, ◌++◌, some, false, ok, arith,
}
use kernel_of_truth.Types
use kernel_of_truth.Types.{Status}
use kernel_of_truth.Format.{
  number, percent, char_u, digit, width_of, fill_digits, print_number, print_string, modifiers,
  spec_of, print_loop, vfprintf,
}
use kernel_of_truth.Format.Digits.{read_digits, magnitude, print_number-read_digits}
use kernel_of_truth.Format.Text.{collect, vfprintf-plain}

-- The largest unsigned int is taken for -1, and eight digits of the 64-bit word are printed.
print_largest :
    vfprintf (some collect) (percent ∷ char_u ∷ []) (number 4294967295 ∷ []) []
    ≡ ok (Types.ok, 48 ∷ 57 ∷ 53 ∷ 53 ∷ 49 ∷ 54 ∷ 49 ∷ 53 ∷ [])
unfolding vfprintf print_loop print_number print_string fill_digits width_of modifiers spec_of digit
    collect
print_largest = refl

vfprintf-plain_example :
    vfprintf (some collect) (72 ∷ 105 ∷ []) [] (33 ∷ [])
    ≡ ok (Types.ok, (33 ∷ []) ++ (72 ∷ 105 ∷ []))
vfprintf-plain_example = vfprintf-plain (72 ∷ 105 ∷ []) [] (33 ∷ []) (omega arith)

width_decimal : width_of 10 4 ≡ some 8
unfolding width_of
width_decimal = refl

print_to : collect (72 ∷ []) [] ≡ (Types.ok, 72 ∷ [])
unfolding collect
print_to = refl

print_number-read_digits_example :
    (digits : List ℕ) × (print_number collect false 10 4 4294967295 (72 ∷ [], [])
      ≡ ok (Types.ok, (digits, 72 ∷ [])))
    × (length digits ≡ 8)
    × (read_digits 10 0 digits ≡ magnitude false 4294967295 % 10 ^ 8)
print_number-read_digits_example =
    print_number-read_digits collect false 10 4 4294967295 (72 ∷ []) [] (72 ∷ []) 8 width_decimal
      (omega arith) (omega arith) print_to
