-- ===== src/Format.antt =====
-- kernel/core/format.c: formatted output through a buffer of 256 bytes.
-- A character is its number. The buffer is the list of its first `top` bytes, and a store past its end
-- faults. `write` is the file's own function, and `F` the state that it works on.
-- The arguments are a list in place of `va_list`: a number is the 64-bit pattern of a `long`, and a
-- string is without its final zero, or none for NULL. To take an argument of another kind, or one too many,
-- is undefined in C, and faults.
pub mod Digits
pub mod Text
use kernel_of_truth.Base.{
  ℕ, zero, suc, ◌+◌, ◌-◌, ◌*◌, ◌/◌, ◌%◌, ◌^◌, ◌==◌, ◌&&◌, ◌||◌, Bool, true, false, not,
  if◌then◌else◌, ltb, leb, get_or, length, Option, none, some, List, [], ◌∷◌, ◌++◌, Run, ok, fault,
  stuck, ◌>>=◌, ◌>>◌, assert,
}
use kernel_of_truth.Types
use kernel_of_truth.Types.{Status, sub64, u64_mod}

abbrev pub buf_size : ℕ
buf_size = 256

-- The characters that the code compares with.
abbrev pub percent : ℕ
percent = 37

abbrev pub minus : ℕ
minus = 45

abbrev pub char_b : ℕ
char_b = 98

abbrev pub char_c : ℕ
char_c = 99

abbrev pub char_d : ℕ
char_d = 100

abbrev pub char_h : ℕ
char_h = 104

abbrev pub char_i : ℕ
char_i = 105

abbrev pub char_l : ℕ
char_l = 108

abbrev pub char_o : ℕ
char_o = 111

abbrev pub char_p : ℕ
char_p = 112

abbrev pub char_s : ℕ
char_s = 115

abbrev pub char_u : ℕ
char_u = 117

abbrev pub char_x : ℕ
char_x = 120

abbrev pub char_x_upper : ℕ
char_x_upper = 88

abbrev pub char_z : ℕ
char_z = 122

-- An argument of a `va_list`.
pub data Arg : Type 0 where
  number : ℕ → Arg
  string : Option (List ℕ) → Arg

-- `digits[d]`: '0' to '9', then 'a' to 'f'.
unfoldable pub digit : ℕ → ℕ
digit d = if ltb d 10 then d + 48 else d + 87

-- `*top` in `print_number`, and `none` for a base that it does not know.
unfoldable pub width_of : ℕ → ℕ → Option ℕ
width_of base size =
    if base == 2
    then some (size * 8 / 1)
    else if base == 8
    then some (size * 8 / 2)
    else if base == 10
    then some (size * 8 / 4)
    else if base == 16
    then some (size * 8 / 4)
    else none

-- The loop of `print_number`, with the lowest `k` places left, which fills the buffer from behind.
unfoldable pub fill_digits : ℕ → ℕ → ℕ → List ℕ
fill_digits zero base n = []
fill_digits (suc k) base n = fill_digits k base (n / base) ++ (digit (n % base) ∷ [])

-- `buf[top] = c` and `top++`
abbrev pub push : ℕ → List ℕ → Run (List ℕ)
push c buf = if ltb (length buf) buf_size then ok (buf ++ (c ∷ [])) else fault

-- `va_arg` of an `int`, which becomes an `int64_t`, and of a `long`.
abbrev pub sign_extend : ℕ → ℕ
sign_extend n = let low = n % 2 ^ 32 in if ltb low (2 ^ 31) then low else (low + (u64_mod - 2 ^ 32))

abbrev pub number_of : ℕ → ℕ → ℕ
number_of size n = if size == 8 then n else sign_extend n

-- The length modifiers behind `cur`: the size, the last character that was read, and the rest.
unfoldable pub modifiers : ℕ → List ℕ → ℕ × ℕ × List ℕ
modifiers cur [] = (0, cur, [])
modifiers cur (c ∷ []) =
    if c == char_l
    then (8, c, [])
    else if c == char_h
    then (2, c, [])
    else if c == char_z
    then (8, c, [])
    else (0, cur, c ∷ [])
modifiers cur (c ∷ c' ∷ rest) =
    if c == char_l
    then (8, c, if c' == char_l then rest else (c' ∷ rest))
    else if c == char_h
    then if c' == char_h then (1, c, rest) else (2, c, c' ∷ rest)
    else if c == char_z
    then (8, c, c' ∷ rest)
    else (0, cur, c ∷ c' ∷ rest)

-- What a specifier asks for.
pub data Spec : Type 0 where
  integer : ℕ → Bool → ℕ → Spec
  character text percent_sign invalid : Spec

-- The second `switch` of `vfprintf`, with the size so far.
unfoldable pub spec_of : ℕ → ℕ → Spec
spec_of size c =
    if c == char_i || c == char_d
    then integer 10 true size
    else if c == char_u
    then integer 10 false size
    else if c == char_p
    then integer 16 false (if size == 0 then 8 else size)
    else if c == char_x_upper || c == char_x
    then integer 16 false size
    else if c == char_o
    then integer 8 true size
    else if c == char_b
    then integer 2 false size
    else if c == char_c
    then character
    else if c == char_s
    then text
    else if c == percent
    then percent_sign
    else invalid

-- The buffer, and the file that it is flushed to.
abbrev pub Out : Type 0 → Type 0
Out F = List ℕ × F

module _ {F : Type 0} (write : List ℕ → F → Status × F) where
  -- `bubble`: a failed write ends the call with its status.
  abbrev pub bubble : Status × F → List ℕ → (F → Run (Status × Out F)) → Run (Status × Out F)
  bubble (Types.ok, f) buf go_on = go_on f
  bubble (e, f) buf go_on = ok (e, (buf, f))

  -- A call whose status was not `Ok` ends its caller's.
  abbrev pub go_on_ok : (Out F → Run (Status × Out F)) → Status × Out F → Run (Status × Out F)
  go_on_ok go_on (Types.ok, out) = go_on out
  go_on_ok go_on (e, out) = ok (e, out)

  unfoldable pub print_number : Bool → ℕ → ℕ → ℕ → Out F → Run (Status × Out F)
  print_number is_signed base size n (buf, f) =
      let negative = is_signed && leb (2 ^ 63) n in
      let magnitude = if negative then sub64 0 n else n in
      (if negative then push minus buf else ok buf) >>= λ buf'. bubble (write buf' f) buf' λ f'.
        elim (width_of base size) [
          | none ↦ ok (Types.invalid, (buf', f'))
          | some width ↦
              assert (leb width buf_size) >> ok (Types.ok, (fill_digits width base magnitude, f'))
        ]

  -- A full buffer is flushed.
  abbrev pub flush_full : Out F → Run (Status × Out F)
  flush_full (buf, f) =
      let flushed = bubble (write buf f) buf λ f'. ok (Types.ok, ([], f')) in
      if length buf == buf_size then flushed else ok (Types.ok, (buf, f))

  unfoldable pub print_string : List ℕ → Out F → Run (Status × Out F)
  print_string [] out = ok (Types.ok, out)
  print_string (c ∷ cs) (buf, f) =
      push c buf >>= λ buf'. flush_full (buf', f) >>= go_on_ok (print_string cs)

  -- `"(NULL)"`
  abbrev pub null_text : List ℕ
  null_text = 40 ∷ 78 ∷ 85 ∷ 76 ∷ 76 ∷ 41 ∷ []

  abbrev pub text_of : Option (List ℕ) → List ℕ
  text_of none = null_text
  text_of (some cs) = cs

  -- One character into the buffer.
  abbrev pub put_char : ℕ → Out F → Run (Status × Out F)
  put_char c (buf, f) = push c buf >>= λ buf'. ok (Types.ok, (buf', f))

  -- What the specifier prints, with the last character that was read for one that is invalid, and
  -- the arguments that are left.
  pub print_spec : Spec → ℕ → List Arg → Out F → Run (List Arg × (Status × Out F))
  unfolding print_number print_string
  print_spec (integer base is_signed size) cur (number n ∷ args) out =
      let given = if size == 0 then 4 else size in
      print_number is_signed base given (number_of given n) out >>= λ r. ok (args, r)
  print_spec character cur (number n ∷ args) out = put_char (n % 2 ^ 8) out >>= λ r. ok (args, r)
  print_spec text cur (string s ∷ args) out = print_string (text_of s) out >>= λ r. ok (args, r)
  print_spec percent_sign cur args out = put_char percent out >>= λ r. ok (args, r)
  print_spec invalid cur args out = put_char cur out >>= λ r. ok (args, r)
  print_spec _ cur args out = fault

  -- The end of an iteration and the rest of the loop, if nothing has failed.
  abbrev pub then_loop :
      (List Arg → Out F → Run (Status × Out F)) → List Arg × (Status × Out F) → Run (Status × Out F)
  then_loop loop (args, (Types.ok, out)) = flush_full out >>= go_on_ok (loop args)
  then_loop loop (args, (e, out)) = ok (e, out)

  -- An invalid specifier stays in the format.
  abbrev pub rest_after : Spec → List ℕ → List ℕ
  rest_after invalid rest = rest
  rest_after _ [] = []
  rest_after _ (c ∷ rest) = rest

  abbrev pub first_spec : ℕ → List ℕ → Spec
  first_spec size [] = invalid
  first_spec size (c ∷ rest) = spec_of size c

  -- The loop of `vfprintf`, on fuel.
  unfoldable pub print_loop : ℕ → List ℕ → List Arg → Out F → Run (Status × Out F)
  unfolding print_spec
  print_loop fuel [] args out = ok (Types.ok, out)
  print_loop zero (c ∷ format) args out = stuck
  print_loop (suc fuel) (c ∷ format) args out =
      let (size, cur, rest) = modifiers c format in
      let spec = first_spec size rest in
      let directive =
        print_spec spec cur args out >>= then_loop (print_loop fuel (rest_after spec rest)) in
      let plain = put_char c out >>= λ r. then_loop (print_loop fuel format) (args, r) in
      if c == percent && not (length format == 0) then directive else plain

-- The end of `vfprintf`.
abbrev pub last_flush : {F : Type 0} → (List ℕ → F → Status × F) → Status × Out F → Run (Status × F)
last_flush write (Types.ok, (buf, f)) = ok (write buf f)
last_flush write (e, (buf, f)) = ok (e, f)

-- `vfprintf`, with the file's `write`, or none for NULL.
unfoldable pub vfprintf :
    {F : Type 0} → Option (List ℕ → F → Status × F) → List ℕ → List Arg → F → Run (Status × F)
vfprintf none format args f = ok (Types.permissions, f)
vfprintf (some write) format args f =
    print_loop write (length format) format args ([], f) >>= last_flush write
