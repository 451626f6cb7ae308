-- ===== src/Format/Text.antt =====
-- The buffer of kernel/core/format.c: text passes through it whole and in order.
use kernel_of_truth.Base.{
  ℕ, zero, suc, ◌<◌, ◌≤◌, ◌≡◌, ◌≢◌, refl, sym, ◌∙◌, ap, ◌==◌, true, false, ltb, Bool-cases, inl,
  inr, ne→==, All, some, List, [], ◌∷◌, ◌++◌, length, length-append, Run, ok, arith,
}
use mathlib.Core.List.{append-nil, append_assoc}
use kernel_of_truth.Types
use kernel_of_truth.Types.{Status}
use kernel_of_truth.Format.{
  Arg, string, char_s, print_spec, modifiers, spec_of, Out, buf_size, percent, flush_full,
  print_string, print_loop, vfprintf,
}

-- A file that takes all that is written to it.
unfoldable pub collect : List ℕ → List ℕ → Status × List ℕ
collect bytes f = (Types.ok, f ++ bytes)

-- A call has returned `Ok`, the text has gone behind what was printed before, and there is room in the
-- buffer.
abbrev pub Prints : Out (List ℕ) → List ℕ → Run (Status × Out (List ℕ)) → Type 0
Prints (buf, f) text call =
    (buf' : List ℕ) × (f' : List ℕ) × (call ≡ ok (Types.ok, (buf', f')))
    × (f' ++ buf' ≡ (f ++ buf) ++ text)
    × (length buf' < buf_size)

-- One character, and the flush when the buffer is full.
flush_full-Prints :
    (c : ℕ) (buf f : List ℕ)
    → length buf < buf_size
    → Prints (buf, f) (c ∷ []) (flush_full collect (buf ++ (c ∷ []), f))
unfolding collect
flush_full-Prints c buf f room = elim (Bool-cases (length (buf ++ (c ∷ [])) == 256)) [
  | inl full ↦ (
    [],
    f ++ (buf ++ (c ∷ [])),
    rw full refl,
    append-nil (f ++ (buf ++ (c ∷ []))) ∙ sym (append_assoc f buf (c ∷ [])),
    omega arith,
  )
  | inr space ↦ (
    buf ++ (c ∷ []),
    f,
    rw space refl,
    sym (append_assoc f buf (c ∷ [])),
    ground (arith, length-append buf (c ∷ [])),
  )
]

-- `print_string` prints its string.
pub print_string-Prints :
    (cs buf f : List ℕ)
    → length buf < buf_size
    → Prints (buf, f) cs (print_string collect cs (buf, f))
unfolding print_string
print_string-Prints [] buf f room = (buf, f, refl, sym (append-nil (f ++ buf)), room)
print_string-Prints (c ∷ cs) buf f room =
    let space : ltb (length buf) 256 ≡ true = ground arith in
    let (buf1, f1, run1, eq1, room1) = flush_full-Prints c buf f room in
    let (buf2, f2, run2, eq2, room2) = print_string-Prints cs buf1 f1 room1 in
    (
      buf2,
      f2,
      rw (space, run1) run2,
      eq2 ∙ ap (λ (t : List ℕ). t ++ cs) eq1 ∙ append_assoc (f ++ buf) (c ∷ []) cs,
      room2,
    )

-- A format without a directive is printed as it is, by a loop with fuel for each character.
print_loop-Prints :
    (fuel : ℕ) (format : List ℕ) (args : List Arg) (buf f : List ℕ)
    → length format ≤ fuel
    → All (λ c. c ≢ percent) format
    → length buf < buf_size
    → Prints (buf, f) format (print_loop collect fuel format args (buf, f))
unfolding print_loop
print_loop-Prints fuel [] args buf f enough none_special room =
    (buf, f, refl, sym (append-nil (f ++ buf)), room)
print_loop-Prints zero (c ∷ format) args buf f enough none_special room = elim enough [ ]
print_loop-Prints (suc fuel) (c ∷ format) args buf f enough none_special room =
    let space : ltb (length buf) 256 ≡ true = ground arith in
    let (buf1, f1, run1, eq1, room1) = flush_full-Prints c buf f room in
    let (buf2, f2, run2, eq2, room2) =
      print_loop-Prints fuel format args buf1 f1 (omega arith) none_special.1 room1 in
    (
      buf2,
      f2,
      rw (ne→== c percent none_special.0, space, run1) run2,
      eq2 ∙ ap (λ (t : List ℕ). t ++ format) eq1 ∙ append_assoc (f ++ buf) (c ∷ []) format,
      room2,
    )

-- `vfprintf` of a format without `%`, of any length, to a file that takes all it is given, returns
-- `Ok`, and the format stands behind what was in the file, however often the buffer was flushed.
pub vfprintf-plain :
    (format : List ℕ) (args : List Arg) (f : List ℕ)
    → All (λ c. c ≢ percent) format
    → vfprintf (some collect) format args f ≡ ok (Types.ok, f ++ format)
unfolding vfprintf collect
vfprintf-plain format args f none_special =
    let (buf', f', run, eq, room) =
      print_loop-Prints (length format) format args [] f (omega arith) none_special (omega arith) in
    rw run
      (ap (λ (t : List ℕ). ok (Types.ok, t)) (eq ∙ ap (λ (t : List ℕ). t ++ format) (append-nil f)))

-- `vfprintf` of `%s` with a string, to such a file, returns `Ok`, and the string stands behind what was
-- in the file, whatever its length.
pub vfprintf-string :
    (cs f : List ℕ)
    → vfprintf (some collect) (percent ∷ char_s ∷ []) (string (some cs) ∷ []) f
      ≡ ok (Types.ok, f ++ cs)
unfolding vfprintf print_loop print_spec modifiers spec_of collect
vfprintf-string cs f =
    let (buf', f', run, eq, room) = print_string-Prints cs [] f (omega arith) in
    let space : (length buf' == 256) ≡ false = ground arith in
    rw (run, space)
      (ap (λ (t : List ℕ). ok (Types.ok, t)) (eq ∙ ap (λ (t : List ℕ). t ++ cs) (append-nil f)))
