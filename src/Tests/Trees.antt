-- ===== src/Tests/Trees.antt =====
-- Runs of kernel/core/file.c. Files 1 and 2 are named "a" and "b", at 10 and 20; file 3, named "dev" at
-- 30, has no array for children; the path "a/b" is at 40.
use kernel_of_truth.Base.{
  bit, ◌&&◌, ℕ, zero, suc, ◌+◌, ◌==◌, ◌<◌, ◌≤◌, ◌≡◌, ◌≢◌, refl, true, false, if◌then◌else◌, [], ◌∷◌,
  get_or, result_or, ok, fault, arith, dec_lt,
}
use kernel_of_truth.Types
use kernel_of_truth.Types.{Status}
use kernel_of_truth.String.{Mem}
use kernel_of_truth.String.Memory.{EndsAt}
use kernel_of_truth.String.Compare.{Bytes, Running}
use kernel_of_truth.Object.{Object}
use kernel_of_truth.File.{
  File, Files, file_attach, file_detach, file_from_path, file_name_is_valid, name_loop,
}
use kernel_of_truth.File.Children.{occurs, Leaves, file_detach-Leaves}
use kernel_of_truth.File.Attach.{file_detach-file_attach, file_attach_unallocated}
use kernel_of_truth.File.Names.{FirstSlash, Unslashed, file_from_path_below}

abbrev names : Mem
names = λ x.
    if x == 10
    then b'a'
    else if x == 20
    then b'b'
    else if x == 30
    then b'd'
    else if x == 40
    then b'a'
    else if x == 41
    then b'/'
    else if x == 42
    then b'b'
    else 0

names-Bytes : Bytes names
names-Bytes x = ground arith

abbrev once : Object
once = record { ref_count = 1; free = false }

abbrev leaf : ℕ → File
leaf name = record {
  name = name;
  fini = false;
  parent = 0;
  child_capacity = 0;
  child_count = 0;
  allocated = false;
  children = λ _. 0;
  obj = once;
  frees = 0;
}

-- File 1 has the children 2 and 3, with room for ten.
abbrev tree : Files
tree = λ f.
    if f == 1
    then record (leaf 10) {
      child_capacity = 10;
      child_count = 2;
      allocated = true;
      children = λ i. get_or (2 ∷ 3 ∷ []) i 0;
    }
    else if f == 2
    then leaf 20
    else if f == 4
    then leaf 20
    else leaf 30

file_detach-Leaves_example :
    (result : Status × Files) × (file_detach tree 1 2 ≡ ok result) × Leaves tree 1 2 result
file_detach-Leaves_example =
    file_detach-Leaves tree 1 2 (λ e. omega (arith, e)) (λ e. omega (arith, e)) (omega arith)

ends : (a : ℕ) → names (a + 0) ≢ 0 → names (a + 1) ≡ 0 → EndsAt names a 1
ends a first last = (last, λ i lt. one i lt)
  where
    one : (i : ℕ) → i < 1 → ¬ (names (a + i) ≡ 0)
    one zero lt = first
    one (suc i) lt = absurd (omega arith)

abbrev attached : Status × Files
attached = result_or (Types.invalid, tree) (file_attach names tree true 1 4)

file_detach-file_attach_example :
    (detached : Files) × (file_detach attached.1 1 4 ≡ ok (Types.ok, detached))
    × ((c : ℕ)
        → occurs (detached 1).children (detached 1).child_count c
          ≡ occurs (tree 1).children (tree 1).child_count c)
    × ((detached 1).child_count ≡ (tree 1).child_count)
    × ((detached 1).obj ≡ (tree 1).obj)
    × ((detached 1).frees
        ≡ (tree 1).frees + bit (((tree 1).obj.ref_count == 0) && (tree 1).obj.free))
unfolding file_attach file_name_is_valid name_loop
file_detach-file_attach_example =
    file_detach-file_attach tree 1 4 (λ e. omega (arith, e)) names true 1 attached.1
      (λ e. omega (arith, e)) (λ e. omega (arith, e)) (ends 20 (λ e. omega (arith, e)) refl)
      (omega arith) (omega arith) (omega arith) refl (omega arith) refl

file_attach_unallocated_example :
    (fs' : Files) × (file_attach names tree true 3 1 ≡ ok (Types.no_memory, fs'))
    × (file_attach names fs' true 3 2 ≡ fault)
unfolding file_name_is_valid name_loop
file_attach_unallocated_example =
    file_attach_unallocated names tree true true 3 1 2 (λ e. omega (arith, e))
      (λ e. omega (arith, e)) (λ e. omega (arith, e)) refl refl (λ e. omega (arith, e)) refl refl
      (omega arith)

a_b : FirstSlash names 40 1
a_b = (omega arith, refl, λ j lt. before j lt)
  where
    before : (j : ℕ) → j < 1 → (names (40 + j) ≢ 0) × (names (40 + j) ≢ b'/')
    before zero lt = ((λ e. omega (arith, e)), λ e. omega (arith, e))
    before (suc j) lt = absurd (omega arith)

one_char : (a j : ℕ) → names (a + 1) ≡ 0 → Running names a 0 j → j ≤ 1
one_char a j ended running = elim (dec_lt 1 j) [
  | yes l ↦ absurd (running 1 (omega arith) l ended)
  | no n ↦ omega arith
]

plain_names : (i : ℕ) → i < (tree 1).child_count → Unslashed names (tree ((tree 1).children i)).name
plain_names zero lt j running =
    λ e. let le = one_char 20 j refl running in absurd (ground (arith, le, e))
plain_names (suc zero) lt j running =
    λ e. let le = one_char 30 j refl running in absurd (ground (arith, le, e))
plain_names (suc (suc i)) lt j running = absurd (omega arith)

file_from_path_below_example : file_from_path names 1 40 tree ≡ ok (0, tree)
file_from_path_below_example =
    file_from_path_below names names-Bytes 40 1 a_b (omega arith) 1 tree plain_names
      (λ e. omega (arith, e)) (λ e. omega (arith, e))
