-- ===== src/File/Attach.antt =====
-- `file_attach` of kernel/core/file.c, and `file_detach` after it.
use kernel_of_truth.Base.{
  ℕ, suc, ◌+◌, ◌-◌, ◌%◌, ◌^◌, ◌==◌, ◌&&◌, ◌≤◌, ◌<◌, ◌≡◌, ◌≢◌, refl, inl, inr, Bool, true, false,
  bit, ok, fault, ok_injective, arith, ℕ_discrete, Bool-cases, sym, ◌∙◌, ap, subst, ne→==, eq→==,
  ==_refl,
}
use kernel_of_truth.Types
use kernel_of_truth.Types.{Status, add64, sub64, u64_mod}
use kernel_of_truth.String.{Mem}
use kernel_of_truth.Object.{Object, object_retain, object_release}
use kernel_of_truth.File.{
  File, Files, update_file, join, file_name_is_valid, file_attach, file_detach,
}
use kernel_of_truth.File.Names.{file_name_is_valid_iff}
use kernel_of_truth.String.Memory.{EndsAt}
use kernel_of_truth.File.Children.{occurs, Leaves, file_detach-Leaves, occurs-set_child_past}

object_release-object_retain :
    (o : Object) → o.ref_count + 1 < 2 ^ 32 → (object_release (object_retain o)).0 ≡ o
unfolding object_retain object_release
object_release-object_retain o h =
    let n : ((o.ref_count + 1) % 2 ^ 32 + 2 ^ 32 - 1) % 2 ^ 32 ≡ o.ref_count = omega arith in
    rw n refl

-- The function that frees the file has been called once more if the file had no reference, and else
-- as often as before.
abbrev pub FreedOnce : File → File → Type 0
FreedOnce f f' = f'.frees ≡ f.frees + bit ((f.obj.ref_count == 0) && f.obj.free)

retained_once :
    (f : File)
    → f.obj.ref_count + 1 < 2 ^ 32
    → f.frees + bit (((object_retain f.obj).ref_count == 1) && (object_retain f.obj).free)
      ≡ f.frees + bit ((f.obj.ref_count == 0) && f.obj.free)
unfolding object_retain
retained_once f h = ground arith

-- What `file_attach` makes of the store: a child more, with a reference more to the parent and within
-- the capacity of the array, or no change but of the capacity.
abbrev pub Joins : Files → ℕ → ℕ → Status × Files → Type 0
Joins fs parent child (Types.ok, fs') =
    ((c : ℕ)
      → occurs (fs' parent).children (fs' parent).child_count c
        ≡ occurs (fs parent).children (fs parent).child_count c + bit (child == c))
    × ((fs' parent).child_count ≡ (fs parent).child_count + 1)
    × ((fs' parent).child_count ≤ (fs' parent).child_capacity)
    × ((fs' parent).obj ≡ object_retain (fs parent).obj)
    × ((fs' parent).frees ≡ (fs parent).frees)
    × ((fs' child).parent ≡ parent)
    × ((x : ℕ) → x ≢ parent → x ≢ child → fs' x ≡ fs x)
Joins fs parent child (status, fs') =
    ((fs' parent).children ≡ (fs parent).children)
    × ((fs' parent).child_count ≡ (fs parent).child_count)
    × ((fs' parent).obj ≡ (fs parent).obj)
    × ((x : ℕ) → x ≢ parent → fs' x ≡ fs x)

module _ (fs : Files) (parent child : ℕ) (other : parent ≢ child) where
  join-Joins :
      (fs parent).child_count + 1 < u64_mod
      → (fs parent).child_count < (fs parent).child_capacity
      → Joins fs parent child (Types.ok, join fs parent child)
  join-Joins small room =
      let f = fs parent in
      let self = ==_refl parent in
      let self' = ==_refl child in
      let apart = ne→== _ _ other in
      let apart' = ne→== child parent (λ e. other (sym e)) in
      let count : add64 f.child_count 1 ≡ suc f.child_count = omega arith in
      let cell = ==_refl f.child_count in
      (
        (λ c.
            rw (self, apart, count, cell)
              (omega (
                arith,
                occurs-set_child_past f.children f.child_count f.child_count child c (omega arith),
              ))),
        rw (self, apart, count) (omega arith),
        rw (self, apart, count) (omega arith),
        rw (self, apart) refl,
        rw (self, apart) refl,
        rw (self', apart') refl,
        λ x no_parent no_child. rw (ne→== _ _ no_parent, ne→== _ _ no_child) refl,
      )

  -- The store with another capacity of the array of the parent.
  abbrev sized : ℕ → Files
  sized capacity = update_file fs parent λ f. record f { child_capacity = capacity }

  sized-parent :
      (capacity : ℕ) → sized capacity parent ≡ record (fs parent) { child_capacity = capacity }
  sized-parent capacity = rw (==_refl parent) refl

  sized-other : (capacity x : ℕ) → x ≢ parent → sized capacity x ≡ fs x
  sized-other capacity x no_parent = rw (ne→== _ _ no_parent) refl

module _ (fs : Files) (parent child : ℕ) (other : parent ≢ child) where
  join_sized-Joins :
      (capacity : ℕ)
      → (fs parent).child_count + 1 < u64_mod
      → (fs parent).child_count < capacity
      → Joins fs parent child (Types.ok, join (sized fs parent child other capacity) parent child)
  join_sized-Joins capacity small room =
      let grown = sized fs parent child other capacity in
      let q = sized-parent fs parent child other capacity in
      let count : (grown parent).child_count ≡ (fs parent).child_count =
        ap (λ f. f.child_count) q in
      let space : (grown parent).child_capacity ≡ capacity = ap (λ f. f.child_capacity) q in
      let (occur, counted, fits, held, unfreed, owner, frame) =
        join-Joins grown parent child other (omega (arith, count)) (omega (arith, count, space)) in
      (
        (λ c. occur c ∙ ap (λ f. occurs f.children f.child_count c + bit (child == c)) q),
        counted ∙ ap (λ n. n + 1) count,
        fits,
        held ∙ ap (λ f. object_retain f.obj) q,
        unfreed ∙ ap (λ f. f.frees) q,
        owner,
        λ x no_parent no_child.
            frame x no_parent no_child ∙ sized-other fs parent child other capacity x no_parent,
      )

  -- `file_attach` of two different files, neither of them NULL, the child with a name that ends and
  -- the parent with an array for its children, returns: with Ok the child is among the children of the parent once more, which fit in the array
  -- as they did, the parent has a reference more, and the child has its parent; with an error the
  -- children are as they were. No other file changes.
  pub file_attach-Joins :
      (m : Mem) (granted : Bool) (n : ℕ)
      → parent ≢ 0
      → child ≢ 0
      → EndsAt m (fs child).name n
      → n < u64_mod
      → (fs parent).child_count ≤ (fs parent).child_capacity
      → (fs parent).child_capacity + 10 < u64_mod
      → (fs parent).allocated ≡ true
      → (result : Status × Files) × (file_attach m fs granted parent child ≡ ok result)
        × Joins fs parent child result
  unfolding file_attach
  file_attach-Joins m granted n p c ends short fits small array =
      elim (file_name_is_valid_iff m (fs child).name n ends short) [
        | inr (e, bad) ↦ (
          (Types.invalid, fs),
          rw (ne→== _ _ p, ne→== _ _ c, e) refl,
          (refl, refl, refl, λ x other. refl),
        )
        | inl (e, nonempty, plain) ↦
            let f = fs parent in
            let capacity : add64 f.child_capacity 10 ≡ f.child_capacity + 10 = omega arith in
            elim (ℕ_discrete f.child_capacity f.child_count) [
              | no roomy ↦ (
                (Types.ok, join fs parent child),
                rw (ne→== _ _ p, ne→== _ _ c, e, ne→== _ _ roomy, array) refl,
                join-Joins fs parent child other (omega arith) (omega arith),
              )
              | yes full ↦
                  let grown = sized fs parent child other (add64 f.child_capacity 10) in
                  let q = sized-parent fs parent child other (add64 f.child_capacity 10) in
                  elim (Bool-cases granted) [
                    | inl got ↦ (
                      (Types.ok, join grown parent child),
                      rw (ne→== _ _ p, ne→== _ _ c, e, eq→== _ _ full, array, got) refl,
                      join_sized-Joins (add64 f.child_capacity 10) (omega arith) (omega arith),
                    )
                    | inr none_left ↦ (
                      (Types.no_memory, grown),
                      rw (ne→== _ _ p, ne→== _ _ c, e, eq→== _ _ full, array, none_left) refl,
                      (
                        ap (λ f. f.children) q,
                        ap (λ f. f.child_count) q,
                        ap (λ f. f.obj) q,
                        sized-other fs parent child other (add64 f.child_capacity 10),
                      ),
                    )
                  ]
            ]
      ]

  -- What `file_detach` does where the child has just joined.
  after_join :
      (attached : Files) (result : Status × Files)
      → Joins fs parent child (Types.ok, attached)
      → Leaves attached parent child result
      → (fs parent).obj.ref_count + 1 < 2 ^ 32
      → (result.0 ≡ Types.ok)
        × ((c : ℕ)
            → occurs (result.1 parent).children (result.1 parent).child_count c
              ≡ occurs (fs parent).children (fs parent).child_count c)
        × ((result.1 parent).child_count ≡ (fs parent).child_count)
        × ((result.1 parent).obj ≡ (fs parent).obj)
        × FreedOnce (fs parent) (result.1 parent)
  after_join attached (Types.ok, detached) joins leaves refs =
      let (occur, counted, fits, held, unfreed, owner, frame) = joins in
      let (occur', counted', held', freed', frame') = leaves in
      (
        refl,
        (λ c. omega (arith, occur c, occur' c)),
        omega (arith, counted, counted'),
        held'
            ∙ ap (λ o. (object_release o).0) held
            ∙ object_release-object_retain (fs parent).obj refs,
        freed'
            ∙ ap (λ o. (attached parent).frees + bit ((o.ref_count == 1) && o.free)) held
            ∙ ap
                (λ n.
                  n
                  + bit (
                      ((object_retain (fs parent).obj).ref_count == 1)
                      && (object_retain (fs parent).obj).free))
                unfreed
            ∙ retained_once (fs parent) refs,
      )
  after_join attached (status, detached) joins leaves refs =
      let here = joins.0 child in
      let none_there = leaves.2 in
      let e = ==_refl child in absurd (ground (arith, here, none_there, e))

  -- A child that `file_attach` has attached can be detached: `file_detach` returns Ok, every file is as
  -- often among the children as before both calls, and the parent has the references it had, if they
  -- were less than the greatest number of 32 bits. The function that frees the parent is called
  -- exactly when the parent has one and had no reference before.
  pub file_detach-file_attach :
      (m : Mem) (granted : Bool) (n : ℕ) (attached : Files)
      → parent ≢ 0
      → child ≢ 0
      → EndsAt m (fs child).name n
      → n < u64_mod
      → (fs parent).child_count ≤ (fs parent).child_capacity
      → (fs parent).child_capacity + 10 < u64_mod
      → (fs parent).allocated ≡ true
      → (fs parent).obj.ref_count + 1 < 2 ^ 32
      → file_attach m fs granted parent child ≡ ok (Types.ok, attached)
      → (detached : Files) × (file_detach attached parent child ≡ ok (Types.ok, detached))
        × ((c : ℕ)
            → occurs (detached parent).children (detached parent).child_count c
              ≡ occurs (fs parent).children (fs parent).child_count c)
        × ((detached parent).child_count ≡ (fs parent).child_count)
        × ((detached parent).obj ≡ (fs parent).obj)
        × FreedOnce (fs parent) (detached parent)
  file_detach-file_attach m granted n attached p c ends short fits small array refs returned =
      let (result, run, joined) = file_attach-Joins m granted n p c ends short fits small array in
      let same = ok_injective (sym run ∙ returned) in
      let joins : Joins fs parent child (Types.ok, attached) =
        subst (Joins fs parent child) same joined in
      let (result', run', left) =
        file_detach-Leaves attached parent child p c (omega (arith, joins.1)) in
      let (status, occurs_as, count_as, held_as, freed_as) =
        after_join attached result' joins left refs in
      (result'.1, run' ∙ ap (λ s. ok (s, result'.1)) status, occurs_as, count_as, held_as, freed_as)

-- A file without an array for its children never gets one, since `krealloc` of NULL returns NULL:
-- the first `file_attach` to it, of a child with a valid name, returns Error_No_Memory, whether there
-- is room or not, and the next stores through NULL.
pub file_attach_unallocated :
    (m : Mem) (fs : Files) (granted granted' : Bool) (parent child child' : ℕ)
    → parent ≢ 0
    → child ≢ 0
    → child' ≢ 0
    → file_name_is_valid m (fs child).name ≡ ok Types.ok
    → file_name_is_valid m (fs child').name ≡ ok Types.ok
    → parent ≢ child'
    → (fs parent).allocated ≡ false
    → (fs parent).child_capacity ≡ (fs parent).child_count
    → (fs parent).child_count + 10 < u64_mod
    → (fs' : Files) × (file_attach m fs granted parent child ≡ ok (Types.no_memory, fs'))
      × (file_attach m fs' granted' parent child' ≡ fault)
unfolding file_attach
file_attach_unallocated m fs granted granted' parent child child' p c c' named named' other array
      full small =
    let f = fs parent in
    let grown =
      update_file fs parent
        λ f. record f { child_capacity = add64 (fs parent).child_capacity 10 } in
    let capacity : add64 f.child_capacity 10 ≡ f.child_count + 10 = omega (arith, full) in
    let more : f.child_count + 10 ≢ f.child_count = λ e. omega (arith, e) in
    let apart = ne→== child' parent (λ e. other (sym e)) in
    (
      grown,
      rw (ne→== _ _ p, ne→== _ _ c, named, eq→== _ _ full, array) refl,
      rw (ne→== _ _ p, ne→== _ _ c', apart, named', ==_refl parent, capacity, ne→== _ _ more, array)
          refl,
    )
