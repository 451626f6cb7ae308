-- ===== src/SortedList/Chain.antt =====
-- The lists of kernel/core/sorted_list.c as sequences of entries.
use kernel_of_truth.Base.{
  ℕ, zero, suc, ◌<◌, ◌≡◌, ◌≢◌, ◌⊎◌, refl, inl, inr, true, false, List, [], ◌∷◌, ◌++◌, All, length,
  ok, fault, stuck, arith, ne→==, eq→==, ==_refl, sym, subst, ℕ_discrete, Bool-cases,
}
use kernel_of_truth.SortedList.{
  Order, equal, is_equal, is_less, SortedList, link, contains_loop, sorted_list_contains,
  insert_entry_loop, sorted_list_insert, remove_entry_loop, sorted_list_remove,
}

-- The links lead from `cur` through the entries `xs` to NULL.
abbrev pub Chain : (ℕ → ℕ) → ℕ → List ℕ → Type 0
Chain next cur [] = cur ≡ 0
Chain next cur (x ∷ xs) = (cur ≡ x) × (x ≢ 0) × Chain next (next x) xs

-- The link of an entry that is not in the list says nothing of it.
link-Chain :
    (next : ℕ → ℕ) (e target cur : ℕ) (xs : List ℕ)
    → Chain next cur xs
    → All (λ x. x ≢ e) xs
    → Chain (link next e target) cur xs
link-Chain next e target cur [] chain apart = chain
link-Chain next e target cur (x ∷ xs) (here, some_entry, rest) (other, apart) =
    let behind : link next e target x ≡ next x = rw (ne→== x e other) refl in
    (
      here,
      some_entry,
      subst (λ y. Chain (link next e target) y xs) (sym behind)
          (link-Chain next e target (next x) xs rest apart),
    )

module _ (compare : ℕ → ℕ → Order) (entry : ℕ) where
  -- No entry of these compares equal to the one looked for.
  abbrev pub Unequal : List ℕ → Type 0
  Unequal xs = All (λ x. is_equal (compare entry x) ≡ false) xs

  -- `sorted_list_remove` of the entry behind `before`: what comes after it is the list.
  remove_entry_loop-Chain :
      (l : SortedList) (before : List ℕ) (x : ℕ) (behind : List ℕ) (fuel cur : ℕ)
      → Chain l.next cur (before ++ x ∷ behind)
      → Unequal before
      → is_equal (compare entry x) ≡ true
      → length before < fuel
      → remove_entry_loop compare l entry fuel cur
        ≡ ok (record { entries = l.next x; next = link l.next x 0 })
  unfolding remove_entry_loop
  remove_entry_loop-Chain l before x behind zero cur chain others here enough = absurd (omega arith)
  remove_entry_loop-Chain l [] x behind (suc fuel) cur (e, some_entry, rest) others here enough =
      rw (e, ne→== _ _ some_entry, here) refl
  remove_entry_loop-Chain l (y ∷ before) x behind (suc fuel) cur (e, some_entry, rest)
        (other, others) here enough =
      rw (e, ne→== _ _ some_entry, other)
        (remove_entry_loop-Chain l before x behind fuel (l.next y) rest others here (omega arith))

  -- `sorted_list_remove` of the entry that is the first to compare equal, with fuel for those before
  -- it, returns, and loses all that comes before: the list is what comes after it.
  pub sorted_list_remove_cuts :
      (l : SortedList) (before : List ℕ) (x : ℕ) (behind : List ℕ) (fuel : ℕ)
      → Chain l.next l.entries (before ++ x ∷ behind)
      → Unequal before
      → is_equal (compare entry x) ≡ true
      → length before < fuel
      → sorted_list_remove compare fuel l entry
        ≡ ok (record { entries = l.next x; next = link l.next x 0 })
  unfolding sorted_list_remove
  sorted_list_remove_cuts l before x behind fuel chain others here enough =
      remove_entry_loop-Chain l before x behind fuel l.entries chain others here enough

  contains_loop-Chain :
      (next : ℕ → ℕ) (xs : List ℕ) (fuel cur : ℕ)
      → Chain next cur xs
      → length xs < fuel
      → ((contains_loop compare next entry fuel cur ≡ ok false) × Unequal xs)
        ⊎ ((contains_loop compare next entry fuel cur ≡ ok true) × ¬ Unequal xs)
  unfolding contains_loop
  contains_loop-Chain next xs zero cur chain enough = absurd (omega arith)
  contains_loop-Chain next [] (suc fuel) cur chain enough = inl (rw (eq→== _ _ chain) refl, tt)
  contains_loop-Chain next (x ∷ xs) (suc fuel) cur (e, some_entry, rest) enough =
      elim (Bool-cases (is_equal (compare entry x))) [
        | inl here ↦ inr (
          rw (e, ne→== _ _ some_entry, here) refl,
          λ others. absurd (ground (arith, others.0, here)),
        )
        | inr other ↦
            rw (e, ne→== _ _ some_entry, other)
              (elim (contains_loop-Chain next xs fuel (next x) rest (omega arith)) [
                | inl (run, others) ↦ inl (run, (refl, others))
                | inr (run, found) ↦ inr (run, λ others. found others.1)
              ])
      ]

  -- `sorted_list_contains` of a list of entries, with fuel for one round more than it has entries,
  -- returns, and says whether an entry compares equal.
  pub sorted_list_contains-Unequal :
      (l : SortedList) (xs : List ℕ) (fuel : ℕ)
      → Chain l.next l.entries xs
      → length xs < fuel
      → ((sorted_list_contains compare fuel l entry ≡ ok false) × Unequal xs)
        ⊎ ((sorted_list_contains compare fuel l entry ≡ ok true) × ¬ Unequal xs)
  unfolding sorted_list_contains
  sorted_list_contains-Unequal l xs fuel chain enough =
      contains_loop-Chain l.next xs fuel l.entries chain enough

  module _ (some_entry : entry ≢ 0) (same : compare entry entry ≡ equal) where
    -- Once the entry follows itself, the loop goes round for ever.
    spins : (fuel : ℕ) (next : ℕ → ℕ) → insert_entry_loop compare entry fuel entry next ≡ stuck
    unfolding insert_entry_loop
    spins zero next = refl
    spins (suc fuel) next =
        let here = ==_refl entry in rw (ne→== _ _ some_entry, same, here) (spins fuel _)

    insert_entry_loop-never :
        (fuel cur : ℕ) (next : ℕ → ℕ)
        → (insert_entry_loop compare entry fuel cur next ≡ ok next)
          ⊎ ((insert_entry_loop compare entry fuel cur next ≡ fault)
              ⊎ (insert_entry_loop compare entry fuel cur next ≡ stuck))
    unfolding insert_entry_loop
    insert_entry_loop-never zero cur next = inr (inr refl)
    insert_entry_loop-never (suc fuel) cur next = elim (ℕ_discrete cur 0) [
      | yes e ↦ inl (rw (eq→== _ _ e) refl)
      | no e ↦ elim (Bool-cases (is_less (compare entry cur))) [
        | inl before ↦ elim (ℕ_discrete (next cur) 0) [
          | yes last ↦ inr (inl (rw (ne→== _ _ e, before, eq→== _ _ last) refl))
          | no more ↦
              rw (ne→== _ _ e, before, ne→== _ _ more)
                (insert_entry_loop-never fuel (next (next cur)) next)
        ]
        | inr behind ↦
            let here = ==_refl cur in inr (inr (rw (ne→== _ _ e, behind, here) (spins fuel _)))
      ]
    ]

    -- `sorted_list_insert` of an entry that compares equal to itself never enters it into a list that is
    -- not empty and does not hold it, whatever else the order says and whatever the fuel: it does not
    -- return, or it reads through NULL, or it returns and the list has the entries it had.
    pub sorted_list_insert_fails :
        (l : SortedList) (xs : List ℕ) (fuel : ℕ)
        → l.entries ≢ 0
        → Chain l.next l.entries xs
        → All (λ x. x ≢ entry) xs
        → ((l' : SortedList) × (sorted_list_insert compare fuel l entry ≡ ok l')
            × Chain l'.next l'.entries xs)
          ⊎ ((sorted_list_insert compare fuel l entry ≡ fault)
              ⊎ (sorted_list_insert compare fuel l entry ≡ stuck))
    unfolding sorted_list_insert
    sorted_list_insert_fails l xs fuel some_list chain apart =
        elim (insert_entry_loop-never fuel l.entries l.next) [
          | inl e ↦ inl (
            record { entries = l.entries; next = link l.next entry 0 },
            rw (e, ne→== _ _ some_list) refl,
            link-Chain l.next entry 0 l.entries xs chain apart,
          )
          | inr (inl e) ↦ inr (inl (rw e refl))
          | inr (inr e) ↦ inr (inr (rw e refl))
        ]
