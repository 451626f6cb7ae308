-- ===== src/SortedList.antt =====
-- include/truth/sorted_list.h and kernel/core/sorted_list.c: linked lists that are meant to be sorted.
-- Entries are known by their addresses, 0 for NULL. Loops run on fuel, and are `stuck` without.
pub mod Chain
use kernel_of_truth.Base.{
  ℕ, zero, suc, ◌+◌, ◌==◌, ◌≤◌, ◌<◌, ◌≡◌, ◌≢◌, ◌⊎◌, refl, inl, inr, Bool, true, false,
  if◌then◌else◌, List, [], ◌∷◌, ◌++◌, All, length, Run, ok, fault, stuck, ◌>>=◌, arith, sym, ◌∙◌,
  ap, subst, ne→==, eq→==, ==→eq, ==_refl, ℕ_discrete, Bool-cases,
}

-- `enum order`
pub data Order : Type 0 where
  equal greater less : Order

abbrev pub is_equal : Order → Bool
is_equal equal = true
is_equal greater = false
is_equal less = false

abbrev pub is_less : Order → Bool
is_less equal = false
is_less greater = false
is_less less = true

-- `struct sorted_list`, with the links of all entries.
pub record SortedList : Type 0 where
  pub entries : ℕ
  pub next : ℕ → ℕ

abbrev pub link : (ℕ → ℕ) → ℕ → ℕ → ℕ → ℕ
link next e target x = if x == e then target else next x

module _ (compare : ℕ → ℕ → Order) where
  -- The loop of `sorted_list_contains`.
  unfoldable pub contains_loop : (ℕ → ℕ) → ℕ → ℕ → ℕ → Run Bool
  contains_loop next entry zero cur = stuck
  contains_loop next entry (suc fuel) cur =
      let rest = contains_loop next entry fuel (next cur) in
      if cur == 0 then ok false else if is_equal (compare entry cur) then ok true else rest

  -- `sorted_list_contains`
  unfoldable pub sorted_list_contains : ℕ → SortedList → ℕ → Run Bool
  sorted_list_contains fuel l entry = contains_loop l.next entry fuel l.entries

  -- The loop of `sorted_list_insert`: the links after it. A look at the link of NULL faults.
  unfoldable pub insert_entry_loop : ℕ → ℕ → ℕ → (ℕ → ℕ) → Run (ℕ → ℕ)
  insert_entry_loop entry zero cur next = stuck
  insert_entry_loop entry (suc fuel) cur next =
      let skipped = next cur in
      let inserted = link (link next entry (next cur)) cur entry in
      let past = insert_entry_loop entry fuel (next skipped) next in
      let on = insert_entry_loop entry fuel (inserted cur) inserted in
      if cur == 0
      then ok next
      else if is_less (compare entry cur)
      then if skipped == 0 then fault else past
      else on

  -- `sorted_list_insert`
  unfoldable pub sorted_list_insert : ℕ → SortedList → ℕ → Run SortedList
  sorted_list_insert fuel l entry =
      let first = if l.entries == 0 then entry else l.entries in
      insert_entry_loop entry fuel l.entries l.next >>= λ next.
      ok (record { entries = first; next = link next entry 0 })

  -- The loop of `sorted_list_remove`: `prev` is never assigned to in it, so that it stays NULL.
  unfoldable pub remove_entry_loop : SortedList → ℕ → ℕ → ℕ → Run SortedList
  remove_entry_loop l entry zero cur = stuck
  remove_entry_loop l entry (suc fuel) cur =
      let rest = remove_entry_loop l entry fuel (l.next cur) in
      if cur == 0
      then ok l
      else if is_equal (compare entry cur)
      then ok (record { entries = l.next cur; next = link l.next cur 0 })
      else rest

  -- `sorted_list_remove`
  unfoldable pub sorted_list_remove : ℕ → SortedList → ℕ → Run SortedList
  sorted_list_remove fuel l entry = remove_entry_loop l entry fuel l.entries
