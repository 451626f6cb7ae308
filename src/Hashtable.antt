-- ===== src/Hashtable.antt =====
-- kernel/core/hashtable.c: a table with open addressing and linear probing.
-- Keys are compared and hashed by functions that the table is given (`comp`, `hash`); `granted` says
-- whether `kmalloc` has room for the new array when the table grows. The array is a function of the
-- index, which the code always reduces modulo the size.
pub mod Probe
pub mod Lookup
pub mod Update
pub mod Change
pub mod Failure
use kernel_of_truth.Base.{
  ℕ, zero, suc, ◌+◌, ◌-◌, ◌*◌, ◌/◌, ◌%◌, ◌==◌, ◌&&◌, ◌||◌, Bool, true, false, not, if◌then◌else◌,
  ltb, Option, none, some, Run, ok, panic, fault, ◌>>=◌, ◌>>◌, assert, ◌≡◌,
}
use kernel_of_truth.Types
use kernel_of_truth.Types.{Status, add64, sub64, u64_mod}

-- `hash_f` and `partial_comp_f`, with what the comparison of keys and the hash owe to one another.
-- `nil` is the key whose bits are all zero.
pub record Key {ℓ} (K : Type ℓ) : Type ℓ where
  pub hash : K → ℕ
  pub comp : K → K → Bool
  pub nil : K
  pub comp_refl : (a : K) → comp a a ≡ true
  pub comp_symm : (a b : K) → comp a b ≡ comp b a
  pub comp_trans : (a b c : K) → comp a b ≡ true → comp b c ≡ true → comp a c ≡ true
  pub hash-comp : (a b : K) → comp a b ≡ true → hash a ≡ hash b

-- `enum hashdata_state`
pub data SlotState : Type 0 where
  empty tombstone full : SlotState

abbrev pub is_empty : SlotState → Bool
is_empty empty = true
is_empty _ = false

abbrev pub is_full : SlotState → Bool
is_full full = true
is_full _ = false

-- `struct hashdata`
pub record Slot {ℓ} (K : Type ℓ) : Type ℓ where
  pub state : SlotState
  pub key : K
  pub value : ℕ

-- `struct hashtable`, less the two functions
pub record Table {ℓ} (K : Type ℓ) : Type ℓ where
  pub used : ℕ
  pub size : ℕ
  pub slots : ℕ → Slot K

abbrev pub store {ℓ} : {K : Type ℓ} → (ℕ → Slot K) → ℕ → Slot K → ℕ → Slot K
store slots i s j = if j == i then s else slots j

-- `should_grow` and `should_shrink`
unfoldable pub should_grow : ℕ → ℕ → Bool
should_grow size used = ltb (sub64 size used) (size / 4)

unfoldable pub should_shrink : ℕ → ℕ → Bool
should_shrink size used = ltb used (size / 4) && ltb size 32

module _ {ℓ} {K : Type ℓ} ⦃k : Key K⦄ where
  -- The array of a new table, after `memset`.
  abbrev pub blank : Slot K
  blank = record { state = empty; key = k.nil; value = 0 }

  -- `hashtable_init`: `none` for NULL.
  unfoldable pub hashtable_init : ℕ → Bool → Bool → Option (Table K)
  hashtable_init size table_granted data_granted =
      if table_granted && data_granted
      then some (record { used = 0; size = size; slots = λ _. blank })
      else none

  -- The probing loop of `hashtable_seek`, on fuel; the result is the index of a slot, or NULL.
  unfoldable pub seek_loop : Table K → K → ℕ → ℕ → ℕ → Run (Option ℕ)
  seek_loop t q hash zero s = fault
  seek_loop t q hash (suc f) s =
      let rest = seek_loop t q hash f ((s + 1) % t.size) in
      if s == hash
      then panic
      else if is_empty (t.slots s).state
      then ok none
      else if is_full (t.slots s).state && k.comp q (t.slots s).key
      then ok (some s)
      else rest

  -- `hashtable_seek`; a size of 0 divides by zero.
  unfoldable pub hashtable_seek : Table K → K → Run (Option ℕ)
  hashtable_seek t q =
      let hash = k.hash q % t.size in
      if t.size == 0
      then fault
      else if is_full (t.slots hash).state && k.comp q (t.slots hash).key
      then ok (some hash)
      else seek_loop t q hash t.size ((hash + 1) % t.size)

  -- The probing loop of `hashtable_seek_empty`.
  unfoldable pub seek_empty_loop : Table K → ℕ → ℕ → ℕ → Run ℕ
  seek_empty_loop t hash zero s = fault
  seek_empty_loop t hash (suc f) s =
      let rest = seek_empty_loop t hash f ((s + 1) % t.size) in
      if s == hash then panic else if is_empty (t.slots s).state then ok s else rest

  -- `hashtable_seek_empty`. That it marks the slot as full is part of `fill`, its only caller.
  unfoldable pub hashtable_seek_empty : Table K → K → Run ℕ
  hashtable_seek_empty t q =
      let hash = k.hash q % t.size in
      if t.size == 0
      then fault
      else if is_empty (t.slots hash).state
      then ok hash
      else seek_empty_loop t hash t.size ((hash + 1) % t.size)

  -- The writes of `hashtable_put` to the slot that it has found.
  abbrev pub fill : Table K → ℕ → K → ℕ → Table K
  fill t i q v = record t {
    slots = store t.slots i (record { state = full; key = q; value = v });
    used = add64 t.used 1;
  }

  -- `hashtable_put` up to the test for growth.
  unfoldable pub insert : Table K → K → ℕ → Run (Table K)
  unfolding hashtable_seek_empty
  insert t q v = do i ← hashtable_seek_empty t q; ok (fill t i q v)

  -- The loop of `hashtable_rebalance` over the old slots, with `n` left, into the table `new`. `put` is
  -- the call of `hashtable_put`; its error ends the loop.
  rebuild :
      (Table K → K → ℕ → Run (Status × Table K))
      → (ℕ → Slot K)
      → ℕ
      → ℕ
      → Table K
      → Run (Status × Table K)
  rebuild put old zero s new = ok (Types.ok, new)
  rebuild put old (suc n) s new =
      let go_on = rebuild put old n (s + 1) new in
      let insertion =
        put new (old s).key (old s).value
        >>= (λ r. elim r.0 [ Types.ok ↦ rebuild put old n (s + 1) r.1 | e ↦ ok (e, r.1) ]) in
      if is_full (old s).state then insertion else go_on

  -- The end of `hashtable_rebalance`: the table takes the new array over, unless the loop failed.
  abbrev pub adopt : Table K → Status × Table K → Status × Table K
  adopt t (Types.ok, new) = (Types.ok, new)
  adopt t (e, new) = (e, t)

  -- `hashtable_rebalance`
  rebalance :
      (Table K → K → ℕ → Run (Status × Table K)) → Bool → Table K → ℕ → Run (Status × Table K)
  unfolding rebuild
  rebalance put granted t new_size =
      let new : Table K = record { used = 0; size = new_size; slots = λ _. blank } in
      let rebuilt = rebuild put t.slots t.size 0 new >>= λ r. ok (adopt t r) in
      assert (ltb t.size new_size) >> (if granted then rebuilt else ok (Types.no_memory, t))

  -- `hashtable_put`, to the depth of nested calls given.
  pub put_depth : ℕ → Bool → Table K → K → ℕ → Run (Status × Table K)
  unfolding insert rebalance
  put_depth zero granted t q v = fault
  put_depth (suc d) granted t q v = insert t q v >>= λ t'.
      let grown = rebalance (put_depth d granted) granted t' ((t'.size * 2) % u64_mod) in
      if should_grow t'.size t'.used then grown else ok (Types.ok, t')

  -- A table that grows puts its entries into one of twice the size, which does not grow in turn.
  unfoldable pub hashtable_put : Table K → K → ℕ → Bool → Run (Status × Table K)
  unfolding put_depth
  hashtable_put t q v granted = put_depth 2 granted t q v

  -- `hashtable_get`: 0 for NULL.
  abbrev pub value_at : Table K → Option ℕ → ℕ
  value_at t none = 0
  value_at t (some i) = (t.slots i).value

  unfoldable pub hashtable_get : Table K → K → Run ℕ
  unfolding hashtable_seek
  hashtable_get t q = hashtable_seek t q >>= λ found. ok (value_at t found)

  -- The writes of `hashtable_remove` to the slot that it has found.
  abbrev pub bury : Table K → ℕ → Table K
  bury t i = record t {
    slots = store t.slots i (record (t.slots i) { state = tombstone });
    used = sub64 t.used 1;
  }

  -- `hashtable_remove` from its search on: it writes through the pointer without a test for NULL.
  remove_at : Bool → Table K → Option ℕ → Run (Status × Table K)
  unfolding rebalance put_depth
  remove_at granted t none = fault
  remove_at granted t (some i) =
      let t' = bury t i in
      let shrunk = rebalance (put_depth 2 granted) granted t' (t'.size / 2) in
      if should_shrink t'.size t'.used then shrunk else ok (Types.ok, t')

  unfoldable pub hashtable_remove : Table K → K → Bool → Run (Status × Table K)
  unfolding hashtable_seek remove_at
  hashtable_remove t q granted = hashtable_seek t q >>= remove_at granted t
