-- ===== src/Tests/Processes.antt =====
-- Runs of kernel/core/process.c and sorted_list.c.
use kernel_of_truth.Base.{
  ℕ, ◌+◌, ◌%◌, ◌^◌, ◌==◌, ◌<◌, ◌≡◌, ◌≢◌, ◌⊎◌, refl, true, ltb, if◌then◌else◌, [], ◌∷◌, none, get_or,
  result_or, ok, fault, stuck, ◌>>=◌, arith, ℕ_discrete, ne→==,
}
use kernel_of_truth.Types
use kernel_of_truth.Types.{Status}
use kernel_of_truth.Hashtable.{
  Table, SlotState, blank, hashtable_get, hashtable_seek, hashtable_put, seek_loop,
}
use kernel_of_truth.Object.{Object}
use kernel_of_truth.Process.{
  Process, set_thread, process_add_pool, process_add_thread, place_thread, free_cell, Grants,
  Started, thread_init, start_thread, finish_thread,
}
use kernel_of_truth.Process.Pool.{process_add_pool-FirstFree}
use kernel_of_truth.Process.Threads.{Balanced, process_add_thread-Fits, thread_init-Balanced}
use kernel_of_truth.SortedList.{Order, less, greater, equal, SortedList, sorted_list_insert}
use kernel_of_truth.SortedList.Chain.{Chain, sorted_list_insert_fails}
use kernel_of_truth.Tests.Tables.{ℕ_Key}

abbrev once : Object
once = record { ref_count = 1; free = true }

-- Two cells, the first of them taken.
abbrev half_full : Process
half_full = record {
  id = 0;
  thread_count = 1;
  thread_capacity = 2;
  threads = λ i. get_or (77 ∷ []) i 0;
  threads_bytes = 16;
  obj = once;
}

process_add_thread-Fits_example :
    ((i : ℕ) × (i < 2)
      × (half_full.threads i ≡ 0)
      × ((l : ℕ) → l < i → half_full.threads l ≢ 0)
      × (process_add_thread true half_full 88
          ≡ ok (record {
            status = Types.ok;
            thread_id = i;
            process = record half_full { threads = set_thread half_full.threads i 88 };
          })))
    ⊎ (((j : ℕ) → j < 2 → half_full.threads j ≢ 0) × (process_add_thread true half_full 88 ≡ fault))
process_add_thread-Fits_example =
    process_add_thread-Fits true half_full 88 refl (omega arith) (omega arith)
      (λ e. omega (arith, e))

abbrev grants : Grants
grants = record {
  thread = 88;
  kernel_stack = 4096;
  user_status = Types.ok;
  user_stack = 8192;
  room = true;
}

abbrev started : Started
started =
    result_or (record { thread = none; process = half_full; taken = []; returned = [] })
      (thread_init grants half_full true)

thread_init-Balanced_example : Balanced grants half_full true started
unfolding thread_init start_thread finish_thread process_add_thread place_thread free_cell
thread_init-Balanced_example = thread_init-Balanced grants half_full true started refl

abbrev order : ℕ → ℕ → Order
order a b = if ltb a b then less else if a == b then equal else greater

-- The entry 5 alone.
abbrev five : SortedList
five = record { entries = 5; next = λ _. 0 }

sorted_list_insert_fails_example :
    ((l' : SortedList) × (sorted_list_insert order 100 five 4 ≡ ok l')
      × Chain l'.next l'.entries (5 ∷ []))
    ⊎ ((sorted_list_insert order 100 five 4 ≡ fault)
        ⊎ (sorted_list_insert order 100 five 4 ≡ stuck))
sorted_list_insert_fails_example =
    sorted_list_insert_fails order 4 (λ e. omega (arith, e)) refl five (5 ∷ []) 100
      (λ e. omega (arith, e)) (refl, (λ e. omega (arith, e)), refl) ((λ e. omega (arith, e)), tt)

-- Of three slots, one holds process 0.
abbrev pool : Table ℕ
pool = record {
  used = 1;
  size = 3;
  slots = λ i. if i == 0 then record { state = SlotState.full; key = 0; value = 77 } else blank;
}

abbrev held : ℕ → ℕ
held pid = if pid == 0 then 77 else 0

pool_returns : (pid : ℕ) → hashtable_get pool pid ≡ ok (held pid)
unfolding hashtable_get hashtable_seek seek_loop ℕ_Key
pool_returns pid = elim (ℕ_discrete pid 0) [
  | yes p ↦ rw p refl
  | no p ↦
      let absent = ne→== pid 0 p in
      elim (ℕ_discrete (pid % 3) 0) [
        | yes e ↦ rw (e, absent) refl
        | no e ↦ elim (ℕ_discrete (pid % 3) 1) [
          | yes e' ↦ rw (e', absent) refl
          | no e' ↦ let e'' : pid % 3 ≡ 2 = omega arith in rw (e'', absent) refl
        ]
      ]
]

process_add_pool-FirstFree_example :
    ((process_add_pool true pool 0 99 5 ≡ ok (Types.full, pool, 5))
      × ((e : ℕ) → e < 2 ^ 32 → held ((0 + e) % 2 ^ 32) ≢ 0))
    ⊎ ((e : ℕ) × (e < 2 ^ 32)
        × (held ((0 + e) % 2 ^ 32) ≡ 0)
        × ((c : ℕ) → c < e → held ((0 + c) % 2 ^ 32) ≢ 0)
        × (process_add_pool true pool 0 99 5 ≡ (
            hashtable_put pool ((0 + e) % 2 ^ 32) 99 true >>= λ r.
            ok (r.0, r.1, (0 + e) % 2 ^ 32))))
process_add_pool-FirstFree_example =
    process_add_pool-FirstFree true pool held 0 99 5 pool_returns (omega arith)
      (λ e. omega (arith, e))
