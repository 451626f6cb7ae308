-- ===== src/Process.antt =====
-- kernel/core/process.c: processes, their threads, and the pool of all processes. Threads and
-- processes are known by their addresses, 0 for NULL. What the allocators answer is given; what a
-- function takes from them and gives back is listed.
pub mod Pool
pub mod Threads
use kernel_of_truth.Base.{
  ℕ, zero, suc, ◌+◌, ◌*◌, ◌%◌, ◌^◌, ◌==◌, ◌&&◌, ◌||◌, Bool, true, false, not, if◌then◌else◌, leb,
  Option, none, some, List, [], ◌∷◌, ◌++◌, Run, ok, panic, fault, ◌>>=◌, ◌>>◌, assert,
}
use mathlib.Core.List.{reverse}
use kernel_of_truth.Types
use kernel_of_truth.Types.{Status, is_ok}
use kernel_of_truth.Hashtable.{
  Key, Table, hashtable_init, hashtable_get, hashtable_put, hashtable_remove,
}
use kernel_of_truth.Object.{Object, object_retain, object_release, object_clear}

-- Thread_Pool_Default_Size and Process_Pool_Default_Size
abbrev pub thread_pool_default_size : ℕ
thread_pool_default_size = 10

abbrev pub process_pool_default_size : ℕ
process_pool_default_size = 100

-- `struct process`, as far as its threads go: the array `threads`, the bytes of the block that it lies
-- in (0 for NULL), and the count that the code takes for its length.
pub record Process : Type 0 where
  pub id : ℕ
  pub thread_count : ℕ
  pub thread_capacity : ℕ
  pub threads : ℕ → ℕ
  pub threads_bytes : ℕ
  pub obj : Object

-- The loop of `process_add_pool` on fuel: the first identifier from `next_pid` on that is not in the
-- pool, or `none` when it has come back to where it began. Identifiers have 32 bits.
unfoldable pub pid_loop : (ℕ → Run ℕ) → ℕ → ℕ → ℕ → Run (Option ℕ)
pid_loop get start_pid zero next_pid = ok none
pid_loop get start_pid (suc fuel) next_pid =
    let next = (next_pid + 1) % 2 ^ 32 in
    get next_pid >>= λ held.
    let rest = pid_loop get start_pid fuel next in
    if held == 0 then ok (some next_pid) else if next == start_pid then ok none else rest

module _ ⦃k : Key ℕ⦄ where
  -- The end of `process_add_pool`: the status, the pool, and the identifier of the process.
  unfoldable pub enter_pool : Bool → Table ℕ → ℕ → ℕ → Option ℕ → Run (Status × Table ℕ × ℕ)
  enter_pool granted pool process old_id none = ok (Types.full, pool, old_id)
  enter_pool granted pool process old_id (some pid) =
      hashtable_put pool pid process granted >>= λ r. ok (r.0, r.1, pid)

  -- `process_add_pool`, with the lock of the pool free; `next_pid` is the static variable. `granted`
  -- is whether `kmalloc` has room when the pool grows.
  unfoldable pub process_add_pool : Bool → Table ℕ → ℕ → ℕ → ℕ → Run (Status × Table ℕ × ℕ)
  process_add_pool granted pool next_pid process old_id = do
    assert (not (process == 0))
    free ← pid_loop (hashtable_get pool) next_pid (2 ^ 32) next_pid
    enter_pool granted pool process old_id free

-- A cell of the array `threads`, which has 8 bytes.
abbrev pub in_block : Process → ℕ → Bool
in_block p i = leb (8 * i + 8) p.threads_bytes

abbrev pub set_thread : (ℕ → ℕ) → ℕ → ℕ → ℕ → ℕ
set_thread threads i thread x = if x == i then thread else threads x

-- The search of `process_add_thread` for a free cell, with `n` rounds left.
unfoldable pub free_cell : Process → ℕ → ℕ → Run (Option ℕ)
free_cell p zero i = ok none
free_cell p (suc n) i =
    let rest = free_cell p n (i + 1) in
    if not (in_block p i) then fault else if p.threads i == 0 then ok (some i) else rest

-- The identifier that the thread gets, the status, and the process.
pub record Added : Type 0 where
  pub status : Status
  pub thread_id : ℕ
  pub process : Process

-- What `process_add_thread` does with a free cell, and without: `krealloc` gets the new count for a
-- number of bytes, and returns NULL for NULL; `granted` is whether it has room.
unfoldable pub place_thread : Bool → Process → ℕ → Option ℕ → Run Added
place_thread granted p thread (some i) = ok (record {
  status = Types.ok;
  thread_id = i;
  process = record p { threads = set_thread p.threads i thread };
})
place_thread granted p thread none =
    let count = (p.thread_capacity + 10) % 2 ^ 32 in
    let failed = record p { thread_capacity = count; threads_bytes = 0 } in
    let grown = record p { thread_capacity = count; threads_bytes = count } in
    let stored = record grown {
      threads = set_thread grown.threads p.thread_capacity thread;
      obj = object_retain p.obj;
    } in
    if not granted || (p.threads_bytes == 0)
    then ok (record { status = Types.no_memory; thread_id = p.thread_capacity; process = failed })
    else if in_block grown p.thread_capacity
    then ok (record { status = Types.ok; thread_id = p.thread_capacity; process = stored })
    else fault

-- `process_add_thread`
unfoldable pub process_add_thread : Bool → Process → ℕ → Run Added
process_add_thread granted p thread = do
  assert (not (thread == 0))
  cell ← free_cell p p.thread_capacity 0
  place_thread granted p thread cell

-- `enum thread_state`
pub data ThreadState : Type 0 where
  running sleeping exited : ThreadState

-- `struct thread`, with its address.
pub record Thread : Type 0 where
  pub address : ℕ
  pub user_space : Bool
  pub id : ℕ
  pub exit_code : ℕ
  pub state : ThreadState
  pub user_stack : ℕ
  pub kernel_stack : ℕ
  pub next : ℕ
  pub prev : ℕ
  pub obj : Object

-- What is taken from the allocators and given back to them.
pub data Resource : Type 0 where
  thread_block kernel_stack user_stack : ℕ → Resource

-- The answers of `kmalloc`, `slab_alloc` and `thread_user_stack_init` (with the stack that the latter
-- has allocated), and whether `krealloc` has room.
pub record Grants : Type 0 where
  pub thread : ℕ
  pub kernel_stack : ℕ
  pub user_status : Status
  pub user_stack : ℕ
  pub room : Bool

-- A call of `thread_init`: the thread or NULL, the process, and what has been taken and given back.
pub record Started : Type 0 where
  pub thread : Option Thread
  pub process : Process
  pub taken : List Resource
  pub returned : List Resource

-- The end of `thread_init`, from `process_add_thread` on. When that fails, the stacks and the thread are
-- given back, the last first; the thread is then written to and returned all the same. Without a user
-- stack, which is NULL, `slab_free_helper` gives none back.
unfoldable pub finish_thread : Grants → Bool → ℕ → List Resource → Added → Run Started
finish_thread g user_space stack taken added =
    let new_thread : Thread = record {
      address = g.thread;
      user_space = user_space;
      id = added.thread_id;
      exit_code = 0;
      state = running;
      user_stack = stack;
      kernel_stack = g.kernel_stack;
      next = 0;
      prev = 0;
      obj = object_clear true;
    } in
    let started : Started = record {
      thread = some new_thread;
      process = added.process;
      taken = taken;
      returned = if is_ok added.status then [] else reverse taken;
    } in
    ok started

-- The part of `thread_init` that has a kernel stack, in user space and not.
unfoldable pub start_thread : Grants → Process → Bool → Run Started
start_thread g p true =
    let block = thread_block g.thread in
    let stack = kernel_stack g.kernel_stack in
    let failed : Started = record {
      thread = none;
      process = p;
      taken = block ∷ stack ∷ [];
      returned = stack ∷ block ∷ [];
    } in
    let added =
      process_add_thread g.room p g.thread
      >>= finish_thread g true g.user_stack (block ∷ stack ∷ user_stack g.user_stack ∷ []) in
    if is_ok g.user_status then added else ok failed
start_thread g p false =
    process_add_thread g.room p g.thread
    >>= finish_thread g false 0 (thread_block g.thread ∷ kernel_stack g.kernel_stack ∷ [])

-- `thread_init`
unfoldable pub thread_init : Grants → Process → Bool → Run Started
thread_init g p user_space =
    let nothing : Started = record { thread = none; process = p; taken = []; returned = [] } in
    let block = thread_block g.thread in
    let no_stack : Started = record {
      thread = none;
      process = p;
      taken = block ∷ [];
      returned = block ∷ [];
    } in
    if g.thread == 0
    then ok nothing
    else if g.kernel_stack == 0
    then ok no_stack
    else start_thread g p user_space

-- `thread_free`, and what it gives back. Its third assertion stores to the state.
unfoldable pub thread_free : Thread → Process → Run (Process × List Resource)
thread_free t p = do
  assert (t.next == 0)
  assert (t.prev == 0)
  ok (
    record p { obj = (object_release p.obj).0 },
    user_stack t.user_stack ∷ kernel_stack t.kernel_stack ∷ thread_block t.address ∷ [],
  )

module _ ⦃k : Key ℕ⦄ where
  -- `processes_init` up to its first process: the pool, or `none` for Error_No_Memory.
  pub new_pool : Bool → Bool → Option (Table ℕ)
  new_pool table_granted data_granted =
      hashtable_init process_pool_default_size table_granted data_granted

  -- `process_free` up to the blocks that it gives back. The count of threads is never made less.
  unfoldable pub process_free : Bool → Table ℕ → Process → Run (Table ℕ)
  process_free granted pool p = do
    assert (p.thread_count == 0)
    removed ← hashtable_remove pool p.id granted
    ok removed.1
