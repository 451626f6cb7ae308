-- ===== src/Lock.antt =====
-- kernel/core/lock.c: a readers-writer lock of two atomic words, and the threads that take it.
-- Every atomic access is one step of one thread; the accesses are sequentially consistent, and the
-- compare-exchange may fail without a cause (`weak`).
pub mod Step
pub mod Writers
pub mod Intrusion
use kernel_of_truth.Base.{
  ℕ, ◌+◌, ◌-◌, ◌%◌, ◌^◌, ◌==◌, Bool, true, false, Run, ok, panic, assert, ◌>>◌,
}

-- `struct lock`
pub record Lock : Type 0 where
  pub readers : ℕ
  pub writer : Bool

-- `Lock_Clear`
abbrev pub lock_clear : Lock
lock_clear = record { readers = 0; writer = false }

-- The function `lock_clear`: it stores the macros `ATOMIC_BOOL_LOCK_FREE` and `ATOMIC_INT_LOCK_FREE`,
-- which are 2 on this target, where `Lock_Clear` has false and 0.
abbrev pub lock_clear_at_run_time : Lock
lock_clear_at_run_time = record { readers = 2; writer = true }

-- `lock_release_reader`
pub lock_release_reader : Lock → Lock
lock_release_reader l = record l { readers = (l.readers + 2 ^ 32 - 1) % 2 ^ 32 }

-- `lock_release_writer`, as one action: only the owner calls it.
unfoldable pub lock_release_writer : Lock → Run Lock
lock_release_writer l =
    assert l.writer >> assert (l.readers == 0) >> ok (record l { writer = false })

-- Where a thread stands in `lock_acquire_writer` or `lock_acquire_reader`, with its local `expected`.
pub data Pc : Type 0 where
  idle : Pc
  try_writer : (expected : Bool) → Pc  -- before the compare-exchange
  wait_readers : (expected : Bool) → Pc  -- the inner loop on `readers`
  has_writer : Pc  -- `lock_acquire_writer` has returned
  try_reader : (expected : Bool) → Pc  -- before the compare-exchange
  count_reader : Pc  -- before the addition to `readers`
  drop_writer : Pc  -- before the store that gives the writer word back
  has_reader : Pc  -- `lock_acquire_reader` has returned
