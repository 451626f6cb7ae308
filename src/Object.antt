-- ===== src/Object.antt =====
-- kernel/core/object.c: objects with a count of their references.
pub mod Balance
use kernel_of_truth.Base.{ℕ, ◌+◌, ◌-◌, ◌%◌, ◌^◌, ◌==◌, ◌&&◌, Bool, true, false}

-- `struct object`, less its lock; `free` says whether a function to free it is set.
pub record Object : Type 0 where
  pub ref_count : ℕ
  pub free : Bool

-- `object_retain`
unfoldable pub object_retain : Object → Object
object_retain o = record o { ref_count = (o.ref_count + 1) % 2 ^ 32 }

-- `object_release`, and whether it calls the function to free the object.
unfoldable pub object_release : Object → Object × Bool
object_release o =
    (record o { ref_count = (o.ref_count + 2 ^ 32 - 1) % 2 ^ 32 }, (o.ref_count == 1) && o.free)

-- `object_set_free`
pub object_set_free : Object → Bool → Object
object_set_free o free_func = record o { free = free_func }

-- `object_clear`: the count is set to the macro `ATOMIC_INT_LOCK_FREE`, which is 2 on this target.
pub object_clear : Bool → Object
object_clear free_func = record { ref_count = 2; free = free_func }
