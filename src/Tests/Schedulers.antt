-- ===== src/Tests/Schedulers.antt =====
-- Runs of kernel/core/scheduler.c and object.c.
use kernel_of_truth.Base.{◌≡◌, refl, true, false, if◌then◌else◌, ◌==◌, [], ◌∷◌, ok, arith}
use kernel_of_truth.Object.{Object}
use kernel_of_truth.Scheduler.{Scheduler, scheduler_add_thread}
use kernel_of_truth.Scheduler.Ring.{IsRing}
use kernel_of_truth.Scheduler.Add.{scheduler_add_thread-IsRing}

abbrev thread_object : Object
thread_object = record { ref_count = 1; free = true }

-- Threads 16 and 32 in a ring, 16 the current one.
abbrev two_threads : Scheduler
two_threads = record {
  current = 16;
  locked = false;
  next = λ t. if t == 16 then 32 else if t == 32 then 16 else 0;
  prev = λ t. if t == 16 then 32 else if t == 32 then 16 else 0;
  objects = λ _. thread_object;
  freed = [];
}

two_threads-IsRing : IsRing two_threads 16 (32 ∷ [])
two_threads-IsRing = record {
  starts = refl;
  unlocked = refl;
  linked = (refl, refl, (refl, refl));
  distinct = (((λ e. omega arith), tt), (tt, tt));
  some_thread = ((λ e. omega arith), ((λ e. omega arith), tt));
}

scheduler_add_thread-IsRing_example :
    (s : Scheduler) × (scheduler_add_thread two_threads 48 ≡ ok s) × IsRing s 16 (48 ∷ 32 ∷ [])
scheduler_add_thread-IsRing_example =
    scheduler_add_thread-IsRing two_threads 16 48 (32 ∷ []) two_threads-IsRing (λ e. omega arith)
      ((λ e. omega arith), ((λ e. omega arith), tt))
