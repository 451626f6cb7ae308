-- ===== src/Tests/Locks.antt =====
-- Runs of kernel/core/lock.c, with two threads.
use kernel_of_truth.Base.{ℕ, ◌≡◌, refl, true, false, arith}
use kernel_of_truth.Lock.{idle, try_writer, wait_readers, has_writer}
use kernel_of_truth.Lock.Step.{System, at, want_writer, writer_won, writer_lost}
use kernel_of_truth.Lock.Writers.{WriterReach, at_once, later, step, quiet, writers_exclude}
use kernel_of_truth.Lock.Intrusion.{Intruded, reader_intrudes}

-- Thread 0 takes the lock.
abbrev one_writer : System
one_writer = record {
  lock = record { readers = 0; writer = true };
  pc = at (at (λ _. idle) 0 (try_writer false)) 0 has_writer;
}

one_writer_reached : WriterReach quiet one_writer
one_writer_reached = later (step 0 (writer_won refl) tt) (later (step 0 want_writer tt) at_once)

-- Thread 1 then fails to.
abbrev one_waiting : System
one_waiting = record {
  lock = record { readers = 0; writer = true };
  pc = at (at one_writer.pc 1 (try_writer false)) 1 (wait_readers true);
}

one_waiting_reached : WriterReach quiet one_waiting
one_waiting_reached =
    later (step 1 writer_lost tt) (later (step 1 want_writer tt) one_writer_reached)

writers_exclude_example : ◌≡◌ {A = ℕ} 0 0
writers_exclude_example = writers_exclude 0 0 one_writer_reached refl refl

reader_intrudes_example : Intruded one_writer 0 1
reader_intrudes_example = reader_intrudes one_writer 0 1 (λ e. omega arith) refl refl refl
