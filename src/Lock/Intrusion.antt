-- ===== src/Lock/Intrusion.antt =====
-- A reader that arrives while a writer holds the lock of kernel/core/lock.c.
use kernel_of_truth.Base.{ℕ, ◌≡◌, ◌≢◌, refl, sym, subst, ◌∙◌, true, panic}
use kernel_of_truth.Lock.{Lock, lock_release_writer, Pc, idle, has_writer, count_reader, has_reader}
use kernel_of_truth.Lock.Step.{
  Move, want_reader, reader_won, reader_lost, reader_counted, reader_in, System, at, at-here,
  at-there, step, Reach, at_once, later,
}

-- Where thread j stands after some steps, while thread i has the lock for writing.
record Beside (s : System) (i j : ℕ) (t : System) (p : Pc) : Type 0 where
  reached : Reach s t
  writer_holds : t.pc i ≡ has_writer
  stands : t.pc j ≡ p

Beside-step :
    {s t : System} {i j : ℕ} {l : Lock} {p p' : Pc}
    → i ≢ j
    → Beside s i j t p
    → Move t.lock p l p'
    → Beside s i j (record { lock = l; pc = at t.pc j p' }) p'
Beside-step {t} {i} {j} {l} {p'} ne b mv = record {
  reached = later (step j (subst (λ q. Move t.lock q l p') (sym b.stands) mv)) b.reached;
  writer_holds = at-there t.pc j p' i ne ∙ b.writer_holds;
  stands = at-here t.pc j p';
}

-- What the reader reaches: it has passed its compare-exchange while the writer still has the lock,
-- and the store that ends its acquisition takes the lock from the writer.
pub record Intruded (s : System) (i j : ℕ) : Type 0 where
  pub middle : System
  pub last : System
  pub middle_reached : Reach s middle
  pub last_reached : Reach s last
  pub writer_holds : middle.pc i ≡ has_writer
  pub reader_passed : middle.pc j ≡ count_reader
  pub writer_still_holds : last.pc i ≡ has_writer
  pub reader_holds : last.pc j ≡ has_reader
  pub release_panics : lock_release_writer last.lock ≡ panic

-- When a thread has the lock for writing and another is idle, the other can pass the
-- compare-exchange of `lock_acquire_reader` and return from it, both while the first still has the
-- lock; the first one's `lock_release_writer` then fails its assertion.
pub reader_intrudes :
    (s : System) (i j : ℕ)
    → i ≢ j
    → s.pc i ≡ has_writer
    → s.pc j ≡ idle
    → s.lock.writer ≡ true
    → Intruded s i j
unfolding lock_release_writer
reader_intrudes s i j ne holds rests w =
    let asked =
      Beside-step ne (record { reached = at_once; writer_holds = holds; stands = rests })
        want_reader in
    let refused = Beside-step ne asked reader_lost in
    let passed = Beside-step ne refused (reader_won refl) in
    let counted = Beside-step ne passed reader_counted in
    let inside = Beside-step ne counted reader_in in
    record {
      middle = _;
      last = _;
      middle_reached = passed.reached;
      last_reached = inside.reached;
      writer_holds = passed.writer_holds;
      reader_passed = passed.stands;
      writer_still_holds = inside.writer_holds;
      reader_holds = inside.stands;
      release_panics = refl;
    }
