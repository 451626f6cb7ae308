-- ===== src/Lock/Writers.antt =====
-- Threads that take the lock for writing only.
use kernel_of_truth.Base.{
  ℕ, ◌≡◌, ◌≢◌, refl, ◌∙◌, Bool, true, false, arith, inl, inr, subst, sym, ap, ok,
}
use kernel_of_truth.Lock.{
  Lock, lock_clear, lock_release_writer, Pc, idle, try_writer, wait_readers, has_writer, try_reader,
  count_reader, drop_writer, has_reader,
}
use kernel_of_truth.Lock.Step.{
  Move, want_writer, writer_won, writer_lost, wait_on, wait_over, writer_done, want_reader,
  reader_won, reader_lost, reader_counted, reader_in, reader_done, System, at, at-cases,
}

-- The places of a thread that does not read.
abbrev pub Writes : Pc → Type 0
Writes idle = Unit {0}
Writes (try_writer e) = Unit {0}
Writes (wait_readers e) = Unit {0}
Writes has_writer = Unit {0}
Writes _ = ⊥

-- A step of a thread that goes to such a place.
pub data WriterStep (s : System) : System → Type 0 where
  step :
      (i : ℕ) {l : Lock} {p : Pc}
      → Move s.lock (s.pc i) l p
      → Writes p
      → WriterStep s (record { lock = l; pc = at s.pc i p })

pub data WriterReach (s : System) : System → Type 0 where
  at_once : WriterReach s s
  later : {t u : System} → WriterStep t u → WriterReach s t → WriterReach s u

-- Every thread idle, and the lock clear.
abbrev pub quiet : System
quiet = record { lock = lock_clear; pc = λ _. idle }

-- What is true of each thread: none reads, and an attempt still expects the word to be false.
abbrev Good : Lock → Pc → Type 0
Good l (try_writer e) = e ≡ false
Good l has_writer = l.writer ≡ true
Good l p = Writes p

record Inv (s : System) : Type 0 where
  no_readers : s.lock.readers ≡ 0
  good : (i : ℕ) → Good s.lock (s.pc i)
  unique : (i j : ℕ) → s.pc i ≡ has_writer → s.pc j ≡ has_writer → i ≡ j

record Moved (s : System) (i : ℕ) (l : Lock) (p : Pc) : Type 0 where
  no_readers : l.readers ≡ 0
  own : Good l p
  others : (j : ℕ) → j ≢ i → Good l (s.pc j)
  alone : p ≡ has_writer → (j : ℕ) → j ≢ i → ¬ (s.pc j ≡ has_writer)

Good-raise : (l : Lock) (p : Pc) → Good l p → Good (record l { writer = true }) p
Good-raise l idle g = g
Good-raise l (try_writer e) g = g
Good-raise l (wait_readers e) g = g
Good-raise l has_writer g = refl
Good-raise l (try_reader e) g = g
Good-raise l count_reader g = g
Good-raise l drop_writer g = g
Good-raise l has_reader g = g

Good-drop :
    (l : Lock) (p : Pc) → ¬ (p ≡ has_writer) → Good l p → Good (record l { writer = false }) p
Good-drop l idle n g = g
Good-drop l (try_writer e) n g = g
Good-drop l (wait_readers e) n g = g
Good-drop l has_writer n g = absurd (n refl)
Good-drop l (try_reader e) n g = g
Good-drop l count_reader n g = g
Good-drop l drop_writer n g = g
Good-drop l has_reader n g = g

-- No thread holds a lock whose word is false.
free : (l : Lock) → l.writer ≡ false → (p : Pc) → Good l p → ¬ (p ≡ has_writer)
free l e has_writer g q = ground arith
free l e idle g q = cc
free l e (try_writer _) g q = cc
free l e (wait_readers _) g q = cc
free l e (try_reader _) g q = cc
free l e count_reader g q = cc
free l e drop_writer g q = cc
free l e has_reader g q = cc

module _ {s : System} (v : Inv s) (i : ℕ) where
  -- A step that leaves the lock as it is, to a place that does not hold it.
  stays : (p : Pc) → Good s.lock p → ¬ (p ≡ has_writer) → Moved s i s.lock p
  stays p g n = record {
    no_readers = v.no_readers;
    own = g;
    others = λ j _. v.good j;
    alone = λ q. absurd (n q);
  }

  Move-Moved :
      {p p' : Pc} {l : Lock}
      → s.pc i ≡ p
      → Good s.lock p
      → Move s.lock p l p'
      → Writes p'
      → Moved s i l p'
  Move-Moved e g want_writer w = stays _ refl (λ q. cc)
  Move-Moved e g (writer_won b) w =
      let is_free = free s.lock (b ∙ g) in
      record {
        no_readers = v.no_readers;
        own = refl;
        others = λ j _. Good-raise s.lock (s.pc j) (v.good j);
        alone = λ _ j _. is_free (s.pc j) (v.good j);
      }
  Move-Moved e g writer_lost w = stays _ tt (λ q. cc)
  Move-Moved e g (wait_on z) w = stays _ tt (λ q. cc)
  Move-Moved e g (wait_over nz) w = absurd (nz v.no_readers)
  Move-Moved e g (writer_done b z) w = record {
    no_readers = z;
    own = tt;
    others = λ j ne. Good-drop s.lock (s.pc j) (λ h. ne (v.unique j i h e)) (v.good j);
    alone = λ q. cc;
  }
  Move-Moved e g want_reader w = elim w [ ]
  Move-Moved e g (reader_won {expected = expected} _) w = elim g [ ]
  Move-Moved e g (reader_lost {expected = expected}) w = elim g [ ]
  Move-Moved e g reader_counted w = elim g [ ]
  Move-Moved e g reader_in w = elim g [ ]
  Move-Moved e g reader_done w = elim g [ ]

  -- The invariant after such a step.
  Moved-Inv : {l : Lock} {p : Pc} → Moved s i l p → Inv (record { lock = l; pc = at s.pc i p })
  Moved-Inv {l} {p} m = record {
    no_readers = m.no_readers;
    good = λ j. elim (at-cases s.pc i p j) [
      | inl (_, q) ↦ subst (Good l) (sym q) m.own
      | inr (ne, q) ↦ subst (Good l) (sym q) (m.others j ne)
    ];
    unique = λ j k h h'. elim (at-cases s.pc i p j) [
      | inl (e, q) ↦ elim (at-cases s.pc i p k) [
        | inl (e', q') ↦ e ∙ sym e'
        | inr (ne, q') ↦ absurd (m.alone (sym q ∙ h) k ne (sym q' ∙ h'))
      ]
      | inr (ne, q) ↦ elim (at-cases s.pc i p k) [
        | inl (e', q') ↦ absurd (m.alone (sym q' ∙ h') j ne (sym q ∙ h))
        | inr (ne', q') ↦ v.unique j k (sym q ∙ h) (sym q' ∙ h')
      ]
    ];
  }

WriterStep-Inv : {s t : System} → Inv s → WriterStep s t → Inv t
WriterStep-Inv {s} v (step i mv w) = Moved-Inv v i (Move-Moved v i refl (v.good i) mv w)

quiet-Inv : Inv quiet
quiet-Inv = record { no_readers = refl; good = λ _. tt; unique = λ i j h _. cc }

WriterReach-Inv : {s t : System} → Inv s → WriterReach s t → Inv t
WriterReach-Inv v at_once = v
WriterReach-Inv v (later st r) = WriterStep-Inv (WriterReach-Inv v r) st

release_held :
    (l : Lock)
    → l.writer ≡ true
    → l.readers ≡ 0
    → lock_release_writer l ≡ ok (record l { writer = false })
unfolding lock_release_writer
release_held l w z = rw (w, z) refl

Move-waits :
    {l l' : Lock} {p p' : Pc} {e : Bool}
    → l.readers ≡ 0
    → p ≡ wait_readers e
    → Move l p l' p'
    → p' ≡ wait_readers e
Move-waits z q (wait_on _) = q
Move-waits z q (wait_over nz) = absurd (nz z)
Move-waits z q want_writer = cc
Move-waits z q (writer_won _) = cc
Move-waits z q writer_lost = cc
Move-waits z q (writer_done _ _) = cc
Move-waits z q want_reader = cc
Move-waits z q (reader_won _) = cc
Move-waits z q reader_lost = cc
Move-waits z q reader_counted = cc
Move-waits z q reader_in = cc
Move-waits z q reader_done = cc

WriterStep-waits :
    {s t : System} (i : ℕ) {e : Bool}
    → s.lock.readers ≡ 0
    → s.pc i ≡ wait_readers e
    → WriterStep s t
    → t.pc i ≡ wait_readers e
WriterStep-waits {s} i z h (step j {p} mv w) = elim (at-cases s.pc j p i) [
  | inl (e, q) ↦ q ∙ Move-waits z (ap s.pc (sym e) ∙ h) mv
  | inr (ne, q) ↦ q ∙ h
]

-- In every run of threads that take the lock only for writing, from a clear lock and idle threads,
-- at most one thread has the lock.
pub writers_exclude :
    {s : System} (i j : ℕ) → WriterReach quiet s → s.pc i ≡ has_writer → s.pc j ≡ has_writer → i ≡ j
writers_exclude i j r h h' = (WriterReach-Inv quiet-Inv r).unique i j h h'

-- In such a run the assertions of `lock_release_writer` hold for the thread that has the lock, and it
-- gives the lock back.
pub writer_releases :
    {s : System} (i : ℕ)
    → WriterReach quiet s
    → s.pc i ≡ has_writer
    → lock_release_writer s.lock ≡ ok (record s.lock { writer = false })
writer_releases {s} i r h =
    let v = WriterReach-Inv quiet-Inv r in
    release_held s.lock (subst (Good s.lock) h (v.good i)) v.no_readers

-- In such a run a thread that waits in the inner loop of `lock_acquire_writer`, as each does whose
-- compare-exchange has failed, is there in every later state.
pub writer_waits_on :
    {s t : System} (i : ℕ) {e : Bool}
    → WriterReach quiet s
    → s.pc i ≡ wait_readers e
    → WriterReach s t
    → t.pc i ≡ wait_readers e
writer_waits_on i r h at_once = h
writer_waits_on i r h (later st x) =
    WriterStep-waits i ((WriterReach-Inv (WriterReach-Inv quiet-Inv r) x).no_readers)
      (writer_waits_on i r h x) st
