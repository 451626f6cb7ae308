-- ===== src/Lock/Step.antt =====
-- One step of one thread of kernel/core/lock.c.
use kernel_of_truth.Base.{
  ℕ, ◌+◌, ◌%◌, ◌^◌, ◌≡◌, ◌≢◌, ◌==◌, Bool, true, false, if◌then◌else◌, ◌⊎◌, inl, inr, subst, sym,
  ℕ_discrete, arith,
}
use kernel_of_truth.Lock.{
  Lock, lock_release_reader, Pc, idle, try_writer, wait_readers, has_writer, try_reader,
  count_reader, drop_writer, has_reader,
}

-- A failed compare-exchange stores what it read into `expected`.
pub data Move (l : Lock) : Pc → Lock → Pc → Type 0 where
  want_writer : Move l idle l (try_writer false)
  writer_won :
      {expected : Bool}
      → l.writer ≡ expected
      → Move l (try_writer expected) (record l { writer = true }) has_writer
  writer_lost : {expected : Bool} → Move l (try_writer expected) l (wait_readers l.writer)
  wait_on :
      {expected : Bool} → l.readers ≡ 0 → Move l (wait_readers expected) l (wait_readers expected)
  wait_over :
      {expected : Bool} → l.readers ≢ 0 → Move l (wait_readers expected) l (try_writer expected)
  writer_done :
      l.writer ≡ true → l.readers ≡ 0 → Move l has_writer (record l { writer = false }) idle
  want_reader : Move l idle l (try_reader false)
  reader_won :
      {expected : Bool}
      → l.writer ≡ expected
      → Move l (try_reader expected) (record l { writer = true }) count_reader
  reader_lost : {expected : Bool} → Move l (try_reader expected) l (try_reader l.writer)
  reader_counted : Move l count_reader (record l { readers = (l.readers + 1) % 2 ^ 32 }) drop_writer
  reader_in : Move l drop_writer (record l { writer = false }) has_reader
  reader_done : Move l has_reader (lock_release_reader l) idle

-- The lock and the threads.
pub record System : Type 0 where
  pub lock : Lock
  pub pc : ℕ → Pc

abbrev pub at {ℓ} : {A : Type ℓ} → (ℕ → A) → ℕ → A → ℕ → A
at f i a j = if j == i then a else f j

pub at-here : (f : ℕ → Pc) (i : ℕ) (a : Pc) → at f i a i ≡ a
at-here f i a = grind arith

pub at-there : (f : ℕ → Pc) (i : ℕ) (a : Pc) (j : ℕ) → j ≢ i → at f i a j ≡ f j
at-there f i a j ne = grind arith

pub at-cases :
    (f : ℕ → Pc) (i : ℕ) (a : Pc) (j : ℕ)
    → ((j ≡ i) × (at f i a j ≡ a)) ⊎ ((j ≢ i) × (at f i a j ≡ f j))
at-cases f i a j = elim (ℕ_discrete j i) [
  | yes h ↦ inl (h, subst (λ k. at f i a k ≡ a) (sym h) (at-here f i a))
  | no h ↦ inr (h, at-there f i a j h)
]

pub data Step (s : System) : System → Type 0 where
  step :
      (i : ℕ) {l : Lock} {p : Pc}
      → Move s.lock (s.pc i) l p
      → Step s (record { lock = l; pc = at s.pc i p })

pub data Reach (s : System) : System → Type 0 where
  at_once : Reach s s
  later : {t u : System} → Step t u → Reach s t → Reach s u
