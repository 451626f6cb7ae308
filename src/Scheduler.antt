-- ===== src/Scheduler.antt =====
-- kernel/core/scheduler.c: the ring of threads that are ready to run.
-- A thread is its address, and 0 is NULL. Calls are made by one processor, so that a lock is free or
-- has the caller itself for its owner. The switch of the register state in `scheduler_yield` is not
-- modelled, nor is its log line.
pub mod Ring
pub mod Add
pub mod Failure
use kernel_of_truth.Base.{
  ℕ, zero, suc, ◌+◌, ◌==◌, Bool, true, false, not, if◌then◌else◌, List, [], ◌∷◌, ◌++◌, Run, ok,
  panic, fault, stuck, ◌>>=◌, ◌>>◌, assert,
}
use kernel_of_truth.Object.{Object, object_retain, object_release}

-- `Current_Thread`, whether `Current_Thread_Lock` is taken, the links and the objects of the threads,
-- and the threads whose function to free them has been called.
pub record Scheduler : Type 0 where
  pub current : ℕ
  pub locked : Bool
  pub next : ℕ → ℕ
  pub prev : ℕ → ℕ
  pub objects : ℕ → Object
  pub freed : List ℕ

abbrev pub write {ℓ} : {A : Type ℓ} → (ℕ → A) → ℕ → A → ℕ → A
write f i a j = if j == i then a else f j

-- `lock_acquire_writer` on `Current_Thread_Lock`
pub acquire : Scheduler → Run Scheduler
acquire s = if s.locked then stuck else ok (record s { locked = true })

-- `lock_release_writer`
abbrev pub release : Scheduler → Scheduler
release s = record s { locked = false }

-- A pointer that is to be followed.
abbrev pub follow : ℕ → Run (Unit {0})
follow p = if p == 0 then fault else ok tt

-- `p->next = q` and `p->prev = q`
abbrev pub set_next : ℕ → ℕ → Scheduler → Scheduler
set_next p q s = record s { next = write s.next p q }

abbrev pub set_prev : ℕ → ℕ → Scheduler → Scheduler
set_prev p q s = record s { prev = write s.prev p q }

pub retain : ℕ → Scheduler → Scheduler
retain t s = record s { objects = write s.objects t (object_retain (s.objects t)) }

pub drop : ℕ → Scheduler → Scheduler
drop t s =
    let (o, frees) = object_release (s.objects t) in
    record s {
      objects = write s.objects t o;
      freed = if frees then s.freed ++ (t ∷ []) else s.freed;
    }

-- `scheduler_init`, with the first thread of the process, or `none` for a failed assertion
unfoldable pub scheduler_init : Scheduler → ℕ → Run Scheduler
unfolding retain
scheduler_init s t =
    follow t >> ok (retain t (set_prev t t (set_next t t (record s { current = t }))))

-- The insertion behind the current thread.
pub link_behind : ℕ → ℕ → Scheduler → Run Scheduler
link_behind c t s =
    let s1 = set_prev t c (set_next t (s.next c) s) in
    follow (s1.next c) >> ok (set_next c t (set_prev (s1.next c) t s1))

-- `scheduler_add_thread`
unfoldable pub scheduler_add_thread : Scheduler → ℕ → Run Scheduler
unfolding acquire link_behind retain
scheduler_add_thread s t = do
  assert (not (t == 0))
  s1 ← acquire s
  s2 ←
      if s1.current == 0
      then ok (set_prev t t (set_next t t (record s1 { current = t })))
      else link_behind s1.current t s1
  ok (release (retain t s2))

-- The thread's neighbours are linked to one another.
pub bypass : ℕ → Scheduler → Run Scheduler
bypass t s = do
  follow (s.prev t)
  let s1 = set_next (s.prev t) (s.next t) s
  follow (s1.next t)
  ok (set_prev (s1.next t) (s1.prev t) s1)

-- `scheduler_remove_thread`
unfoldable pub scheduler_remove_thread : Scheduler → ℕ → Run Scheduler
unfolding acquire bypass drop
scheduler_remove_thread s t = do
  assert (not (t == 0))
  s1 ← acquire s
  s2 ← if s1.next t == t then ok (record s1 { current = 0 }) else bypass t s1
  ok (release (drop t (set_prev t 0 (set_next t 0 s2))))

-- `scheduler_yield`, as far as the ring goes
unfoldable pub scheduler_yield : Scheduler → Run Scheduler
unfolding acquire
scheduler_yield s =
    if s.current == 0
    then ok s
    else if s.current == s.next s.current
    then ok s
    else acquire s >>= λ s1. ok (release (record s1 { current = s1.next s1.current }))

-- The loop of `scheduler_fini`, with at most `k` rounds.
pub fini_loop : ℕ → Scheduler → Run Scheduler
fini_loop zero s = stuck
fini_loop (suc k) s =
    let again =
      scheduler_remove_thread (record s { current = s.next s.current }) s.current >>= fini_loop k in
    follow s.current >> (if s.current == s.next s.current then ok s else again)

-- `scheduler_fini`
unfoldable pub scheduler_fini : Scheduler → ℕ → Run Scheduler
unfolding acquire fini_loop
scheduler_fini s k = do
  s1 ← acquire s
  s2 ← fini_loop k s1
  s3 ← scheduler_remove_thread s2 s2.current
  ok (release s3)
