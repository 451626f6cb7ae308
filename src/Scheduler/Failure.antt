-- ===== src/Scheduler/Failure.antt =====
-- Where the scheduler comes to a stop.
use kernel_of_truth.Base.{
  ℕ, zero, suc, ◌≡◌, ◌≢◌, ◌⊎◌, inl, inr, refl, sym, ◌==◌, true, false, Bool-cases, ok, fault, stuck,
  ne→==, eq→==, ==_refl, ℕ_discrete,
}
use kernel_of_truth.Scheduler.{
  Scheduler, scheduler_add_thread, scheduler_remove_thread, scheduler_fini, fini_loop, acquire,
  bypass, link_behind, drop, retain, set_next, set_prev, release,
}

-- With the lock taken, a removal waits for ever.
remove_locked :
    (s : Scheduler) (t : ℕ) → s.locked ≡ true → t ≢ 0 → scheduler_remove_thread s t ≡ stuck
unfolding scheduler_remove_thread acquire
remove_locked s t l n = rw (l, ne→== t 0 n)

fini_loop_locked :
    (s : Scheduler) (k : ℕ)
    → s.locked ≡ true
    → (fini_loop k s ≡ stuck) ⊎ (fini_loop k s ≡ fault) ⊎ ((fini_loop k s ≡ ok s) × (s.current ≢ 0))
unfolding fini_loop
fini_loop_locked s zero l = inl refl
fini_loop_locked s (suc k) l = elim (ℕ_discrete s.current 0) [
  | yes z ↦ inr (inl (rw (eq→== s.current 0 z)))
  | no n ↦ elim (Bool-cases (s.current == s.next s.current)) [
    | inl alone ↦ inr (inr (rw (ne→== s.current 0 n, alone), n))
    | inr more ↦ inl (
        rw (
          ne→== s.current 0 n,
          more,
          remove_locked (record s { current = s.next s.current }) s.current l n,
        ))
  ]
]

-- `scheduler_fini` does not return, however many rounds its loop makes: it takes the lock and then
-- calls `scheduler_remove_thread`, which waits for it; without a thread it reads through NULL.
pub scheduler_fini_stops :
    (s : Scheduler) (k : ℕ) → (scheduler_fini s k ≡ stuck) ⊎ (scheduler_fini s k ≡ fault)
unfolding scheduler_fini acquire
scheduler_fini_stops s k = elim (Bool-cases s.locked) [
  | inl l ↦ inl (rw l)
  | inr free ↦
      let s1 = record s { locked = true } in
      elim (fini_loop_locked s1 k refl) [
        | inl e ↦ inl (rw (free, e))
        | inr rest ↦ elim rest [
          | inl e ↦ inr (rw (free, e))
          | inr (e, n) ↦ inl (rw (free, e, remove_locked s1 s.current refl n))
        ]
      ]
]

-- The state after the current thread of several has been taken out.
abbrev without_current : Scheduler → Scheduler
without_current s =
    let c = s.current in
    let bypassed =
      set_prev (s.next c) (s.prev c)
        (set_next (s.prev c) (s.next c) (record s { locked = true })) in
    release (drop c (set_prev c 0 (set_next c 0 bypassed)))

-- `scheduler_remove_thread` of the current thread, while others are linked to it, returns and leaves
-- the removed thread the current one, without links: the next `scheduler_add_thread` of another
-- thread reads through a NULL pointer.
pub remove_current_dangles :
    (s : Scheduler) (t : ℕ)
    → s.locked ≡ false
    → s.current ≢ 0
    → s.next s.current ≢ s.current
    → s.next s.current ≢ 0
    → s.prev s.current ≢ s.current
    → s.prev s.current ≢ 0
    → t ≢ 0
    → t ≢ s.current
    → (s' : Scheduler) × (scheduler_remove_thread s s.current ≡ ok s')
      × (s'.current ≡ s.current)
      × (s'.next s.current ≡ 0)
      × (scheduler_add_thread s' t ≡ fault)
unfolding scheduler_add_thread scheduler_remove_thread acquire bypass link_behind drop retain
remove_current_dangles s t free c more linked more' linked' nt other =
    let c' = ne→== s.current 0 c in
    let more1 = ne→== (s.next s.current) s.current more in
    let linked1 = ne→== (s.next s.current) 0 linked in
    let prev1 = ne→== s.current (s.prev s.current) (λ e. more' (sym e)) in
    let prev2 = ne→== (s.prev s.current) 0 linked' in
    (
      without_current s,
      rw (c', free, more1, prev2, prev1, linked1) refl,
      refl,
      rw (==_refl s.current) refl,
      rw (ne→== t 0 nt, c', ne→== s.current t (λ e. other (sym e)), ==_refl s.current) refl,
    )
