-- ===== src/Process/Pool.antt =====
-- The search of kernel/core/process.c for the identifier of a process.
use kernel_of_truth.Base.{
  ℕ, zero, suc, ◌+◌, ◌%◌, ◌^◌, ◌≤◌, ◌<◌, ◌≡◌, ◌≢◌, ◌⊎◌, refl, inl, inr, Bool, Option, none, some,
  Run, ok, ◌>>=◌, arith, ℕ_discrete, subst, ne→==, eq→==,
}
use kernel_of_truth.Types
use kernel_of_truth.Types.{Status}
use kernel_of_truth.Hashtable.{Key, Table, hashtable_get, hashtable_put}
use kernel_of_truth.Process.{pid_loop, enter_pool, process_add_pool}

module _ (get : ℕ → Run ℕ) (held : ℕ → ℕ) (returns : (pid : ℕ) → get pid ≡ ok (held pid))
    (start : ℕ) (small : start < 2 ^ 32) where
  -- The identifier that comes `d` after the first.
  abbrev pub after : ℕ → ℕ
  after d = (start + d) % 2 ^ 32

  -- The outcome of the search: the first free identifier after the start, going round, or that there
  -- is none.
  abbrev pub FirstFree : ℕ → Run (Option ℕ) → Type 0
  FirstFree d run =
      ((run ≡ ok none) × ((e : ℕ) → d ≤ e → e < 2 ^ 32 → held (after e) ≢ 0))
      ⊎ ((e : ℕ) × (d ≤ e)
          × (e < 2 ^ 32)
          × (held (after e) ≡ 0)
          × ((c : ℕ) → d ≤ c → c < e → held (after c) ≢ 0)
          × (run ≡ ok (some (after e))))

  after-suc : (d : ℕ) → (after d + 1) % 2 ^ 32 ≡ after (d + 1)
  after-suc d = omega arith

  passed :
      (d : ℕ) (run : Run (Option ℕ)) → held (after d) ≢ 0 → FirstFree (d + 1) run → FirstFree d run
  passed d run taken (inl (e, all)) = inl (
    e,
    λ c low high. elim (ℕ_discrete d c) [
      | yes p ↦ rw (← p) taken
      | no p ↦ all c (omega arith) high
    ],
  )
  passed d run taken (inr (e, low, high, free, all, r)) = inr (
    e,
    omega arith,
    high,
    free,
    (λ c low' high'. elim (ℕ_discrete d c) [
      | yes p ↦ rw (← p) taken
      | no p ↦ all c (omega arith) high'
    ]),
    r,
  )

  pid_loop-FirstFree :
      (fuel d : ℕ)
      → d + fuel ≡ 2 ^ 32
      → d < 2 ^ 32
      → FirstFree d (pid_loop get start fuel (after d))
  unfolding pid_loop
  pid_loop-FirstFree zero d e lt = absurd (omega arith)
  pid_loop-FirstFree (suc fuel) d e lt = elim (ℕ_discrete (held (after d)) 0) [
    | yes free ↦ inr (
      d,
      omega arith,
      lt,
      free,
      (λ c low high. absurd (omega arith)),
      rw (returns (after d), eq→== _ _ free) refl,
    )
    | no taken ↦ passed d _ taken (elim (ℕ_discrete (d + 1) (2 ^ 32)) [
      | yes whole ↦
          let round : (after d + 1) % 2 ^ 32 ≡ start = omega arith in
          inl (
            rw (returns (after d), ne→== _ _ taken, eq→== _ _ round) refl,
            λ c low high. absurd (omega arith),
          )
      | no part ↦
          let on : (after d + 1) % 2 ^ 32 ≢ start = λ q. absurd (omega arith) in
          rw (returns (after d), ne→== _ _ taken, ne→== _ _ on)
            (rw (after-suc d) (pid_loop-FirstFree fuel (d + 1) (omega arith) (omega arith)))
    ])
  ]

  -- With a pool whose look-ups return, the search ends, within 2 ^ 32 rounds: with the first
  -- identifier, from `next_pid` on and round to it, that no process has, or without one when each of
  -- the 2 ^ 32 identifiers is in the pool.
  pub pid_loop_total : FirstFree 0 (pid_loop get start (2 ^ 32) start)
  pid_loop_total =
      let here : after 0 ≡ start = omega arith in
      subst (λ s. FirstFree 0 (pid_loop get start (2 ^ 32) s)) here
        (pid_loop-FirstFree (2 ^ 32) 0 (omega arith) (omega arith))

-- `process_add_pool` of a process that is not NULL, with a pool whose look-ups return: either all
-- 2 ^ 32 identifiers are taken, and it returns Error_Full with the pool as it was, or the process gets
-- the first identifier, from `next_pid` on and round to it, that no process has, and is put into the
-- pool under it.
pub process_add_pool-FirstFree :
    ⦃k : Key ℕ⦄
    → (granted : Bool) (pool : Table ℕ) (held : ℕ → ℕ) (next_pid process old_id : ℕ)
    → ((pid : ℕ) → hashtable_get pool pid ≡ ok (held pid))
    → next_pid < 2 ^ 32
    → process ≢ 0
    → ((process_add_pool granted pool next_pid process old_id ≡ ok (Types.full, pool, old_id))
        × ((e : ℕ) → e < 2 ^ 32 → held ((next_pid + e) % 2 ^ 32) ≢ 0))
      ⊎ ((e : ℕ) × (e < 2 ^ 32)
          × (held ((next_pid + e) % 2 ^ 32) ≡ 0)
          × ((c : ℕ) → c < e → held ((next_pid + c) % 2 ^ 32) ≢ 0)
          × (process_add_pool granted pool next_pid process old_id ≡ (
              hashtable_put pool ((next_pid + e) % 2 ^ 32) process granted >>= λ r.
              ok (r.0, r.1, (next_pid + e) % 2 ^ 32))))
unfolding process_add_pool enter_pool
process_add_pool-FirstFree granted pool held next_pid process old_id returns small some_process =
    elim (pid_loop_total (hashtable_get pool) held returns next_pid small) [
      | inl (e, all) ↦ inl (rw (ne→== _ _ some_process, e) refl, λ c lt. all c (omega arith) lt)
      | inr (e, low, high, free, all, found) ↦
          inr (
            e,
            high,
            free,
            (λ c lt. all c (omega arith) lt),
            rw (ne→== _ _ some_process, found) refl,
          )
    ]
