-- ===== src/Process/Threads.antt =====
-- The threads of a process in kernel/core/process.c.
use kernel_of_truth.Base.{
  ℕ, zero, suc, ◌+◌, ◌*◌, ◌%◌, ◌^◌, ◌≤◌, ◌<◌, ◌≡◌, ◌≢◌, ◌⊎◌, refl, inl, inr, Bool, true, false,
  if◌then◌else◌, none, some, List, [], ◌∷◌, ok, fault, ◌>>=◌, arith, ℕ_discrete, Bool-cases, subst,
  ne→==, eq→==, le→leb, leb-false, >>=-eq-ok, ok_injective, then_branch, else_branch,
}
use mathlib.Core.List.{reverse}
use kernel_of_truth.Types
use kernel_of_truth.Types.{Status, is_ok, is_ok-eq}
use kernel_of_truth.Process.{
  Process, set_thread, free_cell, Added, place_thread, process_add_thread, Grants, Started,
  Resource, Thread, finish_thread, start_thread, thread_init,
}

-- The block of the array `threads` has a cell for each thread that the process has room for.
abbrev pub Fits : Process → Type 0
Fits p = p.threads_bytes ≡ 8 * p.thread_capacity

free_cell_cases :
    (p : Process) (n i : ℕ)
    → i + n ≡ p.thread_capacity
    → Fits p
    → ((free_cell p n i ≡ ok none) × ((j : ℕ) → i ≤ j → j < p.thread_capacity → p.threads j ≢ 0))
      ⊎ ((j : ℕ) × (i ≤ j)
          × (j < p.thread_capacity)
          × (p.threads j ≡ 0)
          × ((l : ℕ) → i ≤ l → l < j → p.threads l ≢ 0)
          × (free_cell p n i ≡ ok (some j)))
unfolding free_cell
free_cell_cases p zero i e fits = inl (refl, λ j le lt. absurd (omega arith))
free_cell_cases p (suc n) i e fits =
    let inside = le→leb (8 * i + 8) p.threads_bytes (omega arith) in
    elim (ℕ_discrete (p.threads i) 0) [
      | yes free ↦ inr (
        i,
        omega arith,
        omega arith,
        free,
        (λ l low high. absurd (omega arith)),
        rw (inside, eq→== _ _ free) refl,
      )
      | no taken ↦
          rw (inside, ne→== _ _ taken)
            (elim (free_cell_cases p n (i + 1) (omega arith) fits) [
              | inl (run, all) ↦ inl (
                run,
                λ j low high. elim (ℕ_discrete i j) [
                  | yes q ↦ rw (← q) taken
                  | no q ↦ all j (omega arith) high
                ],
              )
              | inr (j, low, high, free, all, run) ↦ inr (
                j,
                omega arith,
                high,
                free,
                (λ l low' high'. elim (ℕ_discrete i l) [
                  | yes q ↦ rw (← q) taken
                  | no q ↦ all l (omega arith) high'
                ]),
                run,
              )
            ])
    ]

-- `process_add_thread` with room for at least one thread in a block that fits: the thread takes the
-- first free cell of the array and its index; with none free the function faults if `krealloc` has
-- room, since the new block has a byte for each thread and not 8, and if it has none the function
-- returns Error_No_Memory and the array is lost.
pub process_add_thread-Fits :
    (granted : Bool) (p : Process) (thread : ℕ)
    → Fits p
    → 0 < p.thread_capacity
    → p.thread_capacity + 10 < 2 ^ 32
    → thread ≢ 0
    → ((i : ℕ) × (i < p.thread_capacity)
        × (p.threads i ≡ 0)
        × ((l : ℕ) → l < i → p.threads l ≢ 0)
        × (process_add_thread granted p thread
            ≡ ok (record {
              status = Types.ok;
              thread_id = i;
              process = record p { threads = set_thread p.threads i thread };
            })))
      ⊎ (((j : ℕ) → j < p.thread_capacity → p.threads j ≢ 0)
          × (process_add_thread granted p thread ≡ (
              if granted
              then fault
              else ok (record {
                status = Types.no_memory;
                thread_id = p.thread_capacity;
                process = record p { thread_capacity = p.thread_capacity + 10; threads_bytes = 0 };
              }))))
unfolding process_add_thread place_thread
process_add_thread-Fits granted p thread fits room small some_thread =
    elim (free_cell_cases p p.thread_capacity 0 (omega arith) fits) [
      | inr (i, low, high, free, all, run) ↦
          inl
            (i, high, free, (λ l lt. all l (omega arith) lt), rw (ne→== _ _ some_thread, run) refl)
      | inl (run, all) ↦
          let count : (p.thread_capacity + 10) % 2 ^ 32 ≡ p.thread_capacity + 10 = omega arith in
          let block : p.threads_bytes ≢ 0 = λ e. omega (arith, e, fits) in
          let outside =
            leb-false (8 * p.thread_capacity + 8) (p.thread_capacity + 10) (omega arith) in
          inr (
            (λ j lt. all j (omega arith) lt),
            elim (Bool-cases granted) [
              | inl got ↦ rw (ne→== _ _ some_thread, run, got, ne→== _ _ block, count, outside) refl
              | inr none_left ↦ rw (ne→== _ _ some_thread, run, none_left, count) refl
            ],
          )
    ]

-- All that a thread has.
abbrev pub resources : Bool → Thread → List Resource
resources user_space t =
    Resource.thread_block t.address
    ∷ Resource.kernel_stack t.kernel_stack
    ∷ (if user_space then Resource.user_stack t.user_stack ∷ [] else [])

-- What a call of `thread_init` that has returned leaves: NULL with all that was taken given back, the
-- last first, and the process as it was; or a thread, by the status of `process_add_thread`: with Ok it
-- has all that was taken, with an error all of that has been given back too.
abbrev pub Balanced : Grants → Process → Bool → Started → Type 0
Balanced g p user_space s =
    ((s.thread ≡ none) × (s.returned ≡ reverse s.taken) × (s.process ≡ p))
    ⊎ ((t : Thread) × (added : Added) × (s.thread ≡ some t)
        × (s.taken ≡ resources user_space t)
        × (process_add_thread g.room p g.thread ≡ ok added)
        × (s.process ≡ added.process)
        × (s.returned ≡ (if is_ok added.status then [] else reverse s.taken)))

module _ (g : Grants) (p : Process) where
  finish_thread-Balanced :
      (user_space : Bool) (stack : ℕ) (added : Added) (s : Started)
      → process_add_thread g.room p g.thread ≡ ok added
      → finish_thread g user_space stack
          (Resource.thread_block g.thread
            ∷ Resource.kernel_stack g.kernel_stack
            ∷ (if user_space then Resource.user_stack stack ∷ [] else []))
          added
        ≡ ok s
      → Balanced g p user_space s
  unfolding finish_thread
  finish_thread-Balanced user_space stack added s run returned =
      subst (Balanced g p user_space) (ok_injective returned)
        (inr (_, added, refl, refl, run, refl, refl))

  with_thread :
      (user_space : Bool) (stack : ℕ) (s : Started)
      → (process_add_thread g.room p g.thread
          >>= finish_thread g user_space stack (
              Resource.thread_block g.thread
              ∷ Resource.kernel_stack g.kernel_stack
              ∷ (if user_space then Resource.user_stack stack ∷ [] else [])))
        ≡ ok s
      → Balanced g p user_space s
  with_thread user_space stack s returned =
      let (added, run, last) =
        >>=-eq-ok (process_add_thread g.room p g.thread)
          (finish_thread g user_space stack (
            Resource.thread_block g.thread
            ∷ Resource.kernel_stack g.kernel_stack
            ∷ (if user_space then Resource.user_stack stack ∷ [] else [])))
          returned in
      finish_thread-Balanced user_space stack added s run last

  start_thread-Balanced :
      (user_space : Bool) (s : Started)
      → start_thread g p user_space ≡ ok s
      → Balanced g p user_space s
  unfolding start_thread
  start_thread-Balanced true s returned = elim (Bool-cases (is_ok g.user_status)) [
    | inl e ↦ with_thread true g.user_stack s (then_branch _ e returned)
    | inr e ↦
        subst (Balanced g p true) (ok_injective (else_branch _ e returned)) (inl (refl, refl, refl))
  ]
  start_thread-Balanced false s returned = with_thread false 0 s returned

  -- Whatever `thread_init` returns: if it is NULL, all that was taken has been given back, the last
  -- first, and the process is as it was. Else it is a thread with all that was taken, of which nothing
  -- has been given back if `process_add_thread` has returned Ok; if that has returned an error, all of it
  -- has been given back, the last first, and the freed thread is returned all the same.
  pub thread_init-Balanced :
      (user_space : Bool) (s : Started)
      → thread_init g p user_space ≡ ok s
      → Balanced g p user_space s
  unfolding thread_init
  thread_init-Balanced user_space s returned = elim (ℕ_discrete g.thread 0) [
    | yes e ↦
        subst (Balanced g p user_space) (ok_injective (then_branch _ (eq→== _ _ e) returned))
          (inl (refl, refl, refl))
    | no some_thread ↦
        let rest = else_branch _ (ne→== _ _ some_thread) returned in
        elim (ℕ_discrete g.kernel_stack 0) [
          | yes e ↦
              subst (Balanced g p user_space) (ok_injective (then_branch _ (eq→== _ _ e) rest))
                (inl (refl, refl, refl))
          | no some_stack ↦
              start_thread-Balanced user_space s (else_branch _ (ne→== _ _ some_stack) rest)
        ]
  ]
