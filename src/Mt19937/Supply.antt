-- ===== src/Mt19937/Supply.antt =====
-- How many numbers the generator gives.
use kernel_of_truth.Base.{
  ℕ, zero, suc, ◌+◌, ◌<◌, ◌≤◌, ◌≡◌, refl, ◌⊎◌, inl, inr, ◌-◌, false, ne→==, ==_refl, ℕ_discrete,
  sym, ◌∙◌, ap, le→leb, arith, Run, ok, stuck, ◌>>=◌,
}
use kernel_of_truth.Mt19937.{
  Generator, state_size, mt19937_64_seed, mt19937_64_twist, mt19937_64_get_random_number, acquire,
  temper, seed_loop, seed_word, put,
}

-- The `k`th number from now on, where the numbers before it are drawn first.
pub draw : ℕ → Generator → Run (ℕ × Generator)
draw zero g = mt19937_64_get_random_number g
draw (suc k) g = mt19937_64_get_random_number g >>= λ (_, g'). draw k g'

draw_next :
    (g : Generator)
    → g.locked ≡ false
    → g.index < state_size
    → mt19937_64_get_random_number g
      ≡ ok (temper (g.state g.index), record g { index = g.index + 1 })
unfolding mt19937_64_get_random_number acquire
draw_next g free low =
    rw (free, le→leb g.index state_size (omega arith), ne→== g.index state_size (λ e. omega arith))
      refl

draw_stuck :
    (g : Generator)
    → g.locked ≡ false
    → g.index ≡ state_size
    → mt19937_64_get_random_number g ≡ stuck
unfolding mt19937_64_get_random_number mt19937_64_twist acquire
draw_stuck g free e = rw (free, e) refl

draw_words :
    (k : ℕ) (g : Generator)
    → g.locked ≡ false
    → g.index + k < state_size
    → (g' : Generator) × (draw k g ≡ ok (temper (g.state (g.index + k)), g'))
unfolding draw
draw_words zero g free low =
    let here : g.index + 0 ≡ g.index = omega arith in
    (record g { index = g.index + 1 }, rw here (draw_next g free (omega arith)))
draw_words (suc k) g free low =
    let there : g.index + 1 + k ≡ g.index + suc k = omega arith in
    let (g', e) = draw_words k (record g { index = g.index + 1 }) free (omega arith) in
    (g', rw (draw_next g free (omega arith)) (e ∙ ap (λ i. ok (temper (g.state i), g')) there))

draw_beyond :
    (k : ℕ) (g : Generator) → g.locked ≡ false → g.index + k ≡ state_size → draw k g ≡ stuck
unfolding draw
draw_beyond zero g free e = draw_stuck g free (omega arith)
draw_beyond (suc k) g free e =
    rw (draw_next g free (omega arith))
      (draw_beyond k (record g { index = g.index + 1 }) free (omega arith))

seed_loop-kept : (k i : ℕ) (f : ℕ → ℕ) (j : ℕ) → (j < i) ⊎ (i + k ≤ j) → seed_loop k i f j ≡ f j
unfolding seed_loop
seed_loop-kept zero i f j h = refl
seed_loop-kept (suc k) i f j h =
    seed_loop-kept k (i + 1) _ j
      (elim h [ inl before ↦ inl (omega arith) | inr behind ↦ inr (omega arith) ])
    ∙ rw (ne→== j i (λ e. ground arith))

-- The recurrence of the seeded state.
seed_loop-word :
    (k i : ℕ) (f : ℕ → ℕ) (j : ℕ)
    → 0 < i
    → i ≤ j
    → j < i + k
    → seed_loop k i f j ≡ seed_word j (seed_loop k i f (j - 1))
unfolding seed_loop
seed_loop-word zero i f j pos lo hi = absurd (omega arith)
seed_loop-word (suc k) i f j pos lo hi =
    let f' = put f i (seed_word i (f (i - 1))) in
    elim (ℕ_discrete j i) [
      | no later ↦ seed_loop-word k (i + 1) f' j (omega arith) (omega arith) (omega arith)
      | yes here ↦
          let word : f' i ≡ seed_word i (f (i - 1)) = rw (==_refl i) in
          let last : f' (i - 1) ≡ f (i - 1) = rw (ne→== (i - 1) i (λ e. omega arith)) in
          let at_i : seed_loop k (i + 1) f' i ≡ f' i =
            seed_loop-kept k (i + 1) f' i (inl (omega arith)) in
          let at_last : seed_loop k (i + 1) f' (i - 1) ≡ f' (i - 1) =
            seed_loop-kept k (i + 1) f' (i - 1) (inl (omega arith)) in
          rw here (at_i ∙ word ∙ ap (seed_word i) (sym (at_last ∙ last)))
    ]

-- The state after seeding is the recurrence from the seed on, but for its last word, which is the old
-- one; the generator starts with the first word.
pub mt19937_64_seed_lem :
    (g : Generator) (seed j : ℕ)
    → g.locked ≡ false
    → 0 < j
    → j < state_size - 1
    → (g' : Generator) × (mt19937_64_seed g seed ≡ ok g')
      × (g'.index ≡ 0)
      × (g'.locked ≡ false)
      × (g'.state 0 ≡ seed)
      × (g'.state j ≡ seed_word j (g'.state (j - 1)))
      × (g'.state (state_size - 1) ≡ g.state (state_size - 1))
unfolding mt19937_64_seed acquire
mt19937_64_seed_lem g seed j free pos low =
    let f = put g.state 0 seed in
    let f' = seed_loop (state_size - 2) 1 f in
    (
      record { index = 0; state = f'; locked = false },
      rw free refl,
      refl,
      refl,
      seed_loop-kept (state_size - 2) 1 f 0 (inl (omega arith)),
      seed_loop-word (state_size - 2) 1 f j (omega arith) (omega arith) (omega arith),
      seed_loop-kept (state_size - 2) 1 f (state_size - 1) (inr (omega arith)),
    )

-- A generator that has given no number since it was seeded gives each of the 312 words of its state,
-- tempered, in order.
pub supply_words :
    (g : Generator) (k : ℕ)
    → g.locked ≡ false
    → g.index ≡ 0
    → k < state_size
    → (g' : Generator) × (draw k g ≡ ok (temper (g.state k), g'))
supply_words g k free start low =
    let at : g.index + k ≡ k = omega arith in
    let (g', e) = draw_words k g free (omega arith) in
    (g', e ∙ ap (λ i. ok (temper (g.state i), g')) at)

-- The number after them is never returned: `mt19937_64_get_random_number` has taken the lock when it
-- calls `mt19937_64_twist`, which waits for it.
pub supply_ends : (g : Generator) → g.locked ≡ false → g.index ≡ 0 → draw state_size g ≡ stuck
supply_ends g free start = draw_beyond state_size g free (omega arith)
