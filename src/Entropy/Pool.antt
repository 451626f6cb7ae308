-- ===== src/Entropy/Pool.antt =====
-- The bytes that kernel/core/entropy.c takes in and gives out.
use kernel_of_truth.Base.{
  ℕ, zero, suc, ◌+◌, ◌-◌, ◌≤◌, ◌<◌, ◌≡◌, ◌≢◌, refl, List, [], ◌∷◌, ◌++◌, length, Run, ok, fault,
  ◌>>=◌, arith, ℕ_discrete, sym, ◌∙◌, ne→==, ==_refl, lt→ltb, ltb-false,
}
use kernel_of_truth.Entropy.{
  Entropy, entropy_pool_size, set_byte, entropy_pool_seed, take_byte, entropy_pool_consume,
}

-- Seeds with the bytes in turn.
abbrev pub seed_all : List ℕ → Entropy → Run Entropy
seed_all [] s = ok s
seed_all (b ∷ bs) s = entropy_pool_seed s b >>= seed_all bs

-- The bytes of as many calls of `entropy_pool_consume`, the last one first, and the pool.
abbrev pub consume_all : ℕ → ℕ → List ℕ → Entropy → Run (List ℕ × Entropy)
consume_all jitter zero taken s = ok (taken, s)
consume_all jitter (suc k) taken s =
    entropy_pool_consume jitter s >>= λ r. consume_all jitter k (r.0 ∷ taken) r.1

-- The pool after the bytes: they stand above the old depth.
abbrev Holds : Entropy → List ℕ → Entropy → Type 0
Holds s bs s' =
    (s'.depth ≡ s.depth + length bs)
    × ((i : ℕ) → i < s.depth → s'.pool i ≡ s.pool i)
    × ((jitter : ℕ) (more : List ℕ)
        → consume_all jitter (length bs) more s' ≡ ok (bs ++ more, record s' { depth = s.depth }))

-- Two ways to go on from a call that are equal.
>>=-cong :
    {A B : Type 0} (call : Run A) (f g : A → Run B)
    → ((a : A) → f a ≡ g a)
    → (call >>= f) ≡ (call >>= g)
>>=-cong (ok a) f g h = h a
>>=-cong fault f g h = refl
>>=-cong Run.panic f g h = refl
>>=-cong Run.stuck f g h = refl

>>=_assoc :
    {A B C : Type 0} (call : Run A) (f : A → Run B) (g : B → Run C)
    → ((call >>= f) >>= g) ≡ (call >>= λ a. f a >>= g)
>>=_assoc (ok a) f g = refl
>>=_assoc fault f g = refl
>>=_assoc Run.panic f g = refl
>>=_assoc Run.stuck f g = refl

-- One call more, after the others.
consume_all_snoc :
    (jitter k : ℕ) (taken : List ℕ) (s : Entropy)
    → consume_all jitter (suc k) taken s ≡ (
        consume_all jitter k taken s >>= λ r.
        entropy_pool_consume jitter r.1 >>= λ q. ok (q.0 ∷ r.0, q.1))
consume_all_snoc jitter zero taken s = refl
consume_all_snoc jitter (suc k) taken s =
    >>=-cong (entropy_pool_consume jitter s) (λ r. consume_all jitter (suc k) (r.0 ∷ taken) r.1)
      (λ r. consume_all jitter k (r.0 ∷ taken) r.1 >>= λ r.
        entropy_pool_consume jitter r.1 >>= λ q. ok (q.0 ∷ r.0, q.1))
      (λ r. consume_all_snoc jitter k (r.0 ∷ taken) r.1)
    ∙ sym (
        >>=_assoc (entropy_pool_consume jitter s) (λ r. consume_all jitter k (r.0 ∷ taken) r.1)
          (λ r. entropy_pool_consume jitter r.1 >>= λ q. ok (q.0 ∷ r.0, q.1)))

consume-depth :
    (jitter : ℕ) (s : Entropy)
    → s.depth ≢ 0
    → s.depth ≤ entropy_pool_size
    → entropy_pool_consume jitter s ≡ ok (s.pool (s.depth - 1), record s { depth = s.depth - 1 })
unfolding entropy_pool_consume take_byte
consume-depth jitter s some_byte fits =
    rw (ne→== _ _ some_byte, ltb-false entropy_pool_size s.depth fits) refl

seed_all-Holds :
    (bs : List ℕ) (s : Entropy)
    → s.depth + length bs ≤ entropy_pool_size
    → (s' : Entropy) × (seed_all bs s ≡ ok s') × Holds s bs s'
unfolding entropy_pool_seed
seed_all-Holds [] s fits = (s, refl, (omega arith, (λ i lt. refl), λ jitter more. refl))
seed_all-Holds (b ∷ bs) s fits =
    let s1 : Entropy = record { depth = s.depth + 1; pool = set_byte s.pool s.depth b } in
    let room = lt→ltb s.depth entropy_pool_size (omega arith) in
    let (s', run, holds) = seed_all-Holds bs s1 (omega arith) in
    let (depth, below, back) = holds in
    (
      s',
      rw room run,
      (
        omega (arith, depth),
        (λ i lt. below i (omega arith) ∙ rw (ne→== i s.depth (λ e. omega arith)) refl),
        λ jitter more.
            let s2 : Entropy = record s' { depth = s.depth + 1 } in
            let last = consume-depth jitter s2 (λ e. omega (arith, e)) (omega arith) in
            let place : s.depth + 1 - 1 ≡ s.depth = omega arith in
            let byte : s'.pool s.depth ≡ b =
              below s.depth (omega arith) ∙ rw (==_refl s.depth) refl in
            consume_all_snoc jitter (length bs) more s'
            ∙ rw (back jitter more, last, place, byte) refl,
      ),
    )

-- The bytes that the pool is seeded with come back in reverse order: as long as they fit in the pool,
-- `entropy_pool_seed` of each returns, and as many calls of `entropy_pool_consume` return them, the
-- last first, and leave the index as it was.
pub entropy_pool_consume-entropy_pool_seed :
    (jitter : ℕ) (bs : List ℕ) (s : Entropy)
    → s.depth + length bs ≤ entropy_pool_size
    → (seeded : Entropy) × (seed_all bs s ≡ ok seeded)
      × (consume_all jitter (length bs) [] seeded
          ≡ ok (bs ++ [], record seeded { depth = s.depth }))
entropy_pool_consume-entropy_pool_seed jitter bs s fits =
    let (s', run, holds) = seed_all-Holds bs s fits in (s', run, holds.2 jitter [])

-- More bytes than the pool has room for are stored past its end.
pub seed_all_overflows :
    (bs : List ℕ) (s : Entropy)
    → s.depth ≤ entropy_pool_size
    → entropy_pool_size < s.depth + length bs
    → seed_all bs s ≡ fault
unfolding entropy_pool_seed
seed_all_overflows [] s fits over = absurd (omega arith)
seed_all_overflows (b ∷ bs) s fits over = elim (ℕ_discrete s.depth entropy_pool_size) [
  | yes full ↦ rw (ltb-false s.depth entropy_pool_size (omega arith)) refl
  | no room ↦
      rw (lt→ltb s.depth entropy_pool_size (omega arith))
        (seed_all_overflows bs _ (omega arith) (omega arith))
]
