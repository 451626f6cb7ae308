-- ===== src/Scheduler/Ring.antt =====
-- The ring of threads as a list: the current thread, and the others in the order of `next`.
use kernel_of_truth.Base.{ℕ, ◌≡◌, ◌≢◌, sym, false, List, [], ◌∷◌, ◌++◌, All, ne→==}
use kernel_of_truth.Scheduler.{Scheduler, write}

-- From `a` the links lead through `xs` to `c`, and back.
abbrev pub Links : (ℕ → ℕ) → (ℕ → ℕ) → ℕ → List ℕ → ℕ → Type 0
Links f g a [] c = (f a ≡ c) × (g c ≡ a)
Links f g a (x ∷ xs) c = (f a ≡ x) × (g x ≡ a) × Links f g x xs c

abbrev pub Distinct : List ℕ → Type 0
Distinct [] = Unit
Distinct (x ∷ xs) = All (λ y. y ≢ x) xs × Distinct xs

-- The threads are distinct and not NULL, they are linked both ways in a ring, and the lock is free.
pub record IsRing (s : Scheduler) (c : ℕ) (xs : List ℕ) : Type 0 where
  pub starts : s.current ≡ c
  pub unlocked : s.locked ≡ false
  pub linked : Links s.next s.prev c xs c
  pub distinct : Distinct (c ∷ xs)
  pub some_thread : All (λ y. y ≢ 0) (c ∷ xs)

-- Links that do not start at the thread written stay.
pub Links-next :
    (f g : ℕ → ℕ) (a : ℕ) (xs : List ℕ) (c p q : ℕ)
    → a ≢ p
    → All (λ y. y ≢ p) xs
    → Links f g a xs c
    → Links (write f p q) g a xs c
Links-next f g a [] c p q n h l = (rw (ne→== a p n) (l.0), l.1)
Links-next f g a (x ∷ xs) c p q n h l =
    (rw (ne→== a p n) (l.0), l.1, Links-next f g x xs c p q h.0 h.1 l.2)

pub Links-prev :
    (f g : ℕ → ℕ) (a : ℕ) (xs : List ℕ) (c p q : ℕ)
    → c ≢ p
    → All (λ y. y ≢ p) xs
    → Links f g a xs c
    → Links f (write g p q) a xs c
Links-prev f g a [] c p q n h l = (l.0, rw (ne→== c p n) (l.1))
Links-prev f g a (x ∷ xs) c p q n h l =
    (l.0, rw (ne→== x p h.0) (l.1), Links-prev f g x xs c p q n h.1 l.2)

-- Links go on with one more thread at their end.
pub Links-append :
    (f g : ℕ → ℕ) (a : ℕ) (xs : List ℕ) (c d : ℕ)
    → Links f g a xs c
    → f c ≡ d
    → g d ≡ c
    → Links f g a (xs ++ (c ∷ [])) d
Links-append f g a [] c d l e e' = (l.0, l.1, (e, e'))
Links-append f g a (x ∷ xs) c d l e e' = (l.0, l.1, Links-append f g x xs c d l.2 e e')

-- Where a thread goes to the end of the list.
pub All-last : (P : ℕ → Type 0) (xs : List ℕ) (c : ℕ) → All P xs → P c → All P (xs ++ (c ∷ []))
All-last P [] c h p = (p, tt)
All-last P (x ∷ xs) c h p = (h.0, All-last P xs c h.1 p)

pub Distinct-last :
    (xs : List ℕ) (c : ℕ) → All (λ y. y ≢ c) xs → Distinct xs → Distinct (xs ++ (c ∷ []))
Distinct-last [] c h d = (tt, tt)
Distinct-last (x ∷ xs) c h d =
    (All-last (λ y. y ≢ x) xs c d.0 (λ e. h.0 (sym e)), Distinct-last xs c h.1 d.1)
