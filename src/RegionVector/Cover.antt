-- ===== src/RegionVector/Cover.antt =====
-- What a vector stands for: how often each byte of the address space lies in one of its regions.
use kernel_of_truth.Base.{
  ℕ, ◌+◌, ◌≤◌, ◌<◌, ◌≡◌, ◌≢◌, refl, ◌&&◌, ltb, leb, bit, [], ◌∷◌, ◌++◌, All, arith, length,
}
use kernel_of_truth.Types.{u64_mod}
use kernel_of_truth.RegionVector.{
  Region, region, Section, RegionVector, last_of, init_of, fill_hole, regions_count,
}

-- The byte `x` lies in the block of `n` bytes at `a`.
unfoldable pub inside : ℕ → ℕ → ℕ → ℕ
inside a n x = bit (leb a x && ltb x (a + n))

unfoldable pub cover_section : Section → ℕ → ℕ
cover_section [] x = 0
cover_section (r ∷ rs) x = inside r.address r.size x + cover_section rs x

unfoldable pub cover : RegionVector → ℕ → ℕ
cover [] x = 0
cover (s ∷ v) x = cover_section s x + cover v x

-- The sum of the sizes.
unfoldable pub total_section : Section → ℕ
total_section [] = 0
total_section (r ∷ rs) = r.size + total_section rs

unfoldable pub total : RegionVector → ℕ
total [] = 0
total (s ∷ v) = total_section s + total v

-- A region whose size is a machine word and that ends within the address space.
abbrev pub Fits : Region → Type 0
Fits r = (r.size < u64_mod) × (r.address + r.size ≤ u64_mod)

abbrev pub AllFit : RegionVector → Type 0
AllFit v = All (All Fits) v

pub cover_section-append :
    (s t : Section) (x : ℕ) → cover_section (s ++ t) x ≡ cover_section s x + cover_section t x
unfolding cover_section
cover_section-append [] t x = omega arith
cover_section-append (r ∷ s) t x = omega (arith, cover_section-append s t x)

pub All-append :
    (P : Region → Type 0) (s t : Section) (first : All P s) (second : All P t) → All P (s ++ t)
All-append P (r ∷ s) t (here, rest) second = (here, All-append P s t rest second)
All-append P [] t first second = second

last-init-cover :
    (r : Region) (rs : Section) (x : ℕ)
    → cover_section (last_of r rs ∷ init_of r rs) x ≡ cover_section (r ∷ rs) x
unfolding last_of init_of cover_section
last-init-cover r [] x = refl
last-init-cover r (s ∷ ss) x = omega (arith, last-init-cover s ss x)

-- Moving the last region into the hole loses none and adds none.
pub fill_hole-cover : (rs : Section) (x : ℕ) → cover_section (fill_hole rs) x ≡ cover_section rs x
unfolding fill_hole
fill_hole-cover [] x = refl
fill_hole-cover (r ∷ rs) x = last-init-cover r rs x

module _ (P : Region → Type 0) where
  last-All : (r : Region) (rs : Section) → P r → All P rs → P (last_of r rs)
  unfolding last_of
  last-All r [] h hs = h
  last-All r (s ∷ ss) h hs = last-All s ss hs.0 hs.1

  init-All : (r : Region) (rs : Section) → P r → All P rs → All P (init_of r rs)
  unfolding init_of
  init-All r [] h hs = tt
  init-All r (s ∷ ss) h hs = (h, init-All s ss hs.0 hs.1)

  pub fill_hole-All : (rs : Section) → All P rs → All P (fill_hole rs)
  unfolding fill_hole
  fill_hole-All [] h = tt
  fill_hole-All (r ∷ rs) h = (last-All r rs h.0 h.1, init-All r rs h.0 h.1)

last-init-total :
    (r : Region) (rs : Section)
    → total_section (last_of r rs ∷ init_of r rs) ≡ total_section (r ∷ rs)
unfolding last_of init_of total_section
last-init-total r [] = refl
last-init-total r (s ∷ ss) = omega (arith, last-init-total s ss)

pub fill_hole-total : (rs : Section) → total_section (fill_hole rs) ≡ total_section rs
unfolding fill_hole
fill_hole-total [] = refl
fill_hole-total (r ∷ rs) = last-init-total r rs

pub total_section-append :
    (s t : Section) → total_section (s ++ t) ≡ total_section s + total_section t
unfolding total_section
total_section-append [] t = omega arith
total_section-append (r ∷ s) t = omega (arith, total_section-append s t)

last-init-length : (r : Region) (rs : Section) → length (init_of r rs) ≡ length rs
unfolding init_of
last-init-length r [] = refl
last-init-length r (s ∷ ss) = omega (arith, last-init-length s ss)

pub fill_hole-length : (rs : Section) → length (fill_hole rs) ≡ length rs
unfolding fill_hole
fill_hole-length [] = refl
fill_hole-length (r ∷ rs) = omega (arith, last-init-length r rs)

-- No region starts at `a`.
abbrev pub NoneAt : ℕ → RegionVector → Type 0
NoneAt a v = All (All (λ r. r.address ≢ a)) v

-- No section holds more regions than fit in its page.
abbrev pub Bounded : RegionVector → Type 0
Bounded v = All (λ s. length s ≤ regions_count) v

-- What giving back a block of `n` bytes at `a` makes of a vector.
pub record Gives (a n : ℕ) (v w : RegionVector) : Type 0 where
  pub covers : (x : ℕ) → cover w x ≡ cover v x + inside a n x
  pub sizes : total w ≡ total v + n
  pub fits : AllFit w
  pub bounded : Bounded w

-- What taking the region that starts at `a`, of `n` bytes, makes of a vector.
pub record Removes (a n : ℕ) (v w : RegionVector) : Type 0 where
  pub covers : (x : ℕ) → cover v x ≡ cover w x + inside a n x
  pub sizes : total v ≡ total w + n
  pub fits : AllFit w
  pub bounded : Bounded w
  pub block : Fits (region a n)
