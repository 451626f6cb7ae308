-- ===== src/File/Children.antt =====
-- The children of a file under `file_attach` and `file_detach` of kernel/core/file.c.
use kernel_of_truth.Base.{
  ℕ, zero, suc, ◌+◌, ◌-◌, ◌==◌, ◌&&◌, ◌≤◌, ◌<◌, ◌≡◌, ◌≢◌, ◌⊎◌, refl, inl, inr, bit, none, some, ok,
  arith, ℕ_discrete, Bool-cases, sym, ◌∙◌, ap, ne→==, eq→==, ==→eq, ==_refl,
}
use kernel_of_truth.Types
use kernel_of_truth.Types.{Status, add64, sub64, u64_mod}
use kernel_of_truth.Object.{object_release}
use kernel_of_truth.File.{File, Files, release_file, set_child, find_child, detach_at, file_detach}

-- How often `c` is among the first `n` children.
abbrev pub occurs : (ℕ → ℕ) → ℕ → ℕ → ℕ
occurs children zero c = 0
occurs children (suc n) c = bit (children n == c) + occurs children n c

pub occurs-set_child_past :
    (children : ℕ → ℕ) (n i child c : ℕ)
    → n ≤ i
    → occurs (set_child children i child) n c ≡ occurs children n c
occurs-set_child_past children zero i child c le = refl
occurs-set_child_past children (suc n) i child c le =
    let rest = occurs-set_child_past children n i child c (omega arith) in
    let e = ne→== n i (λ p. omega arith) in rw (e, rest) refl

-- A child in place of another.
occurs-set_child :
    (children : ℕ → ℕ) (n i child c : ℕ)
    → i < n
    → occurs (set_child children i child) n c + bit (children i == c)
      ≡ occurs children n c + bit (child == c)
occurs-set_child children zero i child c lt = absurd (omega arith)
occurs-set_child children (suc n) i child c lt = elim (ℕ_discrete n i) [
  | yes p ↦
      let e = eq→== n i p in
      let past = occurs-set_child_past children n i child c (omega arith) in
      rw (e, past, ← p) (omega arith)
  | no p ↦
      let e = ne→== n i p in
      let rest = occurs-set_child children n i child c (omega arith) in rw e (omega (arith, rest))
]

-- What the search for a child finds: the first cell that holds it.
pub find_child_cases :
    (children : ℕ → ℕ) (child k i : ℕ)
    → ((find_child children child k i ≡ none) × ((j : ℕ) → i ≤ j → j < i + k → children j ≢ child))
      ⊎ ((j : ℕ) × (i ≤ j)
          × (j < i + k)
          × (children j ≡ child)
          × ((l : ℕ) → i ≤ l → l < j → children l ≢ child)
          × (find_child children child k i ≡ some j))
unfolding find_child
find_child_cases children child zero i = inl (refl, λ j le lt. absurd (omega arith))
find_child_cases children child (suc k) i = elim (Bool-cases (children i == child)) [
  | inl e ↦
      inr
        (i, omega arith, omega arith, ==→eq _ _ e, (λ l low high. absurd (omega arith)), rw e refl)
  | inr e ↦
      let here : children i ≢ child = λ p. ground arith in
      elim (find_child_cases children child k (i + 1)) [
        | inl (absent, others) ↦ inl (
          rw e absent,
          λ j le lt. elim (ℕ_discrete i j) [
            | yes p ↦ rw (← p) here
            | no p ↦ others j (omega arith) (omega arith)
          ],
        )
        | inr (j, le, lt, there, first, found) ↦ inr (
          j,
          omega arith,
          omega arith,
          there,
          (λ l low high. elim (ℕ_discrete i l) [
            | yes p ↦ rw (← p) here
            | no p ↦ first l (omega arith) high
          ]),
          rw e found,
        )
      ]
]

absent-occurs :
    (children : ℕ → ℕ) (n c : ℕ) → ((j : ℕ) → j < n → children j ≢ c) → occurs children n c ≡ 0
absent-occurs children zero c h = refl
absent-occurs children (suc n) c h =
    let e = ne→== _ _ (h n (omega arith)) in
    let rest = absent-occurs children n c (λ j lt. h j (omega arith)) in rw (e, rest) refl

-- What `file_detach` makes of the store: the child is taken out once, or it was not there.
abbrev pub Leaves : Files → ℕ → ℕ → Status × Files → Type 0
Leaves fs parent child (Types.ok, fs') =
    ((c : ℕ)
      → occurs (fs' parent).children (fs' parent).child_count c + bit (child == c)
        ≡ occurs (fs parent).children (fs parent).child_count c)
    × ((fs' parent).child_count + 1 ≡ (fs parent).child_count)
    × ((fs' parent).obj ≡ (object_release (fs parent).obj).0)
    × ((fs' parent).frees
        ≡ (fs parent).frees + bit (((fs parent).obj.ref_count == 1) && (fs parent).obj.free))
    × ((x : ℕ) → x ≢ parent → fs' x ≡ fs x)
Leaves fs parent child (status, fs') =
    (status ≡ Types.absent)
    × (fs' ≡ fs)
    × (occurs (fs parent).children (fs parent).child_count child ≡ 0)

released :
    (f : File) → (release_file f).frees ≡ f.frees + bit ((f.obj.ref_count == 1) && f.obj.free)
unfolding object_release
released f = refl

detach_at-Leaves :
    (fs : Files) (parent child i : ℕ)
    → (fs parent).child_count < u64_mod
    → i < (fs parent).child_count
    → (fs parent).children i ≡ child
    → Leaves fs parent child (detach_at fs parent (some i))
detach_at-Leaves fs parent child i small lt here =
    let f = fs parent in
    let count : sub64 f.child_count 1 ≡ f.child_count - 1 = omega arith in
    let last : f.child_count ≡ suc (f.child_count - 1) = omega arith in
    let self = ==_refl parent in
    (
      (λ c.
          rw (self, count)
            (let whole : occurs f.children f.child_count c
                  ≡ bit (f.children (f.child_count - 1) == c)
                    + occurs f.children (f.child_count - 1) c =
                ap (λ n. occurs f.children n c) last in
              elim (ℕ_discrete i (f.child_count - 1)) [
                | yes p ↦
                    let past =
                      occurs-set_child_past f.children (f.child_count - 1) i
                        (f.children (f.child_count - 1)) c (omega arith) in
                    let q : f.children (f.child_count - 1) ≡ child = ap f.children (sym p) ∙ here in
                    let q' = ap (λ x. bit (x == c)) q in omega (arith, past, whole, q')
                | no p ↦
                    let moved =
                      occurs-set_child f.children (f.child_count - 1) i
                        (f.children (f.child_count - 1)) c (omega arith) in
                    let q = ap (λ x. bit (x == c)) here in omega (arith, moved, whole, q)
              ])),
      rw (self, count) (omega arith),
      rw self refl,
      rw self (released (fs parent)),
      λ x other. rw (ne→== x parent other) refl,
    )

-- `file_detach` of files that are not NULL returns: with Ok the child, which was among the children of
-- the parent, is there once less, whatever the order, the parent has a reference less, its function
-- to free it, if it has one, is called exactly when that was its only reference, and no other file has
-- changed; with Error_Absent the child was not among them and nothing has changed.
pub file_detach-Leaves :
    (fs : Files) (parent child : ℕ)
    → parent ≢ 0
    → child ≢ 0
    → (fs parent).child_count < u64_mod
    → (result : Status × Files) × (file_detach fs parent child ≡ ok result)
      × Leaves fs parent child result
unfolding file_detach
file_detach-Leaves fs parent child p c small =
    let f = fs parent in
    elim (find_child_cases f.children child f.child_count 0) [
      | inl (absent, others) ↦ (
        (Types.absent, fs),
        rw (ne→== _ _ p, ne→== _ _ c, absent) refl,
        (
          refl,
          refl,
          absent-occurs f.children f.child_count child
              (λ j lt. others j (omega arith) (omega arith)),
        ),
      )
      | inr (i, le, lt, here, first, found) ↦ (
        detach_at fs parent (some i),
        rw (ne→== _ _ p, ne→== _ _ c, found) refl,
        detach_at-Leaves fs parent child i small (omega arith) here,
      )
    ]
