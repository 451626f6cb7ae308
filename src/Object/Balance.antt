-- ===== src/Object/Balance.antt =====
-- When the function to free an object is called.
use kernel_of_truth.Base.{
  ℕ, ◌+◌, ◌-◌, ◌%◌, ◌^◌, ◌<◌, ◌≡◌, refl, ◌==◌, false, List, [], ◌∷◌, ◌++◌, sym, subst, ap, arith,
  bit, Bool-cases, inl, inr,
}
use kernel_of_truth.Object.{Object, object_retain, object_release}

-- The calls on one object, in order.
pub data Use : Type 0 where
  retain release : Use

abbrev pub run : Object → List Use → Object
run o [] = o
run o (retain ∷ us) = run (object_retain o) us
run o (release ∷ us) = run ((object_release o).0) us

-- How often the object is freed on the way.
abbrev pub frees : Object → List Use → ℕ
frees o [] = 0
frees o (retain ∷ us) = frees (object_retain o) us
frees o (release ∷ us) = bit ((object_release o).1) + frees ((object_release o).0) us

-- With `n` references at the start, no release is one too many or the last, and the count does not
-- wrap; `m` references are left.
abbrev pub Held : ℕ → List Use → ℕ → Type 0
Held n [] m = m ≡ n
Held n (retain ∷ us) m = (n + 1 < 2 ^ 32) × Held (n + 1) us m
Held n (release ∷ us) m = (1 < n) × (n < 2 ^ 32) × Held (n - 1) us m

-- The effect of a call on an object that stays alive.
retain_held :
    (o : Object)
    → o.ref_count + 1 < 2 ^ 32
    → object_retain o ≡ record o { ref_count = o.ref_count + 1 }
unfolding object_retain
retain_held o h = let n : (o.ref_count + 1) % 2 ^ 32 ≡ o.ref_count + 1 = omega arith in rw n

release_held :
    (o : Object)
    → 1 < o.ref_count
    → o.ref_count < 2 ^ 32
    → object_release o ≡ (record o { ref_count = o.ref_count - 1 }, false)
unfolding object_release
release_held o h h' =
    let n : (o.ref_count + 2 ^ 32 - 1) % 2 ^ 32 ≡ o.ref_count - 1 = omega arith in
    let e : (o.ref_count == 1) ≡ false = ground arith in rw (n, e)

-- As long as references are left, an object is not freed, and its count is the number of references.
pub Held-alive :
    (o : Object) (us : List Use) (m : ℕ)
    → Held o.ref_count us m
    → (frees o us ≡ 0) × ((run o us).ref_count ≡ m) × ((run o us).free ≡ o.free)
Held-alive o [] m h = (refl, sym h, refl)
Held-alive o (retain ∷ us) m h =
    subst (λ o'. (frees o' us ≡ 0) × ((run o' us).ref_count ≡ m) × ((run o' us).free ≡ o.free))
      (sym (retain_held o h.0)) (Held-alive (record o { ref_count = o.ref_count + 1 }) us m h.1)
Held-alive o (release ∷ us) m h =
    subst
      (λ r.
        (bit (r.1) + frees (r.0) us ≡ 0)
        × ((run (r.0) us).ref_count ≡ m)
        × ((run (r.0) us).free ≡ o.free))
      (sym (release_held o h.0 h.1))
      (let (none_yet, count, same) =
          Held-alive (record o { ref_count = o.ref_count - 1 }) us m h.2 in
        (omega (arith, none_yet), count, same))

frees-append :
    (o : Object) (us vs : List Use) → frees o (us ++ vs) ≡ frees o us + frees (run o us) vs
frees-append o [] vs = omega arith
frees-append o (retain ∷ us) vs = frees-append (object_retain o) us vs
frees-append o (release ∷ us) vs = omega (arith, frees-append ((object_release o).0) us vs)

frees_last : (o : Object) → o.ref_count ≡ 1 → frees o (release ∷ []) ≡ bit o.free
unfolding object_release
frees_last o e = elim (Bool-cases o.free) [ inl h ↦ rw (e, h) | inr h ↦ rw (e, h) ]

-- Calls that leave one reference, none of them a release too many, do not free the object, and the
-- release after them does so once, if a function to free it is set.
pub freed_at_last :
    (o : Object) (us : List Use)
    → Held o.ref_count us 1
    → (frees o us ≡ 0) × (frees o (us ++ (release ∷ [])) ≡ bit o.free)
freed_at_last o us h =
    let (none_yet, one, same) = Held-alive o us 1 h in
    let last = frees_last (run o us) one in
    let whole = frees-append o us (release ∷ []) in
    let kept = ap bit same in (none_yet, omega (arith, last, whole, kept, none_yet))
