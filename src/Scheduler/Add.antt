-- ===== src/Scheduler/Add.antt =====
-- `scheduler_add_thread` and `scheduler_yield` on a ring of threads.
use kernel_of_truth.Base.{
  ℕ, ◌≡◌, ◌≢◌, refl, sym, subst, ◌∙◌, true, false, List, [], ◌∷◌, ◌++◌, All, ne→==, ==_refl, ok,
}
use kernel_of_truth.Scheduler.{
  Scheduler, scheduler_add_thread, scheduler_yield, acquire, link_behind, retain, set_next,
  set_prev, release, write,
}
use kernel_of_truth.Scheduler.Ring.{
  IsRing, Links, Distinct, Links-next, Links-prev, Links-append, All-last, Distinct-last,
}

-- The links after the insertion of `t` behind `c`, where `n` was.
inserted :
    (f g : ℕ → ℕ) (c t : ℕ) (xs : List ℕ)
    → Links f g c xs c
    → All (λ y. y ≢ c) xs
    → All (λ y. y ≢ t) xs
    → c ≢ t
    → Distinct xs
    → Links (write (write f t (f c)) c t) (write (write g t c) (f c) t) c (t ∷ xs) c
inserted f g c t [] l dc dt n d =
    let ct = ne→== c t n in
    let tc = ne→== t c (λ e. n (sym e)) in
    (rw (==_refl c), rw (l.0, tc, ==_refl t), (rw (tc, ==_refl t) (l.0), rw (l.0, ==_refl c)))
inserted f g c t (x ∷ xs) l dc dt n d =
    let tc = ne→== t c (λ e. n (sym e)) in
    let tx = ne→== t x (λ e. dt.0 (sym e)) in
    (
      rw (==_refl c),
      rw (l.0, tx, ==_refl t),
      (
        rw (tc, ==_refl t) (l.0),
        rw (l.0, ==_refl x),
        Links-next (write f t (f c)) (write (write g t c) (f c) t) x xs c c t dc.0 dc.1 (
            Links-next f (write (write g t c) (f c) t) x xs c t (f c) dt.0 dt.1 (
              rw (l.0) (
                Links-prev f (write g t c) x xs c x t (λ e. dc.0 (sym e)) (d.0)
                  (Links-prev f g x xs c t c n dt.1 (l.2))))),
      ),
    )

next_some :
    (f g : ℕ → ℕ) (c : ℕ) (xs : List ℕ) → Links f g c xs c → All (λ y. y ≢ 0) (c ∷ xs) → f c ≢ 0
next_some f g c [] l h e = h.0 (sym (l.0) ∙ e)
next_some f g c (x ∷ xs) l h e = h.1.0 (sym (l.0) ∙ e)

-- The state after an insertion behind the current thread.
abbrev added : Scheduler → ℕ → Scheduler
added s t =
    let c = s.current in
    let s1 = set_prev t c (set_next t (s.next c) (record s { locked = true })) in
    release (retain t (set_next c t (set_prev (s.next c) t s1)))

-- `scheduler_add_thread` of a thread that is not in the ring returns: the thread is the next after
-- the current one, and the ring stays closed.
pub scheduler_add_thread-IsRing :
    (s : Scheduler) (c t : ℕ) (xs : List ℕ)
    → IsRing s c xs
    → t ≢ 0
    → All (λ y. y ≢ t) (c ∷ xs)
    → (s' : Scheduler) × (scheduler_add_thread s t ≡ ok s') × IsRing s' c (t ∷ xs)
unfolding scheduler_add_thread acquire link_behind retain
scheduler_add_thread-IsRing s c t xs r nt new =
    let k = s.current in
    let some_c = ne→== k 0 (λ z. r.some_thread.0 (sym (r.starts) ∙ z)) in
    let kt = ne→== k t (λ z. new.0 (sym (r.starts) ∙ z)) in
    let to =
      ne→== (s.next k) 0 (rw (r.starts) (next_some s.next s.prev c xs r.linked r.some_thread)) in
    (
      added s t,
      rw (ne→== t 0 nt, r.unlocked, some_c, kt, to) refl,
      record {
        starts = r.starts;
        unlocked = refl;
        linked =
            subst
              (λ k.
                Links (write (write s.next t (s.next k)) k t)
                  (write (write s.prev t k) (s.next k) t) c (t ∷ xs) c)
              (sym (r.starts))
              (inserted s.next s.prev c t xs r.linked r.distinct.0 new.1 new.0 r.distinct.1);
        distinct = (((λ e. new.0 (sym e)), r.distinct.0), (new.1, r.distinct.1));
        some_thread = (r.some_thread.0, (nt, r.some_thread.1));
      },
    )

-- `scheduler_yield` on a ring of several threads returns and moves the current thread to the end; it
-- leaves the ring closed.
pub scheduler_yield-IsRing :
    (s : Scheduler) (c x : ℕ) (xs : List ℕ)
    → IsRing s c (x ∷ xs)
    → (s' : Scheduler) × (scheduler_yield s ≡ ok s') × IsRing s' x (xs ++ (c ∷ []))
unfolding scheduler_yield acquire
scheduler_yield-IsRing s c x xs r =
    let (e, e', l) = r.linked in
    let named = ne→== s.current 0 (λ z. r.some_thread.0 (sym (r.starts) ∙ z)) in
    let others = ne→== s.current x (λ z. r.distinct.0.0 (sym z ∙ r.starts)) in
    let to : s.next s.current ≡ x = rw (r.starts) e in
    (
      record s { current = x; locked = false },
      rw (named, to, others, r.unlocked) (rw to refl),
      record {
        starts = refl;
        unlocked = refl;
        linked = Links-append s.next s.prev x xs c x l e e';
        distinct = (
          All-last (λ y. y ≢ x) xs c r.distinct.1.0 (λ q. r.distinct.0.0 (sym q)),
          Distinct-last xs c r.distinct.0.1 r.distinct.1.1,
        );
        some_thread =
            (r.some_thread.1.0, All-last (λ y. y ≢ 0) xs c r.some_thread.1.1 r.some_thread.0);
      },
    )
