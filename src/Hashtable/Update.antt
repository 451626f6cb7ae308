-- ===== src/Hashtable/Update.antt =====
-- What `hashtable_put` and `hashtable_remove` do to a well-formed table that keeps its size.
use kernel_of_truth.Base.{
  ℕ, zero, suc, ◌<◌, ◌≡◌, ◌≢◌, ◌==◌, true, false, arith, ok, ℕ_discrete, Bool-cases, ne→==, ==→eq,
  inl, inr,
}
use kernel_of_truth.Hashtable.{Key, Table, is_empty, fill, seek_empty_loop, hashtable_seek_empty}
use kernel_of_truth.Hashtable.Probe.{dist, next, next-lt, dist-next, dist-lt, dist-next_self}
use kernel_of_truth.Hashtable.Lookup.{home, IsValid, Absent, home-lt}

module _ {ℓ} {K : Type ℓ} ⦃k : Key K⦄ where
  -- The slot `i` is the first empty one on the way from slot `s`.
  pub record FirstGap (t : Table K) (s i : ℕ) : Type ℓ where
    pub bound : i < t.size
    pub gap : is_empty (t.slots i).state ≡ true
    pub before :
        (x : ℕ)
        → x < t.size
        → dist t.size s x < dist t.size s i
        → is_empty (t.slots x).state ≡ false

  seek_empty_loop-FirstGap :
      (t : Table K) (hash e f s : ℕ)
      → s < t.size
      → e < t.size
      → hash < t.size
      → is_empty (t.slots e).state ≡ true
      → dist t.size s e < f
      → dist t.size s e < dist t.size s hash
      → (i : ℕ) × (seek_empty_loop t hash f s ≡ ok i) × FirstGap t s i
  unfolding seek_empty_loop
  seek_empty_loop-FirstGap t hash e zero s hs he hh gap enough before = elim enough [ ]
  seek_empty_loop-FirstGap t hash e (suc f) s hs he hh gap enough before =
      let away : s ≢ hash = λ p. ground arith in
      elim (Bool-cases (is_empty (t.slots s).state)) [
        | inl stop ↦ (
          s,
          rw (ne→== s hash away, stop),
          record { bound = hs; gap = stop; before = λ x hx b. absurd (ground arith) },
        )
        | inr on ↦
            let there : s ≢ e = λ p. ground arith in
            let (i, run, g) =
              seek_empty_loop-FirstGap t hash e f (next t.size s) (next-lt t.size s hs) he hh gap
                (omega (arith, dist-next t.size s e hs he there))
                (omega
                  (arith, dist-next t.size s e hs he there, dist-next t.size s hash hs hh away)) in
            (
              i,
              rw (ne→== s hash away, on) run,
              record {
                bound = g.bound;
                gap = g.gap;
                before = λ x hx b. elim (ℕ_discrete s x) [
                  | yes same ↦ rw (← same) on
                  | no other ↦
                      let away_i : s ≢ i = λ p. ground (arith, g.gap) in
                      g.before x hx (
                        omega (
                          arith,
                          dist-next t.size s x hs hx other,
                          dist-next t.size s i hs g.bound away_i,
                        ))
                ];
              },
            )
      ]

  -- If the table has an empty slot, the search for one returns the first on the key's way.
  pub hashtable_seek_empty-FirstGap :
      (t : Table K) (q : K) (e : ℕ)
      → IsValid t
      → e < t.size
      → is_empty (t.slots e).state ≡ true
      → (i : ℕ) × (hashtable_seek_empty t q ≡ ok i) × FirstGap t (home t q) i
  unfolding hashtable_seek_empty
  hashtable_seek_empty-FirstGap t q e v he gap =
      let hash = home t q in
      let hh : hash < t.size = home-lt q v in
      let sized : (t.size == 0) ≡ false = ground (arith, v.nonempty) in
      elim (Bool-cases (is_empty (t.slots hash).state)) [
        | inl stop ↦ (
          hash,
          rw (sized, stop),
          record { bound = hh; gap = stop; before = λ x hx b. absurd (ground arith) },
        )
        | inr on ↦
            let ne : e ≢ hash = λ p. ground arith in
            let (i, run, g) =
              seek_empty_loop-FirstGap t hash e t.size (next t.size hash) (next-lt t.size hash hh)
                he hh gap (dist-lt t.size (next t.size hash) e (next-lt t.size hash hh) he)
                (dist-next_self t.size hash e hh he ne) in
            (
              i,
              rw (sized, on) run,
              record {
                bound = g.bound;
                gap = g.gap;
                before = λ x hx b. elim (ℕ_discrete hash x) [
                  | yes same ↦ rw (← same) on
                  | no other ↦
                      let away_i : hash ≢ i = λ p. ground (arith, g.gap) in
                      g.before x hx (
                        omega (
                          arith,
                          dist-next t.size hash x hh hx other,
                          dist-next t.size hash i hh g.bound away_i,
                        ))
                ];
              },
            )
      ]

  fill_kept :
      (t : Table K) (q : K) (v i x : ℕ)
      → is_empty (t.slots x).state ≡ false
      → is_empty ((fill t i q v).slots x).state ≡ false
  fill_kept t q v i x h = elim (Bool-cases (x == i)) [ inl e ↦ rw e | inr e ↦ rw e h ]

  -- Writing a new key into the first gap on its way keeps the table well formed.
  pub fill-IsValid :
      (t : Table K) (q : K) (v i : ℕ)
      → IsValid t
      → Absent t q
      → FirstGap t (home t q) i
      → IsValid (fill t i q v)
  fill-IsValid t q v i w out g = record {
    nonempty = w.nonempty;
    chained = λ j x hj hx f b. elim (Bool-cases (j == i)) [
      | inl e ↦
          let same : j ≡ i = ==→eq j i e in
          let b' = rw e at b in fill_kept t q v i x (g.before x hx (rw (← same) b'))
      | inr e ↦
          let f' = rw e at f in
          let b' = rw e at b in fill_kept t q v i x (w.chained j x hj hx f' b')
    ];
    unique = λ a b q' ha hb hita hitb. elim (Bool-cases (a == i)) [
      | inl ea ↦ elim (Bool-cases (b == i)) [
        | inl eb ↦ ground arith
        | inr eb ↦
            let hita' = rw ea at hita in
            let hitb' = rw eb at hitb in
            let other = out b hb in
            ground (arith, k.comp_symm q' q, k.comp_trans q q' (t.slots b).key)
      ]
      | inr ea ↦ elim (Bool-cases (b == i)) [
        | inl eb ↦
            let hita' = rw ea at hita in
            let hitb' = rw eb at hitb in
            let other = out a ha in
            ground (arith, k.comp_symm q' q, k.comp_trans q q' (t.slots a).key)
        | inr eb ↦
            let hita' = rw ea at hita in
            let hitb' = rw eb at hitb in w.unique a b q' ha hb hita' hitb'
      ]
    ];
  }
