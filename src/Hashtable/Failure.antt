-- ===== src/Hashtable/Failure.antt =====
-- Where `hashtable_put` and `hashtable_remove` fail, or do not do what a table of keys should.
use kernel_of_truth.Base.{
  ℕ, zero, suc, ◌/◌, ◌<◌, ◌≡◌, ◌≢◌, ap, ◌==◌, Bool, true, false, arith, some, ok, panic, fault,
  Bool-cases, ==_refl, ne→==, inl, inr, ltb-false, ℕ_discrete,
}
use kernel_of_truth.Types
use kernel_of_truth.Types.{add64, Status, sub64}
use kernel_of_truth.Hashtable.{
  Key, Table, is_empty, fill, insert, seek_empty_loop, hashtable_seek_empty, hashtable_put,
  put_depth, hashtable_get, hashtable_seek, hashtable_remove, remove_at, should_grow, should_shrink,
  rebalance,
}
use kernel_of_truth.Hashtable.Probe.{dist, next, next-lt, dist-next, dist-lt}
use kernel_of_truth.Hashtable.Lookup.{
  hits, home, IsValid, HeldAt, Absent, home-hits, hashtable_seek-first, hashtable_seek-held,
  hashtable_seek-Absent,
}
use kernel_of_truth.Hashtable.Update.{FirstGap, hashtable_seek_empty-FirstGap}

module _ {ℓ} {K : Type ℓ} ⦃k : Key K⦄ where
  -- `hashtable_remove` of a key that a well-formed table does not hold writes through a NULL pointer, if a slot
  -- other than the key's first is empty.
  pub hashtable_remove-Absent :
      (t : Table K) (q : K) (e : ℕ) (granted : Bool)
      → IsValid t
      → Absent t q
      → e < t.size
      → is_empty (t.slots e).state ≡ true
      → e ≢ home t q
      → hashtable_remove t q granted ≡ fault
  unfolding hashtable_remove remove_at
  hashtable_remove-Absent t q e granted w out lt gap ne =
      rw (hashtable_seek-Absent t q e w out lt gap ne)

  -- `hashtable_remove` of a key that a well-formed table holds halts the machine if the table is to shrink: the
  -- new size fails the assertion that a table only grows.
  pub hashtable_remove_shrinking :
      (t : Table K) (q : K) (i : ℕ) (granted : Bool)
      → IsValid t
      → HeldAt t q i
      → should_shrink t.size (sub64 t.used 1) ≡ true
      → hashtable_remove t q granted ≡ panic
  unfolding hashtable_remove remove_at rebalance
  hashtable_remove_shrinking t q i granted w held small = rw (
    hashtable_seek-held t q i w held,
    small,
    ltb-false t.size (t.size / 2) (ground (arith, w.nonempty)),
  )

  seek_empty_loop-full :
      (t : Table K) (hash f s : ℕ)
      → s < t.size
      → hash < t.size
      → ((x : ℕ) → x < t.size → is_empty (t.slots x).state ≡ false)
      → dist t.size s hash < f
      → seek_empty_loop t hash f s ≡ panic
  unfolding seek_empty_loop
  seek_empty_loop-full t hash zero s hs hh none_empty enough = elim enough [ ]
  seek_empty_loop-full t hash (suc f) s hs hh none_empty enough = elim (ℕ_discrete s hash) [
    | yes back ↦ rw back (rw (==_refl hash))
    | no away ↦
        rw (ne→== s hash away, none_empty s hs)
          (seek_empty_loop-full t hash f (next t.size s) (next-lt t.size s hs) hh none_empty
            (omega (arith, dist-next t.size s hash hs hh away)))
  ]

  -- A table of at least one slot, none of them empty, takes no key, however many of its slots are tombstones: the machine
  -- halts.
  pub hashtable_put_full :
      (t : Table K) (q : K) (v : ℕ) (granted : Bool)
      → 0 < t.size
      → ((x : ℕ) → x < t.size → is_empty (t.slots x).state ≡ false)
      → hashtable_put t q v granted ≡ panic
  unfolding hashtable_put put_depth insert hashtable_seek_empty
  hashtable_put_full t q v granted pos none_empty =
      let hash = home t q in
      let hh : hash < t.size = omega arith in
      let sized : (t.size == 0) ≡ false = ground arith in
      rw (
        sized,
        none_empty hash hh,
        seek_empty_loop-full t hash t.size (next t.size hash) (next-lt t.size hash hh) hh none_empty
            (dist-lt t.size (next t.size hash) hash (next-lt t.size hash hh) hh),
      )

  -- The entry that was there stands before the gap on the key's way.
  seek-fill :
      (t : Table K) (q : K) (v i j : ℕ)
      → IsValid t
      → HeldAt t q i
      → FirstGap t (home t q) j
      → hashtable_seek (fill t j q v) q ≡ ok (some i)
  seek-fill t q v i j w (lt, hit) g =
      let same = home-hits t q i hit in
      let apart : (i == j) ≡ false = ground (arith, g.gap) in
      hashtable_seek-first (fill t j q v) q i w.nonempty (lt, rw apart hit)
        λ x hx before.
          let filled : is_empty (t.slots x).state ≡ false =
            w.chained i x lt hx (ground arith) (rw (← same) before) in
          let aside : (x == j) ≡ false = ground (arith, g.gap) in
          (
            rw aside filled,
            rw aside (elim (Bool-cases (hits t q x)) [
              | inl also ↦ let met : x ≡ i = w.unique x i q hx lt also hit in absurd (ground arith)
              | inr other ↦ other
            ]),
          )

  old_value :
      (t : Table K) (q : K) (v i j : ℕ)
      → (i == j) ≡ false
      → ((fill t j q v).slots i).value ≡ (t.slots i).value
  old_value t q v i j e = rw e

  -- `hashtable_put` of a key that a well-formed table holds does not replace the entry: while the table need not
  -- grow and has an empty slot it returns `Ok`, and `hashtable_get` still returns the old value.
  pub hashtable_put_again :
      (t : Table K) (q : K) (v i e : ℕ) (granted : Bool)
      → IsValid t
      → HeldAt t q i
      → e < t.size
      → is_empty (t.slots e).state ≡ true
      → should_grow t.size (add64 t.used 1) ≡ false
      → (t' : Table K) × (hashtable_put t q v granted ≡ ok (Types.ok, t'))
        × (hashtable_get t' q ≡ ok (t.slots i).value)
  unfolding hashtable_put put_depth insert hashtable_get
  hashtable_put_again t q v i e granted w (lt, hit) he gap stay =
      let (j, run, g) = hashtable_seek_empty-FirstGap t q e w he gap in
      let apart : (i == j) ≡ false = ground (arith, g.gap) in
      (
        fill t j q v,
        rw (run, stay),
        rw (seek-fill t q v i j w (lt, hit) g) (ap ok (old_value t q v i j apart)),
      )
