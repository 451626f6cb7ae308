-- ===== src/Hashtable/Lookup.antt =====
-- What `hashtable_get` finds.
use kernel_of_truth.Base.{
  ℕ, zero, suc, ◌%◌, ◌<◌, ◌≡◌, ◌≢◌, ◌&&◌, ◌==◌, Bool, true, false, arith, none, some, ok,
  ℕ_discrete, Bool-cases, ne→==, inl, inr,
}
use kernel_of_truth.Hashtable.{
  Key, Table, is_empty, is_full, seek_loop, hashtable_seek, hashtable_get,
}
use kernel_of_truth.Hashtable.Probe.{
  dist, next, next-lt, dist-next, dist-lt, dist-next_self, dist_before,
}

module _ {ℓ} {K : Type ℓ} ⦃k : Key K⦄ where
  -- The slot holds a key that is equal to `q`.
  abbrev pub hits : Table K → K → ℕ → Bool
  hits t q x = is_full (t.slots x).state && k.comp q (t.slots x).key

  -- The slot where the search for a key begins.
  abbrev pub home : Table K → K → ℕ
  home t q = k.hash q % t.size

  -- The table is well formed: an entry can be reached from its home without crossing an empty slot,
  -- and no two slots hold equal keys.
  pub record IsValid (t : Table K) : Type ℓ where
    pub nonempty : 0 < t.size
    pub chained :
        (i x : ℕ)
        → i < t.size
        → x < t.size
        → is_full (t.slots i).state ≡ true
        → dist t.size (home t (t.slots i).key) x < dist t.size (home t (t.slots i).key) i
        → is_empty (t.slots x).state ≡ false
    pub unique :
        (i j : ℕ) (q : K) → i < t.size → j < t.size → hits t q i ≡ true → hits t q j ≡ true → i ≡ j

  -- The table holds the key, in slot `i`.
  abbrev pub HeldAt : Table K → K → ℕ → Type 0
  HeldAt t q i = (i < t.size) × (hits t q i ≡ true)

  abbrev pub Absent : Table K → K → Type 0
  Absent t q = (x : ℕ) → x < t.size → hits t q x ≡ false

  seek_loop-found :
      (t : Table K) (q : K) (hash i f s : ℕ)
      → s < t.size
      → i < t.size
      → hash < t.size
      → hits t q i ≡ true
      → ((x : ℕ)
          → x < t.size
          → dist t.size s x < dist t.size s i
          → is_empty (t.slots x).state ≡ false)
      → ((x : ℕ) → x < t.size → dist t.size s x < dist t.size s i → hits t q x ≡ false)
      → dist t.size s i < f
      → dist t.size s i < dist t.size s hash
      → seek_loop t q hash f s ≡ ok (some i)
  unfolding seek_loop
  seek_loop-found t q hash i zero s hs hi hh hit chain first enough before = elim enough [ ]
  seek_loop-found t q hash i (suc f) s hs hi hh hit chain first enough before =
      let away : s ≢ hash = λ e. ground arith in
      elim (ℕ_discrete s i) [
        | yes here ↦ rw (ne→== s hash away) (ground arith)
        | no there ↦
            let rest =
              seek_loop-found t q hash i f (next t.size s) (next-lt t.size s hs) hi hh hit
                (λ x hx before'. chain x hx (dist_before t.size s i x hs hi hx there before'))
                (λ x hx before'. first x hx (dist_before t.size s i x hs hi hx there before'))
                (omega (arith, dist-next t.size s i hs hi there))
                (omega
                  (arith, dist-next t.size s i hs hi there, dist-next t.size s hash hs hh away)) in
            let filled : is_empty (t.slots s).state ≡ false = chain s hs (ground arith) in
            let miss : hits t q s ≡ false = first s hs (ground arith) in
            rw (ne→== s hash away, filled, miss) rest
      ]

  pub home-lt : {t : Table K} (q : K) → IsValid t → home t q < t.size
  home-lt {t} q v = omega (arith, v.nonempty)

  -- Equal keys begin their search at one slot.
  pub home-hits :
      (t : Table K) (q : K) (i : ℕ) → hits t q i ≡ true → home t q ≡ home t (t.slots i).key
  home-hits t q i h =
      let same : k.hash q ≡ k.hash (t.slots i).key = k.hash-comp _ _ (ground arith) in rw same

  -- The search ends at the first slot on the key's way that holds an equal key, if no slot before it is
  -- empty.
  pub hashtable_seek-first :
      (t : Table K) (q : K) (i : ℕ)
      → 0 < t.size
      → HeldAt t q i
      → ((x : ℕ)
          → x < t.size
          → dist t.size (home t q) x < dist t.size (home t q) i
          → (is_empty (t.slots x).state ≡ false) × (hits t q x ≡ false))
      → hashtable_seek t q ≡ ok (some i)
  unfolding hashtable_seek
  hashtable_seek-first t q i pos (lt, hit) way =
      let hash = home t q in
      let hh : hash < t.size = omega arith in
      let sized : (t.size == 0) ≡ false = ground arith in
      elim (ℕ_discrete hash i) [
        | yes here ↦ rw (sized, here, hit)
        | no ne ↦
            rw (sized, (way hash hh (ground arith)).1)
              (seek_loop-found t q hash i t.size (next t.size hash) (next-lt t.size hash hh) lt hh
                hit (λ x hx before. (way x hx (dist_before t.size hash i x hh lt hx ne before)).0)
                (λ x hx before. (way x hx (dist_before t.size hash i x hh lt hx ne before)).1)
                (dist-lt t.size (next t.size hash) i (next-lt t.size hash hh) lt)
                (dist-next_self t.size hash i hh lt (λ e. ne (ground arith))))
      ]

  -- The search for a key that the table holds ends at its slot.
  pub hashtable_seek-held :
      (t : Table K) (q : K) (i : ℕ) → IsValid t → HeldAt t q i → hashtable_seek t q ≡ ok (some i)
  hashtable_seek-held t q i v (lt, hit) =
      hashtable_seek-first t q i v.nonempty (lt, hit)
        λ x hx before. (
          v.chained i x lt hx (ground arith) (rw (← home-hits t q i hit) before),
          elim (Bool-cases (hits t q x)) [
            | inl also ↦ let same : x ≡ i = v.unique x i q hx lt also hit in absurd (ground arith)
            | inr other ↦ other
          ],
        )

  seek_loop-Absent :
      (t : Table K) (q : K) (hash e f s : ℕ)
      → s < t.size
      → e < t.size
      → hash < t.size
      → is_empty (t.slots e).state ≡ true
      → Absent t q
      → dist t.size s e < f
      → dist t.size s e < dist t.size s hash
      → seek_loop t q hash f s ≡ ok none
  unfolding seek_loop
  seek_loop-Absent t q hash e zero s hs he hh gap out enough before = elim enough [ ]
  seek_loop-Absent t q hash e (suc f) s hs he hh gap out enough before =
      let away : s ≢ hash = λ p. ground arith in
      elim (Bool-cases (is_empty (t.slots s).state)) [
        | inl stop ↦ rw (ne→== s hash away, stop)
        | inr on ↦
            let there : s ≢ e = λ p. ground arith in
            let rest =
              seek_loop-Absent t q hash e f (next t.size s) (next-lt t.size s hs) he hh gap out
                (omega (arith, dist-next t.size s e hs he there))
                (omega
                  (arith, dist-next t.size s e hs he there, dist-next t.size s hash hs hh away)) in
            rw (ne→== s hash away, on, out s hs) rest
      ]

  -- The search for a key that the table does not hold ends with NULL, if some slot other than the
  -- first that it looks at is empty.
  pub hashtable_seek-Absent :
      (t : Table K) (q : K) (e : ℕ)
      → IsValid t
      → Absent t q
      → e < t.size
      → is_empty (t.slots e).state ≡ true
      → e ≢ home t q
      → hashtable_seek t q ≡ ok none
  unfolding hashtable_seek
  hashtable_seek-Absent t q e v out lt gap ne =
      let hash = home t q in
      let hh : hash < t.size = home-lt q v in
      let sized : (t.size == 0) ≡ false = ground (arith, v.nonempty) in
      rw (sized, out hash hh)
        (seek_loop-Absent t q hash e t.size (next t.size hash) (next-lt t.size hash hh) lt hh gap
          out (dist-lt t.size (next t.size hash) e (next-lt t.size hash hh) lt)
          (dist-next_self t.size hash e hh lt ne))

  -- In a well-formed table `hashtable_get` returns the value of the entry whose key is equal to the one asked for.
  pub hashtable_get-held :
      (t : Table K) (q : K) (i : ℕ)
      → IsValid t
      → HeldAt t q i
      → hashtable_get t q ≡ ok (t.slots i).value
  unfolding hashtable_get
  hashtable_get-held t q i v held = rw (hashtable_seek-held t q i v held)

  -- In a well-formed table `hashtable_get` returns NULL for a key that is not there, if a slot other than the key's first is empty.
  pub hashtable_get-Absent :
      (t : Table K) (q : K) (e : ℕ)
      → IsValid t
      → Absent t q
      → e < t.size
      → is_empty (t.slots e).state ≡ true
      → e ≢ home t q
      → hashtable_get t q ≡ ok 0
  unfolding hashtable_get
  hashtable_get-Absent t q e v out lt gap ne = rw (hashtable_seek-Absent t q e v out lt gap ne)
