-- ===== src/Hashtable/Change.antt =====
-- `hashtable_put` and `hashtable_remove` on a table that keeps its size.
use kernel_of_truth.Base.{
  ℕ, ◌<◌, ◌≡◌, ◌≢◌, refl, ◌==◌, Bool, true, false, arith, ok, Bool-cases, ==_refl, ne→==, inl, inr,
}
use kernel_of_truth.Types
use kernel_of_truth.Types.{add64, Status, sub64}
use kernel_of_truth.Hashtable.{
  Key, Table, is_empty, is_full, fill, bury, insert, hashtable_put, put_depth, hashtable_remove,
  remove_at, should_grow, should_shrink,
}
use kernel_of_truth.Hashtable.Lookup.{hits, IsValid, HeldAt, Absent, hashtable_seek-held}
use kernel_of_truth.Hashtable.Update.{hashtable_seek_empty-FirstGap, fill-IsValid}

module _ {ℓ} {K : Type ℓ} ⦃k : Key K⦄ where
  -- A new entry in slot `i`, which was empty, and no other change to the slots.
  pub record Puts (t : Table K) (q : K) (v i : ℕ) (t' : Table K) : Type ℓ where
    pub valid : IsValid t'
    pub was_empty : is_empty (t.slots i).state ≡ true
    pub held : HeldAt t' q i
    pub value : (t'.slots i).value ≡ v
    pub others : (x : ℕ) → x ≢ i → t'.slots x ≡ t.slots x
    pub counted : t'.used ≡ add64 t.used 1
    pub size : t'.size ≡ t.size

  -- `hashtable_put` of a key that a well-formed table does not hold, while the table need not grow and has an
  -- empty slot: it returns `Ok`, the table stays well formed and holds the new entry, in a slot that was
  -- empty, and all the old ones.
  pub hashtable_put-Puts :
      (t : Table K) (q : K) (v e : ℕ) (granted : Bool)
      → IsValid t
      → Absent t q
      → e < t.size
      → is_empty (t.slots e).state ≡ true
      → should_grow t.size (add64 t.used 1) ≡ false
      → (i : ℕ) × (t' : Table K) × (hashtable_put t q v granted ≡ ok (Types.ok, t'))
        × Puts t q v i t'
  unfolding hashtable_put put_depth insert
  hashtable_put-Puts t q v e granted w out he gap stay =
      let (i, run, g) = hashtable_seek_empty-FirstGap t q e w he gap in
      (
        i,
        fill t i q v,
        rw (run, stay),
        record {
          valid = fill-IsValid t q v i w out g;
          was_empty = g.gap;
          held = (g.bound, rw (==_refl i, k.comp_refl q));
          value = rw (==_refl i);
          others = λ x ne. rw (ne→== x i ne);
          counted = refl;
          size = refl;
        },
      )

  -- The entry in slot `i` is gone, and no other slot has changed.
  pub record Buries (t : Table K) (q : K) (i : ℕ) (t' : Table K) : Type ℓ where
    pub valid : IsValid t'
    pub absent : Absent t' q
    pub others : (x : ℕ) → x ≢ i → t'.slots x ≡ t.slots x
    pub size : t'.size ≡ t.size

  bury_kept :
      (t : Table K) (i x : ℕ)
      → is_empty (t.slots x).state ≡ false
      → is_empty ((bury t i).slots x).state ≡ false
  bury_kept t i x h = elim (Bool-cases (x == i)) [ inl e ↦ rw e | inr e ↦ rw e h ]

  bury_full :
      (t : Table K) (i j : ℕ) → is_full ((bury t i).slots j).state ≡ true → ((j == i) ≡ false)
  bury_full t i j h = elim (Bool-cases (j == i)) [ inl e ↦ let h' = rw e at h in cc | inr e ↦ e ]

  bury-hits : (t : Table K) (q : K) (i j : ℕ) → hits (bury t i) q j ≡ true → hits t q j ≡ true
  bury-hits t q i j h = elim (Bool-cases (j == i)) [
    | inl e ↦ let h' = rw e at h in cc
    | inr e ↦ rw e at h
  ]

  -- A tombstone breaks no chain.
  bury-IsValid : (t : Table K) (i : ℕ) → IsValid t → IsValid (bury t i)
  bury-IsValid t i w = record {
    nonempty = w.nonempty;
    chained = λ j x hj hx f b.
        let e = bury_full t i j f in bury_kept t i x (w.chained j x hj hx (rw e at f) (rw e at b));
    unique = λ a b q' ha hb hita hitb.
        w.unique a b q' ha hb (bury-hits t q' i a hita) (bury-hits t q' i b hitb);
  }

  bury-Buries : (t : Table K) (q : K) (i : ℕ) → IsValid t → HeldAt t q i → Buries t q i (bury t i)
  bury-Buries t q i w (lt, hit) = record {
    valid = bury-IsValid t i w;
    absent = λ x hx. elim (Bool-cases (x == i)) [
      | inl e ↦ rw e
      | inr e ↦
          let ne : x ≢ i = λ p. ground arith in
          rw e (elim (Bool-cases (hits t q x)) [
            | inl also ↦ absurd (ne (w.unique x i q hx lt also hit))
            | inr not_it ↦ not_it
          ])
    ];
    others = λ x ne. rw (ne→== x i ne);
    size = refl;
  }

  -- `hashtable_remove` of a key that a well-formed table holds, while the table need not shrink: it returns `Ok`,
  -- the table stays well formed, and the entry alone is gone.
  pub hashtable_remove-Buries :
      (t : Table K) (q : K) (i : ℕ) (granted : Bool)
      → IsValid t
      → HeldAt t q i
      → should_shrink t.size (sub64 t.used 1) ≡ false
      → (t' : Table K) × (hashtable_remove t q granted ≡ ok (Types.ok, t')) × Buries t q i t'
  unfolding hashtable_remove remove_at
  hashtable_remove-Buries t q i granted w held stay =
      (bury t i, rw (hashtable_seek-held t q i w held, stay), bury-Buries t q i w held)
