-- ===== src/Tests/Tables.antt =====
-- Runs of kernel/core/hashtable.c, on tables from numbers to numbers.
use kernel_of_truth.Base.{
  ℕ, ◌<◌, ◌≡◌, ◌≢◌, refl, sym, ◌∙◌, ◌==◌, ==→eq, ==_refl, true, if◌then◌else◌, Bool-cases, inl, inr,
  subst, ◌%◌, ok, arith,
}
use kernel_of_truth.Types
use kernel_of_truth.Hashtable.{
  Key, is_full, tombstone, full, Table, should_grow, should_shrink, blank, hashtable_put,
  hashtable_get, hashtable_remove,
}
use kernel_of_truth.Hashtable.Probe.{dist}
use kernel_of_truth.Hashtable.Lookup.{hits, home, IsValid, HeldAt, Absent, hashtable_get-held}
use kernel_of_truth.Hashtable.Change.{Puts, Buries, hashtable_put-Puts, hashtable_remove-Buries}

pub ==_symm : (a b : ℕ) → (a == b) ≡ (b == a)
==_symm a b = ground arith

pub ==_trans : (a b c : ℕ) → (a == b) ≡ true → (b == c) ≡ true → (a == c) ≡ true
==_trans a b c h h' = ground arith

instance unfoldable pub ℕ_Key : Key ℕ
ℕ_Key = record {
  hash = λ a. a;
  comp = λ a b. a == b;
  nil = 0;
  comp_refl = ==_refl;
  comp_symm = ==_symm;
  comp_trans = ==_trans;
  hash-comp = λ a b h. ==→eq a b h;
}

-- Of `n` slots, slot 1 holds the key 33 with the value 70.
abbrev one_in : ℕ → Table ℕ
one_in n = record {
  used = 1;
  size = n;
  slots = λ i. if i == 1 then record { state = full; key = 33; value = 70 } else blank;
}

-- Two tombstones.
abbrev buried : Table ℕ
buried = record {
  used = 0;
  size = 2;
  slots = λ _. record { state = tombstone; key = 0; value = 0 };
}

one_hit : (n q i : ℕ) → hits (one_in n) q i ≡ true → i ≡ 1
one_hit n q i h = elim (Bool-cases (i == 1)) [
  | inl e ↦ ==→eq i 1 e
  | inr e ↦ let h' = rw e at h in cc
]

one_full : (n i : ℕ) → is_full ((one_in n).slots i).state ≡ true → i ≡ 1
one_full n i h = elim (Bool-cases (i == 1)) [
  | inl e ↦ ==→eq i 1 e
  | inr e ↦ let h' = rw e at h in cc
]

not_before : (n s x : ℕ) → s ≡ 1 → ¬ (dist n s x < dist n s 1)
not_before n s x e h = ground arith

one_in-IsValid : (n : ℕ) → 33 % n ≡ 1 → 1 < n → IsValid (one_in n)
unfolding ℕ_Key
one_in-IsValid n r lt = record {
  nonempty = omega arith;
  chained = λ i x hi hx f b.
      let e = one_full n i f in
      let b' : dist n (33 % n) x < dist n (33 % n) 1 =
        subst
          (λ k.
            dist n (home (one_in n) ((one_in n).slots k).key) x
            < dist n (home (one_in n) ((one_in n).slots k).key) k)
          e b in
      absurd (not_before n (33 % n) x r b');
  unique = λ i j q hi hj h h'. one_hit n q i h ∙ sym (one_hit n q j h');
}

key_held : (n : ℕ) → 1 < n → HeldAt (one_in n) 33 1
unfolding ℕ_Key
key_held n lt = (lt, refl)

nine-Absent : Absent (one_in 4) 9
unfolding ℕ_Key
nine-Absent x h = elim (Bool-cases (x == 1)) [ inl e ↦ rw e | inr e ↦ rw e ]

nine_home : 2 ≢ home (one_in 4) 9
unfolding ℕ_Key
nine_home e = omega arith

hashtable_get-held_example : hashtable_get (one_in 4) 33 ≡ ok 70
hashtable_get-held_example =
    hashtable_get-held (one_in 4) 33 1 (one_in-IsValid 4 refl (omega arith))
      (key_held 4 (omega arith))

hashtable_put-Puts_example :
    (i : ℕ) × (t' : Table ℕ) × (hashtable_put (one_in 4) 9 80 true ≡ ok (Types.ok, t'))
    × Puts (one_in 4) 9 80 i t'
unfolding should_grow
hashtable_put-Puts_example =
    hashtable_put-Puts (one_in 4) 9 80 2 true (one_in-IsValid 4 refl (omega arith)) nine-Absent
      (omega arith) refl refl

hashtable_remove-Buries_example :
    (t' : Table ℕ) × (hashtable_remove (one_in 32) 33 true ≡ ok (Types.ok, t'))
    × Buries (one_in 32) 33 1 t'
unfolding should_shrink
hashtable_remove-Buries_example =
    hashtable_remove-Buries (one_in 32) 33 1 true (one_in-IsValid 32 refl (omega arith))
      (key_held 32 (omega arith)) refl
