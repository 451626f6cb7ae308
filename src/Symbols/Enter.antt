-- ===== src/Symbols/Enter.antt =====
-- `symbol_init` of kernel/core/symbols.c enters all symbols of the kernel.
use kernel_of_truth.Base.{
  ℕ, zero, suc, ◌+◌, ◌&&◌, ◌≤◌, ◌<◌, ◌≡◌, ◌≢◌, refl, inl, inr, Bool, true, false, not, bit, some,
  List, [], ◌∷◌, All, length, ok, arith, ℕ_discrete, Bool-cases, sym, ◌∙◌, ap,
}
use kernel_of_truth.Types
use kernel_of_truth.Types.{Status, add64, sub64, u64_mod}
use kernel_of_truth.Hashtable.{
  Key, Slot, SlotState, Table, is_empty, is_full, should_grow, blank, hashtable_init, hashtable_put,
}
use kernel_of_truth.Hashtable.Lookup.{hits, IsValid, HeldAt, Absent, hashtable_get-held}
use kernel_of_truth.Hashtable.Change.{Puts, hashtable_put-Puts}
use kernel_of_truth.Symbols.{
  SymbolEmbedded, symbol_fudge_factor, symbol_get, enter_loop, symbol_init,
}

empty_hits : (state : SlotState) (b : Bool) → is_empty state ≡ true → (is_full state && b) ≡ false
empty_hits SlotState.empty b e = refl
empty_hits SlotState.tombstone b e = refl
empty_hits SlotState.full b e = absurd (ground arith)

second : (a b : Bool) → (a && b) ≡ true → b ≡ true
second true b h = h
second false b h = absurd (ground arith)

-- A table of fewer than 512 slots does not grow while it has 128 left.
roomy : (size used : ℕ) → size ≤ 512 → used + 128 < size → should_grow size (add64 used 1) ≡ false
unfolding should_grow
roomy size used small room = ground arith

module _ {ℓ} {K : Type ℓ} ⦃k : Key K⦄ where
  -- How many of the first `n` slots are not empty.
  abbrev busy : (ℕ → Slot K) → ℕ → ℕ
  busy slots zero = 0
  busy slots (suc n) = bit (not (is_empty (slots n).state)) + busy slots n

  -- With fewer of them than slots, one is empty.
  empty_slot :
      (slots : ℕ → Slot K) (n : ℕ)
      → busy slots n < n
      → (e : ℕ) × (e < n) × (is_empty (slots e).state ≡ true)
  empty_slot slots zero lt = absurd (omega arith)
  empty_slot slots (suc n) lt = elim (Bool-cases (is_empty (slots n).state)) [
    | inl e ↦ (n, omega arith, e)
    | inr e ↦ let (x, inside, gap) = empty_slot slots n (ground (arith, e)) in (x, omega arith, gap)
  ]

  busy_same :
      (slots slots' : ℕ → Slot K) (n : ℕ)
      → ((x : ℕ) → x < n → slots' x ≡ slots x)
      → busy slots' n ≡ busy slots n
  busy_same slots slots' zero h = refl
  busy_same slots slots' (suc n) h =
      let here = ap (λ s. bit (not (is_empty s.state))) (h n (omega arith)) in
      omega (arith, here, busy_same slots slots' n (λ x lt. h x (omega arith)))

  -- One empty slot filled.
  busy_more :
      (slots slots' : ℕ → Slot K) (n i : ℕ)
      → i < n
      → is_empty (slots i).state ≡ true
      → is_empty (slots' i).state ≡ false
      → ((x : ℕ) → x ≢ i → slots' x ≡ slots x)
      → busy slots' n ≡ busy slots n + 1
  busy_more slots slots' zero i lt was is others = absurd (omega arith)
  busy_more slots slots' (suc n) i lt was is others = elim (ℕ_discrete n i) [
    | yes p ↦
        let rest = busy_same slots slots' n (λ x l. others x (λ e. omega (arith, e, p))) in
        rw p
          (rw (was, is) (omega (arith, ap (λ y. busy slots' y) p, ap (λ y. busy slots y) p, rest)))
    | no p ↦
        let here = ap (λ s. bit (not (is_empty s.state))) (others n p) in
        omega (arith, here, busy_more slots slots' n i (omega arith) was is others)
  ]

  -- The table has just these symbols.
  record Entered (size : ℕ) (entered : List (SymbolEmbedded K)) (t : Table K) : Type ℓ where
    valid : IsValid t
    sized : t.size ≡ size
    counted : t.used ≡ length entered
    occupied : busy t.slots t.size ≡ length entered
    absent : (q : K) → All (λ s. k.comp q s.name ≡ false) entered → Absent t q
    held : All (λ s. (i : ℕ) × HeldAt t s.name i × ((t.slots i).value ≡ s.location)) entered

  hits_not_empty :
      (t : Table K) (q : K) (i : ℕ) → hits t q i ≡ true → is_empty (t.slots i).state ≡ false
  hits_not_empty t q i h = elim (Bool-cases (is_empty (t.slots i).state)) [
    | inr e ↦ e
    | inl e ↦ absurd (ground (arith, empty_hits (t.slots i).state (k.comp q (t.slots i).key) e, h))
  ]

  -- The symbols that were held stay where they are.
  kept :
      (entered : List (SymbolEmbedded K)) (t t' : Table K) (q : K) (v i : ℕ)
      → Puts t q v i t'
      → All (λ s. (j : ℕ) × HeldAt t s.name j × ((t.slots j).value ≡ s.location)) entered
      → All (λ s. (j : ℕ) × HeldAt t' s.name j × ((t'.slots j).value ≡ s.location)) entered
  kept [] t t' q v i puts h = tt
  kept (s ∷ entered) t t' q v i puts ((j, inside, value), rest) =
      let other : j ≢ i = λ e. absurd (
        ground (
          arith,
          hits_not_empty t s.name j inside.1,
          ap (λ x. is_empty (t.slots x).state) e,
          puts.was_empty,
        )) in
      let same = puts.others j other in
      (
        (
          j,
          (
            omega (arith, inside.0, puts.size),
            ap (λ slot. is_full slot.state && k.comp s.name slot.key) same ∙ inside.1,
          ),
          ap (λ slot. slot.value) same ∙ value,
        ),
        kept entered t t' q v i puts rest,
      )

  -- A key that is not the new one is as absent as it was.
  still-Absent :
      (t t' : Table K) (q q' : K) (v i : ℕ)
      → Puts t q v i t'
      → k.comp q' q ≡ false
      → Absent t q'
      → Absent t' q'
  still-Absent t t' q q' v i puts differs out x inside = elim (ℕ_discrete x i) [
    | no other ↦
        ap (λ slot. is_full slot.state && k.comp q' slot.key) (puts.others x other)
        ∙ out x (omega (arith, inside, puts.size))
    | yes here ↦ elim (Bool-cases (hits t' q' x)) [
      | inr e ↦ e
      | inl e ↦
          let there = ap (λ y. hits t' q' y) (sym here) ∙ e in
          let same : k.comp q' q ≡ true =
            k.comp_trans q' (t'.slots i).key q
              (second (is_full (t'.slots i).state) (k.comp q' (t'.slots i).key) there)
              (k.comp_symm (t'.slots i).key q
                ∙ second (is_full (t'.slots i).state) (k.comp q (t'.slots i).key) puts.held.1) in
          absurd (ground (arith, same, differs))
    ]
  ]

  -- No two of the symbols have names that compare equal, nor one of them and one entered before.
  abbrev pub Distinct : List (SymbolEmbedded K) → Type 0
  Distinct [] = Unit
  Distinct (s ∷ left) = All (λ o. k.comp o.name s.name ≡ false) left × Distinct left

  Entered-put :
      (size : ℕ) (entered : List (SymbolEmbedded K)) (s : SymbolEmbedded K) (t : Table K)
      (granted : Bool)
      → Entered size entered t
      → All (λ o. k.comp s.name o.name ≡ false) entered
      → length entered + 128 < size
      → size ≤ 512
      → (t' : Table K) × (hashtable_put t s.name s.location granted ≡ ok (Types.ok, t'))
        × Entered size (s ∷ entered) t'
  Entered-put size entered s t granted h others room small =
      let (e, inside, gap) = empty_slot t.slots t.size (omega (arith, h.occupied, h.sized)) in
      let stay : should_grow t.size (add64 t.used 1) ≡ false =
        roomy t.size t.used (omega (arith, h.sized)) (omega (arith, h.sized, h.counted)) in
      let (i, t', run, puts) =
        hashtable_put-Puts t s.name s.location e granted h.valid (h.absent s.name others) inside gap
          stay in
      (
        t',
        run,
        record {
          valid = puts.valid;
          sized = puts.size ∙ h.sized;
          counted = puts.counted ∙ omega (arith, h.counted);
          occupied =
              ap (λ n. busy t'.slots n) puts.size
              ∙ busy_more t.slots t'.slots t.size i (omega (arith, puts.held.0, puts.size))
                  puts.was_empty (hits_not_empty t' s.name i puts.held.1) puts.others
              ∙ omega (arith, h.occupied);
          absent =
              λ q (new, old). still-Absent t t' s.name q s.location i puts new (h.absent q old);
          held = ((i, puts.held, puts.value), kept entered t t' s.name s.location i puts h.held);
        },
      )

  -- `symbol_get` finds the symbols.
  abbrev pub Found : Table K → List (SymbolEmbedded K) → Type 0
  Found t symbols = All (λ s. symbol_get t s.name ≡ ok s.location) symbols

  Entered-Found :
      (size : ℕ) (entered : List (SymbolEmbedded K)) (t : Table K)
      → Entered size entered t
      → Found t entered
  unfolding symbol_get
  Entered-Found size entered t h = found_all entered h.held
    where
      found_all :
          (symbols : List (SymbolEmbedded K))
          → All (λ s. (i : ℕ) × HeldAt t s.name i × ((t.slots i).value ≡ s.location)) symbols
          → Found t symbols
      found_all [] held = tt
      found_all (s ∷ symbols) ((i, at, value), rest) =
          (hashtable_get-held t s.name i h.valid at ∙ ap ok value, found_all symbols rest)

  -- The names of the symbols that are left differ from those entered.
  abbrev Apart : List (SymbolEmbedded K) → List (SymbolEmbedded K) → Type 0
  Apart entered left = All (λ s. All (λ o. k.comp s.name o.name ≡ false) entered) left

  Apart-cons :
      (entered : List (SymbolEmbedded K)) (s : SymbolEmbedded K) (left : List (SymbolEmbedded K))
      → All (λ o. k.comp o.name s.name ≡ false) left
      → Apart entered left
      → Apart (s ∷ entered) left
  Apart-cons entered s [] new old = tt
  Apart-cons entered s (o ∷ left) (e, new) (h, old) = ((e, h), Apart-cons entered s left new old)

  none-Apart : (left : List (SymbolEmbedded K)) → Apart [] left
  none-Apart [] = tt
  none-Apart (s ∷ left) = (tt, none-Apart left)

  enter_loop-Found :
      (size : ℕ) (granted : Bool) (left entered : List (SymbolEmbedded K)) (t : Table K)
      → Entered size entered t
      → Apart entered left
      → Distinct left
      → length entered + length left + 128 ≤ size
      → size ≤ 512
      → (t' : Table K) × (enter_loop granted entered left t ≡ ok (Types.ok, t'))
        × Found t' entered
        × Found t' left
  unfolding enter_loop
  enter_loop-Found size granted [] entered t h apart distinct room small =
      (t, refl, Entered-Found size entered t h, tt)
  enter_loop-Found size granted (s ∷ left) entered t h (differs, apart) (new, distinct) room small =
      let (t1, run, h1) = Entered-put size entered s t granted h differs (omega arith) small in
      let (t', rest, found, found_left) =
        enter_loop-Found size granted left (s ∷ entered) t1 h1 (Apart-cons entered s left new apart)
          distinct (omega arith) small in
      (t', rw run rest, found.1, (found.0, found_left))

  busy_empty :
      (slots : ℕ → Slot K) (n : ℕ) → ((x : ℕ) → is_empty (slots x).state ≡ true) → busy slots n ≡ 0
  busy_empty slots zero h = refl
  busy_empty slots (suc n) h = ground (arith, h n, busy_empty slots n h)

  blank-Entered : (n : ℕ) → 0 < n → Entered n [] (record { used = 0; size = n; slots = λ _. blank })
  blank-Entered n some_slots = record {
    valid = record {
      nonempty = some_slots;
      chained = λ i x hi hx f b. absurd (ground arith);
      unique = λ i j q hi hj h h'. absurd (ground arith);
    };
    sized = refl;
    counted = refl;
    occupied = busy_empty (λ _. blank) n (λ x. refl);
    absent = λ q none_entered x inside. refl;
    held = tt;
  }

  -- With room for the table, at most 384 symbols, whose names all differ, are all entered:
  -- `symbol_init` returns Ok, and `symbol_get` of the name of each symbol returns its location.
  pub symbol_init-Found :
      (symbols : List (SymbolEmbedded K)) (granted : Bool)
      → Distinct symbols
      → length symbols ≤ 384
      → (t : Table K) × (symbol_init symbols true true granted ≡ ok (Types.ok, some t))
        × Found t symbols
  unfolding symbol_init hashtable_init
  symbol_init-Found symbols granted distinct few =
      let size = length symbols + symbol_fudge_factor in
      let start = blank-Entered size (omega arith) in
      let (t, run, found, all_found) =
        enter_loop-Found size granted symbols []
          (record { used = 0; size = size; slots = λ _. blank }) start (none-Apart symbols) distinct
          (omega arith) (omega arith) in
      (t, rw run refl, all_found)
