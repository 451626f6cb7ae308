-- ===== src/Interrupts/Handlers.antt =====
-- Handlers that are registered and unregistered, and the dispatcher of kernel/arch/x64/interrupts.c.
use kernel_of_truth.Base.{
  ℕ, ◌≡◌, ◌≢◌, refl, sym, ◌∙◌, ap, ◌==◌, Bool, true, false, Bool-cases, Option-cases, inl, inr,
  ==_refl, ==→eq, ne→==, ltb, subst, All, Option, none, some, List, [], ◌∷◌, ok, arith,
}
use kernel_of_truth.Types
use kernel_of_truth.Types.{Status}
use kernel_of_truth.Interrupts.{
  Dispatch, register_slot, unregister_slot, put, interrupt_register_handler,
  interrupt_unregister_handler, run_slots, interrupts_dispatcher, pic_end_of_interrupt,
}

-- The handler is in no slot.
abbrev pub NotIn : ℕ → List (Option ℕ) → Type 0
NotIn handler = All (λ slot. slot ≢ some handler)

unregister_slot-register_slot :
    (handler : ℕ) (slots slots' : List (Option ℕ))
    → NotIn handler slots
    → register_slot handler slots ≡ some slots'
    → unregister_slot handler slots' ≡ some slots
unfolding register_slot unregister_slot
unregister_slot-register_slot handler [] slots' fresh e = ground arith
unregister_slot-register_slot handler (none ∷ slots) slots' fresh e =
    let q : some handler ∷ slots ≡ slots' = ground arith in
    subst (λ t. unregister_slot handler t ≡ some (none ∷ slots)) q (rw (==_refl handler) refl)
unregister_slot-register_slot handler (some h ∷ slots) slots' fresh e =
    elim (Option-cases (register_slot handler slots)) [
      | inl full ↦ ground (arith, full, e)
      | inr (rest, found) ↦
          let q : some h ∷ rest ≡ slots' = ground (arith, found, e) in
          let other : (h == handler) ≡ false = ne→== h handler (λ same. fresh.0 (ap some same)) in
          subst (λ t. unregister_slot handler t ≡ some (some h ∷ slots)) q
            (rw (other, unregister_slot-register_slot handler slots rest fresh.1 found) refl)
    ]

-- A handler that was registered is in a slot.
pub data Registered (handler : ℕ) : List (Option ℕ) → Type 0 where
  here : {slots : List (Option ℕ)} → Registered handler (some handler ∷ slots)
  later :
      {slot : Option ℕ} {slots : List (Option ℕ)}
      → Registered handler slots
      → Registered handler (slot ∷ slots)

register_slot-Registered :
    (handler : ℕ) (slots slots' : List (Option ℕ))
    → register_slot handler slots ≡ some slots'
    → Registered handler slots'
unfolding register_slot
register_slot-Registered handler [] slots' e = ground arith
register_slot-Registered handler (none ∷ slots) slots' e =
    let q : some handler ∷ slots ≡ slots' = ground arith in subst (Registered handler) q here
register_slot-Registered handler (some h ∷ slots) slots' e =
    elim (Option-cases (register_slot handler slots)) [
      | inl full ↦ ground (arith, full, e)
      | inr (rest, found) ↦
          let q : some h ∷ rest ≡ slots' = ground (arith, found, e) in
          subst (Registered handler) q (later (register_slot-Registered handler slots rest found))
    ]

module _ {S : Type 0} (run : ℕ → S → Bool × S) where
  run_slots-Registered :
      (handler : ℕ) (slots : List (Option ℕ)) (s : S)
      → ((s : S) → (run handler s).0 ≡ true)
      → Registered handler slots
      → (run_slots run slots s).0 ≡ true
  unfolding run_slots
  run_slots-Registered handler (some _ ∷ slots) s takes here = rw (takes s)
  run_slots-Registered handler [] s takes there = elim there [ ]
  run_slots-Registered handler (none ∷ slots) s takes (later there) =
      run_slots-Registered handler slots s takes there
  run_slots-Registered handler (some h ∷ slots) s takes (later there) =
      elim (Bool-cases (run h s).0) [
        | inl handled ↦ rw handled
        | inr not_handled ↦
            rw not_handled (run_slots-Registered handler slots (run h s).1 takes there)
      ]

-- A handler that `interrupt_register_handler` has registered, and that takes every interrupt, is reached:
-- the dispatcher returns for that interrupt, exceptions included, and signals its end to the controllers.
pub interrupts_dispatcher-registered :
    {S : Type 0} (run : ℕ → S → Bool × S) (n handler : ℕ) (table table' : Dispatch) (s : S)
    → interrupt_register_handler n handler table ≡ ok (Types.ok, table')
    → ((s : S) → (run handler s).0 ≡ true)
    → (s' : S) × (interrupts_dispatcher run table' n s ≡ ok (s', pic_end_of_interrupt n))
unfolding interrupt_register_handler interrupts_dispatcher
interrupts_dispatcher-registered run n handler table table' s e takes =
    elim (Bool-cases (ltb n 256)) [
      | inr outside ↦ ground (arith, outside, e)
      | inl inside ↦ elim (Option-cases (register_slot handler (table n))) [
        | inl full ↦ ground (arith, inside, full, e)
        | inr (slots, found) ↦
            let q : put table n slots ≡ table' = ground (arith, inside, found, e) in
            let at_n : table' n ≡ slots = sym (ap (λ (t : Dispatch). t n) q) ∙ rw (==_refl n) in
            let reached =
              run_slots-Registered run handler slots s takes
                (register_slot-Registered handler (table n) slots found) in
            (
              (run_slots run slots s).1,
              rw (at_n, inside, reached)
                  (elim (Bool-cases (ltb n 32)) [
                    | inl exception ↦ rw exception
                    | inr device ↦ rw device
                  ]),
            )
      ]
    ]

-- A handler that was in no slot of the interrupt and has been registered can be unregistered, and the
-- table is then as it was.
pub interrupt_unregister_handler-interrupt_register_handler :
    (n handler : ℕ) (table table' : Dispatch)
    → NotIn handler (table n)
    → interrupt_register_handler n handler table ≡ ok (Types.ok, table')
    → (table'' : Dispatch) × (interrupt_unregister_handler n handler table'
        ≡ ok (Types.ok, table''))
      × ((m : ℕ) → table'' m ≡ table m)
unfolding interrupt_register_handler interrupt_unregister_handler
interrupt_unregister_handler-interrupt_register_handler n handler table table' fresh e =
    elim (Bool-cases (ltb n 256)) [
      | inr outside ↦ ground (arith, outside, e)
      | inl inside ↦ elim (Option-cases (register_slot handler (table n))) [
        | inl full ↦ ground (arith, inside, full, e)
        | inr (slots, found) ↦
            let q : put table n slots ≡ table' = ground (arith, inside, found, e) in
            let at_n : table' n ≡ slots = sym (ap (λ (t : Dispatch). t n) q) ∙ rw (==_refl n) in
            (
              put table' n (table n),
              rw (inside, at_n, unregister_slot-register_slot handler (table n) slots fresh found)
                  refl,
              λ m. elim (Bool-cases (m == n)) [
                | inl same ↦ rw (same, ==→eq m n same)
                | inr other ↦ rw other (sym (ap (λ (t : Dispatch). t m) q) ∙ rw other)
              ],
            )
      ]
    ]
