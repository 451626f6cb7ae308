-- ===== src/Paging/Mapping.antt =====
-- `map_page` of kernel/arch/x64/paging.c, by what it does to the mapping of the tables of `Space`, from
-- which Paging/Outside takes what holds of the addresses that no table is seen at.
use kernel_of_truth.Base.{
  ℕ, ◌≡◌, ◌≢◌, refl, sym, ◌∙◌, ◌⊎◌, inl, inr, Bool, true, false, if◌then◌else◌, Bool-cases, none,
  some, List, [], ◌∷◌, bit_or, bit_and, subst, arith,
}
use kernel_of_truth.Types
use kernel_of_truth.Types.{Status}
use kernel_of_truth.Paging.{
  Space, is_pl3_present, is_pl2_present, is_pl1_present, is_memory_present, entry_at, need_pl3,
  need_pl2, need_pl1, with_page, is_allowed, page_entry, fill_entry, map_page, on_ok, address_mask,
}
use kernel_of_truth.Paging.Walk.{
  mapping, same_page, SameMapping, HasTables, need_pl3-SameMapping, need_pl2-SameMapping,
  need_pl1-SameMapping, need_pl3-present, need_pl2-present, need_pl1-HasTables, mapping-set_entry,
  mapping-HasTables, present_or,
}

-- What `map_page` may do, by the status that it returns.
pub data Maps (a phys permissions : ℕ) (s : Space) : Status × Space → Type 0 where
  mapped :
      {s' : Space}
      → is_allowed a permissions ≡ true
      → mapping s a ≡ none
      → ((b : ℕ)
          → mapping s' b
            ≡ (if same_page a b then some (page_entry phys permissions) else mapping s b))
      → Maps a phys permissions s (Types.ok, s')
  forbidden : is_allowed a permissions ≡ false → Maps a phys permissions s (Types.permissions, s)
  taken :
      {s' : Space}
      → mapping s a ≢ none
      → SameMapping s s'
      → Maps a phys permissions s (Types.present, s')
  exhausted :
      {s' : Space}
      → mapping s a ≡ none
      → s'.supply ≡ []
      → SameMapping s s'
      → Maps a phys permissions s (Types.no_memory, s')

-- A step that allocates goes on, or finds no page and changes nothing.
abbrev Steps : Bool → Space → Status × Space → Type 0
Steps here s r =
    ((s' : Space) × (r ≡ (Types.ok, s')))
    ⊎ ((r ≡ (Types.no_memory, s)) × (s.supply ≡ []) × (here ≡ false))

step_cases :
    (here : Bool) (supply : List ℕ) (enter : ℕ → List ℕ → Space) (s : Space)
    → s.supply ≡ supply
    → Steps here s (if here then (Types.ok, s) else with_page supply enter s)
unfolding with_page
step_cases true supply enter s e = inl (s, refl)
step_cases false [] enter s e = inr (refl, e, refl)
step_cases false (page ∷ pages) enter s e = inl (enter page pages, refl)

need_pl3_cases : (a : ℕ) (s : Space) → Steps (is_pl3_present s a) s (need_pl3 a s)
unfolding need_pl3
need_pl3_cases a s = step_cases (is_pl3_present s a) s.supply _ s refl

need_pl2_cases : (a : ℕ) (s : Space) → Steps (is_pl2_present s a) s (need_pl2 a s)
unfolding need_pl2
need_pl2_cases a s = step_cases (is_pl2_present s a) s.supply _ s refl

need_pl1_cases : (a : ℕ) (s : Space) → Steps (is_pl1_present s a) s (need_pl1 a s)
unfolding need_pl1
need_pl1_cases a s = step_cases (is_pl1_present s a) s.supply _ s refl

-- A missing table maps nothing.
no_table :
    (a : ℕ) (s : Space)
    → (is_pl3_present s a ≡ false) ⊎ ((is_pl2_present s a ≡ false) ⊎ (is_pl1_present s a ≡ false))
    → mapping s a ≡ none
unfolding mapping
no_table a s h = ground arith

module _ (a phys permissions : ℕ) (s : Space) (allowed : is_allowed a permissions ≡ true) where
  -- The end of `map_page`, from tables that map what `s` maps.
  fill_entry-Maps :
      (s' : Space)
      → SameMapping s s'
      → HasTables a s'
      → Maps a phys permissions s (fill_entry a phys permissions s')
  unfolding fill_entry
  fill_entry-Maps s' same has = elim (Bool-cases (is_memory_present s' a)) [
    | inl here ↦ rw here (
        taken
          (λ (e : mapping s a ≡ none).
            let there : mapping s' a ≡ some (entry_at s' a) =
              mapping-HasTables a s' has ∙ rw here in
            ground (arith, there, same a, e))
          same)
    | inr free ↦
        let absent : mapping s a ≡ none = sym (same a) ∙ mapping-HasTables a s' has ∙ rw free in
        rw free (
          mapped allowed absent (λ b.
            mapping-set_entry a (page_entry phys permissions) s' b has
            ∙ rw (present_or (bit_or (bit_and phys address_mask) permissions), same b)))
  ]

  level_one :
      (s' : Space)
      → SameMapping s s'
      → is_pl3_present s' a ≡ true
      → is_pl2_present s' a ≡ true
      → Maps a phys permissions s (on_ok (need_pl1 a s') (fill_entry a phys permissions))
  level_one s' same above3 above2 = elim (need_pl1_cases a s') [
    | inl (s1, e) ↦
        let same1 : SameMapping s s1 = λ b.
          subst (λ (r : Status × Space). mapping r.1 b ≡ mapping s' b) e
            (need_pl1-SameMapping a s' b)
          ∙ same b in
        let has : HasTables a s1 =
          subst (λ (r : Status × Space). r.0 ≡ Types.ok → HasTables a r.1) e
            (need_pl1-HasTables a s' above3 above2) refl in
        rw e (fill_entry-Maps s1 same1 has)
    | inr (e, out, missing) ↦
        rw e (exhausted (sym (same a) ∙ no_table a s' (inr (inr missing))) out same)
  ]

  level_two :
      (s' : Space)
      → SameMapping s s'
      → is_pl3_present s' a ≡ true
      → Maps a phys permissions s
          (on_ok (need_pl2 a s') λ s2. on_ok (need_pl1 a s2) (fill_entry a phys permissions))
  level_two s' same above = elim (need_pl2_cases a s') [
    | inl (s2, e) ↦
        let same2 : SameMapping s s2 = λ b.
          subst (λ (r : Status × Space). mapping r.1 b ≡ mapping s' b) e
            (need_pl2-SameMapping a s' b)
          ∙ same b in
        let has : (is_pl3_present s2 a ≡ true) × (is_pl2_present s2 a ≡ true) =
          subst
            (λ (r : Status × Space).
              r.0 ≡ Types.ok → (is_pl3_present r.1 a ≡ true) × (is_pl2_present r.1 a ≡ true))
            e (need_pl2-present a s' above) refl in
        rw e (level_one s2 same2 has.0 has.1)
    | inr (e, out, missing) ↦
        rw e (exhausted (sym (same a) ∙ no_table a s' (inr (inl missing))) out same)
  ]

  level_three : Maps a phys permissions s (
      on_ok
        (need_pl3 a s)
        λ s3. on_ok (need_pl2 a s3) λ s2. on_ok (need_pl1 a s2) (fill_entry a phys permissions))
  level_three = elim (need_pl3_cases a s) [
    | inl (s3, e) ↦
        let same3 : SameMapping s s3 = λ b.
          subst (λ (r : Status × Space). mapping r.1 b ≡ mapping s b) e
            (need_pl3-SameMapping a s b) in
        let above : is_pl3_present s3 a ≡ true =
          subst (λ (r : Status × Space). r.0 ≡ Types.ok → is_pl3_present r.1 a ≡ true) e
            (need_pl3-present a s) refl in
        rw e (level_two s3 same3 above)
    | inr (e, out, missing) ↦ rw e (exhausted (no_table a s (inl missing)) out (λ b. refl))
  ]

-- On the tables of `Space`, `map_page` refines its specification: with `Ok` the address was not mapped, and its page, and no
-- other, is mapped to the page entry of `phys` afterwards; with `Error_Permissions` nothing has been
-- done; with `Error_Present` the address was mapped and with `Error_No_Memory` it was not and
-- there are no pages left, and in both cases every address is mapped as before.
pub map_page-Maps :
    (a phys permissions : ℕ) (s : Space) → Maps a phys permissions s (map_page a phys permissions s)
unfolding map_page
map_page-Maps a phys permissions s = elim (Bool-cases (is_allowed a permissions)) [
  | inl allowed ↦ rw allowed (level_three a phys permissions s allowed)
  | inr refused ↦ rw refused (forbidden refused)
]

-- What an `Ok` says.
module _ (a phys permissions : ℕ) (s : Space) where
  Maps-Ok :
      (r : Status × Space)
      → Maps a phys permissions s r
      → r.0 ≡ Types.ok
      → (mapping s a ≡ none)
        × ((b : ℕ)
            → mapping r.1 b
              ≡ (if same_page a b then some (page_entry phys permissions) else mapping s b))
  Maps-Ok (status, s') (mapped allowed absent new) e = (absent, new)
  Maps-Ok (status, s') (forbidden refused) e = ground arith
  Maps-Ok (status, s') (taken there same) e = ground arith
  Maps-Ok (status, s') (exhausted absent out same) e = ground arith

  pub map_page-Ok :
      (map_page a phys permissions s).0 ≡ Types.ok
      → (mapping s a ≡ none)
        × ((b : ℕ)
            → mapping (map_page a phys permissions s).1 b
              ≡ (if same_page a b then some (page_entry phys permissions) else mapping s b))
  map_page-Ok = Maps-Ok (map_page a phys permissions s) (map_page-Maps a phys permissions s)
