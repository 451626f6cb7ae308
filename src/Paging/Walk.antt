-- ===== src/Paging/Walk.antt =====
-- What the tables say of an address: its entry, if all four levels are present. Allocating a table
-- changes this for no address.
use kernel_of_truth.Base.{
  ℕ, ◌≡◌, refl, ◌==◌, ◌&&◌, Bool, true, false, if◌then◌else◌, Bool-cases, inl, inr, Option, none,
  some, List, [], ◌∷◌, bit_and, bit_or, bit_and_mask, bit_or-mod, arith,
}
use kernel_of_truth.Types
use kernel_of_truth.Types.{Status}
use kernel_of_truth.Paging.{
  Space, with_pl3, with_pl2, with_pl1, with_page, pl4_index, pl3_index, pl2_index, pl1_index,
  is_present, is_pl3_present, is_pl2_present, is_pl1_present, is_memory_present, entry_at,
  set_entry, need_pl3, need_pl2, need_pl1, is_mapped,
}

-- The mapping that the tables stand for.
unfoldable pub mapping : Space → ℕ → Option ℕ
unfolding is_mapped
mapping s a = if is_mapped s a then some (entry_at s a) else none

-- Two addresses of one page have the same indices.
abbrev pub same_page : ℕ → ℕ → Bool
same_page a b =
    pl4_index b == pl4_index a
    && pl3_index b == pl3_index a
    && pl2_index b == pl2_index a
    && pl1_index b == pl1_index a

abbrev pub SameMapping : Space → Space → Type 0
SameMapping s s' = (b : ℕ) → mapping s' b ≡ mapping s b

-- Entering a table where none was.
with_pl3-SameMapping :
    (a page : ℕ) (pages : List ℕ) (s : Space)
    → is_pl3_present s a ≡ false
    → SameMapping s (with_pl3 a page pages s)
unfolding with_pl3 mapping
with_pl3-SameMapping a page pages s h b = ground arith

with_pl2-SameMapping :
    (a page : ℕ) (pages : List ℕ) (s : Space)
    → is_pl2_present s a ≡ false
    → SameMapping s (with_pl2 a page pages s)
unfolding with_pl2 mapping
with_pl2-SameMapping a page pages s h b = ground arith

with_pl1-SameMapping :
    (a page : ℕ) (pages : List ℕ) (s : Space)
    → is_pl1_present s a ≡ false
    → SameMapping s (with_pl1 a page pages s)
unfolding with_pl1 mapping
with_pl1-SameMapping a page pages s h b = ground arith

module _ (s : Space) (enter : ℕ → List ℕ → Space) where
  -- A step that allocates where a table is missing, by what it does to the mapping.
  with_page-SameMapping :
      (supply : List ℕ)
      → ((page : ℕ) (pages : List ℕ) → SameMapping s (enter page pages))
      → SameMapping s (with_page supply enter s).1
  unfolding with_page
  with_page-SameMapping [] h b = refl
  with_page-SameMapping (page ∷ pages) h b = h page pages b

pub need_pl3-SameMapping : (a : ℕ) (s : Space) → SameMapping s (need_pl3 a s).1
unfolding need_pl3
need_pl3-SameMapping a s b = elim (Bool-cases (is_pl3_present s a)) [
  | inl here ↦ rw here
  | inr no_table ↦ rw no_table (
      with_page-SameMapping s _ s.supply
        (λ page pages. with_pl3-SameMapping a page pages s no_table) b)
]

pub need_pl2-SameMapping : (a : ℕ) (s : Space) → SameMapping s (need_pl2 a s).1
unfolding need_pl2
need_pl2-SameMapping a s b = elim (Bool-cases (is_pl2_present s a)) [
  | inl here ↦ rw here
  | inr no_table ↦ rw no_table (
      with_page-SameMapping s _ s.supply
        (λ page pages. with_pl2-SameMapping a page pages s no_table) b)
]

pub need_pl1-SameMapping : (a : ℕ) (s : Space) → SameMapping s (need_pl1 a s).1
unfolding need_pl1
need_pl1-SameMapping a s b = elim (Bool-cases (is_pl1_present s a)) [
  | inl here ↦ rw here
  | inr no_table ↦ rw no_table (
      with_page-SameMapping s _ s.supply
        (λ page pages. with_pl1-SameMapping a page pages s no_table) b)
]

pub present_or : (entry : ℕ) → is_present (bit_or entry 1) ≡ true
present_or entry =
    let e : bit_and (bit_or entry 1) 1 ≡ 1 =
      omega (arith, bit_and_mask 1 (bit_or entry 1), bit_or-mod entry 1) in
    rw e

-- The tables above an entry of the last level.
abbrev pub HasTables : ℕ → Space → Type 0
HasTables a s =
    (is_pl3_present s a ≡ true) × (is_pl2_present s a ≡ true) × (is_pl1_present s a ≡ true)

-- What a step that has not failed establishes: the table was there, or it is now.
step-present :
    (P : Space → Type 0) (here : Bool) (supply : List ℕ) (enter : ℕ → List ℕ → Space) (s : Space)
    → (here ≡ true → P s)
    → ((page : ℕ) (pages : List ℕ) → P (enter page pages))
    → (if here then (Types.ok, s) else with_page supply enter s).0 ≡ Types.ok
    → P (if here then (Types.ok, s) else with_page supply enter s).1
unfolding with_page
step-present P true supply enter s h h' e = h refl
step-present P false [] enter s h h' e = ground arith
step-present P false (page ∷ pages) enter s h h' e = h' page pages

pub need_pl3-present :
    (a : ℕ) (s : Space) → (need_pl3 a s).0 ≡ Types.ok → is_pl3_present (need_pl3 a s).1 a ≡ true
unfolding need_pl3 with_pl3
need_pl3-present a s =
    step-present (λ s'. is_pl3_present s' a ≡ true) (is_pl3_present s a) s.supply _ s (λ here. here)
      (λ page pages. ground (arith, present_or (bit_or (bit_or page 2) 4)))

pub need_pl2-present :
    (a : ℕ) (s : Space)
    → is_pl3_present s a ≡ true
    → (need_pl2 a s).0 ≡ Types.ok
    → (is_pl3_present (need_pl2 a s).1 a ≡ true) × (is_pl2_present (need_pl2 a s).1 a ≡ true)
unfolding need_pl2 with_pl2
need_pl2-present a s above =
    step-present (λ s'. (is_pl3_present s' a ≡ true) × (is_pl2_present s' a ≡ true))
      (is_pl2_present s a) s.supply _ s (λ here. (above, here))
      (λ page pages. (above, ground (arith, present_or (bit_or (bit_or page 2) 4))))

pub need_pl1-HasTables :
    (a : ℕ) (s : Space)
    → is_pl3_present s a ≡ true
    → is_pl2_present s a ≡ true
    → (need_pl1 a s).0 ≡ Types.ok
    → HasTables a (need_pl1 a s).1
unfolding need_pl1 with_pl1
need_pl1-HasTables a s above3 above2 =
    step-present (HasTables a) (is_pl1_present s a) s.supply _ s (λ here. (above3, above2, here))
      (λ page pages. (above3, above2, ground (arith, present_or (bit_or (bit_or page 2) 4))))

-- A store to the entry of a page changes what is mapped there, and at no other page.
pub mapping-set_entry :
    (a entry : ℕ) (s : Space) (b : ℕ)
    → HasTables a s
    → mapping (set_entry a entry s) b
      ≡ (if same_page a b then (if is_present entry then some entry else none) else mapping s b)
unfolding mapping set_entry
mapping-set_entry a entry s b h = ground arith

-- `map_page` finds the page mapped.
pub mapping-HasTables :
    (a : ℕ) (s : Space)
    → HasTables a s
    → mapping s a ≡ (if is_memory_present s a then some (entry_at s a) else none)
unfolding mapping is_mapped
mapping-HasTables a s h = rw (h.0, h.1, h.2)

pub is_mapped-HasTables : (a : ℕ) (s : Space) → is_mapped s a ≡ true → HasTables a s
unfolding is_mapped
is_mapped-HasTables a s h = (ground arith, ground arith, ground arith)

-- The addresses of one page are mapped alike.
pub mapping-same_page : (a b : ℕ) (s : Space) → same_page a b ≡ true → mapping s b ≡ mapping s a
unfolding mapping
mapping-same_page a b s h = ground arith
