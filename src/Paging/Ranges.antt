-- ===== src/Paging/Ranges.antt =====
-- `map_range` and `unmap_range`: all pages of a range are mapped, or none.
use kernel_of_truth.Base.{
  ℕ, zero, suc, ◌≡◌, refl, sym, ◌∙◌, ap, ◌||◌, Bool, true, false, if◌then◌else◌, Bool-cases, inl,
  inr, Option, none, fun_ext, some, arith,
}
use kernel_of_truth.Types
use kernel_of_truth.Types.{Status, add64, page_small}
use kernel_of_truth.Paging.{
  Space, page_entry, map_page, unmap_page, unmap_range, count_page, map_loop, map_range,
}
use kernel_of_truth.Paging.Walk.{mapping, mapping-same_page, same_page, SameMapping}
use kernel_of_truth.Paging.Mapping.{Maps, mapped, forbidden, taken, exhausted, map_page-Maps}
use kernel_of_truth.Paging.Translate.{unmap_page-unmaps}

-- The address is in one of the `k` pages from `a` on.
unfoldable pub in_range : ℕ → ℕ → ℕ → Bool
in_range zero a b = false
in_range (suc k) a b = same_page a b || in_range k (add64 a page_small) b

-- A mapping in which the pages from `a` on have been entered, one after the other.
unfoldable pub range_mapping : ℕ → ℕ → ℕ → ℕ → (ℕ → Option ℕ) → ℕ → Option ℕ
range_mapping zero a phys attributes m = m
range_mapping (suc k) a phys attributes m =
    range_mapping k (add64 a page_small) (add64 phys page_small) attributes
      λ b. if same_page a b then some (page_entry phys attributes) else m b

-- `unmap_range` unmaps the pages of the range, and no other.
pub unmap_range-unmaps :
    (k a : ℕ) (free_physical : Bool) (s : Space) (b : ℕ)
    → mapping (unmap_range k a free_physical s) b ≡ (if in_range k a b then none else mapping s b)
unfolding unmap_range in_range
unmap_range-unmaps zero a free_physical s b = refl
unmap_range-unmaps (suc k) a free_physical s b =
    unmap_range-unmaps k (add64 a page_small) free_physical (unmap_page a free_physical s) b
    ∙ ground (arith, unmap_page-unmaps a free_physical s b)

-- What `map_loop` has done when it ends: the pages that it counts were not mapped, every other
-- address is mapped as before, and at the end of the loop the mapping is that of the range.
LoopDoes : ℕ → ℕ → ℕ → ℕ → Space → Bool × ℕ × Space → Type 0
LoopDoes k a phys attributes s (done, n, s') =
    ((b : ℕ) → mapping s b ≡ (if in_range n a b then none else mapping s' b))
    × (done ≡ true
        → (n ≡ k) × ((b : ℕ) → mapping s' b ≡ range_mapping k a phys attributes (mapping s) b))

module _ (k a phys attributes : ℕ) (s : Space) where
  -- One iteration, by what the page and the rest of the loop have done.
  step-LoopDoes :
      (r : Status × Space) (rest : Bool × ℕ × Space)
      → Maps a phys attributes s r
      → LoopDoes k (add64 a page_small) (add64 phys page_small) attributes r.1 rest
      → LoopDoes (suc k) a phys attributes s (count_page r rest)
  unfolding LoopDoes in_range range_mapping
  step-LoopDoes (status, s1) (done, n, s2) (mapped allowed fresh new) (kept, all) =
      let before : (b : ℕ) → mapping s b ≡ (if in_range (suc n) a b then none else mapping s2 b) =
        λ b. elim (Bool-cases (same_page a b)) [
          | inl same ↦ rw same (mapping-same_page a b s same ∙ fresh)
          | inr other ↦ rw other (sym (new b ∙ rw other) ∙ kept b)
        ] in
      let entered : (b : ℕ)
          → done ≡ true
          → mapping s2 b ≡ range_mapping (suc k) a phys attributes (mapping s) b =
        λ b e.
          (all e).1 b
          ∙ ap
              (λ (m : ℕ → Option ℕ).
                range_mapping k (add64 a page_small) (add64 phys page_small) attributes m b)
              (fun_ext new) in
      (before, λ e. (ap suc (all e).0, λ b. entered b e))
  step-LoopDoes (status, s1) rest (forbidden refused) does = (λ b. refl, λ e. ground arith)
  step-LoopDoes (status, s1) rest (taken there same) does = (λ b. sym (same b), λ e. ground arith)
  step-LoopDoes (status, s1) rest (exhausted absent out same) does =
      (λ b. sym (same b), λ e. ground arith)

map_loop-LoopDoes :
    (k a phys attributes : ℕ) (s : Space)
    → LoopDoes k a phys attributes s (map_loop k a phys attributes s)
unfolding map_loop LoopDoes in_range range_mapping
map_loop-LoopDoes zero a phys attributes s = (λ b. refl, λ e. (refl, λ b. refl))
map_loop-LoopDoes (suc k) a phys attributes s =
    let r = map_page a phys attributes s in
    step-LoopDoes k a phys attributes s r
      (map_loop k (add64 a page_small) (add64 phys page_small) attributes r.1)
      (map_page-Maps a phys attributes s)
      (map_loop-LoopDoes k (add64 a page_small) (add64 phys page_small) attributes r.1)

-- What `map_range` may do, by the status that it returns.
pub data MapsRange (k a phys attributes : ℕ) (s : Space) : Status × Space → Type 0 where
  whole :
      {s' : Space}
      → ((b : ℕ) → mapping s b ≡ (if in_range k a b then none else mapping s b))
      → ((b : ℕ) → mapping s' b ≡ range_mapping k a phys attributes (mapping s) b)
      → MapsRange k a phys attributes s (Types.ok, s')
  rolled_back :
      {s' : Space} → SameMapping s s' → MapsRange k a phys attributes s (Types.present, s')

-- The end of `map_range`.
outcome :
    (k a phys attributes : ℕ) (s : Space) (r : Bool × ℕ × Space)
    → LoopDoes k a phys attributes s r
    → MapsRange k a phys attributes s
        (if r.0 then (Types.ok, r.2) else (Types.present, unmap_range r.1 a false r.2))
unfolding LoopDoes
outcome k a phys attributes s (true, n, s') (kept, all) =
    whole
      (λ b. elim (Bool-cases (in_range k a b)) [
        | inl here ↦ rw here (kept b ∙ rw ((all refl).0, here))
        | inr other ↦ rw other
      ])
      (all refl).1
outcome k a phys attributes s (false, n, s') (kept, all) =
    rolled_back λ b. unmap_range-unmaps n a false s' b ∙ sym (kept b)

-- On the tables of `Space`, `map_range` maps all pages of the range or none: with `Ok` no page of it was mapped and each has
-- been entered in turn, and with the only other status, `Error_Present`, every address is mapped as
-- before, whichever page has failed and for whatever reason.
pub map_range-MapsRange :
    (a phys k attributes : ℕ) (s : Space)
    → MapsRange k a phys attributes s (map_range a phys k attributes s)
unfolding map_range
map_range-MapsRange a phys k attributes s =
    outcome k a phys attributes s (map_loop k a phys attributes s)
      (map_loop-LoopDoes k a phys attributes s)
