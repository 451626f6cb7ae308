-- ===== src/Symbols.antt =====
-- kernel/core/symbols.c: the table of the kernel's symbols, a hash table of the names. `Key` says how
-- names are hashed and compared; `granted` is whether `kmalloc` has room when the table grows.
pub mod Enter
use kernel_of_truth.Base.{
  ℕ, ◌+◌, Bool, true, false, Option, none, some, List, [], ◌∷◌, length, Run, ok, ◌>>=◌, ◌>>◌,
}
use kernel_of_truth.Types
use kernel_of_truth.Types.{Status}
use kernel_of_truth.Hashtable.{
  Key, Table, hashtable_init, hashtable_put, hashtable_get, hashtable_remove,
}

-- `struct symbol_embedded`
pub record SymbolEmbedded {ℓ} (K : Type ℓ) : Type ℓ where
  pub location : ℕ
  pub name : K

-- SYMBOL_FUDGE_FACTOR
abbrev pub symbol_fudge_factor : ℕ
symbol_fudge_factor = 128

module _ {ℓ} {K : Type ℓ} ⦃k : Key K⦄ where
  unfoldable pub symbol_remove : Table K → K → Bool → Run (Status × Table K)
  symbol_remove t symbol granted = hashtable_remove t symbol granted

  -- 0 for NULL
  unfoldable pub symbol_get : Table K → K → Run ℕ
  symbol_get t symbol = hashtable_get t symbol

  unfoldable pub symbol_put : Table K → K → ℕ → Bool → Run (Status × Table K)
  symbol_put t symbol location granted = hashtable_put t symbol location granted

  -- The loop of `symbol_init` that takes out the symbols entered so far, the last one first.
  unfoldable pub take_out : Bool → List (SymbolEmbedded K) → Table K → Run (Table K)
  take_out granted [] t = ok t
  take_out granted (s ∷ entered) t = do
    removed ← hashtable_remove t s.name granted
    take_out granted entered removed.1

  -- The loop of `symbol_init` over the symbols that are left.
  unfoldable pub enter_loop :
      Bool → List (SymbolEmbedded K) → List (SymbolEmbedded K) → Table K → Run (Status × Table K)
  enter_loop granted entered [] t = ok (Types.ok, t)
  enter_loop granted entered (s ∷ left) t = hashtable_put t s.name s.location granted >>= λ r.
      elim r.0 [
        | Types.ok ↦ enter_loop granted (s ∷ entered) left r.1
        | e ↦ take_out granted entered r.1 >>= λ t'. ok (e, t')
      ]

  -- The part of `symbol_init` behind the test for NULL.
  abbrev pub enter_all :
      Bool → List (SymbolEmbedded K) → Option (Table K) → Run (Status × Option (Table K))
  enter_all granted symbols none = ok (Types.no_memory, none)
  enter_all granted symbols (some t) = enter_loop granted [] symbols t >>= λ r. ok (r.0, some r.1)

  -- `symbol_init`, with the symbols between kernel_symbol_table_start and kernel_symbol_table_end.
  unfoldable pub symbol_init :
      List (SymbolEmbedded K) → Bool → Bool → Bool → Run (Status × Option (Table K))
  symbol_init symbols table_granted data_granted granted =
      enter_all granted symbols
        (hashtable_init (length symbols + symbol_fudge_factor) table_granted data_granted)
