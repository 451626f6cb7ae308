-- ===== src/Bitmap.antt =====
-- include/truth/bitmap.h and kernel/core/bitmap.c: bitmaps of entries. The array `map` is a function of
-- the index; its words have 64 bits.
pub mod Index
use kernel_of_truth.Base.{
  ℕ, zero, suc, ◌+◌, ◌-◌, ◌*◌, ◌/◌, ◌%◌, ◌^◌, ◌==◌, Bool, true, false, not, if◌then◌else◌, ltb, leb,
  bit_and, bit_or, Option, none, some, Run, ok, ◌>>=◌, ◌>>◌, assert,
}
use kernel_of_truth.Types
use kernel_of_truth.Types.{Status, add64, sub64}

-- `struct bitmap`
pub record Bitmap : Type 0 where
  pub entry_count : ℕ
  pub last_free : ℕ
  pub map : ℕ → ℕ

-- The macros of the file: `sizeof(unsigned long)` is 8, and `1 << b` is an `int`.
abbrev pub bitmap_index : ℕ → ℕ
bitmap_index x = x / 8

abbrev pub bitmap_bit : ℕ → ℕ
bitmap_bit x = 2 ^ (x % 8)

abbrev pub all_ones : ℕ
all_ones = 2 ^ 64 - 1

-- `1 << b` for a variable `b`: the processor takes `b` modulo 32, and the sign is extended.
abbrev pub int_bit : ℕ → ℕ
int_bit b = if b % 32 == 31 then 2 ^ 64 - 2 ^ 31 else 2 ^ (b % 32)

-- The loop of `log2` on fuel.
unfoldable pub log2_loop : ℕ → ℕ → ℕ → ℕ
log2_loop zero item i = i
log2_loop (suc fuel) item i =
    let rest = log2_loop fuel (item / 2) (i + 1) in if item / 2 == 0 then i else rest

-- `log2`; a word of 64 bits is 0 after 64 shifts.
unfoldable pub log2 : ℕ → ℕ
log2 item = log2_loop 64 item 0

abbrev pub set_word : (ℕ → ℕ) → ℕ → ℕ → ℕ → ℕ
set_word map i word x = if x == i then word else map x

-- The first word from `i` on, of `k`, that is not all ones.
unfoldable pub find_word : (ℕ → ℕ) → ℕ → ℕ → Option ℕ
find_word map zero i = none
find_word map (suc k) i =
    let rest = find_word map k (i + 1) in if map i == all_ones then rest else some i

-- The entry that `bitmap_get_index` reports for a word, and the bitmap.
unfoldable pub claim : Bitmap → ℕ → Status × Bitmap × ℕ
claim b i =
    let entry_bit = log2 (b.map i) in
    (
      Types.ok,
      record b { map = set_word b.map i (bit_or (b.map i) (int_bit entry_bit)) },
      add64 ((i * 256) % 2 ^ 64) entry_bit,
    )

-- What a search of words comes to: an entry, or what follows.
abbrev pub claim_or : Bitmap → Status × Bitmap × ℕ → Option ℕ → Status × Bitmap × ℕ
claim_or b otherwise none = otherwise
claim_or b otherwise (some i) = claim b i

-- `bitmap_get_index`: its two loops one after the other; the entry is not set with Error_Full.
unfoldable pub bitmap_get_index : Bitmap → Status × Bitmap × ℕ
bitmap_get_index b =
    let first = bitmap_index b.last_free in
    let before = claim_or b (Types.full, b, 0) (find_word b.map first 0) in
    claim_or b before (find_word b.map (bitmap_index b.entry_count - first) first)

-- `bitmap_is_set`
unfoldable pub bitmap_is_set : Bitmap → ℕ → Run Bool
bitmap_is_set b entry = do
  assert (ltb b.entry_count entry)
  ok (not (bit_and (b.map (bitmap_index entry)) (all_ones - bitmap_bit entry) == 0))

-- `bitmap_set`
unfoldable pub bitmap_set : Bitmap → ℕ → Run Bitmap
bitmap_set b entry = do
  assert (ltb b.entry_count entry)
  let i = bitmap_index entry
  ok (record b { map = set_word b.map i (bit_or (b.map i) (bitmap_bit entry)) })

-- `bitmap_clear`
unfoldable pub bitmap_clear : Bitmap → ℕ → Run Bitmap
bitmap_clear b entry = do
  assert (ltb b.entry_count entry)
  let i = bitmap_index entry
  ok (record b {
    last_free = entry;
    map = set_word b.map i (bit_and (b.map i) (all_ones - bitmap_bit entry));
  })

-- The loop of `bitmap_set_range`, with `k` rounds left.
unfoldable pub fill_words : ℕ → ℕ → (ℕ → ℕ) → ℕ → ℕ
fill_words zero i map = map
fill_words (suc k) i map = fill_words k (i + 1) (set_word map i all_ones)

-- `bitmap_set_range`; the bound of its loop is computed in 64 bits.
unfoldable pub bitmap_set_range : Bitmap → ℕ → ℕ → Run Bitmap
bitmap_set_range b start length = do
  assert (ltb b.entry_count start)
  assert (ltb b.entry_count (add64 start length))
  let last = bitmap_index (add64 start length)
  let low = bit_or (bitmap_bit start - 1) (bitmap_bit start)
  let lower = set_word b.map (bitmap_index start) low
  let upper = set_word lower last (all_ones - (bitmap_bit (add64 start length) - 1))
  ok (record b {
    map = fill_words (sub64 last 1 - (bitmap_index start + 1)) (bitmap_index start + 1) upper;
  })

-- A word of the map after `memset` of so many bytes of the map to 0.
abbrev pub wiped : ℕ → (ℕ → ℕ) → ℕ → ℕ
wiped bytes old i =
    let rest = 2 ^ (8 * (bytes - 8 * i)) in
    if leb (8 * i + 8) bytes then 0 else (old i / rest) * rest

-- `bitmap_static_init`
unfoldable pub bitmap_static_init : ℕ → Bitmap → Bitmap
bitmap_static_init entry_count b = record {
  entry_count = entry_count;
  last_free = 0;
  map = wiped (entry_count / 8) b.map;
}

-- `bitmap_init`, with whether `kmalloc` has room for the block, whose words were `old`.
unfoldable pub bitmap_init : ℕ → Bool → (ℕ → ℕ) → Option Bitmap
bitmap_init entry_count granted old =
    let fresh : Bitmap = record {
      entry_count = entry_count;
      last_free = 0;
      map = wiped (entry_count / 8) old;
    } in
    if granted then some fresh else none
