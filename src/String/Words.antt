-- ===== src/String/Words.antt =====
-- Words of several bytes in memory, low byte first, as the processor loads and stores them.
use kernel_of_truth.Base.{
  ℕ, zero, suc, ◌+◌, ◌-◌, ◌*◌, ◌/◌, ◌%◌, ◌^◌, ◌≤◌, ◌<◌, ◌≡◌, ◌⊎◌, refl, true, false, ap, ◌∙◌,
  if◌then◌else◌, arith, ℕ_discrete,
}
use kernel_of_truth.String.{Mem, store}
use kernel_of_truth.String.Memory.{within}

-- A `uint16_t` read from memory.
unfoldable pub read16 : Mem → ℕ → ℕ
read16 m a = m a + 256 * m (a + 1)

-- A `uint32_t` read from memory.
unfoldable pub read32 : Mem → ℕ → ℕ
read32 m a = m a + 256 * (m (a + 1) + 256 * (m (a + 2) + 256 * m (a + 3)))

-- A `uint64_t` read from memory, low byte first.
unfoldable pub read64 : Mem → ℕ → ℕ
read64 m a =
    m a
    + 256
      * (m (a + 1)
          + 256
            * (m (a + 2)
                + 256
                  * (m (a + 3)
                      + 256
                        * (m (a + 4) + 256 * (m (a + 5) + 256 * (m (a + 6) + 256 * m (a + 7)))))))

-- Stores of the bytes `byte i`, `byte (i + 1)`, … from `a + i` on, `k` of them.
unfoldable pub store_bytes : (ℕ → ℕ) → ℕ → ℕ → ℕ → Mem → Mem
store_bytes byte a zero i m = m
store_bytes byte a (suc k) i m = store_bytes byte a k (i + 1) (store m (a + i) (byte i))

-- Byte `i` of a word in memory.
abbrev pub word_byte : ℕ → ℕ → ℕ
word_byte v i = (v / 256 ^ i) % 256

-- A store of 64 bits, low byte first.
unfoldable pub store64 : Mem → ℕ → ℕ → Mem
unfolding store_bytes
store64 m a v = store_bytes (word_byte v) a 8 0 m

pub store_bytes-at :
    (byte : ℕ → ℕ) (a k i : ℕ) (m : Mem) (x : ℕ)
    → store_bytes byte a k i m x ≡ (if within (a + i) k x then byte (x - a) else m x)
unfolding store_bytes store
store_bytes-at byte a zero i m x = ground arith
store_bytes-at byte a (suc k) i m x =
    let rest = store_bytes-at byte a k (i + 1) (store m (a + i) (byte i)) x in
    elim (ℕ_discrete x (a + i)) [
      | yes e ↦ let q : x - a ≡ i = omega arith in let b = ap byte q in ground arith
      | no n ↦ ground arith
    ]

pub store64-at :
    (m : Mem) (a v x : ℕ) → store64 m a v x ≡ (if within a 8 x then word_byte v (x - a) else m x)
unfolding store64
store64-at m a v x =
    let q : a + 0 ≡ a = omega arith in
    store_bytes-at (word_byte v) a 8 0 m x
    ∙ ap (λ b. if within b 8 x then word_byte v (x - a) else m x) q

-- Byte `j` of a word that `store64` has stored.
pub store64-byte : (m : Mem) (a v j : ℕ) → j < 8 → store64 m a v (a + j) ≡ word_byte v j
store64-byte m a v j h =
    let inside : within a 8 (a + j) ≡ true = ground arith in
    let place : a + j - a ≡ j = omega arith in store64-at m a v (a + j) ∙ rw (inside, place) refl

-- What `store64` has stored `read64` reads.
pub read64-store64 : (m : Mem) (a v : ℕ) → v < 2 ^ 64 → read64 (store64 m a v) a ≡ v
unfolding read64
read64-store64 m a v small =
    let zeroth : a + 0 ≡ a = omega arith in
    let b = store64-byte m a v in
    let b0 = rw zeroth at (b 0 (omega arith)) in
    omega (
      arith,
      b0,
      b 1 (omega arith),
      b 2 (omega arith),
      b 3 (omega arith),
      b 4 (omega arith),
      b 5 (omega arith),
      b 6 (omega arith),
      b 7 (omega arith),
    )

-- `store64` leaves what is not in the word.
pub store64-outside : (m : Mem) (a v x : ℕ) → (x < a) ⊎ (a + 8 ≤ x) → store64 m a v x ≡ m x
store64-outside m a v x out =
    let outside : within a 8 x ≡ false = ground arith in store64-at m a v x ∙ rw outside refl

pub read16-same :
    (m m' : Mem) (a : ℕ) → ((x : ℕ) → a ≤ x → x < a + 2 → m' x ≡ m x) → read16 m' a ≡ read16 m a
unfolding read16
read16-same m m' a h =
    omega (arith, h a (omega arith) (omega arith), h (a + 1) (omega arith) (omega arith))

-- Words are read from their bytes.
pub read64-same :
    (m m' : Mem) (a : ℕ) → ((x : ℕ) → a ≤ x → x < a + 8 → m' x ≡ m x) → read64 m' a ≡ read64 m a
unfolding read64
read64-same m m' a h = omega (
  arith,
  h a (omega arith) (omega arith),
  h (a + 1) (omega arith) (omega arith),
  h (a + 2) (omega arith) (omega arith),
  h (a + 3) (omega arith) (omega arith),
  h (a + 4) (omega arith) (omega arith),
  h (a + 5) (omega arith) (omega arith),
  h (a + 6) (omega arith) (omega arith),
  h (a + 7) (omega arith) (omega arith),
)
