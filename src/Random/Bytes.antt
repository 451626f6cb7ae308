-- ===== src/Random/Bytes.antt =====
-- What `random_bytes` leaves in memory.
use kernel_of_truth.Base.{
  ℕ, zero, suc, ◌+◌, ◌-◌, ◌*◌, ◌/◌, ◌%◌, ◌<◌, ◌≡◌, refl, ◌==◌, ltb, true, false, if◌then◌else◌,
  Bool-cases, inl, inr, arith,
}
use kernel_of_truth.String.{Mem}
use kernel_of_truth.String.Words.{word_byte, store64, store_bytes-at, store64-at}
use kernel_of_truth.String.Memory.{within}
use kernel_of_truth.Random.{word_loop, left_over_byte, random_bytes}

word_loop-at :
    (draws : ℕ → ℕ) (buf k i : ℕ) (m : Mem) (x : ℕ)
    → word_loop draws buf k i m x ≡ (
        if within (buf + 8 * i) (8 * k) x
        then word_byte (draws ((x - buf) / 8)) ((x - buf) % 8)
        else m x)
unfolding word_loop
word_loop-at draws buf zero i m x = ground arith
word_loop-at draws buf (suc k) i m x =
    let rest = word_loop-at draws buf k (i + 1) (store64 m (buf + 8 * i) (draws i)) x in
    let here = store64-at m (buf + 8 * i) (draws i) x in
    elim (Bool-cases (within (buf + 8 * (i + 1)) (8 * k) x)) [
      | inl behind ↦
          let whole : within (buf + 8 * i) (8 * suc k) x ≡ true = ground arith in
          rw (rest, behind, whole) refl
      | inr not_behind ↦ elim (Bool-cases (within (buf + 8 * i) 8 x)) [
        | inl this ↦
            let whole : within (buf + 8 * i) (8 * suc k) x ≡ true = ground arith in
            let word : (x - buf) / 8 ≡ i = ground arith in
            let place : (x - buf) % 8 ≡ x - (buf + 8 * i) = ground arith in
            rw (rest, not_behind, here, this, whole, word, place) refl
        | inr not_this ↦
            let whole : within (buf + 8 * i) (8 * suc k) x ≡ false = ground arith in
            rw (rest, not_behind, here, not_this, whole) refl
      ]
    ]

-- Byte `j` of a buffer of `size` bytes.
pub random_byte : (ℕ → ℕ) → ℕ → ℕ → ℕ
random_byte draws size j =
    if ltb j (size - size % 8)
    then word_byte (draws (j / 8)) (j % 8)
    else left_over_byte (draws (size / 8)) (j - (size - size % 8))

-- The words fill the part of the buffer that they cover.
words-at :
    (draws : ℕ → ℕ) (m : Mem) (buf size x : ℕ)
    → (within buf size x ≡ true → x < buf + (size - size % 8))
    → word_loop draws buf (size / 8) 0 m x
      ≡ (if within buf size x then random_byte draws size (x - buf) else m x)
unfolding random_byte
words-at draws m buf size x covered =
    let words = word_loop-at draws buf (size / 8) 0 m x in
    elim (Bool-cases (within buf size x)) [
      | inl e ↦
          let c = covered e in
          let w : within (buf + 8 * 0) (8 * (size / 8)) x ≡ true = ground arith in
          let lt : ltb (x - buf) (size - size % 8) ≡ true = ground arith in
          rw (words, w, e, lt) refl
      | inr e ↦
          let w : within (buf + 8 * 0) (8 * (size / 8)) x ≡ false = ground arith in
          rw (words, w, e) refl
    ]

-- `random_bytes` writes the bytes of the words drawn, one word for 8 bytes, then those of one more
-- word, shifted by one more bit for each byte, if the size is not a multiple of 8; it leaves every
-- other byte alone.
pub random_bytes-filled :
    (draws : ℕ → ℕ) (m : Mem) (buf size x : ℕ)
    → random_bytes draws m buf size x
      ≡ (if within buf size x then random_byte draws size (x - buf) else m x)
unfolding random_bytes random_byte
random_bytes-filled draws m buf size x =
    let r = size % 8 in
    let tail =
      store_bytes-at (left_over_byte (draws (size / 8))) (buf + size - r) r 0
        (word_loop draws buf (size / 8) 0 m) x in
    elim (Bool-cases (size % 8 == 0)) [
      | inl z ↦ rw z (words-at draws m buf size x (λ e. ground arith))
      | inr n ↦ elim (Bool-cases (within (buf + size - r + 0) r x)) [
        | inl t ↦
            let e : within buf size x ≡ true = ground arith in
            let ge : ltb (x - buf) (size - size % 8) ≡ false = ground arith in
            let place : x - (buf + size - r) ≡ x - buf - (size - size % 8) = ground arith in
            rw (n, tail, t, e, ge, place) refl
        | inr t ↦ rw (n, tail, t) (words-at draws m buf size x (λ e. ground arith))
      ]
    ]
