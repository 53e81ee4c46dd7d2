-- ===== src/Replay/Bits.antt =====
-- What `set_bit`, `clear_bit` and `clear_word` do to every later `check_bit`.
use native.Mathlib.Decide.{ℕ_discrete}
use native.Mathlib.Nat.{pow-le-pow_right}
use pq_boringtun.Base.{ℕ, ◌%◌, ◌^◌, ◌<◌, bit_and, bit_or}
use pq_boringtun.Base.{◌≡◌, sym, ap, ◌∙◌, ◌≢◌, arith, length, get_or, set}
use pq_boringtun.Base.{◌==◌, length-set, get_or-set_self, get_or-set_ne}
use pq_boringtun.Base.Digits.{digit, digit-eq-shift, digit-lt-two, digit-bit_or, digit-bit_and}
use pq_boringtun.Base.Digits.{
  digit-zero, digit-pow_self, digit-pow_ne, digit-complement, bit_and-one,
}
use pq_boringtun.Replay.{
  Bitmap, n_words, n_bits, word_of, bit_of, not64, set_bit, clear_bit, clear_word, check_bit,
}

-- The digit that `check_bit` looks at.
abbrev pub bit_at : Bitmap → ℕ → ℕ
bit_at bitmap idx = digit (bit_of idx) (get_or bitmap (word_of idx) 0)

pub check_bit-eq-bit_at :
    (bitmap : Bitmap) (idx : ℕ) → check_bit bitmap idx ≡ (bit_at bitmap idx == 1)
unfolding check_bit
check_bit-eq-bit_at bitmap idx =
    ap (λ (t : ℕ). t == 1)
      (bit_and-one _ ∙ sym (digit-eq-shift (bit_of idx) (get_or bitmap (word_of idx) 0)))

-- Two counters share a slot exactly when their remainders by 1024 agree.
same_slot : (i j : ℕ) → word_of i ≡ word_of j → bit_of i ≡ bit_of j → i % n_bits ≡ j % n_bits
same_slot i j p q = omega arith

module _ (bitmap : Bitmap) (size : length bitmap ≡ n_words) (i j : ℕ) where
  -- A write to the word of `i` is read back at the word of `i`, and at no other.
  get_or-set_word :
      (v : ℕ) → word_of i ≡ word_of j → get_or (set bitmap (word_of i) v) (word_of j) 0 ≡ v
  get_or-set_word v e = rw (← e) (get_or-set_self bitmap (word_of i) v 0 (omega arith))

  pub bit_at-set_bit_same : i % n_bits ≡ j % n_bits → bit_at (set_bit bitmap i) j ≡ 1
  unfolding set_bit
  bit_at-set_bit_same e = omega (
    arith,
    ap (digit (bit_of j))
        (get_or-set_word (bit_or (get_or bitmap (word_of i) 0) (2 ^ bit_of i)) (omega arith)),
    digit-bit_or (bit_of j) (get_or bitmap (word_of i) 0) (2 ^ bit_of i),
    ap (λ (t : ℕ). digit (bit_of j) (2 ^ t)) {x = bit_of i} {y = bit_of j} (omega arith),
    digit-pow_self (bit_of j),
    digit-lt-two (bit_of j) (get_or bitmap (word_of i) 0),
  )

  pub bit_at-set_bit_other : i % n_bits ≢ j % n_bits → bit_at (set_bit bitmap i) j ≡ bit_at bitmap j
  unfolding set_bit
  bit_at-set_bit_other ne = elim (ℕ_discrete (word_of i) (word_of j)) [
    | no p ↦ ap (digit (bit_of j)) (get_or-set_ne bitmap (word_of i) (word_of j) _ 0 p)
    | yes e ↦ omega (
      arith,
      ap (digit (bit_of j))
          (get_or-set_word (bit_or (get_or bitmap (word_of i) 0) (2 ^ bit_of i)) e),
      digit-bit_or (bit_of j) (get_or bitmap (word_of i) 0) (2 ^ bit_of i),
      digit-pow_ne (bit_of j) (bit_of i) (λ q. ne (same_slot i j e (sym q))),
      ap (λ (t : ℕ). digit (bit_of j) (get_or bitmap t 0)) e,
    )
  ]

  pow_small : 2 ^ bit_of i < 2 ^ 64
  pow_small =
      omega (arith, pow-le-pow_right {n = 2} (omega arith) {i = bit_of i} {j = 63} (omega arith))

  pub bit_at-clear_bit_same : i % n_bits ≡ j % n_bits → bit_at (clear_bit bitmap i) j ≡ 0
  unfolding clear_bit
  bit_at-clear_bit_same e = omega (
    arith,
    ap (digit (bit_of j)) (
        get_or-set_word (bit_and (get_or bitmap (word_of i) 0) (not64 (2 ^ bit_of i)))
          (omega arith)),
    digit-bit_and (bit_of j) (get_or bitmap (word_of i) 0) (not64 (2 ^ bit_of i)),
    digit-complement 64 (bit_of j) (2 ^ bit_of i) (omega arith) pow_small,
    ap (λ (t : ℕ). digit (bit_of j) (2 ^ t)) {x = bit_of i} {y = bit_of j} (omega arith),
    digit-pow_self (bit_of j),
  )

  pub bit_at-clear_bit_other :
      i % n_bits ≢ j % n_bits → bit_at (clear_bit bitmap i) j ≡ bit_at bitmap j
  unfolding clear_bit
  bit_at-clear_bit_other ne = elim (ℕ_discrete (word_of i) (word_of j)) [
    | no p ↦ ap (digit (bit_of j)) (get_or-set_ne bitmap (word_of i) (word_of j) _ 0 p)
    | yes e ↦ omega (
      arith,
      ap (digit (bit_of j))
          (get_or-set_word (bit_and (get_or bitmap (word_of i) 0) (not64 (2 ^ bit_of i))) e),
      digit-bit_and (bit_of j) (get_or bitmap (word_of i) 0) (not64 (2 ^ bit_of i)),
      digit-complement 64 (bit_of j) (2 ^ bit_of i) (omega arith) pow_small,
      digit-pow_ne (bit_of j) (bit_of i) (λ q. ne (same_slot i j e (sym q))),
      ap (λ (t : ℕ). digit (bit_of j) (get_or bitmap t 0)) e,
      digit-lt-two (bit_of j) (get_or bitmap (word_of i) 0),
    )
  ]

  pub bit_at-clear_word_same : word_of i ≡ word_of j → bit_at (clear_word bitmap i) j ≡ 0
  unfolding clear_word
  bit_at-clear_word_same e = ap (digit (bit_of j)) (get_or-set_word 0 e) ∙ digit-zero (bit_of j)

  pub bit_at-clear_word_other :
      word_of i ≢ word_of j → bit_at (clear_word bitmap i) j ≡ bit_at bitmap j
  unfolding clear_word
  bit_at-clear_word_other ne =
      ap (digit (bit_of j)) (get_or-set_ne bitmap (word_of i) (word_of j) 0 0 ne)

-- No operation changes the number of words.
pub length-set_bit : (bitmap : Bitmap) (i : ℕ) → length (set_bit bitmap i) ≡ length bitmap
unfolding set_bit
length-set_bit bitmap i = length-set bitmap _ _

pub length-clear_bit : (bitmap : Bitmap) (i : ℕ) → length (clear_bit bitmap i) ≡ length bitmap
unfolding clear_bit
length-clear_bit bitmap i = length-set bitmap _ _

pub length-clear_word : (bitmap : Bitmap) (i : ℕ) → length (clear_word bitmap i) ≡ length bitmap
unfolding clear_word
length-clear_word bitmap i = length-set bitmap _ _
