-- ===== src/Replay/Loops.antt =====
-- The loops of `mark_did_receive` that make room for a counter beyond `next`.
use pq_boringtun.Base.{ℕ, zero, suc, ◌+◌, ◌-◌, ◌%◌, ◌^◌, ◌≤◌, ◌<◌, bit_and}
use pq_boringtun.Base.{◌≡◌, refl, ◌∙◌, ◌⊎◌, inl, inr, arith, length, Bool-cases}
use pq_boringtun.Base.{ltb, ◌==◌, not, ◌&&◌}
use pq_boringtun.Base.Digits.{bit_and-round_down}
use pq_boringtun.Replay.{Bitmap, word_size, n_words, n_bits, add64, sub64, clear_bit, clear_word}
use pq_boringtun.Replay.{align_loop, word_loop, bit_loop, clear_between}
use pq_boringtun.Replay.Bits.{
  bit_at, bit_at-clear_bit_same, bit_at-clear_bit_other, length-clear_bit,
}
use pq_boringtun.Replay.Bits.{bit_at-clear_word_same, bit_at-clear_word_other, length-clear_word}

-- `after` has the slots of `[lo, hi)` cleared, and those of older counters within reach as in
-- `before`.
pub record Clears (lo hi : ℕ) (before after : Bitmap) : Type 0 where
  pub size : length after ≡ n_words
  pub cleared : (j : ℕ) → lo ≤ j → j < hi → bit_at after j ≡ 0
  pub kept : (j : ℕ) → j < lo → hi ≤ j + n_bits → bit_at after j ≡ bit_at before j

pub Clears-empty : (lo : ℕ) (bitmap : Bitmap) → length bitmap ≡ n_words → Clears lo lo bitmap bitmap
Clears-empty lo bitmap size = record {
  size = size;
  cleared = λ j p q. absurd (omega arith);
  kept = λ j p q. refl;
}

pub Clears-append :
    {lo mid hi : ℕ} {a b c : Bitmap}
    → lo ≤ mid
    → mid ≤ hi
    → hi ≤ lo + n_bits
    → Clears lo mid a b
    → Clears mid hi b c
    → Clears lo hi a c
Clears-append {lo} {mid} {hi} {a} {b} {c} p q r first second = record {
  size = second.size;
  cleared = λ j s t. ground (arith, first.cleared j, second.cleared j, second.kept j);
  kept = λ j s t. ground (arith, first.kept j, second.kept j);
}

clear_bit-Clears :
    (bitmap : Bitmap) (i : ℕ)
    → length bitmap ≡ n_words
    → Clears i (i + 1) bitmap (clear_bit bitmap i)
clear_bit-Clears bitmap i size = record {
  size = length-clear_bit bitmap i ∙ size;
  cleared = λ j p q. bit_at-clear_bit_same bitmap size i j (omega arith);
  kept = λ j p q. bit_at-clear_bit_other bitmap size i j (omega arith);
}

clear_word-Clears :
    (bitmap : Bitmap) (i : ℕ)
    → length bitmap ≡ n_words
    → i % word_size ≡ 0
    → Clears i (i + word_size) bitmap (clear_word bitmap i)
clear_word-Clears bitmap i size aligned = record {
  size = length-clear_word bitmap i ∙ size;
  cleared = λ j p q. bit_at-clear_word_same bitmap size i j (omega arith);
  kept = λ j p q. bit_at-clear_word_other bitmap size i j (omega arith);
}

-- A loop that started at `i` stopped at `out.1`, with everything in between cleared.
pub record Stopped (i counter : ℕ) (before : Bitmap) (out : Bitmap × ℕ) : Type 0 where
  pub forward : i ≤ out.1
  pub within : out.1 ≤ counter
  pub clears : Clears i out.1 before out.0

-- One more round in front.
Stopped-cons :
    {i k counter : ℕ} {a b : Bitmap} {out : Bitmap × ℕ}
    → i ≤ k
    → counter ≤ i + n_bits
    → Clears i k a b
    → Stopped k counter b out
    → Stopped i counter a out
Stopped-cons p q first rest = record {
  forward = omega (arith, rest.forward);
  within = rest.within;
  clears = Clears-append p rest.forward (omega (arith, rest.within)) first rest.clears;
}

Stopped-here :
    (i counter : ℕ) (bitmap : Bitmap)
    → i ≤ counter
    → length bitmap ≡ n_words
    → Stopped i counter bitmap (bitmap, i)
Stopped-here i counter bitmap p size = record {
  forward = omega arith;
  within = p;
  clears = Clears-empty i bitmap size;
}

-- Where each loop stops, with the distance as fuel.
pub align_loop_lem :
    (fuel : ℕ) (bitmap : Bitmap) (i counter : ℕ)
    → length bitmap ≡ n_words
    → i ≤ counter
    → counter ≤ i + fuel
    → counter ≤ i + n_bits
    → counter + n_bits < 2 ^ 64
    → Stopped i counter bitmap (align_loop fuel bitmap i counter)
      × (((align_loop fuel bitmap i counter).1 % word_size ≡ 0)
          ⊎ ((align_loop fuel bitmap i counter).1 ≡ counter))
unfolding align_loop
align_loop_lem zero bitmap i counter size p f r w =
    (Stopped-here i counter bitmap p size, inr (omega arith))
align_loop_lem (suc fuel) bitmap i counter size p f r w =
    elim (Bool-cases (not (i % word_size == 0) && ltb i counter)) [
      | inl more ↦
          let below : i < counter = ground arith in
          let step : add64 i 1 ≡ i + 1 = omega arith in
          let ih =
            align_loop_lem fuel (clear_bit bitmap i) (i + 1) counter
              (length-clear_bit bitmap i ∙ size) (omega arith) (omega arith) (omega arith) w in
          rw (more, step) (Stopped-cons (omega arith) r (clear_bit-Clears bitmap i size) ih.0, ih.1)
      | inr stop ↦ rw stop (Stopped-here i counter bitmap p size, ground arith)
    ]

pub word_loop_lem :
    (fuel : ℕ) (bitmap : Bitmap) (i counter : ℕ)
    → length bitmap ≡ n_words
    → i ≤ counter
    → counter ≤ i + fuel
    → counter ≤ i + n_bits
    → counter + n_bits < 2 ^ 64
    → (i % word_size ≡ 0) ⊎ (i ≡ counter)
    → Stopped i counter bitmap (word_loop fuel bitmap i counter)
      × (counter ≤ (word_loop fuel bitmap i counter).1 + word_size)
unfolding word_loop
word_loop_lem zero bitmap i counter size p f r w a =
    (Stopped-here i counter bitmap p size, omega arith)
word_loop_lem (suc fuel) bitmap i counter size p f r w a =
    elim (Bool-cases (ltb (add64 i word_size) counter)) [
      | inl more ↦
          let below : i + word_size < counter = ground arith in
          let aligned : i % word_size ≡ 0 = omega arith in
          let step : bit_and (add64 i word_size) (sub64 0 word_size) ≡ i + word_size =
            bit_and-round_down (add64 i word_size) (omega arith) ∙ omega arith in
          let ih =
            word_loop_lem fuel (clear_word bitmap i) (i + word_size) counter
              (length-clear_word bitmap i ∙ size) (omega arith) (omega arith) (omega arith) w
              (inl (omega arith)) in
          rw (more, step)
            (Stopped-cons (omega arith) r (clear_word-Clears bitmap i size aligned) ih.0, ih.1)
      | inr stop ↦ rw stop (Stopped-here i counter bitmap p size, ground arith)
    ]

pub bit_loop_lem :
    (fuel : ℕ) (bitmap : Bitmap) (i counter : ℕ)
    → length bitmap ≡ n_words
    → i ≤ counter
    → counter ≤ i + fuel
    → counter ≤ i + n_bits
    → counter + n_bits < 2 ^ 64
    → Stopped i counter bitmap (bit_loop fuel bitmap i counter)
      × ((bit_loop fuel bitmap i counter).1 ≡ counter)
unfolding bit_loop
bit_loop_lem zero bitmap i counter size p f r w =
    (Stopped-here i counter bitmap p size, omega arith)
bit_loop_lem (suc fuel) bitmap i counter size p f r w = elim (Bool-cases (ltb i counter)) [
  | inl more ↦
      let below : i < counter = ground arith in
      let step : add64 i 1 ≡ i + 1 = omega arith in
      let ih =
        bit_loop_lem fuel (clear_bit bitmap i) (i + 1) counter (length-clear_bit bitmap i ∙ size)
          (omega arith) (omega arith) (omega arith) w in
      rw (more, step) (Stopped-cons (omega arith) r (clear_bit-Clears bitmap i size) ih.0, ih.1)
  | inr stop ↦ rw stop (Stopped-here i counter bitmap p size, ground arith)
]

-- A second loop that goes on from where the first stopped.
Stopped-append :
    {i counter : ℕ} {a : Bitmap} {mid out : Bitmap × ℕ}
    → counter ≤ i + n_bits
    → Stopped i counter a mid
    → Stopped mid.1 counter mid.0 out
    → Stopped i counter a out
Stopped-append r first second = Stopped-cons first.forward r first.clears second

-- The three loops together clear exactly the counters that were skipped.
pub clear_between-Clears :
    (bitmap : Bitmap) (next counter : ℕ)
    → length bitmap ≡ n_words
    → next ≤ counter
    → counter ≤ next + n_bits
    → counter + n_bits < 2 ^ 64
    → Clears next counter bitmap (clear_between bitmap next counter)
unfolding clear_between
clear_between-Clears bitmap next counter size p r w =
    let fuel = counter - next in
    let one = align_loop fuel bitmap next counter in
    let (first, aligned) = align_loop_lem fuel bitmap next counter size p (omega arith) r w in
    let two = word_loop fuel one.0 one.1 counter in
    let (second, close) =
      word_loop_lem fuel one.0 one.1 counter first.clears.size first.within
        (omega (arith, first.forward)) (omega (arith, first.forward)) w aligned in
    let (third, done) =
      bit_loop_lem fuel two.0 two.1 counter second.clears.size second.within
        (omega (arith, first.forward, second.forward))
        (omega (arith, first.forward, second.forward)) w in
    let all = Stopped-append r first (Stopped-append (omega (arith, first.forward)) second third) in
    rw done at all.clears
