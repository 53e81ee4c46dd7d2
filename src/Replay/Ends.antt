-- ===== src/Replay/Ends.antt =====
-- The loops of `mark_did_receive` as loops without fuel, and that the bounded ones run to their
-- ends.
use pq_boringtun.Base.{ℕ, zero, suc, ◌+◌, ◌-◌, ◌%◌, ◌^◌, ◌≤◌, ◌<◌, bit_and}
use pq_boringtun.Base.{◌≡◌, ◌∙◌, inl, inr, arith, length, Bool-cases}
use pq_boringtun.Base.{Bool, true, false, ltb, ◌==◌, not, ◌&&◌}
use pq_boringtun.Base.Digits.{bit_and-round_down}
use pq_boringtun.Replay.{Bitmap, word_size, n_words, n_bits, add64, sub64, clear_bit, clear_word}
use pq_boringtun.Replay.{align_loop, word_loop, bit_loop, clear_between}
use pq_boringtun.Replay.Loops.{Clears, clear_between-Clears, align_loop_lem, word_loop_lem}

-- A bitmap, and the variable `i`.
abbrev pub Cursor : Type 0
Cursor = Bitmap × ℕ

-- A run of `while test { body }` from one state to the state in which the test fails.
pub data While (test : Cursor → Bool) (body : Cursor → Cursor) : Cursor → Cursor → Type 0 where
  leaves : {s : Cursor} → test s ≡ false → While test body s s
  round : {s out : Cursor} → test s ≡ true → While test body (body s) out → While test body s out

-- The tests and the bodies of the three loops.
abbrev pub is_unaligned : ℕ → Cursor → Bool
is_unaligned counter s = not (s.1 % word_size == 0) && ltb s.1 counter

abbrev pub has_word : ℕ → Cursor → Bool
has_word counter s = ltb (add64 s.1 word_size) counter

abbrev pub has_bit : ℕ → Cursor → Bool
has_bit counter s = ltb s.1 counter

abbrev pub bit_body : Cursor → Cursor
bit_body s = (clear_bit s.0 s.1, add64 s.1 1)

abbrev pub word_body : Cursor → Cursor
word_body s = (clear_word s.0 s.1, bit_and (add64 s.1 word_size) (sub64 0 word_size))

align_loop-While :
    (fuel : ℕ) (bitmap : Bitmap) (i counter : ℕ)
    → counter ≤ i + fuel
    → counter + n_bits < 2 ^ 64
    → While (is_unaligned counter) bit_body (bitmap, i) (align_loop fuel bitmap i counter)
unfolding align_loop
align_loop-While zero bitmap i counter f w = leaves (ground arith)
align_loop-While (suc fuel) bitmap i counter f w =
    elim (Bool-cases (not (i % word_size == 0) && ltb i counter)) [
      | inl more ↦
          let below : i < counter = ground arith in
          rw more (
            round more
              (align_loop-While fuel (clear_bit bitmap i) (add64 i 1) counter (omega arith) w))
      | inr stop ↦ rw stop (leaves stop)
    ]

word_loop-While :
    (fuel : ℕ) (bitmap : Bitmap) (i counter : ℕ)
    → i ≤ counter
    → counter ≤ i + fuel
    → counter + n_bits < 2 ^ 64
    → While (has_word counter) word_body (bitmap, i) (word_loop fuel bitmap i counter)
unfolding word_loop
word_loop-While zero bitmap i counter p f w = leaves (ground arith)
word_loop-While (suc fuel) bitmap i counter p f w =
    elim (Bool-cases (ltb (add64 i word_size) counter)) [
      | inl more ↦
          let below : i + word_size < counter = ground arith in
          let i' = bit_and (add64 i word_size) (sub64 0 word_size) in
          let step : i' ≡ add64 i word_size - add64 i word_size % word_size =
            bit_and-round_down (add64 i word_size) (omega arith) ∙ omega arith in
          rw more (
            round more
              (word_loop-While fuel (clear_word bitmap i) i' counter (omega arith) (omega arith) w))
      | inr stop ↦ rw stop (leaves stop)
    ]

bit_loop-While :
    (fuel : ℕ) (bitmap : Bitmap) (i counter : ℕ)
    → counter ≤ i + fuel
    → counter + n_bits < 2 ^ 64
    → While (has_bit counter) bit_body (bitmap, i) (bit_loop fuel bitmap i counter)
unfolding bit_loop
bit_loop-While zero bitmap i counter f w = leaves (ground arith)
bit_loop-While (suc fuel) bitmap i counter f w = elim (Bool-cases (ltb i counter)) [
  | inl more ↦
      let below : i < counter = ground arith in
      rw more
        (round more (bit_loop-While fuel (clear_bit bitmap i) (add64 i 1) counter (omega arith) w))
  | inr stop ↦ rw stop (leaves stop)
]

-- The three loops, one after another, from `next`; `after` is the bitmap that they leave.
pub record Finishes (bitmap : Bitmap) (next counter : ℕ) (after : Bitmap) : Type 0 where
  pub aligned : Cursor
  pub whole : Cursor
  pub last : ℕ
  pub aligns : While (is_unaligned counter) bit_body (bitmap, next) aligned
  pub words : While (has_word counter) word_body aligned whole
  pub bits : While (has_bit counter) bit_body whole (after, last)
  pub clears : Clears next counter bitmap after

-- For a bitmap of 16 words and a counter that is not before `next`, beyond it by at most 1024, and
-- more than 1024 below 2^64, the three `while` loops, run one after another from `next` without any
-- bound on their rounds, come to an end, the bitmap that they leave is the one that `clear_between`
-- returns on its fuel, and it has the slots of the skipped counters cleared, and those of the older
-- counters within reach kept.
pub clear_between-Finishes :
    (bitmap : Bitmap) (next counter : ℕ)
    → length bitmap ≡ n_words
    → next ≤ counter
    → counter ≤ next + n_bits
    → counter + n_bits < 2 ^ 64
    → Finishes bitmap next counter (clear_between bitmap next counter)
unfolding clear_between
clear_between-Finishes bitmap next counter size p r w =
    let fuel = counter - next in
    let one = align_loop fuel bitmap next counter in
    let two = word_loop fuel one.0 one.1 counter in
    let (first, aligned) = align_loop_lem fuel bitmap next counter size p (omega arith) r w in
    let (second, close) =
      word_loop_lem fuel one.0 one.1 counter first.clears.size first.within
        (omega (arith, first.forward)) (omega (arith, first.forward)) w aligned in
    record {
      aligned = one;
      whole = two;
      last = (bit_loop fuel two.0 two.1 counter).1;
      aligns = align_loop-While fuel bitmap next counter (omega arith) w;
      words =
          word_loop-While fuel one.0 one.1 counter first.within (omega (arith, first.forward)) w;
      bits =
          bit_loop-While fuel two.0 two.1 counter (omega (arith, first.forward, second.forward)) w;
      clears = clear_between-Clears bitmap next counter size p r w;
    }
