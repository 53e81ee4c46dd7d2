-- ===== src/Replay.antt =====
-- The receiving window of boringtun/src/noise/session.rs: `ReceivingKeyCounterValidator`.
pub mod Bits
pub mod Loops
pub mod Ends
pub mod Spec
pub mod Refine
pub mod Delivery
pub mod Wrap
use pq_boringtun.Base.{ℕ, zero, suc, ◌+◌, ◌-◌, ◌/◌, ◌%◌, ◌^◌, bit_and, bit_or}
use pq_boringtun.Base.{Bool, not, ◌&&◌, List, replicate, get_or, set}
use pq_boringtun.Base.{ltb, leb, ◌==◌, if◌then◌else◌}
use pq_boringtun.Errors.{Result, ok, err, invalid_counter, duplicate_counter, is_ok}

abbrev pub word_size : ℕ
word_size = 64

abbrev pub n_words : ℕ
n_words = 16

abbrev pub n_bits : ℕ
n_bits = 1024

-- `u64` addition and subtraction without overflow checks (the release profile).
abbrev pub add64 : ℕ → ℕ → ℕ
add64 a b = (a + b) % 2 ^ 64

abbrev pub sub64 : ℕ → ℕ → ℕ
sub64 a b = (a + 2 ^ 64 - b) % 2 ^ 64

-- `!x`
abbrev pub not64 : ℕ → ℕ
not64 x = 2 ^ 64 - 1 - x

abbrev pub Bitmap : Type 0
Bitmap = List ℕ

abbrev pub word_of : ℕ → ℕ
word_of idx = idx % n_bits / word_size

abbrev pub bit_of : ℕ → ℕ
bit_of idx = idx % n_bits % word_size

-- `word_of` is below 16, so a bitmap of 16 words is never read or written out of range.
unfoldable pub set_bit : Bitmap → ℕ → Bitmap
set_bit bitmap idx =
    set bitmap (word_of idx) (bit_or (get_or bitmap (word_of idx) 0) (2 ^ bit_of idx))

unfoldable pub clear_bit : Bitmap → ℕ → Bitmap
clear_bit bitmap idx =
    set bitmap (word_of idx) (bit_and (get_or bitmap (word_of idx) 0) (not64 (2 ^ bit_of idx)))

unfoldable pub clear_word : Bitmap → ℕ → Bitmap
clear_word bitmap idx = set bitmap (word_of idx) 0

unfoldable pub check_bit : Bitmap → ℕ → Bool
check_bit bitmap idx = bit_and (get_or bitmap (word_of idx) 0 / 2 ^ bit_of idx) 1 == 1

pub record Validator : Type 0 where
  pub next : ℕ
  pub receive_cnt : ℕ
  pub bitmap : Bitmap

-- `Default::default()`
abbrev pub fresh : Validator
fresh = record { next = 0; receive_cnt = 0; bitmap = replicate n_words 0 }

unfoldable pub will_accept : Validator → ℕ → Result (Unit {0})
will_accept v counter =
    if leb v.next counter
    then ok tt
    else if ltb (add64 counter n_bits) v.next
    then err invalid_counter
    else if not (check_bit v.bitmap counter)
    then ok tt
    else err duplicate_counter

-- The three loops of `mark_did_receive`, from `i` up to `counter`, on fuel.
-- `while i % WORD_SIZE != 0 && i < counter`
unfoldable pub align_loop : ℕ → Bitmap → ℕ → ℕ → Bitmap × ℕ
align_loop zero bitmap i counter = (bitmap, i)
align_loop (suc fuel) bitmap i counter =
    let rest = align_loop fuel (clear_bit bitmap i) (add64 i 1) counter in
    if not (i % word_size == 0) && ltb i counter then rest else (bitmap, i)

-- `while i + WORD_SIZE < counter`; `& 0u64.wrapping_sub(WORD_SIZE)` keeps all but the low 6 bits.
unfoldable pub word_loop : ℕ → Bitmap → ℕ → ℕ → Bitmap × ℕ
word_loop zero bitmap i counter = (bitmap, i)
word_loop (suc fuel) bitmap i counter =
    let rest =
      word_loop fuel (clear_word bitmap i) (bit_and (add64 i word_size) (sub64 0 word_size))
        counter in
    if ltb (add64 i word_size) counter then rest else (bitmap, i)

-- `while i < counter`
unfoldable pub bit_loop : ℕ → Bitmap → ℕ → ℕ → Bitmap × ℕ
bit_loop zero bitmap i counter = (bitmap, i)
bit_loop (suc fuel) bitmap i counter =
    let rest = bit_loop fuel (clear_bit bitmap i) (add64 i 1) counter in
    if ltb i counter then rest else (bitmap, i)

-- Each loop gets the whole distance as fuel.
unfoldable pub clear_between : Bitmap → ℕ → ℕ → Bitmap
clear_between bitmap next counter =
    let (aligned, i) = align_loop (counter - next) bitmap next counter in
    let (whole, j) = word_loop (counter - next) aligned i counter in
    (bit_loop (counter - next) whole j counter).0

-- The bitmap as it stands when a counter beyond `next` is to be marked.
unfoldable pub make_room : Validator → ℕ → Bitmap
make_room v counter =
    if leb n_bits (counter - v.next)
    then replicate n_words 0
    else clear_between v.bitmap v.next counter

-- `&mut self` is returned beside the result.
unfoldable pub mark_did_receive : Validator → ℕ → Validator × Result (Unit {0})
mark_did_receive v counter =
    if ltb (add64 counter n_bits) v.next
    then (v, err invalid_counter)
    else if counter == v.next
    then (record v { bitmap = set_bit v.bitmap counter; next = add64 v.next 1 }, ok tt)
    else if ltb counter v.next
    then if check_bit v.bitmap counter
      then (v, err invalid_counter)
      else (record v { bitmap = set_bit v.bitmap counter }, ok tt)
    else (
      record v { bitmap = set_bit (make_room v counter) counter; next = add64 counter 1 },
      ok tt,
    )

-- `Session::receiving_counter_mark`, under the lock.
unfoldable pub receiving_counter_mark : Validator → ℕ → Validator × Result (Unit {0})
receiving_counter_mark v counter =
    let (v', ret) = mark_did_receive v counter in
    if is_ok ret then (record v' { receive_cnt = add64 v'.receive_cnt 1 }, ret) else (v', ret)
