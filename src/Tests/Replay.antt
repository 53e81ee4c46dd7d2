-- ===== src/Tests/Replay.antt =====
-- The receiving window on concrete runs.
use pq_boringtun.Base.{ℕ, ◌-◌, ◌^◌, ◌≡◌, refl, arith, List, [], ◌∷◌, replicate}
use pq_boringtun.Errors.{ok, err, invalid_counter, duplicate_counter, is_ok}
use pq_boringtun.Replay.{Validator, Bitmap, fresh, will_accept, mark_did_receive, clear_between}
use pq_boringtun.Replay.{align_loop, word_loop, bit_loop, clear_bit, clear_word, set_bit, check_bit}
use pq_boringtun.Replay.{make_room, receiving_counter_mark}
use pq_boringtun.Replay.Spec
use pq_boringtun.Replay.Spec.{Distinct}
use pq_boringtun.Replay.Refine.{Tracks, fresh-Tracks, will_accept_refines, mark_refines}
use pq_boringtun.Replay.Delivery.{deliver, deliver_reordered}
use pq_boringtun.Replay.Wrap.{will_accept-agrees, mark_wraps}
use pq_boringtun.Replay.Ends.{Finishes, clear_between-Finishes}

-- The validator after the counter 5.
abbrev five : Validator
five = (mark_did_receive fresh 5).0

five-Tracks : Tracks five (5 ∷ [])
unfolding Spec.mark
five-Tracks = (mark_refines fresh-Tracks 5 (omega arith)).1

-- 0 to 2 in order, 1 again, a jump past a word, a late 15, and a jump past the window.
abbrev arrivals : List ℕ
arrivals = 0 ∷ 1 ∷ 2 ∷ 1 ∷ 70 ∷ 15 ∷ 15 ∷ 3000 ∷ 1976 ∷ 1977 ∷ []

abbrev ones : Bitmap
ones = replicate 16 (2 ^ 64 - 1)

-- The jump from 3 to 200 clears the bits 3 to 199, by all three loops.
clear_between_run :
    clear_between ones 3 200 ≡ 7 ∷ 0 ∷ 0 ∷ (2 ^ 64 - 2 ^ 8) ∷ replicate 12 (2 ^ 64 - 1)
unfolding clear_between align_loop word_loop bit_loop clear_bit clear_word
clear_between_run = refl

deliver_run : (deliver fresh arrivals).1 ≡ 0 ∷ 1 ∷ 2 ∷ 70 ∷ 15 ∷ 3000 ∷ 1977 ∷ []
unfolding deliver receiving_counter_mark mark_did_receive set_bit check_bit make_room clear_between
    bit_loop word_loop align_loop clear_bit
deliver_run = refl

mark_refines_example :
    ((mark_did_receive five 5).1 ≡ err invalid_counter)
    × Tracks (mark_did_receive five 5).0 (5 ∷ [])
unfolding Spec.mark
mark_refines_example = mark_refines five-Tracks 5 (omega arith)

will_accept_refines_example : will_accept five 5 ≡ err duplicate_counter
unfolding Spec.will_accept
will_accept_refines_example = will_accept_refines five-Tracks 5 (omega arith)

deliver_reordered_example : (deliver fresh (1023 ∷ 0 ∷ 512 ∷ 7 ∷ [])).1 ≡ 1023 ∷ 0 ∷ 512 ∷ 7 ∷ []
deliver_reordered_example =
    deliver_reordered 0 1024 (1023 ∷ 0 ∷ 512 ∷ 7 ∷ []) (omega arith) (omega arith) (omega arith)
      (ground arith)

will_accept-agrees_example : is_ok (will_accept five 3) ≡ is_ok (mark_did_receive five 3).1
will_accept-agrees_example = will_accept-agrees five 3 (omega arith)

mark_wraps_example :
    let (v', ret) = mark_did_receive fresh (2 ^ 64 - 1) in
    (ret ≡ ok tt) × (v'.next ≡ 0) × ((mark_did_receive v' (2 ^ 64 - 1)).1 ≡ ok tt)
mark_wraps_example = mark_wraps fresh (omega arith)

clear_between-Finishes_example : Finishes ones 3 200 (clear_between ones 3 200)
clear_between-Finishes_example =
    clear_between-Finishes ones 3 200 refl (omega arith) (omega arith) (omega arith)
