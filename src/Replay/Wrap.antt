-- ===== src/Replay/Wrap.antt =====
-- The edges of `ReceivingKeyCounterValidator`: the two checks side by side, and the last counters
-- of a `u64`.
use pq_boringtun.Base.{ℕ, ◌+◌, ◌-◌, ◌^◌, ◌<◌, ◌≡◌, arith}
use pq_boringtun.Errors.{ok, is_ok}
use pq_boringtun.Replay.{Validator, n_bits, will_accept, mark_did_receive}

-- The quick check before decryption and the marking after it accept the same counters, for every
-- validator and every counter below 2^64 - 1024.
pub will_accept-agrees :
    (v : Validator) (c : ℕ)
    → c + n_bits < 2 ^ 64
    → is_ok (will_accept v c) ≡ is_ok (mark_did_receive v c).1
unfolding will_accept mark_did_receive
will_accept-agrees v c w = ground arith

-- A validator that expects at most 1023 accepts the counter 2^64 - 1, expects 0 from then on, and
-- accepts that counter once more.
pub mark_wraps :
    (v : Validator)
    → v.next < n_bits
    → let (v', ret) = mark_did_receive v (2 ^ 64 - 1) in
      (ret ≡ ok tt) × (v'.next ≡ 0) × ((mark_did_receive v' (2 ^ 64 - 1)).1 ≡ ok tt)
unfolding mark_did_receive
mark_wraps v p = (ground arith, ground arith, ground arith)
