-- ===== src/Handshake/Clock.antt =====
-- The timestamps of initiations: `Tai64N::after`, `TimeStamper::stamp` and `Tai64N::parse`.
use pq_boringtun.Base.{
  ℕ, ◌+◌, ◌-◌, ◌*◌, ◌/◌, ◌%◌, ◌^◌, ◌≤◌, ◌<◌, ◌≡◌, refl, sym, ◌∙◌, arith, true, false,
}
use mathlib.Core.List.{append-nil}
use pq_boringtun.Base.Bytes.{to_be, from_be-to_be, length-to_be}
use pq_boringtun.Base.{slice_next, ◌++◌}
use pq_boringtun.Handshake.{Tai64N, TimeStamper, tai64_base, parse_tai64n, after, stamp}

-- `after` is transitive.
pub after_trans : (s t u : Tai64N) → after s t ≡ true → after t u ≡ true → after s u ≡ true
unfolding after
after_trans s t u e f = ground arith

pub after_asym : (s t : Tai64N) → after s t ≡ true → after t s ≡ false
unfolding after
after_asym s t e = ground arith

parse-stamp :
    (t : TimeStamper) (now : ℕ)
    → now - t.instant_at_start + t.duration_at_start < 2 ^ 62 * 10 ^ 9
    → parse_tai64n (stamp t now) ≡ record {
      secs = (now - t.instant_at_start + t.duration_at_start) / 10 ^ 9 + tai64_base;
      nano = (now - t.instant_at_start + t.duration_at_start) % 10 ^ 9;
    }
unfolding parse_tai64n stamp
parse-stamp t now h =
    let elapsed = now - t.instant_at_start + t.duration_at_start in
    let x = elapsed / 10 ^ 9 + tai64_base in
    let y = elapsed % 10 ^ 9 in
    let (s, d) = slice_next (to_be 8 x ++ to_be 4 y) 0 8 refl (length-to_be 8 x) in
    let (s2, d2) =
      slice_next (to_be 8 x ++ to_be 4 y) 8 4 (d ∙ sym (append-nil (to_be 4 y)))
        (length-to_be 4 y) in
    rw (s, s2, from_be-to_be 8 x (omega arith), from_be-to_be 4 y (omega arith))

-- A stamp taken later by the same clock, as parsed by the receiver, is after the earlier one, once
-- the clock has started and below 2^62 seconds.
pub stamp_after :
    (t : TimeStamper) (earlier later : ℕ)
    → t.instant_at_start ≤ earlier
    → earlier < later
    → later - t.instant_at_start + t.duration_at_start < 2 ^ 62 * 10 ^ 9
    → after (parse_tai64n (stamp t later)) (parse_tai64n (stamp t earlier)) ≡ true
unfolding after
stamp_after t earlier later h lt small =
    rw (parse-stamp t later small, parse-stamp t earlier (omega arith)) (ground arith)

pub after_irrefl : (t : Tai64N) → after t t ≡ false
unfolding after
after_irrefl t = ground arith
