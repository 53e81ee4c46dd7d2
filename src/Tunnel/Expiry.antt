-- ===== src/Tunnel/Expiry.antt =====
-- What the periodic work of a tunnel does, from a valid tunnel and a clock that does not go back.
use pq_boringtun.Base.{
  ℕ, zero, suc, ◌+◌, ◌-◌, ◌≤◌, ◌<◌, ◌≡◌, inl, inr, refl, ◌∙◌, arith, Bool, true, false, ◌||◌, ltb,
  leb, some, if_both, if◌then◌else◌, Bool-cases, le→ltb,
}
use pq_boringtun.Errors.{ok, Returns, returned, then-Returns}
use pq_boringtun.Session.{Session}
use pq_boringtun.Handshake.{has_cookie, clear_cookie}
use pq_boringtun.Timers.{
  Timers, TimerName, since, seconds, rekey_after_time, keepalive_timeout, rekey_timeout, timer_tick,
  reject_after_time, time_current, time_session_established, time_cookie_received,
}
use pq_boringtun.Timers.{
  time_last_packet_received, time_last_packet_sent, time_last_data_packet_received,
  time_last_data_packet_sent, time_persistent_keepalive,
}
use pq_boringtun.Timers.Timely.{
  IsTimely, timer_tick-IsTimely, timer_tick_current, timer_tick_slots, timer_tick_started,
}
use pq_boringtun.Tunnel.{Tunn}
use pq_boringtun.Tunnel.Update.{
  reached, when, expire_slot, expire_slots, drop_cookie, rekey_due, handshake_due, keepalive_due,
}
use pq_boringtun.Tunnel.Valid.{IsValid, empty-IsPlaced}
use pq_boringtun.Tunnel.Keeps.{handshake-IsValid}

-- The sessions of the first slots are no older than the limit.
abbrev pub AreFresh : ℕ → Tunn → ℕ → Type 0
AreFresh n t now =
    (slot : ℕ) (s : Session)
    → slot < n
    → t.sessions slot ≡ some s
    → now - t.timers.session_timers slot ≤ reject_after_time

-- A valid tunnel whose current time is `now`, made from `t`.
pub record IsUpdated (n : ℕ) (t : Tunn) (now : ℕ) (t' : Tunn) : Type 0 where
  pub valid : IsValid t'
  pub current : t'.timers.timers time_current ≡ now
  pub started : t'.timers.time_started ≡ t.timers.time_started
  pub fresh : AreFresh n t' now

-- A time that is not after `now` is compared without a panic.
pub reached_lem :
    (now start limit : ℕ) → start ≤ now → reached now start limit ≡ ok (leb limit (now - start))
unfolding reached since
reached_lem now start limit h = rw (le→ltb now start h)

abbrev Anything {ℓ} : {A : Type ℓ} → A → Type 0
Anything a = Unit

when-Returns :
    (b : Bool) (now start limit : ℕ)
    → start ≤ now
    → Returns Anything (when b (reached now start limit))
when-Returns true now start limit h = rw (reached_lem now start limit h) (returned tt)
when-Returns false now start limit h = returned tt

expire_slot-Returns :
    (slot : ℕ) (t t' : Tunn) (now : ℕ)
    → IsUpdated slot t now t'
    → Returns (IsUpdated (suc slot) t now) (expire_slot t' slot now)
unfolding expire_slot since
expire_slot-Returns slot t t' now u =
    let before : t'.timers.session_timers slot ≤ now =
      omega (arith, u.valid.timely.slots slot, u.current) in
    let age = now - t'.timers.session_timers slot in
    rw (le→ltb now (t'.timers.session_timers slot) before) (
      returned (
        if_both (IsUpdated (suc slot) t now) (ltb reject_after_time age) _ t'
          (λ old. record {
            valid = record {
              queue = u.valid.queue;
              placed = empty-IsPlaced t'.sessions slot u.valid.placed;
              timely = record {
                named = u.valid.timely.named;
                slots = λ other. ground (arith, u.valid.timely.slots other, u.current);
              };
            };
            current = u.current;
            started = u.started;
            fresh = λ other s lt e. ground (arith, u.fresh other s);
          })
          (λ young. record {
            valid = u.valid;
            current = u.current;
            started = u.started;
            fresh = λ other s lt e. ground (arith, u.fresh other s);
          })))

pub expire_slots-Returns :
    (n : ℕ) (t : Tunn) (now : ℕ)
    → IsValid t
    → t.timers.timers time_current ≡ now
    → Returns (IsUpdated n t now) (expire_slots n t now)
unfolding expire_slots
expire_slots-Returns zero t now v current = returned (record {
  valid = v;
  current = current;
  started = refl;
  fresh = λ slot s lt e. absurd (omega arith);
})
expire_slots-Returns (suc n) t now v current =
    then-Returns (expire_slots-Returns n t now v current) (λ t' u. expire_slot-Returns n t t' now u)

pub drop_cookie-Returns :
    (n : ℕ) (t t' : Tunn) (now : ℕ)
    → IsUpdated n t now t'
    → Returns (IsUpdated n t now) (drop_cookie t' now)
unfolding drop_cookie
drop_cookie-Returns n t t' now u =
    then-Returns
      (when-Returns (has_cookie t'.handshake) now (t'.timers.timers time_cookie_received) _
        (omega (arith, u.valid.timely.named time_cookie_received, u.current)))
      λ old done_with. returned (
        if_both (IsUpdated n t now) old _ t'
          (λ dropped. record {
            valid = handshake-IsValid t' (clear_cookie t'.handshake) u.valid;
            current = u.current;
            started = u.started;
            fresh = u.fresh;
          })
          (λ kept. u))

-- The decisions of the timers are made without a panic, and keep the timers timely; the session
-- timers and the start of the tunnel stay.
pub record IsDecided (ts : Timers) (ts' : Timers) : Type 0 where
  pub timely : IsTimely ts'
  pub current : ts'.timers time_current ≡ ts.timers time_current
  pub started : ts'.time_started ≡ ts.time_started
  pub slots : (slot : ℕ) → ts'.session_timers slot ≡ ts.session_timers slot

undecided : (ts : Timers) → IsTimely ts → IsDecided ts ts
undecided ts v = record { timely = v; current = refl; started = refl; slots = λ slot. refl }

tick-IsDecided :
    (ts ts' : Timers) (name : TimerName) → IsDecided ts ts' → IsDecided ts (timer_tick ts' name)
tick-IsDecided ts ts' name d = record {
  timely = timer_tick-IsTimely ts' name d.timely;
  current = timer_tick_current ts' name ∙ d.current;
  started = timer_tick_started ts' name ∙ d.started;
  slots = λ slot. timer_tick_slots ts' name slot ∙ d.slots slot;
}

module _ (ts : Timers) (now : ℕ) (v : IsTimely ts) (current : ts.timers time_current ≡ now) where
  since_named :
      (b : Bool) (name : TimerName) (limit : ℕ)
      → (y : Bool) × (when b (reached now (ts.timers name) limit) ≡ ok y)
  since_named true name limit =
      (_, reached_lem now (ts.timers name) limit (omega (arith, v.named name)))
  since_named false name limit = (false, refl)

  rekey_due-Returns : (b : Bool) × (rekey_due ts now ≡ ok b)
  unfolding rekey_due
  rekey_due-Returns =
      let established = ts.timers time_session_established in
      let (a, ea) =
        since_named (ltb established (ts.timers time_last_data_packet_sent))
          time_session_established rekey_after_time in
      let (b, eb) =
        since_named (ltb established (ts.timers time_last_data_packet_received))
          time_session_established (reject_after_time - keepalive_timeout - rekey_timeout) in
      elim (Bool-cases ts.is_initiator) [
        | inl initiator ↦ (a || b, rw (initiator, ea, eb))
        | inr responder ↦ (false, rw responder)
      ]

  pub handshake_due-Returns : Returns (λ r. IsDecided ts r.0) (handshake_due ts now)
  unfolding handshake_due
  handshake_due-Returns =
      let (rekey, er) = rekey_due-Returns in
      let heard = ts.timers time_last_packet_received in
      let (silent, es) =
        since_named (ltb heard (ts.timers time_last_data_packet_sent)) time_last_packet_received
          (keepalive_timeout + rekey_timeout) in
      rw (er, es)
        (if_both (Returns (λ r. IsDecided ts r.0)) silent _ _
          (λ e. returned (record {
            timely = record { named = v.named; slots = v.slots };
            current = refl;
            started = refl;
            slots = λ slot. refl;
          }))
          (λ e. returned (undecided ts v)))

  pub keepalive_due-Returns : Returns (λ r. IsDecided ts r.0) (keepalive_due ts now)
  unfolding keepalive_due
  keepalive_due-Returns =
      let (idle, ei) =
        since_named
          (ltb (ts.timers time_last_packet_sent) (ts.timers time_last_data_packet_received))
          time_last_packet_sent keepalive_timeout in
      let (persistent, ep) =
        since_named (ltb 0 ts.persistent_keepalive) time_persistent_keepalive
          (seconds ts.persistent_keepalive) in
      let calm : IsDecided ts (if idle then record ts { want_keepalive = false } else ts) =
        if_both (IsDecided ts) idle _ ts
          (λ e. record {
            timely = record { named = v.named; slots = v.slots };
            current = refl;
            started = refl;
            slots = λ slot. refl;
          })
          (λ e. undecided ts v) in
      rw (ei, ep)
        (returned (
          if_both (IsDecided ts) persistent _ _
            (λ e. tick-IsDecided ts _ time_persistent_keepalive calm) (λ e. calm)))
