-- ===== src/Tunnel/Updated.antt =====
-- The outcomes of `Tunn::update_timers`.
use pq_boringtun.Base.{
  ℕ, ◌-◌, ◌*◌, ◌≤◌, ◌<◌, ◌≡◌, refl, inl, inr, Option-cases, ◌∙◌, arith, true, leb, [], none, some,
  if_both,
}
use pq_boringtun.Errors.{Result, connection_expired, Returns, returned}
use pq_boringtun.Crypto.{Crypto}
use pq_boringtun.Handshake.{is_expired, set_expired, timer}
use pq_boringtun.Timers.{
  Timers, elapsed, reject_after_time, rekey_attempt_time, rekey_timeout, time_session_established,
  time_last_handshake_started,
}
use pq_boringtun.Timers.Timely.{advance-IsTimely}
use pq_boringtun.Tunnel.{Tunn, TunnResult, done, failed, Moment, n_sessions, clear_all}
use pq_boringtun.Tunnel.Encapsulate.{format_initiation, encapsulate}
use pq_boringtun.Tunnel.Decapsulate.{finish}
use pq_boringtun.Tunnel.Update.{
  reached, expire_connection, begin_update, update_waiting, update_quiet, update_handshake,
  update_timers,
}
use pq_boringtun.Tunnel.Valid.{IsValid, IsForward, clear_all-IsValid}
use pq_boringtun.Tunnel.Keeps.{Keeps, handshake-IsValid, format_initiation-Keeps, encapsulate-Keeps}
use pq_boringtun.Tunnel.Expiry.{
  IsUpdated, reached_lem, IsDecided, expire_slots-Returns, drop_cookie-Returns,
  handshake_due-Returns, keepalive_due-Returns,
}

-- The later reading of the clock, for what is called at the end.
abbrev pub afterwards : Moment → Moment
afterwards m = record m { now = m.later }

-- A handshake that waits for its response was sent less than 5 seconds ago, and has been tried for
-- less than 90 seconds.
abbrev pub IsPatient : Tunn → Moment → ℕ → Type 0
IsPatient t m now =
    (sent : ℕ)
    → timer t.handshake ≡ some sent
    → (m.later - sent < rekey_timeout)
      × (now - t.timers.timers time_last_handshake_started < rekey_attempt_time)

-- The connection is given up, nothing is due, or an initiation or a keepalive is sent.
pub data Updated (c : Crypto) (t : Tunn) (m : Moment) (r : Tunn × TunnResult) : Type 0 where
  expires :
      (t' : Tunn)
      → IsValid t'
      → is_expired t'.handshake ≡ true
      → r ≡ (t', failed connection_expired)
      → Updated c t m r
  rests :
      (t' : Tunn)
      → IsUpdated n_sessions t (elapsed t.timers m.now) t'
      → IsPatient t' m (elapsed t.timers m.now)
      → r ≡ (t', done)
      → Updated c t m r
  initiates :
      (t' : Tunn)
      → IsUpdated n_sessions t (elapsed t.timers m.now) t'
      → r ≡ format_initiation c t' (afterwards m) true
      → Updated c t m r
  keeps_alive :
      (t' : Tunn)
      → IsUpdated n_sessions t (elapsed t.timers m.now) t'
      → r ≡ encapsulate c t' [] (afterwards m)
      → Updated c t m r

module _ (c : Crypto) (t : Tunn) (m : Moment) (v : IsValid t) (f : IsForward t m) where
  finish-Updated {ℓ κ} :
      {A : Type ℓ} {P : A → Type κ} {r : Result A} (t' : Tunn) (rest : A → Tunn × TunnResult)
      → Returns P r
      → ((a : A) → P a → Updated c t m (rest a))
      → Updated c t m (finish t' r rest)
  finish-Updated t' rest (returned p) next = next _ p

  reached-Returns :
      (now start limit : ℕ)
      → start ≤ now
      → Returns (λ b. b ≡ leb limit (now - start)) (reached now start limit)
  reached-Returns now start limit h = rw (reached_lem now start limit h) (returned refl)

  expire-Updated :
      (t' : Tunn)
      → IsUpdated n_sessions t (elapsed t.timers m.now) t'
      → Updated c t m (expire_connection t' m.later)
  unfolding expire_connection set_expired is_expired clear_all
  expire-Updated t' u =
      expires _
        (unfold clear_all in
          clear_all-IsValid _ (handshake-IsValid t' (set_expired t'.handshake) u.valid) m.later
            (omega (arith, u.current, u.started, f.second)))
        refl refl

  waiting-Updated :
      (t' : Tunn) (sent : ℕ)
      → timer t'.handshake ≡ some sent
      → IsUpdated n_sessions t (elapsed t.timers m.now) t'
      → Updated c t m (update_waiting c t' (elapsed t.timers m.now) m sent)
  unfolding update_waiting
  waiting-Updated t' sent waits u =
      finish-Updated t' _
        (reached-Returns _ (t'.timers.timers time_last_handshake_started) rekey_attempt_time
          (omega (arith, u.valid.timely.named time_last_handshake_started, u.current)))
        λ gave_up e.
          if_both (Updated c t m) gave_up _ _ (λ old. expire-Updated t' u)
            λ young.
              if_both (Updated c t m) (leb rekey_timeout (m.later - sent)) _ _
                (λ retry. initiates t' u refl)
                (λ wait.
                  rests t' u
                    (λ other there. let same : sent ≡ other = cc in (ground arith, ground arith))
                    refl)

  -- Timers that have been decided on take the place of those before.
  decided-IsUpdated :
      (t' : Tunn) (ts : Timers)
      → IsUpdated n_sessions t (elapsed t.timers m.now) t'
      → IsDecided t'.timers ts
      → IsUpdated n_sessions t (elapsed t.timers m.now) (record t' { timers = ts })
  decided-IsUpdated t' ts u d = record {
    valid = record { queue = u.valid.queue; placed = u.valid.placed; timely = d.timely };
    current = d.current ∙ u.current;
    started = d.started ∙ u.started;
    fresh = λ slot s lt e. rw (d.slots slot) (u.fresh slot s lt e);
  }

  quiet-Updated :
      (t' : Tunn)
      → timer t'.handshake ≡ none
      → IsUpdated n_sessions t (elapsed t.timers m.now) t'
      → Updated c t m (update_quiet c t' (elapsed t.timers m.now) m)
  unfolding update_quiet
  quiet-Updated t' quiet u =
      finish-Updated t' _ (handshake_due-Returns t'.timers _ u.valid.timely u.current) λ r d.
        let u1 = decided-IsUpdated t' r.0 u d in
        if_both (Updated c t m) r.1 _ _ (λ wanted. initiates _ u1 refl)
          λ unwanted.
            finish-Updated _ _ (keepalive_due-Returns r.0 _ u1.valid.timely u1.current) λ k d2.
              let u2 = decided-IsUpdated _ k.0 u1 d2 in
              if_both (Updated c t m) k.1 _ _ (λ due. keeps_alive _ u2 refl)
                (λ idle. rests _ u2 (λ sent waits. absurd cc) refl)

  handshake-Updated :
      (t' : Tunn)
      → IsUpdated n_sessions t (elapsed t.timers m.now) t'
      → Updated c t m (update_handshake c t' (elapsed t.timers m.now) m)
  unfolding update_handshake
  handshake-Updated t' u =
      if_both (Updated c t m) (is_expired t'.handshake) _ _ (λ e. expires t' u.valid e refl)
        λ e. finish-Updated t' _ (drop_cookie-Returns n_sessions t t' _ u) λ t1 u1.
          finish-Updated t1 _
            (reached-Returns _ (t1.timers.timers time_session_established) (3 * reject_after_time)
              (omega (arith, u1.valid.timely.named time_session_established, u1.current)))
            λ old e2.
              if_both (Updated c t m) old _ _ (λ given_up. expire-Updated t1 u1)
                λ young. elim (Option-cases (timer t1.handshake)) [
                  | inr (sent, waits) ↦ rw waits (waiting-Updated t1 sent waits u1)
                  | inl quiet ↦ rw quiet (quiet-Updated t1 quiet u1)
                ]

  pub update_timers-Updated : Updated c t m (update_timers c t m)
  unfolding update_timers begin_update
  update_timers-Updated =
      let now = elapsed t.timers m.now in
      let begun : IsValid (begin_update c t m) = record {
        queue = v.queue;
        placed = v.placed;
        timely = advance-IsTimely t.timers now v.timely f.first;
      } in
      finish-Updated _ _ (expire_slots-Returns n_sessions (begin_update c t m) now begun refl)
        λ t' u.
          handshake-Updated t'
            (record { valid = u.valid; current = u.current; started = u.started; fresh = u.fresh })

  pub update_timers-Keeps : Keeps (update_timers c t m)
  update_timers-Keeps = keeps update_timers-Updated
    where
      keeps : {r : Tunn × TunnResult} → Updated c t m r → Keeps r
      keeps (expires t' v' x e) = rw e v'
      keeps (rests t' u patient e) = rw e u.valid
      keeps (initiates t' u e) = rw e (
          format_initiation-Keeps c t' (afterwards m) true u.valid
            (omega (arith, u.current, u.started, f.second)))
      keeps (keeps_alive t' u e) = rw e (
          encapsulate-Keeps c t' [] (afterwards m) u.valid
            (omega (arith, u.current, u.started, f.second)))
