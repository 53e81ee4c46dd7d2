-- ===== src/Tunnel/Update.antt =====
-- The periodic work of a tunnel: `Tunn::update_timers` and what it calls, of
-- boringtun/src/noise/timers.rs.
use pq_boringtun.Base.{
  ℕ, zero, suc, ◌+◌, ◌-◌, ◌*◌, ◌%◌, ◌^◌, Bool, true, false, ◌&&◌, ◌||◌, ◌==◌, ltb, leb,
  if◌then◌else◌, [], Option, none, some,
}
use pq_boringtun.Errors.{Result, ok, ◌>>=◌, connection_expired}
use pq_boringtun.Crypto.{Crypto}
use pq_boringtun.RateLimiter.{reset_count}
use pq_boringtun.Handshake.{is_expired, has_cookie, clear_cookie, set_expired, timer}
use pq_boringtun.Timers.{
  Timers, seconds, since, timer_tick, set_timer, elapsed, time_current, time_session_established,
  time_last_handshake_started,
}
use pq_boringtun.Timers.{
  time_last_packet_received, time_last_packet_sent, time_last_data_packet_received,
  time_last_data_packet_sent, time_cookie_received, time_persistent_keepalive,
}
use pq_boringtun.Timers.{
  rekey_after_time, reject_after_time, rekey_attempt_time, rekey_timeout, keepalive_timeout,
  cookie_expiration_time,
}
use pq_boringtun.Tunnel.{Tunn, TunnResult, done, failed, Moment, store, n_sessions, clear_all}
use pq_boringtun.Tunnel.Encapsulate.{format_initiation, encapsulate}
use pq_boringtun.Tunnel.Decapsulate.{finish}

-- `now - start >= limit`
unfoldable pub reached : ℕ → ℕ → ℕ → Result Bool
reached now start limit = since now start >>= λ age. ok (leb limit age)

-- `test && ...`, where the right side may panic.
abbrev pub when : Bool → Result Bool → Result Bool
when true r = r
when false r = ok false

-- A pass of the loop of `Tunn::update_session_timers`.
unfoldable pub expire_slot : Tunn → ℕ → ℕ → Result Tunn
expire_slot t slot time_now = since time_now (t.timers.session_timers slot) >>= λ age. ok (
    if ltb reject_after_time age
    then record t {
      sessions = store t.sessions slot none;
      timers = record (t.timers) {
        session_timers = λ other. if other == slot then time_now else t.timers.session_timers other;
      };
    }
    else t)

-- `Tunn::update_session_timers` over the first slots.
unfoldable pub expire_slots : ℕ → Tunn → ℕ → Result Tunn
expire_slots zero t time_now = ok t
expire_slots (suc slot) t time_now =
    expire_slots slot t time_now >>= λ t'. expire_slot t' slot time_now

-- The cookie is dropped after its time.
unfoldable pub drop_cookie : Tunn → ℕ → Result Tunn
drop_cookie t now =
    when (has_cookie t.handshake)
      (reached now (t.timers.timers time_cookie_received) cookie_expiration_time)
    >>= λ old. ok (if old then record t { handshake = clear_cookie t.handshake } else t)

-- The connection is given up.
unfoldable pub expire_connection : Tunn → ℕ → Tunn × TunnResult
expire_connection t now =
    (clear_all (record t { handshake = set_expired t.handshake }) now, failed connection_expired)

-- The initiator of an old session wants a new one, after data has passed through it.
unfoldable pub rekey_due : Timers → ℕ → Result Bool
rekey_due t now =
    let established = t.timers time_session_established in
    if t.is_initiator
    then (when (ltb established (t.timers time_last_data_packet_sent))
          (reached now established rekey_after_time)
        >>= λ on_send.
            when (ltb established (t.timers time_last_data_packet_received))
              (reached now established (reject_after_time - keepalive_timeout - rekey_timeout))
            >>= λ on_receive. ok (on_send || on_receive))
    else ok false

-- So does a party that has sent data and heard nothing; `mem::replace` of `want_handshake`.
unfoldable pub handshake_due : Timers → ℕ → Result (Timers × Bool)
handshake_due t now = rekey_due t now >>= λ rekey.
    let heard = t.timers time_last_packet_received in
    when (ltb heard (t.timers time_last_data_packet_sent))
      (reached now heard (keepalive_timeout + rekey_timeout))
    >>= λ silent.
        if silent
        then ok (record t { want_handshake = false }, rekey || t.want_handshake)
        else ok (t, rekey)

-- A party that has received data and sent nothing, or has a persistent keepalive, keeps alive.
unfoldable pub keepalive_due : Timers → ℕ → Result (Timers × Bool)
keepalive_due t now =
    let sent = t.timers time_last_packet_sent in
    when (ltb sent (t.timers time_last_data_packet_received)) (reached now sent keepalive_timeout)
    >>= λ idle.
        let t1 : Timers = if idle then record t { want_keepalive = false } else t in
        when (ltb 0 t.persistent_keepalive)
          (reached now (t.timers time_persistent_keepalive) (seconds t.persistent_keepalive))
        >>= λ persistent. ok (
          if persistent then timer_tick t1 time_persistent_keepalive else t1,
          idle && t.want_keepalive || persistent,
        )

-- `Tunn::time_since_last_handshake`
unfoldable pub time_since_last_handshake : Tunn → ℕ → Result (Option ℕ)
time_since_last_handshake t now = elim (t.sessions (t.current % n_sessions)) [
  | none ↦ ok none
  | some s ↦ since (elapsed t.timers now) (t.timers.timers time_session_established) >>= λ age.
      ok (some age)
]

-- `Tunn::persistent_keepalive`
unfoldable pub persistent_keepalive : Tunn → Option ℕ
persistent_keepalive t =
    if ltb 0 t.timers.persistent_keepalive
    then some (t.timers.persistent_keepalive % 2 ^ 16)
    else none

module _ (c : Crypto) where
  -- A handshake waits for its response since `time_init_sent`.
  unfoldable pub update_waiting : Tunn → ℕ → Moment → ℕ → Tunn × TunnResult
  update_waiting t now m time_init_sent =
      finish t (reached now (t.timers.timers time_last_handshake_started) rekey_attempt_time)
        λ gave_up.
          if gave_up
          then expire_connection t m.later
          else if leb rekey_timeout (m.later - time_init_sent)
          then format_initiation c t (record m { now = m.later }) true
          else (t, done)

  -- No handshake waits.
  unfoldable pub update_quiet : Tunn → ℕ → Moment → Tunn × TunnResult
  update_quiet t now m = finish t (handshake_due t.timers now) λ r.
      let t1 = record t { timers = r.0 } in
      if r.1
      then format_initiation c t1 (record m { now = m.later }) true
      else finish t1 (keepalive_due t1.timers now) λ k.
        let t2 = record t1 { timers = k.0 } in
        if k.1 then encapsulate c t2 [] (record m { now = m.later }) else (t2, done)

  -- `Tunn::update_timers` once the sessions have been looked at.
  unfoldable pub update_handshake : Tunn → ℕ → Moment → Tunn × TunnResult
  update_handshake t now m =
      if is_expired t.handshake
      then (t, failed connection_expired)
      else finish t (drop_cookie t now) λ t1.
        finish t1 (reached now (t1.timers.timers time_session_established) (3 * reject_after_time))
          λ old. if old then expire_connection t1 m.later else elim (timer t1.handshake) [
            | some time_init_sent ↦ update_waiting t1 now m time_init_sent
            | none ↦ update_quiet t1 now m
          ]

  -- The start of `Tunn::update_timers`: the limiter's count and the current time.
  unfoldable pub begin_update : Tunn → Moment → Tunn
  begin_update t m =
      let limiter =
        if t.timers.should_reset_rr then reset_count t.rate_limiter m.now else t.rate_limiter in
      record t {
        rate_limiter = limiter;
        timers = set_timer t.timers time_current (elapsed t.timers m.now);
      }

  -- `Tunn::update_timers`
  unfoldable pub update_timers : Tunn → Moment → Tunn × TunnResult
  update_timers t m =
      let now = elapsed t.timers m.now in
      let t1 = begin_update t m in
      finish t1 (expire_slots n_sessions t1 now) λ t2. update_handshake t2 now m
