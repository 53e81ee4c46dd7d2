-- ===== src/Timers.antt =====
-- The timer table of boringtun/src/noise/timers.rs. Durations and instants are nanoseconds; an
-- array indexed by a name or a slot is a function.
pub mod Timely
use pq_boringtun.Base.{ℕ, ◌+◌, ◌-◌, ◌*◌, ◌^◌, Bool, true, false, ltb, leb, ◌==◌, if◌then◌else◌}
use pq_boringtun.Errors.{Result, ok, panics}

abbrev pub seconds : ℕ → ℕ
seconds n = n * 10 ^ 9

abbrev pub rekey_after_time : ℕ
rekey_after_time = seconds 120

abbrev pub reject_after_time : ℕ
reject_after_time = seconds 180

abbrev pub rekey_attempt_time : ℕ
rekey_attempt_time = seconds 90

abbrev pub rekey_timeout : ℕ
rekey_timeout = seconds 5

abbrev pub keepalive_timeout : ℕ
keepalive_timeout = seconds 10

abbrev pub cookie_expiration_time : ℕ
cookie_expiration_time = seconds 120

-- `TimerName`, without `Top`, which only counts the others.
pub data TimerName : Type 0 where
  time_current time_session_established time_last_handshake_started : TimerName
  time_last_packet_received time_last_packet_sent : TimerName
  time_last_data_packet_received time_last_data_packet_sent : TimerName
  time_cookie_received time_persistent_keepalive : TimerName

-- `index as usize`
abbrev pub number : TimerName → ℕ
number time_current = 0
number time_session_established = 1
number time_last_handshake_started = 2
number time_last_packet_received = 3
number time_last_packet_sent = 4
number time_last_data_packet_received = 5
number time_last_data_packet_sent = 6
number time_cookie_received = 7
number time_persistent_keepalive = 8

pub record Timers : Type 0 where
  pub is_initiator : Bool
  pub time_started : ℕ
  pub timers : TimerName → ℕ
  pub session_timers : ℕ → ℕ
  pub want_keepalive : Bool
  pub want_handshake : Bool
  pub persistent_keepalive : ℕ
  pub should_reset_rr : Bool

-- `Timers::new`; no persistent keepalive is 0.
unfoldable pub new_timers : ℕ → Bool → ℕ → Timers
new_timers persistent_keepalive reset_rr now = record {
  is_initiator = false;
  time_started = now;
  timers = λ name. 0;
  session_timers = λ slot. 0;
  want_keepalive = false;
  want_handshake = false;
  persistent_keepalive = persistent_keepalive;
  should_reset_rr = reset_rr;
}

-- `duration_since(time_started)`, which stops at 0.
abbrev pub elapsed : Timers → ℕ → ℕ
elapsed t now = now - t.time_started

-- `Timers::clear`
unfoldable pub clear : Timers → ℕ → Timers
clear t now = record t {
  timers = λ name. elapsed t now;
  want_handshake = false;
  want_keepalive = false;
}

-- `self.timers[name] = time`
abbrev pub set_timer : Timers → TimerName → ℕ → Timers
set_timer t name time = record t {
  timers = λ other. if number other == number name then time else t.timers other;
}

-- The first part of `Tunn::timer_tick`: what is wanted after a packet.
abbrev pub want : Timers → TimerName → Timers
want t time_last_packet_received = record t { want_keepalive = true; want_handshake = false }
want t time_last_packet_sent = record t { want_handshake = true; want_keepalive = false }
want t time_current = t
want t time_session_established = t
want t time_last_handshake_started = t
want t time_last_data_packet_received = t
want t time_last_data_packet_sent = t
want t time_cookie_received = t
want t time_persistent_keepalive = t

-- `Tunn::timer_tick`
unfoldable pub timer_tick : Timers → TimerName → Timers
timer_tick t name = set_timer (want t name) name (t.timers time_current)

-- Subtraction of durations panics below 0.
unfoldable pub since : ℕ → ℕ → Result ℕ
since now t = if ltb now t then panics else ok (now - t)
