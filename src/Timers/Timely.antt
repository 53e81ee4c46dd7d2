-- ===== src/Timers/Timely.antt =====
-- No timer is ahead of the current time, and what keeps it so.
use pq_boringtun.Base.{ℕ, ◌≤◌, ◌≡◌, refl, Bool, arith}
use pq_boringtun.Timers.{
  Timers, TimerName, time_current, new_timers, clear, elapsed, set_timer, timer_tick,
}

pub record IsTimely (t : Timers) : Type 0 where
  pub named : (name : TimerName) → t.timers name ≤ t.timers time_current
  pub slots : (slot : ℕ) → t.session_timers slot ≤ t.timers time_current

pub new_timers-IsTimely :
    (keepalive : ℕ) (reset : Bool) (now : ℕ) → IsTimely (new_timers keepalive reset now)
unfolding new_timers
new_timers-IsTimely keepalive reset now = record {
  named = λ name. omega arith;
  slots = λ slot. omega arith;
}

-- The timers are set to a time that is not before the current one.
pub clear-IsTimely :
    (t : Timers) (now : ℕ)
    → IsTimely t
    → t.timers time_current ≤ elapsed t now
    → IsTimely (clear t now)
unfolding clear
clear-IsTimely t now v h = record {
  named = λ name. omega arith;
  slots = λ slot. omega (arith, v.slots slot);
}

pub advance-IsTimely :
    (t : Timers) (now : ℕ)
    → IsTimely t
    → t.timers time_current ≤ now
    → IsTimely (set_timer t time_current now)
advance-IsTimely t now v h = record {
  named = λ name. ground (arith, v.named name);
  slots = λ slot. omega (arith, v.slots slot);
}

-- A tick sets a timer to the current time, and keeps that time.
pub timer_tick_current :
    (t : Timers) (name : TimerName)
    → (timer_tick t name).timers time_current ≡ t.timers time_current
unfolding timer_tick
timer_tick_current t time_current = refl
timer_tick_current t _ = refl

pub timer_tick_started :
    (t : Timers) (name : TimerName) → (timer_tick t name).time_started ≡ t.time_started
unfolding timer_tick
timer_tick_started t time_current = refl
timer_tick_started t _ = refl

pub timer_tick_slots :
    (t : Timers) (name : TimerName) (slot : ℕ)
    → (timer_tick t name).session_timers slot ≡ t.session_timers slot
unfolding timer_tick
timer_tick_slots t time_current slot = refl
timer_tick_slots t _ slot = refl

timer_tick-le :
    (t : Timers) (name other : TimerName)
    → IsTimely t
    → (timer_tick t name).timers other ≤ t.timers time_current
unfolding timer_tick
timer_tick-le t time_current other v = ground (arith, v.named other)
timer_tick-le t _ other v = ground (arith, v.named other)

pub timer_tick-IsTimely :
    (t : Timers) (name : TimerName) → IsTimely t → IsTimely (timer_tick t name)
timer_tick-IsTimely t name v = record {
  named = λ other. omega (arith, timer_tick_current t name, timer_tick-le t name other v);
  slots =
      λ slot. omega (arith, timer_tick_current t name, timer_tick_slots t name slot, v.slots slot);
}
