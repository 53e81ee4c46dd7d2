-- ===== src/Tunnel/Valid.antt =====
-- The invariant of a tunnel, and that its small operations keep it.
use pq_boringtun.Base.{
  ℕ, ◌%◌, ◌≤◌, ◌≡◌, arith, Bool, [], ◌∷◌, length, length-append, Option, none, some, inl, inr, ltb,
  leb, ◌==◌, if_both, Option-cases,
}
use pq_boringtun.Base.Bytes.{Bytes}
use pq_boringtun.Errors.{ok}
use pq_boringtun.Aead.{Aead}
use pq_boringtun.Session.{Session, Sent, format_packet_data, receive_packet_data}
use pq_boringtun.Packet.{PacketData}
use pq_boringtun.Timers.{TimerName, time_current, time_session_established, elapsed}
use pq_boringtun.Timers.Timely.{IsTimely, clear-IsTimely, timer_tick-IsTimely}
use pq_boringtun.Tunnel.{
  Tunn, Moment, store, n_sessions, max_queue_depth, tick, tick_session_established,
  set_current_session, queue_packet, requeue_packet, clear_all,
}

-- A session is in the slot that its index names.
abbrev pub IsPlaced : (ℕ → Option Session) → Type 0
IsPlaced sessions =
    (slot : ℕ) (s : Session) → sessions slot ≡ some s → s.receiving_index % n_sessions ≡ slot

pub record IsValid (t : Tunn) : Type 0 where
  pub queue : length t.packet_queue ≤ max_queue_depth
  pub placed : IsPlaced t.sessions
  pub timely : IsTimely t.timers

-- The clock has not gone back since the tunnel's current time was set.
pub record IsForward (t : Tunn) (m : Moment) : Type 0 where
  pub first : t.timers.timers time_current ≤ elapsed t.timers m.now
  pub second : m.now ≤ m.later

-- A session keeps its index as it is used.
pub format_packet_data_index :
    (a : Aead) (s : Session) (src dst : Bytes) (out : Sent)
    → format_packet_data a s src dst ≡ ok out
    → out.session.receiving_index ≡ s.receiving_index
unfolding format_packet_data
format_packet_data_index a s src dst out e = ground arith

pub receive_packet_data_index :
    (a : Aead) (s : Session) (p : PacketData) (dst : Bytes)
    → (receive_packet_data a s p dst).0.receiving_index ≡ s.receiving_index
unfolding receive_packet_data
receive_packet_data_index a s p dst = ground arith

pub store-IsPlaced :
    (sessions : ℕ → Option Session) (slot : ℕ) (s : Session)
    → IsPlaced sessions
    → s.receiving_index % n_sessions ≡ slot
    → IsPlaced (store sessions slot (some s))
store-IsPlaced sessions slot s v h other s' e = ground (arith, v other s')

pub empty-IsPlaced :
    (sessions : ℕ → Option Session) (slot : ℕ)
    → IsPlaced sessions
    → IsPlaced (store sessions slot none)
empty-IsPlaced sessions slot v other s' e = ground (arith, v other s')

module _ (t : Tunn) (v : IsValid t) where
  pub tick-IsValid : (name : TimerName) → IsValid (tick t name)
  tick-IsValid name = record {
    queue = v.queue;
    placed = v.placed;
    timely = timer_tick-IsTimely t.timers name v.timely;
  }

  pub store-IsValid :
      (slot : ℕ) (s : Session)
      → s.receiving_index % n_sessions ≡ slot
      → IsValid (record t { sessions = store t.sessions slot (some s) })
  store-IsValid slot s h = record {
    queue = v.queue;
    placed = store-IsPlaced t.sessions slot s v.placed h;
    timely = v.timely;
  }

  pub tick_session_established-IsValid :
      (initiator : Bool) (index : ℕ) → IsValid (tick_session_established t initiator index)
  unfolding tick_session_established
  tick_session_established-IsValid initiator index =
      let ticked = timer_tick-IsTimely t.timers time_session_established v.timely in
      record {
        queue = v.queue;
        placed = v.placed;
        timely = record { named = ticked.named; slots = λ slot. ground (arith, ticked.slots slot) };
      }

  pub set_current_session-IsValid : (index : ℕ) → IsValid (set_current_session t index)
  unfolding set_current_session
  set_current_session-IsValid index =
      let moved : IsValid (record t { current = index }) = record {
        queue = v.queue;
        placed = v.placed;
        timely = v.timely;
      } in
      if_both IsValid (t.current == index) _ _ (λ same. v)
        λ other. elim (Option-cases (t.sessions (t.current % n_sessions))) [
          | inl empty ↦ rw empty moved
          | inr (s, full) ↦ rw full (
              if_both IsValid
                (leb (t.timers.session_timers (t.current % n_sessions))
                  (t.timers.session_timers (index % n_sessions)))
                _ _ (λ newer. moved) (λ older. v))
        ]

  pub queue_packet-IsValid : (packet : Bytes) → IsValid (queue_packet t packet)
  unfolding queue_packet
  queue_packet-IsValid packet =
      if_both IsValid (ltb (length t.packet_queue) max_queue_depth) _ _
        (λ room. record {
          queue = ground (arith, length-append t.packet_queue (packet ∷ []));
          placed = v.placed;
          timely = v.timely;
        })
        (λ full. v)

  pub requeue_packet-IsValid : (packet : Bytes) → IsValid (requeue_packet t packet)
  unfolding requeue_packet
  requeue_packet-IsValid packet =
      if_both IsValid (ltb (length t.packet_queue) max_queue_depth) _ _
        (λ room. record { queue = ground arith; placed = v.placed; timely = v.timely }) (λ full. v)

  pub clear_all-IsValid :
      (now : ℕ) → t.timers.timers time_current ≤ elapsed t.timers now → IsValid (clear_all t now)
  unfolding clear_all
  clear_all-IsValid now h = record {
    queue = omega arith;
    placed = λ slot s e. cc;
    timely = clear-IsTimely t.timers now v.timely h;
  }
