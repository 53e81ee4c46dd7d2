-- ===== src/Tunnel/Reach.antt =====
-- The states that a tunnel can be in: any calls of its operations, one after another.
use pq_boringtun.Base.{ℕ, arith, Bool, true, false, Option, inl, inr, if◌then◌else◌}
use pq_boringtun.Base.Bytes.{Bytes}
use pq_boringtun.Errors.{Result-cases}
use pq_boringtun.Crypto.{Crypto}
use pq_boringtun.Handshake.{TimeStamper}
use pq_boringtun.Handshake.Completion.{set_static_private}
use pq_boringtun.RateLimiter.{RateLimiter, IpAddr}
use pq_boringtun.Timers.Timely.{IsTimely, new_timers-IsTimely}
use pq_boringtun.Tunnel.{Tunn, Moment, new_tunn, set_tunn_private}
use pq_boringtun.Tunnel.Encapsulate.{encapsulate, format_initiation}
use pq_boringtun.Tunnel.Decapsulate.{decapsulate}
use pq_boringtun.Tunnel.Update.{update_timers}
use pq_boringtun.Tunnel.Valid.{IsValid, IsForward}
use pq_boringtun.Tunnel.Keeps.{encapsulate-Keeps, format_initiation-Keeps}
use pq_boringtun.Tunnel.Received.{decapsulate-Keeps}
use pq_boringtun.Tunnel.Updated.{update_timers-Keeps}

-- A call of an operation from outside, at a moment when the clock has not gone back.
pub data Step (c : Crypto) : Tunn → Tunn → Type 0 where
  encapsulates :
      (t : Tunn) (src : Bytes) (m : Moment) → IsForward t m → Step c t (encapsulate c t src m).0
  decapsulates :
      (t : Tunn) (src_addr : Option IpAddr) (datagram : Bytes) (m : Moment)
      → IsForward t m
      → Step c t (decapsulate c t src_addr datagram m).0
  initiates :
      (t : Tunn) (m : Moment) (force : Bool)
      → IsForward t m
      → Step c t (format_initiation c t m force).0
  updates : (t : Tunn) (m : Moment) → IsForward t m → Step c t (update_timers c t m).0
  sets_private :
      (t : Tunn) (static_private static_public : Bytes) (limiter : RateLimiter) (given : Bool)
      → Step c t (set_tunn_private c t static_private static_public limiter given).0

-- Calls, one after another.
pub data Reach (c : Crypto) (s : Tunn) : Tunn → Type 0 where
  starts : Reach c s s
  calls : {t u : Tunn} → Reach c s t → Step c t u → Reach c s u

module _ (c : Crypto) where
  new_tunn-IsValid :
      (static_private peer_public : Bytes) (psk : Option Bytes) (keepalive index : ℕ)
      (limiter : RateLimiter) (given : Bool) (stamper : TimeStamper) (now : ℕ)
      → IsValid
          (new_tunn c static_private peer_public psk keepalive index limiter given stamper now)
  unfolding new_tunn
  new_tunn-IsValid static_private peer_public psk keepalive index limiter given stamper now =
      record {
        queue = omega arith;
        placed = λ slot s e. cc;
        timely = new_timers-IsTimely keepalive (if given then false else true) now;
      }

  set_tunn_private-IsValid :
      (t : Tunn) (static_private static_public : Bytes) (limiter : RateLimiter) (given : Bool)
      → IsValid t
      → IsValid (set_tunn_private c t static_private static_public limiter given).0
  unfolding set_tunn_private
  set_tunn_private-IsValid t static_private static_public limiter given v =
      let timely : IsTimely
          (record (t.timers) { should_reset_rr = if given then false else true }) =
        record { named = v.timely.named; slots = v.timely.slots } in
      elim (Result-cases (set_static_private c t.handshake static_private static_public)) [
        | inl (h, e) ↦
            rw (set_tunn_private, e)
              (record { queue = v.queue; placed = λ slot s some_session. cc; timely = timely })
        | inr (inl (reason, e)) ↦
            rw (set_tunn_private, e)
              (record { queue = v.queue; placed = v.placed; timely = timely })
        | inr (inr e) ↦
            rw (set_tunn_private, e)
              (record { queue = v.queue; placed = v.placed; timely = timely })
      ]

  Step-IsValid : {t u : Tunn} → Step c t u → IsValid t → IsValid u
  Step-IsValid (encapsulates t src m f) v = encapsulate-Keeps c t src m v f.first
  Step-IsValid (decapsulates t src_addr datagram m f) v =
      decapsulate-Keeps c t src_addr datagram m v f.first
  Step-IsValid (initiates t m force f) v = format_initiation-Keeps c t m force v f.first
  Step-IsValid (updates t m f) v = update_timers-Keeps c t m v f
  Step-IsValid (sets_private t static_private static_public limiter given) v =
      set_tunn_private-IsValid t static_private static_public limiter given v

  Reach-IsValid : {s t : Tunn} → IsValid s → Reach c s t → IsValid t
  Reach-IsValid v starts = v
  Reach-IsValid v (calls r step) = Step-IsValid step (Reach-IsValid v r)

  -- In every state that a new tunnel reaches by calls of its operations, with a clock that does not
  -- go back, the queue holds at most 256 packets, a session is in the slot that its index names,
  -- and no timer is ahead of the current time.
  pub tunnel-IsValid :
      (static_private peer_public : Bytes) (psk : Option Bytes) (keepalive index : ℕ)
      (limiter : RateLimiter) (given : Bool) (stamper : TimeStamper) (now : ℕ) (t : Tunn)
      → Reach c
          (new_tunn c static_private peer_public psk keepalive index limiter given stamper now)
          t
      → IsValid t
  tunnel-IsValid static_private peer_public psk keepalive index limiter given stamper now t r =
      Reach-IsValid
        (new_tunn-IsValid static_private peer_public psk keepalive index limiter given stamper now)
        r
