-- ===== src/Session/Transfer.antt =====
-- Two new sessions with matching keys and indices: everything that one sends, the other receives.
use mathlib.Core.Path.{subst}
use pq_boringtun.Base.{ℕ, ◌+◌, ◌^◌, ◌≤◌, ◌<◌, ◌≡◌, refl, sym, ap, ◌∙◌, arith, List, [], ◌∷◌, map}
use pq_boringtun.Base.{false, length, length-map, All}
use pq_boringtun.Base.Bytes.{Bytes}
use pq_boringtun.Errors.{ok}
use pq_boringtun.Aead.{Aead, AeadLaws}
use pq_boringtun.Replay.{n_bits}
use pq_boringtun.Replay.Spec.{member, Distinct}
use pq_boringtun.Session.{Session, new}
use pq_boringtun.Session.Send.{IsDataPacket}
use pq_boringtun.Session.EndToEnd.{Flight, receive_stream, receive_stream_reordered, send_all}
use pq_boringtun.Session.EndToEnd.{Consecutive, send_all-Transfer}

-- Consecutive counters are apart.
member-Consecutive :
    (fs : List Flight) (c k : ℕ)
    → c < k
    → Consecutive k fs
    → member c (map (λ f. f.counter) fs) ≡ false
member-Consecutive [] c k p h = refl
member-Consecutive (f ∷ fs) c k p h =
    ground (arith, h.0, member-Consecutive fs c (k + 1) (omega arith) h.1)

Consecutive-Distinct :
    (fs : List Flight) (k : ℕ) → Consecutive k fs → Distinct (map (λ f. f.counter) fs)
Consecutive-Distinct [] k h = tt
Consecutive-Distinct (f ∷ fs) k h =
    (member-Consecutive fs f.counter (k + 1) (omega arith) h.1, Consecutive-Distinct fs (k + 1) h.1)

module _ (a : Aead) (key dst : Bytes) (index lo hi limit : ℕ) where
  in_flight :
      (fs : List Flight) (k : ℕ)
      → lo ≤ k
      → k + length fs ≤ hi
      → Consecutive k fs
      → All (λ f. IsDataPacket a key index f.counter f.payload f.packet) fs
      → All (λ src. (length src ≤ limit) × (length src + 32 ≤ length dst)) (map (λ f. f.payload) fs)
      → All
          (λ f.
            IsDataPacket a key index f.counter f.payload f.packet
            × (lo ≤ f.counter)
            × (f.counter < hi)
            × (length f.payload + 16 ≤ length dst))
          fs
  in_flight [] k p q c s w = tt
  in_flight (f ∷ fs) k p q c s w = (
    (s.0, omega arith, omega arith, omega arith),
    in_flight fs (k + 1) (omega arith) (omega arith) c.1 s.1 w.1,
  )

-- Two new sessions, the sender's key and peer index those of the receiver: up to 1024 payloads
-- that fit the buffers and the cipher are all sealed, and the receiver gets exactly these
-- payloads, in order.
pub session_transfer :
    (a : Aead) (limit : ℕ) (laws : AeadLaws a limit) (dst : Bytes) (alice bob : ℕ)
    (key reply_key : Bytes) (srcs : List Bytes)
    → bob < 2 ^ 32
    → length srcs ≤ n_bits
    → All (λ src. (length src ≤ limit) × (length src + 32 ≤ length dst)) srcs
    → (after : Session) × (packets : List Bytes) × (send_all a dst
          (new alice bob reply_key key)
          srcs
        ≡ ok (after, packets))
      × ((receive_stream a dst (new bob alice key reply_key) packets).1 ≡ srcs)
unfolding new
session_transfer a limit laws dst alice bob key reply_key srcs fits few w =
    let t = send_all-Transfer a limit laws dst srcs (new alice bob reply_key key) w (omega arith) in
    let count : length t.flights ≡ length srcs =
      sym (length-map (λ f. f.payload) t.flights) ∙ ap length t.payloads in
    let w' =
      subst (λ xs. All (λ src. (length src ≤ limit) × (length src + 32 ≤ length dst)) xs)
        (sym t.payloads) w in
    let ready =
      in_flight a key dst bob 0 n_bits limit t.flights 0 (omega arith) (omega arith) t.counters
        t.sealed w' in
    (
      t.after,
      map (λ f. f.packet) t.flights,
      t.returns,
      receive_stream_reordered a limit laws dst bob alice 0 n_bits key reply_key t.flights fits
            (omega arith) (omega arith) ready (Consecutive-Distinct t.flights 0 t.counters)
          ∙ t.payloads,
    )
