-- ===== src/Session/Link.antt =====
-- Whole runs of two sessions over a network that drops, reorders and repeats packets.
use pq_boringtun.Base.{ℕ, ◌+◌, ◌^◌, ◌<◌, ◌≡◌, refl, arith, List, [], ◌∷◌}
use pq_boringtun.Base.{true, false, Bool-cases, inl, inr, All, if◌then◌else◌}
use pq_boringtun.Base.Bytes.{Bytes}
use pq_boringtun.Errors.{is_ok, is_ok-true}
use pq_boringtun.Aead.{Aead}
use pq_boringtun.Packet.{PacketData}
use pq_boringtun.Replay.{n_bits}
use pq_boringtun.Replay.Spec.{History, member, Distinct}
use pq_boringtun.Replay.Refine.{Tracks, fresh-Tracks}
use pq_boringtun.Replay.Delivery.{marked_new}
use pq_boringtun.Session.{Session, new, receive_packet_data}
use pq_boringtun.Session.Receive.{receive_refused, receive_accepted}

module _ (a : Aead) (dst : Bytes) where
  -- The session after all of the packets, and the counters of those that were accepted.
  pub receive_all : Session → List PacketData → Session × List ℕ
  receive_all s [] = (s, [])
  receive_all s (p ∷ ps) =
      let (s', ret) = receive_packet_data a s p dst in
      let (s'', got) = receive_all s' ps in (s'', if is_ok ret then p.counter ∷ got else got)

  receive_all-Distinct :
      (ps : List PacketData) (s : Session) {h : History}
      → Tracks s.receiving_key_counter h
      → All (λ p. p.counter + n_bits < 2 ^ 64) ps
      → Distinct (receive_all s ps).1
        × ((c : ℕ) → member c h ≡ true → member c (receive_all s ps).1 ≡ false)
  unfolding receive_all
  receive_all-Distinct [] s t w = (tt, λ c m. refl)
  receive_all-Distinct (p ∷ ps) s {h} t w =
      elim (Bool-cases (is_ok (receive_packet_data a s p dst).1)) [
        | inl good ↦
            let (text, e) = is_ok-true _ good in
            let (next, marked, _, _) = receive_accepted a s p dst e in
            let (new, t') = marked_new t p.counter w.0 marked in
            let (apart, older) =
              receive_all-Distinct ps (receive_packet_data a s p dst).0 {h = p.counter ∷ h}
                (rw next t') w.1 in
            rw good
              ((older p.counter (ground arith), apart), λ c m. ground (arith, older c, new, m))
        | inr bad ↦
            let same = receive_refused a s p dst bad in
            rw bad (receive_all-Distinct ps (receive_packet_data a s p dst).0 (rw same t) w.1)
      ]

  -- A new session accepts no counter twice, whatever packets the network delivers, forged ones
  -- included, in whatever order and however often, with counters below 2^64 - 1024.
  pub receive_all_no_replay :
      (local_index peer_index : ℕ) (receiving_key sending_key : Bytes) (ps : List PacketData)
      → All (λ p. p.counter + n_bits < 2 ^ 64) ps
      → Distinct (receive_all (new local_index peer_index receiving_key sending_key) ps).1
  unfolding new
  receive_all_no_replay l q r k ps w = (receive_all-Distinct ps (new l q r k) fresh-Tracks w).0
