-- ===== src/Tests/Session.antt =====
-- Two sessions with matching keys.
use pq_boringtun.Base.{ℕ, ◌+◌, ◌≡◌, refl, arith, List, [], ◌∷◌, ◌++◌, map, replicate, length, drop}
use pq_boringtun.Base.Bytes.{Bytes}
use pq_boringtun.Errors.{ok, panics}
use pq_boringtun.Replay.{add64}
use pq_boringtun.Replay.Spec.{Distinct}
use pq_boringtun.Packet.{PacketData, transport}
use pq_boringtun.Packet.Format.{format}
use pq_boringtun.Session.{Session, Sent, new, format_packet_data, receive_packet_data}
use pq_boringtun.Session.Send.{IsDataPacket, format_packet_data_lem, format_packet_data_small}
use pq_boringtun.Session.Receive.{receive_refused}
use pq_boringtun.Session.Link.{receive_all, receive_all_no_replay}
use pq_boringtun.Session.EndToEnd.{Flight, receive_stream, send_all, receive_stream_reordered}
use pq_boringtun.Session.Transfer.{session_transfer}
use pq_boringtun.Tests.Cipher.{plain, plain_laws}

abbrev key_one : Bytes
key_one = replicate 32 1

abbrev key_two : Bytes
key_two = replicate 32 2

-- Alice has index 3, Bob index 4.
abbrev alice : Session
alice = new 3 4 key_two key_one

abbrev bob : Session
bob = new 4 3 key_one key_two

abbrev room : Bytes
room = replicate 64 0

abbrev hello : Bytes
hello = 104 ∷ 105 ∷ []

abbrev sealed : ℕ → PacketData
sealed n = record {
  receiver_idx = 4;
  counter = n;
  encrypted_encapsulated_packet = hello ++ replicate 16 0;
}

format_packet_data_lem_example :
    (out : Sent) × (format_packet_data plain alice hello room ≡ ok out)
    × IsDataPacket plain alice.sender alice.sending_index alice.sending_key_counter hello out.packet
    × (length out.packet ≡ 2 + 32)
    × (out.session ≡ record alice { sending_key_counter = add64 alice.sending_key_counter 1 })
    × (out.buffer ≡ out.packet ++ drop (2 + 32) room)
format_packet_data_lem_example =
    format_packet_data_lem plain 65535 plain_laws alice hello room (omega arith) (omega arith)

format_packet_data_small_example : format_packet_data plain alice hello hello ≡ panics
format_packet_data_small_example = format_packet_data_small plain alice hello hello (omega arith)

receive_refused_example : (receive_packet_data plain alice (sealed 0) room).0 ≡ alice
unfolding new
receive_refused_example =
    receive_refused plain alice (sealed 0) room (unfold receive_packet_data in refl)

receive_all_no_replay_example :
    Distinct (receive_all plain room bob (sealed 1 ∷ sealed 0 ∷ sealed 1 ∷ [])).1
receive_all_no_replay_example =
    receive_all_no_replay plain room 4 3 key_one key_two (sealed 1 ∷ sealed 0 ∷ sealed 1 ∷ [])
      (omega arith)

session_transfer_example :
    (after : Session) × (packets : List Bytes) × (send_all plain room alice
        (hello ∷ [] ∷ hello ∷ [])
      ≡ ok (after, packets))
    × ((receive_stream plain room bob packets).1 ≡ hello ∷ [] ∷ hello ∷ [])
session_transfer_example =
    session_transfer plain 65535 plain_laws room 3 4 key_one key_two (hello ∷ [] ∷ hello ∷ [])
      (omega arith) (omega arith) (omega arith)

abbrev flight : ℕ → Flight
flight n = record { counter = n; payload = hello; packet = format (transport (sealed n)) [] }

flight_sealed : (n : ℕ) → IsDataPacket plain key_one 4 n hello (flight n).packet
flight_sealed n = record {
  ciphertext = hello;
  tag = replicate 16 0;
  sealed = refl;
  size = refl;
  bytes = refl;
}

receive_stream_reordered_example :
    (receive_stream plain room bob (map (λ f. f.packet) (flight 1 ∷ flight 0 ∷ []))).1
    ≡ hello ∷ hello ∷ []
receive_stream_reordered_example =
    receive_stream_reordered plain 65535 plain_laws room 4 3 0 1024 key_one key_two
      (flight 1 ∷ flight 0 ∷ []) (omega arith) (omega arith) (omega arith)
      (
        (flight_sealed 1, omega arith, omega arith, omega arith),
        ((flight_sealed 0, omega arith, omega arith, omega arith), tt),
      )
      (ground arith, (ground arith, tt))
