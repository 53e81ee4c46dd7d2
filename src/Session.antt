-- ===== src/Session.antt =====
-- `Session` of boringtun/src/noise/session.rs: sealing outgoing and opening incoming data packets.
pub mod Send
pub mod Receive
pub mod Link
pub mod EndToEnd
pub mod Transfer
use pq_boringtun.Base.{ℕ, ◌+◌, not, List, [], ◌∷◌, ◌++◌, Option, none, some, take, drop, length}
use pq_boringtun.Base.{replicate, ltb, ◌==◌, if◌then◌else◌}
use pq_boringtun.Base.Bytes.{Bytes, to_le}
use pq_boringtun.Errors.{
  Result, ok, err, panics, ◌>>=◌, ◌>>◌, unwrap, wrong_index, invalid_aead_tag,
}
use pq_boringtun.Aead.{Aead}
use pq_boringtun.Packet.{PacketData, data_type, data_overhead_sz}
use pq_boringtun.Replay.{Validator, fresh, add64, will_accept, receiving_counter_mark}

abbrev pub data_offset : ℕ
data_offset = 16

abbrev pub aead_size : ℕ
aead_size = 16

-- The keys are the bytes that `LessSafeKey` is made from.
pub record Session : Type 0 where
  pub receiving_index : ℕ
  pub sending_index : ℕ
  pub receiver : Bytes
  pub sender : Bytes
  pub sending_key_counter : ℕ
  pub receiving_key_counter : Validator

-- `Session::new`
unfoldable pub new : ℕ → ℕ → Bytes → Bytes → Session
new local_index peer_index receiving_key sending_key = record {
  receiving_index = local_index;
  sending_index = peer_index;
  receiver = receiving_key;
  sender = sending_key;
  sending_key_counter = 0;
  receiving_key_counter = fresh;
}

unfoldable pub local_index : Session → ℕ
local_index s = s.receiving_index

-- Four zero bytes and the counter.
unfoldable pub nonce_of : ℕ → Bytes
nonce_of counter = replicate 4 0 ++ to_le 8 counter

-- A returned slice, with the session and the whole destination buffer after the call.
pub record Sent : Type 0 where
  pub session : Session
  pub buffer : Bytes
  pub packet : Bytes

module _ (a : Aead) where
  -- The fields are copied to the front of `dst`, the sealed text and the tag behind them.
  unfoldable pub format_packet_data : Session → Bytes → Bytes → Result Sent
  format_packet_data s src dst =
      if ltb (length dst) (length src + data_overhead_sz)
      then panics
      else let counter = s.sending_key_counter in
        let body = drop 16 dst in
        unwrap (a.seal s.sender (nonce_of counter) [] src) >>= λ sealed.
        let n = length src + aead_size in
        let buffer =
          to_le 4 data_type
          ++ (to_le 4 s.sending_index
              ++ (to_le 8 counter ++ (sealed.0 ++ (sealed.1 ++ drop n body)))) in
        ok (record {
          session = record s { sending_key_counter = add64 counter 1 };
          buffer = buffer;
          packet = take (data_offset + n) buffer;
        })

  -- After decryption the counter is checked again, and marked.
  unfoldable pub accept : Session → PacketData → Bytes → Session × Result Bytes
  accept s packet text =
      let (v, ret) = receiving_counter_mark s.receiving_key_counter packet.counter in
      (record s { receiving_key_counter = v }, ret >> ok text)

  unfoldable pub decrypt : Session → PacketData → Session × Result Bytes
  unfolding accept
  decrypt s packet =
      elim (a.unseal s.receiver (nonce_of packet.counter) [] packet.encrypted_encapsulated_packet) [
        | none ↦ (s, err invalid_aead_tag)
        | some text ↦ accept s packet text
      ]

  -- The plaintext is returned in the front of `dst`; the rest of that buffer is scratch space.
  unfoldable pub receive_packet_data : Session → PacketData → Bytes → Session × Result Bytes
  unfolding decrypt
  receive_packet_data s packet dst =
      if ltb (length dst) (length packet.encrypted_encapsulated_packet)
      then (s, panics)
      else if not (packet.receiver_idx == s.receiving_index)
      then (s, err wrong_index)
      else elim (will_accept s.receiving_key_counter packet.counter) [
        | ok _ ↦ decrypt s packet
        | err e ↦ (s, err e)
        | panics ↦ (s, panics)
      ]

-- `current_packet_cnt`
unfoldable pub current_packet_cnt : Session → ℕ × ℕ
current_packet_cnt s = (s.receiving_key_counter.next, s.receiving_key_counter.receive_cnt)
