-- ===== src/Tests/Packet.antt =====
-- Messages as bytes.
use pq_boringtun.Base.{◌≡◌, refl, ap, arith, [], ◌∷◌, replicate, slice}
use pq_boringtun.Base.Bytes.{Bytes, from_le}
use pq_boringtun.Errors.{ok, err, invalid_packet}
use pq_boringtun.Packet.{Packet, parse_incoming_packet, sub_slice, read_data}
use pq_boringtun.Packet.Format.{format}
use pq_boringtun.Packet.Sound.{IsFormatOf, parse-IsFormatOf, parse_rejects}
use pq_boringtun.Packet.Complete.{parse-format}

-- A data packet to index 7 with counter 513.
abbrev datagram : Bytes
datagram = 4 ∷ 0 ∷ 0 ∷ 0 ∷ 7 ∷ 0 ∷ 0 ∷ 0 ∷ 1 ∷ 2 ∷ 0 ∷ 0 ∷ 0 ∷ 0 ∷ 0 ∷ 0 ∷ replicate 16 9

abbrev data_packet : Packet
data_packet =
    Packet.transport
      (record { receiver_idx = 7; counter = 513; encrypted_encapsulated_packet = replicate 16 9 })

parse_data : parse_incoming_packet datagram ≡ ok data_packet
unfolding parse_incoming_packet slice from_le sub_slice read_data
parse_data = refl

-- A reserved byte that is not zero makes another type.
parse_reserved : parse_incoming_packet (4 ∷ 1 ∷ replicate 30 0) ≡ err invalid_packet
unfolding parse_incoming_packet slice from_le sub_slice
parse_reserved = refl

parse-IsFormatOf_example : IsFormatOf datagram data_packet
parse-IsFormatOf_example = parse-IsFormatOf datagram data_packet (omega arith) parse_data

abbrev response : Packet
response = Packet.response (record {
  sender_idx = 66051;
  receiver_idx = 7;
  unencrypted_ephemeral = replicate 32 1;
  encrypted_nothing = replicate 16 2;
})

parse-format_example : parse_incoming_packet (format response (replicate 32 3)) ≡ ok response
parse-format_example = parse-format response (replicate 32 3) (omega arith) refl

abbrev short : Bytes
short = 1 ∷ 0 ∷ 0 ∷ []

parse_short : parse_incoming_packet short ≡ err invalid_packet
unfolding parse_incoming_packet
parse_short = refl

short_is_no_message : (p : Packet) → ¬ IsFormatOf short p
short_is_no_message p (rest, e, len, well) =
    let parsed = parse-format p rest well len in
    let same = ap parse_incoming_packet e in cc parse_short

parse_rejects_example : parse_incoming_packet short ≡ err invalid_packet
parse_rejects_example = parse_rejects short (omega arith) short_is_no_message
