-- ===== src/Packet/Fields.antt =====
-- The fields of a message as parts of its datagram: what the arms of `parse_incoming_packet` read
-- when no slice is out of range.
use pq_boringtun.Base.{
  ℕ, ◌+◌, ◌-◌, ◌≤◌, ◌≡◌, refl, arith, length, take, drop, slice, le→leb, ap, ◌∙◌, [], ◌∷◌,
  length-drop,
}
use pq_boringtun.Base.Bytes.{Bytes, from_le}
use pq_boringtun.Errors.{ok}
use pq_boringtun.Packet
use pq_boringtun.Packet.{sub_slice}

take_whole : (xs : Bytes) → take (length xs) xs ≡ xs
take_whole [] = refl
take_whole (x ∷ xs) = ap (λ ys. x ∷ ys) (take_whole xs)

-- A slice that ends with the list.
slice_rest : (n : ℕ) (src : Bytes) → slice src n (length src) ≡ drop n src
unfolding slice
slice_rest n src =
    ap (λ k. take k (drop n src)) {x = length src - n} {y = length (drop n src)}
      (omega (arith, length-drop n src))
    ∙ take_whole (drop n src)

pub sub_slice_within :
    (src : Bytes) (from to : ℕ) → to ≤ length src → sub_slice src from to ≡ ok (slice src from to)
unfolding sub_slice
sub_slice_within src from to fits = rw (le→leb to (length src) fits)

unfoldable pub fields_of_init : Bytes → Packet.HandshakeInit
fields_of_init src = record {
  sender_idx = from_le (slice src 4 8);
  unencrypted_ephemeral = slice src 8 40;
  encrypted_static = slice src 40 88;
  encrypted_timestamp = slice src 88 116;
}

unfoldable pub fields_of_response : Bytes → Packet.HandshakeResponse
fields_of_response src = record {
  sender_idx = from_le (slice src 4 8);
  receiver_idx = from_le (slice src 8 12);
  unencrypted_ephemeral = slice src 12 44;
  encrypted_nothing = slice src 44 60;
}

unfoldable pub fields_of_cookie : Bytes → Packet.PacketCookieReply
fields_of_cookie src = record {
  receiver_idx = from_le (slice src 4 8);
  nonce = slice src 8 32;
  encrypted_cookie = slice src 32 64;
}

unfoldable pub fields_of_data : Bytes → Packet.PacketData
fields_of_data src = record {
  receiver_idx = from_le (slice src 4 8);
  counter = from_le (slice src 8 16);
  encrypted_encapsulated_packet = drop 16 src;
}

unfoldable pub fields_of_pq_init : Bytes → Packet.PqHandshakeInit
fields_of_pq_init src = record {
  sender_idx = from_le (slice src 4 8);
  unencrypted_ephemeral = slice src 8 40;
  encrypted_static = slice src 40 88;
  encrypted_timestamp = slice src 88 116;
  mlkem_ephemeral_public = slice src 116 (116 + Packet.mlkem768_pk_size);
}

unfoldable pub fields_of_pq_response : Bytes → Packet.PqHandshakeResponse
fields_of_pq_response src = record {
  sender_idx = from_le (slice src 4 8);
  receiver_idx = from_le (slice src 8 12);
  unencrypted_ephemeral = slice src 12 44;
  encrypted_nothing = slice src 44 60;
  mlkem_ciphertext = slice src 60 (60 + Packet.mlkem768_ct_size);
}

pub read_init_within :
    (src : Bytes) → 116 ≤ length src → Packet.read_init src ≡ ok (fields_of_init src)
unfolding Packet.read_init fields_of_init
read_init_within src fits = rw (
  sub_slice_within src 4 8 (omega arith),
  sub_slice_within src 8 40 (omega arith),
  sub_slice_within src 40 88 (omega arith),
  sub_slice_within src 88 116 (omega arith),
)

pub read_response_within :
    (src : Bytes) → 60 ≤ length src → Packet.read_response src ≡ ok (fields_of_response src)
unfolding Packet.read_response fields_of_response
read_response_within src fits = rw (
  sub_slice_within src 4 8 (omega arith),
  sub_slice_within src 8 12 (omega arith),
  sub_slice_within src 12 44 (omega arith),
  sub_slice_within src 44 60 (omega arith),
)

pub read_cookie_within :
    (src : Bytes) → 64 ≤ length src → Packet.read_cookie src ≡ ok (fields_of_cookie src)
unfolding Packet.read_cookie fields_of_cookie
read_cookie_within src fits = rw (
  sub_slice_within src 4 8 (omega arith),
  sub_slice_within src 8 32 (omega arith),
  sub_slice_within src 32 64 (omega arith),
)

pub read_pq_init_within :
    (src : Bytes) → 1300 ≤ length src → Packet.read_pq_init src ≡ ok (fields_of_pq_init src)
unfolding Packet.read_pq_init fields_of_pq_init
read_pq_init_within src fits = rw (
  sub_slice_within src 4 8 (omega arith),
  sub_slice_within src 8 40 (omega arith),
  sub_slice_within src 40 88 (omega arith),
  sub_slice_within src 88 116 (omega arith),
  sub_slice_within src 116 1300 (omega arith),
)

pub read_pq_response_within :
    (src : Bytes) → 1148 ≤ length src → Packet.read_pq_response src ≡ ok (fields_of_pq_response src)
unfolding Packet.read_pq_response fields_of_pq_response
read_pq_response_within src fits = rw (
  sub_slice_within src 4 8 (omega arith),
  sub_slice_within src 8 12 (omega arith),
  sub_slice_within src 12 44 (omega arith),
  sub_slice_within src 44 60 (omega arith),
  sub_slice_within src 60 1148 (omega arith),
)

pub read_data_within :
    (src : Bytes) → 16 ≤ length src → Packet.read_data src ≡ ok (fields_of_data src)
unfolding Packet.read_data fields_of_data
read_data_within src fits = rw (
  sub_slice_within src 4 8 (omega arith),
  sub_slice_within src 8 16 (omega arith),
  sub_slice_within src 16 (length src) (omega arith),
  slice_rest 16 src,
)
