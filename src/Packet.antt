-- ===== src/Packet.antt =====
-- Packets from the network: `Tunn::parse_incoming_packet` of boringtun/src/noise/mod.rs, with the
-- feature `pq`.
pub mod Fields
pub mod Format
pub mod Sound
pub mod Complete
use pq_boringtun.Base.{ℕ, ◌+◌, Bool, ◌&&◌, length, drop, slice, leb, ltb, ◌==◌, if◌then◌else◌}
use pq_boringtun.Base.Bytes.{Bytes, from_le}
use pq_boringtun.Errors.{Result, ok, err, panics, ◌>>=◌, invalid_packet}

-- The message types.
abbrev pub handshake_init : ℕ
handshake_init = 1

abbrev pub handshake_resp : ℕ
handshake_resp = 2

abbrev pub cookie_reply : ℕ
cookie_reply = 3

abbrev pub data_type : ℕ
data_type = 4

abbrev pub pq_handshake_init : ℕ
pq_handshake_init = 5

abbrev pub pq_handshake_resp : ℕ
pq_handshake_resp = 6

-- The sizes of the messages.
abbrev pub handshake_init_sz : ℕ
handshake_init_sz = 148

abbrev pub handshake_resp_sz : ℕ
handshake_resp_sz = 92

abbrev pub cookie_reply_sz : ℕ
cookie_reply_sz = 64

abbrev pub data_overhead_sz : ℕ
data_overhead_sz = 32

abbrev pub mlkem768_pk_size : ℕ
mlkem768_pk_size = 1184

abbrev pub mlkem768_ct_size : ℕ
mlkem768_ct_size = 1088

abbrev pub pq_handshake_init_sz : ℕ
pq_handshake_init_sz = 1332

abbrev pub pq_handshake_resp_sz : ℕ
pq_handshake_resp_sz = 1180

pub record HandshakeInit : Type 0 where
  pub sender_idx : ℕ
  pub unencrypted_ephemeral : Bytes
  pub encrypted_static : Bytes
  pub encrypted_timestamp : Bytes

pub record HandshakeResponse : Type 0 where
  pub sender_idx : ℕ
  pub receiver_idx : ℕ
  pub unencrypted_ephemeral : Bytes
  pub encrypted_nothing : Bytes

pub record PacketCookieReply : Type 0 where
  pub receiver_idx : ℕ
  pub nonce : Bytes
  pub encrypted_cookie : Bytes

pub record PacketData : Type 0 where
  pub receiver_idx : ℕ
  pub counter : ℕ
  pub encrypted_encapsulated_packet : Bytes

pub record PqHandshakeInit : Type 0 where
  pub sender_idx : ℕ
  pub unencrypted_ephemeral : Bytes
  pub encrypted_static : Bytes
  pub encrypted_timestamp : Bytes
  pub mlkem_ephemeral_public : Bytes

pub record PqHandshakeResponse : Type 0 where
  pub sender_idx : ℕ
  pub receiver_idx : ℕ
  pub unencrypted_ephemeral : Bytes
  pub encrypted_nothing : Bytes
  pub mlkem_ciphertext : Bytes

pub data Packet : Type 0 where
  init : HandshakeInit → Packet
  response : HandshakeResponse → Packet
  cookie : PacketCookieReply → Packet
  transport : PacketData → Packet
  pq_init : PqHandshakeInit → Packet
  pq_response : PqHandshakeResponse → Packet

-- `&src[from..to]`, which panics when the end is out of range.
unfoldable pub sub_slice : Bytes → ℕ → ℕ → Result Bytes
sub_slice src from to = if leb to (length src) then ok (slice src from to) else panics

-- `uN::from_le_bytes(src[from..to].try_into().unwrap())`
abbrev pub read_le : Bytes → ℕ → ℕ → Result ℕ
read_le src from to = sub_slice src from to >>= λ bytes. ok (from_le bytes)

-- The arms of the `match`.
unfoldable pub read_init : Bytes → Result HandshakeInit
read_init src = read_le src 4 8 >>= λ sender. sub_slice src 8 40 >>= λ ephemeral.
    sub_slice src 40 88 >>= λ static. sub_slice src 88 116 >>= λ timestamp. ok (record {
      sender_idx = sender;
      unencrypted_ephemeral = ephemeral;
      encrypted_static = static;
      encrypted_timestamp = timestamp;
    })

unfoldable pub read_response : Bytes → Result HandshakeResponse
read_response src = read_le src 4 8 >>= λ sender. read_le src 8 12 >>= λ receiver.
    sub_slice src 12 44 >>= λ ephemeral. sub_slice src 44 60 >>= λ nothing. ok (record {
      sender_idx = sender;
      receiver_idx = receiver;
      unencrypted_ephemeral = ephemeral;
      encrypted_nothing = nothing;
    })

unfoldable pub read_cookie : Bytes → Result PacketCookieReply
read_cookie src = read_le src 4 8 >>= λ receiver. sub_slice src 8 32 >>= λ nonce.
    sub_slice src 32 64 >>= λ encrypted.
    ok (record { receiver_idx = receiver; nonce = nonce; encrypted_cookie = encrypted })

unfoldable pub read_data : Bytes → Result PacketData
read_data src = read_le src 4 8 >>= λ receiver. read_le src 8 16 >>= λ counter.
    sub_slice src 16 (length src) >>= λ body.
    ok (record { receiver_idx = receiver; counter = counter; encrypted_encapsulated_packet = body })

unfoldable pub read_pq_init : Bytes → Result PqHandshakeInit
read_pq_init src = read_le src 4 8 >>= λ sender. sub_slice src 8 40 >>= λ ephemeral.
    sub_slice src 40 88 >>= λ static. sub_slice src 88 116 >>= λ timestamp.
    sub_slice src 116 (116 + mlkem768_pk_size) >>= λ public. ok (record {
      sender_idx = sender;
      unencrypted_ephemeral = ephemeral;
      encrypted_static = static;
      encrypted_timestamp = timestamp;
      mlkem_ephemeral_public = public;
    })

unfoldable pub read_pq_response : Bytes → Result PqHandshakeResponse
read_pq_response src = read_le src 4 8 >>= λ sender. read_le src 8 12 >>= λ receiver.
    sub_slice src 12 44 >>= λ ephemeral. sub_slice src 44 60 >>= λ nothing.
    sub_slice src 60 (60 + mlkem768_ct_size) >>= λ ciphertext. ok (record {
      sender_idx = sender;
      receiver_idx = receiver;
      unencrypted_ephemeral = ephemeral;
      encrypted_nothing = nothing;
      mlkem_ciphertext = ciphertext;
    })

-- The `match` on the type and the length. A slice is never longer than `usize::MAX`.
pub dispatch : ℕ → ℕ → Bytes → Result Packet
dispatch packet_type len src =
    if packet_type == handshake_init && len == handshake_init_sz
    then read_init src >>= (λ p. ok (init p))
    else if packet_type == handshake_resp && len == handshake_resp_sz
    then read_response src >>= (λ p. ok (response p))
    else if packet_type == cookie_reply && len == cookie_reply_sz
    then read_cookie src >>= (λ p. ok (cookie p))
    else if packet_type == data_type && leb data_overhead_sz len
    then read_data src >>= (λ p. ok (transport p))
    else if packet_type == pq_handshake_init && len == pq_handshake_init_sz
    then read_pq_init src >>= (λ p. ok (pq_init p))
    else if packet_type == pq_handshake_resp && len == pq_handshake_resp_sz
    then read_pq_response src >>= (λ p. ok (pq_response p))
    else err invalid_packet

unfoldable pub parse_incoming_packet : Bytes → Result Packet
unfolding dispatch
parse_incoming_packet src =
    if ltb (length src) 4
    then err invalid_packet
    else read_le src 0 4 >>= λ packet_type. dispatch packet_type (length src) src
