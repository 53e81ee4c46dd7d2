-- ===== src/Packet/Format.antt =====
-- The layout of each message on the wire, and that parsing is its exact inverse.
use pq_boringtun.Base.{ℕ, ◌+◌, ◌-◌, ◌^◌, ◌≤◌, ◌<◌, ◌≡◌, refl, sym, ap, ◌∙◌, arith, ◌++◌, []}
use pq_boringtun.Base.{length, drop, slice}
use pq_boringtun.Base.{length-slice}
use pq_boringtun.Base.Bytes.{
  Bytes, IsBytes, from_le, to_le, to_le-from_le, take-IsBytes, drop-IsBytes,
}
use pq_boringtun.Base.{slice_join}
use mathlib.Core.List.{append-nil}
use pq_boringtun.Packet
use pq_boringtun.Packet.Fields

-- What the message holds after its fields: the two MACs of a handshake message.
abbrev pub tail_size : Packet.Packet → ℕ
tail_size (Packet.init p) = 32
tail_size (Packet.response p) = 32
tail_size (Packet.cookie p) = 0
tail_size (Packet.transport p) = 0
tail_size (Packet.pq_init p) = 32
tail_size (Packet.pq_response p) = 32

-- The bytes of a message, followed by `rest`.
unfoldable pub format : Packet.Packet → Bytes → Bytes
format (Packet.init p) rest =
    to_le 4 1
    ++ (to_le 4 p.sender_idx
        ++ (p.unencrypted_ephemeral ++ (p.encrypted_static ++ (p.encrypted_timestamp ++ rest))))
format (Packet.response p) rest =
    to_le 4 2
    ++ (to_le 4 p.sender_idx
        ++ (to_le 4 p.receiver_idx ++ (p.unencrypted_ephemeral ++ (p.encrypted_nothing ++ rest))))
format (Packet.cookie p) rest =
    to_le 4 3 ++ (to_le 4 p.receiver_idx ++ (p.nonce ++ (p.encrypted_cookie ++ rest)))
format (Packet.transport p) rest =
    to_le 4 4
    ++ (to_le 4 p.receiver_idx ++ (to_le 8 p.counter ++ (p.encrypted_encapsulated_packet ++ rest)))
format (Packet.pq_init p) rest =
    to_le 4 5
    ++ (to_le 4 p.sender_idx
        ++ (p.unencrypted_ephemeral
            ++ (p.encrypted_static
                ++ (p.encrypted_timestamp ++ (p.mlkem_ephemeral_public ++ rest)))))
format (Packet.pq_response p) rest =
    to_le 4 6
    ++ (to_le 4 p.sender_idx
        ++ (to_le 4 p.receiver_idx
            ++ (p.unencrypted_ephemeral ++ (p.encrypted_nothing ++ (p.mlkem_ciphertext ++ rest)))))

-- The sizes of the fields.
abbrev pub IsWellFormed : Packet.Packet → Type 0
IsWellFormed (Packet.init p) =
    (p.sender_idx < 2 ^ 32)
    × (length p.unencrypted_ephemeral ≡ 32)
    × (length p.encrypted_static ≡ 48)
    × (length p.encrypted_timestamp ≡ 28)
IsWellFormed (Packet.response p) =
    (p.sender_idx < 2 ^ 32)
    × (p.receiver_idx < 2 ^ 32)
    × (length p.unencrypted_ephemeral ≡ 32)
    × (length p.encrypted_nothing ≡ 16)
IsWellFormed (Packet.cookie p) =
    (p.receiver_idx < 2 ^ 32) × (length p.nonce ≡ 24) × (length p.encrypted_cookie ≡ 32)
IsWellFormed (Packet.transport p) =
    (p.receiver_idx < 2 ^ 32) × (p.counter < 2 ^ 64) × (16 ≤ length p.encrypted_encapsulated_packet)
IsWellFormed (Packet.pq_init p) =
    (p.sender_idx < 2 ^ 32)
    × (length p.unencrypted_ephemeral ≡ 32)
    × (length p.encrypted_static ≡ 48)
    × (length p.encrypted_timestamp ≡ 28)
    × (length p.mlkem_ephemeral_public ≡ 1184)
IsWellFormed (Packet.pq_response p) =
    (p.sender_idx < 2 ^ 32)
    × (p.receiver_idx < 2 ^ 32)
    × (length p.unencrypted_ephemeral ≡ 32)
    × (length p.encrypted_nothing ≡ 16)
    × (length p.mlkem_ciphertext ≡ 1088)

-- An integer field, put back into bytes in front of what follows it.
le_join :
    (src : Bytes) (a n : ℕ) {rest : Bytes}
    → IsBytes src
    → a + n ≤ length src
    → rest ≡ drop (a + n) src
    → to_le n (from_le (slice src a (a + n))) ++ rest ≡ drop a src
unfolding slice
le_join src a n {rest} bytes fits e =
    ap (λ bs. bs ++ rest)
      (restored (slice src a (a + n)) read (length-slice src a (a + n) (omega arith) fits))
    ∙ slice_join src a (a + n) (omega arith) e
  where
    read : IsBytes (slice src a (a + n))
    read = take-IsBytes (a + n - a) (drop a src) (drop-IsBytes a src bytes)

    restored : (bs : Bytes) → IsBytes bs → length bs ≡ a + n - a → to_le n (from_le bs) ≡ bs
    restored bs h len =
        ap (λ k. to_le k (from_le bs)) {x = n} {y = length bs} (omega arith) ∙ to_le-from_le bs h

module _ (src : Bytes) (bytes : IsBytes src) (fits : 16 ≤ length src) where
  type_join :
      (t : ℕ) {rest : Bytes}
      → from_le (slice src 0 4) ≡ t
      → rest ≡ drop 4 src
      → to_le 4 t ++ rest ≡ src
  type_join t {rest} ty e =
      ap (λ n. to_le 4 n ++ rest) (sym ty) ∙ le_join src 0 4 bytes (omega arith) e

  pub read_back_init :
      from_le (slice src 0 4) ≡ 1
      → format (Packet.init (Fields.fields_of_init src)) (drop 116 src) ≡ src
  unfolding format Fields.fields_of_init
  read_back_init ty = type_join 1 ty (
      le_join src 4 4 bytes (omega arith) (
        slice_join src 8 40 (omega arith)
          (slice_join src 40 88 (omega arith) (slice_join src 88 116 (omega arith) refl))))

  pub read_back_response :
      from_le (slice src 0 4) ≡ 2
      → format (Packet.response (Fields.fields_of_response src)) (drop 60 src) ≡ src
  unfolding format Fields.fields_of_response
  read_back_response ty = type_join 2 ty (
      le_join src 4 4 bytes (omega arith) (
        le_join src 8 4 bytes (omega arith)
          (slice_join src 12 44 (omega arith) (slice_join src 44 60 (omega arith) refl))))

  pub read_back_cookie :
      from_le (slice src 0 4) ≡ 3
      → format (Packet.cookie (Fields.fields_of_cookie src)) (drop 64 src) ≡ src
  unfolding format Fields.fields_of_cookie
  read_back_cookie ty = type_join 3 ty (
      le_join src 4 4 bytes (omega arith)
        (slice_join src 8 32 (omega arith) (slice_join src 32 64 (omega arith) refl)))

  pub read_back_data :
      from_le (slice src 0 4) ≡ 4 → format (Packet.transport (Fields.fields_of_data src)) [] ≡ src
  unfolding format Fields.fields_of_data
  read_back_data ty = type_join 4 ty (
      le_join src 4 4 bytes (omega arith)
        (le_join src 8 8 bytes (omega arith) (append-nil (drop 16 src))))

  pub read_back_pq_init :
      from_le (slice src 0 4) ≡ 5
      → format (Packet.pq_init (Fields.fields_of_pq_init src)) (drop 1300 src) ≡ src
  unfolding format Fields.fields_of_pq_init
  read_back_pq_init ty = type_join 5 ty (
      le_join src 4 4 bytes (omega arith) (
        slice_join src 8 40 (omega arith) (
          slice_join src 40 88 (omega arith)
            (slice_join src 88 116 (omega arith) (slice_join src 116 1300 (omega arith) refl)))))

  pub read_back_pq_response :
      from_le (slice src 0 4) ≡ 6
      → format (Packet.pq_response (Fields.fields_of_pq_response src)) (drop 1148 src) ≡ src
  unfolding format Fields.fields_of_pq_response
  read_back_pq_response ty = type_join 6 ty (
      le_join src 4 4 bytes (omega arith) (
        le_join src 8 4 bytes (omega arith) (
          slice_join src 12 44 (omega arith)
            (slice_join src 44 60 (omega arith) (slice_join src 60 1148 (omega arith) refl)))))
