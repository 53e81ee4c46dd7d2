-- ===== src/Handshake/Anonymous.antt =====
-- Who sent an initiation, before a handshake is chosen for it: `parse_handshake_anon` and
-- `parse_pq_handshake_anon` of boringtun/src/noise/handshake.rs.
use pq_boringtun.Base.{ℕ}
use pq_boringtun.Base.Bytes.{Bytes}
use pq_boringtun.Errors.{Result, ok, ◌>>=◌}
use pq_boringtun.Crypto.{Crypto}
use pq_boringtun.Packet.{HandshakeInit, PqHandshakeInit}
use pq_boringtun.Handshake.Chain.{Chain, aead_chacha20_open, begin_chain}
use pq_boringtun.Handshake.Initiation.{classical_start, pq_start}

pub record HalfHandshake : Type 0 where
  pub peer_index : ℕ
  pub peer_static_public : Bytes

module _ (c : Crypto) (static_private static_public : Bytes) where
  -- The steps that both functions take, on their own chain.
  unfoldable pub half_handshake : Chain → ℕ → Bytes → Bytes → Result HalfHandshake
  half_handshake start sender_idx ephemeral encrypted_static =
      let begun =
        begin_chain c start static_public ephemeral (c.diffie_hellman static_private ephemeral) in
      aead_chacha20_open c 32 begun.1 0 encrypted_static begun.0.hash >>= λ peer_static_public.
      ok (record { peer_index = sender_idx; peer_static_public = peer_static_public })

  unfoldable pub parse_handshake_anon : HandshakeInit → Result HalfHandshake
  parse_handshake_anon packet =
      half_handshake classical_start packet.sender_idx packet.unencrypted_ephemeral
        packet.encrypted_static

  unfoldable pub parse_pq_handshake_anon : PqHandshakeInit → Result HalfHandshake
  parse_pq_handshake_anon packet =
      half_handshake pq_start packet.sender_idx packet.unencrypted_ephemeral packet.encrypted_static
