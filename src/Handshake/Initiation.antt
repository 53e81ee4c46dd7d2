-- ===== src/Handshake/Initiation.antt =====
-- Starting a handshake: `format_handshake_initiation`, `format_pq_handshake_initiation` and the
-- MACs of boringtun/src/noise/handshake.rs.
use pq_boringtun.Base.{ℕ, ltb, if◌then◌else◌, ◌++◌, Option, none, some, replicate}
use pq_boringtun.Base.Bytes.{Bytes, to_le}
use pq_boringtun.Errors.{Result, ok, err, ◌>>=◌, destination_buffer_too_small}
use pq_boringtun.Crypto.{Crypto}
use pq_boringtun.Packet.{handshake_init, handshake_init_sz, pq_handshake_init, pq_handshake_init_sz}
use pq_boringtun.Handshake.{Handshake, NoiseParams, init_sent, stamp, inc_index, attempt}
use pq_boringtun.Handshake.Chain.{
  Chain, initial_chain_key, initial_chain_hash, initial_chain_key_pq, initial_chain_hash_pq,
}
use pq_boringtun.Handshake.Chain.{
  b2s_keyed_mac_16, aead_chacha20_seal, mix_hash, mix_key_and_derive, begin_chain,
}

-- What a call takes from its surroundings: the destination's length, the two readings of the clock,
-- for the timestamp and for the time of sending, a new ephemeral secret, and randomness for ML-KEM.
pub record Surroundings : Type 0 where
  pub dst_len : ℕ
  pub now : ℕ
  pub sent_at : ℕ
  pub ephemeral_private : Bytes
  pub mlkem_random : Bytes

abbrev pub classical_start : Chain
classical_start = record { chaining_key = initial_chain_key; hash = initial_chain_hash }

abbrev pub pq_start : Chain
pq_start = record { chaining_key = initial_chain_key_pq; hash = initial_chain_hash_pq }

-- The encrypted fields of an initiation, and the chain behind them.
pub record Written : Type 0 where
  pub encrypted_static : Bytes
  pub encrypted_timestamp : Bytes
  pub chain : Chain

module _ (c : Crypto) where
  -- `message` is `dst` without its last 32 bytes, which are overwritten.
  unfoldable pub append_mac1_and_mac2 : Handshake → ℕ → Bytes → Handshake × Bytes
  append_mac1_and_mac2 h local_index message =
      let mac1 = b2s_keyed_mac_16 c h.params.sending_mac1_key message in
      let mac2 : Bytes = elim (h.cookies.write_cookie) [
        | some cookie ↦ b2s_keyed_mac_16 c cookie (message ++ mac1)
        | none ↦ replicate 16 0
      ] in
      (
        record h { cookies = record (h.cookies) { index = local_index; last_mac1 = some mac1 } },
        message ++ (mac1 ++ mac2),
      )

  -- The steps that the classical and the PQ initiation share.
  unfoldable pub write_initiation : NoiseParams → Chain → Bytes → Bytes → Result Written
  write_initiation params start ephemeral_private timestamp =
      let ephemeral = c.public_key ephemeral_private in
      let begun =
        begin_chain c start params.peer_static_public ephemeral
          (c.diffie_hellman ephemeral_private params.peer_static_public) in
      aead_chacha20_seal c begun.1 0 params.static_public begun.0.hash >>= λ encrypted_static.
      let stepped =
        mix_key_and_derive c (mix_hash c begun.0 encrypted_static) params.static_shared in
      aead_chacha20_seal c stepped.1 0 timestamp stepped.0.hash >>= λ encrypted_timestamp.
      ok (record {
        encrypted_static = encrypted_static;
        encrypted_timestamp = encrypted_timestamp;
        chain = mix_hash c stepped.0 encrypted_timestamp;
      })

  -- The new state, and the message without its MACs.
  unfoldable pub sent_initiation : Handshake → ℕ → Surroundings → Chain → Option Bytes → Handshake
  sent_initiation h local_index env k dk = record h {
    previous = h.state;
    state = init_sent (record {
      local_index = local_index;
      hash = k.hash;
      chaining_key = k.chaining_key;
      ephemeral_private = env.ephemeral_private;
      time_sent = env.sent_at;
      mlkem_decapsulation_key = dk;
    });
  }

  unfoldable pub format_handshake_initiation : Handshake → Surroundings → Handshake × Result Bytes
  format_handshake_initiation h env =
      if ltb env.dst_len handshake_init_sz
      then (h, err destination_buffer_too_small)
      else let (h1, local_index) = inc_index h in
        attempt h1
          (write_initiation h.params classical_start env.ephemeral_private
            (stamp h.stamper env.now))
          λ w.
            let h2 = sent_initiation h1 local_index env w.chain none in
            let (h3, message) = append_mac1_and_mac2 h2 local_index (
              to_le 4 handshake_init
              ++ (to_le 4 local_index
                  ++ (c.public_key env.ephemeral_private
                      ++ (w.encrypted_static ++ w.encrypted_timestamp)))) in
            (h3, ok message)

  unfoldable pub format_pq_handshake_initiation :
      Handshake → Surroundings → Handshake × Result Bytes
  format_pq_handshake_initiation h env =
      if ltb env.dst_len pq_handshake_init_sz
      then (h, err destination_buffer_too_small)
      else let (h1, local_index) = inc_index h in
        attempt h1
          (write_initiation h.params pq_start env.ephemeral_private (stamp h.stamper env.now))
          λ w.
            let (dk, ek) = c.mlkem_generate env.mlkem_random in
            let h2 = sent_initiation h1 local_index env (mix_hash c w.chain ek) (some dk) in
            let (h3, message) = append_mac1_and_mac2 h2 local_index (
              to_le 4 pq_handshake_init
              ++ (to_le 4 local_index
                  ++ (c.public_key env.ephemeral_private
                      ++ (w.encrypted_static ++ (w.encrypted_timestamp ++ ek))))) in
            (h3, ok message)
