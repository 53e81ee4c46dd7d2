-- ===== src/Handshake/Opening.antt =====
-- An initiation that one party writes is read by the other.
use pq_boringtun.Base.{ℕ, ◌≡◌, refl, arith, length, Option}
use pq_boringtun.Base.Bytes.{Bytes}
use pq_boringtun.Errors.{ok}
use pq_boringtun.Crypto.{Crypto, CryptoLaws}
use pq_boringtun.Handshake.{parse_tai64n}
use pq_boringtun.Handshake.Chain.{Chain, begin_chain, mix_hash, mix_key_and_derive}
use pq_boringtun.Handshake.Initiation.{Written, write_initiation}
use pq_boringtun.Handshake.Response.{read_initiation}
use pq_boringtun.Handshake.Completion.{new_params}
use pq_boringtun.Handshake.Anonymous.{half_handshake}
use pq_boringtun.Handshake.Seal.{params_of, seal-SealOf}

-- What the initiator with secret `own` writes under `timestamp`, read by the responder with
-- secret `peer`.
pub record OpeningOf (c : Crypto) (own peer : Bytes) (psk : Option Bytes) (start : Chain)
    (ephemeral timestamp : Bytes) (w : Written) : Type 0 where
  pub writes : write_initiation c (params_of c own peer psk) start ephemeral timestamp ≡ ok w
  pub reads :
      read_initiation c
        (params_of c peer own psk)
        start
        (c.public_key ephemeral)
        w.encrypted_static
        w.encrypted_timestamp
      ≡ ok (w.chain, parse_tai64n timestamp)
  pub names :
      (index : ℕ)
      → half_handshake c peer
          (c.public_key peer)
          start
          index
          (c.public_key ephemeral)
          w.encrypted_static
        ≡ ok (record { peer_index = index; peer_static_public = c.public_key own })
  pub static_size : length w.encrypted_static ≡ 48
  pub timestamp_size : length w.encrypted_timestamp ≡ 28

module _ (c : Crypto) (limit : ℕ) (laws : CryptoLaws c limit) where
  pub write-OpeningOf :
      (own peer : Bytes) (psk : Option Bytes) (start : Chain) (ephemeral timestamp : Bytes)
      → length timestamp ≡ 12
      → (w : Written) × OpeningOf c own peer psk start ephemeral timestamp w
  unfolding half_handshake write_initiation read_initiation new_params
  write-OpeningOf own peer psk start ephemeral timestamp size =
      let room = laws.room in
      let pk = c.public_key own in
      let pk_size = laws.public_key_size own in
      let begun =
        begin_chain c start (c.public_key peer) (c.public_key ephemeral)
          (c.diffie_hellman ephemeral (c.public_key peer)) in
      let (es, s) = seal-SealOf c limit laws begun.1 0 pk begun.0.hash (omega arith) in
      let stepped =
        mix_key_and_derive c (mix_hash c begun.0 es) (c.diffie_hellman own (c.public_key peer)) in
      let (et, t) = seal-SealOf c limit laws stepped.1 0 timestamp stepped.0.hash (omega arith) in
      let same = (laws.equal_iff pk pk).1 refl in
      let s_opens = s.opens 32 pk_size in
      let t_opens = t.opens 12 size in
      (
        record { encrypted_static = es; encrypted_timestamp = et; chain = mix_hash c stepped.0 et },
        record {
          writes = rw (s.seals, t.seals);
          reads = rw (laws.dh_comm peer ephemeral, laws.dh_comm peer own, s_opens, same, t_opens);
          names = λ index. rw (laws.dh_comm peer ephemeral, s_opens);
          static_size = omega (arith, s.size);
          timestamp_size = omega (arith, t.size);
        },
      )
