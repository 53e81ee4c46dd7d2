-- ===== src/Handshake/Steps.antt =====
-- The handlers of a handshake on the branch where all goes well, one step each.
use pq_boringtun.Base.{ℕ, ◌≤◌, ◌≡◌, ◌++◌, Option, none, true, false, some, le→ltb, ==_refl}
use pq_boringtun.Base.Bytes.{Bytes, to_le}
use pq_boringtun.Errors.{ok}
use pq_boringtun.Crypto.{Crypto}
use pq_boringtun.Session.{Session}
use pq_boringtun.Packet.{HandshakeInit, HandshakeResponse, handshake_init_sz}
use pq_boringtun.Packet.{PqHandshakeInit, PqHandshakeResponse, pq_handshake_init_sz}
use pq_boringtun.Handshake.{
  Handshake, HandshakeInitSentState, InitReceivedState, Tai64N, inc_index, step_index, init_sent,
  after, stamp,
}
use pq_boringtun.Handshake.Chain.{Chain, mix_hash}
use pq_boringtun.Handshake.Initiation.{
  Surroundings, Written, classical_start, pq_start, sent_initiation,
}
use pq_boringtun.Handshake.Initiation.{
  append_mac1_and_mac2, write_initiation, format_handshake_initiation,
  format_pq_handshake_initiation,
}
use pq_boringtun.Handshake.Response.{
  read_initiation, received_initiation, format_handshake_response, receive_handshake_initialization,
}
use pq_boringtun.Handshake.Response.{
  format_pq_handshake_response, receive_pq_handshake_initialization,
}
use pq_boringtun.Handshake.Completion.{
  awaiting, completed, open_response, initiator_chain, receive_handshake_response,
}
use pq_boringtun.Handshake.Completion.{mix_decapsulated, receive_pq_handshake_response}

-- The initiation as a packet.
abbrev pub init_packet : Crypto → ℕ → Bytes → Written → HandshakeInit
init_packet c index ephemeral w = record {
  sender_idx = index;
  unencrypted_ephemeral = c.public_key ephemeral;
  encrypted_static = w.encrypted_static;
  encrypted_timestamp = w.encrypted_timestamp;
}

abbrev pub pq_init_packet : Crypto → ℕ → Bytes → Written → Bytes → PqHandshakeInit
pq_init_packet c index ephemeral w ek = record {
  sender_idx = index;
  unencrypted_ephemeral = c.public_key ephemeral;
  encrypted_static = w.encrypted_static;
  encrypted_timestamp = w.encrypted_timestamp;
  mlkem_ephemeral_public = ek;
}

abbrev pub init_body : Crypto → ℕ → Bytes → Written → Bytes
init_body c index ephemeral w =
    to_le 4 1
    ++ (to_le 4 index ++ (c.public_key ephemeral ++ (w.encrypted_static ++ w.encrypted_timestamp)))

abbrev pub pq_init_body : Crypto → ℕ → Bytes → Written → Bytes → Bytes
pq_init_body c index ephemeral w ek =
    to_le 4 5
    ++ (to_le 4 index
        ++ (c.public_key ephemeral ++ (w.encrypted_static ++ (w.encrypted_timestamp ++ ek))))

-- The state of an initiator that waits for the response.
abbrev pub init_sent_state : ℕ → Surroundings → Chain → Option Bytes → HandshakeInitSentState
init_sent_state index env k dk = record {
  local_index = index;
  hash = k.hash;
  chaining_key = k.chaining_key;
  ephemeral_private = env.ephemeral_private;
  time_sent = env.sent_at;
  mlkem_decapsulation_key = dk;
}

-- The state of a responder that is about to answer.
abbrev pub answering : Chain → Bytes → ℕ → Option Bytes → InitReceivedState
answering k ephemeral index ek = record {
  hash = k.hash;
  chaining_key = k.chaining_key;
  peer_ephemeral_public = ephemeral;
  peer_index = index;
  mlkem_encapsulation_key = ek;
}

module _ (c : Crypto) where
  -- The initiator's handshake and the message after a step that ended well.
  abbrev pub init_sending : Handshake → Surroundings → Written → Handshake × Bytes
  init_sending h env w =
      let i = step_index h.next_index in
      append_mac1_and_mac2 c (sent_initiation c (record h { next_index = i }) i env w.chain none) i
        (init_body c i env.ephemeral_private w)

  pub sends :
      (h : Handshake) (env : Surroundings) (w : Written)
      → handshake_init_sz ≤ env.dst_len
      → write_initiation c h.params classical_start env.ephemeral_private (stamp h.stamper env.now)
        ≡ ok w
      → format_handshake_initiation c h env
        ≡ ((init_sending h env w).0, ok (init_sending h env w).1)
  unfolding format_handshake_initiation inc_index
  sends h env w fits e = rw (le→ltb env.dst_len 148 fits, e)

  abbrev pub pq_init_sending : Handshake → Surroundings → Written → Handshake × Bytes
  pq_init_sending h env w =
      let i = step_index h.next_index in
      let keys = c.mlkem_generate env.mlkem_random in
      append_mac1_and_mac2 c
        (sent_initiation c (record h { next_index = i }) i env (mix_hash c w.chain keys.1)
          (some keys.0))
        i (pq_init_body c i env.ephemeral_private w keys.1)

  pub pq_sends :
      (h : Handshake) (env : Surroundings) (w : Written)
      → pq_handshake_init_sz ≤ env.dst_len
      → write_initiation c h.params pq_start env.ephemeral_private (stamp h.stamper env.now) ≡ ok w
      → format_pq_handshake_initiation c h env
        ≡ ((pq_init_sending h env w).0, ok (pq_init_sending h env w).1)
  unfolding format_pq_handshake_initiation inc_index
  pq_sends h env w fits e = rw (le→ltb env.dst_len 1332 fits, e)

  pub answers :
      (h : Handshake) (p : HandshakeInit) (env : Surroundings) (k : Chain) (t : Tai64N)
      → read_initiation c h.params classical_start p.unencrypted_ephemeral p.encrypted_static
          p.encrypted_timestamp
        ≡ ok (k, t)
      → after t h.last_handshake_timestamp ≡ true
      → receive_handshake_initialization c h p env
        ≡ format_handshake_response c
            (received_initiation c h t (record {
              hash = k.hash;
              chaining_key = k.chaining_key;
              peer_ephemeral_public = p.unencrypted_ephemeral;
              peer_index = p.sender_idx;
              mlkem_encapsulation_key = none;
            }))
            env
  unfolding receive_handshake_initialization
  answers h p env k t e later = rw (e, later)

  pub pq_answers :
      (h : Handshake) (p : PqHandshakeInit) (env : Surroundings) (k : Chain) (t : Tai64N)
      → read_initiation c h.params pq_start p.unencrypted_ephemeral p.encrypted_static
          p.encrypted_timestamp
        ≡ ok (k, t)
      → after t h.last_handshake_timestamp ≡ true
      → receive_pq_handshake_initialization c h p env
        ≡ format_pq_handshake_response c
            (received_initiation c h t (record {
              hash = (mix_hash c k p.mlkem_ephemeral_public).hash;
              chaining_key = (mix_hash c k p.mlkem_ephemeral_public).chaining_key;
              peer_ephemeral_public = p.unencrypted_ephemeral;
              peer_index = p.sender_idx;
              mlkem_encapsulation_key = some p.mlkem_ephemeral_public;
            }))
            env
  unfolding receive_pq_handshake_initialization
  pq_answers h p env k t e later = rw (e, later)

  awaiting_current :
      (h : Handshake) (s : HandshakeInitSentState) (index : ℕ)
      → h.state ≡ init_sent s
      → index ≡ s.local_index
      → awaiting h index ≡ some (s, false)
  unfolding awaiting
  awaiting_current h s index e f = rw (e, f, awaiting, ==_refl s.local_index)

  pub completes :
      (h : Handshake) (s : HandshakeInitSentState) (p : HandshakeResponse) (now : ℕ)
      (session : Session)
      → h.state ≡ init_sent s
      → p.receiver_idx ≡ s.local_index
      → s.mlkem_decapsulation_key ≡ none
      → open_response c
          (initiator_chain c h.params s p.unencrypted_ephemeral)
          h.params.preshared_key
          p.encrypted_nothing
          s.local_index
          p.sender_idx
        ≡ ok session
      → receive_handshake_response c h p now ≡ (completed h s false now, ok session)
  unfolding receive_handshake_response completed
  completes h s p now session state index dk opens =
      rw (receive_handshake_response, awaiting_current h s p.receiver_idx state index, dk, opens)

  pub pq_completes :
      (h : Handshake) (s : HandshakeInitSentState) (p : PqHandshakeResponse) (now : ℕ) (k : Chain)
      (session : Session)
      → h.state ≡ init_sent s
      → p.receiver_idx ≡ s.local_index
      → mix_decapsulated c
          (initiator_chain c h.params s p.unencrypted_ephemeral)
          s.mlkem_decapsulation_key
          p.mlkem_ciphertext
        ≡ ok k
      → open_response c k h.params.preshared_key p.encrypted_nothing s.local_index p.sender_idx
        ≡ ok session
      → receive_pq_handshake_response c h p now ≡ (completed h s false now, ok session)
  unfolding receive_pq_handshake_response
  pq_completes h s p now k session state index mixes opens =
      rw (
        receive_pq_handshake_response,
        awaiting_current h s p.receiver_idx state index,
        mixes,
        opens,
      )
