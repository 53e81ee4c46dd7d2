-- ===== src/Handshake/Replayed.antt =====
-- An initiation that has been accepted is not accepted again.
use pq_boringtun.Base.{◌≡◌, ap, ◌∙◌, true, false, none, some, arith}
use pq_boringtun.Errors.{ok, err, is_ok, is_ok-true, wrong_tai64n_timestamp}
use pq_boringtun.Crypto.{Crypto}
use pq_boringtun.Packet.{HandshakeInit, PqHandshakeInit}
use pq_boringtun.Handshake.{Handshake, Tai64N, after, inc_index}
use pq_boringtun.Handshake.Clock.{after_irrefl}
use pq_boringtun.Handshake.Steps.{answering, answers, pq_answers}
use pq_boringtun.Handshake.Chain.{Chain, mix_hash}
use pq_boringtun.Handshake.Initiation.{
  classical_start, pq_start, Surroundings, append_mac1_and_mac2,
}
use pq_boringtun.Handshake.Response.{
  received_initiation, format_handshake_response, receive_handshake_initialization, read_initiation,
}
use pq_boringtun.Handshake.Response.{
  finish_pq_response, format_pq_handshake_response, receive_pq_handshake_initialization,
}

module _ (c : Crypto) (h : Handshake) (env : Surroundings) where
  response_keeps :
      ((format_handshake_response c h env).0.params ≡ h.params)
      × ((format_handshake_response c h env).0.last_handshake_timestamp
          ≡ h.last_handshake_timestamp)
  unfolding format_handshake_response inc_index append_mac1_and_mac2
  response_keeps = (ground arith, ground arith)

  pq_response_keeps :
      ((format_pq_handshake_response c h env).0.params ≡ h.params)
      × ((format_pq_handshake_response c h env).0.last_handshake_timestamp
          ≡ h.last_handshake_timestamp)
  unfolding format_pq_handshake_response finish_pq_response inc_index append_mac1_and_mac2
  pq_response_keeps = (ground arith, ground arith)

module _ (c : Crypto) (h : Handshake) (env : Surroundings) where
  -- An accepted initiation was read, and its timestamp is the one that is remembered.
  accepted :
      (p : HandshakeInit)
      → is_ok (receive_handshake_initialization c h p env).1 ≡ true
      → (k : Chain) × (t : Tai64N) × (read_initiation c h.params classical_start
            p.unencrypted_ephemeral p.encrypted_static p.encrypted_timestamp
          ≡ ok (k, t))
        × ((receive_handshake_initialization c h p env).0.params ≡ h.params)
        × ((receive_handshake_initialization c h p env).0.last_handshake_timestamp ≡ t)
  unfolding receive_handshake_initialization received_initiation
  accepted p e =
      let read =
        read_initiation c h.params classical_start p.unencrypted_ephemeral p.encrypted_static
          p.encrypted_timestamp in
      let read_ok : is_ok read ≡ true = ground arith in
      let ((k, t), r) = is_ok-true read read_ok in
      let later : after t h.last_handshake_timestamp ≡ true = ground arith in
      let answered = answers c h p env k t r later in
      let g = received_initiation c h t (answering k p.unencrypted_ephemeral p.sender_idx none) in
      let (params, last) = response_keeps c g env in
      (
        k,
        t,
        r,
        ap (λ o. o.0.params) answered ∙ params,
        ap (λ o. o.0.last_handshake_timestamp) answered ∙ last,
      )

stale :
    (c : Crypto) (h : Handshake) (p : HandshakeInit) (env : Surroundings) (k : Chain) (t : Tai64N)
    → read_initiation c h.params classical_start p.unencrypted_ephemeral p.encrypted_static
        p.encrypted_timestamp
      ≡ ok (k, t)
    → after t h.last_handshake_timestamp ≡ false
    → receive_handshake_initialization c h p env ≡ (h, err wrong_tai64n_timestamp)
unfolding receive_handshake_initialization
stale c h p env k t e late = rw (e, late)

-- Once a handshake has accepted an initiation, the same initiation is refused for its timestamp,
-- and the refusal leaves the handshake as it was.
pub initiation_replayed :
    (c : Crypto) (h : Handshake) (env env' : Surroundings) (p : HandshakeInit)
    → is_ok (receive_handshake_initialization c h p env).1 ≡ true
    → receive_handshake_initialization c (receive_handshake_initialization c h p env).0 p env'
      ≡ ((receive_handshake_initialization c h p env).0, err wrong_tai64n_timestamp)
initiation_replayed c h env env' p e =
    let (k, t, r, params, last) = accepted c h env p e in
    let g = (receive_handshake_initialization c h p env).0 in
    stale c g p env' k t (rw params r) (rw last (after_irrefl t))

module _ (c : Crypto) (h : Handshake) (env : Surroundings) where
  -- An accepted initiation was read, and its timestamp is the one that is remembered.
  pq_accepted :
      (p : PqHandshakeInit)
      → is_ok (receive_pq_handshake_initialization c h p env).1 ≡ true
      → (k : Chain) × (t : Tai64N) × (read_initiation c h.params pq_start p.unencrypted_ephemeral
            p.encrypted_static p.encrypted_timestamp
          ≡ ok (k, t))
        × ((receive_pq_handshake_initialization c h p env).0.params ≡ h.params)
        × ((receive_pq_handshake_initialization c h p env).0.last_handshake_timestamp ≡ t)
  unfolding receive_pq_handshake_initialization received_initiation
  pq_accepted p e =
      let read =
        read_initiation c h.params pq_start p.unencrypted_ephemeral p.encrypted_static
          p.encrypted_timestamp in
      let read_ok : is_ok read ≡ true = ground arith in
      let ((k, t), r) = is_ok-true read read_ok in
      let later : after t h.last_handshake_timestamp ≡ true = ground arith in
      let answered = pq_answers c h p env k t r later in
      let g = received_initiation c h t (
        answering (mix_hash c k p.mlkem_ephemeral_public) p.unencrypted_ephemeral p.sender_idx
          (some p.mlkem_ephemeral_public)) in
      let (params, last) = pq_response_keeps c g env in
      (
        k,
        t,
        r,
        ap (λ o. o.0.params) answered ∙ params,
        ap (λ o. o.0.last_handshake_timestamp) answered ∙ last,
      )

pq_stale :
    (c : Crypto) (h : Handshake) (p : PqHandshakeInit) (env : Surroundings) (k : Chain) (t : Tai64N)
    → read_initiation c h.params pq_start p.unencrypted_ephemeral p.encrypted_static
        p.encrypted_timestamp
      ≡ ok (k, t)
    → after t h.last_handshake_timestamp ≡ false
    → receive_pq_handshake_initialization c h p env ≡ (h, err wrong_tai64n_timestamp)
unfolding receive_pq_handshake_initialization
pq_stale c h p env k t e late = rw (e, late)

-- Once a handshake has accepted a PQ initiation, the same initiation is refused for its timestamp,
-- and the refusal leaves the handshake as it was.
pub pq_initiation_replayed :
    (c : Crypto) (h : Handshake) (env env' : Surroundings) (p : PqHandshakeInit)
    → is_ok (receive_pq_handshake_initialization c h p env).1 ≡ true
    → receive_pq_handshake_initialization c (receive_pq_handshake_initialization c h p env).0 p env'
      ≡ ((receive_pq_handshake_initialization c h p env).0, err wrong_tai64n_timestamp)
pq_initiation_replayed c h env env' p e =
    let (k, t, r, params, last) = pq_accepted c h env p e in
    let g = (receive_pq_handshake_initialization c h p env).0 in
    pq_stale c g p env' k t (rw params r) (rw last (after_irrefl t))
