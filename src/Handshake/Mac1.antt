-- ===== src/Handshake/Mac1.antt =====
-- Every message that a handshake writes carries a MAC1 that the peer can check.
use pq_boringtun.Base.{
  ℕ, ◌≡◌, ◌≢◌, ap, length-append, refl, arith, not, ◌==◌, ltb, ◌++◌, [], length, replicate, inl,
  inr, Option-cases, if_both,
}
use pq_boringtun.Base.Bytes.{Bytes}
use pq_boringtun.Errors.{Result, ok, err, panics, IfOk}
use pq_boringtun.Crypto.{Crypto, CryptoLaws}
use pq_boringtun.Packet.{
  PqHandshakeInit, pq_handshake_init_sz, pq_handshake_resp_sz, mlkem768_pk_size,
}
use pq_boringtun.Handshake.{
  Handshake, InitReceivedState, attempt, init_received, inc_index, stamp, after,
}
use pq_boringtun.Handshake.Chain.{b2s_keyed_mac_16, mix_hash, mix_key, aead_chacha20_seal}
use pq_boringtun.Handshake.Initiation.{
  Surroundings, append_mac1_and_mac2, format_pq_handshake_initiation, pq_start, write_initiation,
  sent_initiation,
}
use pq_boringtun.Handshake.Chain.{response_chain, mix_psk}
use pq_boringtun.Handshake.Response.{
  Answer, finish_pq_response, format_pq_handshake_response, receive_pq_handshake_initialization,
  received_initiation,
}

-- A message of a body, its MAC1 under the key, and 16 bytes more.
pub record HasMac1 (c : Crypto) (key text : Bytes) : Type 0 where
  pub body : Bytes
  pub rest : Bytes
  pub layout : text ≡ body ++ (b2s_keyed_mac_16 c key body ++ rest)
  pub size : length rest ≡ 16

attempt-IfOk {ℓ κ} :
    {A : Type ℓ} {B : Type κ} (P : B → Type 0) (h : Handshake) (r : Result A)
    (rest : A → Handshake × Result B)
    → ((a : A) → IfOk P (rest a).1)
    → IfOk P (attempt h r rest).1
attempt-IfOk P h (ok a) rest k = k a
attempt-IfOk P h (err e) rest k = tt
attempt-IfOk P h panics rest k = tt

module _ (c : Crypto) (limit : ℕ) (laws : CryptoLaws c limit) where
  pub HasMac1-bytes : {key text : Bytes} → HasMac1 c key text → length text ≢ 0
  HasMac1-bytes m = omega (arith, ap length m.layout, length-append {0}, m.size)

  append-HasMac1 :
      (h : Handshake) (index : ℕ) (message : Bytes)
      → HasMac1 c h.params.sending_mac1_key (append_mac1_and_mac2 c h index message).1
  unfolding append_mac1_and_mac2 b2s_keyed_mac_16
  append-HasMac1 h index message =
      let key = h.params.sending_mac1_key in
      let mac1 = b2s_keyed_mac_16 c key message in
      elim (Option-cases h.cookies.write_cookie) [
        | inl e ↦ record { body = message; rest = replicate 16 0; layout = rw e; size = refl }
        | inr (cookie, e) ↦ record {
          body = message;
          rest = b2s_keyed_mac_16 c cookie (message ++ mac1);
          layout = rw e;
          size = laws.mac_size 16 cookie (message ++ mac1);
        }
      ]

  pub pq_initiation-HasMac1 :
      (h : Handshake) (env : Surroundings)
      → IfOk (HasMac1 c h.params.sending_mac1_key) (format_pq_handshake_initiation c h env).1
  unfolding format_pq_handshake_initiation inc_index sent_initiation
  pq_initiation-HasMac1 h env =
      let P : Handshake × Result Bytes → Type 0 =
        λ o. IfOk (HasMac1 c h.params.sending_mac1_key) o.1 in
      if_both P (ltb env.dst_len pq_handshake_init_sz) _ _ (λ e. tt)
        λ e.
          attempt-IfOk (HasMac1 c h.params.sending_mac1_key) _
            (write_initiation c h.params pq_start env.ephemeral_private (stamp h.stamper env.now)) _
            (λ w. append-HasMac1 _ _ _)

  abbrev Macked : Handshake → Answer → Type 0
  Macked h answer = HasMac1 c h.params.sending_mac1_key answer.message

  finish-HasMac1 :
      (h : Handshake) (index : ℕ) (s : InitReceivedState) (ek : Bytes) (env : Surroundings)
      → IfOk (Macked h) (finish_pq_response c h index s ek env).1
  unfolding finish_pq_response
  finish-HasMac1 h index s ek env =
      let k =
        response_chain c (record { chaining_key = s.chaining_key; hash = s.hash })
          (c.public_key env.ephemeral_private)
          (c.diffie_hellman env.ephemeral_private s.peer_ephemeral_public)
          (c.diffie_hellman env.ephemeral_private h.params.peer_static_public) in
      let (ct, ss) = c.mlkem_encapsulate ek env.mlkem_random in
      let mixed = mix_psk c (mix_hash c (mix_key c k ss) ct) h.params.preshared_key in
      attempt-IfOk (Macked h) h (aead_chacha20_seal c mixed.1 0 [] mixed.0.hash) _
        (λ nothing. append-HasMac1 h index _)

  pq_response-HasMac1 :
      (h : Handshake) (s : InitReceivedState) (env : Surroundings)
      → h.state ≡ init_received s
      → IfOk (Macked h) (format_pq_handshake_response c h env).1
  unfolding format_pq_handshake_response inc_index
  pq_response-HasMac1 h s env e =
      if_both (λ (o : Handshake × Result Answer). IfOk (Macked h) o.1)
        (ltb env.dst_len pq_handshake_resp_sz) _ _ (λ small. tt)
        λ room. elim (Option-cases s.mlkem_encapsulation_key) [
          | inl none_sent ↦ rw (e, none_sent) tt
          | inr (ek, sent) ↦
              rw (e, sent)
                (if_both (λ (o : Handshake × Result Answer). IfOk (Macked h) o.1)
                  (not (length ek == mlkem768_pk_size)) _ _ (λ x. tt)
                  λ x.
                    if_both (λ (o : Handshake × Result Answer). IfOk (Macked h) o.1)
                      (not (c.mlkem_key_is_valid ek)) _ _ (λ y. tt)
                      (λ y. finish-HasMac1 _ _ s ek env))
        ]

  pub pq_answer-HasMac1 :
      (h : Handshake) (p : PqHandshakeInit) (env : Surroundings)
      → IfOk (Macked h) (receive_pq_handshake_initialization c h p env).1
  unfolding receive_pq_handshake_initialization received_initiation
  pq_answer-HasMac1 h p env = attempt-IfOk (Macked h) h _ _ λ r.
      if_both (λ (o : Handshake × Result Answer). IfOk (Macked h) o.1)
        (not (after r.1 h.last_handshake_timestamp)) _ _ (λ e. tt)
        (λ e. pq_response-HasMac1 _ _ env refl)
