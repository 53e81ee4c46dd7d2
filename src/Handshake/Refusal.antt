-- ===== src/Handshake/Refusal.antt =====
-- Responses and initiations that a handshake refuses.
use pq_boringtun.Base.{ℕ, ◌≡◌, ◌≢◌, inl, inr, Bool, true, false, none, some, arith, Option-cases}
use pq_boringtun.Errors.{is_ok}
use pq_boringtun.Crypto.{Crypto}
use pq_boringtun.Packet.{HandshakeResponse, PqHandshakeResponse, PacketCookieReply}
use pq_boringtun.Handshake.{Handshake, HandshakeInitSentState}
use pq_boringtun.Handshake.Completion.{
  mix_decapsulated, awaiting, receive_handshake_response, receive_pq_handshake_response,
  receive_cookie_reply,
}

module _ (c : Crypto) (h : Handshake) where
  -- A classical response that is not accepted, for whatever reason, leaves the handshake as it was.
  pub response_refused :
      (p : HandshakeResponse) (now : ℕ)
      → is_ok (receive_handshake_response c h p now).1 ≡ false
      → (receive_handshake_response c h p now).0 ≡ h
  unfolding receive_handshake_response
  response_refused p now e = ground arith

  -- A PQ response that is not accepted, for whatever reason, leaves the handshake as it was.
  pub pq_response_refused :
      (p : PqHandshakeResponse) (now : ℕ)
      → is_ok (receive_pq_handshake_response c h p now).1 ≡ false
      → (receive_pq_handshake_response c h p now).0 ≡ h
  unfolding receive_pq_handshake_response
  pq_response_refused p now e = ground arith

  -- A cookie reply that is not accepted, for whatever reason, leaves the handshake as it was.
  pub cookie_refused :
      (p : PacketCookieReply)
      → is_ok (receive_cookie_reply c h p).1 ≡ false
      → (receive_cookie_reply c h p).0 ≡ h
  unfolding receive_cookie_reply
  cookie_refused p e = ground arith

  -- A classical response is accepted only for a handshake that was started without ML-KEM.
  pub classical_only :
      (p : HandshakeResponse) (now : ℕ)
      → is_ok (receive_handshake_response c h p now).1 ≡ true
      → (s : HandshakeInitSentState) × (is_previous : Bool) × (awaiting h p.receiver_idx
          ≡ some (s, is_previous))
        × (s.mlkem_decapsulation_key ≡ none)
  unfolding receive_handshake_response
  classical_only p now e = elim (Option-cases (awaiting h p.receiver_idx)) [
    | inl none_waits ↦ absurd (ground arith)
    | inr ((s, b), waits) ↦ (s, b, waits, ground arith)
  ]

  -- A PQ response is accepted only for a handshake that was started with an ML-KEM key.
  pub pq_only :
      (p : PqHandshakeResponse) (now : ℕ)
      → is_ok (receive_pq_handshake_response c h p now).1 ≡ true
      → (s : HandshakeInitSentState) × (is_previous : Bool) × (awaiting h p.receiver_idx
          ≡ some (s, is_previous))
        × (s.mlkem_decapsulation_key ≢ none)
  unfolding receive_pq_handshake_response mix_decapsulated
  pq_only p now e = elim (Option-cases (awaiting h p.receiver_idx)) [
    | inl none_waits ↦ absurd (ground arith)
    | inr ((s, b), waits) ↦ (s, b, waits, λ none_kept. ground arith)
  ]
