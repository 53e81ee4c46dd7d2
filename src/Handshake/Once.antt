-- ===== src/Handshake/Once.antt =====
-- A response ends one handshake, once.
use pq_boringtun.Base.{
  ℕ, ◌≡◌, ◌⊎◌, ap, ◌∙◌, inl, inr, Bool, true, false, none, some, arith, Option-cases,
}
use pq_boringtun.Errors.{err, is_ok, unexpected_packet}
use pq_boringtun.Crypto.{Crypto}
use pq_boringtun.Packet.{HandshakeResponse, PqHandshakeResponse}
use pq_boringtun.Handshake.{Handshake, HandshakeInitSentState}
use pq_boringtun.Handshake.Completion.{
  matching, awaiting, completed, receive_handshake_response, receive_pq_handshake_response,
}

-- At most one of the two slots waits for the index.
abbrev pub WaitsOnce : Handshake → ℕ → Type 0
WaitsOnce h index = (matching index h.state ≡ none) ⊎ (matching index h.previous ≡ none)

-- The slot that a response completes is empty behind it.
spent :
    (h : Handshake) (now : ℕ) (s : HandshakeInitSentState) (is_previous : Bool) (index : ℕ)
    → WaitsOnce h index
    → awaiting h index ≡ some (s, is_previous)
    → awaiting (completed h s is_previous now) index ≡ none
unfolding awaiting completed
spent h now s true index (inl e) waits = rw (awaiting, e)
spent h now s true index (inr e) waits = ground arith
spent h now s false index (inl e) waits = ground arith
spent h now s false index (inr e) waits = rw (awaiting, e)

module _ (c : Crypto) (h : Handshake) (p : HandshakeResponse) (now : ℕ) where
  unexpected :
      awaiting h p.receiver_idx ≡ none
      → receive_handshake_response c h p now ≡ (h, err unexpected_packet)
  unfolding receive_handshake_response
  unexpected e = rw (receive_handshake_response, e)

  taken :
      is_ok (receive_handshake_response c h p now).1 ≡ true
      → (s : HandshakeInitSentState) × (is_previous : Bool) × (awaiting h p.receiver_idx
          ≡ some (s, is_previous))
        × ((receive_handshake_response c h p now).0 ≡ completed h s is_previous now)
  unfolding receive_handshake_response
  taken e = elim (Option-cases (awaiting h p.receiver_idx)) [
    | inl none_waits ↦ absurd (ground arith)
    | inr ((s, b), waits) ↦ (s, b, waits, ground arith)
  ]

-- When one slot at most waits for the index, a response that completes a handshake is
-- unexpected when it arrives again, and the handshake stays as it was.
pub completes_once :
    (c : Crypto) (h : Handshake) (p : HandshakeResponse) (now later : ℕ)
    → WaitsOnce h p.receiver_idx
    → is_ok (receive_handshake_response c h p now).1 ≡ true
    → receive_handshake_response c (receive_handshake_response c h p now).0 p later
      ≡ ((receive_handshake_response c h p now).0, err unexpected_packet)
completes_once c h p now later once e =
    let (s, b, waits, after) = taken c h p now e in
    unexpected c (receive_handshake_response c h p now).0 p later
      (ap (λ g. awaiting g p.receiver_idx) after ∙ spent h now s b p.receiver_idx once waits)

module _ (c : Crypto) (h : Handshake) (p : PqHandshakeResponse) (now : ℕ) where
  pq_unexpected :
      awaiting h p.receiver_idx ≡ none
      → receive_pq_handshake_response c h p now ≡ (h, err unexpected_packet)
  unfolding receive_pq_handshake_response
  pq_unexpected e = rw (receive_pq_handshake_response, e)

  pq_taken :
      is_ok (receive_pq_handshake_response c h p now).1 ≡ true
      → (s : HandshakeInitSentState) × (is_previous : Bool) × (awaiting h p.receiver_idx
          ≡ some (s, is_previous))
        × ((receive_pq_handshake_response c h p now).0 ≡ completed h s is_previous now)
  unfolding receive_pq_handshake_response
  pq_taken e = elim (Option-cases (awaiting h p.receiver_idx)) [
    | inl none_waits ↦ absurd (ground arith)
    | inr ((s, b), waits) ↦ (s, b, waits, ground arith)
  ]

-- When one slot at most waits for the index, a PQ response that completes a handshake is
-- unexpected when it arrives again, and the handshake stays as it was.
pub pq_completes_once :
    (c : Crypto) (h : Handshake) (p : PqHandshakeResponse) (now later : ℕ)
    → WaitsOnce h p.receiver_idx
    → is_ok (receive_pq_handshake_response c h p now).1 ≡ true
    → receive_pq_handshake_response c (receive_pq_handshake_response c h p now).0 p later
      ≡ ((receive_pq_handshake_response c h p now).0, err unexpected_packet)
pq_completes_once c h p now later once e =
    let (s, b, waits, after) = pq_taken c h p now e in
    pq_unexpected c (receive_pq_handshake_response c h p now).0 p later
      (ap (λ g. awaiting g p.receiver_idx) after ∙ spent h now s b p.receiver_idx once waits)
