-- ===== src/Tests/Refusals.antt =====
-- Handshake messages that arrive twice, or that no handshake waits for.
use pq_boringtun.Base.{
  ◌≡◌, ◌≢◌, refl, ap, arith, inr, Bool, true, [], ◌∷◌, none, some, Option, replicate,
}
use pq_boringtun.Base.Bytes.{Bytes}
use pq_boringtun.Errors.{err, is_ok, wrong_tai64n_timestamp, unexpected_packet}
use pq_boringtun.Packet.{HandshakeResponse, PqHandshakeResponse}
use pq_boringtun.Handshake.{Handshake, HandshakeInitSentState, init_sent}
use pq_boringtun.Handshake.Initiation.{Surroundings}
use pq_boringtun.Handshake.Response.{
  receive_handshake_initialization, receive_pq_handshake_initialization,
}
use pq_boringtun.Handshake.Completion.{
  mix_decapsulated, open_response, new_handshake, awaiting, receive_handshake_response,
  receive_pq_handshake_response,
}
use pq_boringtun.Handshake.Chain.{aead_chacha20_open}
use pq_boringtun.Handshake.Once.{completes_once, pq_completes_once}
use pq_boringtun.Handshake.Refusal.{response_refused, pq_response_refused, classical_only, pq_only}
use pq_boringtun.Handshake.Replayed.{initiation_replayed, pq_initiation_replayed}
use pq_boringtun.Handshake.Agreement.{Handshaken, handshake_agreement}
use pq_boringtun.Handshake.PqAgreement.{PqHandshaken, pq_handshake_agreement}
use pq_boringtun.Tests.Primitives.{simple, simple_laws}
use pq_boringtun.Tests.Handshake.{alice_secret, bob_secret, alice, bob, surroundings, fresh_stamp}

abbrev alice_env : Surroundings
alice_env = surroundings (3 ∷ [])

abbrev bob_env : Surroundings
bob_env = surroundings (4 ∷ [])

abbrev stray : HandshakeResponse
stray = record {
  sender_idx = 1;
  receiver_idx = 2;
  unencrypted_ephemeral = [];
  encrypted_nothing = [];
}

abbrev pq_stray : PqHandshakeResponse
pq_stray = record {
  sender_idx = 1;
  receiver_idx = 2;
  unencrypted_ephemeral = [];
  encrypted_nothing = [];
  mlkem_ciphertext = [];
}

response_refused_example : (receive_handshake_response simple alice stray 7).0 ≡ alice
unfolding receive_handshake_response awaiting new_handshake
response_refused_example = response_refused simple alice stray 7 refl

pq_response_refused_example : (receive_pq_handshake_response simple alice pq_stray 7).0 ≡ alice
unfolding receive_pq_handshake_response awaiting new_handshake
pq_response_refused_example = pq_response_refused simple alice pq_stray 7 refl

meeting : Handshaken simple alice bob alice_env bob_env 2000
unfolding new_handshake
meeting =
    handshake_agreement simple 65535 simple_laws alice_secret bob_secret none alice bob alice_env
      bob_env 2000 refl refl (omega arith) (omega arith) (omega arith) (omega arith) fresh_stamp

completed_once :
    is_ok (receive_handshake_response simple meeting.alice_sent meeting.reply 2000).1 ≡ true
completed_once = ap (λ o. is_ok o.1) meeting.completes

initiation_replayed_example :
    receive_handshake_initialization simple
      (receive_handshake_initialization simple bob meeting.initiation bob_env).0
      meeting.initiation
      alice_env
    ≡ (
      (receive_handshake_initialization simple bob meeting.initiation bob_env).0,
      err wrong_tai64n_timestamp,
    )
initiation_replayed_example =
    initiation_replayed simple bob bob_env alice_env meeting.initiation
      (ap (λ o. is_ok o.1) meeting.answers)

pq_meeting : PqHandshaken simple alice bob alice_env bob_env 2000
unfolding new_handshake
pq_meeting =
    pq_handshake_agreement simple 65535 simple_laws alice_secret bob_secret none alice bob alice_env
      bob_env 2000 refl refl (omega arith) (omega arith) (omega arith) (omega arith) fresh_stamp

pq_completed_once :
    is_ok (receive_pq_handshake_response simple pq_meeting.alice_sent pq_meeting.reply 2000).1
    ≡ true
pq_completed_once = ap (λ o. is_ok o.1) pq_meeting.completes

pq_initiation_replayed_example :
    receive_pq_handshake_initialization simple
      (receive_pq_handshake_initialization simple bob pq_meeting.initiation bob_env).0
      pq_meeting.initiation
      alice_env
    ≡ (
      (receive_pq_handshake_initialization simple bob pq_meeting.initiation bob_env).0,
      err wrong_tai64n_timestamp,
    )
pq_initiation_replayed_example =
    pq_initiation_replayed simple bob bob_env alice_env pq_meeting.initiation
      (ap (λ o. is_ok o.1) pq_meeting.answers)

classical_only_example :
    (s : HandshakeInitSentState) × (is_previous : Bool) × (awaiting meeting.alice_sent
        meeting.reply.receiver_idx
      ≡ some (s, is_previous))
    × (s.mlkem_decapsulation_key ≡ none)
classical_only_example = classical_only simple meeting.alice_sent meeting.reply 2000 completed_once

pq_only_example :
    (s : HandshakeInitSentState) × (is_previous : Bool) × (awaiting pq_meeting.alice_sent
        pq_meeting.reply.receiver_idx
      ≡ some (s, is_previous))
    × (s.mlkem_decapsulation_key ≢ none)
pq_only_example = pq_only simple pq_meeting.alice_sent pq_meeting.reply 2000 pq_completed_once

-- A handshake that waits for a response to the index 5.
abbrev waiting : Option Bytes → Handshake
waiting dk = record alice {
  state = init_sent (record {
    local_index = 5;
    hash = [];
    chaining_key = [];
    ephemeral_private = [];
    time_sent = 1;
    mlkem_decapsulation_key = dk;
  });
}

abbrev expected : HandshakeResponse
expected = record {
  sender_idx = 1;
  receiver_idx = 5;
  unencrypted_ephemeral = [];
  encrypted_nothing = replicate 16 0;
}

abbrev pq_expected : PqHandshakeResponse
pq_expected = record {
  sender_idx = 1;
  receiver_idx = 5;
  unencrypted_ephemeral = [];
  encrypted_nothing = replicate 16 0;
  mlkem_ciphertext = replicate 1088 0;
}

completes_once_example :
    receive_handshake_response simple
      (receive_handshake_response simple (waiting none) expected 2).0
      expected
      3
    ≡ ((receive_handshake_response simple (waiting none) expected 2).0, err unexpected_packet)
unfolding receive_handshake_response awaiting new_handshake open_response aead_chacha20_open
completes_once_example = completes_once simple (waiting none) expected 2 3 (inr refl) refl

pq_completes_once_example :
    receive_pq_handshake_response simple
      (receive_pq_handshake_response simple (waiting (some [])) pq_expected 2).0
      pq_expected
      3
    ≡ (
      (receive_pq_handshake_response simple (waiting (some [])) pq_expected 2).0,
      err unexpected_packet,
    )
unfolding receive_pq_handshake_response awaiting new_handshake open_response aead_chacha20_open
    mix_decapsulated
pq_completes_once_example =
    pq_completes_once simple (waiting (some [])) pq_expected 2 3 (inr refl) refl
