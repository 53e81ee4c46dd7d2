-- ===== src/Tests/Handshake.antt =====
-- Handshakes of two parties, with 65535 bytes of room and clocks in nanoseconds.
use pq_boringtun.Base.{
  ◌+◌, ◌/◌, ◌%◌, ◌^◌, ◌<◌, ◌≡◌, refl, arith, true, List, [], ◌∷◌, none, replicate,
}
use pq_boringtun.Base.Bytes.{Bytes, from_be, from_le, to_be, to_le}
use pq_boringtun.Base.{slice}
use pq_boringtun.Handshake.{
  Handshake, TimeStamper, tai64n_zero, inc_index, after, parse_tai64n, stamp,
}
use pq_boringtun.Handshake.Initiation.{Surroundings}
use pq_boringtun.Handshake.Completion.{new_handshake}
use pq_boringtun.Handshake.Index.{inc_index_lem}
use pq_boringtun.Handshake.Clock.{stamp_after}
use pq_boringtun.Handshake.Agreement.{Handshaken, handshake_agreement}
use pq_boringtun.Handshake.PqAgreement.{PqHandshaken, pq_handshake_agreement}
use pq_boringtun.Handshake.Tunnelled.{Delivers, handshake-Delivers, pq_handshake-Delivers}
use pq_boringtun.Tests.Cipher.{plain}
use pq_boringtun.Tests.Primitives.{simple, simple_laws, sized}

abbrev pub alice_secret : Bytes
alice_secret = 7 ∷ []

abbrev pub bob_secret : Bytes
bob_secret = 9 ∷ []

abbrev pub clock : TimeStamper
clock = record { duration_at_start = 10 ^ 18; instant_at_start = 5 }

abbrev pub alice : Handshake
alice =
    new_handshake simple alice_secret (sized 32 alice_secret) (sized 32 bob_secret) 256 none clock

abbrev pub bob : Handshake
bob = new_handshake simple bob_secret (sized 32 bob_secret) (sized 32 alice_secret) 512 none clock

abbrev pub surroundings : Bytes → Surroundings
surroundings secret = record {
  dst_len = 65535;
  now = 1000;
  sent_at = 1001;
  ephemeral_private = secret;
  mlkem_random = secret;
}

pub fresh_stamp : after (parse_tai64n (stamp clock 1000)) tai64n_zero ≡ true
unfolding after parse_tai64n stamp from_be from_le to_be to_le slice
fresh_stamp = refl

handshake_agreement_example :
    Handshaken simple alice bob (surroundings (3 ∷ [])) (surroundings (4 ∷ [])) 2000
unfolding new_handshake
handshake_agreement_example =
    handshake_agreement simple 65535 simple_laws alice_secret bob_secret none alice bob
      (surroundings (3 ∷ [])) (surroundings (4 ∷ [])) 2000 refl refl (omega arith) (omega arith)
      (omega arith) (omega arith) fresh_stamp

pq_handshake_agreement_example :
    PqHandshaken simple alice bob (surroundings (3 ∷ [])) (surroundings (4 ∷ [])) 2000
unfolding new_handshake
pq_handshake_agreement_example =
    pq_handshake_agreement simple 65535 simple_laws alice_secret bob_secret none alice bob
      (surroundings (3 ∷ [])) (surroundings (4 ∷ [])) 2000 refl refl (omega arith) (omega arith)
      (omega arith) (omega arith) fresh_stamp

abbrev room : Bytes
room = replicate 64 0

abbrev payloads : List Bytes
payloads = (104 ∷ 105 ∷ []) ∷ [] ∷ []

handshake-Delivers_example :
    (m : Handshaken simple alice bob (surroundings (3 ∷ [])) (surroundings (4 ∷ [])) 2000)
    × Delivers plain room m.session m.answer.session payloads
    × Delivers plain room m.answer.session m.session payloads
unfolding new_handshake
handshake-Delivers_example =
    handshake-Delivers simple 65535 simple_laws alice_secret bob_secret none alice bob
      (surroundings (3 ∷ [])) (surroundings (4 ∷ [])) 2000 room payloads refl refl (omega arith)
      (omega arith) (omega arith) (omega arith) fresh_stamp (omega arith)

pq_handshake-Delivers_example :
    (m : PqHandshaken simple alice bob (surroundings (3 ∷ [])) (surroundings (4 ∷ [])) 2000)
    × Delivers plain room m.session m.answer.session payloads
    × Delivers plain room m.answer.session m.session payloads
unfolding new_handshake
pq_handshake-Delivers_example =
    pq_handshake-Delivers simple 65535 simple_laws alice_secret bob_secret none alice bob
      (surroundings (3 ∷ [])) (surroundings (4 ∷ [])) 2000 room payloads refl refl (omega arith)
      (omega arith) (omega arith) (omega arith) fresh_stamp (omega arith)

inc_index_lem_example :
    ((inc_index alice).1 < 2 ^ 32)
    × ((inc_index alice).1 / 256 ≡ alice.next_index / 256)
    × ((inc_index alice).1 % 8 ≡ (alice.next_index % 8 + 1) % 8)
    × ((inc_index alice).0.next_index ≡ (inc_index alice).1)
unfolding new_handshake
inc_index_lem_example = inc_index_lem alice (omega arith)

stamp_after_example : after (parse_tai64n (stamp clock 8)) (parse_tai64n (stamp clock 7)) ≡ true
stamp_after_example = stamp_after clock 7 8 (omega arith) (omega arith) (omega arith)
