-- ===== src/Packet/Complete.antt =====
-- Every well-formed message in its wire format is parsed to itself.
use pq_boringtun.Base.{
  ℕ, ◌+◌, ◌^◌, ◌≤◌, ◌<◌, ◌≡◌, refl, ap, ◌∙◌, arith, ◌++◌, [], ◌∷◌, length, drop, slice, le→leb,
}
use mathlib.Core.List.{append-nil}
use pq_boringtun.Base.{length-append, slice_next}
use pq_boringtun.Base.Bytes.{Bytes, from_le, to_le, from_le-to_le, length-to_le}
use pq_boringtun.Errors.{ok}
use pq_boringtun.Packet
use pq_boringtun.Packet.Fields
use pq_boringtun.Packet.Format.{tail_size, format, IsWellFormed}

-- The fields are read one after another.
module _ (src : Bytes) (n k : ℕ) {x : ℕ} {ys : Bytes} where
  le_next :
      drop n src ≡ to_le k x ++ ys
      → x < 256 ^ k
      → (from_le (slice src n (n + k)) ≡ x) × (drop (n + k) src ≡ ys)
  le_next e h =
      let (s, d) = slice_next src n k e (length-to_le k x) in
      (ap from_le s ∙ from_le-to_le k x h, d)

-- What `dispatch` does on a datagram of a given type and length.
parse_typed :
    (src : Bytes) (t len : ℕ)
    → from_le (slice src 0 4) ≡ t
    → length src ≡ len
    → 4 ≤ len
    → Packet.parse_incoming_packet src ≡ Packet.dispatch t len src
unfolding Packet.parse_incoming_packet
parse_typed src t len e f h =
    rw (Fields.sub_slice_within src 0 4 (omega arith), e, f) (ground arith)

parse_init :
    (p : Packet.HandshakeInit) (rest : Bytes)
    → IsWellFormed (Packet.init p)
    → length rest ≡ 32
    → Packet.parse_incoming_packet (format (Packet.init p) rest) ≡ ok (Packet.init p)
unfolding format Packet.dispatch Fields.fields_of_init
parse_init p rest w tail =
    let src = format (Packet.init p) rest in
    let size : length src ≡ 148 = omega (arith, length-append {0}, length-to_le, w) in
    let (s0, d0) = le_next src 0 4 {x = 1} refl (omega arith) in
    let (s1, d1) = le_next src 4 4 d0 w.0 in
    let (s2, d2) = slice_next src 8 32 d1 w.1 in
    let (s3, d3) = slice_next src 40 48 d2 w.2 in
    let (s4, d4) = slice_next src 88 28 d3 w.3 in
    parse_typed src 1 148 s0 size (omega arith)
    ∙ rw (Fields.read_init_within src (omega arith), s1, s2, s3, s4)

parse_response :
    (p : Packet.HandshakeResponse) (rest : Bytes)
    → IsWellFormed (Packet.response p)
    → length rest ≡ 32
    → Packet.parse_incoming_packet (format (Packet.response p) rest) ≡ ok (Packet.response p)
unfolding format Packet.dispatch Fields.fields_of_response
parse_response p rest w tail =
    let src = format (Packet.response p) rest in
    let size : length src ≡ 92 = omega (arith, length-append {0}, length-to_le, w) in
    let (s0, d0) = le_next src 0 4 {x = 2} refl (omega arith) in
    let (s1, d1) = le_next src 4 4 d0 w.0 in
    let (s2, d2) = le_next src 8 4 d1 w.1 in
    let (s3, d3) = slice_next src 12 32 d2 w.2 in
    let (s4, d4) = slice_next src 44 16 d3 w.3 in
    parse_typed src 2 92 s0 size (omega arith)
    ∙ rw (Fields.read_response_within src (omega arith), s1, s2, s3, s4)

parse_cookie :
    (p : Packet.PacketCookieReply) (rest : Bytes)
    → IsWellFormed (Packet.cookie p)
    → length rest ≡ 0
    → Packet.parse_incoming_packet (format (Packet.cookie p) rest) ≡ ok (Packet.cookie p)
unfolding format Packet.dispatch Fields.fields_of_cookie
parse_cookie p rest w tail =
    let src = format (Packet.cookie p) rest in
    let size : length src ≡ 64 = omega (arith, length-append {0}, length-to_le, w) in
    let (s0, d0) = le_next src 0 4 {x = 3} refl (omega arith) in
    let (s1, d1) = le_next src 4 4 d0 w.0 in
    let (s2, d2) = slice_next src 8 24 d1 w.1 in
    let (s3, d3) = slice_next src 32 32 d2 w.2 in
    parse_typed src 3 64 s0 size (omega arith)
    ∙ rw (Fields.read_cookie_within src (omega arith), s1, s2, s3)

parse_pq_init :
    (p : Packet.PqHandshakeInit) (rest : Bytes)
    → IsWellFormed (Packet.pq_init p)
    → length rest ≡ 32
    → Packet.parse_incoming_packet (format (Packet.pq_init p) rest) ≡ ok (Packet.pq_init p)
unfolding format Packet.dispatch Fields.fields_of_pq_init
parse_pq_init p rest w tail =
    let src = format (Packet.pq_init p) rest in
    let size : length src ≡ 1332 = omega (arith, length-append {0}, length-to_le, w) in
    let (s0, d0) = le_next src 0 4 {x = 5} refl (omega arith) in
    let (s1, d1) = le_next src 4 4 d0 w.0 in
    let (s2, d2) = slice_next src 8 32 d1 w.1 in
    let (s3, d3) = slice_next src 40 48 d2 w.2 in
    let (s4, d4) = slice_next src 88 28 d3 w.3 in
    let (s5, d5) = slice_next src 116 1184 d4 w.4 in
    parse_typed src 5 1332 s0 size (omega arith)
    ∙ rw (Fields.read_pq_init_within src (omega arith), s1, s2, s3, s4, s5)

parse_pq_response :
    (p : Packet.PqHandshakeResponse) (rest : Bytes)
    → IsWellFormed (Packet.pq_response p)
    → length rest ≡ 32
    → Packet.parse_incoming_packet (format (Packet.pq_response p) rest) ≡ ok (Packet.pq_response p)
unfolding format Packet.dispatch Fields.fields_of_pq_response
parse_pq_response p rest w tail =
    let src = format (Packet.pq_response p) rest in
    let size : length src ≡ 1180 = omega (arith, length-append {0}, length-to_le, w) in
    let (s0, d0) = le_next src 0 4 {x = 6} refl (omega arith) in
    let (s1, d1) = le_next src 4 4 d0 w.0 in
    let (s2, d2) = le_next src 8 4 d1 w.1 in
    let (s3, d3) = slice_next src 12 32 d2 w.2 in
    let (s4, d4) = slice_next src 44 16 d3 w.3 in
    let (s5, d5) = slice_next src 60 1088 d4 w.4 in
    parse_typed src 6 1180 s0 size (omega arith)
    ∙ rw (Fields.read_pq_response_within src (omega arith), s1, s2, s3, s4, s5)

parse_data :
    (p : Packet.PacketData) (rest : Bytes)
    → IsWellFormed (Packet.transport p)
    → length rest ≡ 0
    → Packet.parse_incoming_packet (format (Packet.transport p) rest) ≡ ok (Packet.transport p)
unfolding format Packet.dispatch Fields.fields_of_data
parse_data p (x ∷ rest) w tail = absurd (omega arith)
parse_data p [] w tail =
    let src = format (Packet.transport p) [] in
    let size : 32 ≤ length src = omega (arith, length-append {0}, length-to_le, w) in
    let (s0, d0) = le_next src 0 4 {x = 4} refl (omega arith) in
    let (s1, d1) = le_next src 4 4 d0 w.0 in
    let (s2, d2) = le_next src 8 8 d1 w.1 in
    let body : drop 16 src ≡ p.encrypted_encapsulated_packet = d2 ∙ append-nil _ in
    parse_typed src 4 (length src) s0 refl (omega arith)
    ∙ rw (le→leb 32 (length src) size, Fields.read_data_within src (omega arith), s1, s2, body)

-- A well-formed packet in its wire format, followed by as many bytes as its MACs take, is parsed
-- to itself.
pub parse-format :
    (p : Packet.Packet) (rest : Bytes)
    → IsWellFormed p
    → length rest ≡ tail_size p
    → Packet.parse_incoming_packet (format p rest) ≡ ok p
parse-format (Packet.init p) rest w tail = parse_init p rest w tail
parse-format (Packet.response p) rest w tail = parse_response p rest w tail
parse-format (Packet.cookie p) rest w tail = parse_cookie p rest w tail
parse-format (Packet.transport p) rest w tail = parse_data p rest w tail
parse-format (Packet.pq_init p) rest w tail = parse_pq_init p rest w tail
parse-format (Packet.pq_response p) rest w tail = parse_pq_response p rest w tail
