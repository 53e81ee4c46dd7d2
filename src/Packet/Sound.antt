-- ===== src/Packet/Sound.antt =====
-- What `parse_incoming_packet` accepts is a message in its wire format, and nothing is lost.
use pq_boringtun.Base.{ℕ, ◌+◌, ◌-◌, ◌^◌, ◌≤◌, ◌<◌, ◌≡◌, refl, arith, []}
use pq_boringtun.Base.{
  length, drop, slice, Bool-cases, inl, inr, ◌==◌, ltb, leb, ◌&&◌, length-drop, length-slice,
}
use mathlib.Core.Path.{subst}
use pq_boringtun.Base.Bytes.{Bytes, IsBytes, from_le, from_le-lt, slice-IsBytes}
use pq_boringtun.Errors.{Result, ok, err, invalid_packet}
use pq_boringtun.Packet
use pq_boringtun.Packet.Fields
use pq_boringtun.Packet.Format
use pq_boringtun.Packet.Format.{tail_size, format, IsWellFormed}

-- The arm that `dispatch` takes, with what it has tested.
data Arm (src : Bytes) (t : ℕ) : Result Packet.Packet → Type 0 where
  on_init : t ≡ 1 → length src ≡ 148 → Arm src t (ok (Packet.init (Fields.fields_of_init src)))
  on_response :
      t ≡ 2 → length src ≡ 92 → Arm src t (ok (Packet.response (Fields.fields_of_response src)))
  on_cookie : t ≡ 3 → length src ≡ 64 → Arm src t (ok (Packet.cookie (Fields.fields_of_cookie src)))
  on_data : t ≡ 4 → 32 ≤ length src → Arm src t (ok (Packet.transport (Fields.fields_of_data src)))
  on_pq_init :
      t ≡ 5 → length src ≡ 1332 → Arm src t (ok (Packet.pq_init (Fields.fields_of_pq_init src)))
  on_pq_response :
      t ≡ 6
      → length src ≡ 1180
      → Arm src t (ok (Packet.pq_response (Fields.fields_of_pq_response src)))
  on_other : Arm src t (err invalid_packet)

dispatch-Arm : (src : Bytes) (t : ℕ) → Arm src t (Packet.dispatch t (length src) src)
unfolding Packet.dispatch
dispatch-Arm src t = elim (Bool-cases (t == 1 && length src == 148)) [
  | inl e ↦
      rw (e, Fields.read_init_within src (ground arith)) (on_init (ground arith) (ground arith))
  | inr n1 ↦ rw n1 (elim (Bool-cases (t == 2 && length src == 92)) [
    | inl e ↦
        rw (e, Fields.read_response_within src (ground arith))
          (on_response (ground arith) (ground arith))
    | inr n2 ↦ rw n2 (elim (Bool-cases (t == 3 && length src == 64)) [
      | inl e ↦
          rw (e, Fields.read_cookie_within src (ground arith))
            (on_cookie (ground arith) (ground arith))
      | inr n3 ↦ rw n3 (elim (Bool-cases (t == 4 && leb 32 (length src))) [
        | inl e ↦
            rw (e, Fields.read_data_within src (ground arith))
              (on_data (ground arith) (ground arith))
        | inr n4 ↦ rw n4 (elim (Bool-cases (t == 5 && length src == 1332)) [
          | inl e ↦
              rw (e, Fields.read_pq_init_within src (ground arith))
                (on_pq_init (ground arith) (ground arith))
          | inr n5 ↦ rw n5 (elim (Bool-cases (t == 6 && length src == 1180)) [
            | inl e ↦
                rw (e, Fields.read_pq_response_within src (ground arith))
                  (on_pq_response (ground arith) (ground arith))
            | inr n6 ↦ rw n6 on_other
          ])
        ])
      ])
    ])
  ])
]

parse-Arm : (src : Bytes) → Arm src (from_le (slice src 0 4)) (Packet.parse_incoming_packet src)
unfolding Packet.parse_incoming_packet
parse-Arm src = elim (Bool-cases (ltb (length src) 4)) [
  | inl e ↦ rw e on_other
  | inr e ↦
      rw (e, Fields.sub_slice_within src 0 4 (ground arith))
        (dispatch-Arm src (from_le (slice src 0 4)))
]

-- A message in its wire format, up to the MACs behind the fields.
abbrev pub IsFormatOf : Bytes → Packet.Packet → Type 0
IsFormatOf src p =
    (rest : Bytes) × (format p rest ≡ src) × (length rest ≡ tail_size p) × IsWellFormed p

module _ (src : Bytes) (bytes : IsBytes src) where
  le_bound : (a n : ℕ) → a + n ≤ length src → from_le (slice src a (a + n)) < 256 ^ n
  le_bound a n fits =
      rw cut at (from_le-lt (slice src a (a + n)) (slice-IsBytes src a (a + n) bytes))
    where
      cut : length (slice src a (a + n)) ≡ n
      cut = omega (arith, length-slice src a (a + n))

  cut : (a b : ℕ) → a ≤ b → b ≤ length src → length (slice src a b) ≡ b - a
  cut a b p q = length-slice src a b p q

  Arm-IsFormatOf : {p : Packet.Packet} → Arm src (from_le (slice src 0 4)) (ok p) → IsFormatOf src p
  unfolding Fields.fields_of_init Fields.fields_of_response Fields.fields_of_cookie
      Fields.fields_of_data Fields.fields_of_pq_init Fields.fields_of_pq_response
  Arm-IsFormatOf (on_init t len) = (
    drop 116 src,
    Format.read_back_init src bytes (omega arith) t,
    omega (arith, length-drop 116 src),
    (
      le_bound 4 4 (omega arith),
      cut 8 40 (omega arith) (omega arith),
      cut 40 88 (omega arith) (omega arith),
      cut 88 116 (omega arith) (omega arith),
    ),
  )
  Arm-IsFormatOf (on_response t len) = (
    drop 60 src,
    Format.read_back_response src bytes (omega arith) t,
    omega (arith, length-drop 60 src),
    (
      le_bound 4 4 (omega arith),
      le_bound 8 4 (omega arith),
      cut 12 44 (omega arith) (omega arith),
      cut 44 60 (omega arith) (omega arith),
    ),
  )
  Arm-IsFormatOf (on_cookie t len) = (
    drop 64 src,
    Format.read_back_cookie src bytes (omega arith) t,
    omega (arith, length-drop 64 src),
    (
      le_bound 4 4 (omega arith),
      cut 8 32 (omega arith) (omega arith),
      cut 32 64 (omega arith) (omega arith),
    ),
  )
  Arm-IsFormatOf (on_data t len) = (
    [],
    Format.read_back_data src bytes (omega arith) t,
    omega arith,
    (le_bound 4 4 (omega arith), le_bound 8 8 (omega arith), omega (arith, length-drop 16 src)),
  )
  Arm-IsFormatOf (on_pq_init t len) = (
    drop 1300 src,
    Format.read_back_pq_init src bytes (omega arith) t,
    omega (arith, length-drop 1300 src),
    (
      le_bound 4 4 (omega arith),
      cut 8 40 (omega arith) (omega arith),
      cut 40 88 (omega arith) (omega arith),
      cut 88 116 (omega arith) (omega arith),
      cut 116 1300 (omega arith) (omega arith),
    ),
  )
  Arm-IsFormatOf (on_pq_response t len) = (
    drop 1148 src,
    Format.read_back_pq_response src bytes (omega arith) t,
    omega (arith, length-drop 1148 src),
    (
      le_bound 4 4 (omega arith),
      le_bound 8 4 (omega arith),
      cut 12 44 (omega arith) (omega arith),
      cut 44 60 (omega arith) (omega arith),
      cut 60 1148 (omega arith) (omega arith),
    ),
  )

-- Parsing loses nothing: a datagram of bytes that `parse_incoming_packet` accepts is the wire
-- format of the packet that it returns, up to the MACs behind the fields of a handshake message
-- (32 bytes, none for the other messages), and each field has its size.
pub parse-IsFormatOf :
    (src : Bytes) (p : Packet.Packet)
    → IsBytes src
    → Packet.parse_incoming_packet src ≡ ok p
    → IsFormatOf src p
parse-IsFormatOf src p bytes e =
    Arm-IsFormatOf src bytes (subst (Arm src (from_le (slice src 0 4))) e (parse-Arm src))

refused :
    (src : Bytes)
    → IsBytes src
    → ((p : Packet.Packet) → ¬ IsFormatOf src p)
    → {r : Result Packet.Packet} → Arm src (from_le (slice src 0 4)) r
    → r ≡ err invalid_packet
refused src b h (on_init t len) = absurd (h _ (Arm-IsFormatOf src b (on_init t len)))
refused src b h (on_response t len) = absurd (h _ (Arm-IsFormatOf src b (on_response t len)))
refused src b h (on_cookie t len) = absurd (h _ (Arm-IsFormatOf src b (on_cookie t len)))
refused src b h (on_data t len) = absurd (h _ (Arm-IsFormatOf src b (on_data t len)))
refused src b h (on_pq_init t len) = absurd (h _ (Arm-IsFormatOf src b (on_pq_init t len)))
refused src b h (on_pq_response t len) = absurd (h _ (Arm-IsFormatOf src b (on_pq_response t len)))
refused src b h on_other = refl

-- Bytes that are no message's wire format are refused as an invalid packet; no slice is out of range,
-- where the reading would panic.
pub parse_rejects :
    (src : Bytes)
    → IsBytes src
    → ((p : Packet.Packet) → ¬ IsFormatOf src p)
    → Packet.parse_incoming_packet src ≡ err invalid_packet
parse_rejects src bytes h = refused src bytes h (parse-Arm src)
