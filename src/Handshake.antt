-- ===== src/Handshake.antt =====
-- The state of a handshake, of boringtun/src/noise/handshake.rs, and its small operations.
-- Instants are nanoseconds of a monotonic clock; secrets and randomness are arguments.
pub mod Mac1
pub mod Chain
pub mod Initiation
pub mod Response
pub mod Completion
pub mod Anonymous
pub mod Index
pub mod Seal
pub mod Macs
pub mod Steps
pub mod Opening
pub mod Reply
pub mod Agreement
pub mod PqReply
pub mod PqAgreement
pub mod Refusal
pub mod Clock
pub mod Replayed
pub mod Once
pub mod Tunnelled
use pq_boringtun.Base.{ℕ, ◌+◌, ◌-◌, ◌*◌, ◌/◌, ◌%◌, ◌^◌, Bool, true, false, ◌&&◌, ◌||◌, not}
use pq_boringtun.Base.{Option, none, some, ltb, ◌==◌, if◌then◌else◌, ◌++◌, bit_and, bit_or, slice}
use pq_boringtun.Base.Bytes.{Bytes, from_be, to_be}
use pq_boringtun.Errors.{Result, ok, err, panics}
use pq_boringtun.Crypto.{Crypto}

-- `Tai64N`
pub record Tai64N : Type 0 where
  pub secs : ℕ
  pub nano : ℕ

abbrev pub tai64n_zero : Tai64N
tai64n_zero = record { secs = 0; nano = 0 }

-- `Tai64N::parse`: its argument has 12 bytes, so the error for a shorter one is not reached.
unfoldable pub parse_tai64n : Bytes → Tai64N
parse_tai64n buf = record { secs = from_be (slice buf 0 8); nano = from_be (slice buf 8 12) }

unfoldable pub after : Tai64N → Tai64N → Bool
after t other = ltb other.secs t.secs || (t.secs == other.secs && ltb other.nano t.nano)

-- `TimeStamper`: the wall clock and the monotonic clock at its start, in nanoseconds.
pub record TimeStamper : Type 0 where
  pub duration_at_start : ℕ
  pub instant_at_start : ℕ

abbrev pub tai64_base : ℕ
tai64_base = 2 ^ 62 + 37

unfoldable pub stamp : TimeStamper → ℕ → Bytes
stamp t now =
    let elapsed = now - t.instant_at_start + t.duration_at_start in
    to_be 8 (elapsed / 10 ^ 9 + tai64_base) ++ to_be 4 (elapsed % 10 ^ 9)

pub record NoiseParams : Type 0 where
  pub static_public : Bytes
  pub static_private : Bytes
  pub peer_static_public : Bytes
  pub static_shared : Bytes
  pub sending_mac1_key : Bytes
  pub preshared_key : Option Bytes

pub record HandshakeInitSentState : Type 0 where
  pub local_index : ℕ
  pub hash : Bytes
  pub chaining_key : Bytes
  pub ephemeral_private : Bytes
  pub time_sent : ℕ
  pub mlkem_decapsulation_key : Option Bytes

pub record InitReceivedState : Type 0 where
  pub hash : Bytes
  pub chaining_key : Bytes
  pub peer_ephemeral_public : Bytes
  pub peer_index : ℕ
  pub mlkem_encapsulation_key : Option Bytes

pub data HandshakeState : Type 0 where
  idle : HandshakeState
  init_sent : HandshakeInitSentState → HandshakeState
  init_received : InitReceivedState → HandshakeState
  expired : HandshakeState

pub record Cookies : Type 0 where
  pub last_mac1 : Option Bytes
  pub index : ℕ
  pub write_cookie : Option Bytes

pub record Handshake : Type 0 where
  pub params : NoiseParams
  pub next_index : ℕ
  pub previous : HandshakeState
  pub state : HandshakeState
  pub cookies : Cookies
  pub last_handshake_timestamp : Tai64N
  pub stamper : TimeStamper
  pub last_rtt : Option ℕ

-- `?` and `unwrap` in a method: an error or a panic leaves the handshake as it stands.
abbrev pub attempt {ℓ κ} :
    {A : Type ℓ} {B : Type κ}
    → Handshake
    → Result A
    → (A → Handshake × Result B)
    → Handshake × Result B
attempt h (ok a) rest = rest a
attempt h (err e) rest = (h, err e)
attempt h panics rest = (h, panics)

unfoldable pub is_in_progress : Handshake → Bool
is_in_progress h = elim (h.state) [
  | idle ↦ false
  | expired ↦ false
  | init_sent s ↦ true
  | init_received s ↦ true
]

unfoldable pub timer : Handshake → Option ℕ
timer h = elim (h.state) [ init_sent s ↦ some s.time_sent | _ ↦ none ]

unfoldable pub set_expired : Handshake → Handshake
set_expired h = record h { previous = expired; state = expired }

unfoldable pub is_expired : Handshake → Bool
is_expired h = elim (h.state) [ expired ↦ true | _ ↦ false ]

unfoldable pub has_cookie : Handshake → Bool
has_cookie h = elim (h.cookies.write_cookie) [ some c ↦ true | none ↦ false ]

unfoldable pub clear_cookie : Handshake → Handshake
clear_cookie h = record h { cookies = record (h.cookies) { write_cookie = none } }

-- A `u32`: the low byte is stepped and wraps, the upper 24 bits stay.
unfoldable pub step_index : ℕ → ℕ
step_index index = bit_or (bit_and index (2 ^ 32 - 1 - 0xff)) ((index % 256 + 1) % 256)

unfoldable pub inc_index : Handshake → Handshake × ℕ
inc_index h = let next = step_index h.next_index in (record h { next_index = next }, next)
