-- ===== src/Handshake/Index.antt =====
-- The local index of a handshake, a `u32` whose low byte counts.
use pq_boringtun.Base.{ℕ, ◌+◌, ◌*◌, ◌/◌, ◌%◌, ◌^◌, ◌<◌, ◌≡◌, refl, ap, ◌∙◌, arith, bit_or}
use pq_boringtun.Base.Digits.{bit_or-low_byte, bit_and-clear_low_byte}
use pq_boringtun.Handshake.{Handshake, step_index, inc_index}

-- The upper 24 bits stay, and the low byte is stepped modulo 256.
pub step_index_lem :
    (index : ℕ) → index < 2 ^ 32 → step_index index ≡ index / 256 * 256 + (index % 256 + 1) % 256
unfolding step_index
step_index_lem index h =
    ap (λ high. bit_or high ((index % 256 + 1) % 256)) (bit_and-clear_low_byte index h)
    ∙ bit_or-low_byte (index / 256) ((index % 256 + 1) % 256) (omega arith)

pub step_index-lt : (index : ℕ) → index < 2 ^ 32 → step_index index < 2 ^ 32
step_index-lt index h = omega (arith, step_index_lem index h)

-- From an index that is a `u32`, a handshake's next local index is a `u32` with the same upper 24
-- bits, and as the slot of a session it is the next of the eight.
pub inc_index_lem :
    (h : Handshake)
    → h.next_index < 2 ^ 32
    → ((inc_index h).1 < 2 ^ 32)
      × ((inc_index h).1 / 256 ≡ h.next_index / 256)
      × ((inc_index h).1 % 8 ≡ (h.next_index % 8 + 1) % 8)
      × ((inc_index h).0.next_index ≡ (inc_index h).1)
unfolding inc_index
inc_index_lem h small =
    let e = step_index_lem h.next_index small in (omega arith, omega arith, omega arith, refl)
