-- ===== src/Tests/Keys.antt =====
-- A key in hexadecimal, and a text that is not base64.
use pq_boringtun.Base.{ℕ, ◌≡◌, ◌⊎◌, ◌↔◌, inl, refl, none, some, Option, length, replicate, arith}
use pq_boringtun.Base.Bytes.{Bytes}
use pq_boringtun.Keys.{key, from_str}
use pq_boringtun.Keys.Hex.{to_hex, from_str-to_hex, base64_keys}

abbrev refuses : Bytes → Option Bytes
refuses s = none

abbrev secret : Bytes
secret = replicate 32 171

from_str-to_hex_example : from_str refuses (to_hex secret) ≡ key secret
from_str-to_hex_example = from_str-to_hex refuses secret (omega arith) refl

base64_keys_example : (from_str refuses (replicate 43 33) ≡ key (replicate 32 0)) ↔ (
    ((refuses (replicate 43 33) ≡ some (replicate 32 0)) × (length {A = ℕ} (replicate 32 0) ≡ 32))
    ⊎ ((refuses (replicate 43 33) ≡ none) × (◌≡◌ {A = Bytes} (replicate 32 0) (replicate 32 0))))
base64_keys_example = base64_keys refuses (replicate 43 33) (replicate 32 0) (inl refl)
