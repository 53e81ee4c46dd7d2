-- ===== src/Keys/Hex.antt =====
-- Which texts are keys.
use pq_boringtun.Base.{
  ℕ, ◌+◌, ◌*◌, ◌/◌, ◌%◌, ◌<◌, ◌≡◌, ◌⊎◌, ◌↔◌, inl, inr, refl, ==_ne, ap, arith, ltb, if◌then◌else◌,
  [], ◌∷◌, length, replicate, Option, none, some, Option-cases,
}
use pq_boringtun.Base.{true}
use pq_boringtun.Base.Bytes.{Bytes, IsBytes}
use pq_boringtun.Keys.{key, hex_digit, from_str_radix, is_char_boundary, parse_hex, from_str}

-- Lower-case hexadecimal digits.
abbrev pub hex_char : ℕ → ℕ
hex_char d = if ltb d 10 then 48 + d else 87 + d

abbrev pub to_hex : Bytes → Bytes
to_hex [] = []
to_hex (b ∷ bs) = hex_char (b / 16) ∷ (hex_char (b % 16) ∷ to_hex bs)

hex_digit-hex_char : (d : ℕ) → d < 16 → hex_digit (hex_char d) ≡ some d
unfolding hex_digit
hex_digit-hex_char d h = ground arith

hex_char_small : (d : ℕ) → d < 16 → (hex_char d < 128) × (43 < hex_char d)
hex_char_small d h = (ground arith, ground arith)

to_hex-boundary : (bs : Bytes) → IsBytes bs → is_char_boundary (to_hex bs) ≡ true
to_hex-boundary [] h = refl
to_hex-boundary (b ∷ bs) h = let small = hex_char_small (b / 16) (omega arith) in ground arith

length-to_hex : (bs : Bytes) → length (to_hex bs) ≡ 2 * length bs
length-to_hex [] = refl
length-to_hex (b ∷ bs) = omega (arith, length-to_hex bs)

byte-to_hex :
    (b : ℕ) → b < 256 → from_str_radix (hex_char (b / 16) ∷ (hex_char (b % 16) ∷ [])) ≡ some b
unfolding from_str_radix
byte-to_hex b h =
    let small = hex_char_small (b / 16) (omega arith) in
    let high = hex_digit-hex_char (b / 16) (omega arith) in
    let low = hex_digit-hex_char (b % 16) (omega arith) in
    rw (==_ne (hex_char (b / 16)) 43 (λ e. omega arith), high, low) (ap some (omega arith))

parse_hex-to_hex : (bs : Bytes) → IsBytes bs → parse_hex (length bs) (to_hex bs) ≡ key bs
unfolding parse_hex
parse_hex-to_hex [] h = refl
parse_hex-to_hex (b ∷ bs) h =
    let here = to_hex-boundary (b ∷ bs) h in
    let next = to_hex-boundary bs h.1 in rw (here, next, byte-to_hex b h.0, parse_hex-to_hex bs h.1)

-- A key of 32 bytes, printed in hexadecimal, is read back.
pub from_str-to_hex :
    (decode : Bytes → Option Bytes) (bs : Bytes)
    → IsBytes bs
    → length bs ≡ 32
    → from_str decode (to_hex bs) ≡ key bs
unfolding from_str
from_str-to_hex decode bs h size =
    let len : length (to_hex bs) ≡ 64 = omega (arith, length-to_hex bs) in
    rw (len, ← size) (parse_hex-to_hex bs h)

-- A text of 43 or 44 bytes gives the key that base64 decodes it to, when that has 32 bytes, and
-- the key of 32 zeros when base64 does not decode it at all; it gives no other key.
pub base64_keys :
    (decode : Bytes → Option Bytes) (s k : Bytes)
    → (length s ≡ 43) ⊎ (length s ≡ 44)
    → (from_str decode s ≡ key k)
      ↔ (((decode s ≡ some k) × (length k ≡ 32)) ⊎ ((decode s ≡ none) × (k ≡ replicate 32 0)))
unfolding from_str
base64_keys decode s k len = elim (Option-cases (decode s)) [
  | inl fails ↦ (λ e. inr (fails, ground arith), λ o. ground arith)
  | inr (d, decodes) ↦ (λ e. inl (ground arith, ground arith), λ o. ground arith)
]
