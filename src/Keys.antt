-- ===== src/Keys.antt =====
-- Keys as text: `KeyBytes::from_str` of boringtun/src/serialization.rs. A string is its bytes;
-- `decode` is that of the crate base64.
pub mod Hex
use pq_boringtun.Base.{
  ℕ, zero, suc, ◌+◌, ◌-◌, ◌*◌, Bool, true, not, ◌&&◌, ◌||◌, ltb, leb, ◌==◌, if◌then◌else◌, [], ◌∷◌,
  length, take, drop, replicate, Option, none, some,
}
use pq_boringtun.Base.Bytes.{Bytes}

pub data KeyError : Type 0 where
  illegal_character illegal_size : KeyError

-- A panic is an outcome of its own.
pub data Parsed : Type 0 where
  key : Bytes → Parsed
  illegal : KeyError → Parsed
  crashed : Parsed

unfoldable pub hex_digit : ℕ → Option ℕ
hex_digit x =
    if leb 48 x && leb x 57
    then some (x - 48)
    else if leb 97 x && leb x 102
    then some (x - 87)
    else if leb 65 x && leb x 70
    then some (x - 55)
    else none

abbrev pub join_digits : Option ℕ → Option ℕ → Option ℕ
join_digits (some a) (some b) = some (16 * a + b)
join_digits (some a) none = none
join_digits none b = none

-- `u8::from_str_radix(s, 16)` on two bytes: a plus sign may stand in front of the digits.
unfoldable pub from_str_radix : Bytes → Option ℕ
from_str_radix [] = none
from_str_radix (a ∷ []) = hex_digit a
from_str_radix (a ∷ (b ∷ rest)) =
    if a == 43 then hex_digit b else join_digits (hex_digit a) (hex_digit b)

-- A slice of a string panics where a character goes on.
abbrev pub is_char_boundary : Bytes → Bool
is_char_boundary [] = true
is_char_boundary (b ∷ bs) = not (leb 128 b && ltb b 192)

abbrev pub push_byte : ℕ → Parsed → Parsed
push_byte b (key bs) = key (b ∷ bs)
push_byte b (illegal e) = illegal e
push_byte b crashed = crashed

-- `n` passes of the loop over the pairs of digits.
unfoldable pub parse_hex : ℕ → Bytes → Parsed
parse_hex zero s = key []
parse_hex (suc n) s =
    let rest = parse_hex n (drop 2 s) in
    if not (is_char_boundary s && is_char_boundary (drop 2 s))
    then crashed
    else elim (from_str_radix (take 2 s)) [
      | none ↦ illegal illegal_character
      | some b ↦ push_byte b rest
    ]

unfoldable pub from_str : (Bytes → Option Bytes) → Bytes → Parsed
from_str decode s =
    if length s == 64
    then parse_hex 32 s
    else if length s == 43 || length s == 44
    then elim (decode s) [
      | some decoded_key ↦
          if length decoded_key == 32 then key decoded_key else illegal illegal_character
      | none ↦ key (replicate 32 0)
    ]
    else illegal illegal_size
