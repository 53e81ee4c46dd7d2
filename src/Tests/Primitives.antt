-- ===== src/Tests/Primitives.antt =====
-- Primitives that meet the documented behaviour: truncations and sums of the inputs.
use pq_boringtun.Base.{
  ℕ, suc, zero, ◌+◌, ◌≡◌, refl, ap, ap₂, arith, true, some, [], ◌∷◌, ◌++◌, length,
}
use pq_boringtun.Base.{take, replicate, length-append, length-take}
use pq_boringtun.Base.Bytes.{Bytes, bytes_eq, bytes_eq_iff}
use pq_boringtun.Crypto.{Crypto, CryptoLaws}
use pq_boringtun.Tests.Cipher.{plain, plain_laws}

-- The first `n` bytes of a text, with zeros behind it.
unfoldable pub sized : ℕ → Bytes → Bytes
sized n text = take n (text ++ replicate n 0)

abbrev add_bytes : Bytes → Bytes → Bytes
add_bytes [] ys = []
add_bytes (x ∷ xs) [] = []
add_bytes (x ∷ xs) (y ∷ ys) = (x + y) ∷ add_bytes xs ys

add_bytes_comm : (xs ys : Bytes) → add_bytes xs ys ≡ add_bytes ys xs
add_bytes_comm [] [] = refl
add_bytes_comm [] (y ∷ ys) = refl
add_bytes_comm (x ∷ xs) [] = refl
add_bytes_comm (x ∷ xs) (y ∷ ys) =
    ap₂ ◌∷◌ {x = x + y} {y = y + x} (omega arith) (add_bytes_comm xs ys)

length-zeros : (n : ℕ) → length {A = ℕ} (replicate n 0) ≡ n
length-zeros zero = refl
length-zeros (suc n) = ap suc (length-zeros n)

length-sized : (n : ℕ) (text : Bytes) → length (sized n text) ≡ n
unfolding sized
length-sized n text = ground (
  arith,
  length-take n (text ++ replicate n 0),
  length-append text (replicate n 0),
  length-zeros n,
)

abbrev pub simple : Crypto
simple = record {
  aead = plain;
  xaead = plain;
  blake2s = sized 32;
  hmac_blake2s = λ key text. sized 32 (text ++ key);
  blake2s_mac = λ n key text. sized n (key ++ text);
  public_key = sized 32;
  diffie_hellman = λ secret public. add_bytes (sized 32 secret) public;
  verify_slices_are_equal = bytes_eq;
  mlkem_generate = λ r. (r, sized 1184 r);
  mlkem_key_is_valid = λ key. true;
  mlkem_encapsulate = λ key r. (sized 1088 r, take 32 (sized 1088 r));
  mlkem_decapsulate = λ key ct. some (take 32 ct);
}

pub simple_laws : CryptoLaws simple 65535
simple_laws = record {
  aead_laws = plain_laws;
  xaead_laws = plain_laws;
  room = omega arith;
  dh_comm = λ s t. add_bytes_comm (sized 32 s) (sized 32 t);
  public_key_size = length-sized 32;
  mac_size = λ n key text. length-sized n (key ++ text);
  equal_iff = bytes_eq_iff;
  mlkem_valid = λ r. refl;
  mlkem_key_size = length-sized 1184;
  mlkem_ciphertext_size = λ key r. length-sized 1088 r;
  mlkem_correct = λ r s. refl;
}
