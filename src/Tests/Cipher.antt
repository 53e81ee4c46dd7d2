-- ===== src/Tests/Cipher.antt =====
-- A cipher that meets the documented behaviour: the plaintext, and a tag of 16 zeros.
use pq_boringtun.Base.{
  ◌+◌, ◌-◌, ◌≡◌, refl, arith, Option, none, some, ◌++◌, length, take, replicate,
}
use pq_boringtun.Base.{ltb, if◌then◌else◌, length-append, length-take, take-append}
use pq_boringtun.Base.Bytes.{Bytes}
use pq_boringtun.Aead.{Aead, AeadLaws}

abbrev pub plain_unseal : Bytes → Option Bytes
plain_unseal ct = if ltb (length ct) 16 then none else some (take (length ct - 16) ct)

abbrev pub plain : Aead
plain = record {
  seal = λ key nonce aad text. some (text, replicate 16 0);
  unseal = λ key nonce aad ct. plain_unseal ct;
}

plain_seal_sizes :
    (text ct tag : Bytes)
    → ◌≡◌ {A = Option (Bytes × Bytes)} (some (text, replicate 16 0)) (some (ct, tag))
    → (length ct ≡ length text) × (length tag ≡ 16)
plain_seal_sizes text ct tag e =
    let p : text ≡ ct = cc in let q : replicate 16 0 ≡ tag = cc in rw (← p, ← q) (refl, refl)

plain_round_trip :
    (text ct tag : Bytes)
    → ◌≡◌ {A = Option (Bytes × Bytes)} (some (text, replicate 16 0)) (some (ct, tag))
    → plain_unseal (ct ++ tag) ≡ some text
plain_round_trip text ct tag e =
    let p : text ≡ ct = cc in
    let q : replicate 16 0 ≡ tag = cc in
    rw (← p, ← q)
      (ground (
        arith,
        length-append text (replicate 16 0),
        take-append (length text) text (replicate 16 0) refl,
      ))

plain_unseal_size : (ct text : Bytes) → plain_unseal ct ≡ some text → length text + 16 ≡ length ct
plain_unseal_size ct text e = ground (arith, length-take (length ct - 16) ct)

pub plain_laws : AeadLaws plain 65535
plain_laws = record {
  seals = λ key nonce aad text h. (text, replicate 16 0, refl);
  seal_sizes = λ key nonce aad text ct tag e. plain_seal_sizes text ct tag e;
  unseal_sealed = λ key nonce aad text ct tag e. plain_round_trip text ct tag e;
  unseal_size = λ key nonce aad ct text e. plain_unseal_size ct text e;
}
