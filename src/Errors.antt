-- ===== src/Errors.antt =====
-- boringtun/src/noise/errors.rs, and the outcomes of fallible code.
use pq_boringtun.Base.{Bool, true, false, ◌≡◌, ◌⊎◌, inl, inr, refl, Option, none, some}

-- The enum `WireGuardError`, with the feature `pq`.
pub data WireGuardError : Type 0 where
  destination_buffer_too_small incorrect_packet_length unexpected_packet : WireGuardError
  wrong_packet_type wrong_index wrong_key : WireGuardError
  invalid_tai64n_timestamp wrong_tai64n_timestamp invalid_mac invalid_aead_tag : WireGuardError
  invalid_counter duplicate_counter invalid_packet no_current_session : WireGuardError
  lock_failed connection_expired under_load ml_kem_decapsulation_failed : WireGuardError

-- `Result<A, WireGuardError>`, with a third outcome for a panic.
pub data Result {ℓ} (A : Type ℓ) : Type ℓ where
  ok : A → Result A
  err : WireGuardError → Result A
  panics : Result A

-- The `?` operator: an error or a panic ends the rest.
module _ {ℓ κ} {S : Type ℓ} {T : Type κ} where
  infixl 5 ◌>>=◌
  abbrev pub ◌>>=◌ : Result S → (S → Result T) → Result T
  panics >>= rest = panics
  err reason >>= rest = err reason
  ok value >>= rest = rest value

-- A statement that only checks.
module _ {κ} {T : Type κ} where
  infixl 5 ◌>>◌
  abbrev pub ◌>>◌ : Result (Unit {0}) → Result T → Result T
  check >> rest = check >>= (λ done. rest)

-- `if !b { return Err(e) }`
abbrev pub require : Bool → WireGuardError → Result (Unit {0})
require false reason = err reason
require true reason = ok tt

-- `.ok_or(e)`
abbrev pub ok_or {ℓ} : {A : Type ℓ} → Option A → WireGuardError → Result A
ok_or (some a) e = ok a
ok_or none e = err e

-- `.unwrap()` of an option
abbrev pub unwrap {ℓ} : {A : Type ℓ} → Option A → Result A
unwrap (some a) = ok a
unwrap none = panics

abbrev pub is_ok {ℓ} : {A : Type ℓ} → Result A → Bool
is_ok (ok a) = true
is_ok (err e) = false
is_ok panics = false

pub is_ok-true {ℓ} : {A : Type ℓ} (r : Result A) → is_ok r ≡ true → (a : A) × (r ≡ ok a)
is_ok-true (ok a) h = (a, refl)
is_ok-true (err e) h = cc
is_ok-true panics h = cc

-- To split on a computed result and keep the equation.
pub Result-cases {ℓ} :
    {A : Type ℓ} (r : Result A)
    → ((a : A) × (r ≡ ok a)) ⊎ ((e : WireGuardError) × (r ≡ err e)) ⊎ (r ≡ panics)
Result-cases (ok a) = inl (a, refl)
Result-cases (err e) = inr (inl (e, refl))
Result-cases panics = inr (inr refl)

-- The outcome is a value, and it has the property.
pub data Returns {ℓ κ} {A : Type ℓ} (P : A → Type κ) : Result A → Type (ℓ ⊔ κ) where
  returned : {a : A} → P a → Returns P (ok a)

pub then-Returns {ℓ κ ℓ' κ'} :
    {A : Type ℓ} {B : Type ℓ'} {P : A → Type κ} {Q : B → Type κ'} {m : Result A}
    {rest : A → Result B}
    → Returns P m
    → ((a : A) → P a → Returns Q (rest a))
    → Returns Q (m >>= rest)
then-Returns (returned p) next = next _ p

-- A property of the value, if there is one.
abbrev pub IfOk {ℓ κ} : {A : Type ℓ} → (A → Type κ) → Result A → Type κ
IfOk P (ok a) = P a
IfOk P (err e) = Unit
IfOk P panics = Unit
