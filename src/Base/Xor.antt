-- ===== src/Base/Xor.antt =====
-- Exclusive or, by its binary digits.
use Prim.Native.Nat.{ℕ, zero, suc, ◌+◌, ◌*◌, ◌/◌, ◌%◌, ◌^◌, ◌<◌}
use Prim.Native.Nat.{bit_xor, differ, bit_xor-bitwise}
use mathlib.Core.Path.{◌≡◌, refl, sym, ap, ◌∙◌}
use native.Mathlib.Nat.{pow-suc, div-div-eq-div-mul, div-one}
use native.Mathlib.Omega.{arith}
use pq_boringtun.Base.Digits.{low_digit, halving}

differ_lem : (x y : ℕ) → x < 2 → y < 2 → differ x y ≡ (x + y) % 2
differ_lem zero zero p q = refl
differ_lem zero (suc zero) p q = refl
differ_lem (suc zero) zero p q = refl
differ_lem (suc zero) (suc zero) p q = refl
differ_lem zero (suc (suc y)) p q = absurd (omega arith)
differ_lem (suc zero) (suc (suc y)) p q = absurd (omega arith)
differ_lem (suc (suc x)) y p q = absurd (omega arith)

bit_xor_last : (x y : ℕ) → bit_xor x y ≡ bit_xor (x / 2) (y / 2) * 2 + (x + y) % 2
bit_xor_last (suc x) y =
    let last : bit_xor (suc x) y ≡ bit_xor (suc x / 2) (y / 2) * 2 + differ (suc x % 2) (y % 2) =
      simp bit_xor-bitwise (low_digit (λ d. d) differ x y) in
    omega (arith, last, differ_lem (suc x % 2) (y % 2) (omega arith) (omega arith))
bit_xor_last zero y = simp bit_xor-bitwise (omega arith)

xor_zeros : bit_xor 0 0 ≡ 0
xor_zeros = simp bit_xor-bitwise refl

pub bit_xor-zero : (x : ℕ) → bit_xor x 0 ≡ x
bit_xor-zero =
    halving (λ x. bit_xor x 0 ≡ x) xor_zeros (λ x ih. omega (arith, bit_xor_last (suc x) 0, ih))

-- The result has no more digits than the two.
pub bit_xor-lt : (w a b : ℕ) → a < 2 ^ w → b < 2 ^ w → bit_xor a b < 2 ^ w
bit_xor-lt zero a b p q =
    let za : a ≡ 0 = omega arith in
    let zb : b ≡ 0 = omega arith in rw (za, zb) (omega (arith, xor_zeros))
bit_xor-lt (suc w) a b p q = omega (
  arith,
  bit_xor_last a b,
  pow-suc 2 w,
  bit_xor-lt w (a / 2) (b / 2) (omega (arith, pow-suc 2 w)) (omega (arith, pow-suc 2 w)),
)

-- What was added is taken off again.
pub bit_xor-cancel : (w a b p : ℕ) → a < 2 ^ w → b < 2 ^ w → bit_xor a p ≡ bit_xor b p → a ≡ b
bit_xor-cancel zero a b p x y e = omega arith
bit_xor-cancel (suc w) a b p x y e =
    let halves =
      bit_xor-cancel w (a / 2) (b / 2) (p / 2) (omega (arith, pow-suc 2 w))
        (omega (arith, pow-suc 2 w)) (omega (arith, e, bit_xor_last a p, bit_xor_last b p)) in
    omega (arith, e, halves, bit_xor_last a p, bit_xor_last b p)

halved : (k a : ℕ) → a / 2 ^ suc k ≡ a / 2 / 2 ^ k
halved k a =
    ap (λ (t : ℕ). a / t) (omega (arith, pow-suc 2 k)) ∙ sym (div-div-eq-div-mul a 2 (2 ^ k))

-- The higher digits of the result are those of the two.
pub bit_xor-div : (k a b : ℕ) → bit_xor a b / 2 ^ k ≡ bit_xor (a / 2 ^ k) (b / 2 ^ k)
bit_xor-div zero a b = rw (div-one (bit_xor a b), div-one a, div-one b) refl
bit_xor-div (suc k) a b =
    let half : bit_xor a b / 2 ≡ bit_xor (a / 2) (b / 2) = omega (arith, bit_xor_last a b) in
    rw (halved k (bit_xor a b), halved k a, halved k b, half) (bit_xor-div k (a / 2) (b / 2))
