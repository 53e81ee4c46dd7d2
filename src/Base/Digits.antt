-- ===== src/Base/Digits.antt =====
-- The binary digits of a word, and what `|`, `&` and `!` do to each digit.
use Prim.Native.Nat.{ℕ, zero, suc, ◌+◌, ◌-◌, ◌*◌, ◌/◌, ◌%◌, ◌^◌, ◌≤◌, ◌<◌, min, max}
use Prim.Native.Nat.{bit_and, bit_or, digits, bitwise, bit_and-bitwise, bit_or-bitwise}
use mathlib.Core.Path.{◌≡◌, refl, ap, ◌∙◌}
use native.Mathlib.Nat.{pow-suc, one-le-pow, div-div-eq-div-mul, div-one}
use native.Mathlib.Omega.{arith}

-- Induction on a number by halving it.
pub halving {ℓ} : (P : ℕ → Type ℓ) → P 0 → ((n : ℕ) → P (suc n / 2) → P (suc n)) → (n : ℕ) → P n
halving P base step n = bounded n n (omega arith)
  where
    bounded : (k m : ℕ) → m ≤ k → P m
    bounded k zero small = base
    bounded zero (suc m) small = absurd (omega arith)
    bounded (suc k) (suc m) small = step m (bounded k (suc m / 2) (omega arith))

-- The native operations mean `digits`, a recursion with fuel: all fuel from `x` on is as good.
module _ (lone : ℕ → ℕ) (pair : ℕ → ℕ → ℕ) where
  spare_fuel : (k x y : ℕ) → x ≤ k → digits lone pair k x y ≡ digits lone pair x x y
  spare_fuel k x y h = same k x x y h (omega arith)
    where
      same : (k l x y : ℕ) → x ≤ k → x ≤ l → digits lone pair k x y ≡ digits lone pair l x y
      same (suc k) (suc l) (suc x) y h e =
          ap (λ (t : ℕ). t * 2 + pair (suc x % 2) (y % 2))
            (same k l (suc x / 2) (y / 2) (omega arith) (omega arith))
      same zero l (suc x) y h e = absurd (omega arith)
      same (suc k) zero (suc x) y h e = absurd (omega arith)
      same zero zero zero y h e = refl
      same zero (suc l) zero y h e = refl
      same (suc k) zero zero y h e = refl
      same (suc k) (suc l) zero y h e = refl

  pub low_digit :
      (x y : ℕ)
      → bitwise lone pair (suc x) y
        ≡ bitwise lone pair (suc x / 2) (y / 2) * 2 + pair (suc x % 2) (y % 2)
  low_digit x y =
      ap (λ (t : ℕ). t * 2 + pair (suc x % 2) (y % 2))
        (spare_fuel x (suc x / 2) (y / 2) (omega arith))

bit_or_last : (x y : ℕ) → bit_or x y ≡ bit_or (x / 2) (y / 2) * 2 + max (x % 2) (y % 2)
bit_or_last (suc x) y = simp bit_or-bitwise (low_digit (λ d. d) max x y)
bit_or_last zero y = simp bit_or-bitwise (omega arith)

bit_and_last : (x y : ℕ) → bit_and x y ≡ bit_and (x / 2) (y / 2) * 2 + min (x % 2) (y % 2)
bit_and_last (suc x) y = simp bit_and-bitwise (low_digit (λ d. 0) min x y)
bit_and_last zero y = simp bit_and-bitwise (omega arith)

-- Digit `i` of `a`, the lowest first.
pub digit : ℕ → ℕ → ℕ
digit zero a = a % 2
digit (suc i) a = digit i (a / 2)

pub digit-eq-shift : (i a : ℕ) → digit i a ≡ a / 2 ^ i % 2
unfolding digit
digit-eq-shift zero a = rw div-one
digit-eq-shift (suc i) a =
    digit-eq-shift i (a / 2)
    ∙ ap (λ (t : ℕ). t % 2)
        (div-div-eq-div-mul a 2 (2 ^ i) ∙ ap (λ (t : ℕ). a / t) (omega (arith, pow-suc 2 i)))

pub digit-lt-two : (i a : ℕ) → digit i a < 2
unfolding digit
digit-lt-two zero a = omega arith
digit-lt-two (suc i) a = digit-lt-two i (a / 2)

pub digit-bit_or : (i a b : ℕ) → digit i (bit_or a b) ≡ max (digit i a) (digit i b)
unfolding digit
digit-bit_or zero a b = omega (arith, bit_or_last a b)
digit-bit_or (suc i) a b =
    ap (digit i) (omega (arith, bit_or_last a b)) ∙ digit-bit_or i (a / 2) (b / 2)

pub digit-bit_and : (i a b : ℕ) → digit i (bit_and a b) ≡ min (digit i a) (digit i b)
unfolding digit
digit-bit_and zero a b = omega (arith, bit_and_last a b)
digit-bit_and (suc i) a b =
    ap (digit i) (omega (arith, bit_and_last a b)) ∙ digit-bit_and i (a / 2) (b / 2)

pub digit-zero : (i : ℕ) → digit i 0 ≡ 0
unfolding digit
digit-zero zero = refl
digit-zero (suc i) = digit-zero i

-- `1 << k` has one digit that is set.
pub digit-pow_self : (i : ℕ) → digit i (2 ^ i) ≡ 1
unfolding digit
digit-pow_self zero = refl
digit-pow_self (suc i) = ap (digit i) (omega (arith, pow-suc 2 i)) ∙ digit-pow_self i

pub digit-pow_ne : (i k : ℕ) → (i ≡ k → ⊥) → digit i (2 ^ k) ≡ 0
unfolding digit
digit-pow_ne zero zero h = absurd (h refl)
digit-pow_ne zero (suc k) h = omega (arith, pow-suc 2 k)
digit-pow_ne (suc i) zero h = digit-zero i
digit-pow_ne (suc i) (suc k) h =
    ap (digit i) (omega (arith, pow-suc 2 k)) ∙ digit-pow_ne i k (λ e. h (ap suc e))

-- The complement of a word of `w` bits flips each digit.
pub digit-complement : (w i a : ℕ) → i < w → a < 2 ^ w → digit i (2 ^ w - 1 - a) ≡ 1 - digit i a
unfolding digit
digit-complement zero i a h k = absurd (omega arith)
digit-complement (suc w) zero a h k = omega (arith, pow-suc 2 w)
digit-complement (suc w) (suc i) a h k =
    ap (digit i) (omega (arith, pow-suc 2 w))
    ∙ digit-complement w i (a / 2) (omega arith) (omega (arith, pow-suc 2 w))

bit_and-zero : (x : ℕ) → bit_and x 0 ≡ 0
bit_and-zero =
    halving (λ x. bit_and x 0 ≡ 0) refl (λ x ih. omega (arith, bit_and_last (suc x) 0, ih))

-- `a & 1`
pub bit_and-one : (a : ℕ) → bit_and a 1 ≡ a % 2
bit_and-one a = omega (arith, bit_and_last a 1, bit_and-zero (a / 2))

-- A mask of `k` low ones keeps the remainder by `2 ^ k`.
pub bit_and-low_mask : (k a : ℕ) → bit_and a (2 ^ k - 1) ≡ a % 2 ^ k
bit_and-low_mask zero a = omega (arith, bit_and-zero a)
bit_and-low_mask (suc k) a = ground (
  arith,
  bit_and_last a (2 ^ suc k - 1),
  pow-suc 2 k,
  one-le-pow k 2,
  bit_and-low_mask k (a / 2),
  div-div-eq-div-mul a 2 (2 ^ k),
)

-- A 64-bit mask without its 6 low ones rounds down to a multiple of 64.
pub bit_and-round_down : (a : ℕ) → a < 2 ^ 64 → bit_and a (2 ^ 64 - 64) ≡ a / 64 * 64
bit_and-round_down a h = omega (
  arith,
  bit_and_last a (2 ^ 64 - 64),
  bit_and_last (a / 2) (2 ^ 63 - 32),
  bit_and_last (a / 2 / 2) (2 ^ 62 - 16),
  bit_and_last (a / 2 / 2 / 2) (2 ^ 61 - 8),
  bit_and_last (a / 2 / 2 / 2 / 2) (2 ^ 60 - 4),
  bit_and_last (a / 2 / 2 / 2 / 2 / 2) (2 ^ 59 - 2),
  bit_and-low_mask 58 (a / 2 / 2 / 2 / 2 / 2 / 2),
)

bit_or-zero : (x : ℕ) → bit_or x 0 ≡ x
bit_or-zero = halving (λ x. bit_or x 0 ≡ x) refl (λ x ih. omega (arith, bit_or_last (suc x) 0, ih))

-- `|` of a multiple of `2 ^ k` and a number below it is their sum.
bit_or-low_bits : (k a b : ℕ) → b < 2 ^ k → bit_or (a * 2 ^ k) b ≡ a * 2 ^ k + b
bit_or-low_bits zero a b h =
    ap (bit_or (a * 1)) {y = 0} (omega arith) ∙ omega (arith, bit_or-zero (a * 1))
bit_or-low_bits (suc k) a b h =
    let double : a * 2 ^ suc k ≡ a * 2 ^ k * 2 =
      ap (λ (t : ℕ). a * t) {y = 2 ^ k * 2} (omega (arith, pow-suc 2 k)) ∙ omega arith in
    let half : a * 2 ^ suc k / 2 ≡ a * 2 ^ k = omega arith in
    let ih = bit_or-low_bits k a (b / 2) (omega (arith, pow-suc 2 k)) in
    let e = ap (λ x. bit_or x (b / 2)) half in omega (arith, bit_or_last (a * 2 ^ suc k) b)

pub bit_or-low_byte : (a b : ℕ) → b < 256 → bit_or (a * 256) b ≡ a * 256 + b
bit_or-low_byte = bit_or-low_bits 8

bit_and-even : (a m : ℕ) → bit_and a (m * 2) ≡ bit_and (a / 2) m * 2
bit_and-even a m =
    let e = ap (bit_and (a / 2)) {x = m * 2 / 2} {y = m} (omega arith) in
    omega (arith, bit_and_last a (m * 2))

-- A 32-bit mask without its 8 low ones rounds down to a multiple of 256.
pub bit_and-clear_low_byte : (a : ℕ) → a < 2 ^ 32 → bit_and a (2 ^ 32 - 256) ≡ a / 256 * 256
bit_and-clear_low_byte a h = omega (
  arith,
  bit_and-even a (2 ^ 31 - 128),
  bit_and-even (a / 2) (2 ^ 30 - 64),
  bit_and-even (a / 2 / 2) (2 ^ 29 - 32),
  bit_and-even (a / 2 / 2 / 2) (2 ^ 28 - 16),
  bit_and-even (a / 2 / 2 / 2 / 2) (2 ^ 27 - 8),
  bit_and-even (a / 2 / 2 / 2 / 2 / 2) (2 ^ 26 - 4),
  bit_and-even (a / 2 / 2 / 2 / 2 / 2 / 2) (2 ^ 25 - 2),
  bit_and-even (a / 2 / 2 / 2 / 2 / 2 / 2 / 2) (2 ^ 24 - 1),
  bit_and-low_mask 24 (a / 2 / 2 / 2 / 2 / 2 / 2 / 2 / 2),
)
