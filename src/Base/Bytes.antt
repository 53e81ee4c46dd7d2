-- ===== src/Base/Bytes.antt =====
-- Bytes, and the fixed-width integers that they spell.
use Prim.Native.Nat.{ℕ, zero, suc, ◌+◌, ◌-◌, ◌*◌, ◌/◌, ◌%◌, ◌^◌, ◌<◌}
use mathlib.Core.Path.{◌≡◌, refl, ap, ap₂, ◌∙◌}
use mathlib.Core.List.{List, [], ◌∷◌, ◌++◌, reverse, reverse-append, reverse-reverse}
use native.Mathlib.Nat.{pow-suc}
use native.Mathlib.Omega.{arith}
use mathlib.Core.Logic.{◌↔◌}
use mathlib.Core.Bool.{Bool, true, false, ◌&&◌}
use pq_boringtun.Base.Tests.{◌==◌}
use pq_boringtun.Base.Lists.{length, take, drop, slice, All, length-append}

abbrev pub Bytes : Type 0
Bytes = List ℕ

abbrev pub IsBytes : Bytes → Type 0
IsBytes bs = All (λ b. b < 256) bs

-- `from_le_bytes`
unfoldable pub from_le : Bytes → ℕ
from_le [] = 0
from_le (b ∷ bs) = b + 256 * from_le bs

-- `to_le_bytes` of an integer of `n` bytes
unfoldable pub to_le : ℕ → ℕ → Bytes
to_le zero x = []
to_le (suc n) x = x % 256 ∷ to_le n (x / 256)

pub length-to_le : (n x : ℕ) → length (to_le n x) ≡ n
unfolding to_le
length-to_le zero x = refl
length-to_le (suc n) x = ap suc (length-to_le n (x / 256))

pub to_le-from_le : (bs : Bytes) → IsBytes bs → to_le (length bs) (from_le bs) ≡ bs
unfolding to_le from_le
to_le-from_le [] h = refl
to_le-from_le (b ∷ bs) h =
    ap₂ ◌∷◌ (omega arith) (
      ap (to_le (length bs)) {x = (b + 256 * from_le bs) / 256} (omega arith)
      ∙ to_le-from_le bs h.1)

pub from_le-to_le : (n x : ℕ) → x < 256 ^ n → from_le (to_le n x) ≡ x
unfolding from_le to_le
from_le-to_le zero x h = omega arith
from_le-to_le (suc n) x h =
    omega (arith, pow-suc 256 n, from_le-to_le n (x / 256) (omega (arith, pow-suc 256 n)))

pub from_le-lt : (bs : Bytes) → IsBytes bs → from_le bs < 256 ^ length bs
unfolding from_le
from_le-lt [] h = omega arith
from_le-lt (b ∷ bs) h = omega (arith, pow-suc 256 (length bs), from_le-lt bs h.1)

pub to_le-IsBytes : (n x : ℕ) → IsBytes (to_le n x)
unfolding to_le
to_le-IsBytes zero x = tt
to_le-IsBytes (suc n) x = (omega arith, to_le-IsBytes n (x / 256))

pub take-IsBytes : (n : ℕ) (bs : Bytes) → IsBytes bs → IsBytes (take n bs)
take-IsBytes zero bs h = tt
take-IsBytes (suc n) [] h = tt
take-IsBytes (suc n) (b ∷ bs) h = (h.0, take-IsBytes n bs h.1)

pub drop-IsBytes : (n : ℕ) (bs : Bytes) → IsBytes bs → IsBytes (drop n bs)
drop-IsBytes zero bs h = h
drop-IsBytes (suc n) [] h = tt
drop-IsBytes (suc n) (b ∷ bs) h = drop-IsBytes n bs h.1

pub append-IsBytes : (bs cs : Bytes) → IsBytes bs → IsBytes cs → IsBytes (bs ++ cs)
append-IsBytes [] cs h k = k
append-IsBytes (b ∷ bs) cs h k = (h.0, append-IsBytes bs cs h.1 k)

pub slice-IsBytes : (bs : Bytes) (a b : ℕ) → IsBytes bs → IsBytes (slice bs a b)
unfolding slice
slice-IsBytes bs a b h = take-IsBytes (b - a) (drop a bs) (drop-IsBytes a bs h)

-- `from_be_bytes` and `to_be_bytes`
unfoldable pub from_be : Bytes → ℕ
from_be bs = from_le (reverse bs)

unfoldable pub to_be : ℕ → ℕ → Bytes
to_be n x = reverse (to_le n x)

pub from_be-to_be : (n x : ℕ) → x < 256 ^ n → from_be (to_be n x) ≡ x
unfolding from_be to_be
from_be-to_be n x h = ap from_le (reverse-reverse (to_le n x)) ∙ from_le-to_le n x h

length-reverse : (bs : Bytes) → length (reverse bs) ≡ length bs
length-reverse [] = refl
length-reverse (b ∷ bs) = omega (
  arith,
  ap length (reverse-append (b ∷ []) bs),
  length-append (reverse bs) (b ∷ []),
  length-reverse bs,
)

pub length-to_be : (n x : ℕ) → length (to_be n x) ≡ n
unfolding to_be
length-to_be n x = length-reverse (to_le n x) ∙ length-to_le n x

-- `==` on byte arrays
abbrev pub bytes_eq : Bytes → Bytes → Bool
bytes_eq [] [] = true
bytes_eq [] (c ∷ cs) = false
bytes_eq (b ∷ bs) [] = false
bytes_eq (b ∷ bs) (c ∷ cs) = b == c && bytes_eq bs cs

pub bytes_eq_iff : (x y : Bytes) → (bytes_eq x y ≡ true) ↔ (x ≡ y)
bytes_eq_iff [] [] = (λ e. refl, λ e. refl)
bytes_eq_iff [] (c ∷ cs) = (λ e. cc, λ e. cc)
bytes_eq_iff (b ∷ bs) [] = (λ e. cc, λ e. cc)
bytes_eq_iff (b ∷ bs) (c ∷ cs) =
    let ih = bytes_eq_iff bs cs in
    (
      λ e. ap₂ ◌∷◌ (ground arith) (ih.0 (ground arith)),
      λ e. let same : b ≡ c = cc in let rest = ih.1 cc in ground arith,
    )
