-- ===== src/Device/Indices.antt =====
-- The indices of a generator are numbers of 24 bits, all distinct.
use Prim.Native.Nat.{bit_xor}
use pq_boringtun.Base.{
  ℕ, zero, suc, ◌+◌, ◌-◌, ◌/◌, ◌%◌, ◌^◌, ◌≤◌, ◌<◌, ◌≡◌, ◌≢◌, ◌⊎◌, inl, inr, refl, sym, ap, ◌∙◌,
  arith, Bool-cases, true, false, if_both, ◌==◌, List, [], ◌∷◌,
}
use pq_boringtun.Base.Digits.{bit_and-one}
use pq_boringtun.Base.Xor.{bit_xor-zero, bit_xor-lt, bit_xor-cancel, bit_xor-div}
use pq_boringtun.Errors.{IfOk}
use pq_boringtun.Replay.Spec.{member}
use pq_boringtun.Device.Lfsr.{IndexLfsr, seeded, lfsr_poly, shift, index_of, next}

abbrev pub IsState : ℕ → Type 0
IsState x = (1 ≤ x) × (x < 2 ^ 24)

even_shift : (x : ℕ) → x % 2 ≡ 0 → shift x ≡ x / 2
unfolding shift
even_shift x e = rw (bit_and-one x, e) (bit_xor-zero (x / 2))

odd_shift : (x : ℕ) → x % 2 ≡ 1 → shift x ≡ bit_xor (x / 2) lfsr_poly
unfolding shift
odd_shift x e = rw (bit_and-one x, e) refl

-- The highest bit of the polynomial tells the two apart.
odd_top : (x : ℕ) → x < 2 ^ 24 → x % 2 ≡ 1 → shift x / 2 ^ 23 ≡ 1
odd_top x small e =
    let none_left : x / 2 / 2 ^ 23 ≡ 0 = omega arith in
    rw (odd_shift x e) (bit_xor-div 23 (x / 2) lfsr_poly ∙ rw none_left refl)

parity : (x : ℕ) → (x % 2 ≡ 0) ⊎ (x % 2 ≡ 1)
parity x = elim (Bool-cases (x % 2 == 0)) [
  | inl even ↦ inl (ground arith)
  | inr odd ↦ inr (ground arith)
]

shift-IsState : (x : ℕ) → IsState x → IsState (shift x)
shift-IsState x (positive, small) = elim (parity x) [
  | inl even ↦ (omega (arith, even_shift x even), omega (arith, even_shift x even))
  | inr odd ↦ (
    omega (arith, odd_top x small odd),
    rw (odd_shift x odd) (bit_xor-lt 24 (x / 2) lfsr_poly (omega arith) (omega arith)),
  )
]

shift_injective : (x y : ℕ) → IsState x → IsState y → shift x ≡ shift y → x ≡ y
shift_injective x y (px, sx) (py, sy) e = elim (parity x) [
  | inl even ↦ elim (parity y) [
    | inl even' ↦ omega (arith, e, even_shift x even, even_shift y even')
    | inr odd' ↦ absurd (omega (arith, e, even_shift x even, odd_top y sy odd'))
  ]
  | inr odd ↦ elim (parity y) [
    | inl even' ↦ absurd (omega (arith, e, even_shift y even', odd_top x sx odd))
    | inr odd' ↦
        let halves =
          bit_xor-cancel 24 (x / 2) (y / 2) lfsr_poly (omega arith) (omega arith)
            (sym (odd_shift x odd) ∙ e ∙ odd_shift y odd') in
        omega (arith, halves)
  ]
]

-- The state after some steps.
abbrev pub state : ℕ → ℕ → ℕ
state zero x = x
state (suc k) x = shift (state k x)

state-IsState : (k x : ℕ) → IsState x → IsState (state k x)
state-IsState zero x v = v
state-IsState (suc k) x v = shift-IsState (state k x) (state-IsState k x v)

-- A state that comes back takes the first one back with it.
returns_first : (i d x : ℕ) → IsState x → state i x ≡ state (i + d) x → x ≡ state d x
returns_first zero d x v e = let sum : 0 + d ≡ d = omega arith in e ∙ ap (λ k. state k x) sum
returns_first (suc i) d x v e =
    let sum : suc i + d ≡ suc (i + d) = omega arith in
    returns_first i d x v (
      shift_injective (state i x) (state (i + d) x) (state-IsState i x v)
        (state-IsState (i + d) x v) (e ∙ ap (λ k. state k x) sum))

index_of-lt : (mask x : ℕ) → mask < 2 ^ 24 → IsState x → index_of mask x < 2 ^ 24
unfolding index_of
index_of-lt mask x m v = bit_xor-lt 24 ((x + 2 ^ 32 - 1) % 2 ^ 32) mask (omega (arith, v.0, v.1)) m

index_of_injective :
    (mask x y : ℕ) → IsState x → IsState y → index_of mask x ≡ index_of mask y → x ≡ y
unfolding index_of
index_of_injective mask x y v w e =
    let same =
      bit_xor-cancel 24 ((x + 2 ^ 32 - 1) % 2 ^ 32) ((y + 2 ^ 32 - 1) % 2 ^ 32) mask
        (omega (arith, v.0, v.1)) (omega (arith, w.0, w.1)) e in
    omega (arith, same, v.0, v.1, w.0, w.1)

-- A generator that has given out the indices `used`, and has not come back to its first state.
pub record Issued (g : IndexLfsr) (used : List ℕ) : Type 0 where
  pub count : ℕ
  pub started : IsState g.initial
  pub mask_small : g.mask < 2 ^ 24
  pub reached : g.lfsr ≡ state count g.initial
  pub apart : (j : ℕ) → 1 ≤ j → j ≤ count → state j g.initial ≢ g.initial
  pub earlier :
      (u : ℕ)
      → member u used ≡ true
      → (i : ℕ) × (i < count) × (u ≡ index_of g.mask (state i g.initial))

pub seeded-Issued : (seed mask : ℕ) → IsState seed → mask < 2 ^ 24 → Issued (seeded seed mask) []
unfolding seeded
seeded-Issued seed mask v m = record {
  count = 0;
  started = v;
  mask_small = m;
  reached = refl;
  apart = λ j p q. absurd (omega arith);
  earlier = λ u e. absurd (ground arith);
}

module _ (g : IndexLfsr) (used : List ℕ) (s : Issued g used) where
  new_index : member (index_of g.mask g.lfsr) used ≡ false
  new_index = elim (Bool-cases (member (index_of g.mask g.lfsr) used)) [
    | inr fresh ↦ fresh
    | inl old ↦
        let (i, before, e) = s.earlier (index_of g.mask g.lfsr) old in
        let same =
          index_of_injective g.mask g.lfsr (state i g.initial)
            (rw s.reached (state-IsState s.count g.initial s.started))
            (state-IsState i g.initial s.started) e in
        let whole : i + (s.count - i) ≡ s.count = omega arith in
        absurd (
          s.apart (s.count - i) (omega arith) (omega arith) (
            sym (
              returns_first i (s.count - i) g.initial s.started
                (sym same ∙ s.reached ∙ ap (λ k. state k g.initial) (sym whole)))))
  ]

  still_apart :
      shift g.lfsr == g.initial ≡ false
      → (j : ℕ) → 1 ≤ j
      → j ≤ suc s.count
      → state j g.initial ≢ g.initial
  still_apart free j p q = elim (Bool-cases (j == suc s.count)) [
    | inl last ↦ λ e.
        let last' : j ≡ suc s.count = ground arith in
        let back : shift g.lfsr ≡ g.initial =
          ap shift s.reached ∙ ap (λ k. state k g.initial) (sym last') ∙ e in
        ground arith
    | inr before ↦ s.apart j p (ground arith)
  ]

  still_earlier :
      (u : ℕ)
      → member u (index_of g.mask g.lfsr ∷ used) ≡ true
      → (i : ℕ) × (i < suc s.count) × (u ≡ index_of g.mask (state i g.initial))
  still_earlier u m = elim (Bool-cases (u == index_of g.mask g.lfsr)) [
    | inl now ↦
        let now' : u ≡ index_of g.mask g.lfsr = ground arith in
        (s.count, omega arith, now' ∙ ap (index_of g.mask) s.reached)
    | inr before ↦ let (i, lt, e) = s.earlier u (ground arith) in (i, omega arith, e)
  ]

  -- An index that is given out is new, of 24 bits, and joins those that were.
  pub next-Issued :
      IfOk (λ r. Issued r.0 (r.1 ∷ used) × (member r.1 used ≡ false) × (r.1 < 2 ^ 24)) (next g)
  unfolding next
  next-Issued =
      if_both
        (IfOk (λ (r : IndexLfsr × ℕ).
          Issued r.0 (r.1 ∷ used) × (member r.1 used ≡ false) × (r.1 < 2 ^ 24)))
        (shift g.lfsr == g.initial) _ _ (λ over. tt)
        λ free. (
          record {
            count = suc s.count;
            started = s.started;
            mask_small = s.mask_small;
            reached = ap shift s.reached;
            apart = λ j p q. still_apart free j p q;
            earlier = λ u m. still_earlier u m;
          },
          new_index,
          index_of-lt g.mask g.lfsr s.mask_small
              (rw s.reached (state-IsState s.count g.initial s.started)),
        )
