-- ===== src/Replay/Spec.antt =====
-- What the receiving window promises, over the history of the accepted counters, newest first.
use pq_boringtun.Base.{ℕ, ◌+◌, ◌≤◌, max, Bool, false, ◌||◌, List, [], ◌∷◌}
use pq_boringtun.Base.{◌≡◌, refl, ◌⊎◌, inl, inr, Bool-cases, arith, ltb, leb, ◌==◌, if◌then◌else◌}
use pq_boringtun.Errors.{Result, ok, err, invalid_counter, duplicate_counter}
use pq_boringtun.Replay.{n_bits}

abbrev pub History : Type 0
History = List ℕ

-- One more than the highest accepted counter.
abbrev pub top : History → ℕ
top [] = 0
top (c ∷ h) = max (c + 1) (top h)

abbrev pub member : ℕ → List ℕ → Bool
member c [] = false
member c (x ∷ h) = c == x || member c h

abbrev pub Distinct : List ℕ → Type 0
Distinct [] = Unit
Distinct (c ∷ h) = (member c h ≡ false) × Distinct h

unfoldable pub will_accept : History → ℕ → Result (Unit {0})
will_accept h c =
    if leb (top h) c
    then ok tt
    else if ltb (c + n_bits) (top h)
    then err invalid_counter
    else if member c h
    then err duplicate_counter
    else ok tt

-- A counter is accepted if it was not accepted before and is at most 1024 behind the top.
unfoldable pub mark : History → ℕ → History × Result (Unit {0})
mark h c =
    if ltb (c + n_bits) (top h)
    then (h, err invalid_counter)
    else if member c h
    then (h, err invalid_counter)
    else (c ∷ h, ok tt)

pub member-lt-top : (c : ℕ) (h : History) → top h ≤ c → member c h ≡ false
member-lt-top c [] p = refl
member-lt-top c (x ∷ h) p = ground (arith, member-lt-top c h)

-- The two ways a counter can fare.
pub mark-cases :
    (h : History) (c : ℕ)
    → (mark h c ≡ (h, err invalid_counter)) ⊎ ((mark h c ≡ (c ∷ h, ok tt)) × (member c h ≡ false))
unfolding mark
mark-cases h c = elim (Bool-cases (ltb (c + n_bits) (top h))) [
  | inl old ↦ inl (rw old)
  | inr near ↦ elim (Bool-cases (member c h)) [
    | inl dup ↦ inl (rw (near, dup))
    | inr new ↦ inr (rw (near, new), new)
  ]
]

-- Within reach of the top, a counter that was not accepted before is accepted.
pub mark_new :
    (h : History) (c : ℕ) → top h ≤ c + n_bits → member c h ≡ false → mark h c ≡ (c ∷ h, ok tt)
unfolding mark
mark_new h c p e = ground arith

pub will_accept_new :
    (h : History) (c : ℕ) → top h ≤ c + n_bits → member c h ≡ false → will_accept h c ≡ ok tt
unfolding will_accept
will_accept_new h c p e = ground arith
