-- ===== src/Replay/Refine.antt =====
-- The validator implements the window over histories.
use pq_boringtun.Base.{ℕ, ◌+◌, ◌-◌, ◌^◌, ◌≤◌, ◌<◌, Bool, true, false, [], ◌∷◌}
use pq_boringtun.Base.{◌≡◌, refl, ap, ◌∙◌, inl, inr, arith, length, replicate, ltb, leb, ◌==◌}
use pq_boringtun.Base.{Bool-cases, get_or-replicate}
use mathlib.Core.Path.{subst}
use pq_boringtun.Base.Digits.{digit, digit-zero}
use pq_boringtun.Errors.{ok, err, invalid_counter}
use pq_boringtun.Replay.{
  Validator, Bitmap, fresh, n_words, n_bits, word_of, bit_of, set_bit, check_bit,
}
use pq_boringtun.Replay.{make_room, will_accept, mark_did_receive}
use pq_boringtun.Replay.Bits.{
  bit_at, check_bit-eq-bit_at, bit_at-set_bit_same, bit_at-set_bit_other, length-set_bit,
}
use pq_boringtun.Replay.Loops.{Clears, Clears-empty, clear_between-Clears}
use pq_boringtun.Replay.Spec
use pq_boringtun.Replay.Spec.{History, top, member, member-lt-top}

abbrev pub bit : Bool → ℕ
bit true = 1
bit false = 0

-- The validator holds the part of the history that is within reach of its top.
pub record Tracks (v : Validator) (h : History) : Type 0 where
  pub size : length v.bitmap ≡ n_words
  pub next_is : v.next ≡ top h
  pub fits : v.next + n_bits ≤ 2 ^ 64
  pub seen : (c : ℕ) → c < v.next → v.next ≤ c + n_bits → bit_at v.bitmap c ≡ bit (member c h)

bit_at-zeros : (j : ℕ) → bit_at (replicate n_words 0) j ≡ 0
bit_at-zeros j =
    ap (digit (bit_of j)) (get_or-replicate n_words (word_of j) 0) ∙ digit-zero (bit_of j)

pub fresh-Tracks : Tracks fresh []
fresh-Tracks = record {
  size = refl;
  next_is = refl;
  fits = omega arith;
  seen = λ c p q. bit_at-zeros c;
}

module _ {v : Validator} {h : History} (t : Tracks v h) (c : ℕ) where
  pub check_bit-eq-member : c < v.next → v.next ≤ c + n_bits → check_bit v.bitmap c ≡ member c h
  check_bit-eq-member p q =
      check_bit-eq-bit_at v.bitmap c ∙ ap (λ n. n == 1) (t.seen c p q) ∙ bit-eq-one (member c h)
    where
      bit-eq-one : (b : Bool) → (bit b == 1) ≡ b
      bit-eq-one true = refl
      bit-eq-one false = refl

  Tracks-within :
      c < v.next → v.next ≤ c + n_bits → Tracks (record v { bitmap = set_bit v.bitmap c }) (c ∷ h)
  Tracks-within p q = record {
    size = length-set_bit v.bitmap c ∙ t.size;
    next_is = omega (arith, t.next_is);
    fits = t.fits;
    seen = λ j r s. ground (
      arith,
      t.seen j,
      bit_at-set_bit_same v.bitmap t.size c j,
      bit_at-set_bit_other v.bitmap t.size c j,
    );
  }

  Tracks-beyond :
      (room : Bitmap)
      → v.next ≤ c
      → c + n_bits < 2 ^ 64
      → Clears v.next c v.bitmap room
      → Tracks (record v { bitmap = set_bit room c; next = c + 1 }) (c ∷ h)
  Tracks-beyond room p w cl = record {
    size = length-set_bit room c ∙ cl.size;
    next_is = omega (arith, t.next_is);
    fits = omega arith;
    seen = λ j r s. ground (
      arith,
      t.next_is,
      t.seen j,
      cl.cleared j,
      cl.kept j,
      member-lt-top j h,
      bit_at-set_bit_same room cl.size c j,
      bit_at-set_bit_other room cl.size c j,
    );
  }

  make_room-Clears : v.next < c → c + n_bits < 2 ^ 64 → Clears v.next c v.bitmap (make_room v c)
  unfolding make_room
  make_room-Clears p w = elim (Bool-cases (leb n_bits (c - v.next))) [
    | inl far ↦
        let apart : v.next + n_bits ≤ c = ground arith in
        rw far (record {
          size = refl;
          cleared = λ j r s. bit_at-zeros j;
          kept = λ j r s. absurd (omega arith);
        })
    | inr near ↦
        let close : c ≤ v.next + n_bits = ground arith in
        rw near (clear_between-Clears v.bitmap v.next c t.size (omega arith) close w)
  ]

  -- At a validator that holds the history `h` and a counter below 2^64 - 1024, `will_accept`
  -- returns what the specification returns, on every branch.
  pub will_accept_refines : c + n_bits < 2 ^ 64 → will_accept v c ≡ Spec.will_accept h c
  unfolding will_accept Spec.will_accept
  will_accept_refines w = ground (arith, t.next_is, check_bit-eq-member)

  mark_within :
      c < v.next
      → v.next ≤ c + n_bits
      → c + n_bits < 2 ^ 64
      → ((mark_did_receive v c).1 ≡ (Spec.mark h c).1)
        × Tracks (mark_did_receive v c).0 (Spec.mark h c).0
  unfolding mark_did_receive Spec.mark
  mark_within p q w = elim (Bool-cases (check_bit v.bitmap c)) [
    | inl dup ↦
        let code : mark_did_receive v c ≡ (v, err invalid_counter) = ground arith in
        let spec : Spec.mark h c ≡ (h, err invalid_counter) =
          ground (arith, t.next_is, check_bit-eq-member p q) in
        rw (code, spec) (refl, t)
    | inr new ↦
        let code : mark_did_receive v c ≡ (record v { bitmap = set_bit v.bitmap c }, ok tt) =
          ground arith in
        let spec : Spec.mark h c ≡ (c ∷ h, ok tt) =
          ground (arith, t.next_is, check_bit-eq-member p q) in
        rw (code, spec) (refl, Tracks-within p q)
  ]

  mark_beyond :
      v.next ≤ c
      → c + n_bits < 2 ^ 64
      → ((mark_did_receive v c).1 ≡ (Spec.mark h c).1)
        × Tracks (mark_did_receive v c).0 (Spec.mark h c).0
  unfolding mark_did_receive Spec.mark
  mark_beyond p w =
      let spec : Spec.mark h c ≡ (c ∷ h, ok tt) = ground (arith, t.next_is, member-lt-top c h) in
      elim (Bool-cases (c == v.next)) [
        | inl same ↦
            let e : v.next ≡ c = ground arith in
            let code : mark_did_receive v c
                ≡ (record v { bitmap = set_bit v.bitmap c; next = c + 1 }, ok tt) =
              ground arith in
            rw (code, spec)
              (
                refl,
                Tracks-beyond v.bitmap p w (
                    subst (λ n. Clears v.next n v.bitmap v.bitmap) e
                      (Clears-empty v.next v.bitmap t.size)),
              )
        | inr above ↦
            let beyond : v.next < c = ground arith in
            let code : mark_did_receive v c
                ≡ (record v { bitmap = set_bit (make_room v c) c; next = c + 1 }, ok tt) =
              ground arith in
            rw (code, spec) (refl, Tracks-beyond (make_room v c) p w (make_room-Clears beyond w))
      ]

  -- At a validator that holds the history `h` and a counter below 2^64 - 1024,
  -- `mark_did_receive` returns what the specification returns, on every branch, and leaves the
  -- validator holding the new history.
  pub mark_refines :
      c + n_bits < 2 ^ 64
      → ((mark_did_receive v c).1 ≡ (Spec.mark h c).1)
        × Tracks (mark_did_receive v c).0 (Spec.mark h c).0
  unfolding mark_did_receive Spec.mark
  mark_refines w = elim (Bool-cases (ltb (c + n_bits) v.next)) [
    | inl old ↦
        let code : mark_did_receive v c ≡ (v, err invalid_counter) = ground arith in
        let spec : Spec.mark h c ≡ (h, err invalid_counter) = ground (arith, t.next_is) in
        rw (code, spec) (refl, t)
    | inr near ↦ elim (Bool-cases (ltb c v.next)) [
      | inl below ↦ mark_within (ground arith) (ground arith) w
      | inr beyond ↦ mark_beyond (ground arith) w
    ]
  ]
