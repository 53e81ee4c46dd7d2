-- ===== src/Device/Lfsr.antt =====
-- The generator of peer indices: `IndexLfsr` of boringtun/src/device/mod.rs.
use Prim.Native.Nat.{bit_xor}
use pq_boringtun.Base.{
  ℕ, ◌+◌, ◌-◌, ◌/◌, ◌%◌, ◌^◌, ◌==◌, ltb, if◌then◌else◌, bit_and, List, [], ◌∷◌, Option, none, some,
}
use pq_boringtun.Errors.{Result, ok, panics}

pub record IndexLfsr : Type 0 where
  pub initial : ℕ
  pub lfsr : ℕ
  pub mask : ℕ

abbrev pub lfsr_max : ℕ
lfsr_max = 0xffffff

abbrev pub lfsr_poly : ℕ
lfsr_poly = 0xd80000

-- `IndexLfsr::random_index` on the words of the random generator, one for each turn of the loop.
unfoldable pub random_index : List ℕ → Option ℕ
random_index [] = none
random_index (word ∷ rest) =
    let i = bit_and word lfsr_max in if ltb 0 i then some i else random_index rest

-- `(lfsr >> 1) ^ ((0u32.wrapping_sub(lfsr & 1)) & LFSR_POLY)`
unfoldable pub shift : ℕ → ℕ
shift lfsr = bit_xor (lfsr / 2) (bit_and ((2 ^ 32 - bit_and lfsr 1) % 2 ^ 32) lfsr_poly)

-- The index of a state; `lfsr - 1` wraps.
unfoldable pub index_of : ℕ → ℕ → ℕ
index_of mask lfsr = bit_xor ((lfsr + 2 ^ 32 - 1) % 2 ^ 32) mask

-- `IndexLfsr::next`
unfoldable pub next : IndexLfsr → Result (IndexLfsr × ℕ)
next g =
    let lfsr = shift g.lfsr in
    if lfsr == g.initial then panics else ok (record g { lfsr = lfsr }, index_of g.mask g.lfsr)

-- `IndexLfsr::default`, from the two random indices.
unfoldable pub seeded : ℕ → ℕ → IndexLfsr
seeded seed mask = record { initial = seed; lfsr = seed; mask = mask }
