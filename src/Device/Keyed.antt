-- ===== src/Device/Keyed.antt =====
-- A new private key leaves the tables of a device as they are.
use pq_boringtun.Base.{
  ℕ, ◌≡◌, inl, inr, refl, sym, ap, ◌∙◌, arith, Bool-cases, true, List, [], ◌∷◌, Option, some,
  Option-cases,
}
use pq_boringtun.Base.Bytes.{Bytes}
use pq_boringtun.Errors.{Result, ok, err, panics, ◌>>=◌, IfOk}
use pq_boringtun.Crypto.{Crypto}
use pq_boringtun.RateLimiter.{RateLimiter}
use pq_boringtun.AllowedIps.{Networks}
use pq_boringtun.Peer.{Peer}
use pq_boringtun.Tunnel.{set_tunn_private}
use pq_boringtun.Device.{Device, put, same_index, set_keys}
use pq_boringtun.Device.Coherent.{IsCoherent, put_cases, put_other, some_injective}

module _ (w : Networks) where
  -- The peers of a heap are those of another, under the same indices.
  pub record SameIndices (heap heap' : ℕ → Option (Peer w)) : Type 0 where
    pub back :
        (r : ℕ) (p : Peer w)
        → heap' r ≡ some p
        → (q : Peer w) × (heap r ≡ some q) × (p.index ≡ q.index)
    pub forth :
        (r : ℕ) (q : Peer w)
        → heap r ≡ some q
        → (p : Peer w) × (heap' r ≡ some p) × (p.index ≡ q.index)

  same_all : (heap : ℕ → Option (Peer w)) → SameIndices heap heap
  same_all heap = record { back = λ r p e. (p, e, refl); forth = λ r q e. (q, e, refl) }

  same_put :
      (heap heap' : ℕ → Option (Peer w)) (r0 : ℕ) (p0 p1 : Peer w)
      → heap r0 ≡ some p0
      → p1.index ≡ p0.index
      → SameIndices (put same_index heap r0 (some p1)) heap'
      → SameIndices heap heap'
  same_put heap heap' r0 p0 p1 found index s = record {
    back = λ r p e.
        let (q, there, same) = s.back r p e in
        elim (put_cases same_index heap r0 (some p1) r q there) [
          | inl (here, new) ↦
              let at : r ≡ r0 = ground arith in
              (
                p0,
                ap heap at ∙ found,
                same ∙ ap (λ x. x.index) (sym (some_injective p1 q new)) ∙ index,
              )
          | inr (other, old) ↦ (q, old, same)
        ];
    forth = λ r q e. elim (Bool-cases (same_index r r0)) [
      | inl here ↦
          let at : r ≡ r0 = ground arith in
          let (p, there, same) = s.forth r p1 (rw here refl) in
          let q_same : q ≡ p0 = some_injective q p0 (sym e ∙ ap heap at ∙ found) in
          (p, there, same ∙ index ∙ ap (λ x. x.index) (sym q_same))
      | inr other ↦ s.forth r q (put_other same_index heap r0 (some p1) r q other e)
    ];
  }

  after_put :
      (done : Result (Unit {0})) (p0 p1 : Peer w) (r : ℕ) (heap : ℕ → Option (Peer w))
      (rest : Result (ℕ → Option (Peer w)))
      → heap r ≡ some p0
      → p1.index ≡ p0.index
      → IfOk (SameIndices (put same_index heap r (some p1))) rest
      → IfOk (SameIndices heap) (done >>= λ unit. rest)
  after_put (ok unit) p0 p1 r heap (ok heap') found index s =
      same_put heap heap' r p0 p1 found index s
  after_put (ok unit) p0 p1 r heap (err e) found index s = tt
  after_put (ok unit) p0 p1 r heap panics found index s = tt
  after_put (err e) p0 p1 r heap rest found index s = tt
  after_put panics p0 p1 r heap rest found index s = tt

  pub set_keys-SameIndices :
      (c : Crypto) (values : List ℕ) (heap : ℕ → Option (Peer w)) (private_key public_key : Bytes)
      (limiter : RateLimiter)
      → IfOk (SameIndices heap) (set_keys w c values heap private_key public_key limiter)
  unfolding set_keys
  set_keys-SameIndices c [] heap private_key public_key limiter = same_all heap
  set_keys-SameIndices c (r ∷ rest) heap private_key public_key limiter =
      elim (Option-cases (heap r)) [
        | inl absent ↦
            rw (set_keys, absent) (set_keys-SameIndices c rest heap private_key public_key limiter)
        | inr (p, found) ↦
            let (tunnel, done) = set_tunn_private c p.tunnel private_key public_key limiter true in
            let p1 : Peer w = record p { tunnel = tunnel } in
            rw (set_keys, found)
              (after_put done p p1 r heap _ found refl (
                set_keys-SameIndices c rest (put same_index heap r (some p1)) private_key public_key
                  limiter))
      ]

  pub reheap-IsCoherent :
      (d : Device w) (used : List ℕ) (heap : ℕ → Option (Peer w)) (pair : Bytes × Bytes)
      (limiter : RateLimiter)
      → IsCoherent w d used
      → SameIndices d.heap heap
      → IsCoherent w
          (record d { heap = heap; key_pair = some pair; rate_limiter = some limiter })
          used
  reheap-IsCoherent d used heap pair limiter v s = record {
    by_key = λ k r e.
        let (q, here, indexed) = v.by_key k r e in
        let (p, there, same) = s.forth r q here in (p, there, ap d.peers_by_idx same ∙ indexed);
    by_idx = λ i r e.
        let (k, q, named, here, index) = v.by_idx i r e in
        let (p, there, same) = s.forth r q here in (k, p, named, there, same ∙ index);
    by_ip = v.by_ip;
    one = v.one;
    issued = v.issued;
    known = λ r p e. let (q, here, same) = s.back r p e in rw same (v.known r q here);
    small = λ r p e. let (q, here, same) = s.back r p e in v.small r q here;
  }
