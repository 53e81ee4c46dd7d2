-- ===== src/Device/Coherent.antt =====
-- The tables of a device name the same peers.
use pq_boringtun.Base.{
  ℕ, ◌<◌, ◌≡◌, ◌≢◌, ◌⊎◌, inl, inr, refl, sym, ap, ◌∙◌, arith, Bool, true, false, not, ◌==◌,
  Bool-cases, List, Option, none, some,
}
use pq_boringtun.Base.Bytes.{Bytes, bytes_eq, bytes_eq_iff}
use pq_boringtun.Replay.Spec.{member}
use pq_boringtun.AllowedIps.{Networks, NetworksLaws, In, remove_ips}
use pq_boringtun.Peer.{Peer}
use pq_boringtun.Device.Indices.{Issued}
use pq_boringtun.Device.{Device, put, same_index, purge}

module _ (w : Networks) where
  -- Each table names peers of the first, which are on the heap under their own indices; those are
  -- among the indices that have been given out.
  pub record IsCoherent (d : Device w) (used : List ℕ) : Type 0 where
    pub by_key :
        (k : Bytes) (r : ℕ)
        → d.peers k ≡ some r
        → (p : Peer w) × (d.heap r ≡ some p) × (d.peers_by_idx p.index ≡ some r)
    pub by_idx :
        (i r : ℕ)
        → d.peers_by_idx i ≡ some r
        → (k : Bytes) × (p : Peer w) × (d.peers k ≡ some r) × (d.heap r ≡ some p) × (p.index ≡ i)
    pub by_ip :
        (n : w.Network) (r : ℕ)
        → In (n, r) (w.entries d.peers_by_ip)
        → (k : Bytes) × (d.peers k ≡ some r)
    pub one : (k k' : Bytes) (r : ℕ) → d.peers k ≡ some r → d.peers k' ≡ some r → k ≡ k'
    pub issued : Issued d.next_index used
    pub known : (r : ℕ) (p : Peer w) → d.heap r ≡ some p → member p.index used ≡ true
    pub small : (r : ℕ) (p : Peer w) → d.heap r ≡ some p → r < d.allocated

pub put_cases {ℓ κ} :
    {K : Type ℓ} {A : Type κ} (same : K → K → Bool) (t : K → Option A) (k : K) (v : Option A)
    (x : K) (y : A)
    → put same t k v x ≡ some y
    → ((same x k ≡ true) × (v ≡ some y)) ⊎ ((same x k ≡ false) × (t x ≡ some y))
put_cases same t k v x y e = elim (Bool-cases (same x k)) [
  | inl here ↦ inl (here, ground arith)
  | inr there ↦ inr (there, ground arith)
]

-- What a table still has after a removal, it had under another key.
pub removed {ℓ κ} :
    {K : Type ℓ} {A : Type κ} (same : K → K → Bool) (t : K → Option A) (k x : K) (y : A)
    → put same t k none x ≡ some y
    → (same x k ≡ false) × (t x ≡ some y)
removed same t k x y e = elim (put_cases same t k none x y e) [
  | inl (here, impossible) ↦ absurd cc
  | inr there ↦ there
]

pub other_index : (i j : ℕ) → i ≢ j → same_index i j ≡ false
other_index i j h = ground arith

pub put_other {ℓ κ} :
    {K : Type ℓ} {A : Type κ} (same : K → K → Bool) (t : K → Option A) (k : K) (v : Option A)
    (x : K) (y : A)
    → same x k ≡ false
    → t x ≡ some y
    → put same t k v x ≡ some y
put_other same t k v x y there e = rw there e

pub other_key : (k k' : Bytes) → k ≢ k' → bytes_eq k k' ≡ false
other_key k k' h = elim (Bool-cases (bytes_eq k k')) [
  | inl same ↦ absurd (h ((bytes_eq_iff k k').0 same))
  | inr other ↦ other
]

pub same_key : (k : Bytes) → bytes_eq k k ≡ true
same_key k = (bytes_eq_iff k k).1 refl

pub some_injective {ℓ} : {A : Type ℓ} (x y : A) → some x ≡ some y → x ≡ y
some_injective x y e = cc

module _ (w : Networks) (laws : NetworksLaws w) (d : Device w) (used : List ℕ)
    (v : IsCoherent w d used) where
  module _ (k0 : Bytes) (r0 : ℕ) (p0 : Peer w) (found : d.peers k0 ≡ some r0)
      (on_heap : d.heap r0 ≡ some p0) (p1 : Peer w) (own : p1.index ≡ p0.index) where
    -- Another key names another peer, under another index.
    another_peer : (k : Bytes) (r : ℕ) → bytes_eq k k0 ≡ false → d.peers k ≡ some r → r ≢ r0
    another_peer k r other e same =
        let k_same : k ≡ k0 = v.one k k0 r0 (e ∙ ap some same) found in
        let t : bytes_eq k k0 ≡ true = (bytes_eq_iff k k0).1 k_same in cc

    own_index : d.peers_by_idx p0.index ≡ some r0
    own_index =
        let (p, here, indexed) = v.by_key k0 r0 found in
        let same : p ≡ p0 = some_injective p p0 (sym here ∙ on_heap) in
        ap (λ q. d.peers_by_idx q.index) (sym same) ∙ indexed

    removed_by_key :
        (k : Bytes) (r : ℕ)
        → put bytes_eq d.peers k0 none k ≡ some r
        → (p : Peer w) × (put same_index d.heap r0 (some p1) r ≡ some p)
          × (put same_index d.peers_by_idx p0.index none p.index ≡ some r)
    removed_by_key k r e =
        let (other, there) = removed bytes_eq d.peers k0 k r e in
        let apart = another_peer k r other there in
        let (p, here, indexed) = v.by_key k r there in
        let index_apart : p.index ≢ p0.index =
          λ same. apart (some_injective r r0 (sym indexed ∙ ap d.peers_by_idx same ∙ own_index)) in
        (
          p,
          put_other same_index d.heap r0 (some p1) r p (other_index r r0 apart) here,
          put_other same_index d.peers_by_idx p0.index none p.index r
              (other_index p.index p0.index index_apart) indexed,
        )

    removed_by_idx :
        (i r : ℕ)
        → put same_index d.peers_by_idx p0.index none i ≡ some r
        → (k : Bytes) × (p : Peer w) × (put bytes_eq d.peers k0 none k ≡ some r)
          × (put same_index d.heap r0 (some p1) r ≡ some p)
          × (p.index ≡ i)
    removed_by_idx i r e =
        let (other, there) = removed same_index d.peers_by_idx p0.index i r e in
        let (k, p, named, here, index) = v.by_idx i r there in
        let apart : r ≢ r0 = λ same.
          let p_same : p ≡ p0 = some_injective p p0 (sym here ∙ ap d.heap same ∙ on_heap) in
          let clash : i ≡ p0.index = sym index ∙ ap (λ q. q.index) p_same in ground arith in
        let k_apart : k ≢ k0 =
          λ same. apart (some_injective r r0 (sym named ∙ ap d.peers same ∙ found)) in
        (
          k,
          p,
          put_other bytes_eq d.peers k0 none k r (other_key k k0 k_apart) named,
          put_other same_index d.heap r0 (some p1) r p (other_index r r0 apart) here,
          index,
        )

    removed_by_ip :
        (n : w.Network) (r : ℕ)
        → In (n, r) (w.entries (remove_ips w d.peers_by_ip (λ other. r0 == other)))
        → (k : Bytes) × (put bytes_eq d.peers k0 none k ≡ some r)
    unfolding remove_ips
    removed_by_ip n r e =
        let (before, kept) = laws.retained d.peers_by_ip (λ m other. not (r0 == other)) n r e in
        let (k, named) = v.by_ip n r before in
        let k_apart : k ≢ k0 = λ same.
          let clash : r ≡ r0 = some_injective r r0 (sym named ∙ ap d.peers same ∙ found) in
          ground arith in
        (k, put_other bytes_eq d.peers k0 none k r (other_key k k0 k_apart) named)

    own_heap :
        (r : ℕ) (p : Peer w)
        → put same_index d.heap r0 (some p1) r ≡ some p
        → (q : Peer w) × (d.heap r ≡ some q) × (p.index ≡ q.index)
    own_heap r p e = elim (put_cases same_index d.heap r0 (some p1) r p e) [
      | inl (here, same) ↦
          let at : r ≡ r0 = ground arith in
          (p0, ap d.heap at ∙ on_heap, ap (λ q. q.index) (sym (some_injective p1 p same)) ∙ own)
      | inr (there, same) ↦ (p, same, refl)
    ]

    pub purge-IsCoherent : IsCoherent w (purge w d k0 r0 p0 p1) used
    unfolding purge
    purge-IsCoherent = record {
      by_key = removed_by_key;
      by_idx = removed_by_idx;
      by_ip = removed_by_ip;
      one = λ k k' r e e'.
          v.one k k' r (removed bytes_eq d.peers k0 k r e).1
            (removed bytes_eq d.peers k0 k' r e').1;
      issued = v.issued;
      known = λ r p e. let (q, here, index) = own_heap r p e in rw index (v.known r q here);
      small = λ r p e. let (q, here, index) = own_heap r p e in v.small r q here;
    }
