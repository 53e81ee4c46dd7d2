-- ===== src/Device/Added.antt =====
-- A new peer in the tables of a device.
use pq_boringtun.Base.{
  ℕ, ◌+◌, ◌%◌, ◌^◌, ◌<◌, ◌≡◌, ◌≢◌, ◌⊎◌, inl, inr, refl, sym, ap, ◌∙◌, arith, true, false, List, [],
  ◌∷◌, none, some, Option-cases,
}
use pq_boringtun.Base.Bytes.{Bytes, bytes_eq, bytes_eq_iff}
use pq_boringtun.Errors.{Result, ok, err, panics, ◌>>=◌, IfOk}
use pq_boringtun.Replay.Spec.{member}
use pq_boringtun.AllowedIps.{Networks, NetworksLaws, In, insert_ip}
use pq_boringtun.Peer.{Peer, AllowedIp}
use pq_boringtun.Device.Lfsr.{IndexLfsr}
use pq_boringtun.Device.Indices.{Issued}
use pq_boringtun.Device.{Device, put, same_index, add_routes}
use pq_boringtun.Device.Coherent.{
  IsCoherent, put_cases, put_other, other_key, same_key, some_injective, other_index,
}

-- The routes of a new peer, and those from before.
abbrev pub RoutesOf : (w : Networks) → w.Table ℕ → ℕ → w.Table ℕ → Type 0
RoutesOf w t r t' =
    (n : w.Network) (r' : ℕ) → In (n, r') (w.entries t') → (r' ≡ r) ⊎ In (n, r') (w.entries t)

pub bind-IfOk {ℓ κ} :
    {A : Type ℓ} {B : Type κ} (Q : A → Type 0) (P : B → Type 0) (r : Result A) (rest : A → Result B)
    → IfOk Q r
    → ((a : A) → Q a → IfOk P (rest a))
    → IfOk P (r >>= rest)
bind-IfOk Q P (ok a) rest q h = h a q
bind-IfOk Q P (err e) rest q h = tt
bind-IfOk Q P panics rest q h = tt

pub imply-IfOk {ℓ} :
    {A : Type ℓ} (Q P : A → Type 0) (r : Result A) → IfOk Q r → ((a : A) → Q a → P a) → IfOk P r
imply-IfOk Q P (ok a) q h = h a q
imply-IfOk Q P (err e) q h = tt
imply-IfOk Q P panics q h = tt

insert-RoutesOf :
    (w : Networks) (laws : NetworksLaws w) (t : w.Table ℕ) (ip : AllowedIp) (r : ℕ)
    → IfOk (λ inserted. RoutesOf w t r inserted.0) (insert_ip w t ip.addr ip.cidr r)
unfolding insert_ip
insert-RoutesOf w laws t ip r = elim (Option-cases (w.new_truncate ip.addr (ip.cidr % 2 ^ 8))) [
  | inl none_made ↦ rw (insert_ip, none_made) tt
  | inr (network, made) ↦
      rw (insert_ip, made)
        λ n r' e. elim (laws.insert_from t network r (n, r') e) [
          | inl same ↦ inl (ap (λ q. q.1) same)
          | inr old ↦ inr old
        ]
]

pub add_routes-RoutesOf :
    (w : Networks) (laws : NetworksLaws w) (ips : List AllowedIp) (t : w.Table ℕ) (r : ℕ)
    → IfOk (RoutesOf w t r) (add_routes w t ips r)
unfolding add_routes
add_routes-RoutesOf w laws [] t r = λ n r' e. inr e
add_routes-RoutesOf w laws (ip ∷ rest) t r =
    bind-IfOk (λ inserted. RoutesOf w t r inserted.0) (RoutesOf w t r)
      (insert_ip w t ip.addr ip.cidr r) (λ inserted. add_routes w inserted.0 rest r)
      (insert-RoutesOf w laws t ip r)
      λ inserted one.
        imply-IfOk (RoutesOf w inserted.0 r) (RoutesOf w t r) (add_routes w inserted.0 rest r)
          (add_routes-RoutesOf w laws rest inserted.0 r)
          λ t' more n r' e. elim (more n r' e) [
            | inl here ↦ inl here
            | inr before ↦ one n r' before
          ]

module _ (w : Networks) (laws : NetworksLaws w) (d : Device w) (used : List ℕ)
    (v : IsCoherent w d used) (g : IndexLfsr) (k0 : Bytes) (p0 : Peer w)
    (absent : d.peers k0 ≡ none) (issued : Issued g (p0.index ∷ used))
    (fresh : member p0.index used ≡ false) where
  -- Nothing that the tables name is the new peer.
  new_on_heap : (r : ℕ) (p : Peer w) → d.heap r ≡ some p → r ≢ d.allocated
  new_on_heap r p e same = absurd (omega (arith, v.small r p e))

  new_index : (r : ℕ) → d.peers_by_idx p0.index ≢ some r
  new_index r e =
      let (k, p, named, here, index) = v.by_idx p0.index r e in
      let old : member p0.index used ≡ true =
        ap (λ i. member i used) (sym index) ∙ v.known r p here in
      cc

  abbrev Entered : w.Table ℕ → Device w
  Entered routes = record d {
    next_index = g;
    peers = put bytes_eq d.peers k0 (some d.allocated);
    peers_by_idx = put same_index d.peers_by_idx p0.index (some d.allocated);
    peers_by_ip = routes;
    heap = put same_index d.heap d.allocated (some p0);
    allocated = d.allocated + 1;
  }

  on_heap : put same_index d.heap d.allocated (some p0) d.allocated ≡ some p0
  on_heap = ground arith

  here_by_idx :
      put same_index d.peers_by_idx p0.index (some d.allocated) p0.index ≡ some d.allocated
  here_by_idx = ground arith

  still_on_heap :
      (r : ℕ) (p : Peer w)
      → d.heap r ≡ some p
      → put same_index d.heap d.allocated (some p0) r ≡ some p
  still_on_heap r p e =
      put_other same_index d.heap d.allocated (some p0) r p
        (other_index r d.allocated (new_on_heap r p e)) e

  here_by_key : put bytes_eq d.peers k0 (some d.allocated) k0 ≡ some d.allocated
  here_by_key = rw (same_key k0) refl

  still_by_key :
      (k : Bytes) (r : ℕ)
      → d.peers k ≡ some r
      → put bytes_eq d.peers k0 (some d.allocated) k ≡ some r
  still_by_key k r e =
      put_other bytes_eq d.peers k0 (some d.allocated) k r
        (other_key k k0
          (λ same. let clash : some r ≡ none = sym e ∙ ap d.peers same ∙ absent in absurd cc))
        e

  added_by_key :
      (k : Bytes) (r : ℕ)
      → put bytes_eq d.peers k0 (some d.allocated) k ≡ some r
      → (p : Peer w) × (put same_index d.heap d.allocated (some p0) r ≡ some p)
        × (put same_index d.peers_by_idx p0.index (some d.allocated) p.index ≡ some r)
  added_by_key k r e = elim (put_cases bytes_eq d.peers k0 (some d.allocated) k r e) [
    | inl (here, same) ↦
        let at : d.allocated ≡ r = some_injective d.allocated r same in
        (
          p0,
          ap (put same_index d.heap d.allocated (some p0)) (sym at) ∙ on_heap,
          here_by_idx ∙ ap some at,
        )
    | inr (other, there) ↦
        let (p, found, indexed) = v.by_key k r there in
        (
          p,
          still_on_heap r p found,
          put_other same_index d.peers_by_idx p0.index (some d.allocated) p.index r
              (other_index p.index p0.index
                (λ same. new_index r (ap d.peers_by_idx (sym same) ∙ indexed)))
              indexed,
        )
  ]

  added_by_idx :
      (i r : ℕ)
      → put same_index d.peers_by_idx p0.index (some d.allocated) i ≡ some r
      → (k : Bytes) × (p : Peer w) × (put bytes_eq d.peers k0 (some d.allocated) k ≡ some r)
        × (put same_index d.heap d.allocated (some p0) r ≡ some p)
        × (p.index ≡ i)
  added_by_idx i r e =
      elim (put_cases same_index d.peers_by_idx p0.index (some d.allocated) i r e) [
        | inl (here, same) ↦
            let at : d.allocated ≡ r = some_injective d.allocated r same in
            (
              k0,
              p0,
              here_by_key ∙ ap some at,
              ap (put same_index d.heap d.allocated (some p0)) (sym at) ∙ on_heap,
              ground arith,
            )
        | inr (other, there) ↦
            let (k, p, named, found, index) = v.by_idx i r there in
            (k, p, still_by_key k r named, still_on_heap r p found, index)
      ]

  added_one :
      (k k' : Bytes) (r : ℕ)
      → put bytes_eq d.peers k0 (some d.allocated) k ≡ some r
      → put bytes_eq d.peers k0 (some d.allocated) k' ≡ some r
      → k ≡ k'
  added_one k k' r e e' = elim (put_cases bytes_eq d.peers k0 (some d.allocated) k r e) [
    | inl (here, same) ↦ elim (put_cases bytes_eq d.peers k0 (some d.allocated) k' r e') [
      | inl (here', same') ↦ (bytes_eq_iff k k0).0 here ∙ sym ((bytes_eq_iff k' k0).0 here')
      | inr (other', there') ↦
          let (p, found, indexed) = v.by_key k' r there' in
          absurd (new_on_heap r p found (sym (some_injective d.allocated r same)))
    ]
    | inr (other, there) ↦ elim (put_cases bytes_eq d.peers k0 (some d.allocated) k' r e') [
      | inl (here', same') ↦
          let (p, found, indexed) = v.by_key k r there in
          absurd (new_on_heap r p found (sym (some_injective d.allocated r same')))
      | inr (other', there') ↦ v.one k k' r there there'
    ]
  ]

  added_known :
      (r : ℕ) (p : Peer w)
      → put same_index d.heap d.allocated (some p0) r ≡ some p
      → member p.index (p0.index ∷ used) ≡ true
  added_known r p e = elim (put_cases same_index d.heap d.allocated (some p0) r p e) [
    | inl (here, same) ↦
        let index : p.index ≡ p0.index = ap (λ q. q.index) (sym (some_injective p0 p same)) in
        ground arith
    | inr (other, there) ↦ let old = v.known r p there in ground arith
  ]

  added_small :
      (r : ℕ) (p : Peer w)
      → put same_index d.heap d.allocated (some p0) r ≡ some p
      → r < d.allocated + 1
  added_small r p e = elim (put_cases same_index d.heap d.allocated (some p0) r p e) [
    | inl (here, same) ↦ let at : r ≡ d.allocated = ground arith in omega (arith, at)
    | inr (other, there) ↦ omega (arith, v.small r p there)
  ]

  pub enter-IsCoherent :
      (routes : w.Table ℕ)
      → RoutesOf w d.peers_by_ip d.allocated routes
      → IsCoherent w (Entered routes) (p0.index ∷ used)
  enter-IsCoherent routes from = record {
    by_key = added_by_key;
    by_idx = added_by_idx;
    by_ip = λ n r e. elim (from n r e) [
      | inl new ↦ (k0, here_by_key ∙ ap some (sym new))
      | inr old ↦ let (k, named) = v.by_ip n r old in (k, still_by_key k r named)
    ];
    one = added_one;
    issued = issued;
    known = added_known;
    small = added_small;
  }
