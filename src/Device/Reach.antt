-- ===== src/Device/Reach.antt =====
-- The states that a device can be in, and what removing a peer leaves.
use mathlib.Core.Path.{subst}
use pq_boringtun.Base.{
  ℕ, ◌^◌, ◌<◌, ◌≡◌, inl, inr, refl, Bool, if_both, List, [], ◌∷◌, Option, Option-cases,
}
use pq_boringtun.Base.Bytes.{Bytes}
use pq_boringtun.Errors.{Result, ok, err, panics, IfOk}
use pq_boringtun.Crypto.{Crypto}
use pq_boringtun.AllowedIps.{Networks, NetworksLaws, In}
use pq_boringtun.Peer.{Peer, SocketAddr, AllowedIp, collect_ips, new_peer, shut, shutdown_endpoint}
use pq_boringtun.Device.Lfsr.{seeded, next}
use pq_boringtun.Device.Indices.{IsState, next-Issued, seeded-Issued}
use pq_boringtun.Device.{
  Device, Fresh, new_device, remove_peer, add_routes, add_peer, make_peer, update_peer, clear_peers,
  set_keys, has_key, set_key,
}
use pq_boringtun.Device.Coherent.{IsCoherent, purge-IsCoherent}
use pq_boringtun.Device.Keyed.{SameIndices, set_keys-SameIndices, reheap-IsCoherent}
use pq_boringtun.Device.Added.{
  RoutesOf, bind-IfOk, imply-IfOk, add_routes-RoutesOf, enter-IsCoherent,
}

-- The tables name the same peers, for some list of indices that have been given out.
abbrev pub AreCoherent : (w : Networks) → Device w → Type 0
AreCoherent w d = (used : List ℕ) × IsCoherent w d used

module _ (w : Networks) (laws : NetworksLaws w) where
  anything-IfOk : {A : Type 0} (r : Result A) → IfOk (λ a. Unit {0}) r
  anything-IfOk (ok a) = tt
  anything-IfOk (err e) = tt
  anything-IfOk panics = tt

  shutdown-index :
      (shuts : ℕ → Bool) (p : Peer w)
      → IfOk (λ (q : Peer w). q.index ≡ p.index) (shutdown_endpoint w shuts p)
  unfolding shutdown_endpoint
  shutdown-index shuts p =
      bind-IfOk (λ t. Unit {0}) (λ (q : Peer w). q.index ≡ p.index) (shut shuts p.endpoint.conn) _
        (anything-IfOk (shut shuts p.endpoint.conn)) (λ t u. refl)

  pub remove_peer-IsCoherent :
      (shuts : ℕ → Bool) (d : Device w) (used : List ℕ) (k : Bytes)
      → IsCoherent w d used
      → IfOk (λ d'. IsCoherent w d' used) (remove_peer w shuts d k)
  unfolding remove_peer
  remove_peer-IsCoherent shuts d used k v = elim (Option-cases (d.peers k)) [
    | inl absent ↦ rw (remove_peer, absent) v
    | inr (r, found) ↦
        let (p, here, indexed) = v.by_key k r found in
        rw (remove_peer, found, here)
          (bind-IfOk (λ (q : Peer w). q.index ≡ p.index) (λ d'. IsCoherent w d' used)
            (shutdown_endpoint w shuts p) _ (shutdown-index shuts p)
            λ q own. purge-IsCoherent w laws d used v k r p found here q own)
  ]

  pub clear_peers-IsCoherent :
      (d : Device w) (used : List ℕ) → IsCoherent w d used → IsCoherent w (clear_peers w d) used
  unfolding clear_peers
  clear_peers-IsCoherent d used v = record {
    by_key = λ k r e. absurd cc;
    by_idx = λ i r e. absurd cc;
    by_ip = λ n r e. absurd (subst (λ es. In (n, r) es) (laws.no_entries {A = ℕ}) e);
    one = λ k k' r e e'. absurd cc;
    issued = v.issued;
    known = v.known;
    small = v.small;
  }

  pub new_device-IsCoherent :
      (seed mask : ℕ)
      → IsState seed
      → mask < 2 ^ 24
      → IsCoherent w (new_device w (seeded seed mask)) []
  unfolding new_device
  new_device-IsCoherent seed mask s m = record {
    by_key = λ k r e. absurd cc;
    by_idx = λ i r e. absurd cc;
    by_ip = λ n r e. absurd (subst (λ es. In (n, r) es) (laws.no_entries {A = ℕ}) e);
    one = λ k k' r e e'. absurd cc;
    issued = seeded-Issued seed mask s m;
    known = λ r p e. absurd cc;
    small = λ r p e. absurd cc;
  }

  make_peer-index :
      (c : Crypto) (d : Device w) (k : Bytes) (endpoint : Option SocketAddr) (ips : List AllowedIp)
      (keepalive : ℕ) (psk : Option Bytes) (index : ℕ) (private_key : Bytes) (f : Fresh)
      → IfOk
          (λ (p : Peer w). p.index ≡ index)
          (make_peer w c d k endpoint ips keepalive psk index private_key f)
  unfolding make_peer new_peer
  make_peer-index c d k endpoint ips keepalive psk index private_key f =
      bind-IfOk (λ t. Unit {0}) (λ (p : Peer w). p.index ≡ index) (collect_ips w w.empty ips) _
        (anything-IfOk (collect_ips w w.empty ips)) (λ t u. refl)

  pub update_peer-IsCoherent :
      (c : Crypto) (d : Device w) (used : List ℕ) (k : Bytes) (remove : Bool)
      (endpoint : Option SocketAddr) (ips : List AllowedIp) (keepalive : ℕ) (psk : Option Bytes)
      (f : Fresh)
      → IsCoherent w d used
      → IfOk (AreCoherent w) (update_peer w c d k remove endpoint ips keepalive psk f)
  unfolding update_peer add_peer
  update_peer-IsCoherent c d used k remove endpoint ips keepalive psk f v =
      if_both (IfOk (AreCoherent w)) remove _ _
        (λ removes.
          imply-IfOk (λ d'. IsCoherent w d' used) (AreCoherent w) (remove_peer w f.shuts d k)
            (remove_peer-IsCoherent f.shuts d used k v) λ d' v'. (used, v'))
        λ adds. elim (Option-cases (d.peers k)) [
          | inr (r, there) ↦ rw there tt
          | inl absent ↦ rw absent (
              bind-IfOk _ (AreCoherent w) (next d.next_index) _
                (next-Issued d.next_index used v.issued)
                λ given new. elim (Option-cases d.key_pair) [
                  | inl no_key ↦ rw no_key tt
                  | inr (pair, keyed) ↦ rw keyed (
                      bind-IfOk (λ (p : Peer w). p.index ≡ given.1) (AreCoherent w)
                        (make_peer w c d k endpoint ips keepalive psk given.1 pair.0 f) _
                        (make_peer-index c d k endpoint ips keepalive psk given.1 pair.0 f)
                        λ p index.
                          bind-IfOk (RoutesOf w d.peers_by_ip d.allocated) (AreCoherent w)
                            (add_routes w d.peers_by_ip ips d.allocated) _
                            (add_routes-RoutesOf w laws ips d.peers_by_ip d.allocated)
                            λ routes from. (
                              p.index ∷ used,
                              enter-IsCoherent w laws d used v given.0 k p absent (rw index new.0)
                                  (rw index new.1) routes from,
                            ))
                ])
        ]

  pub set_key-IsCoherent :
      (c : Crypto) (d : Device w) (used : List ℕ) (values : List ℕ) (private_key : Bytes)
      (f : Fresh)
      → IsCoherent w d used
      → IfOk (AreCoherent w) (set_key w c d values private_key f)
  unfolding set_key
  set_key-IsCoherent c d used values private_key f v =
      if_both (IfOk (AreCoherent w)) (has_key w d (c.public_key private_key)) _ _
        (λ same. (used, v))
        λ new.
          bind-IfOk (SameIndices w d.heap) (AreCoherent w)
            (set_keys w c values d.heap private_key (c.public_key private_key) _) _
            (set_keys-SameIndices w c values d.heap private_key (c.public_key private_key) _)
            λ heap s.
              (used, reheap-IsCoherent w d used heap (private_key, c.public_key private_key) _ v s)
