-- ===== src/Device/States.antt =====
-- All states that a device can be in, and what the removal of a peer leaves.
use mathlib.Core.Path.{subst}
use pq_boringtun.Base.{
  [], ℕ, ◌^◌, ◌<◌, ◌≡◌, ◌≢◌, inl, inr, refl, sym, ap, ◌∙◌, arith, Bool, true, not, ◌==◌, List,
  Option, none, some, Option-cases,
}
use pq_boringtun.Base.Bytes.{Bytes}
use pq_boringtun.Errors.{ok, IfOk}
use pq_boringtun.Crypto.{Crypto}
use pq_boringtun.RateLimiter.{IpAddr}
use pq_boringtun.AllowedIps.{Networks, NetworksLaws, In, find_ip, remove_ips}
use pq_boringtun.Peer.{SocketAddr, AllowedIp}
use pq_boringtun.Device.Lfsr.{seeded}
use pq_boringtun.Device.Indices.{IsState}
use pq_boringtun.Peer.{Peer, shut, shutdown_endpoint}
use pq_boringtun.Device.{
  Device, Fresh, same_index, new_device, purge, remove_peer, update_peer, clear_peers, set_key,
}
use pq_boringtun.Device.Api.{Readers, api_set_peer}
use pq_boringtun.Device.Configured.{api_set_peer-Coherent}
use pq_boringtun.Device.Coherent.{IsCoherent, removed, same_key, some_injective}
use pq_boringtun.Device.Reach.{
  AreCoherent, new_device-IsCoherent, update_peer-IsCoherent, set_key-IsCoherent,
  clear_peers-IsCoherent,
}

-- What is found for an address is in the table.
found_route :
    (w : Networks) (laws : NetworksLaws w) (t : w.Table ℕ) (addr : IpAddr) (r : ℕ)
    → find_ip w t addr ≡ some r
    → (n : w.Network) × In (n, r) (w.entries t)
unfolding find_ip
found_route w laws t addr r e = elim (Option-cases (w.longest_match t addr)) [
  | inl nothing ↦ absurd (ground arith)
  | inr ((n, a), found) ↦
      let same : a ≡ r = ground arith in
      (n, subst (λ x. In (n, x) (w.entries t)) same (laws.matched t addr n a found).0)
]

module _ (w : Networks) (c : Crypto) where
  -- A call of an operation that returns; the order of the peers in a hash map is any.
  pub data Call (d : Device w) : Device w → Type 0 where
    updates :
        (d' : Device w) (k : Bytes) (remove : Bool) (endpoint : Option SocketAddr)
        (ips : List AllowedIp) (keepalive : ℕ) (psk : Option Bytes) (f : Fresh)
        → update_peer w c d k remove endpoint ips keepalive psk f ≡ ok d'
        → Call d d'
    keys :
        (d' : Device w) (values : List ℕ) (private_key : Bytes) (f : Fresh)
        → set_key w c d values private_key f ≡ ok d'
        → Call d d'
    clears : Call d (clear_peers w d)
    configures :
        (d' : Device w) (errno : ℕ) (texts : Readers) (fresh : Device w → Fresh) (pub_key : Bytes)
        (lines : List (Option Bytes))
        → api_set_peer w c texts fresh d pub_key lines ≡ ok (d', errno)
        → Call d d'

  pub data Calls (s : Device w) : Device w → Type 0 where
    none_yet : Calls s s
    then : {d d' : Device w} → Calls s d → Call d d' → Calls s d'

  module _ (laws : NetworksLaws w) where
    Call-Coherent : {d d' : Device w} → Call d d' → AreCoherent w d → AreCoherent w d'
    Call-Coherent {d = d} (updates d' k remove endpoint ips keepalive psk f e) (used, v) =
        subst (IfOk (AreCoherent w)) e
          (update_peer-IsCoherent w laws c d used k remove endpoint ips keepalive psk f v)
    Call-Coherent {d = d} (keys d' values private_key f e) (used, v) =
        subst (IfOk (AreCoherent w)) e (set_key-IsCoherent w laws c d used values private_key f v)
    Call-Coherent {d = d} (configures d' errno texts fresh pub_key lines e) v =
        subst (IfOk (λ r. AreCoherent w r.0)) e
          (api_set_peer-Coherent w laws c texts fresh d pub_key lines v)
    Call-Coherent {d = d} clears (used, v) = (used, clear_peers-IsCoherent w laws d used v)

    Calls-Coherent : {s d : Device w} → AreCoherent w s → Calls s d → AreCoherent w d
    Calls-Coherent v none_yet = v
    Calls-Coherent v (then run call) = Call-Coherent call (Calls-Coherent v run)

    -- In every state that a device without peers reaches by calls that return, sections of the
    -- configuration protocol among them, for some list of indices that have been given out, all
    -- distinct: each peer is found by its own index, each index and each route name a peer that is
    -- there, a peer has one key, and every peer's index is one of those.
    pub device-Coherent :
        (seed mask : ℕ) (d : Device w)
        → IsState seed
        → mask < 2 ^ 24
        → Calls (new_device w (seeded seed mask)) d
        → AreCoherent w d
    device-Coherent seed mask d s m run =
        Calls-Coherent ([], new_device-IsCoherent w laws seed mask s m) run

    shutdown_returns :
        (shuts : ℕ → Bool)
        → ((s : ℕ) → shuts s ≡ true)
        → (conn : Option ℕ) → shut shuts conn ≡ ok tt
    shutdown_returns shuts all none = refl
    shutdown_returns shuts all (some s) = rw (all s) refl

    -- When the system shuts every socket down, removing a peer of a coherent device returns, and the
    -- peer is then found neither by its key nor by any index, nor for any address.
    pub remove_peer-Forgets :
        (shuts : ℕ → Bool) (d : Device w) (used : List ℕ) (k : Bytes) (r : ℕ)
        → ((s : ℕ) → shuts s ≡ true)
        → IsCoherent w d used
        → d.peers k ≡ some r
        → (d' : Device w) × (remove_peer w shuts d k ≡ ok d')
          × (d'.peers k ≡ none)
          × ((i : ℕ) → d'.peers_by_idx i ≢ some r)
          × ((addr : IpAddr) → find_ip w d'.peers_by_ip addr ≢ some r)
    unfolding remove_peer purge find_ip remove_ips shutdown_endpoint
    remove_peer-Forgets shuts d used k r all v found =
        let (p, here, indexed) = v.by_key k r found in
        let closed : Peer w = record p { endpoint = record (p.endpoint) { conn = none } } in
        (
          purge w d k r p closed,
          rw (remove_peer, found, here, shutdown_returns shuts all p.endpoint.conn) refl,
          rw (same_key k) refl,
          λ i e.
              let (other, there) = removed same_index d.peers_by_idx p.index i r e in
              let (k', q, named, at, index) = v.by_idx i r there in
              let same : q ≡ p = some_injective q p (sym at ∙ here) in
              let clash : i ≡ p.index = sym index ∙ ap (λ x. x.index) same in ground arith,
          λ addr e.
              let (n, routed) =
                found_route w laws (remove_ips w d.peers_by_ip (λ other. r == other)) addr r e in
              let (before, kept) =
                laws.retained d.peers_by_ip (λ m other. not (r == other)) n r routed in
              ground arith,
        )
