-- ===== src/Tests/Device.antt =====
-- A device with a key and a peer.
use pq_boringtun.Base.{ℕ, ◌≡◌, ◌≢◌, refl, arith, true, false, List, [], ◌∷◌, none, some}
use pq_boringtun.Errors.{Result, ok, err, panics}
use pq_boringtun.RateLimiter.{IpAddr, v4}
use pq_boringtun.AllowedIps.{find_ip, insert_ip}
use pq_boringtun.Peer.{AllowedIp, new_peer, collect_ips}
use pq_boringtun.Device.Lfsr.{seeded, next, shift}
use pq_boringtun.Device.{
  Device, Fresh, new_device, update_peer, remove_peer, set_key, set_keys, add_peer, add_routes,
  make_peer,
}
use pq_boringtun.Device.States.{
  Calls, none_yet, then, updates, keys, device-Coherent, remove_peer-Forgets,
}
use pq_boringtun.Device.Reach.{AreCoherent}
use pq_boringtun.Tests.Networks.{simple_networks, simple_networks_laws}
use pq_boringtun.Tests.Primitives.{simple}
use pq_boringtun.Tests.Handshake.{alice_secret, bob_secret, clock}

abbrev fresh_bytes : Fresh
fresh_bytes = record {
  secret_key = [];
  nonce_key = [];
  stamper = clock;
  now = 1000;
  shuts = λ s. true;
}

abbrev empty_device : Device simple_networks
empty_device = new_device simple_networks (seeded 1 5)

abbrev result_or : Device simple_networks → Result (Device simple_networks) → Device simple_networks
result_or d (ok d') = d'
result_or d (err e) = d
result_or d panics = d

abbrev keyed : Device simple_networks
keyed =
    result_or empty_device (set_key simple_networks simple empty_device [] alice_secret fresh_bytes)

abbrev ips : List AllowedIp
ips = record { addr = v4 (10 ∷ 0 ∷ 0 ∷ 1 ∷ []); cidr = 24 } ∷ []

abbrev peopled : Device simple_networks
peopled =
    result_or keyed
      (update_peer simple_networks simple keyed bob_secret false none ips 25 none fresh_bytes)

set_key_returns : set_key simple_networks simple empty_device [] alice_secret fresh_bytes ≡ ok keyed
unfolding set_key set_keys new_device
set_key_returns = refl

update_returns :
    update_peer simple_networks simple keyed bob_secret false none ips 25 none fresh_bytes
    ≡ ok peopled
unfolding set_key set_keys new_device update_peer next shift seeded add_peer add_routes make_peer
    new_peer collect_ips insert_ip
update_returns = refl

run : Calls simple_networks simple empty_device peopled
run =
    then (then none_yet (keys keyed [] alice_secret fresh_bytes set_key_returns))
      (updates peopled bob_secret false none ips 25 none fresh_bytes update_returns)

device-Coherent_example : AreCoherent simple_networks peopled
device-Coherent_example =
    device-Coherent simple_networks simple simple_networks_laws 1 5 peopled
      (omega arith, omega arith) (omega arith) run

coherent : AreCoherent simple_networks peopled
coherent =
    device-Coherent simple_networks simple simple_networks_laws 1 5 peopled
      (omega arith, omega arith) (omega arith) run

bob_found : peopled.peers bob_secret ≡ some 0
unfolding set_key set_keys new_device update_peer next shift seeded add_peer add_routes make_peer
    new_peer collect_ips insert_ip
bob_found = refl

remove_peer-Forgets_example :
    (d' : Device simple_networks) × (remove_peer simple_networks (λ s. true) peopled bob_secret
      ≡ ok d')
    × (d'.peers bob_secret ≡ none)
    × ((i : ℕ) → d'.peers_by_idx i ≢ some 0)
    × ((addr : IpAddr) → find_ip simple_networks d'.peers_by_ip addr ≢ some 0)
remove_peer-Forgets_example =
    remove_peer-Forgets simple_networks simple simple_networks_laws (λ s. true) peopled coherent.0
      bob_secret 0 (λ s. refl) coherent.1 bob_found
