-- ===== src/Device.antt =====
-- A device and its tables of peers, of boringtun/src/device/mod.rs. A peer that the tables share is
-- an entry of a heap, and the tables hold its number; a hash map is a function.
pub mod Lfsr
pub mod Indices
pub mod Coherent
pub mod Added
pub mod Keyed
pub mod Reach
pub mod States
pub mod Api
pub mod Configured
use pq_boringtun.Base.{
  ℕ, ◌+◌, ◌≡◌, Bool, true, false, ◌==◌, if◌then◌else◌, List, [], ◌∷◌, Option, none, some,
}
use pq_boringtun.Base.Bytes.{Bytes, bytes_eq}
use pq_boringtun.Errors.{Result, ok, err, panics, ◌>>=◌}
use pq_boringtun.Crypto.{Crypto}
use pq_boringtun.RateLimiter.{RateLimiter, new_rate_limiter}
use pq_boringtun.Handshake.{TimeStamper}
use pq_boringtun.AllowedIps.{Networks, insert_ip, find_ip, remove_ips}
use pq_boringtun.Tunnel.{Tunn, new_tunn, own_limiter, set_tunn_private}
use pq_boringtun.Peer.{Peer, SocketAddr, AllowedIp, new_peer, shutdown_endpoint}
use pq_boringtun.Device.Lfsr.{IndexLfsr, next}

-- `HashMap::insert` and `HashMap::remove`
abbrev pub put {ℓ κ} :
    {K : Type ℓ} {A : Type κ} → (K → K → Bool) → (K → Option A) → K → Option A → K → Option A
put same table key value other = if same other key then value else table other

abbrev pub same_index : ℕ → ℕ → Bool
same_index i j = i == j

abbrev pub handshake_rate_limit : ℕ
handshake_rate_limit = 100

-- What a call takes from its surroundings: the bytes of a new limiter, the clocks, and whether the
-- system shuts a socket down.
pub record Fresh : Type 0 where
  pub secret_key : Bytes
  pub nonce_key : Bytes
  pub stamper : TimeStamper
  pub now : ℕ
  pub shuts : ℕ → Bool

module _ (w : Networks) where
  -- The fields of `Device` that concern its peers.
  pub record Device : Type 0 where
    pub key_pair : Option (Bytes × Bytes)
    pub peers : Bytes → Option ℕ
    pub peers_by_ip : w.Table ℕ
    pub peers_by_idx : ℕ → Option ℕ
    pub next_index : IndexLfsr
    pub heap : ℕ → Option (Peer w)
    pub allocated : ℕ
    pub rate_limiter : Option RateLimiter

  -- A device without peers, from the two seeds of its indices.
  unfoldable pub new_device : IndexLfsr → Device
  new_device g = record {
    key_pair = none;
    peers = λ key. none;
    peers_by_ip = w.empty;
    peers_by_idx = λ index. none;
    next_index = g;
    heap = λ r. none;
    allocated = 0;
    rate_limiter = none;
  }

  -- `remove_peer` once the peer has been found and its connection shut down.
  unfoldable pub purge : Device → Bytes → ℕ → Peer w → Peer w → Device
  purge d pub_key r p disconnected = record d {
    peers = put bytes_eq d.peers pub_key none;
    heap = put same_index d.heap r (some disconnected);
    peers_by_idx = put same_index d.peers_by_idx p.index none;
    peers_by_ip = remove_ips w d.peers_by_ip (λ other. r == other);
  }

  -- `Device::remove_peer`; a number without an entry does not occur.
  unfoldable pub remove_peer : (ℕ → Bool) → Device → Bytes → Result Device
  remove_peer shuts d pub_key = elim (d.peers pub_key) [
    | none ↦ ok d
    | some r ↦ elim (d.heap r) [
      | none ↦ ok (record d { peers = put bytes_eq d.peers pub_key none })
      | some p ↦
          shutdown_endpoint w shuts p >>= λ disconnected. ok (purge d pub_key r p disconnected)
    ]
  ]

  -- The networks of a new peer.
  unfoldable pub add_routes : w.Table ℕ → List AllowedIp → ℕ → Result (w.Table ℕ)
  add_routes t [] r = ok t
  add_routes t (ip ∷ rest) r =
      insert_ip w t ip.addr ip.cidr r >>= λ inserted. add_routes inserted.0 rest r

  -- `update_peer` once the peer has been made.
  unfoldable pub add_peer : Device → Bytes → Peer w → List AllowedIp → Result Device
  add_peer d pub_key p allowed_ips =
      let r = d.allocated in
      add_routes d.peers_by_ip allowed_ips r >>= λ routes. ok (record d {
        peers = put bytes_eq d.peers pub_key (some r);
        peers_by_idx = put same_index d.peers_by_idx p.index (some r);
        peers_by_ip = routes;
        heap = put same_index d.heap r (some p);
        allocated = r + 1;
      })

  -- `update_peer` once there is an index and a key pair.
  unfoldable pub make_peer :
      Crypto
      → Device
      → Bytes
      → Option SocketAddr
      → List AllowedIp
      → ℕ
      → Option Bytes
      → ℕ
      → Bytes
      → Fresh
      → Result (Peer w)
  make_peer c d pub_key endpoint allowed_ips keepalive preshared_key index private_key f =
      let limiter = own_limiter c (c.public_key private_key) f.secret_key f.nonce_key f.now in
      let tunn =
        new_tunn c private_key pub_key preshared_key keepalive index limiter false f.stamper
          f.now in
      new_peer w tunn index endpoint allowed_ips preshared_key

  -- `Device::update_peer`; no keepalive is 0.
  unfoldable pub update_peer :
      Crypto
      → Device
      → Bytes
      → Bool
      → Option SocketAddr
      → List AllowedIp
      → ℕ
      → Option Bytes
      → Fresh
      → Result Device
  update_peer c d pub_key remove endpoint allowed_ips keepalive preshared_key f =
      if remove then remove_peer f.shuts d pub_key else elim (d.peers pub_key) [
        | some r ↦ panics
        | none ↦ next d.next_index >>= λ given. elim (d.key_pair) [
          | none ↦ panics
          | some pair ↦
              make_peer c d pub_key endpoint allowed_ips keepalive preshared_key given.1 pair.0 f
              >>= λ p. add_peer (record d { next_index = given.0 }) pub_key p allowed_ips
        ]
      ]

  -- `Device::clear_peers`
  unfoldable pub clear_peers : Device → Device
  clear_peers d = record d {
    peers = λ key. none;
    peers_by_idx = λ index. none;
    peers_by_ip = w.empty;
  }

  -- The loop of `set_key` over the peers, in the order in which the hash map yields them.
  unfoldable pub set_keys :
      Crypto
      → List ℕ
      → (ℕ → Option (Peer w))
      → Bytes
      → Bytes
      → RateLimiter
      → Result (ℕ → Option (Peer w))
  set_keys c [] heap private_key public_key limiter = ok heap
  set_keys c (r ∷ rest) heap private_key public_key limiter = elim (heap r) [
    | none ↦ set_keys c rest heap private_key public_key limiter
    | some p ↦
        let (tunnel, done) = set_tunn_private c p.tunnel private_key public_key limiter true in
        done >>= λ unit.
        set_keys c rest (put same_index heap r (some (record p { tunnel = tunnel }))) private_key
          public_key limiter
  ]

  -- `Some(&public_key) == self.key_pair.as_ref().map(|p| &p.1)`
  abbrev pub has_key : Device → Bytes → Bool
  has_key d public_key = elim (d.key_pair) [ none ↦ false | some pair ↦ bytes_eq pair.1 public_key ]

  -- `Device::set_key`; each peer gets the new limiter as it is then.
  unfoldable pub set_key : Crypto → Device → List ℕ → Bytes → Fresh → Result Device
  set_key c d values private_key f =
      let public_key = c.public_key private_key in
      let limiter =
        new_rate_limiter c public_key handshake_rate_limit f.secret_key f.nonce_key f.now in
      if has_key d public_key
      then ok d
      else set_keys c values d.heap private_key public_key limiter >>= λ heap. ok (record d {
        heap = heap;
        key_pair = some (private_key, public_key);
        rate_limiter = some limiter;
      })
