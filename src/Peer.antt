-- ===== src/Peer.antt =====
-- A peer and its endpoint, of boringtun/src/device/peer.rs. A socket is a number that the system
-- gives it, and a closed one is gone.
use pq_boringtun.Base.{
  ℕ, Bool, true, false, ◌&&◌, ◌==◌, if◌then◌else◌, List, [], ◌∷◌, Option, none, some,
}
use pq_boringtun.Base.Bytes.{Bytes, bytes_eq}
use pq_boringtun.Errors.{Result, ok, panics, ◌>>=◌, ◌>>◌}
use pq_boringtun.Crypto.{Crypto}
use pq_boringtun.RateLimiter.{IpAddr, v4, v6}
use pq_boringtun.AllowedIps.{Networks, no_ips, insert_ip, find_ip, iter_ips}
use pq_boringtun.Tunnel.{Tunn, TunnResult, Moment}
use pq_boringtun.Tunnel.Update.{update_timers}

abbrev pub same_ip : IpAddr → IpAddr → Bool
same_ip (v4 x) (v4 y) = bytes_eq x y
same_ip (v6 x) (v6 y) = bytes_eq x y
same_ip (v4 x) (v6 y) = false
same_ip (v6 x) (v4 y) = false

-- `SocketAddr`
pub record SocketAddr : Type 0 where
  pub ip : IpAddr
  pub port : ℕ

abbrev pub same_addr : SocketAddr → SocketAddr → Bool
same_addr x y = same_ip x.ip y.ip && x.port == y.port

pub record Endpoint : Type 0 where
  pub addr : Option SocketAddr
  pub conn : Option ℕ

pub record AllowedIp : Type 0 where
  pub addr : IpAddr
  pub cidr : ℕ

-- The `Error` of a connection.
pub data ConnectError : Type 0 where
  connected io_error : ConnectError

pub data Connected : Type 0 where
  socket : ℕ → Connected
  no_socket : ConnectError → Connected
  undefined_endpoint : Connected

-- `conn.shutdown(Shutdown::Both).unwrap()` of an open connection, with what the system answers.
abbrev pub shut : (ℕ → Bool) → Option ℕ → Result (Unit {0})
shut shuts none = ok tt
shut shuts (some s) = if shuts s then ok tt else panics

module _ (w : Networks) where
  pub record Peer : Type 0 where
    pub tunnel : Tunn
    pub index : ℕ
    pub endpoint : Endpoint
    pub allowed_ips : w.Table (Unit {0})
    pub preshared_key : Option Bytes

  -- `allowed_ips.iter().map(|ip| (ip, ())).collect()`
  unfoldable pub collect_ips : w.Table (Unit {0}) → List AllowedIp → Result (w.Table (Unit {0}))
  collect_ips t [] = ok t
  collect_ips t (ip ∷ rest) =
      insert_ip w t ip.addr ip.cidr tt >>= λ inserted. collect_ips inserted.0 rest

  -- `Peer::new`
  unfoldable pub new_peer :
      Tunn → ℕ → Option SocketAddr → List AllowedIp → Option Bytes → Result Peer
  new_peer tunnel index endpoint allowed_ips preshared_key =
      collect_ips (no_ips w) allowed_ips >>= λ ips. ok (record {
        tunnel = tunnel;
        index = index;
        endpoint = record { addr = endpoint; conn = none };
        allowed_ips = ips;
        preshared_key = preshared_key;
      })

  -- `Peer::update_timers`
  unfoldable pub update_peer_timers : Crypto → Peer → Moment → Peer × TunnResult
  update_peer_timers c p m =
      let (tunnel, result) = update_timers c p.tunnel m in (record p { tunnel = tunnel }, result)

  -- `Peer::shutdown_endpoint`
  unfoldable pub shutdown_endpoint : (ℕ → Bool) → Peer → Result Peer
  shutdown_endpoint shuts p =
      shut shuts p.endpoint.conn >> ok (record p { endpoint = record (p.endpoint) { conn = none } })

  -- `endpoint.addr != Some(addr)`
  abbrev pub differs : Option SocketAddr → SocketAddr → Bool
  differs none addr = true
  differs (some old) addr = if same_addr old addr then false else true

  -- `Peer::set_endpoint`
  unfoldable pub set_endpoint : (ℕ → Bool) → Peer → SocketAddr → Result Peer
  set_endpoint shuts p addr =
      if differs p.endpoint.addr addr
      then shut shuts p.endpoint.conn
        >> ok (record p { endpoint = record { addr = some addr; conn = none } })
      else ok p

  -- `Peer::connect_endpoint`, with what the system returns for the new socket.
  unfoldable pub connect_endpoint : Peer → (SocketAddr → Option ℕ) → Peer × Connected
  connect_endpoint p opened = elim (p.endpoint.conn) [
    | some conn ↦ (p, no_socket connected)
    | none ↦ elim (p.endpoint.addr) [
      | none ↦ (p, undefined_endpoint)
      | some addr ↦ elim (opened addr) [
        | none ↦ (p, no_socket io_error)
        | some s ↦ (record p { endpoint = record (p.endpoint) { conn = some s } }, socket s)
      ]
    ]
  ]

  -- `Peer::is_allowed_ip`
  unfoldable pub is_allowed_ip : Peer → IpAddr → Bool
  is_allowed_ip p addr = elim (find_ip w p.allowed_ips addr) [ some unit ↦ true | none ↦ false ]

  -- `Peer::allowed_ips`
  unfoldable pub allowed_ips_of : Peer → List (IpAddr × ℕ)
  allowed_ips_of p = drop_units (iter_ips w p.allowed_ips)
    where
      drop_units : List (Unit {0} × (IpAddr × ℕ)) → List (IpAddr × ℕ)
      drop_units [] = []
      drop_units (e ∷ es) = e.1 ∷ drop_units es
